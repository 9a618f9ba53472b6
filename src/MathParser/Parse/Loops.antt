-- ===== src/MathParser/Parse/Loops.antt =====
-- The two popping loops of `parse_tokens` against one loop, and the order of the operator stack.
use hawk.Prelude.{
  ◌≡◌, refl, ap, Bool, true, false, List, [], ◌∷◌, ◌++◌, All, All-mono, sym, inl, inr, Bool-cases,
  ◌≤ℤ◌, arith,
}
use mathlib.Core.Path.{fun_ext, ◌∙◌}
use mathlib.Core.List.{append_assoc}
use hawk.MathParser.Token.{Operator}
use hawk.MathParser.Expr.{gives_way}
use hawk.MathParser.Shunting.{pop_while, is_left, is_lower, is_same, make_room}

abbrev pub IsBelow : Operator → List Operator → Type 0
IsBelow x [] = Unit
IsBelow x (y ∷ s) = y.precedence ≤ℤ x.precedence

-- Precedences do not rise from the top of the stack down.
abbrev pub IsSorted : List Operator → Type 0
IsSorted [] = Unit
IsSorted (y ∷ s) = IsBelow y s × IsSorted s

pub pop_while-append :
    (p : Operator → Bool) (s : List Operator) → (pop_while p s).0 ++ (pop_while p s).1 ≡ s
unfolding pop_while
pop_while-append p [] = refl
pop_while-append p (y ∷ s) = elim (Bool-cases (p y)) [
  | inl e ↦ rw e (ap (◌∷◌ y) (pop_while-append p s))
  | inr e ↦ rw e
]

module _ (p : Operator → Bool) (y : Operator) (s : List Operator) where
  pop_while-accept : p y ≡ true → pop_while p (y ∷ s) ≡ (y ∷ (pop_while p s).0, (pop_while p s).1)
  unfolding pop_while
  pop_while-accept e = rw e

  pop_while-refuse : p y ≡ false → pop_while p (y ∷ s) ≡ ([], y ∷ s)
  unfolding pop_while
  pop_while-refuse e = rw e

pop_while-congr :
    (p q : Operator → Bool) (s : List Operator)
    → All (λ z. p z ≡ q z) s
    → pop_while p s ≡ pop_while q s
unfolding pop_while
pop_while-congr p q [] h = refl
pop_while-congr p q (y ∷ s) (h, hs) = rw (h, pop_while-congr p q s hs)

abbrev IsUpTo : Operator → Operator → Type 0
IsUpTo x z = z.precedence ≤ℤ x.precedence

IsSorted-All :
    (x y : Operator) (s : List Operator) → IsUpTo x y → IsSorted (y ∷ s) → All (IsUpTo x) (y ∷ s)
IsSorted-All x y [] h sorted = (h, tt)
IsSorted-All x y (z ∷ s) h (b, sorted) = (h, IsSorted-All x z s (omega arith) sorted)

not-is_lower : (x y : Operator) → is_lower x y ≡ false → IsUpTo x y
not-is_lower x y e = ground arith

same-eq-gives_way :
    (x z : Operator) → is_left x.associativity ≡ true → IsUpTo x z → is_same x z ≡ gives_way x z
same-eq-gives_way x z e h = rw e (ground arith)

lower-eq-gives_way :
    (x z : Operator) → is_left x.associativity ≡ false → is_lower x z ≡ gives_way x z
lower-eq-gives_way x z e = rw e (ground arith)

make_room-accept :
    (x y : Operator) (s : List Operator)
    → is_left x.associativity ≡ true
    → is_lower x y ≡ true
    → make_room x (y ∷ s) ≡ (y ∷ (make_room x s).0, (make_room x s).1)
unfolding make_room
make_room-accept x y s e l = rw (e, pop_while-accept (is_lower x) y s l)

make_room-refuse :
    (x y : Operator) (s : List Operator)
    → is_left x.associativity ≡ true
    → is_lower x y ≡ false
    → make_room x (y ∷ s) ≡ pop_while (is_same x) (y ∷ s)
unfolding make_room
make_room-refuse x y s e l = rw (e, pop_while-refuse (is_lower x) y s l)

make_room-left :
    (x : Operator) (s : List Operator)
    → is_left x.associativity ≡ true
    → IsSorted s
    → make_room x s ≡ pop_while (gives_way x) s
make_room-left x [] e h = unfold make_room pop_while in rw e
make_room-left x (y ∷ s) e h = elim (Bool-cases (is_lower x y)) [
  | inl l ↦
      rw (make_room-accept x y s e l, make_room-left x s e h.1)
        (sym (pop_while-accept (gives_way x) y s (rw l)))
  | inr l ↦ rw (make_room-refuse x y s e l) (
      pop_while-congr (is_same x) (gives_way x) (y ∷ s) (
        All-mono (IsUpTo x) (λ z. is_same x z ≡ gives_way x z) (y ∷ s)
          (λ z. same-eq-gives_way x z e) (IsSorted-All x y s (not-is_lower x y l) h)))
]

make_room-other :
    (x : Operator) (s : List Operator)
    → is_left x.associativity ≡ false
    → make_room x s ≡ pop_while (gives_way x) s
unfolding make_room
make_room-other x s e = rw e (ap (λ p. pop_while p s) (fun_ext (λ z. lower-eq-gives_way x z e)))

-- On a sorted stack the two popping loops do what one loop over `gives_way` does.
pub make_room-eq-pop_while :
    (x : Operator) (s : List Operator) → IsSorted s → make_room x s ≡ pop_while (gives_way x) s
make_room-eq-pop_while x s h = elim (Bool-cases (is_left x.associativity)) [
  | inl e ↦ make_room-left x s e h
  | inr e ↦ make_room-other x s e
]

pop_while-IsSorted :
    (p : Operator → Bool) (s : List Operator) → IsSorted s → IsSorted (pop_while p s).1
unfolding pop_while
pop_while-IsSorted p [] h = tt
pop_while-IsSorted p (y ∷ s) h = elim (Bool-cases (p y)) [
  | inl e ↦ rw e (pop_while-IsSorted p s h.1)
  | inr e ↦ rw e h
]

pop_while-IsBelow : (x : Operator) (s : List Operator) → IsBelow x (pop_while (gives_way x) s).1
unfolding pop_while
pop_while-IsBelow x [] = tt
pop_while-IsBelow x (y ∷ s) = elim (Bool-cases (gives_way x y)) [
  | inl e ↦ rw e (pop_while-IsBelow x s)
  | inr e ↦ rw e (ground arith)
]

-- If precedences do not rise from the top of the operator stack down, they do not after an operator
-- has made room and is pushed.
pub make_room-IsSorted :
    (x : Operator) (s : List Operator) → IsSorted s → IsSorted (x ∷ (make_room x s).1)
make_room-IsSorted x s h =
    rw (make_room-eq-pop_while x s h) (pop_while-IsBelow x s, pop_while-IsSorted (gives_way x) s h)

pub make_room-append :
    (x : Operator) (s : List Operator) → (make_room x s).0 ++ (make_room x s).1 ≡ s
make_room-append x s = elim (Bool-cases (is_left x.associativity)) [
  | inl e ↦
      let (higher, s1) = pop_while (is_lower x) s in
      unfold make_room in
      rw e (
        append_assoc higher _ _
        ∙ ap (λ r. higher ++ r) (pop_while-append (is_same x) s1)
        ∙ pop_while-append (is_lower x) s)
  | inr e ↦ unfold make_room in rw e (pop_while-append (is_lower x) s)
]
