-- ===== src/MathParser/Scanner/Readable.antt =====
-- `tokenize_string` of src/math_parser.c: texts that it can read, and what a round consumes.
use hawk.Prelude.{
  ℕ, zero, suc, ◌≤◌, ◌<◌, ◌≡◌, refl, Bool, true, false, not, ◌&&◌, ◌||◌, List, [], ◌∷◌, Outcome, ok,
  aborted, undefined, out_of_fuel, map_ok, ◌>>=◌, Option, if◌then◌else◌, ltb, leb, ◌==◌, length,
  drop, All, arith, Bool-cases, inl, inr,
}
use hawk.Metadata.Choices.{and-true}
use hawk.MathParser.Token.{Operator, Token, TokenName}
use hawk.MathParser.Table.{operator_table}
use hawk.MathParser.Tokenize.{
  variable_name, starts_with, find_row, sign_row, is_digit, is_upper, Round, skipped, emitted,
  refused, Tokens, prepend,
}
use package.hawk.MathParser.Scanner.Names.{IsLetter}

-- C's `strtod` reads a number that starts with a digit, or with a point and a digit.
pub record ReadsNumbers {R : Type 0} (strtod : List ℕ → R × ℕ) : Type 0 where
  pub reads_digit : (c : ℕ) (cs : List ℕ) → is_digit c ≡ true → 0 < (strtod (c ∷ cs)).1
  pub reads_fraction : (d : ℕ) (ds : List ℕ) → is_digit d ≡ true → 0 < (strtod (b'.' ∷ d ∷ ds)).1

abbrev pub starts_with_digit : List ℕ → Bool
starts_with_digit [] = false
starts_with_digit (d ∷ ds) = is_digit d

-- Every point stands before a digit, and no seven capital letters follow each other.
unfoldable pub is_readable : List ℕ → Bool
unfolding variable_name
is_readable [] = true
is_readable (c ∷ cs) =
    (not (c == b'.') || starts_with_digit cs)
    && (leb (length (variable_name (c ∷ cs))) 6 && is_readable cs)

pub is_readable-drop :
    (n : ℕ) (text : List ℕ) → is_readable text ≡ true → is_readable (drop n text) ≡ true
unfolding is_readable
is_readable-drop zero text h = h
is_readable-drop (suc n) [] h = h
is_readable-drop (suc n) (c ∷ cs) h =
    let (point, rest) =
      and-true (not (c == b'.') || starts_with_digit cs)
        (leb (length (variable_name (c ∷ cs))) 6 && is_readable cs) h in
    let (short, later) = and-true (leb (length (variable_name (c ∷ cs))) 6) (is_readable cs) rest in
    is_readable-drop n cs later

pub readable-parts :
    (c : ℕ) (cs : List ℕ)
    → is_readable (c ∷ cs) ≡ true
    → ((not (c == b'.') || starts_with_digit cs) ≡ true) × (length (variable_name (c ∷ cs)) ≤ 6)
unfolding is_readable
readable-parts c cs h =
    let (point, rest) =
      and-true (not (c == b'.') || starts_with_digit cs)
        (leb (length (variable_name (c ∷ cs))) 6 && is_readable cs) h in
    let (short, later) = and-true (leb (length (variable_name (c ∷ cs))) 6) (is_readable cs) rest in
    (point, leb_le (length (variable_name (c ∷ cs))) 6 short)
  where
    leb_le : (a b : ℕ) → leb a b ≡ true → a ≤ b
    leb_le a b e = ground arith

pub variable_name-letters : (text : List ℕ) → All IsLetter (variable_name text)
unfolding variable_name
variable_name-letters [] = tt
variable_name-letters (c ∷ cs) = elim (Bool-cases (is_upper c)) [
  | inl upper ↦ rw upper (letter c upper, variable_name-letters cs)
  | inr other ↦ rw other tt
]
  where
    letter : (d : ℕ) → is_upper d ≡ true → IsLetter d
    letter d h = (ground arith, ground arith)

pub variable_name-nonempty :
    (c : ℕ) (cs : List ℕ) → is_upper c ≡ true → 0 < length (variable_name (c ∷ cs))
unfolding variable_name
variable_name-nonempty c cs h = rw h (omega arith)

-- The rows have identifiers that are not empty.
unfoldable pub named : List Operator → Bool
named [] = true
named (o ∷ rows) = ltb 0 (length o.identifier) && named rows

pub table-named : named operator_table ≡ true
unfolding named
table-named = refl

pub find_row-named :
    (rows : List Operator) (text : List ℕ) → named rows ≡ true → named (find_row rows text) ≡ true
unfolding find_row named
find_row-named [] text h = h
find_row-named (o ∷ rows) text h =
    let (here, later) = and-true (ltb 0 (length o.identifier)) (named rows) h in
    elim (Bool-cases (starts_with o.identifier text)) [
      | inl fits ↦ rw fits h
      | inr other ↦ rw other (find_row-named rows text later)
    ]

pub sign_row-named :
    (is_sign : TokenName → Bool) (last : Option TokenName) (rows : List Operator)
    → named rows ≡ true
    → named (sign_row is_sign last rows) ≡ true
unfolding sign_row named
sign_row-named is_sign last [] h = h
sign_row-named is_sign last (o ∷ rows) h =
    let (here, later) = and-true (ltb 0 (length o.identifier)) (named rows) h in pick _ later
  where
    pick : (b : Bool) → named rows ≡ true → named (if b then rows else o ∷ rows) ≡ true
    pick true e = e
    pick false e = h

-- The code returns a value of which `P` holds.
abbrev pub Returns {ℓ} : {A : Type ℓ} → (A → Type 0) → Outcome A → Type 0
Returns P (ok a) = P a
Returns P aborted = ⊥
Returns P undefined = ⊥
Returns P out_of_fuel = ⊥

pub Returns-bind {ℓ κ} :
    {A : Type ℓ} {B : Type κ} (P : A → Type 0) (Q : B → Type 0) (m : Outcome A) (f : A → Outcome B)
    → Returns P m
    → ((a : A) → P a → Returns Q (f a))
    → Returns Q (m >>= f)
Returns-bind P Q (ok a) f h k = k a h
Returns-bind P Q aborted f h k = absurd h
Returns-bind P Q undefined f h k = absurd h
Returns-bind P Q out_of_fuel f h k = absurd h

pub Returns-if {ℓ} :
    {A : Type ℓ} (P : A → Type 0) (b : Bool) (x y : Outcome A)
    → (b ≡ true → Returns P x)
    → (b ≡ false → Returns P y)
    → Returns P (if b then x else y)
Returns-if P true x y hx hy = hx refl
Returns-if P false x y hx hy = hy refl

pub Returns-value {ℓ} :
    {A : Type ℓ} (P : A → Type 0) (m : Outcome A) → Returns P m → (a : A) × (m ≡ ok a)
Returns-value P (ok a) h = (a, refl)
Returns-value P aborted h = absurd h
Returns-value P undefined h = absurd h
Returns-value P out_of_fuel h = absurd h

-- At least one character of the text is consumed.
abbrev pub Consumes : List ℕ → List ℕ → Type 0
Consumes text rest = (n : ℕ) × (rest ≡ drop (suc n) text)

pub consumes : (k : ℕ) (text : List ℕ) → 0 < k → Consumes text (drop k text)
consumes zero text h = absurd (omega arith)
consumes (suc n) text h = (n, refl)

pub length-drop-le : (n : ℕ) (xs : List ℕ) → length (drop n xs) ≤ length xs
length-drop-le zero xs = omega arith
length-drop-le (suc n) [] = omega arith
length-drop-le (suc n) (x ∷ xs) = omega (arith, length-drop-le n xs)

-- The longest text whose messages fit into the buffers.
abbrev pub message_room : ℕ
message_room = 980

module _ {R D : Type 0} where
  abbrev pub Advances : List ℕ → Round R D → Type 0
  Advances text (skipped s) = Consumes text s.rest
  Advances text (emitted t s) = Consumes text s.rest
  Advances text (refused m) = Unit

  pub prepend-Returns :
      (t : Token R D) (m : Outcome (Tokens R D))
      → Returns (λ ts. Unit {0}) m
      → Returns (λ ts. Unit {0}) (map_ok (prepend t) m)
  prepend-Returns t (ok ts) h = tt
  prepend-Returns t aborted h = h
  prepend-Returns t undefined h = h
  prepend-Returns t out_of_fuel h = h
