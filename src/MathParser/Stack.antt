-- ===== src/MathParser/Stack.antt =====
-- src/math_parser.c: the token stack, and programs that work on it.
-- A stack is a list, its top first. `pop` and `top` of an empty stack and a push on a full one leave
-- the array `stack[STACK_MAX]`, which the source does not check.
use hawk.Prelude.{
  ℕ, List, [], ◌∷◌, Outcome, ok, aborted, undefined, out_of_fuel, length, ltb, if◌then◌else◌,
  lt→ltb, arith, ◌+◌, ◌≤◌, ◌≡◌,
}
use hawk.MathParser.Token.{Token}

abbrev pub stack_max : ℕ
stack_max = 100

abbrev pub TokenStack : Type 0 → Type 0 → Type 0
TokenStack R D = List (Token R D)

-- A program on the stack.
abbrev pub Program {ℓ} : Type 0 → Type 0 → Type ℓ → Type ℓ
Program R D A = TokenStack R D → Outcome (A × TokenStack R D)

-- What follows a program that has ended.
abbrev pub follow {ℓ κ} :
    {R D : Type 0} {A : Type ℓ} {B : Type κ}
    → Outcome (A × TokenStack R D)
    → (A → Program R D B)
    → Outcome (B × TokenStack R D)
follow (ok (a, s)) f = f a s
follow aborted f = aborted
follow undefined f = undefined
follow out_of_fuel f = out_of_fuel

infixl 5 ◌>>=◌ ◌>>◌
abbrev pub ◌>>=◌ {ℓ κ} :
    {R D : Type 0} {A : Type ℓ} {B : Type κ} → Program R D A → (A → Program R D B) → Program R D B
◌>>=◌ m f s = follow (m s) f

abbrev pub ◌>>◌ {ℓ κ} :
    {R D : Type 0} {A : Type ℓ} {B : Type κ} → Program R D A → Program R D B → Program R D B
m >> k = m >>= λ _. k

abbrev pub lift {ℓ} : {R D : Type 0} {A : Type ℓ} → Outcome A → Program R D A
lift (ok a) s = ok (a, s)
lift aborted s = aborted
lift undefined s = undefined
lift out_of_fuel s = out_of_fuel

module _ {R D : Type 0} where
  unfoldable pub token_stack_pop : Program R D (Token R D)
  token_stack_pop [] = undefined
  token_stack_pop (a ∷ s) = ok (a, s)

  unfoldable pub token_stack_push : Token R D → Program R D (Unit {0})
  token_stack_push a s = if ltb (length s) stack_max then ok (tt, a ∷ s) else undefined

  unfoldable pub token_stack_size : TokenStack R D → ℕ
  token_stack_size s = length s

  pub token_stack_push-ok :
      (a : Token R D) (s : TokenStack R D)
      → 1 + length s ≤ stack_max
      → token_stack_push a s ≡ ok (tt, a ∷ s)
  unfolding token_stack_push
  token_stack_push-ok a s room = rw (lt→ltb (length s) stack_max (omega arith))
