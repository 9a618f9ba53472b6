-- ===== src/MathParser/Machine/Values.antt =====
-- The value of an expression of src/math_parser.c, by recursion on its tree.
-- An argument list `A, B` leaves several values; an error token ends the evaluation.
use Prim.Native.Nat.{max}
use hawk.Prelude.{ℕ, ◌+◌, ◌≤◌, ◌<◌, ◌≡◌, List, [], ◌∷◌, ◌++◌, Outcome, ok, map_ok, ◌>>=◌, length}
use hawk.SpImage.{image_size, Numbers, SpLibrary}
use hawk.MathParser.Token.{Operator, Token, image, scalar, error, Message, stack_contains}
use hawk.MathParser.Expr.{Expr, picture, number, prefixed, postfixed, binary}
use hawk.MathParser.Meaning.{Kind, keep, no_operator, operands, operate, kind}

pub data Meaning (R D : Type 0) : Type 0 where
  values : List (Token R D) → Meaning R D
  failed : Message → Meaning R D

module _ {R D : Type 0} where
  -- How many values an operator leaves in the place of `n`.
  abbrev pub results : Kind R D → ℕ → ℕ
  results (keep k) n = n
  results _ n = 1

  -- The function of an operator takes `n` values.
  abbrev pub Accepts : Kind R D → ℕ → Type 0
  Accepts (keep k) n = k ≤ n
  Accepts no_operator n = ⊥
  Accepts k n = n ≡ operands k

  -- So does its row.
  abbrev pub Takes : Kind R D → Operator → ℕ → Type 0
  Takes k o n = Accepts k n × (o.n_operands ≤ n) × (0 < n)

  abbrev pub settle : List (Token R D) → Meaning R D
  settle (error m ∷ ts) = failed m
  settle ts = values ts

  abbrev pub with_values :
      Meaning R D → (List (Token R D) → Outcome (Meaning R D)) → Outcome (Meaning R D)
  with_values (values ts) f = f ts
  with_values (failed m) f = ok (failed m)

  -- The token that stands for a meaning at the end.
  abbrev pub conclude : Meaning R D → Token R D
  conclude (values (t ∷ [])) = t
  conclude (values ts) = error (stack_contains (length ts))
  conclude (failed m) = error m

  -- All images of an expression have `n` pixels.
  abbrev pub HasPixels : ℕ → Expr R D → Type 0
  HasPixels n (picture a) = image_size a ≡ n
  HasPixels n (number c) = Unit
  HasPixels n (prefixed o e) = HasPixels n e
  HasPixels n (postfixed e o) = HasPixels n e
  HasPixels n (binary l o r) = HasPixels n l × HasPixels n r

module _ {R D : Type 0} ⦃num : Numbers R⦄ ⦃lib : SpLibrary R D⦄ where
  unfoldable pub apply : Operator → List (Token R D) → Outcome (Meaning R D)
  apply o args = map_ok settle (operate (kind o.name) args)

  unfoldable pub meaning : Expr R D → Outcome (Meaning R D)
  unfolding apply
  meaning (picture a) = ok (values (image a ∷ []))
  meaning (number c) = ok (values (scalar c ∷ []))
  meaning (prefixed o e) = meaning e >>= λ m. with_values m (apply o)
  meaning (postfixed e o) = meaning e >>= λ m. with_values m (apply o)
  meaning (binary l o r) = meaning l >>= λ m.
      with_values m λ ls. meaning r >>= λ m'. with_values m' λ rs. apply o (rs ++ ls)

  abbrev pub leaves : Expr R D → ℕ
  leaves (picture a) = 1
  leaves (number c) = 1
  leaves (prefixed o e) = results (kind {R = R} {D = D} o.name) (leaves e)
  leaves (postfixed e o) = results (kind {R = R} {D = D} o.name) (leaves e)
  leaves (binary l o r) = results (kind {R = R} {D = D} o.name) (leaves r + leaves l)

  -- Every operator has as many operands as its function takes.
  abbrev pub HasOperands : Expr R D → Type 0
  HasOperands (picture a) = Unit
  HasOperands (number c) = Unit
  HasOperands (prefixed o e) = HasOperands e × Takes (kind {R = R} {D = D} o.name) o (leaves e)
  HasOperands (postfixed e o) = HasOperands e × Takes (kind {R = R} {D = D} o.name) o (leaves e)
  HasOperands (binary l o r) =
      HasOperands l × HasOperands r × Takes (kind {R = R} {D = D} o.name) o (leaves r + leaves l)

  -- How many values stand on the stack at once.
  abbrev pub width : Expr R D → ℕ
  width (picture a) = 1
  width (number c) = 1
  width (prefixed o e) = width e
  width (postfixed e o) = width e
  width (binary l o r) = max (width l) (leaves l + width r)
