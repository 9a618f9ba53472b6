-- ===== src/MathParser/Expr.antt =====
-- What an expression means to `math_parser.c`: trees of operands and operators, the token lists that
-- the two halves of the program exchange for them, and when an infix list determines its tree.
-- A parenthesis raises the precedence of the operators inside, so it leaves no trace in a tree.
use Prim.Native.Nat.{max}
use hawk.Prelude.{ℕ, ◌+◌, ◌≡◌, Bool, true, false, List, [], ◌∷◌, ◌++◌, All, ◌||◌, ◌&&◌}
use hawk.SpImage.{Complex, Image}
use hawk.MathParser.Token.{Operator, Token, operator, image, scalar}
use hawk.MathParser.Shunting.{is_left, is_lower, is_same}

pub data Expr (R D : Type 0) : Type 0 where
  picture : Image R D → Expr R D
  number : Complex R → Expr R D
  prefixed : Operator → Expr R D → Expr R D
  postfixed : Expr R D → Operator → Expr R D
  binary : Expr R D → Operator → Expr R D → Expr R D

-- The rule of the algorithm: an incoming `x` sends `y` from the top of the stack to the output.
abbrev pub gives_way : Operator → Operator → Bool
gives_way x y = is_lower x y || (is_left x.associativity && is_same x y)

module _ {R D : Type 0} where
  -- The tokens in the order in which they are written.
  unfoldable pub infix_list : Expr R D → List (Token R D)
  infix_list (picture a) = image a ∷ []
  infix_list (number c) = scalar c ∷ []
  infix_list (prefixed o e) = operator o ∷ infix_list e
  infix_list (postfixed e o) = infix_list e ++ operator o ∷ []
  infix_list (binary l o r) = infix_list l ++ operator o ∷ infix_list r

  -- Operands before their operator.
  unfoldable pub postorder : Expr R D → List (Token R D)
  postorder (picture a) = image a ∷ []
  postorder (number c) = scalar c ∷ []
  postorder (prefixed o e) = postorder e ++ operator o ∷ []
  postorder (postfixed e o) = postorder e ++ operator o ∷ []
  postorder (binary l o r) = postorder l ++ (postorder r ++ operator o ∷ [])

  abbrev pub operators : Expr R D → List Operator
  operators (picture a) = []
  operators (number c) = []
  operators (prefixed o e) = o ∷ operators e
  operators (postfixed e o) = operators e ++ o ∷ []
  operators (binary l o r) = operators l ++ o ∷ operators r

  -- The operators whose operand or operator token ends the expression, innermost first.
  abbrev pub right_spine : Expr R D → List Operator
  right_spine (picture a) = []
  right_spine (number c) = []
  right_spine (prefixed o e) = right_spine e ++ o ∷ []
  right_spine (postfixed e o) = o ∷ []
  right_spine (binary l o r) = right_spine r ++ o ∷ []

  -- How many operators wait for their right operand at once.
  abbrev pub height : Expr R D → ℕ
  height (picture a) = 0
  height (number c) = 0
  height (prefixed o e) = 1 + height e
  height (postfixed e o) = max (height e) 1
  height (binary l o r) = max (height l) (1 + height r)

  -- Precedence and associativity say of each operator that the operators which end its left operand
  -- give way to it, and that no operator of its right operand makes it give way.
  abbrev pub Respects : Expr R D → Type 0
  Respects (picture a) = Unit
  Respects (number c) = Unit
  Respects (prefixed o e) = Respects e × All (λ x. gives_way x o ≡ false) (operators e)
  Respects (postfixed e o) = Respects e × All (λ y. gives_way o y ≡ true) (right_spine e)
  Respects (binary l o r) =
      Respects l
      × Respects r
      × All (λ y. gives_way o y ≡ true) (right_spine l)
      × All (λ x. gives_way x o ≡ false) (operators r)
