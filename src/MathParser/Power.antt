-- ===== src/MathParser/Power.antt =====
-- src/math_parser.c: `x ^ - y`, where the row of `^` asks for one operand and its function pops two.
use hawk.Prelude.{◌≡◌, refl, List, [], ◌∷◌, undefined, ◌>>=◌}
use hawk.SpImage.{Complex, Numbers, SpLibrary}
use hawk.MathParser.Token.{Token, scalar, operator}
use hawk.MathParser.Table.{power_row, negation_row, run_op}
use hawk.MathParser.Shunting.{parse_tokens, parse_loop, pop_while, make_room}
use hawk.MathParser.Stack.{token_stack_push, token_stack_size, token_stack_pop}
use hawk.MathParser.Functions.{token_stack_pow}
use hawk.MathParser.Evaluate.{evaluate_postfix, evaluate_loop, evaluate_token, evaluate_operator}

module _ {R D : Type 0} ⦃num : Numbers R⦄ ⦃lib : SpLibrary R D⦄ where
  abbrev pub power_of_negation : Complex R → Complex R → List (Token R D)
  power_of_negation x y = scalar x ∷ operator power_row ∷ operator negation_row ∷ scalar y ∷ []

  -- The parser gives the tokens of `x ^ - y`, for two numbers, to the evaluation in an order in which
  -- `^` stands before the minus sign and `y`, and the evaluation reads below its stack.
  pub evaluate_postfix-power_of_negation :
      (x y : Complex R) → (parse_tokens (power_of_negation x y) >>= evaluate_postfix) ≡ undefined
  unfolding parse_tokens parse_loop make_room pop_while evaluate_postfix evaluate_loop
      evaluate_token evaluate_operator run_op token_stack_push token_stack_size token_stack_pop
      token_stack_pow
  evaluate_postfix-power_of_negation x y = refl
