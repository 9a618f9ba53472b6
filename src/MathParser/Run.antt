-- ===== src/MathParser/Run.antt =====
-- src/math_parser.c, `evaluate_math_expression`: the three passes, and the kinds of result.
use hawk.Prelude.{ℕ, List, Outcome, ok, ◌>>=◌}
use hawk.SpImage.{Complex, Image, Numbers, SpLibrary}
use hawk.MathParser.Token.{Token, image, scalar, error, Message, unknown_error}
use hawk.MathParser.Tokenize.{tokens_of, tokenize_string}
use hawk.MathParser.Shunting.{parse_tokens}
use hawk.MathParser.Evaluate.{evaluate_postfix}

pub data MathOutput (R D : Type 0) : Type 0 where
  math_output_error : Message → MathOutput R D
  math_output_scalar : Complex R → MathOutput R D
  math_output_image : Image R D → MathOutput R D

module _ {R D : Type 0} where
  unfoldable pub math_output : Token R D → MathOutput R D
  math_output (image a) = math_output_image a
  math_output (scalar c) = math_output_scalar c
  math_output (error m) = math_output_error m
  math_output _ = math_output_error unknown_error

  unfoldable pub evaluate_math_expression :
      ⦃num : Numbers R⦄ ⦃lib : SpLibrary R D⦄
      → (List ℕ → R × ℕ)
      → List ℕ
      → List (Image R D)
      → Outcome (MathOutput R D)
  unfolding math_output tokenize_string parse_tokens evaluate_postfix
  evaluate_math_expression strtod expression image_list = do
    infix_tokens ← tokenize_string strtod image_list expression
    postfix_tokens ← parse_tokens (tokens_of infix_tokens)
    out ← evaluate_postfix postfix_tokens
    ok (math_output out)
