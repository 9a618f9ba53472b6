-- ===== src/MathParser/Token.antt =====
-- src/math_parser.c: operators, tokens and the messages of error tokens.
use hawk.Prelude.{ℕ, List, ℤ}
use hawk.SpImage.{Complex, Image}

pub data OperatorPosition : Type 0 where
  prefix infix_ postfix : OperatorPosition

pub data OperatorAssociativity : Type 0 where
  left_associative right_associative non_associative : OperatorAssociativity

pub data TokenName : Type 0 where
  operand comma left_parenthesis right_parenthesis addition unary_plus subtraction : TokenName
  unary_minus multiplication division exponentiation absolute_value : TokenName
  fourier_transform inverse_fourier_transform integrate real_part imaginary_part : TokenName
  imaginary_unit complex_argument exponential logarythm minimum maximum : TokenName
  complex_conjugate smaller_than greater_than logical_and logical_or equality : TokenName
  position_x position_y position_z square_root conditional_if mask set_mask : TokenName

-- The function pointer `op` is determined by `name`: `run_op` follows it.
pub record Operator : Type 0 where
  pub n_operands : ℕ
  pub precedence : ℤ
  pub position : OperatorPosition
  pub associativity : OperatorAssociativity
  pub identifier : List ℕ
  pub name : TokenName

-- The texts of `error_msg`.
pub data Message : Type 0 where
  scalar_power_only : Message
  mask_of_image_only : Message
  fft_of_image_only : Message
  ifft_of_image_only : Message
  set_mask_of_image_only : Message
  position_of_image_only : Message
  operands_expected : ℕ → ℕ → List ℕ → Message
  stack_contains : ℕ → Message
  no_matching_file : List ℕ → Message
  could_not_tokenize : List ℕ → Message
  unknown_error : Message

-- `type`, with the fields that it makes valid.
pub data Token (R D : Type 0) : Type 0 where
  image : Image R D → Token R D
  scalar : Complex R → Token R D
  operator : Operator → Token R D
  comma_token : Token R D
  error : Message → Token R D
