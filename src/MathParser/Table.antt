-- ===== src/MathParser/Table.antt =====
-- src/math_parser.c: `operator_table`, in the order in which the tokenizer tries it, and the
-- function of each row.
use Prim.Native.Char.{code}
use Prim.Native.String.{String}
use hawk.Prelude.{ℕ, List, [], ◌∷◌, ◌++◌, ℤ, pos, negsuc, undefined}
use hawk.SpImage.{Numbers, SpLibrary}
use hawk.MathParser.Token.{
  Operator, OperatorPosition, prefix, infix_, postfix, OperatorAssociativity, left_associative,
  right_associative, non_associative, TokenName, absolute_value, addition, comma, complex_argument,
  complex_conjugate, conditional_if, division, equality, exponential, exponentiation,
  fourier_transform, greater_than, imaginary_part, imaginary_unit, integrate,
  inverse_fourier_transform, logarythm, logical_and, logical_or, mask, maximum, minimum,
  multiplication, position_x, position_y, position_z, real_part, set_mask, smaller_than,
  square_root, subtraction, unary_minus, unary_plus,
}
use hawk.MathParser.Stack.{Program}
use hawk.MathParser.Arithmetic.{
  token_stack_add, token_stack_unary_plus, token_stack_sub, token_stack_unary_minus,
  token_stack_mul, token_stack_div, token_stack_min, token_stack_max, token_stack_comma,
}
use hawk.MathParser.Compare.{
  token_stack_smaller_than, token_stack_greater_than, token_stack_logical_and,
  token_stack_logical_or, token_stack_equality,
}
use hawk.MathParser.Functions.{
  token_stack_conj, token_stack_mask, token_stack_sqrt, token_stack_abs, token_stack_pow,
  token_stack_fft, token_stack_ifft, token_stack_integrate, token_stack_arg, token_stack_exp,
  token_stack_log, token_stack_pos_x, token_stack_pos_y, token_stack_pos_z, token_stack_real,
  token_stack_imag, token_stack_imaginary_unit,
}
use hawk.MathParser.Select.{token_stack_set_mask, token_stack_if}

-- The characters of a text, as numbers.
abbrev pub codes : String → List ℕ
codes String.[] = []
codes (String.◌∷◌ c s) = code c ∷ codes s

abbrev entry : ℕ → ℤ → OperatorPosition → OperatorAssociativity → String → TokenName → Operator
entry n p where_ side text t = record {
  n_operands = n;
  precedence = p;
  position = where_;
  associativity = side;
  identifier = codes text;
  name = t;
}

abbrev pub power_row : Operator
power_row = entry 1 (pos 4) infix_ right_associative "^" exponentiation

abbrev pub negation_row : Operator
negation_row = entry 1 (pos 3) infix_ right_associative "-" unary_minus

abbrev arithmetic_operators : List Operator
arithmetic_operators =
    entry 2 (pos 1) infix_ left_associative "+" addition
    ∷ entry 1 (pos 3) infix_ right_associative "+" unary_plus
    ∷ entry 2 (pos 1) infix_ left_associative "-" subtraction
    ∷ negation_row
    ∷ entry 2 (pos 2) infix_ left_associative "*" multiplication
    ∷ entry 2 (pos 2) infix_ left_associative "/" division
    ∷ entry 2 (pos 0) infix_ left_associative "<" smaller_than
    ∷ entry 2 (pos 0) infix_ left_associative ">" greater_than
    ∷ []

abbrev function_operators : List Operator
function_operators =
    entry 1 (pos 5) prefix non_associative "set_mask" set_mask
    ∷ entry 1 (pos 5) prefix non_associative "conj" complex_conjugate
    ∷ entry 1 (pos 5) prefix non_associative "mask" mask
    ∷ entry 1 (pos 5) prefix non_associative "sqrt" square_root
    ∷ entry 1 (pos 5) prefix non_associative "abs" absolute_value
    ∷ power_row
    ∷ entry 1 (pos 5) prefix non_associative "fft" fourier_transform
    ∷ entry 1 (pos 5) prefix non_associative "ifft" inverse_fourier_transform
    ∷ entry 1 (pos 5) prefix non_associative "sum" integrate
    ∷ []

abbrev more_function_operators : List Operator
more_function_operators =
    entry 1 (pos 5) postfix non_associative "arg" complex_argument
    ∷ entry 1 (pos 5) prefix non_associative "exp" exponential
    ∷ entry 1 (pos 5) prefix non_associative "log" logarythm
    ∷ entry 2 (pos 5) prefix non_associative "min" minimum
    ∷ entry 2 (pos 5) prefix non_associative "max" maximum
    ∷ entry 1 (pos 5) prefix non_associative "posx" position_x
    ∷ entry 1 (pos 5) prefix non_associative "posy" position_y
    ∷ entry 1 (pos 5) prefix non_associative "posz" position_z
    ∷ entry 1 (pos 5) prefix non_associative "re" real_part
    ∷ entry 3 (pos 5) prefix non_associative "if" conditional_if
    ∷ entry 1 (pos 5) prefix non_associative "im" imaginary_part
    ∷ []

abbrev logical_operators : List Operator
logical_operators =
    entry 2 (negsuc 1) infix_ left_associative "&&" logical_and
    ∷ entry 2 (negsuc 1) infix_ left_associative "||" logical_or
    ∷ entry 2 (negsuc 0) infix_ left_associative "==" equality
    ∷ entry 1 (pos 3) postfix non_associative "i" imaginary_unit
    ∷ entry 2 (negsuc 2) infix_ non_associative "," comma
    ∷ []

abbrev pub operator_table : List Operator
operator_table =
    arithmetic_operators ++ (function_operators ++ (more_function_operators ++ (logical_operators)))

-- The function that the field `op` of an operator of that name points to. The names of tokens that
-- are no operators stand in no row.
module _ {R D : Type 0} ⦃num : Numbers R⦄ ⦃lib : SpLibrary R D⦄ where
  unfoldable pub run_op : TokenName → Program R D (Unit {0})
  run_op addition = token_stack_add
  run_op unary_plus = token_stack_unary_plus
  run_op subtraction = token_stack_sub
  run_op unary_minus = token_stack_unary_minus
  run_op multiplication = token_stack_mul
  run_op division = token_stack_div
  run_op smaller_than = token_stack_smaller_than
  run_op greater_than = token_stack_greater_than
  run_op set_mask = token_stack_set_mask
  run_op complex_conjugate = token_stack_conj
  run_op mask = token_stack_mask
  run_op square_root = token_stack_sqrt
  run_op absolute_value = token_stack_abs
  run_op exponentiation = token_stack_pow
  run_op fourier_transform = token_stack_fft
  run_op inverse_fourier_transform = token_stack_ifft
  run_op integrate = token_stack_integrate
  run_op complex_argument = token_stack_arg
  run_op exponential = token_stack_exp
  run_op logarythm = token_stack_log
  run_op minimum = token_stack_min
  run_op maximum = token_stack_max
  run_op position_x = token_stack_pos_x
  run_op position_y = token_stack_pos_y
  run_op position_z = token_stack_pos_z
  run_op real_part = token_stack_real
  run_op conditional_if = token_stack_if
  run_op imaginary_part = token_stack_imag
  run_op logical_and = token_stack_logical_and
  run_op logical_or = token_stack_logical_or
  run_op equality = token_stack_equality
  run_op imaginary_unit = token_stack_imaginary_unit
  run_op comma = token_stack_comma
  run_op _ = λ s. undefined
