-- ===== src/MathParser/Meaning.antt =====
-- The operators of src/math_parser.c as functions of their operands, apart from any stack.
use hawk.Prelude.{ℕ, List, [], ◌∷◌, Outcome, ok, undefined, map_ok, Option, none, some, ◌>>=◌}
use hawk.SpImage.{Numbers, SpLibrary}
use hawk.MathParser.Token.{
  Token, TokenName, addition, unary_plus, subtraction, unary_minus, multiplication, division,
  smaller_than, greater_than, set_mask, complex_conjugate, mask, square_root, absolute_value,
  exponentiation, fourier_transform, inverse_fourier_transform, integrate, complex_argument,
  exponential, logarythm, minimum, maximum, position_x, position_y, position_z, real_part,
  conditional_if, imaginary_part, logical_and, logical_or, equality, imaginary_unit, comma,
}
use hawk.MathParser.Arithmetic.{
  add_tokens, mul_tokens, invert_token, opposite_token, unary_minus_token, min_tokens, max_tokens,
}
use hawk.MathParser.Compare.{
  smaller_than_tokens, greater_than_tokens, logical_and_tokens, logical_or_tokens, equality_tokens,
}
use hawk.MathParser.Functions.{
  conj_token, mask_token, sqrt_token, abs_token, fft_token, ifft_token, integrate_token, arg_token,
  exp_token, log_token, pos_x_token, pos_y_token, pos_z_token, real_token, imag_token,
  imaginary_unit_token, pow_tokens,
}
use hawk.MathParser.Select.{set_mask_tokens, if_tokens}

-- `binary f` is given the operand that was written first, then the other; `keep n` leaves its `n`
-- operands as they are.
pub data Kind (R D : Type 0) : Type 0 where
  unary : (Token R D → Outcome (Token R D)) → Kind R D
  binary : (Token R D → Token R D → Outcome (Token R D)) → Kind R D
  ternary : (Token R D → Token R D → Token R D → Outcome (Option (Token R D))) → Kind R D
  keep : ℕ → Kind R D
  no_operator : Kind R D

module _ {R D : Type 0} where
  abbrev pub operands : Kind R D → ℕ
  operands (unary f) = 1
  operands (binary f) = 2
  operands (ternary f) = 3
  operands (keep n) = n
  operands no_operator = 0

  abbrev pub optional : Option (Token R D) → List (Token R D)
  optional none = []
  optional (some t) = t ∷ []

  -- What an operator leaves in the place of its operands, which stand last first.
  abbrev pub operate : Kind R D → List (Token R D) → Outcome (List (Token R D))
  operate (unary f) (a ∷ []) = map_ok (λ r. r ∷ []) (f a)
  operate (binary f) (b ∷ a ∷ []) = map_ok (λ r. r ∷ []) (f a b)
  operate (ternary f) (c ∷ b ∷ a ∷ []) = map_ok optional (f a b c)
  operate (keep n) ts = ok ts
  operate _ _ = undefined

module _ {R D : Type 0} ⦃num : Numbers R⦄ ⦃lib : SpLibrary R D⦄ where
  unfoldable pub kind : TokenName → Kind R D
  kind addition = binary (λ a b. add_tokens b a)
  kind unary_plus = keep 1
  kind subtraction = binary (λ a b. opposite_token b >>= λ r. add_tokens r a)
  kind unary_minus = unary unary_minus_token
  kind multiplication = binary (λ a b. mul_tokens b a)
  kind division = binary (λ a b. invert_token b >>= λ r. mul_tokens r a)
  kind smaller_than = binary smaller_than_tokens
  kind greater_than = binary greater_than_tokens
  kind set_mask = binary set_mask_tokens
  kind complex_conjugate = unary conj_token
  kind mask = unary mask_token
  kind square_root = unary sqrt_token
  kind absolute_value = unary abs_token
  kind exponentiation = binary pow_tokens
  kind fourier_transform = unary fft_token
  kind inverse_fourier_transform = unary ifft_token
  kind integrate = unary integrate_token
  kind complex_argument = unary arg_token
  kind exponential = unary exp_token
  kind logarythm = unary log_token
  kind minimum = binary (λ a b. min_tokens b a)
  kind maximum = binary (λ a b. max_tokens b a)
  kind position_x = unary pos_x_token
  kind position_y = unary pos_y_token
  kind position_z = unary pos_z_token
  kind real_part = unary real_token
  kind conditional_if = ternary if_tokens
  kind imaginary_part = unary imag_token
  kind logical_and = binary logical_and_tokens
  kind logical_or = binary logical_or_tokens
  kind equality = binary equality_tokens
  kind imaginary_unit = unary imaginary_unit_token
  kind comma = keep 2
  kind _ = no_operator
