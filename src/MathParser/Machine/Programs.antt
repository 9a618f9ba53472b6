-- ===== src/MathParser/Machine/Programs.antt =====
-- Each operator of src/math_parser.c does on the stack what its function does with its operands.
use hawk.Prelude.{
  ◌+◌, ◌≤◌, ◌≡◌, refl, ap, [], ◌∷◌, Outcome, ok, aborted, undefined, out_of_fuel, length, arith,
}
use hawk.Prelude.{◌>>=◌ as then_}
use hawk.SpImage.{Numbers, SpLibrary}
use hawk.MathParser.Token.{
  Token, TokenName, addition, unary_plus, subtraction, unary_minus, multiplication, division,
  smaller_than, greater_than, set_mask, complex_conjugate, mask, square_root, absolute_value,
  exponentiation, fourier_transform, inverse_fourier_transform, integrate, complex_argument,
  exponential, logarythm, minimum, maximum, position_x, position_y, position_z, real_part,
  conditional_if, imaginary_part, logical_and, logical_or, equality, imaginary_unit, comma, operand,
  left_parenthesis, right_parenthesis,
}
use hawk.MathParser.Stack.{
  Program, TokenStack, follow, token_stack_push-ok, stack_max, ◌>>=◌, ◌>>◌, lift, token_stack_pop,
  token_stack_push,
}
use hawk.MathParser.Arithmetic.{
  add_tokens, mul_tokens, invert_token, opposite_token, token_stack_add, token_stack_mul,
  token_stack_sub, token_stack_div,
}
use hawk.MathParser.Select.{push_any}
use hawk.MathParser.Table.{run_op}
use hawk.MathParser.Meaning.{Kind, unary, binary, ternary, keep, no_operator, operands, kind}
use hawk.MathParser.Arithmetic.{
  token_stack_unary_plus, token_stack_unary_minus, token_stack_min, token_stack_max,
  token_stack_comma,
}
use hawk.MathParser.Compare.{
  token_stack_smaller_than, token_stack_greater_than, token_stack_logical_and,
  token_stack_logical_or, token_stack_equality,
}
use hawk.MathParser.Functions.{
  token_stack_conj, token_stack_mask, token_stack_sqrt, token_stack_abs, token_stack_pow,
  token_stack_fft, token_stack_ifft, token_stack_integrate, token_stack_arg, token_stack_exp,
  token_stack_log, token_stack_pos_x, token_stack_pos_y, token_stack_pos_z, token_stack_real,
  token_stack_imag, token_stack_imaginary_unit,
}
use hawk.MathParser.Select.{token_stack_set_mask, token_stack_if}

module _ {R D : Type 0} where
  -- The program that pops the operands of a function and pushes its result.
  abbrev pub run_kind : Kind R D → Program R D (Unit {0})
  run_kind (unary f) = do a ← token_stack_pop; r ← lift (f a); token_stack_push r
  run_kind (binary f) = do
    b ← token_stack_pop
    a ← token_stack_pop
    r ← lift (f a b)
    token_stack_push r
  run_kind (ternary f) = do
    c ← token_stack_pop
    b ← token_stack_pop
    a ← token_stack_pop
    r ← lift (f a b c)
    push_any r
  run_kind (keep n) = λ s. ok (tt, s)
  run_kind no_operator = λ s. undefined

  -- An operator that first changes its top operand and pushes it again, then runs another.
  through_push :
      (m : Outcome (Token R D)) (f : Token R D → Token R D → Outcome (Token R D)) (a : Token R D)
      (s : TokenStack R D)
      → 2 + length s ≤ stack_max
      → (lift m >>= λ r.
            token_stack_push r
            >> (token_stack_pop >>= λ x.
                token_stack_pop >>= λ y. lift (f x y) >>= λ z. token_stack_push z))
          (a ∷ s)
        ≡ (lift (then_ m (λ r. f r a)) >>= λ z. token_stack_push z) s
  unfolding token_stack_pop
  through_push (ok r) f a s room =
      ap
        (λ o. follow o λ _. token_stack_pop >>= λ x.
          token_stack_pop >>= λ y. lift (f x y) >>= λ z. token_stack_push z)
        (token_stack_push-ok r (a ∷ s) (omega arith))
  through_push aborted f a s room = refl
  through_push undefined f a s room = refl
  through_push out_of_fuel f a s room = refl

module _ {R D : Type 0} ⦃num : Numbers R⦄ ⦃lib : SpLibrary R D⦄ where
  -- On a stack of at most `STACK_MAX` tokens that holds its operands, the function of an operator
  -- replaces them by what the operator is on them, read off the top of the stack.
  pub run_op-kind :
      (name : TokenName) (s : TokenStack R D)
      → operands (kind {R = R} {D = D} name) ≤ length s
      → length s ≤ stack_max
      → run_op name s ≡ run_kind (kind name) s
  unfolding run_op kind token_stack_pop token_stack_push token_stack_add token_stack_unary_plus
      token_stack_sub token_stack_unary_minus token_stack_mul token_stack_div
      token_stack_smaller_than token_stack_greater_than token_stack_set_mask token_stack_conj
      token_stack_mask token_stack_sqrt token_stack_abs token_stack_pow token_stack_fft
      token_stack_ifft token_stack_integrate token_stack_arg token_stack_exp token_stack_log
      token_stack_min token_stack_max token_stack_pos_x token_stack_pos_y token_stack_pos_z
      token_stack_real token_stack_if token_stack_imag token_stack_logical_and
      token_stack_logical_or token_stack_equality token_stack_imaginary_unit token_stack_comma
  run_op-kind subtraction [] h room = absurd (omega arith)
  run_op-kind subtraction (b ∷ []) h room = absurd (omega arith)
  run_op-kind subtraction (b ∷ a ∷ s) h room =
      through_push (opposite_token b) add_tokens a s (omega arith)
  run_op-kind division [] h room = absurd (omega arith)
  run_op-kind division (b ∷ []) h room = absurd (omega arith)
  run_op-kind division (b ∷ a ∷ s) h room =
      through_push (invert_token b) mul_tokens a s (omega arith)
  run_op-kind addition s h room = refl
  run_op-kind unary_plus s h room = refl
  run_op-kind unary_minus s h room = refl
  run_op-kind multiplication s h room = refl
  run_op-kind smaller_than s h room = refl
  run_op-kind greater_than s h room = refl
  run_op-kind set_mask s h room = refl
  run_op-kind complex_conjugate s h room = refl
  run_op-kind mask s h room = refl
  run_op-kind square_root s h room = refl
  run_op-kind absolute_value s h room = refl
  run_op-kind exponentiation s h room = refl
  run_op-kind fourier_transform s h room = refl
  run_op-kind inverse_fourier_transform s h room = refl
  run_op-kind integrate s h room = refl
  run_op-kind complex_argument s h room = refl
  run_op-kind exponential s h room = refl
  run_op-kind logarythm s h room = refl
  run_op-kind minimum s h room = refl
  run_op-kind maximum s h room = refl
  run_op-kind position_x s h room = refl
  run_op-kind position_y s h room = refl
  run_op-kind position_z s h room = refl
  run_op-kind real_part s h room = refl
  run_op-kind conditional_if s h room = refl
  run_op-kind imaginary_part s h room = refl
  run_op-kind logical_and s h room = refl
  run_op-kind logical_or s h room = refl
  run_op-kind equality s h room = refl
  run_op-kind imaginary_unit s h room = refl
  run_op-kind comma s h room = refl
  run_op-kind operand s h room = refl
  run_op-kind left_parenthesis s h room = refl
  run_op-kind right_parenthesis s h room = refl
