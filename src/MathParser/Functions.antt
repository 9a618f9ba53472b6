-- ===== src/MathParser/Functions.antt =====
-- src/math_parser.c: the operators on one operand, and the power.
use hawk.Prelude.{Outcome, ok, aborted, undefined}
use hawk.SpImage.{Numbers, SpLibrary, cinit}
use hawk.MathParser.Token.{
  Token, image, scalar, error, scalar_power_only, mask_of_image_only, fft_of_image_only,
  ifft_of_image_only, position_of_image_only,
}
use hawk.MathParser.Stack.{Program, ◌>>=◌, lift, token_stack_pop, token_stack_push}
use hawk.MathParser.Pixels.{update_pixels, index_pixels, all_valid}

module _ {R D : Type 0} ⦃num : Numbers R⦄ ⦃lib : SpLibrary R D⦄ where
  abbrev pub abs_token : Token R D → Outcome (Token R D)
  abs_token (image a) = ok (image (lib.image_dephase a))
  abs_token (scalar c) = ok (scalar (cinit (num.cabs c) num.nought))
  abs_token _ = aborted

  unfoldable pub token_stack_abs : Program R D (Unit {0})
  unfolding token_stack_pop token_stack_push
  token_stack_abs = do a ← token_stack_pop; r ← lift (abs_token a); token_stack_push r

  abbrev pub conj_token : Token R D → Outcome (Token R D)
  conj_token (image a) = ok (image (update_pixels (λ x. cinit x.re (num.negate x.im)) a))
  conj_token (scalar c) = ok (scalar (cinit c.re (num.negate c.im)))
  conj_token _ = aborted

  unfoldable pub token_stack_conj : Program R D (Unit {0})
  unfolding token_stack_pop token_stack_push
  token_stack_conj = do a ← token_stack_pop; r ← lift (conj_token a); token_stack_push r

  abbrev pub pow_tokens : Token R D → Token R D → Outcome (Token R D)
  pow_tokens (image a) (scalar c) = ok (image (update_pixels (λ x. num.cpow x c) a))
  pow_tokens (scalar d) (scalar c) = ok (scalar (num.cpow d c))
  pow_tokens a (scalar c) = ok a
  pow_tokens a b = ok (error scalar_power_only)

  unfoldable pub token_stack_pow : Program R D (Unit {0})
  unfolding token_stack_pop token_stack_push
  token_stack_pow = do
    b ← token_stack_pop
    a ← token_stack_pop
    r ← lift (pow_tokens a b)
    token_stack_push r

  abbrev pub exp_token : Token R D → Outcome (Token R D)
  exp_token (image a) = ok (image (update_pixels num.cexp a))
  exp_token (scalar c) = ok (scalar (num.cexp c))
  exp_token a = ok a

  unfoldable pub token_stack_exp : Program R D (Unit {0})
  unfolding token_stack_pop token_stack_push
  token_stack_exp = do a ← token_stack_pop; r ← lift (exp_token a); token_stack_push r

  abbrev pub log_token : Token R D → Outcome (Token R D)
  log_token (image a) = ok (image (update_pixels num.clog a))
  log_token (scalar c) = ok (scalar (num.clog c))
  log_token a = ok a

  unfoldable pub token_stack_log : Program R D (Unit {0})
  unfolding token_stack_pop token_stack_push
  token_stack_log = do a ← token_stack_pop; r ← lift (log_token a); token_stack_push r

  abbrev pub mask_token : Token R D → Outcome (Token R D)
  mask_token (image a) = ok (image (lib.image_get_mask a))
  mask_token _ = ok (error mask_of_image_only)

  unfoldable pub token_stack_mask : Program R D (Unit {0})
  unfolding token_stack_pop token_stack_push
  token_stack_mask = do a ← token_stack_pop; r ← lift (mask_token a); token_stack_push r

  abbrev pub fft_token : Token R D → Outcome (Token R D)
  fft_token (image a) = ok (image (all_valid (lib.image_fft a)))
  fft_token _ = ok (error fft_of_image_only)

  unfoldable pub token_stack_fft : Program R D (Unit {0})
  unfolding token_stack_pop token_stack_push
  token_stack_fft = do a ← token_stack_pop; r ← lift (fft_token a); token_stack_push r

  abbrev pub ifft_token : Token R D → Outcome (Token R D)
  ifft_token (image a) =
      ok (image (all_valid (lib.image_ifft (record a { phased = 1; shifted = 1 }))))
  ifft_token _ = ok (error ifft_of_image_only)

  unfoldable pub token_stack_ifft : Program R D (Unit {0})
  unfolding token_stack_pop token_stack_push
  token_stack_ifft = do a ← token_stack_pop; r ← lift (ifft_token a); token_stack_push r

  -- `a->image` of a token that is neither is no image.
  abbrev pub real_token : Token R D → Outcome (Token R D)
  real_token (scalar c) = ok (scalar (cinit c.re num.nought))
  real_token (image a) = ok (image (update_pixels (λ x. cinit x.re num.nought) a))
  real_token _ = undefined

  unfoldable pub token_stack_real : Program R D (Unit {0})
  unfolding token_stack_pop token_stack_push
  token_stack_real = do a ← token_stack_pop; r ← lift (real_token a); token_stack_push r

  -- The imaginary part of a scalar is kept.
  abbrev pub arg_token : Token R D → Outcome (Token R D)
  arg_token (scalar c) = ok (scalar (cinit (num.carg c) c.im))
  arg_token (image a) = ok (image (update_pixels (λ x. cinit (num.carg x) num.nought) a))
  arg_token _ = undefined

  unfoldable pub token_stack_arg : Program R D (Unit {0})
  unfolding token_stack_pop token_stack_push
  token_stack_arg = do a ← token_stack_pop; r ← lift (arg_token a); token_stack_push r

  abbrev pub imag_token : Token R D → Outcome (Token R D)
  imag_token (scalar c) = ok (scalar (cinit num.nought c.im))
  imag_token (image a) = ok (image (update_pixels (λ x. cinit num.nought x.im) a))
  imag_token _ = undefined

  unfoldable pub token_stack_imag : Program R D (Unit {0})
  unfolding token_stack_pop token_stack_push
  token_stack_imag = do a ← token_stack_pop; r ← lift (imag_token a); token_stack_push r

  abbrev pub imaginary_unit_token : Token R D → Outcome (Token R D)
  imaginary_unit_token (scalar c) = ok (scalar (num.cmul c (cinit num.nought num.one)))
  imaginary_unit_token (image a) =
      ok (image (update_pixels (λ x. num.cmul x (cinit num.nought num.one)) a))
  imaginary_unit_token _ = undefined

  unfoldable pub token_stack_imaginary_unit : Program R D (Unit {0})
  unfolding token_stack_pop token_stack_push
  token_stack_imaginary_unit = do
    a ← token_stack_pop
    r ← lift (imaginary_unit_token a)
    token_stack_push r

  abbrev pub integrate_token : Token R D → Outcome (Token R D)
  integrate_token (scalar c) = ok (scalar c)
  integrate_token (image a) = ok (scalar (lib.image_integrate a))
  integrate_token _ = undefined

  unfoldable pub token_stack_integrate : Program R D (Unit {0})
  unfolding token_stack_pop token_stack_push
  token_stack_integrate = do a ← token_stack_pop; r ← lift (integrate_token a); token_stack_push r

  abbrev pub pos_x_token : Token R D → Outcome (Token R D)
  pos_x_token (image a) = ok (
      image (record a {
        pixels = index_pixels (λ i. cinit (lib.coords a.rest i).0 num.nought) 0 a.pixels;
      }))
  pos_x_token _ = ok (error position_of_image_only)

  unfoldable pub token_stack_pos_x : Program R D (Unit {0})
  unfolding token_stack_pop token_stack_push
  token_stack_pos_x = do a ← token_stack_pop; r ← lift (pos_x_token a); token_stack_push r

  abbrev pub pos_y_token : Token R D → Outcome (Token R D)
  pos_y_token (image a) = ok (
      image (record a {
        pixels = index_pixels (λ i. cinit (lib.coords a.rest i).1 num.nought) 0 a.pixels;
      }))
  pos_y_token _ = ok (error position_of_image_only)

  unfoldable pub token_stack_pos_y : Program R D (Unit {0})
  unfolding token_stack_pop token_stack_push
  token_stack_pos_y = do a ← token_stack_pop; r ← lift (pos_y_token a); token_stack_push r

  abbrev pub pos_z_token : Token R D → Outcome (Token R D)
  pos_z_token (image a) = ok (
      image (record a {
        pixels = index_pixels (λ i. cinit (lib.coords a.rest i).2 num.nought) 0 a.pixels;
      }))
  pos_z_token _ = ok (error position_of_image_only)

  unfoldable pub token_stack_pos_z : Program R D (Unit {0})
  unfolding token_stack_pop token_stack_push
  token_stack_pos_z = do a ← token_stack_pop; r ← lift (pos_z_token a); token_stack_push r

  abbrev pub sqrt_token : Token R D → Outcome (Token R D)
  sqrt_token (scalar c) = ok (scalar (num.cpow c (cinit num.half num.nought)))
  sqrt_token (image a) = ok (image (update_pixels (λ x. num.cpow x (cinit num.half num.nought)) a))
  sqrt_token _ = aborted

  unfoldable pub token_stack_sqrt : Program R D (Unit {0})
  unfolding token_stack_pop token_stack_push
  token_stack_sqrt = do a ← token_stack_pop; r ← lift (sqrt_token a); token_stack_push r
