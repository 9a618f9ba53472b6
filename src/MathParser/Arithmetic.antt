-- ===== src/MathParser/Arithmetic.antt =====
-- src/math_parser.c: addition, multiplication, division, subtraction, signs, minimum and maximum.
-- The values of the operands are combined by the `..._tokens` functions; the operators pop them in
-- the order of the source and push the result.
use hawk.Prelude.{Outcome, ok, aborted, if◌then◌else◌}
use hawk.SpImage.{Complex, Numbers, SpLibrary, cinit}
use hawk.MathParser.Token.{Token, image, scalar}
use hawk.MathParser.Stack.{Program, ◌>>=◌, ◌>>◌, lift, token_stack_pop, token_stack_push}
use hawk.MathParser.Pixels.{update_pixels, zip_images}

module _ {R : Type 0} ⦃num : Numbers R⦄ where
  abbrev min_parts : Complex R → Complex R → Complex R
  min_parts x y = cinit (num.minimum x.re y.re) (num.minimum x.im y.im)

  abbrev max_parts : Complex R → Complex R → Complex R
  max_parts x y = cinit (num.maximum x.re y.re) (num.maximum x.im y.im)

module _ {R D : Type 0} ⦃num : Numbers R⦄ ⦃lib : SpLibrary R D⦄ where
  abbrev pub add_tokens : Token R D → Token R D → Outcome (Token R D)
  add_tokens (image a) (image b) = ok (image (lib.image_add a b))
  add_tokens (image a) (scalar c) = ok (image (update_pixels (λ x. num.cadd x c) a))
  add_tokens (scalar c) (image b) = ok (image (update_pixels (λ x. num.cadd x c) b))
  add_tokens (scalar c) (scalar d) = ok (scalar (num.cadd c d))
  add_tokens _ _ = aborted

  unfoldable pub token_stack_add : Program R D (Unit {0})
  unfolding token_stack_pop token_stack_push
  token_stack_add = do
    a ← token_stack_pop
    b ← token_stack_pop
    r ← lift (add_tokens a b)
    token_stack_push r

  abbrev pub mul_tokens : Token R D → Token R D → Outcome (Token R D)
  mul_tokens (image a) (image b) = ok (image (lib.image_mul_elements a b))
  mul_tokens (image a) (scalar c) = ok (image (update_pixels (λ x. num.cmul x c) a))
  mul_tokens (scalar c) (image b) = ok (image (update_pixels (λ x. num.cmul x c) b))
  mul_tokens (scalar c) (scalar d) = ok (scalar (num.cmul c d))
  mul_tokens _ _ = aborted

  unfoldable pub token_stack_mul : Program R D (Unit {0})
  unfolding token_stack_pop token_stack_push
  token_stack_mul = do
    a ← token_stack_pop
    b ← token_stack_pop
    r ← lift (mul_tokens a b)
    token_stack_push r

  -- Each part is inverted on its own, and a part that is 0 stays 0.
  abbrev pub invert_token : Token R D → Outcome (Token R D)
  invert_token (image b) = ok (image (lib.image_invert b))
  invert_token (scalar c) = ok (
      scalar (
        cinit (if num.nonzero c.re then num.reciprocal c.re else c.re)
          (if num.nonzero c.im then num.reciprocal c.im else c.im)))
  invert_token _ = aborted

  unfoldable pub token_stack_div : Program R D (Unit {0})
  unfolding token_stack_pop token_stack_push token_stack_mul
  token_stack_div = do
    b ← token_stack_pop
    r ← lift (invert_token b)
    token_stack_push r
    token_stack_mul

  abbrev pub opposite_token : Token R D → Outcome (Token R D)
  opposite_token (scalar c) = ok (scalar (num.cmul c (cinit num.minus_one num.nought)))
  opposite_token (image b) = ok (image (lib.image_scale b num.minus_one))
  opposite_token _ = aborted

  unfoldable pub token_stack_sub : Program R D (Unit {0})
  unfolding token_stack_pop token_stack_push token_stack_add
  token_stack_sub = do
    b ← token_stack_pop
    r ← lift (opposite_token b)
    token_stack_push r
    token_stack_add

  unfoldable pub token_stack_unary_plus : Program R D (Unit {0})
  token_stack_unary_plus s = ok (tt, s)

  unfoldable pub token_stack_comma : Program R D (Unit {0})
  token_stack_comma s = ok (tt, s)

  abbrev pub unary_minus_token : Token R D → Outcome (Token R D)
  unary_minus_token (image a) = ok (image (lib.image_scale a num.minus_one))
  unary_minus_token (scalar c) =
      ok (scalar (cinit (num.times c.re num.minus_one) (num.times c.im num.minus_one)))
  unary_minus_token _ = aborted

  unfoldable pub token_stack_unary_minus : Program R D (Unit {0})
  unfolding token_stack_pop token_stack_push
  token_stack_unary_minus = do
    a ← token_stack_pop
    r ← lift (unary_minus_token a)
    token_stack_push r

  abbrev pub min_tokens : Token R D → Token R D → Outcome (Token R D)
  min_tokens (image a) (image b) = zip_images min_parts a b
  min_tokens (image a) (scalar c) = ok (image (update_pixels (λ x. min_parts x c) a))
  min_tokens (scalar c) (image b) = ok (image (update_pixels (λ x. min_parts x c) b))
  min_tokens (scalar c) (scalar d) = ok (scalar (min_parts c d))
  min_tokens _ _ = aborted

  unfoldable pub token_stack_min : Program R D (Unit {0})
  unfolding token_stack_pop token_stack_push
  token_stack_min = do
    a ← token_stack_pop
    b ← token_stack_pop
    r ← lift (min_tokens a b)
    token_stack_push r

  abbrev pub max_tokens : Token R D → Token R D → Outcome (Token R D)
  max_tokens (image a) (image b) = zip_images max_parts a b
  max_tokens (image a) (scalar c) = ok (image (update_pixels (λ x. max_parts x c) a))
  max_tokens (scalar c) (image b) = ok (image (update_pixels (λ x. max_parts x c) b))
  max_tokens (scalar c) (scalar d) = ok (scalar (max_parts c d))
  max_tokens _ _ = aborted

  unfoldable pub token_stack_max : Program R D (Unit {0})
  unfolding token_stack_pop token_stack_push
  token_stack_max = do
    a ← token_stack_pop
    b ← token_stack_pop
    r ← lift (max_tokens a b)
    token_stack_push r
