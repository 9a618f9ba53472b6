-- ===== src/MathParser/Compare.antt =====
-- src/math_parser.c: comparisons and logical operators, whose results are 0 and 1.
use hawk.Prelude.{Outcome, ok, aborted, ◌&&◌, ◌||◌}
use hawk.SpImage.{Complex, Numbers}
use hawk.MathParser.Token.{Token, image, scalar}
use hawk.MathParser.Stack.{Program, ◌>>=◌, lift, token_stack_pop, token_stack_push}
use hawk.MathParser.Pixels.{update_pixels, zip_images, truth, is_set}

module _ {R : Type 0} ⦃num : Numbers R⦄ where
  abbrev smaller_than_truth : Complex R → Complex R → Complex R
  smaller_than_truth x y = truth (num.less (num.cabs x) (num.cabs y))

  abbrev greater_than_truth : Complex R → Complex R → Complex R
  greater_than_truth x y = truth (num.less (num.cabs y) (num.cabs x))

  abbrev logical_and_truth : Complex R → Complex R → Complex R
  logical_and_truth x y = truth (is_set x && is_set y)

  abbrev logical_or_truth : Complex R → Complex R → Complex R
  logical_or_truth x y = truth (is_set x || is_set y)

  abbrev equality_truth : Complex R → Complex R → Complex R
  equality_truth x y = truth (num.equal x.re y.re && num.equal x.im y.im)

module _ {R D : Type 0} ⦃num : Numbers R⦄ where
  abbrev pub smaller_than_tokens : Token R D → Token R D → Outcome (Token R D)
  smaller_than_tokens (image a) (image b) = zip_images smaller_than_truth a b
  smaller_than_tokens (image a) (scalar c) =
      ok (image (update_pixels (λ x. smaller_than_truth x c) a))
  smaller_than_tokens (scalar c) (image b) =
      ok (image (update_pixels (λ y. smaller_than_truth c y) b))
  smaller_than_tokens (scalar c) (scalar d) = ok (scalar (smaller_than_truth c d))
  smaller_than_tokens _ _ = aborted

  unfoldable pub token_stack_smaller_than : Program R D (Unit {0})
  unfolding token_stack_pop token_stack_push
  token_stack_smaller_than = do
    b ← token_stack_pop
    a ← token_stack_pop
    r ← lift (smaller_than_tokens a b)
    token_stack_push r

  abbrev pub greater_than_tokens : Token R D → Token R D → Outcome (Token R D)
  greater_than_tokens (image a) (image b) = zip_images greater_than_truth a b
  greater_than_tokens (image a) (scalar c) =
      ok (image (update_pixels (λ x. greater_than_truth x c) a))
  greater_than_tokens (scalar c) (image b) =
      ok (image (update_pixels (λ y. greater_than_truth c y) b))
  greater_than_tokens (scalar c) (scalar d) = ok (scalar (greater_than_truth c d))
  greater_than_tokens _ _ = aborted

  unfoldable pub token_stack_greater_than : Program R D (Unit {0})
  unfolding token_stack_pop token_stack_push
  token_stack_greater_than = do
    b ← token_stack_pop
    a ← token_stack_pop
    r ← lift (greater_than_tokens a b)
    token_stack_push r

  abbrev pub logical_and_tokens : Token R D → Token R D → Outcome (Token R D)
  logical_and_tokens (image a) (image b) = zip_images logical_and_truth a b
  logical_and_tokens (image a) (scalar c) =
      ok (image (update_pixels (λ x. logical_and_truth x c) a))
  logical_and_tokens (scalar c) (image b) =
      ok (image (update_pixels (λ y. logical_and_truth c y) b))
  logical_and_tokens (scalar c) (scalar d) = ok (scalar (logical_and_truth c d))
  logical_and_tokens _ _ = aborted

  unfoldable pub token_stack_logical_and : Program R D (Unit {0})
  unfolding token_stack_pop token_stack_push
  token_stack_logical_and = do
    b ← token_stack_pop
    a ← token_stack_pop
    r ← lift (logical_and_tokens a b)
    token_stack_push r

  abbrev pub logical_or_tokens : Token R D → Token R D → Outcome (Token R D)
  logical_or_tokens (image a) (image b) = zip_images logical_or_truth a b
  logical_or_tokens (image a) (scalar c) = ok (image (update_pixels (λ x. logical_or_truth x c) a))
  logical_or_tokens (scalar c) (image b) = ok (image (update_pixels (λ y. logical_or_truth c y) b))
  logical_or_tokens (scalar c) (scalar d) = ok (scalar (logical_or_truth c d))
  logical_or_tokens _ _ = aborted

  unfoldable pub token_stack_logical_or : Program R D (Unit {0})
  unfolding token_stack_pop token_stack_push
  token_stack_logical_or = do
    b ← token_stack_pop
    a ← token_stack_pop
    r ← lift (logical_or_tokens a b)
    token_stack_push r

  abbrev pub equality_tokens : Token R D → Token R D → Outcome (Token R D)
  equality_tokens (image a) (image b) = zip_images equality_truth a b
  equality_tokens (image a) (scalar c) = ok (image (update_pixels (λ x. equality_truth x c) a))
  equality_tokens (scalar c) (image b) = ok (image (update_pixels (λ x. equality_truth x c) b))
  equality_tokens (scalar c) (scalar d) = ok (scalar (equality_truth d c))
  equality_tokens _ _ = aborted

  unfoldable pub token_stack_equality : Program R D (Unit {0})
  unfolding token_stack_pop token_stack_push
  token_stack_equality = do
    b ← token_stack_pop
    a ← token_stack_pop
    r ← lift (equality_tokens a b)
    token_stack_push r
