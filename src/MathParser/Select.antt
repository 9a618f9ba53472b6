-- ===== src/MathParser/Select.antt =====
-- src/math_parser.c: `set_mask` and the conditional `if`.
use hawk.Prelude.{
  List, [], ◌∷◌, map, ℤ, not, Outcome, ok, aborted, undefined, map_ok, Option, none, some,
  if◌then◌else◌,
}
use hawk.SpImage.{Complex, Numbers}
use hawk.MathParser.Token.{Token, image, scalar, error, set_mask_of_image_only}
use hawk.MathParser.Stack.{Program, ◌>>=◌, lift, token_stack_pop, token_stack_push}
use hawk.MathParser.Pixels.{update_pixels, copy_unless, set_where, is_set}

module _ {R D : Type 0} where
  -- `if` pushes nothing where its operands fit no case.
  abbrev pub push_any : Option (Token R D) → Program R D (Unit {0})
  push_any none s = ok (tt, s)
  push_any (some r) s = token_stack_push r s

module _ {R : Type 0} ⦃num : Numbers R⦄ where
  -- `for(i = 0; i < size(a); i++) mask[i] = |b[i]|;`
  abbrev pub absolutes : List (Complex R) → List (Complex R) → Outcome (List ℤ)
  absolutes [] ys = ok []
  absolutes (x ∷ xs) [] = undefined
  absolutes (x ∷ xs) (y ∷ ys) = map_ok (◌∷◌ (num.to_int (num.cabs y))) (absolutes xs ys)

module _ {R D : Type 0} ⦃num : Numbers R⦄ where
  -- `for(i = 0; i < size(a); i++) a->mask[i] = |b[i]|;`, where the test of `b` stands in the loop
  abbrev pub mask_values : Token R D → List (Complex R) → Outcome (List ℤ)
  mask_values b [] = ok []
  mask_values (image b) (x ∷ xs) = absolutes (x ∷ xs) b.pixels
  mask_values (scalar c) (x ∷ xs) = ok (map (λ _. num.to_int (num.cabs c)) (x ∷ xs))
  mask_values _ (x ∷ xs) = aborted

  abbrev pub set_mask_tokens : Token R D → Token R D → Outcome (Token R D)
  set_mask_tokens (image a) b = map_ok (λ m. image (record a { mask = m })) (mask_values b a.pixels)
  set_mask_tokens a b = ok (error set_mask_of_image_only)

  unfoldable pub token_stack_set_mask : Program R D (Unit {0})
  unfolding token_stack_pop token_stack_push
  token_stack_set_mask = do
    b ← token_stack_pop
    a ← token_stack_pop
    r ← lift (set_mask_tokens a b)
    token_stack_push r

  -- The token that is pushed, if any.
  abbrev pub if_tokens : Token R D → Token R D → Token R D → Outcome (Option (Token R D))
  if_tokens (scalar t) b c = ok (some (if is_set t then b else c))
  if_tokens (image a) (image b) (image c) =
      map_ok (λ zs. some (image (record b { pixels = zs })))
        (copy_unless is_set a.pixels b.pixels c.pixels)
  if_tokens (image a) (image b) (scalar c) =
      map_ok (λ zs. some (image (record b { pixels = zs })))
        (set_where (λ x. not (is_set x)) c a.pixels b.pixels)
  if_tokens (image a) (scalar b) (image c) =
      map_ok (λ zs. some (image (record c { pixels = zs }))) (set_where is_set b a.pixels c.pixels)
  if_tokens (image a) (scalar b) (scalar c) =
      ok (some (image (update_pixels (λ x. if is_set x then b else c) a)))
  if_tokens (image a) _ _ = ok none
  if_tokens _ _ _ = aborted

  unfoldable pub token_stack_if : Program R D (Unit {0})
  unfolding token_stack_pop token_stack_push
  token_stack_if = do
    c ← token_stack_pop
    b ← token_stack_pop
    a ← token_stack_pop
    r ← lift (if_tokens a b c)
    push_any r
