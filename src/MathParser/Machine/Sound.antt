-- ===== src/MathParser/Machine/Sound.antt =====
-- Each operator of src/math_parser.c on images of one size and on numbers.
use hawk.Prelude.{ℕ, ◌≡◌, ◌∙◌, length-map}
use hawk.SpImage.{Complex, Image, image_size, Numbers, SpLibrary}
use hawk.MathParser.Token.{
  Token, image, scalar, operator, comma_token, error, TokenName, operand, left_parenthesis,
  right_parenthesis, addition, unary_plus, subtraction, unary_minus, multiplication, division,
  smaller_than, greater_than, set_mask, complex_conjugate, mask, square_root, absolute_value,
  exponentiation, fourier_transform, inverse_fourier_transform, integrate, complex_argument,
  exponential, logarythm, minimum, maximum, position_x, position_y, position_z, real_part,
  conditional_if, imaginary_part, logical_and, logical_or, equality, imaginary_unit, comma,
}
use hawk.MathParser.Meaning.{kind}
use hawk.MathParser.Machine.Sizes.{
  KeepsSizes, IsValue, IsSound, set_mask_tokens-Yields, if_tokens-Yields, zip_images-Yields,
  length-index_pixels,
}

module _ {R D : Type 0} (n : ℕ) where
  on_value :
      (P : Token R D → Type 0)
      → ((a : Image R D) → image_size a ≡ n → P (image a))
      → ((c : Complex R) → P (scalar c))
      → (t : Token R D) → IsValue n t
      → P t
  on_value P f g (image a) h = f a h
  on_value P f g (scalar c) h = g c
  on_value P f g (operator o) h = absurd h
  on_value P f g comma_token h = absurd h
  on_value P f g (error e) h = absurd h

  on_values :
      (P : Token R D → Token R D → Type 0)
      → ((a b : Image R D) → image_size a ≡ n → image_size b ≡ n → P (image a) (image b))
      → ((a : Image R D) (c : Complex R) → image_size a ≡ n → P (image a) (scalar c))
      → ((c : Complex R) (b : Image R D) → image_size b ≡ n → P (scalar c) (image b))
      → ((c d : Complex R) → P (scalar c) (scalar d))
      → (s t : Token R D) → IsValue n s
      → IsValue n t
      → P s t
  on_values P ii is si ss s t = λ hs ht.
      on_value (λ x. P x t)
        (λ a ha. on_value (λ y. P (image a) y) (λ b hb. ii a b ha hb) (λ c. is a c ha) t ht)
        (λ c. on_value (λ y. P (scalar c) y) (λ b hb. si c b hb) (λ d. ss c d) t ht) s hs

module _ {R D : Type 0} ⦃num : Numbers R⦄ ⦃lib : SpLibrary R D⦄ (laws : KeepsSizes num lib) where
  -- On values of `n` pixels every operator returns a value of `n` pixels or an error token, and so
  -- neither aborts nor leaves an array, if libspimage keeps the sizes of images.
  pub kind-IsSound : (n : ℕ) (name : TokenName) → IsSound {R = R} {D = D} n (kind name)
  unfolding kind
  kind-IsSound n addition =
      on_values n _ (λ a b ha hb. laws.image_add_size b a n hb ha)
        (λ a c h. length-map _ a.pixels ∙ h) (λ c b h. length-map _ b.pixels ∙ h) (λ c d. tt)
  kind-IsSound n unary_plus = tt
  kind-IsSound n subtraction =
      on_values n _
        (λ a b ha hb.
          laws.image_add_size (lib.image_scale b num.minus_one) a n
            (laws.image_scale_size b num.minus_one ∙ hb) ha)
        (λ a c h. length-map _ a.pixels ∙ h)
        (λ c b h. length-map _ _ ∙ laws.image_scale_size b num.minus_one ∙ h) (λ c d. tt)
  kind-IsSound n unary_minus =
      on_value n _ (λ a h. laws.image_scale_size a num.minus_one ∙ h) (λ c. tt)
  kind-IsSound n multiplication =
      on_values n _ (λ a b ha hb. laws.image_mul_elements_size b a n hb ha)
        (λ a c h. length-map _ a.pixels ∙ h) (λ c b h. length-map _ b.pixels ∙ h) (λ c d. tt)
  kind-IsSound n division =
      on_values n _
        (λ a b ha hb.
          laws.image_mul_elements_size (lib.image_invert b) a n (laws.image_invert_size b ∙ hb) ha)
        (λ a c h. length-map _ a.pixels ∙ h)
        (λ c b h. length-map _ _ ∙ laws.image_invert_size b ∙ h) (λ c d. tt)
  kind-IsSound n smaller_than =
      on_values n _ (λ a b. zip_images-Yields n _ a b) (λ a c h. length-map _ a.pixels ∙ h)
        (λ c b h. length-map _ b.pixels ∙ h) (λ c d. tt)
  kind-IsSound n greater_than =
      on_values n _ (λ a b. zip_images-Yields n _ a b) (λ a c h. length-map _ a.pixels ∙ h)
        (λ c b h. length-map _ b.pixels ∙ h) (λ c d. tt)
  kind-IsSound n set_mask =
      on_values n _ (λ a b ha hb. set_mask_tokens-Yields n a (image b) ha hb)
        (λ a c h. set_mask_tokens-Yields n a (scalar c) h tt) (λ c b h. tt) (λ c d. tt)
  kind-IsSound n complex_conjugate = on_value n _ (λ a h. length-map _ a.pixels ∙ h) (λ c. tt)
  kind-IsSound n mask = on_value n _ (λ a h. laws.image_get_mask_size a ∙ h) (λ c. tt)
  kind-IsSound n square_root = on_value n _ (λ a h. length-map _ a.pixels ∙ h) (λ c. tt)
  kind-IsSound n absolute_value = on_value n _ (λ a h. laws.image_dephase_size a ∙ h) (λ c. tt)
  kind-IsSound n exponentiation =
      on_values n _ (λ a b ha hb. tt) (λ a c h. length-map _ a.pixels ∙ h) (λ c b h. tt) (λ c d. tt)
  kind-IsSound n fourier_transform = on_value n _ (λ a h. laws.image_fft_size a ∙ h) (λ c. tt)
  kind-IsSound n inverse_fourier_transform =
      on_value n _ (λ a h. laws.image_ifft_size (record a { phased = 1; shifted = 1 }) ∙ h)
        (λ c. tt)
  kind-IsSound n integrate = on_value n _ (λ a h. tt) (λ c. tt)
  kind-IsSound n complex_argument = on_value n _ (λ a h. length-map _ a.pixels ∙ h) (λ c. tt)
  kind-IsSound n exponential = on_value n _ (λ a h. length-map _ a.pixels ∙ h) (λ c. tt)
  kind-IsSound n logarythm = on_value n _ (λ a h. length-map _ a.pixels ∙ h) (λ c. tt)
  kind-IsSound n minimum =
      on_values n _ (λ a b ha hb. zip_images-Yields n _ b a hb ha)
        (λ a c h. length-map _ a.pixels ∙ h) (λ c b h. length-map _ b.pixels ∙ h) (λ c d. tt)
  kind-IsSound n maximum =
      on_values n _ (λ a b ha hb. zip_images-Yields n _ b a hb ha)
        (λ a c h. length-map _ a.pixels ∙ h) (λ c b h. length-map _ b.pixels ∙ h) (λ c d. tt)
  kind-IsSound n position_x = on_value n _ (λ a h. length-index_pixels _ 0 a.pixels ∙ h) (λ c. tt)
  kind-IsSound n position_y = on_value n _ (λ a h. length-index_pixels _ 0 a.pixels ∙ h) (λ c. tt)
  kind-IsSound n position_z = on_value n _ (λ a h. length-index_pixels _ 0 a.pixels ∙ h) (λ c. tt)
  kind-IsSound n real_part = on_value n _ (λ a h. length-map _ a.pixels ∙ h) (λ c. tt)
  kind-IsSound n conditional_if = if_tokens-Yields n
  kind-IsSound n imaginary_part = on_value n _ (λ a h. length-map _ a.pixels ∙ h) (λ c. tt)
  kind-IsSound n logical_and =
      on_values n _ (λ a b. zip_images-Yields n _ a b) (λ a c h. length-map _ a.pixels ∙ h)
        (λ c b h. length-map _ b.pixels ∙ h) (λ c d. tt)
  kind-IsSound n logical_or =
      on_values n _ (λ a b. zip_images-Yields n _ a b) (λ a c h. length-map _ a.pixels ∙ h)
        (λ c b h. length-map _ b.pixels ∙ h) (λ c d. tt)
  kind-IsSound n equality =
      on_values n _ (λ a b. zip_images-Yields n _ a b) (λ a c h. length-map _ a.pixels ∙ h)
        (λ c b h. length-map _ b.pixels ∙ h) (λ c d. tt)
  kind-IsSound n imaginary_unit = on_value n _ (λ a h. length-map _ a.pixels ∙ h) (λ c. tt)
  kind-IsSound n comma = tt
  kind-IsSound n operand = tt
  kind-IsSound n left_parenthesis = tt
  kind-IsSound n right_parenthesis = tt
