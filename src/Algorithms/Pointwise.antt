-- ===== src/Algorithms/Pointwise.antt =====
-- src/algorithms.c: iterations on images of one size, as a projection of the whole image on the
-- measured amplitudes followed by one function at every pixel.
use hawk.Prelude.{
  ℕ, zero, suc, ◌^◌, ◌-◌, ◌==◌, false, Bool-cases, ◌⊎◌, inl, inr, arith, ◌≡◌, ◌≢◌, refl, sym, ap,
  ◌∙◌, List, ℤ, pos, negsuc, ok, map_ok, length, length-map, ◌%◌,
}
use hawk.SpImage.{Complex, Image, image_size, Numbers, SpLibrary}
use hawk.Reals.{Reals}
use hawk.Options.{Options}
use hawk.Configuration.{get_beta}
use hawk.Support.{SupportLibrary}
use package.hawk.Algorithms.{
  PixelLibrary, AlgorithmLibrary, LogLibrary, int_mod, with_pixels, is_outside, log_at, log_period,
  finish_iteration, remainder_opposite,
}
use package.hawk.Algorithms.Iterations.{
  hio_pixel, hio_outside, clamped_pixel, back_transformed, pattern_of, basic_hio_iteration,
}
use package.hawk.Algorithms.Pixels.{
  zip3, zip4, project-zip4, length-zip4, outside_pixel, treat_outside-zip3, enforced, enforce-zip3,
}

-- C defines the remainder: the divisor is not 0, and it is not INT_MIN by -1.
abbrev pub HasRemainder : ℤ → ℤ → Type 0
HasRemainder a b = (b ≢ pos 0) × ((a ≢ negsuc (2 ^ 31 - 1)) ⊎ (b ≢ negsuc 0))

not_minimum :
    (m : ℕ) → (negsuc m ≢ negsuc (2 ^ 31 - 1)) ⊎ (negsuc 0 ≢ negsuc 0) → (m == 2 ^ 31 - 1) ≡ false
not_minimum m (inl h) = elim (Bool-cases (m == 2 ^ 31 - 1)) [
  | inl e ↦ absurd (h (ap negsuc (ground arith)))
  | inr e ↦ e
]
not_minimum m (inr h) = absurd (h refl)

int_mod-total : (a b : ℤ) → HasRemainder a b → (r : ℤ) × (int_mod a b ≡ ok r)
int_mod-total a (pos zero) h = absurd (h.0 refl)
int_mod-total (pos m) (pos (suc n)) h = (pos (m % suc n), refl)
int_mod-total (pos m) (negsuc n) h = (pos (m % suc n), refl)
int_mod-total (negsuc m) (pos (suc n)) h = (remainder_opposite (suc m % suc n), refl)
int_mod-total (negsuc m) (negsuc zero) h =
    (remainder_opposite (suc m % 1), rw (not_minimum m h.1) refl)
int_mod-total (negsuc m) (negsuc (suc n)) h = (remainder_opposite (suc m % suc (suc n)), refl)

-- libspimage computes images of the size of its operand.
pub record KeepsSizes {R D : Type 0} (lib : SpLibrary R D) (blurs : SupportLibrary R D)
    (alg : AlgorithmLibrary R D) : Type 0 where
  pub fft_size : (a : Image R D) → image_size (lib.image_fft a) ≡ image_size a
  pub ifft_size : (a : Image R D) → image_size (lib.image_ifft a) ≡ image_size a
  pub duplicate_size : (a : Image R D) → image_size (blurs.duplicate_masked a) ≡ image_size a
  pub zero_phase_size : (a : Image R D) → image_size (alg.zero_phase a) ≡ image_size a
  pub module_size : (a b : Image R D) → image_size (alg.proj_module a b) ≡ image_size a
  pub histogram_size :
      (a b c : Image R D) → image_size (alg.proj_module_histogram a b c) ≡ image_size a

-- The amplitudes, their mask, the image and the support have as many pixels.
pub record OneSize {R D : Type 0} (exp_amp real_in support : Image R D) : Type 0 where
  pub mask_size : length exp_amp.mask ≡ image_size exp_amp
  pub in_size : image_size real_in ≡ image_size exp_amp
  pub support_size : image_size support ≡ image_size exp_amp

module _ {R D : Type 0} ⦃num : Numbers R⦄ ⦃reals : Reals R⦄ ⦃pix : PixelLibrary R⦄
    ⦃lib : SpLibrary R D⦄ ⦃blurs : SupportLibrary R D⦄ ⦃alg : AlgorithmLibrary R D⦄ where
  -- The image with the measured amplitudes and the phases of the transform, transformed back.
  abbrev pub measured_image :
      (Complex R → ℤ → Complex R → Complex R → Complex R) → Image R D → Image R D → Image R D
  measured_image g exp_amp real_in =
      let pattern = alg.zero_phase (blurs.duplicate_masked exp_amp) in
      back_transformed real_in (
        with_pixels pattern
          (zip4 g exp_amp.pixels exp_amp.mask (lib.image_fft real_in).pixels pattern.pixels))

  module _ (sizes : KeepsSizes lib blurs alg)
      (g : Complex R → ℤ → Complex R → Complex R → Complex R) (exp_amp real_in support : Image R D)
      (one : OneSize exp_amp real_in support) where
    pattern_size : image_size (alg.zero_phase (blurs.duplicate_masked exp_amp)) ≡ image_size exp_amp
    pattern_size =
        sizes.zero_phase_size (blurs.duplicate_masked exp_amp) ∙ sizes.duplicate_size exp_amp

    pub pattern_of-zip4 :
        pattern_of g exp_amp (lib.image_fft real_in)
        ≡ ok (
            with_pixels (alg.zero_phase (blurs.duplicate_masked exp_amp)) (
              zip4 g exp_amp.pixels exp_amp.mask
                (lib.image_fft real_in).pixels
                (alg.zero_phase (blurs.duplicate_masked exp_amp)).pixels))
    pattern_of-zip4 =
        rw
          (project-zip4 g exp_amp.pixels exp_amp.mask (lib.image_fft real_in).pixels
            (alg.zero_phase (blurs.duplicate_masked exp_amp)).pixels one.mask_size
            (sizes.fft_size real_in ∙ one.in_size) pattern_size)
          refl

    pub measured_image_size : image_size (measured_image g exp_amp real_in) ≡ image_size exp_amp
    measured_image_size =
        length-map _ _
        ∙ (sizes.ifft_size _
            ∙ length-zip4 g exp_amp.pixels exp_amp.mask (lib.image_fft real_in).pixels
                (alg.zero_phase (blurs.duplicate_masked exp_amp)).pixels one.mask_size
                (sizes.fft_size real_in ∙ one.in_size) pattern_size)

module _ {R D L : Type 0} ⦃num : Numbers R⦄ ⦃reals : Reals R⦄ ⦃pix : PixelLibrary R⦄
    ⦃lib : SpLibrary R D⦄ ⦃blurs : SupportLibrary R D⦄ ⦃alg : AlgorithmLibrary R D⦄
    ⦃logs : LogLibrary R D L⦄ where
  pub log_period-total :
      (exp_amp real_in real_out fft support : Image R D) (opts : Options R) (log : L)
      → HasRemainder opts.cur_iteration opts.log_output_period
      → (log' : L) × (log_period exp_amp real_in real_out fft support opts log ≡ ok log')
  log_period-total exp_amp real_in real_out fft support opts log h =
      let (place, e) = int_mod-total opts.cur_iteration opts.log_output_period h in
      (
        log_at place exp_amp real_in real_out fft support opts log,
        ap (map_ok (λ r. log_at r exp_amp real_in real_out fft support opts log)) e,
      )

  -- The last steps, on the pixels that the loops before them leave.
  pub finish-zip3 :
      {A C : Type 0} (f : Complex R → Complex R) (exp_amp real_in fft support : Image R D)
      (opts : Options R) (log : L) (out : Image R D) (g : A → Complex R → C → Complex R)
      (os : List A) (before : List C)
      → length support.pixels ≡ length os
      → length before ≡ length os
      → HasRemainder opts.cur_iteration opts.log_output_period
      → (log' : L) × (finish_iteration f exp_amp real_in fft support opts log
            (with_pixels out (zip3 g os support.pixels before))
          ≡ ok (
            with_pixels out (zip3 (λ o s i. enforced f opts (g o s i) s) os support.pixels before),
            log',
          ))
  finish-zip3 f exp_amp real_in fft support opts log out g os before hs hb h =
      let done = enforce-zip3 f opts g os support.pixels before hs hb in
      let real_out =
        with_pixels out (zip3 (λ o s i. enforced f opts (g o s i) s) os support.pixels before) in
      let (log', e) = log_period-total exp_amp real_in real_out fft support opts log h in
      (log', rw (done, e) refl)

  -- The iteration, as one function of the code at every pixel.
  pub basic_hio_iteration-zip3 :
      (sizes : KeepsSizes lib blurs alg) (exp_amp real_in support : Image R D) (opts : Options R)
      (log : L) (beta : R)
      → OneSize exp_amp real_in support
      → HasRemainder opts.cur_iteration opts.log_output_period
      → get_beta opts ≡ ok beta
      → (log' : L) × (basic_hio_iteration exp_amp real_in support opts log
          ≡ ok (
            with_pixels (measured_image hio_pixel exp_amp real_in) (
                zip3
                  (λ o s i.
                    enforced clamped_pixel opts
                      (outside_pixel is_outside (hio_outside beta) o s i)
                      s)
                  (measured_image hio_pixel exp_amp real_in).pixels
                  support.pixels
                  real_in.pixels),
            log',
          ))
  unfolding basic_hio_iteration
  basic_hio_iteration-zip3 sizes exp_amp real_in support opts log beta one period eb =
      let out = measured_image hio_pixel exp_amp real_in in
      let size = measured_image_size sizes hio_pixel exp_amp real_in support one in
      let hs = one.support_size ∙ sym size in
      let hi = one.in_size ∙ sym size in
      let (log', e) =
        finish-zip3 clamped_pixel exp_amp real_in (lib.image_fft real_in) support opts log out
          (outside_pixel is_outside (hio_outside beta)) out.pixels real_in.pixels hs hi period in
      (
        log',
        rw
            (
              eb,
              pattern_of-zip4 sizes hio_pixel exp_amp real_in support one,
              treat_outside-zip3 is_outside (hio_outside beta) out.pixels support.pixels
                  real_in.pixels hs hi,
            )
            e,
      )
