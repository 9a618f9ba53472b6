-- ===== src/Algorithms/Elser/Equivalence.antt =====
-- src/algorithms.c: `serial_difference_map_iteration` returns what the reference implementation above
-- it computes.
use hawk.Prelude.{ℕ, ◌≡◌, refl, sym, ap, ◌∙◌, map, ok, length}
use hawk.SpImage.{Image, image_size, Numbers, SpLibrary}
use hawk.Reals.{Reals, real_ℕ, ◌⊕◌, ◌⊘◌}
use hawk.Options.{Options}
use hawk.Configuration.{get_beta, get_gamma1, get_gamma2}
use hawk.Support.{SupportLibrary}
use package.hawk.Algorithms.{
  PixelLibrary, AlgorithmLibrary, LogLibrary, with_pixels, absolute_pixel,
}
use package.hawk.Algorithms.DifferenceMap.{
  f1_pixel, f2_pixel, map_pixels, serial_difference_map_f1, serial_difference_map_f2,
  serial_difference_map_iteration,
}
use package.hawk.Algorithms.Pixels.{zip2, length-zip2, zip3, enforced, update-zip2}
use package.hawk.Algorithms.Pointwise.{HasRemainder, KeepsSizes, OneSize, finish-zip3}
use package.hawk.Algorithms.Formula.{ExactArithmetic}
use package.hawk.Algorithms.Elser.{
  ExactFractions, scaled_pixel, combined_pixel, reference_of, length-f2_and_f1, f2_and_f1,
  HasInverse, IsLinear, map_pixels-reference,
}

module _ {R D : Type 0} ⦃num : Numbers R⦄ ⦃reals : Reals R⦄ ⦃lib : SpLibrary R D⦄
    ⦃blurs : SupportLibrary R D⦄ where
  -- f1 of the reference implementation
  abbrev pub f1_image : Image R D → Image R D → R → Image R D
  f1_image real_in support gamma1 =
      let out = blurs.duplicate_masked real_in in
      with_pixels out (zip2 (f1_pixel gamma1) out.pixels support.pixels)

  module _ ⦃alg : AlgorithmLibrary R D⦄ where
    abbrev pub unscaled_f2 : Image R D → Image R D → R → Image R D
    unscaled_f2 exp_amp fft gamma2 =
        let tmp2 = alg.proj_module fft exp_amp in
        lib.image_ifft (with_pixels tmp2 (zip2 (f2_pixel gamma2) tmp2.pixels fft.pixels))

    -- f2 of the reference implementation
    abbrev pub f2_image : Image R D → Image R D → R → Image R D
    f2_image exp_amp fft gamma2 =
        let out = unscaled_f2 exp_amp fft gamma2 in
        lib.image_scale out (real_ℕ 1 ⊘ real_ℕ (image_size out))

    -- Pi2f1 of the reference implementation
    abbrev pub pi2_f1_image : Image R D → Image R D → ℕ → Image R D
    pi2_f1_image exp_amp f1 size =
        lib.image_scale (lib.image_ifft (alg.proj_module (lib.image_fft f1) exp_amp))
          (real_ℕ 1 ⊘ real_ℕ size)

    module _ (sizes : KeepsSizes lib blurs alg) (exp_amp real_in support : Image R D)
        (one : OneSize exp_amp real_in support) where
      support_fits : length support.pixels ≡ length (blurs.duplicate_masked real_in).pixels
      support_fits = one.support_size ∙ sym (sizes.duplicate_size real_in ∙ one.in_size)

      serial_difference_map_f1-image :
          (gamma1 : R)
          → serial_difference_map_f1 real_in support gamma1 ≡ ok (f1_image real_in support gamma1)
      unfolding serial_difference_map_f1
      serial_difference_map_f1-image gamma1 =
          rw
            (update-zip2 (f1_pixel gamma1) (blurs.duplicate_masked real_in).pixels support.pixels
              support_fits)
            refl

      fft_fits :
          image_size (lib.image_fft real_in)
          ≡ image_size (alg.proj_module (lib.image_fft real_in) exp_amp)
      fft_fits = sym (sizes.module_size (lib.image_fft real_in) exp_amp)

      serial_difference_map_f2-image :
          (gamma2 : R)
          → serial_difference_map_f2 exp_amp (lib.image_fft real_in) gamma2
            ≡ ok (f2_image exp_amp (lib.image_fft real_in) gamma2)
      unfolding serial_difference_map_f2
      serial_difference_map_f2-image gamma2 =
          rw
            (update-zip2 (f2_pixel gamma2) (alg.proj_module (lib.image_fft real_in) exp_amp).pixels
              (lib.image_fft real_in).pixels fft_fits)
            refl

      -- The sizes of the images on the way.
      rho_size :
          image_size (lib.image_ifft (alg.proj_module (lib.image_fft real_in) exp_amp))
          ≡ image_size real_in
      rho_size = sizes.ifft_size _ ∙ (sizes.module_size _ _ ∙ sizes.fft_size real_in)

      f1_size : (gamma1 : R) → image_size (f1_image real_in support gamma1) ≡ image_size real_in
      f1_size gamma1 =
          length-zip2 (f1_pixel gamma1) (blurs.duplicate_masked real_in).pixels support.pixels
            support_fits
          ∙ sizes.duplicate_size real_in

      back_size :
          (gamma1 : R)
          → image_size (
              lib.image_ifft
                (alg.proj_module (lib.image_fft (f1_image real_in support gamma1)) exp_amp))
            ≡ image_size real_in
      back_size gamma1 =
          sizes.ifft_size _ ∙ (sizes.module_size _ _ ∙ (sizes.fft_size _ ∙ f1_size gamma1))

      f2_size :
          (gamma2 : R)
          → image_size (unscaled_f2 exp_amp (lib.image_fft real_in) gamma2) ≡ image_size real_in
      f2_size gamma2 =
          sizes.ifft_size _
          ∙ (length-zip2 (f2_pixel gamma2) (alg.proj_module (lib.image_fft real_in) exp_amp).pixels
                (lib.image_fft real_in).pixels fft_fits
              ∙ (sizes.module_size _ _ ∙ sizes.fft_size real_in))

      -- The pixels of f2, with the transform of the image undone.
      f2_pixels :
          (linear : IsLinear lib blurs) (gamma2 : R)
          → (f2_image exp_amp (lib.image_fft real_in) gamma2).pixels
            ≡ map (scaled_pixel (real_ℕ 1 ⊘ real_ℕ (image_size real_in))) (
                zip2
                  (combined_pixel (real_ℕ 1 ⊕ gamma2) gamma2)
                  (lib.image_ifft (alg.proj_module (lib.image_fft real_in) exp_amp)).pixels
                  (map (scaled_pixel (real_ℕ (image_size real_in))) real_in.pixels))
      f2_pixels linear gamma2 =
          let out = unscaled_f2 exp_amp (lib.image_fft real_in) gamma2 in
          let tmp2 = alg.proj_module (lib.image_fft real_in) exp_amp in
          linear.scale_pixels out (real_ℕ 1 ⊘ real_ℕ (image_size out))
          ∙ ((λ j. map (scaled_pixel (real_ℕ 1 ⊘ real_ℕ (f2_size gamma2 j))) out.pixels)
              ∙ ap (map (scaled_pixel (real_ℕ 1 ⊘ real_ℕ (image_size real_in)))) (
                  linear.ifft_linear (real_ℕ 1 ⊕ gamma2) gamma2 tmp2 (lib.image_fft real_in)
                    (sym fft_fits)
                  ∙ ap
                      (zip2 (combined_pixel (real_ℕ 1 ⊕ gamma2) gamma2)
                        (lib.image_ifft tmp2).pixels)
                      (linear.ifft_fft real_in)))

module _ {R D L : Type 0} ⦃num : Numbers R⦄ ⦃reals : Reals R⦄ ⦃pix : PixelLibrary R⦄
    ⦃lib : SpLibrary R D⦄ ⦃blurs : SupportLibrary R D⦄ ⦃alg : AlgorithmLibrary R D⦄
    ⦃logs : LogLibrary R D L⦄ where
  -- The optimized difference map returns what the reference implementation above it computes, on
  -- images of one size and with a period of the log by which the iteration has a remainder in C:
  -- the image before plus `beta` times the difference of f2 projected on the support and of f1
  -- projected on the measured amplitudes, and then the constraints, where f1 and f2 are what
  -- `serial_difference_map_f1` and `serial_difference_map_f2` return. Numbers are exact and the
  -- number of the pixels has an inverse; the inverse transform is linear, and undoes the
  -- transform up to that number.
  pub serial_difference_map_iteration-reference :
      (sizes : KeepsSizes lib blurs alg) (linear : IsLinear lib blurs)
      (exact : ExactArithmetic reals) (fractions : ExactFractions reals)
      (exp_amp real_in support : Image R D) (opts : Options R) (log : L) (beta gamma1 gamma2 : R)
      → OneSize exp_amp real_in support
      → HasInverse reals (image_size real_in)
      → HasRemainder opts.cur_iteration opts.log_output_period
      → get_beta opts ≡ ok beta
      → get_gamma1 opts ≡ ok gamma1
      → get_gamma2 opts ≡ ok gamma2
      → (f1 f2 : Image R D) × (log' : L) × (serial_difference_map_f1 real_in support gamma1 ≡ ok f1)
        × (serial_difference_map_f2 exp_amp (lib.image_fft real_in) gamma2 ≡ ok f2)
        × (serial_difference_map_iteration exp_amp real_in support opts log
            ≡ ok (
              with_pixels (blurs.duplicate_masked real_in) (
                  zip3
                    (λ b s q. enforced absolute_pixel opts (reference_of beta b s q) s)
                    real_in.pixels
                    support.pixels
                    (zip2
                      (λ p q. (p, q))
                      f2.pixels
                      (pi2_f1_image exp_amp f1 (image_size real_in)).pixels)),
              log',
            ))
  unfolding serial_difference_map_iteration
  serial_difference_map_iteration-reference sizes linear exact fractions exp_amp real_in support
        opts log beta gamma1 gamma2 one inverse period eb e1 e2 =
      let n = image_size real_in in
      let out = blurs.duplicate_masked real_in in
      let f1 = f1_image real_in support gamma1 in
      let f2 = f2_image exp_amp (lib.image_fft real_in) gamma2 in
      let back = lib.image_ifft (alg.proj_module (lib.image_fft f1) exp_amp) in
      let rho = lib.image_ifft (alg.proj_module (lib.image_fft real_in) exp_amp) in
      let f1_is = serial_difference_map_f1-image sizes exp_amp real_in support one gamma1 in
      let f2_is = serial_difference_map_f2-image sizes exp_amp real_in support one gamma2 in
      let hs = one.support_size ∙ sym one.in_size in
      let hr = rho_size sizes exp_amp real_in support one in
      let hb = back_size sizes exp_amp real_in support one gamma1 in
      let pairs = f2_and_f1 n gamma2 rho.pixels real_in.pixels back.pixels in
      let mapped =
        ap (λ os. map_pixels beta gamma2 n os support.pixels rho.pixels back.pixels real_in.pixels)
          (linear.duplicate_pixels real_in)
        ∙ map_pixels-reference exact fractions n inverse beta gamma2 real_in.pixels support.pixels
            rho.pixels back.pixels hs hr hb in
      let same : pairs ≡ zip2 (λ p q. (p, q)) f2.pixels (pi2_f1_image exp_amp f1 n).pixels = λ j.
        zip2 (λ p q. (p, q)) (sym (f2_pixels sizes exp_amp real_in support one linear gamma2) j)
          (sym (linear.scale_pixels back (real_ℕ 1 ⊘ real_ℕ n)) j) in
      let (log', e) =
        finish-zip3 absolute_pixel exp_amp real_in (lib.image_fft real_in) support opts log out
          (reference_of beta) real_in.pixels pairs hs
          (length-f2_and_f1 n gamma2 rho.pixels real_in.pixels back.pixels hr hb) period in
      (
        f1,
        f2,
        log',
        f1_is,
        f2_is,
        rw (e1, e2, eb, f1_is, mapped)
            (e ∙ (λ j. ok (
              with_pixels out (
                  zip3 (λ b s q. enforced absolute_pixel opts (reference_of beta b s q) s)
                    real_in.pixels support.pixels (same j)),
              log',
            ))),
      )
