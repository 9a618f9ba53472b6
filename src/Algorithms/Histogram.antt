-- ===== src/Algorithms/Histogram.antt =====
-- src/algorithms.c: `basic_hio_proj_iteration` and `basic_raar_proj_iteration`, which take the
-- measured amplitudes by `sp_proj_module_histogram`, on images of one size.
use hawk.Prelude.{◌≡◌, sym, ◌∙◌, ok, length-map}
use hawk.SpImage.{Image, image_size, Numbers, SpLibrary}
use hawk.Reals.{Reals}
use hawk.Options.{Options}
use hawk.Configuration.{get_beta}
use hawk.Support.{SupportLibrary}
use package.hawk.Algorithms.{
  PixelLibrary, AlgorithmLibrary, LogLibrary, with_pixels, is_outside, is_dark, absolute_pixel,
}
use package.hawk.Algorithms.Iterations.{
  hio_outside, raar_outside, back_transformed, basic_hio_proj_iteration, basic_raar_proj_iteration,
}
use package.hawk.Algorithms.Pixels.{zip3, outside_pixel, treat_outside-zip3, enforced}
use package.hawk.Algorithms.Pointwise.{HasRemainder, KeepsSizes, OneSize, finish-zip3}
use package.hawk.Algorithms.Formula.{
  ExactArithmetic, ByParts, documented_raar, documented_raar-code, normalize_finite-all,
}
use package.hawk.Algorithms.Measured.{documented_hio, documented_hio-code}

module _ {R D : Type 0} ⦃num : Numbers R⦄ ⦃reals : Reals R⦄ ⦃pix : PixelLibrary R⦄
    ⦃lib : SpLibrary R D⦄ ⦃blurs : SupportLibrary R D⦄ ⦃alg : AlgorithmLibrary R D⦄ where
  -- Pm: the image with the measured amplitudes.
  abbrev pub histogram_image : Image R D → Image R D → Image R D → Image R D
  histogram_image exp_amp int_std_dev real_in =
      back_transformed real_in
        (alg.proj_module_histogram (lib.image_fft real_in) exp_amp int_std_dev)

  histogram_image_size :
      (sizes : KeepsSizes lib blurs alg) (exp_amp int_std_dev real_in : Image R D)
      → image_size (histogram_image exp_amp int_std_dev real_in) ≡ image_size real_in
  histogram_image_size sizes exp_amp int_std_dev real_in =
      length-map _ _
      ∙ (sizes.ifft_size _
          ∙ (sizes.histogram_size (lib.image_fft real_in) exp_amp int_std_dev
              ∙ sizes.fft_size real_in))

module _ {R D L : Type 0} ⦃num : Numbers R⦄ ⦃reals : Reals R⦄ ⦃pix : PixelLibrary R⦄
    ⦃lib : SpLibrary R D⦄ ⦃blurs : SupportLibrary R D⦄ ⦃alg : AlgorithmLibrary R D⦄
    ⦃logs : LogLibrary R D L⦄ where
  -- On images of one size and with a period of the log by which the iteration has a remainder in
  -- C, the hybrid input-output algorithm with the histogram projection returns an image. Before
  -- the constraints, a pixel is the projected one inside the support, and outside the one before
  -- less `beta` times the projected one. Numbers are exact and finite, and the functions on
  -- complex numbers work by parts.
  pub basic_hio_proj_iteration-documented :
      (sizes : KeepsSizes lib blurs alg) (exact : ExactArithmetic reals)
      (parts : ByParts num reals pix) (exp_amp int_std_dev real_in support : Image R D)
      (opts : Options R) (log : L) (beta : R)
      → OneSize exp_amp real_in support
      → HasRemainder opts.cur_iteration opts.log_output_period
      → get_beta opts ≡ ok beta
      → (log' : L) × (basic_hio_proj_iteration exp_amp int_std_dev real_in support opts log
          ≡ ok (
            with_pixels (histogram_image exp_amp int_std_dev real_in) (
                zip3
                  (λ o s i. enforced absolute_pixel opts (documented_hio beta o s i) s)
                  (histogram_image exp_amp int_std_dev real_in).pixels
                  support.pixels
                  real_in.pixels),
            log',
          ))
  unfolding basic_hio_proj_iteration
  basic_hio_proj_iteration-documented sizes exact parts exp_amp int_std_dev real_in support opts log
        beta one period eb =
      let out = histogram_image exp_amp int_std_dev real_in in
      let size = histogram_image_size sizes exp_amp int_std_dev real_in in
      let hs = one.support_size ∙ sym (size ∙ one.in_size) in
      let (log', e) =
        finish-zip3 absolute_pixel exp_amp real_in (lib.image_fft real_in) support opts log out
          (outside_pixel is_outside (hio_outside beta)) out.pixels real_in.pixels hs (sym size)
          period in
      let formula_of = documented_hio-code parts beta in
      (
        log',
        rw
            (
              eb,
              normalize_finite-all exact parts (image_size real_in)
                  (lib.image_ifft
                    (alg.proj_module_histogram (lib.image_fft real_in) exp_amp int_std_dev)).pixels,
              treat_outside-zip3 is_outside (hio_outside beta) out.pixels support.pixels
                  real_in.pixels hs (sym size),
            )
            (e ∙ (λ j. ok (
              with_pixels out (
                  zip3 (λ o s i. enforced absolute_pixel opts (formula_of o s i j) s) out.pixels
                    support.pixels real_in.pixels),
              log',
            ))),
      )

  -- On images of one size and with a period of the log by which the iteration has a remainder in
  -- C, `basic_raar_proj_iteration` returns an image whose pixels are, before the constraints,
  -- those of the formula in its comment, if numbers are exact and the functions on complex
  -- numbers work by parts.
  pub basic_raar_proj_iteration-documented :
      (sizes : KeepsSizes lib blurs alg) (exact : ExactArithmetic reals)
      (parts : ByParts num reals pix) (exp_amp int_std_dev real_in support : Image R D)
      (opts : Options R) (log : L) (beta : R)
      → OneSize exp_amp real_in support
      → HasRemainder opts.cur_iteration opts.log_output_period
      → get_beta opts ≡ ok beta
      → (log' : L) × (basic_raar_proj_iteration exp_amp int_std_dev real_in support opts log
          ≡ ok (
            with_pixels (histogram_image exp_amp int_std_dev real_in) (
                zip3
                  (λ o s i. enforced absolute_pixel opts (documented_raar beta o s i) s)
                  (histogram_image exp_amp int_std_dev real_in).pixels
                  support.pixels
                  real_in.pixels),
            log',
          ))
  unfolding basic_raar_proj_iteration
  basic_raar_proj_iteration-documented sizes exact parts exp_amp int_std_dev real_in support opts
        log beta one period eb =
      let out = histogram_image exp_amp int_std_dev real_in in
      let size = histogram_image_size sizes exp_amp int_std_dev real_in in
      let hs = one.support_size ∙ sym (size ∙ one.in_size) in
      let (log', e) =
        finish-zip3 absolute_pixel exp_amp real_in (lib.image_fft real_in) support opts log out
          (outside_pixel is_dark (raar_outside beta)) out.pixels real_in.pixels hs (sym size)
          period in
      let formula_of = documented_raar-code exact parts beta in
      (
        log',
        rw
            (
              eb,
              normalize_finite-all exact parts (image_size real_in)
                  (lib.image_ifft
                    (alg.proj_module_histogram (lib.image_fft real_in) exp_amp int_std_dev)).pixels,
              treat_outside-zip3 is_dark (raar_outside beta) out.pixels support.pixels
                  real_in.pixels hs (sym size),
            )
            (e ∙ (λ j. ok (
              with_pixels out (
                  zip3 (λ o s i. enforced absolute_pixel opts (formula_of o s i j) s) out.pixels
                    support.pixels real_in.pixels),
              log',
            ))),
      )
