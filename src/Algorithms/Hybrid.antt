-- ===== src/Algorithms/Hybrid.antt =====
-- src/algorithms.c: `basic_hio_iteration` on images of one size, in arithmetic without rounding.
use hawk.Prelude.{◌≡◌, ◌∙◌, ok, All}
use hawk.SpImage.{Image, image_size, Numbers, SpLibrary}
use hawk.Reals.{Reals}
use hawk.Options.{Options}
use hawk.Configuration.{get_beta}
use hawk.Support.{SupportLibrary}
use package.hawk.Algorithms.{PixelLibrary, AlgorithmLibrary, LogLibrary, with_pixels}
use package.hawk.Algorithms.Iterations.{
  hio_pixel, clamped_pixel, back_transformed, basic_hio_iteration,
}
use package.hawk.Algorithms.Pixels.{zip3, zip4, enforced}
use package.hawk.Algorithms.Pointwise.{
  HasRemainder, KeepsSizes, OneSize, measured_image_size, basic_hio_iteration-zip3,
}
use package.hawk.Algorithms.Formula.{ByParts}
use package.hawk.Algorithms.Measured.{
  ExactAmplitudes, IsAmplitude, AllMeasured, hio_pixel-AllMeasured, documented_hio,
  documented_hio-code,
}

module _ {R D L : Type 0} ⦃num : Numbers R⦄ ⦃reals : Reals R⦄ ⦃pix : PixelLibrary R⦄
    ⦃lib : SpLibrary R D⦄ ⦃blurs : SupportLibrary R D⦄ ⦃alg : AlgorithmLibrary R D⦄
    ⦃logs : LogLibrary R D L⦄ where
  -- On images of one size, with amplitudes that are not negative and a period of the log by which
  -- the iteration has a remainder in C, an iteration of the hybrid input-output algorithm
  -- transforms a pattern back and returns an image. The pattern is the transform of the image
  -- where there is no mask; with a mask it has the measured amplitude and the phase of the
  -- transform, or the phase 0 where the transform is 0. A pixel is that of the pattern inside the
  -- support, and outside the one before less `beta` times that of the pattern, both before the
  -- constraints; there are as many as amplitudes. Numbers are exact, and the functions on complex
  -- numbers work by parts.
  pub basic_hio_iteration-documented :
      (sizes : KeepsSizes lib blurs alg) (parts : ByParts num reals pix)
      (amplitudes : ExactAmplitudes num reals pix) (exp_amp real_in support : Image R D)
      (opts : Options R) (log : L) (beta : R)
      → OneSize exp_amp real_in support
      → All IsAmplitude exp_amp.pixels
      → HasRemainder opts.cur_iteration opts.log_output_period
      → get_beta opts ≡ ok beta
      → (pattern : Image R D) × (log' : L) × (basic_hio_iteration exp_amp real_in support opts log
          ≡ ok (
            with_pixels (back_transformed real_in pattern) (
                zip3
                  (λ o s i. enforced clamped_pixel opts (documented_hio beta o s i) s)
                  (back_transformed real_in pattern).pixels
                  support.pixels
                  real_in.pixels),
            log',
          ))
        × (image_size (back_transformed real_in pattern) ≡ image_size exp_amp)
        × AllMeasured exp_amp.pixels exp_amp.mask
            (lib.image_fft real_in).pixels
            (alg.zero_phase (blurs.duplicate_masked exp_amp)).pixels
            pattern.pixels
  basic_hio_iteration-documented sizes parts amplitudes exp_amp real_in support opts log beta one
        nonneg period eb =
      let zero_phase = alg.zero_phase (blurs.duplicate_masked exp_amp) in
      let fft = lib.image_fft real_in in
      let pattern =
        with_pixels zero_phase
          (zip4 hio_pixel exp_amp.pixels exp_amp.mask fft.pixels zero_phase.pixels) in
      let out = back_transformed real_in pattern in
      let (log', e) =
        basic_hio_iteration-zip3 sizes exp_amp real_in support opts log beta one period eb in
      let formula_of = documented_hio-code parts beta in
      (
        pattern,
        log',
        e ∙ (λ j. ok (
          with_pixels out (
              zip3 (λ o s i. enforced clamped_pixel opts (formula_of o s i j) s) out.pixels
                support.pixels real_in.pixels),
          log',
        )),
        measured_image_size sizes hio_pixel exp_amp real_in support one,
        hio_pixel-AllMeasured amplitudes exp_amp.pixels exp_amp.mask fft.pixels zero_phase.pixels
            nonneg one.mask_size (sizes.fft_size real_in ∙ one.in_size)
            (sizes.zero_phase_size (blurs.duplicate_masked exp_amp) ∙ sizes.duplicate_size exp_amp),
      )
