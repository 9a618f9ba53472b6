-- ===== src/Algorithms/Iterations.antt =====
-- src/algorithms.c: the iterations that keep no state, but for the difference map.
use hawk.Prelude.{◌||◌, List, [], ◌∷◌, map, if◌then◌else◌, ℤ, Outcome, ok, undefined, ◌>>=◌}
use hawk.SpImage.{Complex, cinit, Image, image_size, Numbers, SpLibrary}
use hawk.Reals.{Reals, real_ℕ, is_true, ◌⊖◌, ◌⊗◌, ◌⊘◌}
use hawk.Options.{Options}
use hawk.Configuration.{get_beta, get_phases_blur_radius}
use hawk.Support.{SupportLibrary}
use package.hawk.Algorithms.{
  PixelLibrary, AlgorithmLibrary, LogLibrary, is_on, overwrite, update, update2, with_pixels,
  is_outside, is_dark, project, project_in_place, treat_outside, absolute_pixel, normalized,
  normalize_finite, finish_iteration,
}

module _ {R : Type 0} ⦃num : Numbers R⦄ ⦃reals : Reals R⦄ ⦃pix : PixelLibrary R⦄ where
  -- the calculated phase with the measured amplitude
  abbrev pub measured_pixel : Complex R → Complex R → Complex R
  measured_pixel e f = pix.cscale f (e.re ⊘ num.cabs f)

  abbrev pub hio_pixel : Complex R → ℤ → Complex R → Complex R → Complex R
  hio_pixel e m f p =
      if is_on m then (if is_true (num.cabs f) then measured_pixel e f else p) else f

  abbrev pub pattern_pixel : Complex R → ℤ → Complex R → Complex R → Complex R
  pattern_pixel e m f p = if is_on m then measured_pixel e f else f

  abbrev pub raar_pixel : Complex R → Complex R → Complex R
  raar_pixel e f = if is_true f.re then measured_pixel e f else e

  -- what becomes of a pixel outside the support, from the result and the image before
  abbrev pub hio_outside : R → Complex R → Complex R → Complex R
  hio_outside beta o i = pix.csub i (pix.cscale o beta)

  abbrev pub raar_outside : R → Complex R → Complex R → Complex R
  raar_outside beta o i = num.cadd (pix.cscale o (real_ℕ 1 ⊖ real_ℕ 2 ⊗ beta)) (pix.cscale i beta)

  -- the constraint of `basic_hio_iteration`, which puts negative parts to 0
  abbrev pub clamped_pixel : Complex R → Complex R
  clamped_pixel p =
      cinit (if reals.less p.re (real_ℕ 0) then real_ℕ 0 else p.re)
        (if reals.less p.im (real_ℕ 0) then real_ℕ 0 else p.im)

  abbrev hpr_pixel : R → Options R → Complex R → Complex R → Complex R → Complex R
  hpr_pixel beta opts o s i =
      let reflected =
        reals.less (num.cabs (pix.csub (pix.cscale o (real_ℕ 2)) i))
          (num.cabs (pix.cscale o (real_ℕ 1 ⊖ beta))) in
      let moved = hio_outside beta o i in
      if is_outside s || reflected
      then (if is_on opts.enforce_real then cinit moved.re (real_ℕ 0) else moved)
      else o

  abbrev pub cut_pixel : Complex R → Complex R → Complex R
  cut_pixel o s = if is_outside s then cinit (real_ℕ 0) (real_ℕ 0) else o

  abbrev pub remove_central_phase : ℤ → List (Complex R) → Outcome (List (Complex R))
  remove_central_phase flag [] = if is_on flag then undefined else ok []
  remove_central_phase flag (f ∷ fs) =
      ok (if is_on flag then cinit (num.cabs f) (real_ℕ 0) ∷ fs else f ∷ fs)

  module _ {D : Type 0} ⦃lib : SpLibrary R D⦄ ⦃blurs : SupportLibrary R D⦄ where
    -- The amplitudes from the measurement, then back, and normalized.
    abbrev pub back_transformed : Image R D → Image R D → Image R D
    back_transformed real_in pattern =
        let out = lib.image_ifft pattern in
        with_pixels out (normalized (image_size real_in) out.pixels)

    unfoldable pub phase_smoothening_iteration : Image R D → Options R → Outcome (Image R D)
    unfolding update overwrite
    phase_smoothening_iteration real_in opts = do
      let out = blurs.duplicate_data real_in
      radius ← get_phases_blur_radius opts
      let phases = map (λ p. cinit (p.re ⊘ num.cabs p) (p.im ⊘ num.cabs p)) out.pixels
      let tmp = blurs.gaussian_blur (with_pixels out phases) radius
      scaled ← update (λ p q. cinit (p.re ⊗ num.cabs q) (p.im ⊗ num.cabs q)) tmp.pixels out.pixels
      smooth ← overwrite real_in.pixels scaled
      ok (with_pixels real_in smooth)

    module _ ⦃alg : AlgorithmLibrary R D⦄ where
      -- The pattern: the duplicate of the amplitudes with the phases of the transform.
      abbrev pub pattern_of :
          (Complex R → ℤ → Complex R → Complex R → Complex R)
          → Image R D
          → Image R D
          → Outcome (Image R D)
      pattern_of g exp_amp fft = do
        let pattern = alg.zero_phase (blurs.duplicate_masked exp_amp)
        ps ← project g exp_amp.pixels exp_amp.mask fft.pixels pattern.pixels
        ok (with_pixels pattern ps)

      module _ {L : Type 0} ⦃logs : LogLibrary R D L⦄ where
        unfoldable pub basic_hio_iteration :
            Image R D → Image R D → Image R D → Options R → L → Outcome (Image R D × L)
        unfolding update project treat_outside get_beta
        basic_hio_iteration exp_amp real_in support opts log = do
          beta ← get_beta opts
          let fft_out = lib.image_fft real_in
          pattern ← pattern_of hio_pixel exp_amp fft_out
          let out = back_transformed real_in pattern
          ps ← treat_outside is_outside (hio_outside beta) out.pixels support.pixels real_in.pixels
          finish_iteration clamped_pixel exp_amp real_in fft_out support opts log
              (with_pixels out ps)

        unfoldable pub basic_hio_proj_iteration :
            Image R D → Image R D → Image R D → Image R D → Options R → L → Outcome (Image R D × L)
        unfolding update treat_outside normalize_finite get_beta
        basic_hio_proj_iteration exp_amp int_std_dev real_in support opts log = do
          beta ← get_beta opts
          let fft_in = lib.image_fft real_in
          let out = lib.image_ifft (alg.proj_module_histogram fft_in exp_amp int_std_dev)
          os ← normalize_finite (image_size real_in) out.pixels
          ps ← treat_outside is_outside (hio_outside beta) os support.pixels real_in.pixels
          finish_iteration absolute_pixel exp_amp real_in fft_in support opts log
              (with_pixels out ps)

        unfoldable pub serial_raar_iteration :
            Image R D → Image R D → Image R D → Options R → L → Outcome (Image R D × L)
        unfolding update project_in_place treat_outside get_beta
        serial_raar_iteration exp_amp real_in support opts log = do
          beta ← get_beta opts
          let fft_out = lib.image_fft real_in
          let fft_in = blurs.duplicate_masked fft_out
          fs ← project_in_place raar_pixel exp_amp.pixels exp_amp.mask fft_out.pixels
          fs1 ← remove_central_phase opts.remove_central_pixel_phase fs
          let out = back_transformed real_in (with_pixels fft_out fs1)
          ps ← treat_outside is_dark (raar_outside beta) out.pixels support.pixels real_in.pixels
          finish_iteration absolute_pixel exp_amp real_in fft_in support opts log
              (with_pixels out ps)

        unfoldable pub basic_raar_proj_iteration :
            Image R D → Image R D → Image R D → Image R D → Options R → L → Outcome (Image R D × L)
        unfolding update treat_outside normalize_finite get_beta
        basic_raar_proj_iteration exp_amp int_std_dev real_in support opts log = do
          beta ← get_beta opts
          let fft_in = lib.image_fft real_in
          let out = lib.image_ifft (alg.proj_module_histogram fft_in exp_amp int_std_dev)
          os ← normalize_finite (image_size real_in) out.pixels
          ps ← treat_outside is_dark (raar_outside beta) os support.pixels real_in.pixels
          finish_iteration absolute_pixel exp_amp real_in fft_in support opts log
              (with_pixels out ps)

        unfoldable pub basic_error_reduction_iteration :
            Image R D → Image R D → Image R D → Options R → L → Outcome (Image R D × L)
        unfolding update project
        basic_error_reduction_iteration exp_amp real_in support opts log = do
          let fft_out = lib.image_fft real_in
          pattern ← pattern_of pattern_pixel exp_amp fft_out
          let out = back_transformed real_in pattern
          ps ← update cut_pixel out.pixels support.pixels
          finish_iteration absolute_pixel exp_amp real_in fft_out support opts log
              (with_pixels out ps)

        unfoldable pub basic_hpr_iteration :
            Image R D → Image R D → Image R D → Options R → L → Outcome (Image R D × L)
        unfolding update update2 project get_beta
        basic_hpr_iteration exp_amp real_in support opts log = do
          beta ← get_beta opts
          let fft_out = lib.image_fft real_in
          pattern ← pattern_of pattern_pixel exp_amp fft_out
          let out = back_transformed real_in pattern
          ps ← update2 (hpr_pixel beta opts) out.pixels support.pixels real_in.pixels
          finish_iteration absolute_pixel exp_amp real_in fft_out support opts log
              (with_pixels out ps)
