-- ===== src/Algorithms/Flip.antt =====
-- src/algorithms.c: `basic_cflip_iteration` and `basic_espresso_iteration`.
-- With `perturb_weak_reflections` both sort an array of `real` with a comparison of two `Complex`,
-- which reads beyond its end: this is `undefined`, so the static `weak_reflections` stays NULL.
use hawk.Prelude.{List, map, ℕ, negsuc, if◌then◌else◌, Outcome, ok, undefined, ◌>>=◌}
use hawk.SpImage.{Complex, cinit, Image, image_size, Numbers, SpLibrary}
use hawk.Reals.{Reals, real_ℕ, is_true, ◌⊖◌, ◌⊗◌, ◌⊘◌}
use hawk.Options.{Options}
use hawk.Support.{SupportLibrary, brightest}
use package.hawk.Algorithms.{
  PixelLibrary, AlgorithmLibrary, LogLibrary, is_on, overwrite, update, update2, with_pixels,
  project, absolute_pixel, log_period, finish_iteration,
}
use package.hawk.Algorithms.Iterations.{pattern_pixel, pattern_of}

module _ {R : Type 0} ⦃num : Numbers R⦄ ⦃reals : Reals R⦄ ⦃pix : PixelLibrary R⦄ where
  abbrev pub normalized_pixel : Options R → ℕ → Complex R → Complex R
  normalized_pixel opts size p =
      if is_on opts.enforce_real
      then cinit (p.re ⊘ real_ℕ size) (real_ℕ 0)
      else pix.cscale p (real_ℕ 1 ⊘ real_ℕ size)

  -- the sign of a weak pixel changes
  abbrev pub flipped_pixel : R → Complex R → Complex R
  flipped_pixel bound p =
      if reals.less (num.cabs p) bound then pix.cscale p (reals.of_int (negsuc 0)) else p

  -- the two sets of Espresso, in the parts of a pixel of the support
  abbrev pub espresso_sets : R → Complex R → Complex R → Complex R
  espresso_sets bound o i =
      cinit (if reals.less bound (num.cabs (pix.csub o i)) then real_ℕ 1 else real_ℕ 0)
        (if reals.less (real_ℕ 0) o.re then real_ℕ 1 else real_ℕ 0)

  abbrev pub espresso_pixel : R → Complex R → Complex R → Complex R → Complex R
  espresso_pixel beta o s i =
      pix.csub (num.cadd (pix.cscale o (s.re ⊗ s.im)) (pix.cscale i (real_ℕ 1 ⊖ s.re)))
        (pix.cscale o beta)

  -- The pixels of the sets, for each pixel of the result.
  unfoldable pub sets_of : R → List (Complex R) → List (Complex R) → Outcome (List (Complex R))
  unfolding update
  sets_of bound outs before = update (espresso_sets bound) outs before

  module _ {D : Type 0} ⦃lib : SpLibrary R D⦄ ⦃blurs : SupportLibrary R D⦄ where
    module _ ⦃alg : AlgorithmLibrary R D⦄ where
      -- The measured amplitudes, transformed back and normalized.
      abbrev pub unflipped : Image R D → Image R D → Options R → Outcome (Image R D)
      unflipped exp_amp real_in opts = do
        let fft_out = lib.image_fft real_in
        pattern ←
            if is_true opts.perturb_weak_reflections
            then undefined
            else pattern_of pattern_pixel exp_amp fft_out
        let out = lib.image_ifft pattern
        ok (with_pixels out (map (normalized_pixel opts (image_size real_in)) out.pixels))

      module _ {L : Type 0} ⦃logs : LogLibrary R D L⦄ where
        unfoldable pub basic_cflip_iteration :
            Image R D → Image R D → Image R D → Options R → L → Outcome (Image R D × L)
        unfolding project brightest
        basic_cflip_iteration exp_amp real_in support opts log = do
          out ← unflipped exp_amp real_in opts
          let max = brightest (real_ℕ 0) out.pixels
          let flipped = map (flipped_pixel (opts.charge_flip_sigma ⊗ max)) out.pixels
          let ps = if is_on opts.enforce_positivity then map absolute_pixel flipped else flipped
          let real_out = with_pixels out ps
          log' ← log_period exp_amp real_in real_out (lib.image_fft real_in) support opts log
          ok (real_out, log')

        -- The support that the iteration leaves comes after the image.
        unfoldable pub basic_espresso_iteration :
            Image R D → Image R D → Image R D → Options R → L → Outcome (Image R D × Image R D × L)
        unfolding project brightest sets_of overwrite update update2
        basic_espresso_iteration exp_amp real_in support opts log = do
          out ← unflipped exp_amp real_in opts
          let max = brightest (real_ℕ 0) out.pixels
          sets ← sets_of (opts.espresso_tau ⊗ max) out.pixels real_in.pixels
          support_pixels ← overwrite support.pixels sets
          let new_support = with_pixels support support_pixels
          ps ← update2 (espresso_pixel opts.beta) out.pixels support_pixels real_in.pixels
          (real_out, log') ←
              finish_iteration absolute_pixel exp_amp real_in (lib.image_fft real_in) new_support
                opts log (with_pixels out ps)
          ok (real_out, new_support, log')
