-- ===== src/Algorithms/DifferenceMap.antt =====
-- src/algorithms.c: the difference map and its two constraint maps.
use hawk.Prelude.{List, [], ◌∷◌, if◌then◌else◌, ℕ, Outcome, ok, undefined, ◌>>=◌}
use hawk.SpImage.{Complex, cinit, Image, image_size, Numbers, SpLibrary}
use hawk.Reals.{Reals, real_ℕ, is_true, ◌⊕◌, ◌⊖◌, ◌⊗◌, ◌⊘◌}
use hawk.Options.{Options}
use hawk.Configuration.{get_beta, get_gamma1, get_gamma2}
use hawk.Support.{SupportLibrary}
use package.hawk.Algorithms.{
  PixelLibrary, AlgorithmLibrary, LogLibrary, update, with_pixels, absolute_pixel, finish_iteration,
  cons_ok,
}

module _ {R : Type 0} ⦃num : Numbers R⦄ ⦃reals : Reals R⦄ where
  abbrev pub f1_pixel : R → Complex R → Complex R → Complex R
  f1_pixel gamma1 p s =
      if is_true s.re then p else cinit (reals.negate gamma1 ⊗ p.re) (reals.negate gamma1 ⊗ p.im)

  abbrev pub f2_pixel : R → Complex R → Complex R → Complex R
  f2_pixel gamma2 t f =
      cinit ((real_ℕ 1 ⊕ gamma2) ⊗ t.re ⊖ gamma2 ⊗ f.re)
        ((real_ℕ 1 ⊕ gamma2) ⊗ t.im ⊖ gamma2 ⊗ f.im)

  -- the part of the map inside the support, on one coordinate
  abbrev inward : R → R → ℕ → R → R → R → R
  inward beta gamma2 size out rho before =
      out ⊕ beta ⊗ ((real_ℕ 1 ⊕ gamma2) ⊗ rho ⊘ real_ℕ size ⊖ gamma2 ⊗ before)

  abbrev pub map_pixel :
      R → R → ℕ → Complex R → Complex R → Complex R → Complex R → Complex R → Complex R
  map_pixel beta gamma2 size out s rho f1 before =
      let p =
        if is_true s.re
        then cinit (inward beta gamma2 size out.re rho.re before.re)
            (inward beta gamma2 size out.im rho.im before.im)
        else out in
      cinit (p.re ⊖ beta ⊗ f1.re ⊘ real_ℕ size) (p.im ⊖ beta ⊗ f1.im ⊘ real_ℕ size)

  -- The loop over the image; the transforms have its size.
  unfoldable pub map_pixels :
      R
      → R
      → ℕ
      → List (Complex R)
      → List (Complex R)
      → List (Complex R)
      → List (Complex R)
      → List (Complex R)
      → Outcome (List (Complex R))
  map_pixels beta gamma2 size outs support rhos f1s [] = ok outs
  map_pixels beta gamma2 size (o ∷ outs) (s ∷ support) (r ∷ rhos) (f ∷ f1s) (b ∷ before) =
      cons_ok (map_pixel beta gamma2 size o s r f b)
        (map_pixels beta gamma2 size outs support rhos f1s before)
  map_pixels beta gamma2 size _ _ _ _ _ = undefined

  module _ {D : Type 0} ⦃lib : SpLibrary R D⦄ ⦃blurs : SupportLibrary R D⦄ where
    unfoldable pub serial_difference_map_f1 : Image R D → Image R D → R → Outcome (Image R D)
    unfolding update
    serial_difference_map_f1 real_in support gamma1 = do
      let out = blurs.duplicate_masked real_in
      ps ← update (f1_pixel gamma1) out.pixels support.pixels
      ok (with_pixels out ps)

    module _ ⦃alg : AlgorithmLibrary R D⦄ where
      unfoldable pub serial_difference_map_f2 : Image R D → Image R D → R → Outcome (Image R D)
      unfolding update
      serial_difference_map_f2 exp_amp fft_in gamma2 = do
        let tmp2 = alg.proj_module fft_in exp_amp
        ps ← update (f2_pixel gamma2) tmp2.pixels fft_in.pixels
        let real_out = lib.image_ifft (with_pixels tmp2 ps)
        ok (lib.image_scale real_out (real_ℕ 1 ⊘ real_ℕ (image_size real_out)))

      module _ {L : Type 0} ⦃pix : PixelLibrary R⦄ ⦃logs : LogLibrary R D L⦄ where
        unfoldable pub serial_difference_map_iteration :
            Image R D → Image R D → Image R D → Options R → L → Outcome (Image R D × L)
        unfolding serial_difference_map_f1 map_pixels update get_beta get_gamma1 get_gamma2
        serial_difference_map_iteration exp_amp real_in support opts log = do
          beta ← get_beta opts
          gamma1 ← get_gamma1 opts
          gamma2 ← get_gamma2 opts
          let real_out = blurs.duplicate_masked real_in
          let fft_in = lib.image_fft real_in
          f1 ← serial_difference_map_f1 real_in support gamma1
          let pi2_f1 = lib.image_ifft (alg.proj_module (lib.image_fft f1) exp_amp)
          let pi2_rho = lib.image_ifft (alg.proj_module fft_in exp_amp)
          ps ←
              map_pixels beta gamma2 (image_size real_in) real_out.pixels support.pixels
                pi2_rho.pixels pi2_f1.pixels real_in.pixels
          finish_iteration absolute_pixel exp_amp real_in fft_in support opts log
              (with_pixels real_out ps)
