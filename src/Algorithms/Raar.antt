-- ===== src/Algorithms/Raar.antt =====
-- src/algorithms.c, `basic_raar_iteration`: its static variables and its iteration.
-- `exp_sigma` may be NULL. With `perturb_weak_reflections` the code copies the fields of the struct
-- `exp_amp->image` and what lies behind it, where it means to copy the pixels: this is `undefined`, so
-- the static `weak_reflections` stays NULL.
use hawk.Prelude.{
  List, [], ◌∷◌, Bool, true, false, if◌then◌else◌, ℤ, Option, none, some, Outcome, ok, undefined,
  ◌>>=◌, get_elem?, drop, map_ok,
}
use hawk.SpImage.{Complex, cinit, Image, Numbers, SpLibrary}
use hawk.Reals.{Reals, is_true, ◌⊕◌, ◌⊖◌}
use hawk.Options.{Options}
use hawk.Configuration.{get_beta}
use hawk.Support.{SupportLibrary}
use package.hawk.Algorithms.{
  PixelLibrary, LogLibrary, is_on, update, with_pixels, is_dark, treat_outside, absolute_pixel,
  finish_iteration,
}
use package.hawk.Algorithms.Iterations.{
  measured_pixel, raar_outside, remove_central_phase, back_transformed,
}

-- The static images, NULL before the first call.
pub record RaarState (R D : Type 0) : Type 0 where
  pub exp_amp_minus_sigma : Option (Image R D)
  pub exp_amp_plus_sigma : Option (Image R D)

module _ {R : Type 0} ⦃num : Numbers R⦄ ⦃reals : Reals R⦄ ⦃pix : PixelLibrary R⦄ where
  -- An amplitude between the two bounds stays; one that is not comes to the nearer bound.
  abbrev pub bounded_pixel : Complex R → Complex R → Complex R → Complex R
  bounded_pixel low high f =
      if reals.less (num.cabs f) low.re
      then (if is_true f.re then measured_pixel low f else low)
      else if reals.less high.re (num.cabs f)
      then (if is_true f.re then measured_pixel high f else high)
      else f

  abbrev bounded_at :
      Bool
      → Option (Complex R)
      → Option (Complex R)
      → Option (Complex R)
      → Outcome (Option (Complex R))
  bounded_at false low high f = ok f
  bounded_at true (some low) (some high) (some f) = ok (some (bounded_pixel low high f))
  bounded_at true _ _ _ = undefined

  abbrev pub put_front : Option (Complex R) → List (Complex R) → List (Complex R)
  put_front none fs = fs
  put_front (some f) fs = f ∷ fs

  -- The loop over the amplitudes, which changes the transform at the pixels with a mask.
  unfoldable pub project_between :
      List (Complex R)
      → List ℤ
      → List (Complex R)
      → List (Complex R)
      → List (Complex R)
      → Outcome (List (Complex R))
  project_between [] mask low high fft = ok fft
  project_between (e ∷ es) [] low high fft = undefined
  project_between (e ∷ es) (m ∷ ms) low high fft =
      bounded_at (is_on m) (get_elem? low 0) (get_elem? high 0) (get_elem? fft 0) >>= λ f.
      map_ok (put_front f) (project_between es ms (drop 1 low) (drop 1 high) (drop 1 fft))

  module _ {D : Type 0} ⦃lib : SpLibrary R D⦄ ⦃blurs : SupportLibrary R D⦄ where
    abbrev shifted_amplitudes : (R → R → R) → Image R D → Option (Image R D) → Outcome (Image R D)
    shifted_amplitudes f exp_amp none = ok (blurs.duplicate_masked exp_amp)
    shifted_amplitudes f exp_amp (some exp_sigma) = do
      let amplitudes = blurs.duplicate_masked exp_amp
      ps ← update (λ p s. cinit (f p.re (pix.sqrt s.re)) p.im) amplitudes.pixels exp_sigma.pixels
      ok (with_pixels amplitudes ps)

    -- `if(!exp_amp_minus_sigma) ...`
    abbrev once : Option (Image R D) → Outcome (Image R D) → Outcome (Image R D)
    once (some a) first = ok a
    once none first = first

    module _ {L : Type 0} ⦃logs : LogLibrary R D L⦄ where
      unfoldable pub basic_raar_iteration :
          Image R D
          → Option (Image R D)
          → Image R D
          → Image R D
          → Options R
          → L
          → RaarState R D
          → Outcome (Image R D × L × RaarState R D)
      unfolding update project_between treat_outside get_beta
      basic_raar_iteration exp_amp exp_sigma real_in support opts log st = do
        beta ← get_beta opts
        let fft_out = lib.image_fft real_in
        let fft_in = blurs.duplicate_masked fft_out
        low ← once st.exp_amp_minus_sigma (shifted_amplitudes (λ a b. a ⊖ b) exp_amp exp_sigma)
        high ← once st.exp_amp_plus_sigma (shifted_amplitudes (λ a b. a ⊕ b) exp_amp exp_sigma)
        fs ←
            if is_true opts.perturb_weak_reflections
            then undefined
            else project_between exp_amp.pixels exp_amp.mask low.pixels high.pixels fft_out.pixels
        fs1 ← remove_central_phase opts.remove_central_pixel_phase fs
        let out = back_transformed real_in (with_pixels fft_out fs1)
        ps ← treat_outside is_dark (raar_outside beta) out.pixels support.pixels real_in.pixels
        (real_out, log') ←
            finish_iteration absolute_pixel exp_amp real_in fft_in support opts log
              (with_pixels out ps)
        ok (
          real_out,
          log',
          record { exp_amp_minus_sigma = some low; exp_amp_plus_sigma = some high },
        )
