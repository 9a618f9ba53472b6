-- ===== src/Algorithms/Bounded.antt =====
-- src/algorithms.c, `basic_raar_iteration`: the amplitudes of the transform, brought between two images.
use hawk.Prelude.{
  ◌≡◌, refl, ap, ◌∙◌, List, [], ◌∷◌, true, false, not, All, ◌⊎◌, Bool-cases, inl, inr,
  if◌then◌else◌, ℤ, some, ok, map_ok, length, arith,
}
use hawk.SpImage.{Complex, cinit, Numbers}
use hawk.Reals.{Reals, real_ℕ, is_true}
use package.hawk.Algorithms.{PixelLibrary, is_on}
use package.hawk.Algorithms.Iterations.{measured_pixel}
use package.hawk.Algorithms.Raar.{bounded_pixel, put_front, project_between}
use package.hawk.Algorithms.Pixels.{zip2, zip3}
use package.hawk.Algorithms.Measured.{ExactAmplitudes, measured_pixel-HasAmplitude, not_zero}

module _ {R : Type 0} ⦃num : Numbers R⦄ ⦃reals : Reals R⦄ ⦃pix : PixelLibrary R⦄ where
  -- a pixel of the transform, from its mask and its two bounds
  abbrev pub between : ℤ → Complex R → Complex R × Complex R → Complex R
  between m f (low, high) = if is_on m then bounded_pixel low high f else f

  abbrev pub bounded_pixels :
      List ℤ → List (Complex R) → List (Complex R) → List (Complex R) → List (Complex R)
  bounded_pixels ms fs low high = zip3 between ms fs (zip2 (λ l h. (l, h)) low high)

  pub project_between-IsBounded :
      (es : List (Complex R)) (ms : List ℤ) (low high fs : List (Complex R))
      → length ms ≡ length es
      → length low ≡ length es
      → length high ≡ length es
      → length fs ≡ length es
      → project_between es ms low high fs ≡ ok (bounded_pixels ms fs low high)
  unfolding project_between
  project_between-IsBounded [] [] low high [] hm hl hh hf = refl
  project_between-IsBounded [] [] low high (f ∷ fs) hm hl hh hf = ground arith
  project_between-IsBounded [] (m ∷ ms) low high fs hm hl hh hf = ground arith
  project_between-IsBounded (e ∷ es) [] low high fs hm hl hh hf = ground arith
  project_between-IsBounded (e ∷ es) (m ∷ ms) [] high fs hm hl hh hf = ground arith
  project_between-IsBounded (e ∷ es) (m ∷ ms) (l ∷ low) [] fs hm hl hh hf = ground arith
  project_between-IsBounded (e ∷ es) (m ∷ ms) (l ∷ low) (h ∷ high) [] hm hl hh hf = ground arith
  project_between-IsBounded (e ∷ es) (m ∷ ms) (l ∷ low) (h ∷ high) (f ∷ fs) hm hl hh hf =
      let rest =
        project_between-IsBounded es ms low high fs (omega (arith, hm)) (omega (arith, hl))
          (omega (arith, hh)) (omega (arith, hf)) in
      elim (Bool-cases (is_on m)) [
        | inl masked ↦ rw masked (ap (map_ok (put_front (some (bounded_pixel l h f)))) rest)
        | inr unmasked ↦ rw unmasked (ap (map_ok (put_front (some f))) rest)
      ]

  -- An amplitude that is not negative, and the phase 0.
  abbrev pub IsBound : Complex R → Type 0
  IsBound e = (reals.less e.re (real_ℕ 0) ≡ false) × (e.im ≡ real_ℕ 0)

  -- The pixel `q` that an amplitude below the lower bound, or else above the upper one, is brought to
  -- that bound, and that any other pixel is as before.
  abbrev IsBounded : Complex R → Complex R → Complex R → Complex R → Type 0
  IsBounded l h f q =
      ((reals.less (num.cabs f) l.re ≡ true) × (num.cabs q ≡ l.re))
      ⊎ (((reals.less (num.cabs f) l.re ≡ false)
            × (reals.less h.re (num.cabs f) ≡ true)
            × (num.cabs q ≡ h.re))
          ⊎ ((reals.less (num.cabs f) l.re ≡ false)
              × (reals.less h.re (num.cabs f) ≡ false)
              × (q ≡ f)))

  -- The same where there is a mask, and elsewhere as before, at all pixels of lists of one length.
  abbrev pub AllBounded :
      List ℤ → List (Complex R) → List (Complex R) → List (Complex R) → List (Complex R) → Type 0
  AllBounded [] [] [] [] [] = Unit
  AllBounded (m ∷ ms) (l ∷ low) (h ∷ high) (f ∷ fs) (q ∷ qs) =
      (((is_on m ≡ false) × (q ≡ f)) ⊎ ((is_on m ≡ true) × IsBounded l h f q))
      × AllBounded ms low high fs qs
  AllBounded _ _ _ _ _ = ⊥

  module _ (amplitudes : ExactAmplitudes num reals pix) where
    cabs_at_bound :
        (l f : Complex R)
        → IsBound l
        → num.cabs (if is_true f.re then measured_pixel l f else l) ≡ l.re
    cabs_at_bound l f (nonneg, flat) = elim (Bool-cases (is_true f.re)) [
      | inl t ↦
          rw t
            (measured_pixel-HasAmplitude amplitudes l f nonneg
              (ap not (amplitudes.cabs_nonzero f (not_zero f.re t)))).0
      | inr t ↦ rw t (ap (λ y. num.cabs (cinit l.re y)) flat ∙ amplitudes.cabs_real l.re nonneg)
    ]

    bounded_pixel-IsBounded :
        (l h f : Complex R) → IsBound l → IsBound h → IsBounded l h f (bounded_pixel l h f)
    bounded_pixel-IsBounded l h f bl bh = elim (Bool-cases (reals.less (num.cabs f) l.re)) [
      | inl below ↦ rw below (inl (refl, cabs_at_bound l f bl))
      | inr over ↦ elim (Bool-cases (reals.less h.re (num.cabs f))) [
        | inl above ↦ rw (over, above) (inr (inl (refl, refl, cabs_at_bound h f bh)))
        | inr under ↦ rw (over, under) (inr (inr (refl, refl, refl)))
      ]
    ]

    between-IsBounded :
        (m : ℤ) (l h f : Complex R)
        → IsBound l
        → IsBound h
        → ((is_on m ≡ false) × (between m f (l, h) ≡ f))
          ⊎ ((is_on m ≡ true) × IsBounded l h f (between m f (l, h)))
    between-IsBounded m l h f bl bh = elim (Bool-cases (is_on m)) [
      | inl on ↦ rw on (inr (refl, bounded_pixel-IsBounded l h f bl bh))
      | inr off ↦ rw off (inl (refl, refl))
    ]

    pub bounded_pixels-AllBounded :
        (ms : List ℤ) (low high fs : List (Complex R))
        → length low ≡ length ms
        → length high ≡ length ms
        → length fs ≡ length ms
        → All IsBound low
        → All IsBound high
        → AllBounded ms low high fs (bounded_pixels ms fs low high)
    bounded_pixels-AllBounded [] [] [] [] hl hh hf bl bh = tt
    bounded_pixels-AllBounded [] (l ∷ low) high fs hl hh hf bl bh = ground arith
    bounded_pixels-AllBounded [] [] (h ∷ high) fs hl hh hf bl bh = ground arith
    bounded_pixels-AllBounded [] [] [] (f ∷ fs) hl hh hf bl bh = ground arith
    bounded_pixels-AllBounded (m ∷ ms) [] high fs hl hh hf bl bh = ground arith
    bounded_pixels-AllBounded (m ∷ ms) (l ∷ low) [] fs hl hh hf bl bh = ground arith
    bounded_pixels-AllBounded (m ∷ ms) (l ∷ low) (h ∷ high) [] hl hh hf bl bh = ground arith
    bounded_pixels-AllBounded (m ∷ ms) (l ∷ low) (h ∷ high) (f ∷ fs) hl hh hf (bl, bls) (bh, bhs) =
        (
          between-IsBounded m l h f bl bh,
          bounded_pixels-AllBounded ms low high fs (omega (arith, hl)) (omega (arith, hh))
              (omega (arith, hf)) bls bhs,
        )
