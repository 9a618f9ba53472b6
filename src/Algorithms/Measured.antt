-- ===== src/Algorithms/Measured.antt =====
-- src/algorithms.c: the amplitudes that an iteration gives to the transform, and the formula of the
-- hybrid input-output algorithm, in arithmetic without rounding.
use hawk.Prelude.{
  ◌≡◌, refl, ap, ◌∙◌, List, [], ◌∷◌, Bool-cases, ◌⊎◌, inl, inr, true, false, ℤ, pos, length,
  if◌then◌else◌, All, arith,
}
use hawk.SpImage.{Complex, cinit, Numbers}
use hawk.Reals.{Reals, real_ℕ, is_true, ◌⊖◌, ◌⊗◌, ◌⊘◌}
use package.hawk.Algorithms.{PixelLibrary, is_on, is_outside}
use package.hawk.Algorithms.Iterations.{measured_pixel, hio_pixel, hio_outside}
use package.hawk.Algorithms.Pixels.{outside_pixel, zip4}
use package.hawk.Algorithms.Formula.{ByParts}

-- Absolute values and quotients without rounding.
pub record ExactAmplitudes {R : Type 0} (num : Numbers R) (reals : Reals R) (pix : PixelLibrary R)
    : Type 0 where
  pub cabs_nonneg : (f : Complex R) → reals.less (num.cabs f) (reals.of_int (pos 0)) ≡ false
  pub cabs_cscale :
      (f : Complex R) (r : R)
      → reals.less r (reals.of_int (pos 0)) ≡ false
      → num.cabs (pix.cscale f r) ≡ reals.times (num.cabs f) r
  pub over_nonneg :
      (a b : R)
      → reals.less a (reals.of_int (pos 0)) ≡ false
      → reals.less b (reals.of_int (pos 0)) ≡ false
      → reals.less (reals.over a b) (reals.of_int (pos 0)) ≡ false
  pub cabs_real :
      (r : R)
      → reals.less r (reals.of_int (pos 0)) ≡ false
      → num.cabs (cinit r (reals.of_int (pos 0))) ≡ r
  pub cabs_nonzero :
      (f : Complex R)
      → reals.equal f.re (reals.of_int (pos 0)) ≡ false
      → reals.equal (num.cabs f) (reals.of_int (pos 0)) ≡ false
  pub times_over :
      (a b : R) → reals.equal b (reals.of_int (pos 0)) ≡ false → reals.times b (reals.over a b) ≡ a

module _ {R : Type 0} ⦃num : Numbers R⦄ ⦃reals : Reals R⦄ where
  abbrev pub IsAmplitude : Complex R → Type 0
  IsAmplitude e = reals.less e.re (real_ℕ 0) ≡ false

  pub not_zero : (a : R) → is_true a ≡ true → reals.equal a (real_ℕ 0) ≡ false
  not_zero a h = ground arith

  -- The hybrid input-output algorithm: Pm inside the support, and I - beta * Pm outside, by parts.
  abbrev pub documented_hio : R → Complex R → Complex R → Complex R → Complex R
  documented_hio beta o s i =
      if is_true s.re then o else cinit (i.re ⊖ o.re ⊗ beta) (i.im ⊖ o.im ⊗ beta)

  module _ ⦃pix : PixelLibrary R⦄ where
    -- `q` has the amplitude `a`, and the phase of `f`.
    abbrev HasAmplitude : R → Complex R → Complex R → Type 0
    HasAmplitude a f q =
        (num.cabs q ≡ a) × (r : R) × (reals.less r (real_ℕ 0) ≡ false) × (q ≡ pix.cscale f r)

    -- A pixel of the pattern, from the measured amplitude `e`, the mask, the transform `f` and the
    -- amplitude with phase 0: without a mask it is that of the transform. With one it has the
    -- measured amplitude and the phase of the transform; where the transform is 0, it is `p`.
    abbrev IsMeasured : Complex R → ℤ → Complex R → Complex R → Complex R → Type 0
    IsMeasured e m f p q =
        ((is_on m ≡ false) × (q ≡ f))
        ⊎ (((is_on m ≡ true) × (is_true (num.cabs f) ≡ false) × (q ≡ p))
            ⊎ ((is_on m ≡ true) × (is_true (num.cabs f) ≡ true) × HasAmplitude e.re f q))

    -- The same at all pixels of images of one size.
    abbrev pub AllMeasured :
        List (Complex R) → List ℤ → List (Complex R) → List (Complex R) → List (Complex R) → Type 0
    AllMeasured [] [] [] [] [] = Unit
    AllMeasured (e ∷ es) (m ∷ ms) (f ∷ fs) (p ∷ ps) (q ∷ qs) =
        IsMeasured e m f p q × AllMeasured es ms fs ps qs
    AllMeasured _ _ _ _ _ = ⊥

    module _ (amplitudes : ExactAmplitudes num reals pix) where
      pub measured_pixel-HasAmplitude :
          (e f : Complex R)
          → IsAmplitude e
          → is_true (num.cabs f) ≡ true
          → HasAmplitude e.re f (measured_pixel e f)
      measured_pixel-HasAmplitude e f nonneg bright =
          let r = e.re ⊘ num.cabs f in
          let h = amplitudes.over_nonneg e.re (num.cabs f) nonneg (amplitudes.cabs_nonneg f) in
          (
            amplitudes.cabs_cscale f r h
                ∙ amplitudes.times_over e.re (num.cabs f) (not_zero (num.cabs f) bright),
            r,
            h,
            refl,
          )

      hio_pixel-IsMeasured :
          (e : Complex R) (m : ℤ) (f p : Complex R)
          → IsAmplitude e
          → IsMeasured e m f p (hio_pixel e m f p)
      hio_pixel-IsMeasured e m f p nonneg = elim (Bool-cases (is_on m)) [
        | inr off ↦ rw off (inl (refl, refl))
        | inl on ↦ elim (Bool-cases (is_true (num.cabs f))) [
          | inr dark ↦ rw (on, dark) (inr (inl (refl, refl, refl)))
          | inl bright ↦
              rw (on, bright)
                (inr (inr (refl, refl, measured_pixel-HasAmplitude e f nonneg bright)))
        ]
      ]

      pub hio_pixel-AllMeasured :
          (es : List (Complex R)) (ms : List ℤ) (fs ps : List (Complex R))
          → All IsAmplitude es
          → length ms ≡ length es
          → length fs ≡ length es
          → length ps ≡ length es
          → AllMeasured es ms fs ps (zip4 hio_pixel es ms fs ps)
      hio_pixel-AllMeasured [] [] [] [] a hm hf hp = tt
      hio_pixel-AllMeasured [] (m ∷ ms) fs ps a hm hf hp = ground arith
      hio_pixel-AllMeasured [] [] (f ∷ fs) ps a hm hf hp = ground arith
      hio_pixel-AllMeasured [] [] [] (p ∷ ps) a hm hf hp = ground arith
      hio_pixel-AllMeasured (e ∷ es) [] fs ps a hm hf hp = ground arith
      hio_pixel-AllMeasured (e ∷ es) (m ∷ ms) [] ps a hm hf hp = ground arith
      hio_pixel-AllMeasured (e ∷ es) (m ∷ ms) (f ∷ fs) [] a hm hf hp = ground arith
      hio_pixel-AllMeasured (e ∷ es) (m ∷ ms) (f ∷ fs) (p ∷ ps) (a, as') hm hf hp = (
        hio_pixel-IsMeasured e m f p a,
        hio_pixel-AllMeasured es ms fs ps as' (omega (arith, hm)) (omega (arith, hf))
            (omega (arith, hp)),
      )

    pub documented_hio-code :
        (parts : ByParts num reals pix) (beta : R) (o s i : Complex R)
        → outside_pixel is_outside (hio_outside beta) o s i ≡ documented_hio beta o s i
    documented_hio-code parts beta o s i = elim (Bool-cases (is_true s.re)) [
      | inl inside ↦ rw inside refl
      | inr outside ↦ rw outside (
          ap (pix.csub i) (parts.cscale_parts o beta)
          ∙ parts.csub_parts i (cinit (o.re ⊗ beta) (o.im ⊗ beta)))
    ]
