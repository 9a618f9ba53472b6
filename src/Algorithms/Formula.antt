-- ===== src/Algorithms/Formula.antt =====
-- src/algorithms.c: the formula in the comments of the iterations of RAAR, and the
-- formula of their code, in arithmetic without rounding.
use hawk.Prelude.{
  ℕ, ◌≡◌, ◌≢◌, refl, sym, ap, ◌∙◌, List, [], ◌∷◌, Bool, true, false, Bool-cases, inl, inr,
  if◌then◌else◌, ℤ, pos, ok, length,
}
use hawk.SpImage.{Complex, cinit, Numbers}
use hawk.Reals.{Reals, real_ℕ, ◌⊕◌, ◌⊖◌, ◌⊗◌}
use package.hawk.Algorithms.{PixelLibrary, is_on, is_dark, normalized, normalize_finite}
use package.hawk.Algorithms.Iterations.{raar_outside, remove_central_phase}
use package.hawk.Algorithms.Pixels.{outside_pixel}

module _ {R : Type 0} ⦃num : Numbers R⦄ ⦃reals : Reals R⦄ where
  -- the first pixel without its phase, where the option is set
  abbrev pub central : ℤ → List (Complex R) → List (Complex R)
  central flag [] = []
  central flag (f ∷ fs) = if is_on flag then cinit (num.cabs f) (real_ℕ 0) ∷ fs else f ∷ fs

  module _ ⦃pix : PixelLibrary R⦄ where
    -- Ps of the comment: the image inside the support, and 0 outside.
    abbrev pub inside_support : Complex R → Complex R → Complex R
    inside_support s o = if is_dark s then cinit (real_ℕ 0) (real_ℕ 0) else o

    -- `2*beta*Ps*Pm+(1-2*beta)*Pm - beta * (Ps-I)` of the comment, from the pixel of Pm, the support
    -- and the pixel before.
    abbrev formula : R → Complex R → Complex R → Complex R → Complex R → Complex R
    formula beta ps_pm ps pm i =
        pix.csub
          (num.cadd (pix.cscale ps_pm (real_ℕ 2 ⊗ beta))
            (pix.cscale pm (real_ℕ 1 ⊖ real_ℕ 2 ⊗ beta)))
          (pix.cscale (pix.csub ps i) beta)

    abbrev pub documented_raar : R → Complex R → Complex R → Complex R → Complex R
    documented_raar beta o s i = formula beta (inside_support s o) (inside_support s i) o i

    pub remove_central_phase-central :
        (flag : ℤ) (fs : List (Complex R))
        → length fs ≢ 0
        → remove_central_phase flag fs ≡ ok (central flag fs)
    remove_central_phase-central flag [] h = absurd (h refl)
    remove_central_phase-central flag (f ∷ fs) h = refl

  pub length-central : (flag : ℤ) (fs : List (Complex R)) → length (central flag fs) ≡ length fs
  length-central flag [] = refl
  length-central flag (f ∷ fs) = elim (Bool-cases (is_on flag)) [
    | inl set ↦ rw set refl
    | inr unset ↦ rw unset refl
  ]

-- Arithmetic on numbers without rounding.
pub record ExactArithmetic {R : Type 0} (reals : Reals R) : Type 0 where
  pub all_finite : (a : R) → reals.isfinite a ≡ true
  pub times_plus :
      (a b c : R) → reals.plus (reals.times a b) (reals.times a c) ≡ reals.times a (reals.plus b c)
  pub plus_minus : (a b : R) → reals.plus a (reals.minus b a) ≡ b
  pub times_one : (a : R) → reals.times a (reals.of_int (pos 1)) ≡ a
  pub zero_times : (a : R) → reals.times (reals.of_int (pos 0)) a ≡ reals.of_int (pos 0)
  pub zero_plus : (a : R) → reals.plus (reals.of_int (pos 0)) a ≡ a
  pub minus_self : (a : R) → reals.minus a a ≡ reals.of_int (pos 0)
  pub minus_zero : (a : R) → reals.minus a (reals.of_int (pos 0)) ≡ a
  pub opposite_times :
      (a b : R)
      → reals.times (reals.minus (reals.of_int (pos 0)) a) b
        ≡ reals.minus (reals.of_int (pos 0)) (reals.times a b)
  pub minus_opposite :
      (a b : R) → reals.minus a (reals.minus (reals.of_int (pos 0)) b) ≡ reals.plus a b

-- The functions of libspimage on complex numbers, by their parts.
pub record ByParts {R : Type 0} (num : Numbers R) (reals : Reals R) (pix : PixelLibrary R)
    : Type 0 where
  pub cadd_parts :
      (a b : Complex R) → num.cadd a b ≡ cinit (reals.plus a.re b.re) (reals.plus a.im b.im)
  pub csub_parts :
      (a b : Complex R) → pix.csub a b ≡ cinit (reals.minus a.re b.re) (reals.minus a.im b.im)
  pub cscale_parts :
      (a : Complex R) (r : R) → pix.cscale a r ≡ cinit (reals.times a.re r) (reals.times a.im r)

module _ {R : Type 0} ⦃reals : Reals R⦄ (exact : ExactArithmetic reals) where
  inside-part : (o i b beta : R) → (o ⊗ b ⊕ o ⊗ (real_ℕ 1 ⊖ b)) ⊖ (i ⊖ i) ⊗ beta ≡ o
  inside-part o i b beta =
      rw
        (
          exact.times_plus o b (real_ℕ 1 ⊖ b),
          exact.plus_minus b (real_ℕ 1),
          exact.times_one o,
          exact.minus_self i,
          exact.zero_times beta,
          exact.minus_zero o,
        )
        refl

  outside-part :
      (o i b c beta : R) → (real_ℕ 0 ⊗ b ⊕ o ⊗ c) ⊖ (real_ℕ 0 ⊖ i) ⊗ beta ≡ o ⊗ c ⊕ i ⊗ beta
  outside-part o i b c beta =
      rw
        (
          exact.zero_times b,
          exact.zero_plus (o ⊗ c),
          exact.opposite_times i beta,
          exact.minus_opposite (o ⊗ c) (i ⊗ beta),
        )
        refl

module _ {R : Type 0} ⦃num : Numbers R⦄ ⦃reals : Reals R⦄ ⦃pix : PixelLibrary R⦄
    (exact : ExactArithmetic reals) (parts : ByParts num reals pix) where
  formula_parts :
      (beta : R) (ps_pm ps pm i : Complex R)
      → formula beta ps_pm ps pm i
        ≡ cinit
            ((ps_pm.re ⊗ (real_ℕ 2 ⊗ beta) ⊕ pm.re ⊗ (real_ℕ 1 ⊖ real_ℕ 2 ⊗ beta))
              ⊖ (ps.re ⊖ i.re) ⊗ beta)
            ((ps_pm.im ⊗ (real_ℕ 2 ⊗ beta) ⊕ pm.im ⊗ (real_ℕ 1 ⊖ real_ℕ 2 ⊗ beta))
              ⊖ (ps.im ⊖ i.im) ⊗ beta)
  formula_parts beta ps_pm ps pm i =
      let b = real_ℕ 2 ⊗ beta in
      rw
        (
          parts.cscale_parts ps_pm b,
          parts.cscale_parts pm (real_ℕ 1 ⊖ b),
          parts.csub_parts ps i,
          parts.cadd_parts _ _,
          parts.cscale_parts _ beta,
          parts.csub_parts _ _,
          formula,
        )
        refl

  inside_support-pick :
      (b : Bool) (s p : Complex R)
      → is_dark s ≡ b
      → inside_support s p ≡ (if b then cinit (real_ℕ 0) (real_ℕ 0) else p)
  inside_support-pick b s p h = ap (λ t. if t then cinit (real_ℕ 0) (real_ℕ 0) else p) h

  -- Inside the support, the formula is Pm.
  pub documented_raar-inside :
      (beta : R) (o s i : Complex R) → is_dark s ≡ false → documented_raar beta o s i ≡ o
  documented_raar-inside beta o s i h =
      let b = real_ℕ 2 ⊗ beta in
      (λ j.
        formula beta (inside_support-pick false s o h j) (inside_support-pick false s i h j) o i)
      ∙ (formula_parts beta o i o i ∙ (λ j.
          cinit (inside-part exact o.re i.re b beta j) (inside-part exact o.im i.im b beta j)))

  raar_outside_parts :
      (beta : R) (o i : Complex R)
      → raar_outside beta o i
        ≡ cinit
            (o.re ⊗ (real_ℕ 1 ⊖ real_ℕ 2 ⊗ beta) ⊕ i.re ⊗ beta)
            (o.im ⊗ (real_ℕ 1 ⊖ real_ℕ 2 ⊗ beta) ⊕ i.im ⊗ beta)
  raar_outside_parts beta o i =
      rw
        (
          parts.cscale_parts o (real_ℕ 1 ⊖ real_ℕ 2 ⊗ beta),
          parts.cscale_parts i beta,
          parts.cadd_parts _ _,
          raar_outside,
        )
        refl

  -- Outside, it is the formula of the code.
  pub documented_raar-outside :
      (beta : R) (o s i : Complex R)
      → is_dark s ≡ true
      → documented_raar beta o s i ≡ raar_outside beta o i
  documented_raar-outside beta o s i h =
      let b = real_ℕ 2 ⊗ beta in
      let zero = cinit (real_ℕ 0) (real_ℕ 0) in
      (λ j. formula beta (inside_support-pick true s o h j) (inside_support-pick true s i h j) o i)
      ∙ (formula_parts beta zero zero o i
          ∙ ((λ j.
                cinit (outside-part exact o.re i.re b (real_ℕ 1 ⊖ b) beta j)
                  (outside-part exact o.im i.im b (real_ℕ 1 ⊖ b) beta j))
              ∙ sym (raar_outside_parts beta o i)))

  pub documented_raar-code :
      (beta : R) (o s i : Complex R)
      → outside_pixel is_dark (raar_outside beta) o s i ≡ documented_raar beta o s i
  documented_raar-code beta o s i = elim (Bool-cases (is_dark s)) [
    | inl dark ↦
        ap (λ t. if t then raar_outside beta o i else o) dark
        ∙ sym (documented_raar-outside beta o s i dark)
    | inr bright ↦
        ap (λ t. if t then raar_outside beta o i else o) bright
        ∙ sym (documented_raar-inside beta o s i bright)
  ]

  -- All numbers are finite, so no assertion fails.
  pub normalize_finite-all :
      (size : ℕ) (ps : List (Complex R)) → normalize_finite size ps ≡ ok (normalized size ps)
  unfolding normalize_finite
  normalize_finite-all size [] = refl
  normalize_finite-all size (p ∷ ps) =
      rw (exact.all_finite p.re, exact.all_finite p.im, normalize_finite-all size ps) refl
