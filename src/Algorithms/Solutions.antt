-- ===== src/Algorithms/Solutions.antt =====
-- src/algorithms.c: what an image is that `basic_hio_iteration` leaves as it is.
use hawk.Prelude.{
  ◌≡◌, ◌∙◌, ◌⊎◌, sym, ap, List, [], ◌∷◌, Bool-cases, inl, inr, true, false, pos, Outcome, ok,
  length, drop, if◌then◌else◌, All, arith,
}
use hawk.SpImage.{Complex, cinit, Image, Numbers, SpLibrary}
use hawk.Reals.{Reals, real_ℕ, is_true, ◌⊕◌, ◌⊖◌, ◌⊗◌, ◌⊘◌}
use hawk.Options.{Options}
use hawk.Configuration.{get_beta}
use hawk.Support.{SupportLibrary}
use package.hawk.Algorithms.{PixelLibrary, AlgorithmLibrary, LogLibrary, is_on}
use package.hawk.Algorithms.Iterations.{clamped_pixel, back_transformed, basic_hio_iteration}
use package.hawk.Algorithms.Pixels.{zip3, enforced}
use package.hawk.Algorithms.Pointwise.{HasRemainder, KeepsSizes, OneSize}
use package.hawk.Algorithms.Formula.{ExactArithmetic, ByParts}
use package.hawk.Algorithms.Elser.{ExactFractions}
use package.hawk.Algorithms.Measured.{
  ExactAmplitudes, IsAmplitude, AllMeasured, documented_hio, not_zero,
}
use package.hawk.Algorithms.Hybrid.{basic_hio_iteration-documented}

module _ {A : Type 0} where
  head_or : A → List A → A
  head_or d [] = d
  head_or d (x ∷ xs) = x

  result_or : A → Outcome A → A
  result_or d (ok a) = a
  result_or d m = d

  result-injective : {a b : A} → ok a ≡ ok b → a ≡ b
  unfolding result_or
  result-injective {a = a} e = ap (result_or a) e

  head-injective : {a b : A} {as' bs : List A} → a ∷ as' ≡ b ∷ bs → a ≡ b
  unfolding head_or
  head-injective {a = a} e = ap (head_or a) e

module _ {R : Type 0} ⦃num : Numbers R⦄ ⦃reals : Reals R⦄ where
  -- A pixel `o` of the projected image: inside the support it is the one before, outside it is 0.
  abbrev IsSolved : Complex R → Complex R → Complex R → Type 0
  IsSolved o s i =
      ((is_true s.re ≡ true) × (o ≡ i))
      ⊎ ((is_true s.re ≡ false) × (o ≡ cinit (real_ℕ 0) (real_ℕ 0)))

  -- The same at all pixels of images of one size.
  abbrev pub AllSolved : List (Complex R) → List (Complex R) → List (Complex R) → Type 0
  AllSolved [] [] [] = Unit
  AllSolved (o ∷ os) (s ∷ ss) (i ∷ is) = IsSolved o s i × AllSolved os ss is
  AllSolved _ _ _ = ⊥

  free_pixel :
      (f : Complex R → Complex R) (opts : Options R) (o s : Complex R)
      → opts.enforce_real ≡ pos 0
      → opts.enforce_positivity ≡ pos 0
      → enforced f opts o s ≡ o
  free_pixel f opts o s r p = λ j.
      let q = if is_on (r j) then (if is_true s.re then cinit o.re (real_ℕ 0) else o) else o in
      if is_on (p j) then (if is_true s.re then f q else q) else q

  module _ ⦃pix : PixelLibrary R⦄ (exact : ExactArithmetic reals) (fractions : ExactFractions reals)
      (amplitudes : ExactAmplitudes num reals pix) where
    -- What can be taken off a number without a change is 0.
    taken_off : (x i : R) → i ⊖ x ≡ i → x ≡ real_ℕ 0
    taken_off x i h =
        let whole : x ⊕ i ≡ i = ap (reals.plus x) (sym h) ∙ exact.plus_minus x i in
        sym (fractions.plus_zero x)
        ∙ ap (reals.plus x) (sym (exact.minus_self i))
        ∙ fractions.plus_minus_assoc x i i
        ∙ ap (λ t. t ⊖ i) whole
        ∙ exact.minus_self i

    zero_factor : (o beta : R) → is_true beta ≡ true → o ⊗ beta ≡ real_ℕ 0 → o ≡ real_ℕ 0
    zero_factor o beta nonzero h =
        sym (exact.times_one o)
        ∙ ap (reals.times o) (sym (amplitudes.times_over (real_ℕ 1) beta (not_zero beta nonzero)))
        ∙ sym (fractions.times_assoc o beta (real_ℕ 1 ⊘ beta))
        ∙ ap (λ t. t ⊗ (real_ℕ 1 ⊘ beta)) h
        ∙ exact.zero_times (real_ℕ 1 ⊘ beta)

    pixel-IsSolved :
        (beta : R) (o s i : Complex R)
        → is_true beta ≡ true
        → documented_hio beta o s i ≡ i
        → IsSolved o s i
    pixel-IsSolved beta o s i nonzero h = elim (Bool-cases (is_true s.re)) [
      | inl inside ↦ inl (
        inside,
        (λ j. if sym inside j then o else cinit (i.re ⊖ o.re ⊗ beta) (i.im ⊖ o.im ⊗ beta)) ∙ h,
      )
      | inr outside ↦
          let e =
            (λ j. if sym outside j then o else cinit (i.re ⊖ o.re ⊗ beta) (i.im ⊖ o.im ⊗ beta))
            ∙ h in
          let x = zero_factor o.re beta nonzero (taken_off (o.re ⊗ beta) i.re (λ j. (e j).re)) in
          let y = zero_factor o.im beta nonzero (taken_off (o.im ⊗ beta) i.im (λ j. (e j).im)) in
          inr (outside, (λ j. cinit (x j) (y j)))
    ]

    pixels-AllSolved :
        (beta : R) (h : Complex R → Complex R → Complex R → Complex R) (os ss is : List (Complex R))
        → is_true beta ≡ true
        → ((o s i : Complex R) → h o s i ≡ documented_hio beta o s i)
        → length ss ≡ length os
        → length is ≡ length os
        → zip3 h os ss is ≡ is
        → AllSolved os ss is
    pixels-AllSolved beta h [] [] [] nonzero k hs hi e = tt
    pixels-AllSolved beta h [] (s ∷ ss) is nonzero k hs hi e = ground arith
    pixels-AllSolved beta h [] [] (i ∷ is) nonzero k hs hi e = ground arith
    pixels-AllSolved beta h (o ∷ os) [] is nonzero k hs hi e = ground arith
    pixels-AllSolved beta h (o ∷ os) (s ∷ ss) [] nonzero k hs hi e = ground arith
    pixels-AllSolved beta h (o ∷ os) (s ∷ ss) (i ∷ is) nonzero k hs hi e = (
      pixel-IsSolved beta o s i nonzero (sym (k o s i) ∙ head-injective e),
      pixels-AllSolved beta h os ss is nonzero k (omega (arith, hs)) (omega (arith, hi))
          (ap (drop 1) e),
    )

module _ {R D L : Type 0} ⦃num : Numbers R⦄ ⦃reals : Reals R⦄ ⦃pix : PixelLibrary R⦄
    ⦃lib : SpLibrary R D⦄ ⦃blurs : SupportLibrary R D⦄ ⦃alg : AlgorithmLibrary R D⦄
    ⦃logs : LogLibrary R D L⦄ where
  -- A fixed point of the hybrid input-output algorithm gives a solution. If an iteration without
  -- constraints inside the support returns the pixels that it was given, and `beta` is not 0,
  -- then a pattern with the measured amplitudes and the phases of the transform (as it is without
  -- a mask, and with the phase 0 where the transform is 0) transforms back to an image that is 0
  -- outside the support and the given image inside. The images have one size, the amplitudes are
  -- not negative, and the iteration has a remainder in C by the period of the log. Numbers are
  -- exact, and the functions on complex numbers work by parts.
  pub basic_hio_iteration-solves :
      (sizes : KeepsSizes lib blurs alg) (exact : ExactArithmetic reals)
      (fractions : ExactFractions reals) (parts : ByParts num reals pix)
      (amplitudes : ExactAmplitudes num reals pix) (exp_amp real_in support out : Image R D)
      (opts : Options R) (log log' : L) (beta : R)
      → OneSize exp_amp real_in support
      → All IsAmplitude exp_amp.pixels
      → HasRemainder opts.cur_iteration opts.log_output_period
      → get_beta opts ≡ ok beta
      → is_true beta ≡ true
      → opts.enforce_real ≡ pos 0
      → opts.enforce_positivity ≡ pos 0
      → basic_hio_iteration exp_amp real_in support opts log ≡ ok (out, log')
      → out.pixels ≡ real_in.pixels
      → (pattern : Image R D) × AllMeasured exp_amp.pixels exp_amp.mask
          (lib.image_fft real_in).pixels
          (alg.zero_phase (blurs.duplicate_masked exp_amp)).pixels
          pattern.pixels
        × AllSolved (back_transformed real_in pattern).pixels support.pixels real_in.pixels
  basic_hio_iteration-solves sizes exact fractions parts amplitudes exp_amp real_in support out opts
        log log' beta one nonneg period eb nonzero r p run same =
      let (pattern, log1, e, size, measured) =
        basic_hio_iteration-documented sizes parts amplitudes exp_amp real_in support opts log beta
          one nonneg period eb in
      let returned = ap (λ (t : Image R D × L). t.0.pixels) (result-injective (sym e ∙ run)) in
      (
        pattern,
        measured,
        pixels-AllSolved exact fractions amplitudes beta
            (λ o s i. enforced clamped_pixel opts (documented_hio beta o s i) s)
            (back_transformed real_in pattern).pixels support.pixels real_in.pixels nonzero
            (λ o s i. free_pixel clamped_pixel opts (documented_hio beta o s i) s r p)
            (one.support_size ∙ sym size) (one.in_size ∙ sym size) (returned ∙ same),
      )
