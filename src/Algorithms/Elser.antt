-- ===== src/Algorithms/Elser.antt =====
-- src/algorithms.c, `serial_difference_map_iteration`: the optimized code against the reference
-- implementation that is commented out above it, on images of one size.
pub mod Equivalence
use hawk.Prelude.{
  ℕ, ◌≡◌, ◌≢◌, refl, sym, ap, ◌∙◌, List, [], ◌∷◌, map, Bool, true, false, if◌then◌else◌, ℤ, pos,
  Outcome, ok, length, length-map, arith,
}
use hawk.SpImage.{Complex, cinit, Image, image_size, Numbers, SpLibrary}
use hawk.Reals.{Reals, real_ℕ, is_true, ◌⊕◌, ◌⊖◌, ◌⊗◌, ◌⊘◌}
use hawk.Options.{Options}
use hawk.Configuration.{get_beta, get_gamma1, get_gamma2}
use hawk.Support.{SupportLibrary}
use package.hawk.Algorithms.{
  PixelLibrary, AlgorithmLibrary, LogLibrary, cons_ok, update, with_pixels, absolute_pixel,
}
use package.hawk.Algorithms.DifferenceMap.{
  f1_pixel, f2_pixel, map_pixel, map_pixels, serial_difference_map_f1, serial_difference_map_f2,
  serial_difference_map_iteration,
}
use package.hawk.Algorithms.Pixels.{zip2, length-zip2, zip3, enforced, update-zip2}
use package.hawk.Algorithms.Pointwise.{KeepsSizes, OneSize, finish-zip3}
use package.hawk.Algorithms.Formula.{ExactArithmetic}

-- More of the arithmetic without rounding.
pub record ExactFractions {R : Type 0} (reals : Reals R) : Type 0 where
  pub over_times : (a b : R) → reals.over a b ≡ reals.times a (reals.over (reals.of_int (pos 1)) b)
  pub times_assoc : (a b c : R) → reals.times (reals.times a b) c ≡ reals.times a (reals.times b c)
  pub times_comm : (a b : R) → reals.times a b ≡ reals.times b a
  pub minus_times :
      (a b c : R)
      → reals.times (reals.minus a b) c ≡ reals.minus (reals.times a c) (reals.times b c)
  pub times_minus :
      (a b c : R)
      → reals.times a (reals.minus b c) ≡ reals.minus (reals.times a b) (reals.times a c)
  pub plus_minus_assoc :
      (a b c : R) → reals.plus a (reals.minus b c) ≡ reals.minus (reals.plus a b) c
  pub plus_zero : (a : R) → reals.plus a (reals.of_int (pos 0)) ≡ a

module _ {R : Type 0} ⦃reals : Reals R⦄ where
  abbrev pub scaled_pixel : R → Complex R → Complex R
  scaled_pixel r p = cinit (p.re ⊗ r) (p.im ⊗ r)

  -- `a` times the first less `b` times the second
  abbrev pub combined_pixel : R → R → Complex R → Complex R → Complex R
  combined_pixel a b p q = cinit (a ⊗ p.re ⊖ b ⊗ q.re) (a ⊗ p.im ⊖ b ⊗ q.im)

  -- Ps: `sp_proj_support`
  abbrev projected_pixel : Complex R → Complex R → Complex R
  projected_pixel s p = if is_true s.re then p else cinit (real_ℕ 0) (real_ℕ 0)

  -- A pixel of the reference implementation: the pixel before, plus `beta` times the difference of
  -- Pi1f2 and Pi2f1, from the support and the pixels of f2 and Pi2f1.
  abbrev pub reference_pixel : R → Complex R → Complex R → Complex R → Complex R → Complex R
  reference_pixel beta b s f2 pi2_f1 =
      let pi1_f2 = projected_pixel s f2 in
      cinit (b.re ⊕ beta ⊗ (pi1_f2.re ⊖ pi2_f1.re)) (b.im ⊕ beta ⊗ (pi1_f2.im ⊖ pi2_f1.im))

  -- the same, from the pair of the last two
  abbrev pub reference_of : R → Complex R → Complex R → Complex R × Complex R → Complex R
  reference_of beta b s (f2, pi2_f1) = reference_pixel beta b s f2 pi2_f1

  -- f2, from the pixel of the transform back and the pixel before
  abbrev f2_of : ℕ → R → Complex R → Complex R → Complex R
  f2_of n gamma2 rho b =
      scaled_pixel (real_ℕ 1 ⊘ real_ℕ n)
        (combined_pixel (real_ℕ 1 ⊕ gamma2) gamma2 rho (scaled_pixel (real_ℕ n) b))

  -- The pixels of f2 and of Pi2f1, together.
  abbrev pub f2_and_f1 :
      ℕ → R → List (Complex R) → List (Complex R) → List (Complex R) → List (Complex R × Complex R)
  f2_and_f1 n gamma2 rhos before f1s =
      zip2 (λ p q. (p, q))
        (map (scaled_pixel (real_ℕ 1 ⊘ real_ℕ n)) (
          zip2 (combined_pixel (real_ℕ 1 ⊕ gamma2) gamma2) rhos
            (map (scaled_pixel (real_ℕ n)) before)))
        (map (scaled_pixel (real_ℕ 1 ⊘ real_ℕ n)) f1s)

  pub length-f2_and_f1 :
      (n : ℕ) (gamma2 : R) (rhos before f1s : List (Complex R))
      → length rhos ≡ length before
      → length f1s ≡ length before
      → length (f2_and_f1 n gamma2 rhos before f1s) ≡ length before
  length-f2_and_f1 n gamma2 rhos before f1s hr hf =
      let g = combined_pixel (real_ℕ 1 ⊕ gamma2) gamma2 in
      let c = scaled_pixel (real_ℕ 1 ⊘ real_ℕ n) in
      let back = map (scaled_pixel (real_ℕ n)) before in
      let hz = length-zip2 g rhos back (length-map _ before ∙ sym hr) in
      let hm = length-map c (zip2 g rhos back) ∙ (hz ∙ hr) in
      length-zip2 (λ p q. (p, q)) (map c (zip2 g rhos back)) (map c f1s)
        (length-map c f1s ∙ (hf ∙ sym hm))
      ∙ hm

-- The number can be divided by.
abbrev pub HasInverse : {R : Type 0} → Reals R → ℕ → Type 0
HasInverse reals n =
    reals.times (reals.of_int (pos n)) (reals.over (reals.of_int (pos 1)) (reals.of_int (pos n)))
    ≡ reals.of_int (pos 1)

-- What libspimage does with pixels: it scales and copies them, the inverse transform is linear, and
-- after a transform it gives the image times the number of its pixels.
pub record IsLinear {R D : Type 0} ⦃reals : Reals R⦄ (lib : SpLibrary R D)
    (blurs : SupportLibrary R D) : Type 0 where
  pub duplicate_pixels : (a : Image R D) → (blurs.duplicate_masked a).pixels ≡ a.pixels
  pub scale_pixels :
      (a : Image R D) (r : R) → (lib.image_scale a r).pixels ≡ map (scaled_pixel r) a.pixels
  pub ifft_linear :
      (a b : R) (t f : Image R D)
      → image_size t ≡ image_size f
      → (lib.image_ifft (with_pixels t (zip2 (combined_pixel a b) t.pixels f.pixels))).pixels
        ≡ zip2 (combined_pixel a b) (lib.image_ifft t).pixels (lib.image_ifft f).pixels
  pub ifft_fft :
      (a : Image R D)
      → (lib.image_ifft (lib.image_fft a)).pixels
        ≡ map (scaled_pixel (real_ℕ (image_size a))) a.pixels

module _ {R : Type 0} ⦃reals : Reals R⦄ (exact : ExactArithmetic reals)
    (fractions : ExactFractions reals) where
  -- With c the inverse of n.
  module _ (n c : R) (inverse : n ⊗ c ≡ real_ℕ 1) where
    cancel : (g b : R) → (g ⊗ (b ⊗ n)) ⊗ c ≡ g ⊗ b
    cancel g b =
        fractions.times_assoc g (b ⊗ n) c
        ∙ ap (λ x. g ⊗ x)
            (fractions.times_assoc b n c ∙ (ap (λ x. b ⊗ x) inverse ∙ exact.times_one b))

    inside-part :
        (beta g h b rho f : R)
        → (b ⊕ beta ⊗ (g ⊗ rho ⊗ c ⊖ h ⊗ b)) ⊖ beta ⊗ f ⊗ c
          ≡ b ⊕ beta ⊗ ((g ⊗ rho ⊖ h ⊗ (b ⊗ n)) ⊗ c ⊖ f ⊗ c)
    inside-part beta g h b rho f =
        rw
          (
            fractions.minus_times (g ⊗ rho) (h ⊗ (b ⊗ n)) c,
            cancel h b,
            fractions.times_minus beta (g ⊗ rho ⊗ c ⊖ h ⊗ b) (f ⊗ c),
            fractions.plus_minus_assoc b (beta ⊗ (g ⊗ rho ⊗ c ⊖ h ⊗ b)) (beta ⊗ (f ⊗ c)),
            fractions.times_assoc beta f c,
          )
          refl

  outside-part : (beta b f c : R) → b ⊖ beta ⊗ f ⊗ c ≡ b ⊕ beta ⊗ (real_ℕ 0 ⊖ f ⊗ c)
  outside-part beta b f c =
      rw
        (
          fractions.times_minus beta (real_ℕ 0) (f ⊗ c),
          fractions.plus_minus_assoc b (beta ⊗ real_ℕ 0) (beta ⊗ (f ⊗ c)),
          fractions.times_comm beta (real_ℕ 0),
          exact.zero_times beta,
          fractions.plus_zero b,
          fractions.times_assoc beta f c,
        )
        refl

  -- The same with the divisions of the code, by the number of the pixels.
  module _ (n : ℕ) (inverse : HasInverse reals n) where
    inside-coordinate :
        (beta g h b rho f : R)
        → (b ⊕ beta ⊗ (g ⊗ rho ⊘ real_ℕ n ⊖ h ⊗ b)) ⊖ beta ⊗ f ⊘ real_ℕ n
          ≡ b
            ⊕ beta
              ⊗ ((g ⊗ rho ⊖ h ⊗ (b ⊗ real_ℕ n)) ⊗ (real_ℕ 1 ⊘ real_ℕ n) ⊖ f ⊗ (real_ℕ 1 ⊘ real_ℕ n))
    inside-coordinate beta g h b rho f =
        let by_rho = fractions.over_times (g ⊗ rho) (real_ℕ n) in
        let by_f = fractions.over_times (beta ⊗ f) (real_ℕ n) in
        (λ j. (b ⊕ beta ⊗ (by_rho j ⊖ h ⊗ b)) ⊖ by_f j)
        ∙ inside-part (real_ℕ n) (real_ℕ 1 ⊘ real_ℕ n) inverse beta g h b rho f

    outside-coordinate :
        (beta b f : R) → b ⊖ beta ⊗ f ⊘ real_ℕ n ≡ b ⊕ beta ⊗ (real_ℕ 0 ⊖ f ⊗ (real_ℕ 1 ⊘ real_ℕ n))
    outside-coordinate beta b f =
        ap (λ x. b ⊖ x) (fractions.over_times (beta ⊗ f) (real_ℕ n))
        ∙ outside-part beta b f (real_ℕ 1 ⊘ real_ℕ n)

    -- by the truth of the support
    map_pixel-by :
        (t : Bool) (beta gamma2 : R) (b rho f : Complex R)
        → (let p =
              if t
              then cinit
                  (b.re ⊕ beta ⊗ ((real_ℕ 1 ⊕ gamma2) ⊗ rho.re ⊘ real_ℕ n ⊖ gamma2 ⊗ b.re))
                  (b.im ⊕ beta ⊗ ((real_ℕ 1 ⊕ gamma2) ⊗ rho.im ⊘ real_ℕ n ⊖ gamma2 ⊗ b.im))
              else b in
            cinit (p.re ⊖ beta ⊗ f.re ⊘ real_ℕ n) (p.im ⊖ beta ⊗ f.im ⊘ real_ℕ n))
          ≡ (let q = if t then f2_of n gamma2 rho b else cinit (real_ℕ 0) (real_ℕ 0) in
              let g = scaled_pixel (real_ℕ 1 ⊘ real_ℕ n) f in
              cinit (b.re ⊕ beta ⊗ (q.re ⊖ g.re)) (b.im ⊕ beta ⊗ (q.im ⊖ g.im)))
    map_pixel-by true beta gamma2 b rho f = λ j.
        cinit (inside-coordinate beta (real_ℕ 1 ⊕ gamma2) gamma2 b.re rho.re f.re j)
          (inside-coordinate beta (real_ℕ 1 ⊕ gamma2) gamma2 b.im rho.im f.im j)
    map_pixel-by false beta gamma2 b rho f =
        λ j. cinit (outside-coordinate beta b.re f.re j) (outside-coordinate beta b.im f.im j)

    pub map_pixels-reference :
        ⦃num : Numbers R⦄ (beta gamma2 : R) (before ss rhos f1s : List (Complex R))
        → length ss ≡ length before
        → length rhos ≡ length before
        → length f1s ≡ length before
        → map_pixels beta gamma2 n before ss rhos f1s before
          ≡ ok (zip3 (reference_of beta) before ss (f2_and_f1 n gamma2 rhos before f1s))
    unfolding map_pixels
    map_pixels-reference beta gamma2 [] ss rhos f1s hs hr hf = refl
    map_pixels-reference beta gamma2 (b ∷ before) [] rhos f1s hs hr hf = ground arith
    map_pixels-reference beta gamma2 (b ∷ before) (s ∷ ss) [] f1s hs hr hf = ground arith
    map_pixels-reference beta gamma2 (b ∷ before) (s ∷ ss) (r ∷ rhos) [] hs hr hf = ground arith
    map_pixels-reference beta gamma2 (b ∷ before) (s ∷ ss) (r ∷ rhos) (f ∷ f1s) hs hr hf =
        let rest =
          map_pixels-reference beta gamma2 before ss rhos f1s (omega (arith, hs))
            (omega (arith, hr)) (omega (arith, hf)) in
        λ j. cons_ok (map_pixel-by (is_true s.re) beta gamma2 b r f j) (rest j)
