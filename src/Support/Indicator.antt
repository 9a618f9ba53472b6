-- ===== src/Support/Indicator.antt =====
-- src/support.c, `get_updated_support`: what the support is of the blurred image.
use mathlib.Core.Path.{subst}
use hawk.Prelude.{
  sym, if◌then◌else◌, ℕ, suc, ◌≡◌, ◌∙◌, refl, ap, List, [], ◌∷◌, map, Bool, Bool-cases, ◌⊎◌, inl,
  inr, true, false, none, some, not, All, get_elem?, arith,
}
use hawk.SpImage.{Complex, cinit, Image, Numbers, SpLibrary}
use hawk.Reals.{Reals, real_ℕ, ◌⊗◌}
use hawk.Options.{Options}
use package.hawk.Support.{
  SupportLibrary, brightest, binary_pixel, threshold_pixel, blurred, get_updated_support,
}

abbrev pub with_data : {R D : Type 0} → Image R D → List (Complex R) → Image R D
with_data a ps = record a { pixels = ps }

module _ {R : Type 0} (num : Numbers R) (reals : Reals R) where
  -- 1 has an absolute value other than 0, and 0 has not.
  pub record IsBinary : Type 0 where
    pub one_is_true :
        not (
          reals.equal
            (num.cabs (cinit (real_ℕ ⦃reals = reals⦄ 1) (real_ℕ ⦃reals = reals⦄ 0)))
            (real_ℕ ⦃reals = reals⦄ 0))
        ≡ true
    pub zero_is_false :
        not (
          reals.equal
            (num.cabs (cinit (real_ℕ ⦃reals = reals⦄ 0) (real_ℕ ⦃reals = reals⦄ 0)))
            (real_ℕ ⦃reals = reals⦄ 0))
        ≡ false

-- The comparison of numbers, without those that are not comparable.
pub record IsStrictOrder {R : Type 0} (reals : Reals R) : Type 0 where
  pub less_self : (a : R) → reals.less a a ≡ false
  pub less_trans :
      (a b c : R) → reals.less a b ≡ true → reals.less b c ≡ true → reals.less a c ≡ true
  pub less_split :
      (a b c : R) → reals.less a b ≡ true → (reals.less a c ≡ true) ⊎ (reals.less c b ≡ true)

module _ {R : Type 0} ⦃num : Numbers R⦄ ⦃reals : Reals R⦄ where
  -- `m` is the brightness of one of the pixels.
  abbrev IsBrightness : R → List (Complex R) → Type 0
  IsBrightness m ps = (i : ℕ) × (p : Complex R) × (get_elem? ps i ≡ some p) × (m ≡ num.cabs p)

  -- No pixel is brighter than `top`, which is 0 or the brightness of a pixel.
  abbrev pub IsBrightest : R → List (Complex R) → Type 0
  IsBrightest top ps =
      All (λ p. reals.less top (num.cabs p) ≡ false) ps × ((top ≡ real_ℕ 0) ⊎ IsBrightness top ps)

  -- Each pixel of the second list is 0 where that of the first is darker than `bound`, and else 1.
  abbrev pub AllCut : R → List (Complex R) → List (Complex R) → Type 0
  AllCut bound [] [] = Unit
  AllCut bound (p ∷ ps) (q ∷ qs) =
      (((reals.less (num.cabs p) bound ≡ true) × (q ≡ cinit (real_ℕ 0) (real_ℕ 0)))
        ⊎ ((reals.less (num.cabs p) bound ≡ false) × (q ≡ cinit (real_ℕ 1) (real_ℕ 0))))
      × AllCut bound ps qs
  AllCut bound _ _ = ⊥

  threshold-AllCut :
      (bound : R) (ps : List (Complex R)) → AllCut bound ps (map (threshold_pixel bound) ps)
  threshold-AllCut bound [] = tt
  threshold-AllCut bound (p ∷ ps) = (
    elim (Bool-cases (reals.less (num.cabs p) bound)) [
      | inl dark ↦ rw dark (inl (refl, refl))
      | inr bright ↦ rw bright (inr (refl, refl))
    ],
    threshold-AllCut bound ps,
  )

  brightest-attained :
      (m : R) (ps : List (Complex R)) → (brightest m ps ≡ m) ⊎ IsBrightness (brightest m ps) ps
  unfolding brightest
  brightest-attained m [] = inl refl
  brightest-attained m (p ∷ ps) = elim (Bool-cases (reals.less m (num.cabs p))) [
    | inl brighter ↦ rw brighter (elim (brightest-attained (num.cabs p) ps) [
      | inl same ↦ inr (0, p, refl, same)
      | inr (i, q, at, e) ↦ inr (suc i, q, at, e)
    ])
    | inr kept ↦ rw kept (elim (brightest-attained m ps) [
      | inl same ↦ inl same
      | inr (i, q, at, e) ↦ inr (suc i, q, at, e)
    ])
  ]

  module _ (order : IsStrictOrder reals) where
    not_both : (b : Bool) → b ≡ false → b ≡ true → ⊥
    not_both b f t = ground arith

    -- Not to be less goes through a number that is not less either.
    not_less_trans :
        (a b c : R) → reals.less a c ≡ false → reals.less c b ≡ false → reals.less a b ≡ false
    not_less_trans a b c h k = elim (Bool-cases (reals.less a b)) [
      | inr same ↦ same
      | inl less ↦ elim (order.less_split a b c less) [
        | inl l ↦ absurd (not_both (reals.less a c) h l)
        | inr l ↦ absurd (not_both (reals.less c b) k l)
      ]
    ]

    less_asym : (a b : R) → reals.less a b ≡ true → reals.less b a ≡ false
    less_asym a b h = elim (Bool-cases (reals.less b a)) [
      | inr same ↦ same
      | inl l ↦ absurd (not_both (reals.less a a) (order.less_self a) (order.less_trans a b a h l))
    ]

    -- `top` is neither below `m` nor below a pixel.
    abbrev Covers : R → R → List (Complex R) → Type 0
    Covers top m ps = (reals.less top m ≡ false) × All (λ p. reals.less top (num.cabs p) ≡ false) ps

    brightest-Covers : (m : R) (ps : List (Complex R)) → Covers (brightest m ps) m ps
    unfolding brightest
    brightest-Covers m [] = (order.less_self m, tt)
    brightest-Covers m (p ∷ ps) = elim (Bool-cases (reals.less m (num.cabs p))) [
      | inl brighter ↦
          let (top, rest) = brightest-Covers (num.cabs p) ps in
          let asym = less_asym m (num.cabs p) brighter in
          subst (λ t. Covers t m (p ∷ ps))
            (λ j. brightest (if sym brighter j then num.cabs p else m) ps)
            (not_less_trans (brightest (num.cabs p) ps) m (num.cabs p) top asym, (top, rest))
      | inr kept ↦
          let (top, rest) = brightest-Covers m ps in
          subst (λ t. Covers t m (p ∷ ps))
            (λ j. brightest (if sym kept j then num.cabs p else m) ps)
            (top, (not_less_trans (brightest m ps) (num.cabs p) m top kept, rest))
    ]

    brightest-IsBrightest : (ps : List (Complex R)) → IsBrightest (brightest (real_ℕ 0) ps) ps
    brightest-IsBrightest ps =
        ((brightest-Covers (real_ℕ 0) ps).1, brightest-attained (real_ℕ 0) ps)

module _ {R : Type 0} ⦃num : Numbers R⦄ ⦃reals : Reals R⦄ (laws : IsBinary num reals) where
  binary-threshold :
      (bound : R) (p : Complex R) → binary_pixel (threshold_pixel bound p) ≡ threshold_pixel bound p
  binary-threshold bound p = elim (Bool-cases (reals.less (num.cabs p) bound)) [
    | inl dark ↦ rw (dark, laws.zero_is_false)
    | inr bright ↦ rw (bright, laws.one_is_true)
  ]

  map_binary :
      (bound : R) (ps : List (Complex R))
      → map binary_pixel (map (threshold_pixel bound) ps) ≡ map (threshold_pixel bound) ps
  map_binary bound [] = refl
  map_binary bound (p ∷ ps) =
      ap (λ q. q ∷ map binary_pixel (map (threshold_pixel bound) ps)) (binary-threshold bound p)
      ∙ ap (◌∷◌ (threshold_pixel bound p)) (map_binary bound ps)

  module _ {D : Type 0} ⦃lib : SpLibrary R D⦄ ⦃support : SupportLibrary R D⦄ where
    -- Without a mask, the support is 0 at the pixels of the blurred image that are darker than the
    -- level times the brightness of its brightest pixel, and 1 at all others. The comparison of numbers
    -- is a strict order, and 1 is not 0 in absolute value.
    pub get_updated_support-threshold :
        (order : IsStrictOrder reals) (input : Image R D) (level radius : R) (opts : Options R)
        → (top : R) × (qs : List (Complex R)) × (get_updated_support input level radius opts none
            ≡ with_data (blurred opts.support_update_algorithm input radius) qs)
          × IsBrightest top (blurred opts.support_update_algorithm input radius).pixels
          × AllCut (top ⊗ level) (blurred opts.support_update_algorithm input radius).pixels qs
    unfolding get_updated_support
    get_updated_support-threshold order input level radius opts =
        let res = blurred opts.support_update_algorithm input radius in
        let top = brightest (real_ℕ 0) res.pixels in
        (
          top,
          map (threshold_pixel (top ⊗ level)) res.pixels,
          ap (with_data res) (map_binary (top ⊗ level) res.pixels),
          brightest-IsBrightest order res.pixels,
          threshold-AllCut (top ⊗ level) res.pixels,
        )
