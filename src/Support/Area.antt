-- ===== src/Support/Area.antt =====
-- src/support.c, the levels that keep an area: sorting the pixels and taking the one at a fraction.
use mathlib.Core.List.{Perm, Permᴰ}
use mathlib.Core.Logic.{∥∥₁_elim}
use mathlib.Core.Path.{subst}
use hawk.Prelude.{
  ℕ, zero, suc, ◌+◌, ◌<◌, ◌≡◌, ◌≢◌, ◌∙◌, refl, sym, ap, List, [], ◌∷◌, Bool, Bool-cases, inl, inr,
  true, false, not, if◌then◌else◌, All, ℤ, pos, Outcome, ok, length, arith,
}
use hawk.SpImage.{Complex, Image, image_size, Numbers, SpLibrary}
use hawk.Reals.{Reals, real_ℕ, ◌⊗◌, ◌⊘◌}
use hawk.Configuration.Bezier.{element}
use package.hawk.Support.{SupportLibrary, descend_complex_compare, level_of_area}

abbrev pub count {ℓ} : {A : Type ℓ} → (A → Bool) → List A → ℕ
count p [] = 0
count p (x ∷ xs) = (if p x then 1 else 0) + count p xs

-- In the order of a comparison function no element stands before one that it puts first.
abbrev pub IsInOrder {ℓ} : {A : Type ℓ} → (A → A → ℤ) → List A → Type 0
IsInOrder f [] = Unit
IsInOrder f (x ∷ xs) = All (λ y. f x y ≢ pos 1) xs × IsInOrder f xs

swap_sum : (a b n : ℕ) → a + (b + n) ≡ b + (a + n)
swap_sum a b n = omega arith

ok_or : {A : Type 0} → A → Outcome A → A
ok_or d (ok a) = a
ok_or d m = d

ok_injective : {A : Type 0} {a b : A} → ok a ≡ ok b → a ≡ b
unfolding ok_or
ok_injective {a = a} e = ap (ok_or a) e

module _ {ℓ} {A : Type ℓ} (p : A → Bool) where
  count-permᴰ : {xs ys : List A} → Permᴰ xs ys → count p xs ≡ count p ys
  count-permᴰ Permᴰ.nil = refl
  count-permᴰ (Permᴰ.cons e h) = λ i. (if p (e i) then 1 else 0) + count-permᴰ h i
  count-permᴰ (Permᴰ.swap {a = a} {b = b} {l = l} e d) =
      swap_sum (if p a then 1 else 0) (if p b then 1 else 0) (count p l) ∙ λ i.
      (if p (d i) then 1 else 0) + ((if p (e i) then 1 else 0) + count p l)
  count-permᴰ (Permᴰ.trans h k) = count-permᴰ h ∙ count-permᴰ k

  count-perm : (xs ys : List A) → Perm xs ys → count p xs ≡ count p ys
  count-perm xs ys h = ∥∥₁_elim h (hlevel) (count-permᴰ {xs = xs} {ys = ys})

count_all : {A : Type 0} (xs : List A) → count (λ x. true) xs ≡ length xs
count_all [] = refl
count_all (x ∷ xs) = omega (arith, count_all xs)

All-element {ℓ} :
    {A : Type 0} (P : A → Type ℓ) (xs : List A) (k : ℕ) (x : A)
    → element xs k ≡ ok x
    → All P xs
    → P x
All-element P [] k x e h = ground arith
All-element P (y ∷ xs) zero x e (h, hs) = subst P (ok_injective e) h
All-element P (y ∷ xs) (suc k) x e (h, hs) = All-element P xs k x e hs

module _ {R : Type 0} ⦃num : Numbers R⦄ ⦃reals : Reals R⦄ where
  abbrev pub at_least : Complex R → Complex R → Bool
  at_least p q = not (reals.less (num.cabs q) (num.cabs p))

  abbrev pub brighter : Complex R → Complex R → Bool
  brighter p q = reals.less (num.cabs p) (num.cabs q)

module _ {R : Type 0} ⦃num : Numbers R⦄ ⦃reals : Reals R⦄
    (less_self : (x : R) → reals.less x x ≡ false) where
  not_first :
      (p q : Complex R)
      → descend_complex_compare p q ≢ pos 1
      → reals.less (num.cabs p) (num.cabs q) ≡ false
  not_first p q h = elim (Bool-cases (reals.less (num.cabs p) (num.cabs q))) [
    | inl less ↦ absurd (h (rw less))
    | inr same ↦ same
  ]

  one_more :
      (k : ℕ) (x p : Complex R) (ps : List (Complex R))
      → descend_complex_compare x p ≢ pos 1
      → k < count (at_least p) ps
      → suc k < count (at_least p) (x ∷ ps)
  one_more k x p ps h more = rw (not_first x p h) (omega (arith, more))

  -- The pixel at `k` of a sorted list, and the `k` before it, are as bright as it is.
  sorted-count :
      (k : ℕ) (ps : List (Complex R))
      → IsInOrder descend_complex_compare ps
      → k < length ps
      → (p : Complex R) × (element ps k ≡ ok p) × (k < count (at_least p) ps)
  sorted-count k [] o h = absurd (omega arith)
  sorted-count zero (x ∷ ps) o h = (x, refl, rw (less_self (num.cabs x)) (omega arith))
  sorted-count (suc k) (x ∷ ps) (first, o) h =
      let (p, at, more) = sorted-count k ps o (omega arith) in
      (p, at, one_more k x p ps (All-element _ ps k p at first) more)

  none_brighter :
      (x : Complex R) (ps : List (Complex R))
      → All (λ y. descend_complex_compare x y ≢ pos 1) ps
      → count (brighter x) ps ≡ 0
  none_brighter x [] h = refl
  none_brighter x (y ∷ ps) (h, hs) = rw (not_first x y h) (omega (arith, none_brighter x ps hs))

  sorted-top :
      (ps : List (Complex R))
      → IsInOrder descend_complex_compare ps
      → 0 < length ps
      → (x : Complex R) × (element ps 0 ≡ ok x) × (count (brighter x) ps ≡ 0)
  sorted-top [] o h = absurd (omega arith)
  sorted-top (x ∷ ps) (first, o) h =
      (x, refl, rw (less_self (num.cabs x)) (omega (arith, none_brighter x ps first)))

  module _ {D : Type 0} ⦃lib : SpLibrary R D⦄ ⦃support : SupportLibrary R D⦄ where
    -- Where a fraction of the pixels is `k` pixels, less than all, the level for it is the brightness
    -- of a pixel, than which more than `k` pixels of the image are not darker, divided by the
    -- brightness of a pixel than which none is brighter: if `qsort` returns the pixels of the image
    -- in the order of the comparison, and no number is less than itself.
    pub level_of_area-count :
        (area : R) (res : Image R D) (k : ℕ)
        → Perm (support.qsort descend_complex_compare res.pixels) res.pixels
        → IsInOrder descend_complex_compare (support.qsort descend_complex_compare res.pixels)
        → reals.truncate (real_ℕ (image_size res) ⊗ area) ≡ pos k
        → k < image_size res
        → (p top : Complex R) × (level_of_area area res ≡ ok (num.cabs p ⊘ num.cabs top))
          × (k < count (at_least p) res.pixels)
          × (count (brighter top) res.pixels ≡ 0)
    level_of_area-count area res k perm order e h =
        let sorted = support.qsort descend_complex_compare res.pixels in
        let size : length sorted ≡ length res.pixels =
          sym (count_all sorted)
          ∙ count-perm (λ q. true) sorted res.pixels perm
          ∙ count_all res.pixels in
        let (p, at, more) = sorted-count k sorted order (omega arith) in
        let (top, at_top, brightest_) = sorted-top sorted order (omega arith) in
        (
          p,
          top,
          rw (e, at, at_top),
          subst (λ n. k < n) (count-perm (at_least p) sorted res.pixels perm) more,
          sym (count-perm (brighter top) sorted res.pixels perm) ∙ brightest_,
        )
