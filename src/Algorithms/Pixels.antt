-- ===== src/Algorithms/Pixels.antt =====
-- src/algorithms.c: the loops over the pixels of images of one size, each as one application of a
-- function to every pixel.
use hawk.Prelude.{
  suc, ◌≡◌, refl, sym, ap, ◌∙◌, List, [], ◌∷◌, Bool, true, false, if◌then◌else◌, Bool-cases, inl,
  inr, ℤ, ok, length, arith,
}
use hawk.SpImage.{Complex, Numbers}
use hawk.Reals.{Reals}
use hawk.Options.{Options}
use package.hawk.Algorithms.{
  is_on, cons_ok, update, project, project_in_place, treat_outside, enforce, real_pixel,
  inside_pixel,
}

-- A function at every index that all lists have.
module _ {A B C : Type 0} where
  abbrev pub zip2 : (A → B → C) → List A → List B → List C
  zip2 f (a ∷ as') (b ∷ bs) = f a b ∷ zip2 f as' bs
  zip2 f _ _ = []

  pub length-zip2 :
      (f : A → B → C) (as' : List A) (bs : List B)
      → length bs ≡ length as'
      → length (zip2 f as' bs) ≡ length as'
  length-zip2 f [] bs h = refl
  length-zip2 f (a ∷ as') [] h = ground arith
  length-zip2 f (a ∷ as') (b ∷ bs) h = ap suc (length-zip2 f as' bs (omega (arith, h)))

module _ {A B C E : Type 0} where
  abbrev pub zip3 : (A → B → C → E) → List A → List B → List C → List E
  zip3 f (a ∷ as') (b ∷ bs) (c ∷ cs) = f a b c ∷ zip3 f as' bs cs
  zip3 f _ _ _ = []

  pub length-zip3 :
      (f : A → B → C → E) (as' : List A) (bs : List B) (cs : List C)
      → length bs ≡ length as'
      → length cs ≡ length as'
      → length (zip3 f as' bs cs) ≡ length as'
  length-zip3 f [] bs cs hb hc = refl
  length-zip3 f (a ∷ as') [] cs hb hc = ground arith
  length-zip3 f (a ∷ as') (b ∷ bs) [] hb hc = ground arith
  length-zip3 f (a ∷ as') (b ∷ bs) (c ∷ cs) hb hc =
      ap suc (length-zip3 f as' bs cs (omega (arith, hb)) (omega (arith, hc)))

module _ {A B : Type 0} where
  pub update-zip2 :
      (f : A → B → A) (as' : List A) (bs : List B)
      → length bs ≡ length as'
      → update f as' bs ≡ ok (zip2 f as' bs)
  unfolding update
  update-zip2 f [] bs h = refl
  update-zip2 f (a ∷ as') [] h = ground arith
  update-zip2 f (a ∷ as') (b ∷ bs) h =
      ap (cons_ok (f a b)) (update-zip2 f as' bs (omega (arith, h)))

-- A third list that the function does not read.
module _ {A B C E : Type 0} where
  pub zip2-zip3-unused :
      (f : A → B → E) (as' : List A) (bs : List B) (cs : List C)
      → length cs ≡ length as'
      → zip2 f as' bs ≡ zip3 (λ a b c. f a b) as' bs cs
  zip2-zip3-unused f [] bs cs h = refl
  zip2-zip3-unused f (a ∷ as') [] [] h = refl
  zip2-zip3-unused f (a ∷ as') [] (c ∷ cs) h = refl
  zip2-zip3-unused f (a ∷ as') (b ∷ bs) [] h = ground arith
  zip2-zip3-unused f (a ∷ as') (b ∷ bs) (c ∷ cs) h =
      ap (◌∷◌ (f a b)) (zip2-zip3-unused f as' bs cs (omega (arith, h)))

-- A second pass over the result of the first.
module _ {A B C E : Type 0} where
  pub zip2-zip3 :
      (f : E → B → E) (g : A → B → C → E) (as' : List A) (bs : List B) (cs : List C)
      → zip2 f (zip3 g as' bs cs) bs ≡ zip3 (λ a b c. f (g a b c) b) as' bs cs
  zip2-zip3 f g [] bs cs = refl
  zip2-zip3 f g (a ∷ as') [] cs = refl
  zip2-zip3 f g (a ∷ as') (b ∷ bs) [] = refl
  zip2-zip3 f g (a ∷ as') (b ∷ bs) (c ∷ cs) = ap (◌∷◌ (f (g a b c) b)) (zip2-zip3 f g as' bs cs)

module _ {R : Type 0} ⦃num : Numbers R⦄ ⦃reals : Reals R⦄ where
  -- The pattern, at every pixel.
  abbrev pub zip4 :
      (Complex R → ℤ → Complex R → Complex R → Complex R)
      → List (Complex R)
      → List ℤ
      → List (Complex R)
      → List (Complex R)
      → List (Complex R)
  zip4 g (e ∷ es) (m ∷ ms) (f ∷ fs) (p ∷ ps) = g e m f p ∷ zip4 g es ms fs ps
  zip4 g _ _ _ _ = []

  pub project-zip4 :
      (g : Complex R → ℤ → Complex R → Complex R → Complex R) (es : List (Complex R)) (ms : List ℤ)
      (fs ps : List (Complex R))
      → length ms ≡ length es
      → length fs ≡ length es
      → length ps ≡ length es
      → project g es ms fs ps ≡ ok (zip4 g es ms fs ps)
  unfolding project
  project-zip4 g [] ms fs [] hm hf hp = refl
  project-zip4 g [] ms fs (p ∷ ps) hm hf hp = ground arith
  project-zip4 g (e ∷ es) [] fs ps hm hf hp = ground arith
  project-zip4 g (e ∷ es) (m ∷ ms) [] ps hm hf hp = ground arith
  project-zip4 g (e ∷ es) (m ∷ ms) (f ∷ fs) [] hm hf hp = ground arith
  project-zip4 g (e ∷ es) (m ∷ ms) (f ∷ fs) (p ∷ ps) hm hf hp =
      ap (cons_ok (g e m f p))
        (project-zip4 g es ms fs ps (omega (arith, hm)) (omega (arith, hf)) (omega (arith, hp)))

  pub length-zip4 :
      (g : Complex R → ℤ → Complex R → Complex R → Complex R) (es : List (Complex R)) (ms : List ℤ)
      (fs ps : List (Complex R))
      → length ms ≡ length es
      → length fs ≡ length es
      → length ps ≡ length es
      → length (zip4 g es ms fs ps) ≡ length es
  length-zip4 g [] ms fs ps hm hf hp = refl
  length-zip4 g (e ∷ es) [] fs ps hm hf hp = ground arith
  length-zip4 g (e ∷ es) (m ∷ ms) [] ps hm hf hp = ground arith
  length-zip4 g (e ∷ es) (m ∷ ms) (f ∷ fs) [] hm hf hp = ground arith
  length-zip4 g (e ∷ es) (m ∷ ms) (f ∷ fs) (p ∷ ps) hm hf hp =
      ap suc (length-zip4 g es ms fs ps (omega (arith, hm)) (omega (arith, hf)) (omega (arith, hp)))

  abbrev pub masked : (Complex R → Complex R → Complex R) → Complex R → ℤ → Complex R → Complex R
  masked g e m f = if is_on m then g e f else f

  pub project_in_place-zip3 :
      (g : Complex R → Complex R → Complex R) (es : List (Complex R)) (ms : List ℤ)
      (fs : List (Complex R))
      → length ms ≡ length es
      → length fs ≡ length es
      → project_in_place g es ms fs ≡ ok (zip3 (masked g) es ms fs)
  unfolding project_in_place
  project_in_place-zip3 g [] ms [] hm hf = refl
  project_in_place-zip3 g [] ms (f ∷ fs) hm hf = ground arith
  project_in_place-zip3 g (e ∷ es) [] fs hm hf = ground arith
  project_in_place-zip3 g (e ∷ es) (m ∷ ms) [] hm hf = ground arith
  project_in_place-zip3 g (e ∷ es) (m ∷ ms) (f ∷ fs) hm hf =
      ap (cons_ok (masked g e m f))
        (project_in_place-zip3 g es ms fs (omega (arith, hm)) (omega (arith, hf)))

  abbrev pub outside_pixel :
      (Complex R → Bool)
      → (Complex R → Complex R → Complex R)
      → Complex R
      → Complex R
      → Complex R
      → Complex R
  outside_pixel outside g o s i = if outside s then g o i else o

  pub treat_outside-zip3 :
      (outside : Complex R → Bool) (g : Complex R → Complex R → Complex R)
      (os ss before : List (Complex R))
      → length ss ≡ length os
      → length before ≡ length os
      → treat_outside outside g os ss before ≡ ok (zip3 (outside_pixel outside g) os ss before)
  unfolding treat_outside
  treat_outside-zip3 outside g [] ss before hs hb = refl
  treat_outside-zip3 outside g (o ∷ os) [] before hs hb = ground arith
  treat_outside-zip3 outside g (o ∷ os) (s ∷ ss) [] hs hb = ground arith
  treat_outside-zip3 outside g (o ∷ os) (s ∷ ss) (b ∷ before) hs hb =
      let rest =
        treat_outside-zip3 outside g os ss before (omega (arith, hs)) (omega (arith, hb)) in
      elim (Bool-cases (outside s)) [
        | inl out ↦ rw out (ap (cons_ok (g o b)) rest)
        | inr within ↦ rw within (ap (cons_ok o) rest)
      ]

  -- What the constraints make of a pixel.
  abbrev pub enforced : (Complex R → Complex R) → Options R → Complex R → Complex R → Complex R
  enforced f opts o s =
      let p = if is_on opts.enforce_real then real_pixel o s else o in
      if is_on opts.enforce_positivity then inside_pixel f p s else p

  module _ {A C : Type 0} (g : A → Complex R → C → Complex R) (os : List A) (ss : List (Complex R))
      (before : List C) (hs : length ss ≡ length os) (hb : length before ≡ length os) where
    -- one of the two constraints, where its option is set
    second_pass :
        (b : Bool) (f : Complex R → Complex R → Complex R)
        → (if b then update f (zip3 g os ss before) ss else ok (zip3 g os ss before))
          ≡ ok (zip3 (λ o s i. if b then f (g o s i) s else g o s i) os ss before)
    second_pass true f =
        update-zip2 f (zip3 g os ss before) ss (hs ∙ sym (length-zip3 g os ss before hs hb))
        ∙ ap ok (zip2-zip3 f g os ss before)
    second_pass false f = refl

  pub enforce-zip3 :
      {A C : Type 0} (f : Complex R → Complex R) (opts : Options R)
      (g : A → Complex R → C → Complex R) (os : List A) (ss : List (Complex R)) (before : List C)
      → length ss ≡ length os
      → length before ≡ length os
      → enforce f opts ss (zip3 g os ss before)
        ≡ ok (zip3 (λ o s i. enforced f opts (g o s i) s) os ss before)
  enforce-zip3 f opts g os ss before hs hb =
      rw (second_pass g os ss before hs hb (is_on opts.enforce_real) real_pixel) (
        second_pass (λ o s i. if is_on opts.enforce_real then real_pixel (g o s i) s else g o s i)
          os ss before hs hb (is_on opts.enforce_positivity) (inside_pixel f))
