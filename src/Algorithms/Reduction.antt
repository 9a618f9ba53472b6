-- ===== src/Algorithms/Reduction.antt =====
-- src/algorithms.c, `basic_error_reduction_iteration` on images of one size.
use hawk.Prelude.{
  ℕ, zero, suc, ◌≡◌, refl, sym, ap, ◌∙◌, List, [], ◌∷◌, Bool, true, false, not, if◌then◌else◌, some,
  ok, length, get_elem?, arith,
}
use mathlib.Core.Option.{some-injective}
use hawk.SpImage.{Complex, cinit, Image, Numbers, SpLibrary}
use hawk.Reals.{Reals, real_ℕ, is_true}
use hawk.Options.{Options}
use hawk.Support.{SupportLibrary}
use package.hawk.Algorithms.{
  PixelLibrary, AlgorithmLibrary, LogLibrary, is_on, with_pixels, is_outside, absolute_pixel,
}
use package.hawk.Algorithms.Iterations.{pattern_pixel, cut_pixel, basic_error_reduction_iteration}
use package.hawk.Algorithms.Pixels.{zip3, enforced, update-zip2, zip2-zip3-unused}
use package.hawk.Algorithms.Pointwise.{
  HasRemainder, KeepsSizes, OneSize, finish-zip3, measured_image, measured_image_size,
  pattern_of-zip4,
}

module _ {A B C E : Type 0} where
  pub get_elem?-zip3 :
      (f : A → B → C → E) (as' : List A) (bs : List B) (cs : List C) (i : ℕ) (b : B)
      → length bs ≡ length as'
      → length cs ≡ length as'
      → get_elem? bs i ≡ some b
      → (a : A) × (c : C) × (get_elem? (zip3 f as' bs cs) i ≡ some (f a b c))
  get_elem?-zip3 f as' [] cs i b hb hc e = ground arith
  get_elem?-zip3 f [] (b' ∷ bs) cs i b hb hc e = ground arith
  get_elem?-zip3 f (a ∷ as') (b' ∷ bs) [] i b hb hc e = ground arith
  get_elem?-zip3 f (a ∷ as') (b' ∷ bs) (c ∷ cs) zero b hb hc e =
      (a, c, ap (λ x. some (f a x c)) (some-injective b' b e))
  get_elem?-zip3 f (a ∷ as') (b' ∷ bs) (c ∷ cs) (suc i) b hb hc e =
      get_elem?-zip3 f as' bs cs i b (omega (arith, hb)) (omega (arith, hc)) e

module _ {R : Type 0} ⦃num : Numbers R⦄ ⦃reals : Reals R⦄ where
  -- The constraints, by what the options say and by the place of the pixel.
  abbrev pub constrained : (Complex R → Complex R) → Bool → Bool → Bool → Complex R → Complex R
  constrained f real positive inside o =
      let p = if real then (if inside then cinit o.re (real_ℕ 0) else o) else o in
      if positive then (if inside then f p else p) else p

  constrained-outside :
      (f : Complex R → Complex R) (real positive inside : Bool) (o : Complex R)
      → not inside ≡ true
      → constrained f real positive inside o ≡ o
  constrained-outside f real positive true o h = ground arith
  constrained-outside f true true false o h = refl
  constrained-outside f true false false o h = refl
  constrained-outside f false true false o h = refl
  constrained-outside f false false false o h = refl

  pub enforced-outside :
      (f : Complex R → Complex R) (opts : Options R) (o s : Complex R)
      → is_outside s ≡ true
      → enforced f opts o s ≡ o
  enforced-outside f opts o s h =
      constrained-outside f (is_on opts.enforce_real) (is_on opts.enforce_positivity) (is_true s.re)
        o h

module _ {R D L : Type 0} ⦃num : Numbers R⦄ ⦃reals : Reals R⦄ ⦃pix : PixelLibrary R⦄
    ⦃lib : SpLibrary R D⦄ ⦃blurs : SupportLibrary R D⦄ ⦃alg : AlgorithmLibrary R D⦄
    ⦃logs : LogLibrary R D L⦄ where
  pub basic_error_reduction_iteration-pointwise :
      (sizes : KeepsSizes lib blurs alg) (exp_amp real_in support : Image R D) (opts : Options R)
      (log : L)
      → OneSize exp_amp real_in support
      → HasRemainder opts.cur_iteration opts.log_output_period
      → (log' : L) × (basic_error_reduction_iteration exp_amp real_in support opts log
          ≡ ok (
            with_pixels (measured_image pattern_pixel exp_amp real_in) (
                zip3
                  (λ o s i. enforced absolute_pixel opts (cut_pixel o s) s)
                  (measured_image pattern_pixel exp_amp real_in).pixels
                  support.pixels
                  real_in.pixels),
            log',
          ))
  unfolding basic_error_reduction_iteration
  basic_error_reduction_iteration-pointwise sizes exp_amp real_in support opts log one period =
      let out = measured_image pattern_pixel exp_amp real_in in
      let size = measured_image_size sizes pattern_pixel exp_amp real_in support one in
      let hs = one.support_size ∙ sym size in
      let hi = one.in_size ∙ sym size in
      let cut =
        update-zip2 cut_pixel out.pixels support.pixels hs
        ∙ ap ok (zip2-zip3-unused cut_pixel out.pixels support.pixels real_in.pixels hi) in
      let (log', e) =
        finish-zip3 absolute_pixel exp_amp real_in (lib.image_fft real_in) support opts log out
          (λ o s i. cut_pixel o s) out.pixels real_in.pixels hs hi period in
      (log', rw (pattern_of-zip4 sizes pattern_pixel exp_amp real_in support one, cut) e)

  -- On images of one size and with a period of the log by which the iteration has a remainder in
  -- C, an iteration of error reduction returns an image whose pixels outside the support are 0,
  -- whatever the constraints are.
  pub basic_error_reduction_iteration-outside :
      (sizes : KeepsSizes lib blurs alg) (exp_amp real_in support : Image R D) (opts : Options R)
      (log : L) (i : ℕ) (s : Complex R)
      → OneSize exp_amp real_in support
      → HasRemainder opts.cur_iteration opts.log_output_period
      → get_elem? support.pixels i ≡ some s
      → is_outside s ≡ true
      → (out : Image R D) × (log' : L) × (basic_error_reduction_iteration exp_amp real_in support
            opts log
          ≡ ok (out, log'))
        × (get_elem? out.pixels i ≡ some (cinit (real_ℕ 0) (real_ℕ 0)))
  basic_error_reduction_iteration-outside sizes exp_amp real_in support opts log i s one period at
        outside =
      let (log', e) =
        basic_error_reduction_iteration-pointwise sizes exp_amp real_in support opts log one
          period in
      let out = measured_image pattern_pixel exp_amp real_in in
      let size = measured_image_size sizes pattern_pixel exp_amp real_in support one in
      let (o, b, here) =
        get_elem?-zip3 (λ o t b. enforced absolute_pixel opts (cut_pixel o t) t) out.pixels
          support.pixels real_in.pixels i s (one.support_size ∙ sym size) (one.in_size ∙ sym size)
          at in
      let zero : cut_pixel o s ≡ cinit (real_ℕ 0) (real_ℕ 0) =
        ap (λ t. if t then cinit (real_ℕ 0) (real_ℕ 0) else o) outside in
      (
        _,
        log',
        e,
        here ∙ ap some (enforced-outside absolute_pixel opts (cut_pixel o s) s outside ∙ zero),
      )
