-- ===== src/Algorithms/Enforcement.antt =====
-- src/algorithms.c: what the options `enforce_real` and `enforce_positivity` give in
-- `basic_hio_iteration`.
use hawk.Prelude.{ℕ, ◌≡◌, refl, sym, ◌∙◌, Bool, true, false, if◌then◌else◌, some, ok, get_elem?}
use hawk.SpImage.{Complex, cinit, Image, Numbers, SpLibrary}
use hawk.Reals.{Reals, real_ℕ, is_true}
use hawk.Options.{Options}
use hawk.Configuration.{get_beta}
use hawk.Support.{SupportLibrary}
use package.hawk.Algorithms.{PixelLibrary, AlgorithmLibrary, LogLibrary, is_on, is_outside}
use package.hawk.Algorithms.Iterations.{hio_pixel, hio_outside, clamped_pixel, basic_hio_iteration}
use package.hawk.Algorithms.Pixels.{outside_pixel, enforced}
use package.hawk.Algorithms.Pointwise.{
  HasRemainder, KeepsSizes, OneSize, measured_image, measured_image_size, basic_hio_iteration-zip3,
}
use package.hawk.Algorithms.Reduction.{constrained, get_elem?-zip3}

if_same : {A : Type 0} (b : Bool) (a : A) → (if b then a else a) ≡ a
if_same true a = refl
if_same false a = refl

module _ {R : Type 0} ⦃num : Numbers R⦄ ⦃reals : Reals R⦄ ⦃pix : PixelLibrary R⦄ where
  clamped_pixel-real : (a : R) → (clamped_pixel (cinit a (real_ℕ 0))).im ≡ real_ℕ 0
  clamped_pixel-real a = if_same (reals.less (real_ℕ 0) (real_ℕ 0)) (real_ℕ 0)

  constrained-real :
      (positive : Bool) (o : Complex R)
      → (constrained clamped_pixel true positive true o).im ≡ real_ℕ 0
  constrained-real true o = clamped_pixel-real o.re
  constrained-real false o = refl

  -- inside the support, with the option set
  enforced-real :
      (opts : Options R) (o s : Complex R)
      → is_on opts.enforce_real ≡ true
      → is_true s.re ≡ true
      → (enforced clamped_pixel opts o s).im ≡ real_ℕ 0
  enforced-real opts o s set inside =
      (λ j. (constrained clamped_pixel (set j) (is_on opts.enforce_positivity) (inside j) o).im)
      ∙ constrained-real (is_on opts.enforce_positivity) o

module _ {R D L : Type 0} ⦃num : Numbers R⦄ ⦃reals : Reals R⦄ ⦃pix : PixelLibrary R⦄
    ⦃lib : SpLibrary R D⦄ ⦃blurs : SupportLibrary R D⦄ ⦃alg : AlgorithmLibrary R D⦄
    ⦃logs : LogLibrary R D L⦄ where
  -- On images of one size and with a period of the log by which the iteration has a remainder in
  -- C, when `enforce_real` is set, an iteration of the hybrid input-output algorithm returns an
  -- image whose pixels inside the support have no imaginary part, whether `enforce_positivity` is
  -- set or not.
  pub basic_hio_iteration-real :
      (sizes : KeepsSizes lib blurs alg) (exp_amp real_in support : Image R D) (opts : Options R)
      (log : L) (beta : R) (i : ℕ) (s : Complex R)
      → OneSize exp_amp real_in support
      → HasRemainder opts.cur_iteration opts.log_output_period
      → get_beta opts ≡ ok beta
      → is_on opts.enforce_real ≡ true
      → get_elem? support.pixels i ≡ some s
      → is_true s.re ≡ true
      → (out : Image R D) × (log' : L) × (p : Complex R) × (basic_hio_iteration exp_amp real_in
            support opts log
          ≡ ok (out, log'))
        × (get_elem? out.pixels i ≡ some p)
        × (p.im ≡ real_ℕ 0)
  basic_hio_iteration-real sizes exp_amp real_in support opts log beta i s one period eb set at
        inside =
      let (log', e) =
        basic_hio_iteration-zip3 sizes exp_amp real_in support opts log beta one period eb in
      let out = measured_image hio_pixel exp_amp real_in in
      let size = measured_image_size sizes hio_pixel exp_amp real_in support one in
      let h = outside_pixel is_outside (hio_outside beta) in
      let (o, b, here) =
        get_elem?-zip3
          (λ o t b.
            enforced clamped_pixel opts (outside_pixel is_outside (hio_outside beta) o t b) t)
          out.pixels support.pixels real_in.pixels i s (one.support_size ∙ sym size)
          (one.in_size ∙ sym size) at in
      (_, log', _, e, here, enforced-real opts (h o s b) s set inside)
