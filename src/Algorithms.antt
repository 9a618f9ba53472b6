-- ===== src/Algorithms.antt =====
-- src/algorithms.c: one iteration of a phasing algorithm. This file has the steps that the
-- iterations have in common; the source writes them out in each.
-- Fourier transforms, projections, arithmetic on complex numbers and the log are parameters, in
-- `SpLibrary`, `SupportLibrary`, `PixelLibrary`, `AlgorithmLibrary` and `LogLibrary`. `L` is the log
-- and the files behind it. A read beyond the end of an image is `undefined`, and a failed assertion is
-- `aborted`. The memory is left out.
pub mod Pixels
pub mod Iterations
pub mod Raar
pub mod Flip
pub mod DifferenceMap
pub mod Projections
pub mod Pointwise
pub mod Formula
pub mod Measured
pub mod Hybrid
pub mod Solutions
pub mod Documented
pub mod Reduction
pub mod Elser
pub mod Histogram
pub mod Enforcement
pub mod Statics
pub mod Bounded
use hawk.Prelude.{
  ℕ, zero, suc, ◌%◌, ◌^◌, ◌-◌, ◌==◌, ◌&&◌, List, [], ◌∷◌, map, Bool, true, false, not,
  if◌then◌else◌, ℤ, pos, negsuc, eq_int, ◌-ℤ◌, Option, none, some, Outcome, ok, aborted, undefined,
  map_ok, ◌>>=◌, get_elem?, drop,
}
use hawk.SpImage.{Complex, cinit, Image, image_size, Numbers, SpLibrary}
use hawk.Reals.{Reals, real_ℕ, is_true, ◌⊘◌}
use hawk.Options.{Options}

pub record PixelLibrary (R : Type 0) : Type 0 where
  pub cscale : Complex R → R → Complex R
  pub csub : Complex R → Complex R → Complex R
  pub fabs : R → R
  pub sqrt : R → R

pub record AlgorithmLibrary (R D : Type 0) : Type 0 where
  -- `sp_image_rephase` with SP_ZERO_PHASE
  pub zero_phase : Image R D → Image R D
  -- `sp_proj_module`: the transform, then the amplitudes
  pub proj_module : Image R D → Image R D → Image R D
  pub proj_module_histogram : Image R D → Image R D → Image R D → Image R D

pub record LogLibrary (R D L : Type 0) : Type 0 where
  -- the amplitudes, the image before and after, the transform and the support
  pub output_to_log : Image R D → Image R D → Image R D → Image R D → Image R D → Options R → L → L

-- An `int` as a C condition.
abbrev pub is_on : ℤ → Bool
is_on n = not (eq_int n (pos 0))

abbrev remainder_opposite : ℕ → ℤ
remainder_opposite zero = pos 0
remainder_opposite (suc n) = negsuc n

-- C's `%` has the sign of the first operand. It is undefined by 0, and for INT_MIN and -1.
abbrev pub int_mod : ℤ → ℤ → Outcome ℤ
int_mod a (pos zero) = undefined
int_mod (pos m) (pos (suc n)) = ok (pos (m % suc n))
int_mod (pos m) (negsuc n) = ok (pos (m % suc n))
int_mod (negsuc m) (pos (suc n)) = ok (remainder_opposite (suc m % suc n))
int_mod (negsuc m) (negsuc zero) =
    if m == 2 ^ 31 - 1 then undefined else ok (remainder_opposite (suc m % 1))
int_mod (negsuc m) (negsuc (suc n)) = ok (remainder_opposite (suc m % suc (suc n)))

abbrev pub cons_ok : {A : Type 0} → A → Outcome (List A) → Outcome (List A)
cons_ok a rest = map_ok (◌∷◌ a) rest

-- A loop over the second list that writes it over the first.
unfoldable pub overwrite : {A : Type 0} → List A → List A → Outcome (List A)
overwrite as' [] = ok as'
overwrite [] (b ∷ bs) = undefined
overwrite (a ∷ as') (b ∷ bs) = cons_ok b (overwrite as' bs)

module _ {A B : Type 0} where
  -- A loop over the first list that writes into it and reads the second at the same index.
  unfoldable pub update : (A → B → A) → List A → List B → Outcome (List A)
  update f [] bs = ok []
  update f (a ∷ as') [] = undefined
  update f (a ∷ as') (b ∷ bs) = cons_ok (f a b) (update f as' bs)

module _ {A B C : Type 0} where
  -- The same with a third list.
  unfoldable pub update2 : (A → B → C → A) → List A → List B → List C → Outcome (List A)
  update2 f [] bs cs = ok []
  update2 f (a ∷ as') (b ∷ bs) (c ∷ cs) = cons_ok (f a b c) (update2 f as' bs cs)
  update2 f _ _ _ = undefined

abbrev pub with_pixels : {R D : Type 0} → Image R D → List (Complex R) → Image R D
with_pixels a ps = record a { pixels = ps }

module _ {R : Type 0} ⦃num : Numbers R⦄ ⦃reals : Reals R⦄ where
  -- `!sp_real(support->image->data[i])`
  abbrev pub is_outside : Complex R → Bool
  is_outside s = not (is_true s.re)

  -- `!sp_cabs(support->image->data[i])`
  abbrev pub is_dark : Complex R → Bool
  is_dark s = not (is_true (num.cabs s))

  -- The loop over the amplitudes: the pixels of the pattern at the places of the amplitudes, from
  -- the amplitude, the mask, the transform and the pixel of the pattern.
  unfoldable pub project :
      (Complex R → ℤ → Complex R → Complex R → Complex R)
      → List (Complex R)
      → List ℤ
      → List (Complex R)
      → List (Complex R)
      → Outcome (List (Complex R))
  project g [] mask fft pattern = ok pattern
  project g (e ∷ es) (m ∷ ms) (f ∷ fs) (p ∷ ps) = cons_ok (g e m f p) (project g es ms fs ps)
  project g _ _ _ _ = undefined

  -- The same loop where it changes the transform itself, at the pixels with a mask only.
  unfoldable pub project_in_place :
      (Complex R → Complex R → Complex R)
      → List (Complex R)
      → List ℤ
      → List (Complex R)
      → Outcome (List (Complex R))
  project_in_place g [] mask fft = ok fft
  project_in_place g (e ∷ es) [] fft = undefined
  project_in_place g (e ∷ es) (m ∷ ms) [] =
      let rest = project_in_place g es ms [] in if is_on m then undefined else rest
  project_in_place g (e ∷ es) (m ∷ ms) (f ∷ fs) =
      cons_ok (if is_on m then g e f else f) (project_in_place g es ms fs)

  abbrev pub unless_outside :
      Bool
      → (Complex R → Complex R → Complex R)
      → Complex R
      → Option (Complex R)
      → Outcome (Complex R)
  unless_outside false g o i = ok o
  unless_outside true g o none = undefined
  unless_outside true g o (some i) = ok (g o i)

  -- The loop over the result that treats the pixels outside the support. It reads the image before
  -- the iteration at those pixels only.
  unfoldable pub treat_outside :
      (Complex R → Bool)
      → (Complex R → Complex R → Complex R)
      → List (Complex R)
      → List (Complex R)
      → List (Complex R)
      → Outcome (List (Complex R))
  treat_outside outside g [] support before = ok []
  treat_outside outside g (o ∷ os) [] before = undefined
  treat_outside outside g (o ∷ os) (s ∷ ss) before =
      unless_outside (outside s) g o (get_elem? before 0) >>= λ p.
      cons_ok p (treat_outside outside g os ss (drop 1 before))

  -- The constraints inside the support.
  abbrev pub real_pixel : Complex R → Complex R → Complex R
  real_pixel o s = if is_true s.re then cinit o.re (real_ℕ 0) else o

  abbrev pub inside_pixel : (Complex R → Complex R) → Complex R → Complex R → Complex R
  inside_pixel f o s = if is_true s.re then f o else o

  abbrev pub enforce :
      (Complex R → Complex R)
      → Options R
      → List (Complex R)
      → List (Complex R)
      → Outcome (List (Complex R))
  enforce f opts support out = do
    out1 ← if is_on opts.enforce_real then update real_pixel out support else ok out
    if is_on opts.enforce_positivity then update (inside_pixel f) out1 support else ok out1

  module _ ⦃pix : PixelLibrary R⦄ where
    abbrev pub absolute_pixel : Complex R → Complex R
    absolute_pixel p = cinit (pix.fabs p.re) (pix.fabs p.im)

    -- `1.0/size`, and the loop that scales by it
    abbrev pub normalized : ℕ → List (Complex R) → List (Complex R)
    normalized size ps = map (λ p. pix.cscale p (real_ℕ 1 ⊘ real_ℕ size)) ps

    -- The same loop where it first asserts that the pixel is finite.
    unfoldable pub normalize_finite : ℕ → List (Complex R) → Outcome (List (Complex R))
    normalize_finite size [] = ok []
    normalize_finite size (p ∷ ps) =
        let rest = normalize_finite size ps in
        if reals.isfinite p.re && reals.isfinite p.im
        then cons_ok (pix.cscale p (real_ℕ 1 ⊘ real_ℕ size)) rest
        else aborted

  module _ {D L : Type 0} ⦃logs : LogLibrary R D L⦄ where
    -- The log is written in the last iteration of each period.
    abbrev pub log_at :
        ℤ → Image R D → Image R D → Image R D → Image R D → Image R D → Options R → L → L
    log_at place exp_amp real_in real_out fft support opts log =
        if eq_int place (opts.log_output_period -ℤ pos 1)
        then logs.output_to_log exp_amp real_in real_out fft support opts log
        else log

    abbrev pub log_period :
        Image R D → Image R D → Image R D → Image R D → Image R D → Options R → L → Outcome L
    log_period exp_amp real_in real_out fft support opts log =
        map_ok (λ place. log_at place exp_amp real_in real_out fft support opts log)
          (int_mod opts.cur_iteration opts.log_output_period)

    -- The last steps of an iteration: the constraints and the log.
    abbrev pub finish_iteration :
        (Complex R → Complex R)
        → Image R D
        → Image R D
        → Image R D
        → Image R D
        → Options R
        → L
        → Image R D
        → Outcome (Image R D × L)
    finish_iteration f exp_amp real_in fft support opts log out = do
      ps ← enforce f opts support.pixels out.pixels
      let real_out = with_pixels out ps
      log' ← log_period exp_amp real_in real_out fft support opts log
      ok (real_out, log')
