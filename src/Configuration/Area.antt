-- ===== src/Configuration/Area.antt =====
-- src/configuration.c, `get_object_area`: the part of the image that the support takes.
use native.Mathlib.Nat.{div-eq_of_lt}
use hawk.Prelude.{
  ◌^◌, ◌-◌, ◌==◌, ◌≡◌, ◌<◌, ◌∙◌, ◌+◌, refl, sym, ltb, false, arith, ℕ, suc, ◌/◌, List,
  if◌then◌else◌, ℤ, pos, negsuc, lt_int, Option, none, some, Outcome, ok, aborted, undefined, ◌>>=◌,
  zero,
}
use hawk.Reals.{Reals, real_ℕ, ◌⊕◌, ◌⊖◌, ◌⊗◌}
use hawk.Options.{Options, SupportUpdateAlgorithm, constant_area, decreasing_area, Smap}
use hawk.Configuration.Bezier.{bezier_map_interpolation}
use hawk.Configuration.Checkpoints.{interpolate_on_checkpoints}

-- C's division of two `int`: towards 0, and undefined by 0 and for INT_MIN and -1.
abbrev opposite : ℕ → ℤ
opposite zero = pos 0
opposite (suc n) = negsuc n

abbrev pub int_div : ℤ → ℤ → Outcome ℤ
int_div a (pos zero) = undefined
int_div (pos m) (pos (suc n)) = ok (pos (m / suc n))
int_div (pos m) (negsuc n) = ok (opposite (m / suc n))
int_div (negsuc m) (pos (suc n)) = ok (opposite (suc m / suc n))
int_div (negsuc m) (negsuc zero) = if m == 2 ^ 31 - 1 then undefined else ok (pos (suc m / 1))
int_div (negsuc m) (negsuc (suc n)) = ok (pos (suc m / suc (suc n)))

module _ {R : Type 0} ⦃reals : Reals R⦄ where
  -- `(object_area-min_object_area)*exp(-a)+min_object_area`, where `a` is `(3.0*f)*(3.0*f)*0.5`.
  abbrev pub area_at : Options R → R → R
  area_at opts f =
      let g : R = real_ℕ 3 ⊗ f in
      (opts.object_area ⊖ opts.min_object_area)
        ⊗ reals.exp (reals.negate (g ⊗ g ⊗ reals.decimal 5 1))
      ⊕ opts.min_object_area

  abbrev decreasing : Options R → Outcome R
  decreasing opts =
      if lt_int opts.iterations_to_min_object_area opts.cur_iteration
      then ok opts.min_object_area
      else do
        f ← int_div opts.cur_iteration opts.iterations_to_min_object_area
        ok (area_at opts (reals.of_int f))

  abbrev area_by_algorithm : SupportUpdateAlgorithm → Options R → Outcome R
  area_by_algorithm constant_area opts = ok opts.object_area
  area_by_algorithm decreasing_area opts = decreasing opts
  area_by_algorithm _ opts = ok (reals.of_int (negsuc 0))

  abbrev area_on_checkpoints : Options R → Option (List R) → Option (List R) → Outcome R
  area_on_checkpoints opts none values = area_by_algorithm opts.support_update_algorithm opts
  area_on_checkpoints opts (some checkpoints) none = aborted
  area_on_checkpoints opts (some checkpoints) (some values) =
      interpolate_on_checkpoints values checkpoints opts.cur_iteration 1

  abbrev area_by_evolution : Options R → Option (Smap R) → Outcome R
  area_by_evolution opts (some map) = bezier_map_interpolation map (reals.of_int opts.cur_iteration)
  area_by_evolution opts none =
      area_on_checkpoints opts opts.object_area_checkpoints opts.object_area_at_checkpoints

  unfoldable pub get_object_area : Options R → Outcome R
  get_object_area opts = area_by_evolution opts opts.object_area_evolution

  abbrev pub at_iteration : ℤ → Options R → Options R
  at_iteration i opts = record opts { cur_iteration = i }

  area_of_algorithm :
      (opts : Options R)
      → opts.object_area_evolution ≡ none
      → opts.object_area_checkpoints ≡ none
      → opts.support_update_algorithm ≡ decreasing_area
      → get_object_area opts ≡ decreasing opts
  unfolding get_object_area
  area_of_algorithm opts e c a = rw (e, c, a)

  decreasing-first :
      (opts : Options R) (i n : ℕ)
      → i < n
      → opts.cur_iteration ≡ pos i
      → opts.iterations_to_min_object_area ≡ pos n
      → decreasing opts ≡ ok (area_at opts (real_ℕ 0))
  decreasing-first opts i zero h c m = absurd (omega arith)
  decreasing-first opts i (suc n) h c m =
      let early : ltb (suc n + 0) (i + 0) ≡ false = ground arith in rw (c, m, early, div-eq_of_lt h)

  -- Without a map and checkpoints, an area that decreases over n iterations is the same in all
  -- iterations before the n-th: the quotient of the two numbers of iterations is one of integers.
  pub get_object_area-stays :
      (opts : Options R) (i n : ℕ)
      → i < n
      → opts.object_area_evolution ≡ none
      → opts.object_area_checkpoints ≡ none
      → opts.support_update_algorithm ≡ decreasing_area
      → opts.iterations_to_min_object_area ≡ pos n
      → get_object_area (at_iteration (pos i) opts) ≡ get_object_area (at_iteration (pos 0) opts)
  get_object_area-stays opts i n h e c a m =
      area_of_algorithm (at_iteration (pos i) opts) e c a
      ∙ decreasing-first (at_iteration (pos i) opts) i n h refl m
      ∙ sym (
          area_of_algorithm (at_iteration (pos 0) opts) e c a
          ∙ decreasing-first (at_iteration (pos 0) opts) 0 n (omega arith) refl m)
