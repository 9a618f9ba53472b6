-- ===== src/Configuration.antt =====
-- src/configuration.c: the parameters of a run as functions of the iteration.
-- `hawk_fatal` ends the program: `aborted`. An element outside of a list is `undefined`. Each
-- function reads the options and leaves them alone, but for `get_random_seed`, which returns them.
pub mod Bezier
pub mod Checkpoints
pub mod Area
pub mod Seed
pub mod Bounds
pub mod Steps
pub mod Knots
use hawk.Prelude.{
  ℕ, List, [], ◌∷◌, Bool, true, false, ◌==◌, if◌then◌else◌, ℤ, pos, negsuc, eq_int, lt_int, Option,
  none, some, Outcome, ok, aborted, undefined, map_ok,
}
use hawk.Reals.{Reals, real_ℕ, is_true, ◌⊕◌, ◌⊖◌, ◌⊗◌, ◌⊘◌}
use hawk.Options.{
  Options, Smap, BlurReductionMethod, gaussian_blur_reduction, geometrical_blur_reduction,
}
use Bezier.{bezier_map_interpolation}
use Checkpoints.{interpolate_on_checkpoints}

module _ {R : Type 0} ⦃reals : Reals R⦄ where
  -- `(3.0*i/n)*(3.0*i/n)*0.5`
  abbrev half_square : ℤ → ℤ → R
  half_square i n =
      let q : R = real_ℕ 3 ⊗ reals.of_int i ⊘ reals.of_int n in q ⊗ q ⊗ reals.decimal 5 1

  -- `(high-low)*exp(-a)+low`
  abbrev pub decay : R → R → R → R
  decay high low a = (high ⊖ low) ⊗ reals.exp (reals.negate a) ⊕ low

  -- The end of `get_beta`, without maps.
  abbrev dynamic_beta : Options R → R
  dynamic_beta opts =
      let beta0 : R = reals.decimal 75 2 in
      let n = reals.of_int opts.cur_iteration in
      if is_true opts.dyn_beta
      then beta0
        ⊕ (opts.beta ⊖ beta0)
          ⊗ (real_ℕ 1 ⊖ reals.exp (reals.negate (reals.pow (n ⊘ opts.dyn_beta) (real_ℕ 3))))
      else opts.beta

  abbrev beta_on_checkpoints : Options R → Option (List R) → Option (List R) → Outcome R
  beta_on_checkpoints opts none values = ok (dynamic_beta opts)
  beta_on_checkpoints opts (some checkpoints) none = aborted
  beta_on_checkpoints opts (some checkpoints) (some values) =
      interpolate_on_checkpoints values checkpoints opts.cur_iteration 1

  -- `if(map) return bezier_map_interpolation(map,opts->cur_iteration);`
  abbrev pub by_evolution : Option (Smap R) → ℤ → Outcome R → Outcome R
  by_evolution (some map) cur m = bezier_map_interpolation map (reals.of_int cur)
  by_evolution none cur m = m

  unfoldable pub get_beta : Options R → Outcome R
  get_beta opts =
      by_evolution opts.beta_evolution opts.cur_iteration
        (beta_on_checkpoints opts opts.beta_checkpoints opts.beta_at_checkpoints)

  abbrev reduced_blur : BlurReductionMethod → Options R → R
  reduced_blur gaussian_blur_reduction opts =
      decay opts.max_blur_radius opts.min_blur
        (half_square opts.cur_iteration opts.iterations_to_min_blur)
  reduced_blur geometrical_blur_reduction opts =
      opts.max_blur_radius
      ⊗ reals.pow
          (reals.exp (
            reals.log (opts.min_blur ⊘ opts.max_blur_radius)
            ⊘ reals.of_int opts.iterations_to_min_blur))
          (reals.of_int opts.cur_iteration)

  unfoldable pub get_blur_radius : Options R → Outcome R
  get_blur_radius opts =
      by_evolution opts.support_blur_evolution opts.cur_iteration
        (ok (reduced_blur opts.blur_radius_reduction_method opts))

  unfoldable pub get_phases_blur_radius : Options R → Outcome R
  get_phases_blur_radius opts = by_evolution opts.phases_blur_evolution opts.cur_iteration (
      ok (
        if eq_int opts.iterations_to_min_phases_blur (pos 0)
        then real_ℕ 0
        else decay opts.phases_max_blur_radius opts.phases_min_blur_radius
            (half_square opts.cur_iteration opts.iterations_to_min_phases_blur)))

  unfoldable pub get_template_area : Options R → Outcome R
  get_template_area opts =
      by_evolution opts.template_area_evolution opts.cur_iteration (ok (real_ℕ 0))

  abbrev unset_gamma : R
  unset_gamma = reals.of_int (negsuc 9999)

  -- `-(4+(2+beta)*sigma + beta*sigma*sigma)/(beta*(4-sigma+sigma*sigma))`, with `sigma` 0.1
  abbrev optimal_gamma1 : R → R
  optimal_gamma1 beta =
      let sigma : R =
        if reals.less (reals.decimal 5 1) (reals.decimal 1 1)
        then reals.decimal 5 1
        else reals.decimal 1 1 in
      reals.negate (real_ℕ 4 ⊕ (real_ℕ 2 ⊕ beta) ⊗ sigma ⊕ beta ⊗ sigma ⊗ sigma)
      ⊘ (beta ⊗ (real_ℕ 4 ⊖ sigma ⊕ sigma ⊗ sigma))

  abbrev optimal_gamma2 : R → R
  optimal_gamma2 beta = (real_ℕ 3 ⊖ beta) ⊘ (real_ℕ 2 ⊗ beta)

  unfoldable pub get_gamma1 : Options R → Outcome R
  unfolding get_beta
  get_gamma1 opts =
      if reals.equal opts.gamma1 unset_gamma
      then map_ok optimal_gamma1 (get_beta opts)
      else ok opts.gamma1

  unfoldable pub get_gamma2 : Options R → Outcome R
  unfolding get_beta
  get_gamma2 opts =
      if reals.equal opts.gamma2 unset_gamma
      then map_ok optimal_gamma2 (get_beta opts)
      else ok opts.gamma2
