-- ===== src/Tests/Settings.antt =====
-- src/configuration.c and src/metadata.c on concrete options.
use hawk.Prelude.{map, ℕ, ◌≡◌, ◌≢◌, refl, List, [], ◌∷◌, ℤ, pos, negsuc, ok, none, All, arith}
use hawk.Options.{Options, hio, decreasing_area, fixed, gaussian_blur_reduction}
use hawk.MathParser.Table.{codes}
use hawk.Configuration.Bezier.{bezier_map_interpolation}
use hawk.Configuration.Knots.{smap_of, piecewise, bezier_map_interpolation-piecewise}
use hawk.Configuration.Checkpoints.{interpolate_on_checkpoints}
use hawk.Configuration.Bounds.{interpolate_on_checkpoints-Returns}
use hawk.Configuration.Steps.{IsExact}
use hawk.Configuration.Area.{get_object_area, at_iteration, get_object_area-stays}
use hawk.Configuration.Seed.{get_random_seed, get_random_seed-again}
use hawk.Configuration.{get_beta}
use hawk.Metadata.Choices.{
  get_list_value_from_list_name, get_list_value_from_list_name-first,
  get_list_value_from_list_name-absent,
}
use package.hawk.Tests.Instances.{int_reals}

abbrev points : List (ℤ × ℤ)
points = (pos 0, pos 9) ∷ (pos 2000, pos 5) ∷ []

-- The values of `set_defaults` where it has one, without maps; `real` values are integers here.
abbrev pub plain_options : Options ℤ
plain_options = record {
  diffraction_filename = [];
  init_support_filename = [];
  image_guess_filename = [];
  algorithm = hio;
  support_update_algorithm = decreasing_area;
  patterson_level_algorithm = fixed;
  blur_radius_reduction_method = gaussian_blur_reduction;
  cur_iteration = pos 0;
  beta = pos 9;
  dyn_beta = pos 0;
  max_blur_radius = pos 3;
  min_blur = pos 1;
  iterations_to_min_blur = pos 7000;
  phases_max_blur_radius = pos 0;
  phases_min_blur_radius = pos 0;
  iterations_to_min_phases_blur = pos 0;
  object_area = pos 8;
  min_object_area = pos 2;
  iterations_to_min_object_area = pos 100;
  gamma1 = negsuc 9999;
  gamma2 = negsuc 9999;
  random_seed = negsuc 0;
  automatic = pos 0;
  new_level = pos 2;
  init_level = pos 1;
  real_error_threshold = negsuc 0;
  object_area_checkpoints = none;
  object_area_at_checkpoints = none;
  beta_checkpoints = none;
  beta_at_checkpoints = none;
  object_area_evolution = none;
  support_blur_evolution = none;
  beta_evolution = none;
  phases_blur_evolution = none;
  template_area_evolution = none;
  enforce_real = pos 0;
  enforce_positivity = pos 0;
  log_output_period = pos 20;
  remove_central_pixel_phase = pos 0;
  perturb_weak_reflections = pos 0;
  charge_flip_sigma = pos 0;
  espresso_tau = pos 0;
}

bezier_map_interpolation-piecewise_example :
    bezier_map_interpolation (smap_of points) (pos 3000) ≡ piecewise (pos 3000) points
bezier_map_interpolation-piecewise_example = bezier_map_interpolation-piecewise (pos 3000) points

-- After the last key, the last value.
after_last_key : bezier_map_interpolation (smap_of points) (pos 3000) ≡ ok (pos 5)
unfolding bezier_map_interpolation
after_last_key = refl

int_IsExact : IsExact int_reals
int_IsExact = record {
  truncate_of_int = λ z w. refl;
  less_of_int = λ a b u v. refl;
  less_or_equal_of_int = λ a b u v. refl;
}

interpolate_on_checkpoints-Returns_example :
    (r : ℤ) × (interpolate_on_checkpoints
        (pos 7 ∷ pos 4 ∷ [])
        (map int_reals.of_int (pos 0 ∷ pos 50 ∷ []))
        (pos 20)
        1
      ≡ ok r)
interpolate_on_checkpoints-Returns_example =
    interpolate_on_checkpoints-Returns int_IsExact (pos 20) (ground arith, ground arith)
      (pos 7 ∷ pos 4 ∷ []) (pos 0) (pos 50 ∷ [])
      ((ground arith, ground arith), ((ground arith, ground arith), tt)) refl

-- At a checkpoint, its value.
at_a_checkpoint :
    interpolate_on_checkpoints (pos 7 ∷ pos 4 ∷ []) (pos 0 ∷ pos 50 ∷ []) (pos 50) 1 ≡ ok (pos 4)
unfolding interpolate_on_checkpoints
at_a_checkpoint = refl

constant_beta : get_beta plain_options ≡ ok (pos 9)
unfolding get_beta
constant_beta = refl

get_object_area-stays_example :
    get_object_area (at_iteration (pos 99) plain_options)
    ≡ get_object_area (at_iteration (pos 0) plain_options)
get_object_area-stays_example =
    get_object_area-stays plain_options 99 100 (ground arith) refl refl refl refl

get_random_seed-again_example :
    (get_random_seed (pos 43) (get_random_seed (pos 42) plain_options).1).0
    ≡ (get_random_seed (pos 42) plain_options).0
get_random_seed-again_example = get_random_seed-again (pos 42) (pos 43) plain_options refl

abbrev choice_names : List (List ℕ)
choice_names = codes "fixed" ∷ codes "static" ∷ []

abbrev choice_values : List ℤ
choice_values = pos 0 ∷ pos 1 ∷ []

fixed-differs : codes "fixed" ≢ codes "static"
fixed-differs e = ground arith

get_list_value_from_list_name-first_example :
    get_list_value_from_list_name choice_names choice_values (codes "static") ≡ ok (pos 1)
get_list_value_from_list_name-first_example =
    get_list_value_from_list_name-first (codes "fixed" ∷ []) [] choice_values (codes "static")
      (pos 1) (ground arith) (fixed-differs, tt) refl

capital-differs : All (λ n. n ≢ codes "Static") choice_names
capital-differs = ((λ e. ground arith), ((λ e. ground arith), tt))

get_list_value_from_list_name-absent_example :
    get_list_value_from_list_name choice_names choice_values (codes "Static") ≡ ok (negsuc 0)
get_list_value_from_list_name-absent_example =
    get_list_value_from_list_name-absent choice_names choice_values (codes "Static") (ground arith)
      capital-differs
