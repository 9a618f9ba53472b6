-- ===== src/Options.antt =====
-- include/configuration.h: the options of a run. `Options` shows the fields that the modelled
-- functions read or write; a pointer that may be NULL is an `Option`, and a file name is its
-- characters before the final 0.
-- An `sp_vector` is the list of its elements. `Smap` holds what `sp_smap_get_keys` and
-- `sp_smap_get_values` return for an `sp_smap`: its keys and, in the same order, their values.
use hawk.Prelude.{ℕ, Bool, List, ℤ, Option, ◌==◌}

pub data PhasingAlgorithm : Type 0 where
  hio raar diff_map hpr cflip raar_cflip espresso haar so2d raar_proj hio_proj : PhasingAlgorithm

abbrev pub phasing_code : PhasingAlgorithm → ℕ
phasing_code hio = 0
phasing_code raar = 1
phasing_code diff_map = 2
phasing_code hpr = 3
phasing_code cflip = 4
phasing_code raar_cflip = 5
phasing_code espresso = 6
phasing_code haar = 7
phasing_code so2d = 8
phasing_code raar_proj = 9
phasing_code hio_proj = 10

pub data SupportUpdateAlgorithm : Type 0 where
  fixed static stepped real_error_capped real_error_adaptative constant_area decreasing_area
        complex_decreasing_area template_area :
      SupportUpdateAlgorithm

abbrev pub support_code : SupportUpdateAlgorithm → ℕ
support_code fixed = 0
support_code static = 1
support_code stepped = 2
support_code real_error_capped = 3
support_code real_error_adaptative = 4
support_code constant_area = 5
support_code decreasing_area = 6
support_code complex_decreasing_area = 7
support_code template_area = 8

pub data BlurReductionMethod : Type 0 where
  gaussian_blur_reduction geometrical_blur_reduction : BlurReductionMethod

-- `==` on the enumerators.
abbrev pub is_phasing : PhasingAlgorithm → PhasingAlgorithm → Bool
is_phasing a b = phasing_code a == phasing_code b

abbrev pub is_support : SupportUpdateAlgorithm → SupportUpdateAlgorithm → Bool
is_support a b = support_code a == support_code b

pub record Smap (R : Type 0) : Type 0 where
  pub keys : List R
  pub values : List R

pub record Options (R : Type 0) : Type 0 where
  pub diffraction_filename : List ℕ
  pub init_support_filename : List ℕ
  pub image_guess_filename : List ℕ
  pub algorithm : PhasingAlgorithm
  pub support_update_algorithm : SupportUpdateAlgorithm
  pub patterson_level_algorithm : SupportUpdateAlgorithm
  pub blur_radius_reduction_method : BlurReductionMethod
  pub cur_iteration : ℤ
  pub beta : R
  pub dyn_beta : R
  pub max_blur_radius : R
  pub min_blur : R
  pub iterations_to_min_blur : ℤ
  pub phases_max_blur_radius : R
  pub phases_min_blur_radius : R
  pub iterations_to_min_phases_blur : ℤ
  pub object_area : R
  pub min_object_area : R
  pub iterations_to_min_object_area : ℤ
  pub gamma1 : R
  pub gamma2 : R
  pub random_seed : ℤ
  pub automatic : ℤ
  pub new_level : R
  pub init_level : R
  pub real_error_threshold : R
  pub object_area_checkpoints : Option (List R)
  pub object_area_at_checkpoints : Option (List R)
  pub beta_checkpoints : Option (List R)
  pub beta_at_checkpoints : Option (List R)
  pub object_area_evolution : Option (Smap R)
  pub support_blur_evolution : Option (Smap R)
  pub beta_evolution : Option (Smap R)
  pub phases_blur_evolution : Option (Smap R)
  pub template_area_evolution : Option (Smap R)
  pub enforce_real : ℤ
  pub enforce_positivity : ℤ
  pub log_output_period : ℤ
  pub remove_central_pixel_phase : ℤ
  pub perturb_weak_reflections : R
  pub charge_flip_sigma : R
  pub espresso_tau : R
