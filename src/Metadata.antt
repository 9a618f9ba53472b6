-- ===== src/Metadata.antt =====
-- src/metadata.c: which options make sense in the current configuration, and the values of the
-- choices of an option by name; and the table `variable_metadata`.
pub mod Choices
pub mod Variable
pub mod Table
use hawk.Prelude.{ℕ, List, [], ◌∷◌, Bool, true, false, not, ◌||◌, ◌&&◌}
use hawk.Options.{
  Options, is_phasing, is_support, hio, raar, diff_map, hpr, cflip, espresso, raar_proj, hio_proj,
  fixed, stepped, real_error_capped, real_error_adaptative, constant_area, decreasing_area,
  complex_decreasing_area, template_area,
}

-- `filename[0] == 0`
abbrev is_unset : List ℕ → Bool
is_unset [] = true
is_unset (c ∷ cs) = false

module _ {R : Type 0} (opt : Options R) where
  abbrev pub depends_on_diff_map : Bool
  depends_on_diff_map = is_phasing opt.algorithm diff_map

  abbrev pub depends_on_initial_support_from_autocorrelation : Bool
  depends_on_initial_support_from_autocorrelation = is_unset opt.init_support_filename

  abbrev pub depends_on_amplitudes_file : Bool
  depends_on_amplitudes_file = not (is_unset opt.diffraction_filename)

  abbrev pub depends_on_no_amplitudes_file : Bool
  depends_on_no_amplitudes_file = is_unset opt.diffraction_filename

  abbrev pub depends_on_no_realspace_image_file : Bool
  depends_on_no_realspace_image_file = is_unset opt.image_guess_filename

  abbrev pub depends_on_patterson_algorithm_fixed : Bool
  depends_on_patterson_algorithm_fixed =
      depends_on_initial_support_from_autocorrelation
      && is_support opt.patterson_level_algorithm fixed

  abbrev pub depends_on_patterson_algorithm_constant_area : Bool
  depends_on_patterson_algorithm_constant_area =
      depends_on_initial_support_from_autocorrelation
      && is_support opt.patterson_level_algorithm constant_area

  abbrev pub depends_on_phasing_algorithm_is_cflip : Bool
  depends_on_phasing_algorithm_is_cflip = is_phasing opt.algorithm cflip

  abbrev pub depends_on_phasing_algorithm_is_espresso : Bool
  depends_on_phasing_algorithm_is_espresso = is_phasing opt.algorithm espresso

  abbrev pub depends_on_phasing_algorithm_is_raar : Bool
  depends_on_phasing_algorithm_is_raar = is_phasing opt.algorithm raar

  abbrev pub depends_on_phasing_algorithm_with_positivity : Bool
  depends_on_phasing_algorithm_with_positivity =
      is_phasing opt.algorithm raar
      || is_phasing opt.algorithm hio
      || is_phasing opt.algorithm hpr
      || is_phasing opt.algorithm cflip
      || is_phasing opt.algorithm diff_map

  abbrev pub depends_on_phasing_algorithm_with_enforce_real : Bool
  depends_on_phasing_algorithm_with_enforce_real =
      is_phasing opt.algorithm raar
      || is_phasing opt.algorithm hio
      || is_phasing opt.algorithm hpr
      || is_phasing opt.algorithm cflip
      || is_phasing opt.algorithm diff_map

  abbrev pub depends_on_phasing_algorithm_with_beta : Bool
  depends_on_phasing_algorithm_with_beta =
      is_phasing opt.algorithm raar
      || is_phasing opt.algorithm hio
      || is_phasing opt.algorithm hpr
      || is_phasing opt.algorithm raar_proj
      || is_phasing opt.algorithm hio_proj
      || is_phasing opt.algorithm diff_map
      || is_phasing opt.algorithm espresso

  abbrev pub depends_on_phasing_algorithm_with_perturb_reflections : Bool
  depends_on_phasing_algorithm_with_perturb_reflections =
      is_phasing opt.algorithm raar || is_phasing opt.algorithm cflip

  abbrev pub depends_on_support_algorithm_with_threshold : Bool
  depends_on_support_algorithm_with_threshold =
      is_support opt.support_update_algorithm fixed
      || is_support opt.support_update_algorithm stepped

  abbrev pub depends_on_support_algorithm_with_area : Bool
  depends_on_support_algorithm_with_area =
      is_support opt.support_update_algorithm constant_area
      || is_support opt.support_update_algorithm decreasing_area
      || is_support opt.support_update_algorithm complex_decreasing_area

  abbrev pub depends_on_support_algorithm_with_template : Bool
  depends_on_support_algorithm_with_template = is_support opt.support_update_algorithm template_area

  abbrev pub depends_on_support_algorithm_with_changing_area : Bool
  depends_on_support_algorithm_with_changing_area =
      is_support opt.support_update_algorithm decreasing_area
      || is_support opt.support_update_algorithm complex_decreasing_area

  abbrev pub depends_on_support_algorithm_with_real_error_threshold : Bool
  depends_on_support_algorithm_with_real_error_threshold =
      is_support opt.support_update_algorithm real_error_adaptative
      || is_support opt.support_update_algorithm real_error_capped

  abbrev pub depends_on_support_algorithm_with_blur : Bool
  depends_on_support_algorithm_with_blur =
      not (is_support opt.support_update_algorithm template_area)
