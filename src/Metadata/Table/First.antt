-- ===== src/Metadata/Table/First.antt =====
-- src/metadata.c, `variable_metadata`: a part of the table.
use hawk.Prelude.{List, [], ◌∷◌, pos, none, some}
use hawk.Metadata.Variable.{
  VariableMetadata, row, choice_row, choice, field, always, before_run, root, type_bool,
  type_directory_name, type_existing_filename, type_group, type_int, type_multiple_choice,
  type_real, type_string, advanced, deprecated, gettable_before_run, gettable_during_run,
  logging_group,
}

abbrev pub rows_0 : List VariableMetadata
rows_0 =
    row "ROOT" type_group none (gettable_before_run ∷ gettable_during_run ∷ [])
      (field "diffraction_filename")
    ∷ row "input_data" type_group (some root) (always) none
    ∷ row "amplitudes_file" type_existing_filename (some root) (deprecated ∷ before_run)
        (field "diffraction_filename")
    ∷ row "initial_support" type_group (some root) (always) none
    ∷ row "patterson_threshold" type_real (some root) (deprecated ∷ before_run) (field "init_level")
    ∷ row "beta" type_real (some root) (deprecated ∷ always) (field "beta")
    ∷ row "innerloop_iterations" type_int (some root) (deprecated ∷ before_run) (field "iterations")
    ∷ row "fixed_support_mask" type_existing_filename (some root) (deprecated ∷ before_run)
        (field "support_mask_filename")
    ∷ row "initial_support_image" type_existing_filename (some root) (deprecated ∷ before_run)
        (field "init_support_filename")
    ∷ row "image_guess" type_existing_filename (some root) (deprecated ∷ before_run)
        (field "image_guess_filename")
    ∷ []

abbrev pub rows_10 : List VariableMetadata
rows_10 =
    row "added_noise" type_real (some root) (deprecated ∷ before_run) (field "noise")
    ∷ row "beamstop_radius" type_real (some root) (deprecated ∷ before_run) (field "beamstop")
    ∷ row "support_intensity_threshold" type_real (some root) (deprecated ∷ always)
        (field "new_level")
    ∷ row "iterations_to_min_blur" type_int (some root) (deprecated ∷ always)
        (field "iterations_to_min_blur")
    ∷ choice_row "blur_radius_reduction_method" type_multiple_choice (some root)
        (deprecated ∷ always) (choice "gaussian" (pos 0) ∷ choice "geometrical" (pos 1) ∷ [])
        (field "blur_radius_reduction_method")
    ∷ row "minimum_blur_radius" type_real (some root) (deprecated ∷ always) (field "min_blur")
    ∷ row "logging" type_group (some root) (always) none
    ∷ row "commandline" type_string (some root) (gettable_before_run ∷ gettable_during_run ∷ [])
        (field "commandline")
    ∷ row "output_period" type_int (some root) (deprecated ∷ always) (field "output_period")
    ∷ row "log_output_period" type_int (some root) (deprecated ∷ always) (field "log_output_period")
    ∷ []

abbrev pub rows_20 : List VariableMetadata
rows_20 =
    row "phasing_method" type_group (some root) (always) none
    ∷ row "RAAR_sigma" type_real (some root) (deprecated ∷ always) (field "exp_sigma")
    ∷ row "dynamic_beta" type_real (some root) (deprecated ∷ always) (field "dyn_beta")
    ∷ row "random_initial_phases" type_bool (some root) (deprecated ∷ before_run)
        (field "rand_phases")
    ∷ row "random_initial_intensities" type_bool (some root) (deprecated ∷ before_run)
        (field "rand_intensities")
    ∷ row "cur_iteration" type_int (some root) (gettable_before_run ∷ gettable_during_run ∷ [])
        (field "cur_iteration")
    ∷ row "adapt_thres" type_bool (some root) (deprecated ∷ always) (field "adapt_thres")
    ∷ row "automatic" type_bool (some root) (deprecated ∷ always) (field "dyn_beta")
    ∷ row "work_directory" type_directory_name (some logging_group) (before_run) (field "work_dir")
    ∷ row "support_real_error_threshold" type_real (some root) (deprecated ∷ always)
        (field "real_error_threshold")
    ∷ row "support_update_method" type_group (some root) (always) none
    ∷ []

abbrev pub rows_31 : List VariableMetadata
rows_31 =
    row "output_precision" type_int (some root) (deprecated ∷ always) (field "output_precision")
    ∷ row "error_reduction_iterations_after_loop" type_int (some root) (deprecated ∷ always)
        (field "error_reduction_iterations_after_loop")
    ∷ row "enforce_positivity" type_real (some root) (deprecated ∷ always)
        (field "enforce_positivity")
    ∷ row "enforce_real" type_int (some root) (deprecated ∷ always) (field "enforce_real")
    ∷ row "genetic_optimization" type_bool (some root) (deprecated ∷ always)
        (field "genetic_optimization")
    ∷ row "charge_flip_sigma" type_real (some root) (deprecated ∷ always)
        (field "charge_flip_sigma")
    ∷ row "rescale_amplitudes" type_bool (some root) (deprecated ∷ always)
        (field "rescale_amplitudes")
    ∷ row "square_mask" type_real (some root) (deprecated ∷ always) (field "square_mask")
    ∷ row "patterson_blur_radius" type_real (some root) (deprecated ∷ always)
        (field "patterson_blur_radius")
    ∷ row "remove_central_pixel_phase" type_bool (some root) (deprecated ∷ always)
        (field "remove_central_pixel_phase")
    ∷ row "perturb_weak_reflections" type_real (some root) (deprecated ∷ always)
        (field "perturb_weak_reflections")
    ∷ row "nthreads" type_int (some root) (advanced ∷ before_run) (field "nthreads")
    ∷ []
