-- ===== src/Metadata/Table/Second.antt =====
-- src/metadata.c, `variable_metadata`: a part of the table.
use hawk.Prelude.{List, [], ◌∷◌, pos, negsuc, some}
use hawk.Metadata.Variable.{
  VariableMetadata, row, choice_row, choice, field, always, before_run, root, type_bool,
  type_existing_filename, type_group, type_image, type_int, type_map_real, type_multiple_choice,
  type_real, type_vector_int, type_vector_real, advanced, deprecated, experimental,
  gettable_before_run, gettable_during_run, settable_before_run, settable_during_run,
  with_special_value, initial_image_group, initial_support_group, input_data_group,
  phasing_method_group, support_update_method_group,
}

abbrev pub rows_43 : List VariableMetadata
rows_43 =
    row "break_centrosym_period" type_int (some root) (deprecated ∷ always)
      (field "break_centrosym_period")
    ∷ row "reconstruction_finished" type_bool (some root)
        (gettable_before_run ∷ gettable_during_run ∷ []) (field "reconstruction_finished")
    ∷ row "real_error_tolerance" type_real (some root) (deprecated ∷ always)
        (field "real_error_tolerance")
    ∷ choice_row "max_iterations" type_int (some root) (with_special_value ∷ advanced ∷ always)
        (choice "Infinity" (pos 0) ∷ []) (field "max_iterations")
    ∷ choice_row "patterson_level_algorithm" type_multiple_choice (some root) (deprecated ∷ always)
        (choice "fixed" (pos 0)
          ∷ choice "stepped" (pos 2)
          ∷ choice "real_error_capped" (pos 3)
          ∷ choice "real_error_adaptative" (pos 4)
          ∷ choice "constant_area" (pos 5)
          ∷ choice "decreasing_area" (pos 6)
          ∷ [])
        (field "patterson_level_algorithm")
    ∷ row "object_area" type_real (some root) (deprecated ∷ always) (field "object_area")
    ∷ row "image_blur_period" type_int (some root) (deprecated ∷ always) (field "image_blur_period")
    ∷ row "image_blur_radius" type_real (some root) (deprecated ∷ always)
        (field "image_blur_radius")
    ∷ row "iterations_to_min_object_area" type_int (some root) (deprecated ∷ always)
        (field "iterations_to_min_object_area")
    ∷ row "min_object_area" type_real (some root) (deprecated ∷ always) (field "min_object_area")
    ∷ row "current_real_space_image" type_image (some root)
        (settable_during_run ∷ gettable_during_run ∷ []) (field "current_real_space_image")
    ∷ row "current_support" type_image (some root) (settable_during_run ∷ gettable_during_run ∷ [])
        (field "current_support")
    ∷ []

abbrev pub rows_55 : List VariableMetadata
rows_55 =
    row "solution_file" type_existing_filename (some input_data_group) (experimental ∷ always)
      (field "solution_filename")
    ∷ row "phases_min_blur_radius" type_real (some root) (deprecated ∷ always)
        (field "phases_min_blur_radius")
    ∷ row "phases_max_blur_radius" type_real (some root) (deprecated ∷ before_run)
        (field "phases_max_blur_radius")
    ∷ row "iterations_to_min_phases_blur" type_int (some root) (deprecated ∷ always)
        (field "iterations_to_min_phases_blur")
    ∷ row "intensities_std_dev_file" type_existing_filename (some root)
        (settable_before_run ∷ gettable_before_run ∷ deprecated ∷ [])
        (field "intensities_std_dev_filename")
    ∷ row "autocorrelation_support_file" type_existing_filename (some root)
        (settable_before_run ∷ gettable_before_run ∷ deprecated ∷ [])
        (field "autocorrelation_support_filename")
    ∷ row "filter_intensities" type_bool (some root) (deprecated ∷ always)
        (field "filter_intensities")
    ∷ row "object_area_checkpoints" type_vector_int (some root) (deprecated ∷ always)
        (field "object_area_checkpoints")
    ∷ row "object_area_at_checkpoints" type_vector_real (some root) (deprecated ∷ always)
        (field "object_area_at_checkpoints")
    ∷ row "beta_checkpoints" type_vector_int (some root) (deprecated ∷ always)
        (field "beta_checkpoints")
    ∷ row "beta_at_checkpoints" type_vector_real (some root) (deprecated ∷ always)
        (field "beta_at_checkpoints")
    ∷ []

abbrev pub rows_66 : List VariableMetadata
rows_66 =
    row "gamma1" type_real (some root) (deprecated ∷ always) (field "gamma1")
    ∷ row "gamma2" type_real (some root) (deprecated ∷ always) (field "gamma2")
    ∷ row "support_image_averaging" type_int (some root) (deprecated ∷ always)
        (field "support_image_averaging")
    ∷ choice_row "random_seed" type_int (some root) (with_special_value ∷ advanced ∷ always)
        (choice "auto" (negsuc 0) ∷ []) (field "random_seed")
    ∷ choice_row "added_noise" type_real (some input_data_group)
        (experimental ∷ with_special_value ∷ before_run) (choice "off" (pos 0) ∷ []) (field "noise")
    ∷ choice_row "beamstop_radius" type_real (some input_data_group)
        (experimental ∷ with_special_value ∷ before_run) (choice "off" (pos 0) ∷ [])
        (field "beamstop")
    ∷ row "maximum_blur_radius" type_real (some support_update_method_group)
        (advanced ∷ deprecated ∷ before_run) (field "max_blur_radius")
    ∷ row "fixed_support_mask" type_existing_filename (some support_update_method_group)
        (advanced ∷ before_run) (field "support_mask_filename")
    ∷ row "initial_support_image" type_existing_filename (some initial_support_group) (before_run)
        (field "init_support_filename")
    ∷ row "support_intensity_threshold" type_real (some support_update_method_group) (always)
        (field "new_level")
    ∷ []

abbrev pub rows_76 : List VariableMetadata
rows_76 =
    row "adapt_thres" type_bool (some phasing_method_group) (experimental ∷ always)
      (field "adapt_thres")
    ∷ row "blur" type_map_real (some support_update_method_group) (always)
        (field "support_blur_evolution")
    ∷ choice_row "blur_radius_reduction_method" type_multiple_choice
        (some support_update_method_group) (advanced ∷ deprecated ∷ always)
        (choice "gaussian" (pos 0) ∷ choice "geometrical" (pos 1) ∷ [])
        (field "blur_radius_reduction_method")
    ∷ row "minimum_blur_radius" type_real (some support_update_method_group)
        (advanced ∷ deprecated ∷ always) (field "min_blur")
    ∷ row "RAAR_sigma" type_real (some phasing_method_group) (experimental ∷ always)
        (field "exp_sigma")
    ∷ choice_row "dynamic_beta" type_real (some phasing_method_group)
        (advanced ∷ with_special_value ∷ deprecated ∷ always) (choice "off" (pos 0) ∷ [])
        (field "dyn_beta")
    ∷ row "initial_image" type_group (some root) (always) (field "dyn_beta")
    ∷ row "image_guess" type_existing_filename (some initial_image_group) (before_run)
        (field "image_guess_filename")
    ∷ choice_row "initial_phases" type_multiple_choice (some initial_image_group)
        (deprecated ∷ before_run)
        (choice "support" (pos 0) ∷ choice "zero" (pos 1) ∷ choice "random" (pos 2) ∷ [])
        (field "rand_phases")
    ∷ row "random_initial_intensities" type_bool (some initial_image_group)
        (deprecated ∷ before_run) (field "rand_intensities")
    ∷ []
