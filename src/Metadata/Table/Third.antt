-- ===== src/Metadata/Table/Third.antt =====
-- src/metadata.c, `variable_metadata`: a part of the table.
use hawk.Prelude.{List, [], ◌∷◌, pos, negsuc, some}
use hawk.Metadata.Variable.{
  VariableMetadata, row, choice_row, choice, field, always, before_run, root, type_bool,
  type_existing_filename, type_filename, type_int, type_map_real, type_multiple_choice, type_real,
  advanced, deprecated, experimental, gettable_before_run, settable_before_run, with_special_value,
  initial_image_group, initial_support_group, input_data_group, logging_group, phasing_method_group,
  support_update_method_group,
}

abbrev pub rows_86 : List VariableMetadata
rows_86 =
    choice_row "support_real_error_threshold" type_real (some support_update_method_group)
      (with_special_value ∷ experimental ∷ always) (choice "auto" (negsuc 0) ∷ [])
      (field "real_error_threshold")
    ∷ row "error_reduction_iterations_in_support_update" type_int (some support_update_method_group)
        (advanced ∷ always) (field "error_reduction_iterations_in_support_update")
    ∷ row "enforce_positivity" type_bool (some phasing_method_group) (always)
        (field "enforce_positivity")
    ∷ row "enforce_real" type_bool (some phasing_method_group) (always) (field "enforce_real")
    ∷ row "charge_flip_sigma" type_real (some phasing_method_group) (experimental ∷ always)
        (field "charge_flip_sigma")
    ∷ row "espresso_tau" type_real (some phasing_method_group) (experimental ∷ always)
        (field "espresso_tau")
    ∷ row "real_image_file" type_existing_filename (some root) (deprecated ∷ before_run)
        (field "real_image_filename")
    ∷ row "rescale_initial_image" type_bool (some initial_image_group) (experimental ∷ always)
        (field "rescale_amplitudes")
    ∷ row "remove_central_pixel_phase" type_bool (some phasing_method_group) (experimental ∷ always)
        (field "remove_central_pixel_phase")
    ∷ choice_row "perturb_weak_reflections" type_real (some phasing_method_group)
        (with_special_value ∷ always) (choice "No" (pos 0) ∷ []) (field "perturb_weak_reflections")
    ∷ []

abbrev pub rows_96 : List VariableMetadata
rows_96 =
    choice_row "autocorrelation_algorithm" type_multiple_choice (some initial_support_group)
      (always) (choice "threshold" (pos 0) ∷ choice "area" (pos 5) ∷ [])
      (field "patterson_level_algorithm")
    ∷ row "object_area" type_map_real (some support_update_method_group) (always)
        (field "object_area_evolution")
    ∷ choice_row "square_mask" type_real (some support_update_method_group)
        (advanced ∷ with_special_value ∷ always) (choice "off" (pos 0) ∷ []) (field "square_mask")
    ∷ choice_row "autocorrelation_blur_radius" type_real (some initial_support_group)
        (advanced ∷ with_special_value ∷ always) (choice "off" (pos 0) ∷ [])
        (field "patterson_blur_radius")
    ∷ choice_row "real_error_tolerance" type_real (some phasing_method_group)
        (experimental ∷ with_special_value ∷ always) (choice "off" (negsuc 0) ∷ [])
        (field "real_error_tolerance")
    ∷ choice_row "image_blur_period" type_int (some phasing_method_group)
        (advanced ∷ with_special_value ∷ always) (choice "off" (pos 0) ∷ [])
        (field "image_blur_period")
    ∷ row "image_blur_radius" type_real (some phasing_method_group) (advanced ∷ always)
        (field "image_blur_radius")
    ∷ row "iterations_to_min_object_area" type_int (some support_update_method_group)
        (deprecated ∷ always) (field "iterations_to_min_object_area")
    ∷ row "min_object_area" type_real (some support_update_method_group) (deprecated ∷ always)
        (field "min_object_area")
    ∷ row "logfile" type_filename (some root) (deprecated ∷ before_run) (field "log_file")
    ∷ []

abbrev pub rows_106 : List VariableMetadata
rows_106 =
    row "logfile" type_filename (some logging_group) (before_run) (field "log_file")
    ∷ row "output_period" type_int (some logging_group) (always) (field "output_period")
    ∷ row "log_output_period" type_int (some logging_group) (always) (field "log_output_period")
    ∷ choice_row "output_precision" type_multiple_choice (some logging_group)
        (experimental ∷ always) (choice "32" (pos 4) ∷ choice "64" (pos 8) ∷ [])
        (field "output_precision")
    ∷ row "phases_min_blur_radius" type_real (some phasing_method_group)
        (advanced ∷ deprecated ∷ always) (field "phases_min_blur_radius")
    ∷ row "phases_max_blur_radius" type_real (some phasing_method_group)
        (advanced ∷ deprecated ∷ before_run) (field "phases_max_blur_radius")
    ∷ row "phases_blur" type_map_real (some phasing_method_group) (experimental ∷ always)
        (field "phases_blur_evolution")
    ∷ row "intensities_std_dev_file" type_existing_filename (some input_data_group)
        (settable_before_run ∷ gettable_before_run ∷ experimental ∷ [])
        (field "intensities_std_dev_filename")
    ∷ row "autocorrelation_support_file" type_existing_filename (some input_data_group)
        (settable_before_run ∷ gettable_before_run ∷ experimental ∷ [])
        (field "autocorrelation_support_filename")
    ∷ row "filter_intensities" type_bool (some support_update_method_group) (advanced ∷ always)
        (field "filter_intensities")
    ∷ []

abbrev pub rows_116 : List VariableMetadata
rows_116 =
    choice_row "gamma1" type_real (some phasing_method_group) (with_special_value ∷ always)
      (choice "auto" (negsuc 9999) ∷ []) (field "gamma1")
    ∷ choice_row "gamma2" type_real (some phasing_method_group) (with_special_value ∷ always)
        (choice "auto" (negsuc 9999) ∷ []) (field "gamma2")
    ∷ choice_row "support_image_averaging" type_int (some support_update_method_group)
        (with_special_value ∷ experimental ∷ always) (choice "off" (pos 1) ∷ [])
        (field "support_image_averaging")
    ∷ row "intensities_file" type_existing_filename (some input_data_group) (before_run)
        (field "diffraction_filename")
    ∷ row "autocorrelation_threshold" type_real (some initial_support_group) (before_run)
        (field "init_level")
    ∷ row "real_image_file" type_existing_filename (some input_data_group)
        (experimental ∷ before_run) (field "real_image_filename")
    ∷ choice_row "algorithm" type_multiple_choice (some phasing_method_group) (always)
        (choice "hio" (pos 0)
          ∷ choice "raar" (pos 1)
          ∷ choice "diff_map" (pos 2)
          ∷ choice "hpr" (pos 3)
          ∷ choice "cflip" (pos 4)
          ∷ choice "raar_cflip" (pos 5)
          ∷ choice "espresso" (pos 6)
          ∷ choice "haar" (pos 7)
          ∷ choice "so2d" (pos 8)
          ∷ choice "raar_proj" (pos 9)
          ∷ choice "hio_proj" (pos 10)
          ∷ [])
        (field "algorithm")
    ∷ choice_row "algorithm" type_multiple_choice (some root) (deprecated ∷ always)
        (choice "hio" (pos 0)
          ∷ choice "raar" (pos 1)
          ∷ choice "hpr" (pos 3)
          ∷ choice "cflip" (pos 4)
          ∷ choice "raar_cflip" (pos 5)
          ∷ choice "espresso" (pos 6)
          ∷ choice "haar" (pos 7)
          ∷ choice "so2d" (pos 8)
          ∷ choice "raar_proj" (pos 9)
          ∷ choice "hio_proj" (pos 10)
          ∷ choice "diff_map" (pos 2)
          ∷ [])
        (field "algorithm")
    ∷ choice_row "support_update_algorithm" type_multiple_choice (some support_update_method_group)
        (always)
        (choice "threshold" (pos 0)
          ∷ choice "static" (pos 1)
          ∷ choice "stepped" (pos 2)
          ∷ choice "real_error_capped" (pos 3)
          ∷ choice "real_error_adaptative" (pos 4)
          ∷ choice "constant_area" (pos 5)
          ∷ choice "area" (pos 6)
          ∷ choice "complex_decreasing_area" (pos 7)
          ∷ choice "template_area" (pos 8)
          ∷ [])
        (field "support_update_algorithm")
    ∷ []
