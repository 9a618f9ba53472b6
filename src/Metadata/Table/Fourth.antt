-- ===== src/Metadata/Table/Fourth.antt =====
-- src/metadata.c, `variable_metadata`: a part of the table.
use hawk.Prelude.{List, [], ◌∷◌, pos, some}
use hawk.Metadata.Variable.{
  VariableMetadata, Engines, row, choice_row, choice, field, always, before_run, root, type_bool,
  type_int, type_map_real, type_multiple_choice, type_real, type_string, advanced, deprecated,
  experimental, initial_image_group, initial_support_group, logging_group, phasing_method_group,
  support_update_method_group,
}

abbrev pub rows_125 : List VariableMetadata
rows_125 =
    choice_row "support_update_algorithm" type_multiple_choice (some root) (deprecated ∷ always)
      (choice "fixed" (pos 0)
        ∷ choice "stepped" (pos 2)
        ∷ choice "real_error_capped" (pos 3)
        ∷ choice "real_error_adaptative" (pos 4)
        ∷ choice "constant_area" (pos 5)
        ∷ choice "decreasing_area" (pos 6)
        ∷ choice "complex_decreasing_area" (pos 7)
        ∷ [])
      (field "support_update_algorithm")
    ∷ row "autocorrelation_area" type_real (some initial_support_group) (always)
        (field "autocorrelation_area")
    ∷ row "beta" type_map_real (some phasing_method_group) (always) (field "beta_evolution")
    ∷ row "innerloop_iterations" type_int (some support_update_method_group) (advanced ∷ before_run)
        (field "iterations")
    ∷ row "remote_work_directory" type_string (some logging_group) (advanced ∷ before_run)
        (field "remote_work_dir")
    ∷ row "save_remote_files" type_bool (some logging_group) (advanced ∷ before_run)
        (field "save_remote_files")
    ∷ row "template_blur_radius" type_real (some support_update_method_group) (always)
        (field "template_blur_radius")
    ∷ row "template_area" type_map_real (some support_update_method_group) (always)
        (field "template_area_evolution")
    ∷ row "debug_level" type_int (some root) (advanced ∷ before_run) (field "debug_level")
    ∷ row "max_blur_radius" type_real (some root) (deprecated ∷ before_run)
        (field "max_blur_radius")
    ∷ []

abbrev pub rows_135 : Engines → List VariableMetadata
rows_135 engines =
    row "enforce_centrosymmetry" type_bool (some phasing_method_group) (experimental ∷ always)
      (field "enforce_centrosymmetry")
    ∷ choice_row "support_closure_radius" type_int (some support_update_method_group)
        (experimental ∷ always) (choice "off" (pos 1) ∷ []) (field "support_closure_radius")
    ∷ choice_row "realspace_starting_point" type_multiple_choice (some initial_image_group)
        (before_run)
        (choice "random phases" (pos 0)
          ∷ choice "random density" (pos 1)
          ∷ choice "zero phases" (pos 2)
          ∷ choice "starting support" (pos 3)
          ∷ [])
        (field "realspace_starting_point")
    ∷ row "enforce_ramp" type_bool (some phasing_method_group) (advanced ∷ always)
        (field "enforce_ramp")
    ∷ row "center_image" type_bool (some support_update_method_group) (always)
        (field "center_image")
    ∷ choice_row "phasing_engine" type_multiple_choice (some root) (advanced ∷ before_run)
        (choice "automatic" (engines.automatic)
          ∷ choice "cpu" (engines.cpu)
          ∷ choice "cuda" (engines.cuda)
          ∷ [])
        (field "phasing_engine")
    ∷ choice_row "output_projection" type_multiple_choice (some phasing_method_group)
        (advanced ∷ always)
        (choice "project_intensities" (pos 0) ∷ choice "no_projection" (pos 1) ∷ [])
        (field "output_projection")
    ∷ []
