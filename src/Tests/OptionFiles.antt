-- ===== src/Tests/OptionFiles.antt =====
-- src/metadata.c and src/configuration.c: rows of the table, and their names in an option file.
use hawk.Prelude.{◌≢◌, arith, ℕ, ◌≡◌, refl, List, [], ◌∷◌, ◌++◌, pos, some, ok, aborted}
use hawk.MathParser.Table.{codes}
use hawk.Metadata.Variable.{
  VariableMetadata, Engines, row, choice_row, choice, field, always, root, phasing_method_group,
  type_multiple_choice, type_map_real, type_real, deprecated, advanced,
}
use hawk.OptionFile.Path.{get_path, prefix}
use hawk.OptionFile.Choice.{read_choice, write_choice}
use hawk.OptionFile.RoundTrip.{write_choice-roundtrip, get_path-table, get_path-distinct}

abbrev pub engines : Engines
engines = record { automatic = pos 0; cpu = pos 1; cuda = pos 2 }

abbrev output_projection : VariableMetadata
output_projection =
    choice_row "output_projection" type_multiple_choice (some phasing_method_group)
      (advanced ∷ always)
      (choice "project_intensities" (pos 0) ∷ choice "no_projection" (pos 1) ∷ [])
      (field "output_projection")

abbrev beta : VariableMetadata
beta = row "beta" type_map_real (some phasing_method_group) always (field "beta_evolution")

abbrev old_beta : VariableMetadata
old_beta = row "beta" type_real (some root) (deprecated ∷ always) (field "beta")

-- The case of a name in a file does not matter.
upper_case : read_choice output_projection.choices (some (codes "No_Projection")) ≡ ok (pos 1)
unfolding read_choice
upper_case = refl

unknown_name : read_choice output_projection.choices (some (codes "both")) ≡ aborted
unfolding read_choice
unknown_name = refl

beta_path : get_path beta ≡ ok (codes "phasing_method.beta")
unfolding get_path
beta_path = refl

write_choice-roundtrip_example :
    (name : List ℕ) × (write_choice output_projection.choices (pos 1) ≡ ok name)
    × (read_choice output_projection.choices (some name) ≡ ok (pos 1))
write_choice-roundtrip_example =
    write_choice-roundtrip engines 141 1 output_projection (choice "no_projection" (pos 1)) refl
      refl refl

get_path-table_example :
    get_path output_projection ≡ ok (prefix phasing_method_group ++ codes "output_projection")
get_path-table_example = get_path-table engines 141 output_projection phasing_method_group refl refl

places_differ : ◌≢◌ {A = ℕ} 127 5
places_differ h = ground arith

get_path-distinct_example : get_path old_beta ≢ ok (codes "phasing_method.beta")
get_path-distinct_example =
    get_path-distinct engines 127 5 beta old_beta (codes "phasing_method.beta") places_differ refl
      refl beta_path
