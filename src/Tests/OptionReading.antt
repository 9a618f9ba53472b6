-- ===== src/Tests/OptionReading.antt =====
-- src/configuration.c, `read_options_file`, on a file that sets an option twice.
use hawk.Prelude.{
  ℕ, zero, suc, ◌≡◌, refl, List, [], ◌∷◌, drop, true, ℤ, pos, none, some, ok, if◌then◌else◌,
}
use hawk.MathParser.Table.{codes}
use hawk.Metadata.Variable.{
  VariableMetadata, choice_row, choice, field, always, root, type_multiple_choice, deprecated,
}
use hawk.Metadata.Table.{variable_metadata}
use hawk.Metadata.Choices.{strings_equal}
use hawk.OptionFile.{config_string}
use hawk.OptionFile.Reading.{
  ConfigLibrary, integer, Store, Config, is_settable_before_run, read_value, row_update,
  read_options_file,
}
use hawk.OptionFile.Path.{get_path}
use hawk.OptionFile.RoundTrip.{every}
use hawk.OptionFile.LastRow.{read_options_file-keeps, read_options_file-last}
use hawk.OptionFile.Spares.{is_read, spares}
use package.hawk.Tests.Instances.{int_reals}
use package.hawk.Tests.OptionFiles.{engines}

-- The settings of the file are texts.
instance abbrev text_settings : ConfigLibrary ℤ (List ℕ)
text_settings = record {
  setting_type = λ s. config_string;
  get_int = λ s. pos 0;
  get_bool = λ s. pos 0;
  get_float = λ s. pos 0;
  get_string = λ s. some s;
  setting_length = λ s. 0;
  get_elem = λ s i. none;
  int_elem = λ s i. pos 0;
  float_elem = λ s i. pos 0;
  smap_empty = record { keys = []; values = [] };
  smap_insert = λ m k v. record { keys = k ∷ m.keys; values = v ∷ m.values };
}

-- The new option asks for RAAR, the deprecated one for HPR.
unfoldable two_algorithms : Config (List ℕ)
unfolding strings_equal
two_algorithms path =
    if strings_equal path (codes "phasing_method.algorithm")
    then some (codes "raar")
    else if strings_equal path (codes "algorithm")
    then some (codes "HPR")
    else none

abbrev nothing_set : Store ℤ
nothing_set name = integer (pos 0)

abbrev first_rows : ℕ → List VariableMetadata → List VariableMetadata
first_rows zero rows = []
first_rows (suc n) [] = []
first_rows (suc n) (r ∷ rows) = r ∷ first_rows n rows

abbrev old_algorithm : VariableMetadata
old_algorithm =
    choice_row "algorithm" type_multiple_choice (some root) (deprecated ∷ always)
      (choice "hio" (pos 0)
        ∷ choice "raar" (pos 1)
        ∷ choice "hpr" (pos 3)
        ∷ choice "cflip" (pos 4)
        ∷ choice "raar_cflip" (pos 5)
        ∷ choice "espresso" (pos 6)
        ∷ choice "haar" (pos 7)
        ∷ choice "so2d" (pos 8)
        ∷ choice "raar_proj" (pos 9)
        ∷ choice "hio_proj" (pos 10)
        ∷ choice "diff_map" (pos 2)
        ∷ [])
      (field "algorithm")

rows_before :
    every
      (λ w. is_read {R = ℤ} (row_update two_algorithms w))
      (first_rows 123 (variable_metadata engines))
    ≡ true
unfolding every two_algorithms row_update
rows_before = refl

rows_later :
    every
      (λ w. is_read {R = ℤ} (row_update two_algorithms w))
      (drop 124 (variable_metadata engines))
    ≡ true
unfolding every two_algorithms row_update
rows_later = refl

later_spared :
    every (spares (codes "algorithm") two_algorithms) (drop 124 (variable_metadata engines)) ≡ true
unfolding every two_algorithms spares strings_equal
later_spared = refl

old_is_settable : is_settable_before_run old_algorithm.variable_properties ≡ true
unfolding is_settable_before_run
old_is_settable = refl

old_path : get_path old_algorithm ≡ ok (codes "algorithm")
unfolding get_path
old_path = refl

old_setting : two_algorithms (codes "algorithm") ≡ some (codes "HPR")
unfolding two_algorithms
old_setting = refl

old_value :
    read_value {R = ℤ} old_algorithm.variable_type old_algorithm.choices (codes "HPR")
    ≡ ok (some (integer (pos 3)))
unfolding read_value
old_value = refl

read_options_file-last_example :
    (store' : Store ℤ) × (read_options_file engines (some two_algorithms) nothing_set ≡ ok store')
    × (store' (codes "algorithm") ≡ integer (pos 3))
read_options_file-last_example =
    read_options_file-last two_algorithms engines (codes "algorithm") (codes "algorithm")
      (codes "HPR") (integer (pos 3)) (first_rows 123 (variable_metadata engines)) old_algorithm
      (drop 124 (variable_metadata engines)) nothing_set refl rows_before rows_later refl
      old_is_settable old_path old_setting old_value refl later_spared

all_rows :
    every (λ w. is_read {R = ℤ} (row_update two_algorithms w)) (variable_metadata engines) ≡ true
unfolding every two_algorithms row_update
all_rows = refl

beta_spared : every (spares (codes "beta") two_algorithms) (variable_metadata engines) ≡ true
unfolding every two_algorithms spares strings_equal
beta_spared = refl

read_options_file-keeps_example :
    (store' : Store ℤ) × (read_options_file engines (some two_algorithms) nothing_set ≡ ok store')
    × (store' (codes "beta") ≡ integer (pos 0))
read_options_file-keeps_example =
    read_options_file-keeps two_algorithms engines (codes "beta") nothing_set all_rows beta_spared
