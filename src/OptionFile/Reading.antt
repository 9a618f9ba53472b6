-- ===== src/OptionFile/Reading.antt =====
-- src/configuration.c, `read_options_file`: the loop over the table.
-- The parsed file and its settings are those of libconfig, in the record `ConfigLibrary`. A lookup of
-- a value by a path is a lookup of the setting, and then its value. `global_options` is a `Store`: a
-- value for each field. A row whose address is NULL is written through NULL, which is `undefined`.
use hawk.Prelude.{
  ℕ, zero, suc, ◌+◌, List, [], ◌∷◌, Bool, true, false, if◌then◌else◌, not, ◌&&◌, ℤ, Option, none,
  some, Outcome, ok, aborted, undefined, map_ok, ◌>>=◌,
}
use hawk.Reals.{Reals}
use hawk.Options.{Smap}
use hawk.Metadata.Variable.{
  VariableMetadata, VariableType, Property, Choice, Engines, type_real, type_int, type_string,
  type_multiple_choice, type_bool, type_group, type_image, type_slice, type_vector_real,
  type_vector_int, type_existing_filename, type_filename, type_directory_name, type_map_real,
  settable_before_run,
}
use hawk.Metadata.Table.{variable_metadata}
use hawk.Metadata.Choices.{strings_equal}
use hawk.OptionFile.{ConfigType, config_int, config_float, config_bool, config_array}
use hawk.OptionFile.Path.{put_buffer, get_path}
use hawk.OptionFile.Choice.{read_choice}

-- S is a setting. `get_string` is NULL if the setting is no string.
pub record ConfigLibrary (R S : Type 0) : Type 0 where
  pub setting_type : S → ConfigType
  pub get_int : S → ℤ
  pub get_bool : S → ℤ
  pub get_float : S → R
  pub get_string : S → Option (List ℕ)
  pub setting_length : S → ℕ
  pub get_elem : S → ℕ → Option S
  pub int_elem : S → ℕ → ℤ
  pub float_elem : S → ℕ → R
  -- `sp_smap_alloc` and `sp_smap_insert` of libspimage
  pub smap_empty : Smap R
  pub smap_insert : Smap R → R → R → Smap R

-- A field of `global_options`.
pub data Value (R : Type 0) : Type 0 where
  text : List ℕ → Value R
  integer : ℤ → Value R
  number : R → Value R
  vector : List R → Value R
  evolution : Smap R → Value R

abbrev pub Store : Type 0 → Type 0
Store R = List ℕ → Value R

abbrev is_array : ConfigType → Bool
is_array config_array = true
is_array _ = false

abbrev is_float : ConfigType → Bool
is_float config_float = true
is_float _ = false

abbrev is_bool : ConfigType → Bool
is_bool config_bool = true
is_bool _ = false

-- `variable_properties & isSettableBeforeRun`
unfoldable pub is_settable_before_run : List Property → Bool
is_settable_before_run [] = false
is_settable_before_run (settable_before_run ∷ ps) = true
is_settable_before_run (_ ∷ ps) = is_settable_before_run ps

abbrev pub is_group : VariableType → Bool
is_group type_group = true
is_group _ = false

-- `n` elements from the i-th on
unfoldable pub elements : {R : Type 0} → (ℕ → R) → ℕ → ℕ → List R
elements elem zero i = []
elements elem (suc n) i = elem i ∷ elements elem n (i + 1)

-- A parsed file, by `config_lookup`.
abbrev pub Config : Type 0 → Type 0
Config S = List ℕ → Option S

module _ {R : Type 0} where
  -- `*variable_address = v`
  abbrev pub assignment : Option (List ℕ) → Option (Value R) → Outcome (Option (List ℕ × Value R))
  assignment address none = ok none
  assignment none (some v) = undefined
  assignment (some f) (some v) = ok (some (f, v))

  abbrev pub apply_update : Option (List ℕ × Value R) → Store R → Store R
  apply_update none store field = store field
  apply_update (some (g, v)) store field = if strings_equal g field then v else store field

module _ {R S : Type 0} ⦃reals : Reals R⦄ ⦃config : ConfigLibrary R S⦄ where
  -- a Type_String, or the name of a file or a directory
  abbrev read_text : S → Outcome (Option (Value R))
  read_text s = elim (config.get_string s) [
    | none ↦ undefined
    | some t ↦ map_ok (λ copied. some (text copied)) (put_buffer t)
  ]

  abbrev read_real : S → Value R
  read_real s =
      if is_float (config.setting_type s)
      then number (config.get_float s)
      else number (reals.of_int (config.get_int s))

  -- The elements are read by the type of the first.
  abbrev vector_of : S → ConfigType → Option (Value R)
  vector_of s config_float =
      some (vector (elements (config.float_elem s) (config.setting_length s) 0))
  vector_of s config_int =
      some (vector (elements (λ j. reals.of_int (config.int_elem s j)) (config.setting_length s) 0))
  vector_of s _ = none

  abbrev read_vector : S → Outcome (Option (Value R))
  read_vector s =
      if is_array (config.setting_type s)
      then elim (config.setting_length s) [
        | zero ↦ ok none
        | suc n ↦ elim (config.get_elem s 0) [
          | none ↦ undefined
          | some first ↦ ok (vector_of s (config.setting_type first))
        ]
      ]
      else ok none

  abbrev read_bool : S → Value R
  read_bool s =
      if is_bool (config.setting_type s)
      then integer (config.get_bool s)
      else integer (config.get_int s)

  -- The loop that inserts the pairs, from the i-th on.
  unfoldable pub insert_pairs : S → S → ℕ → ℕ → Smap R → Smap R
  insert_pairs keys values zero i m = m
  insert_pairs keys values (suc n) i m =
      insert_pairs keys values n (i + 1)
        (config.smap_insert m (config.float_elem keys i) (config.float_elem values i))

  abbrev map_of : S → Option S → Outcome (Option (Value R))
  map_of keys none = undefined
  map_of keys (some values) =
      ok (
        some
          (evolution (insert_pairs keys values (config.setting_length keys) 0 config.smap_empty)))

  -- The values may be missing, which is NULL, as long as there are no keys.
  abbrev pairs_of : S → Option S → Outcome (Option (Value R))
  pairs_of keys values = elim (config.setting_length keys) [
    | zero ↦ ok none
    | suc n ↦ elim (config.get_elem keys 0) [
      | none ↦ undefined
      | some first ↦ if is_float (config.setting_type first) then map_of keys values else aborted
    ]
  ]

  abbrev read_map : S → Outcome (Option (Value R))
  read_map s = elim (config.get_elem s 0) [
    | none ↦ undefined
    | some keys ↦ pairs_of keys (config.get_elem s 1)
  ]

  -- What is written to the field; `none` if nothing is.
  unfoldable pub read_value : VariableType → List Choice → S → Outcome (Option (Value R))
  unfolding put_buffer read_choice elements insert_pairs
  read_value type_string choices s = read_text s
  read_value type_filename choices s = read_text s
  read_value type_existing_filename choices s = read_text s
  read_value type_directory_name choices s = read_text s
  read_value type_int choices s = ok (some (integer (config.get_int s)))
  read_value type_real choices s = ok (some (read_real s))
  read_value type_vector_real choices s = read_vector s
  read_value type_vector_int choices s = read_vector s
  read_value type_bool choices s = ok (some (read_bool s))
  read_value type_multiple_choice choices s =
      map_ok (λ v. some (integer v)) (read_choice choices (config.get_string s))
  read_value type_map_real choices s = read_map s
  read_value type_group choices s = aborted
  read_value type_image choices s = aborted
  read_value type_slice choices s = aborted

  abbrev pub update_by : VariableMetadata → Option S → Outcome (Option (List ℕ × Value R))
  update_by vm none = ok none
  update_by vm (some s) =
      read_value vm.variable_type vm.choices s >>= λ v. assignment vm.variable_address v

  abbrev pub update_at : Config S → VariableMetadata → List ℕ → Outcome (Option (List ℕ × Value R))
  update_at file vm path = update_by vm (file path)

  -- The field that a row of the table writes, and its value.
  unfoldable pub row_update : Config S → VariableMetadata → Outcome (Option (List ℕ × Value R))
  unfolding is_settable_before_run get_path read_value
  row_update file vm =
      if not (is_group vm.variable_type) && is_settable_before_run vm.variable_properties
      then (get_path vm >>= λ path. update_at file vm path)
      else ok none

  unfoldable pub read_rows : Config S → List VariableMetadata → Store R → Outcome (Store R)
  unfolding row_update strings_equal
  read_rows file [] store = ok store
  read_rows file (vm ∷ rows) store =
      row_update file vm >>= λ u. read_rows file rows (apply_update u store)

  -- The file is `none` if libconfig cannot parse it.
  unfoldable pub read_options_file : Engines → Option (Config S) → Store R → Outcome (Store R)
  unfolding read_rows
  read_options_file engines none store = aborted
  read_options_file engines (some file) store = read_rows file (variable_metadata engines) store
