-- ===== src/OptionFile/LastRow.antt =====
-- src/configuration.c, `read_options_file`: which row of the table gives a field its value.
use hawk.Prelude.{
  ℕ, ◌≡◌, refl, ap, ◌∙◌, List, [], ◌∷◌, ◌++◌, true, false, if◌then◌else◌, some, ok, ◌>>=◌,
}
use hawk.Reals.{Reals}
use hawk.Metadata.Variable.{VariableMetadata, Engines}
use hawk.Metadata.Table.{variable_metadata}
use hawk.Metadata.Choices.{strings_equal_refl, and-true}
use hawk.OptionFile.Path.{get_path}
use hawk.OptionFile.RoundTrip.{every}
use hawk.OptionFile.Reading.{
  ConfigLibrary, Value, Store, Config, is_group, is_settable_before_run, read_value, row_update,
  apply_update, read_rows, read_options_file,
}
use package.hawk.OptionFile.Spares.{
  is_read, is_read_elsewhere, is_read-ok, is_read_elsewhere-ok, apply_update-other, spares,
  rows-spare,
}

module _ {R S : Type 0} ⦃reals : Reals R⦄ ⦃config : ConfigLibrary R S⦄ (file : Config S) where
  read_rows-elsewhere :
      (field : List ℕ) (rows : List VariableMetadata) (store : Store R)
      → every (λ vm. is_read_elsewhere {R = R} field (row_update file vm)) rows ≡ true
      → (store' : Store R) × (read_rows file rows store ≡ ok store') × (store' field ≡ store field)
  unfolding read_rows every
  read_rows-elsewhere field [] store h = (store, refl, refl)
  read_rows-elsewhere field (vm ∷ rows) store h =
      let (first, rest) =
        and-true (is_read_elsewhere {R = R} field (row_update file vm))
          (every (λ w. is_read_elsewhere {R = R} field (row_update file w)) rows) h in
      let (u, e, other) = is_read_elsewhere-ok field (row_update file vm) first in
      let (store', reads, same) = read_rows-elsewhere field rows (apply_update u store) rest in
      (
        store',
        ap (λ m. m >>= λ u'. read_rows file rows (apply_update u' store)) e ∙ reads,
        same ∙ apply_update-other field u store other,
      )

  read_rows-last :
      (field : List ℕ) (v : Value R) (before : List VariableMetadata) (vm : VariableMetadata)
      (later : List VariableMetadata) (store : Store R)
      → every (λ w. is_read {R = R} (row_update file w)) before ≡ true
      → row_update file vm ≡ ok (some (field, v))
      → every (λ w. is_read_elsewhere {R = R} field (row_update file w)) later ≡ true
      → (store' : Store R) × (read_rows file (before ++ vm ∷ later) store ≡ ok store')
        × (store' field ≡ v)
  unfolding read_rows every
  read_rows-last field v [] vm later store hb e hl =
      let (store', reads, same) =
        read_rows-elsewhere field later (apply_update (some (field, v)) store) hl in
      let written = ap (λ t. if t then v else store field) (strings_equal_refl field) in
      (
        store',
        ap (λ m. m >>= λ u. read_rows file later (apply_update u store)) e ∙ reads,
        same ∙ written,
      )
  read_rows-last field v (w ∷ before) vm later store hb e hl =
      let (first, rest) =
        and-true (is_read {R = R} (row_update file w))
          (every (λ x. is_read {R = R} (row_update file x)) before) hb in
      let (u, eu) = is_read-ok (row_update file w) first in
      let (store', reads, same) =
        read_rows-last field v before vm later (apply_update u store) rest e hl in
      (
        store',
        ap (λ m. m >>= λ u'. read_rows file (before ++ vm ∷ later) (apply_update u' store)) eu
            ∙ reads,
        same,
      )

module _ {R S : Type 0} ⦃reals : Reals R⦄ ⦃config : ConfigLibrary R S⦄ (file : Config S) where
  -- A file whose rows are all read without an error leaves a field as it was, when every row of the
  -- table with the address of the field is not settable before a run, or is for an option that the
  -- file does not have.
  pub read_options_file-keeps :
      (engines : Engines) (field : List ℕ) (store : Store R)
      → every (λ vm. is_read {R = R} (row_update file vm)) (variable_metadata engines) ≡ true
      → every (spares field file) (variable_metadata engines) ≡ true
      → (store' : Store R) × (read_options_file engines (some file) store ≡ ok store')
        × (store' field ≡ store field)
  unfolding read_options_file
  read_options_file-keeps engines field store r h =
      read_rows-elsewhere file field (variable_metadata engines) store
        (rows-spare R file field (variable_metadata engines) r h)

  row_update-written :
      (vm : VariableMetadata) (path field : List ℕ) (s : S) (v : Value R)
      → is_group vm.variable_type ≡ false
      → is_settable_before_run vm.variable_properties ≡ true
      → get_path vm ≡ ok path
      → file path ≡ some s
      → read_value vm.variable_type vm.choices s ≡ ok (some v)
      → vm.variable_address ≡ some field
      → row_update file vm ≡ ok (some (field, v))
  unfolding row_update
  row_update-written vm path field s v group settable at has reads address =
      rw (group, settable, at, has, reads, address) refl

  -- When a file sets a field by several rows of the table, a new and a deprecated option, the field
  -- gets the value of the last of them. This row is no group and settable before a run, the file has a
  -- setting at its path, `read_value` reads `v` from it, and its address is the field. Every row behind
  -- it has another address, or is not settable before a run, or is for an option that the file does not
  -- have. If these rows and those before are read without an error, `read_options_file` returns with
  -- `v` in the field.
  pub read_options_file-last :
      (engines : Engines) (field path : List ℕ) (s : S) (v : Value R)
      (before : List VariableMetadata) (vm : VariableMetadata) (later : List VariableMetadata)
      (store : Store R)
      → variable_metadata engines ≡ before ++ vm ∷ later
      → every (λ w. is_read {R = R} (row_update file w)) before ≡ true
      → every (λ w. is_read {R = R} (row_update file w)) later ≡ true
      → is_group vm.variable_type ≡ false
      → is_settable_before_run vm.variable_properties ≡ true
      → get_path vm ≡ ok path
      → file path ≡ some s
      → read_value vm.variable_type vm.choices s ≡ ok (some v)
      → vm.variable_address ≡ some field
      → every (spares field file) later ≡ true
      → (store' : Store R) × (read_options_file engines (some file) store ≡ ok store')
        × (store' field ≡ v)
  unfolding read_options_file
  read_options_file-last engines field path s v before vm later store table hb hl group settable at
        has reads address spared =
      let e = row_update-written vm path field s v group settable at has reads address in
      let (store', done, same) =
        read_rows-last file field v before vm later store hb e
          (rows-spare R file field later hl spared) in
      (store', ap (λ rows. read_rows file rows store) table ∙ done, same)
