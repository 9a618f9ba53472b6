-- ===== src/OptionFile/Spares.antt =====
-- src/configuration.c, `read_options_file`: the rows of the table that leave a field as it is.
use hawk.Prelude.{
  ℕ, ◌≡◌, refl, ap, List, [], ◌∷◌, Bool, true, false, not, ◌&&◌, ◌||◌, if◌then◌else◌, Option, none,
  some, Outcome, ok, aborted, undefined, out_of_fuel, ◌>>=◌, arith,
}
use hawk.Reals.{Reals}
use hawk.Metadata.Variable.{VariableMetadata}
use hawk.Metadata.Choices.{strings_equal, and-true}
use hawk.OptionFile.Path.{get_path}
use hawk.OptionFile.Listed.{not-true}
use hawk.OptionFile.RoundTrip.{every}
use hawk.OptionFile.Reading.{
  ConfigLibrary, Value, Store, Config, is_group, is_settable_before_run, assignment, update_by,
  update_at, read_value, row_update, apply_update,
}

module _ {R : Type 0} where
  -- A row is read without an error.
  abbrev pub is_read : Outcome (Option (List ℕ × Value R)) → Bool
  is_read (ok u) = true
  is_read _ = false

  abbrev other_field : List ℕ → Option (List ℕ × Value R) → Bool
  other_field field none = true
  other_field field (some (g, v)) = not (strings_equal g field)

  -- A row is read without an error, and does not write the field.
  abbrev pub is_read_elsewhere : List ℕ → Outcome (Option (List ℕ × Value R)) → Bool
  is_read_elsewhere field (ok u) = other_field field u
  is_read_elsewhere field _ = false

  pub is_read-ok :
      (m : Outcome (Option (List ℕ × Value R)))
      → is_read m ≡ true
      → (u : Option (List ℕ × Value R)) × (m ≡ ok u)
  is_read-ok (ok u) h = (u, refl)
  is_read-ok aborted h = ground arith
  is_read-ok undefined h = ground arith
  is_read-ok out_of_fuel h = ground arith

  pub is_read_elsewhere-ok :
      (field : List ℕ) (m : Outcome (Option (List ℕ × Value R)))
      → is_read_elsewhere field m ≡ true
      → (u : Option (List ℕ × Value R)) × (m ≡ ok u) × (other_field field u ≡ true)
  is_read_elsewhere-ok field (ok u) h = (u, refl, h)
  is_read_elsewhere-ok field aborted h = ground arith
  is_read_elsewhere-ok field undefined h = ground arith
  is_read_elsewhere-ok field out_of_fuel h = ground arith

  pub apply_update-other :
      (field : List ℕ) (u : Option (List ℕ × Value R)) (store : Store R)
      → other_field field u ≡ true
      → apply_update u store field ≡ store field
  apply_update-other field none store h = refl
  apply_update-other field (some (g, v)) store h =
      ap (λ t. if t then v else store field) (not-true (strings_equal g field) h)

-- The row does not have the address of the field.
abbrev is_other_address : List ℕ → Option (List ℕ) → Bool
is_other_address field none = true
is_other_address field (some g) = not (strings_equal g field)

or-false : (b : Bool) → (b || false) ≡ true → b ≡ true
or-false true h = refl
or-false false h = h

module _ {S : Type 0} where
  abbrev lacks : Option S → Bool
  lacks none = true
  lacks (some s) = false

  abbrev lacks_at : Config S → Outcome (List ℕ) → Bool
  lacks_at file (ok path) = lacks (file path)
  lacks_at file _ = false

  -- The row is about another field, or is not settable before a run, or is for an option that the
  -- file does not have.
  unfoldable pub spares : List ℕ → Config S → VariableMetadata → Bool
  unfolding is_settable_before_run get_path
  spares field file vm =
      is_other_address field vm.variable_address
      || (not (is_settable_before_run vm.variable_properties) || lacks_at file (get_path vm))

module _ {R : Type 0} where
  assigned_elsewhere :
      (field : List ℕ) (address : Option (List ℕ)) (v : Option (Value R))
      → is_other_address field address ≡ true
      → is_read (assignment address v) ≡ true
      → is_read_elsewhere field (assignment address v) ≡ true
  assigned_elsewhere field address none other h = refl
  assigned_elsewhere field none (some v) other h = h
  assigned_elsewhere field (some g) (some v) other h = other

  -- One row, from its parts: whether it is settable, its path and what is read.
  row_of :
      (field : List ℕ) (address : Option (List ℕ)) (m : Outcome (Option (Value R)))
      → is_other_address field address ≡ true
      → is_read (m >>= λ v. assignment address v) ≡ true
      → is_read_elsewhere field (m >>= λ v. assignment address v) ≡ true
  row_of field address (ok v) other h = assigned_elsewhere field address v other h
  row_of field address aborted other h = h
  row_of field address undefined other h = h
  row_of field address out_of_fuel other h = h

module _ {S : Type 0} (R : Type 0) ⦃reals : Reals R⦄ ⦃config : ConfigLibrary R S⦄
    (file : Config S) where
  setting_of :
      (field : List ℕ) (vm : VariableMetadata) (o : Option S)
      → (is_other_address field vm.variable_address || lacks o) ≡ true
      → is_read {R = R} (update_by vm o) ≡ true
      → is_read_elsewhere {R = R} field (update_by vm o) ≡ true
  setting_of field vm none h r = refl
  setting_of field vm (some s) h r =
      row_of field vm.variable_address (read_value vm.variable_type vm.choices s)
        (or-false (is_other_address field vm.variable_address) h) r

  path_of :
      (field : List ℕ) (vm : VariableMetadata) (p : Outcome (List ℕ))
      → (is_other_address field vm.variable_address || lacks_at file p) ≡ true
      → is_read {R = R} (p >>= λ path. update_at file vm path) ≡ true
      → is_read_elsewhere {R = R} field (p >>= λ path. update_at file vm path) ≡ true
  path_of field vm (ok path) h r = setting_of field vm (file path) h r
  path_of field vm aborted h r = r
  path_of field vm undefined h r = r
  path_of field vm out_of_fuel h r = r

  guard_of :
      (field : List ℕ) (vm : VariableMetadata) (group settable : Bool)
      → (is_other_address field vm.variable_address
          || (not settable || lacks_at file (get_path vm)))
        ≡ true
      → is_read {R = R} (
          if not group && settable
          then (get_path vm >>= λ path. update_at file vm path)
          else ok none)
        ≡ true
      → is_read_elsewhere {R = R} field (
          if not group && settable
          then (get_path vm >>= λ path. update_at file vm path)
          else ok none)
        ≡ true
  guard_of field vm true settable h r = refl
  guard_of field vm false false h r = refl
  guard_of field vm false true h r = path_of field vm (get_path vm) h r

  -- A row that spares the field and is read does not write it.
  row_update-spares :
      (field : List ℕ) (vm : VariableMetadata)
      → spares field file vm ≡ true
      → is_read {R = R} (row_update file vm) ≡ true
      → is_read_elsewhere {R = R} field (row_update file vm) ≡ true
  unfolding row_update spares
  row_update-spares field vm h r =
      guard_of field vm (is_group vm.variable_type) (is_settable_before_run vm.variable_properties)
        h r

  pub rows-spare :
      (field : List ℕ) (rows : List VariableMetadata)
      → every (λ vm. is_read {R = R} (row_update file vm)) rows ≡ true
      → every (spares field file) rows ≡ true
      → every (λ vm. is_read_elsewhere {R = R} field (row_update file vm)) rows ≡ true
  unfolding every
  rows-spare field [] r h = refl
  rows-spare field (vm ∷ rows) r h =
      let (read, reads) =
        and-true (is_read {R = R} (row_update file vm))
          (every (λ w. is_read {R = R} (row_update file w)) rows) r in
      let (spared, rest) = and-true (spares field file vm) (every (spares field file) rows) h in
      rw (row_update-spares field vm spared read) (rows-spare field rows reads rest)
