-- ===== src/OptionFile/GroupLoop.antt =====
-- src/configuration.c, `write_options_file`: the loop that creates the groups of the file.
-- `lookup` is `config_lookup` of a name; `add_top` adds a group to the root of the file and `add_under`
-- to the setting with the name. A row with Id_Root is the one without a parent.
use Prim.Native.Nat.{suc, zero}
use hawk.Prelude.{
  ℕ, ◌≡◌, List, [], ◌∷◌, Bool, true, false, if◌then◌else◌, ◌||◌, ◌&&◌, leb, ◌==◌, ℤ, pos, eq_int,
  ◌+ℤ◌, ◌-ℤ◌, Option, none, some, Outcome, ok, out_of_fuel,
}
use hawk.MathParser.Table.{codes}
use hawk.Metadata.Variable.{VariableMetadata, VariableType, type_group, Group, root, group, Engines}
use hawk.Metadata.Table.{variable_metadata}
use hawk.Metadata.Choices.{strings_equal}

pub record GroupLibrary (C : Type 0) : Type 0 where
  pub lookup : C → List ℕ → Bool
  pub add_top : C → List ℕ → C
  pub add_under : C → List ℕ → List ℕ → C

-- `variable_metadata[i].parent->variable_name`
abbrev pub parent_name : Group → List ℕ
parent_name root = codes "ROOT"
parent_name (group name parent) = name

abbrev pub is_root : Group → Bool
is_root root = true
is_root (group name parent) = false

-- The parent of a row that is a group and not the root.
abbrev pub group_parent : VariableType → Option Group → Option Group
group_parent type_group parent = parent
group_parent _ parent = none

unfoldable pub count_groups : List VariableMetadata → ℤ
count_groups [] = pos 0
count_groups (vm ∷ rows) =
    let n = count_groups rows in
    elim (group_parent vm.variable_type vm.parent) [ none ↦ n | some parent ↦ n +ℤ pos 1 ]

module _ {C : Type 0} ⦃groups : GroupLibrary C⦄ where
  -- `n` is `n_groups`.
  abbrev pub under_if : Bool → C → ℤ → List ℕ → List ℕ → C × ℤ
  under_if true c n parent name = (groups.add_under c parent name, n -ℤ pos 1)
  under_if false c n parent name = (c, n)

  abbrev pub top_if : Bool → C × ℤ → List ℕ → C × ℤ
  top_if true (c, n) name = (groups.add_top c name, n -ℤ pos 1)
  top_if false (c, n) name = (c, n)

  abbrev pub add_unless : Bool → C → ℤ → List ℕ → Group → C × ℤ
  add_unless true c n name parent = (c, n)
  add_unless false c n name parent =
      top_if (is_root parent)
        (under_if (groups.lookup c (parent_name parent)) c n (parent_name parent) name) name

  abbrev pub visit_group : C → ℤ → List ℕ → Option Group → C × ℤ
  visit_group c n name none = (c, n)
  visit_group c n name (some parent) = add_unless (groups.lookup c name) c n name parent

  unfoldable pub pass : List VariableMetadata → C × ℤ → C × ℤ
  pass [] st = st
  pass (vm ∷ rows) (c, n) =
      pass rows (visit_group c n vm.variable_name (group_parent vm.variable_type vm.parent))

  -- The loop `while(n_groups)`; each round takes one unit of fuel.
  unfoldable pub create_loop : ℕ → List VariableMetadata → C × ℤ → Outcome C
  unfolding pass
  create_loop zero rows (c, n) = if eq_int n (pos 0) then ok c else out_of_fuel
  create_loop (suc fuel) rows (c, n) =
      let rest = create_loop fuel rows (pass rows (c, n)) in if eq_int n (pos 0) then ok c else rest

  unfoldable pub create_groups : ℕ → Engines → C → Outcome C
  unfolding create_loop count_groups
  create_groups fuel engines c =
      create_loop fuel (variable_metadata engines) (c, count_groups (variable_metadata engines))

-- A name without a separator of libconfig's paths: letters and underscores, at least one.
abbrev is_name_char : ℕ → Bool
is_name_char c = leb b'a' c && leb c b'z' || leb b'A' c && leb c b'Z' || c == b'_'

unfoldable pub name_chars : List ℕ → Bool
name_chars [] = true
name_chars (c ∷ cs) = is_name_char c && name_chars cs

unfoldable pub is_plain : List ℕ → Bool
unfolding name_chars
is_plain [] = false
is_plain (c ∷ cs) = is_name_char c && name_chars cs

-- What libconfig does with plain names: one is the path of a setting at the top of the file, so a group
-- at the top is found by its name, and one below another is not.
pub record FindsGroups {C : Type 0} (groups : GroupLibrary C) : Type 0 where
  pub lookup_top :
      (c : C) (name q : List ℕ)
      → is_plain name ≡ true
      → is_plain q ≡ true
      → groups.lookup (groups.add_top c name) q ≡ (strings_equal name q || groups.lookup c q)
  pub lookup_under :
      (c : C) (parent name q : List ℕ)
      → is_plain parent ≡ true
      → is_plain name ≡ true
      → is_plain q ≡ true
      → groups.lookup (groups.add_under c parent name) q ≡ groups.lookup c q

-- A file by the names of the groups at its top.
unfoldable pub has_group : List (List ℕ) → List ℕ → Bool
unfolding strings_equal
has_group [] q = false
has_group (name ∷ names) q = strings_equal name q || has_group names q

instance abbrev pub by_names : GroupLibrary (List (List ℕ))
by_names = record {
  lookup = has_group;
  add_top = λ names name. name ∷ names;
  add_under = λ names parent name. names;
}

-- The names of the groups and of their parents are plain.
abbrev pub is_plain_group : List ℕ → Option Group → Bool
is_plain_group name none = true
is_plain_group name (some parent) = is_plain name && is_plain (parent_name parent)

unfoldable pub plain_rows : List VariableMetadata → Bool
plain_rows [] = true
plain_rows (vm ∷ rows) =
    is_plain_group vm.variable_name (group_parent vm.variable_type vm.parent) && plain_rows rows
