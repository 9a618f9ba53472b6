-- ===== src/OptionFile/Groups.antt =====
-- src/configuration.c, `write_options_file`: the loop that creates the groups ends.
use hawk.Prelude.{
  ℕ, ◌≡◌, refl, ap, ◌∙◌, List, [], ◌∷◌, Bool, true, false, if◌then◌else◌, ◌||◌, ◌&&◌, ℤ, pos,
  eq_int, ◌+ℤ◌, ◌-ℤ◌, Option, none, some, ok, out_of_fuel,
}
use hawk.Metadata.Variable.{VariableMetadata, Group, Engines}
use hawk.Metadata.Table.{variable_metadata}
use hawk.Metadata.Choices.{strings_equal, and-true}
use package.hawk.OptionFile.GroupLoop.{
  GroupLibrary, parent_name, is_root, group_parent, count_groups, under_if, top_if, add_unless,
  visit_group, pass, create_loop, create_groups, name_chars, is_plain, FindsGroups, has_group,
  by_names, is_plain_group, plain_rows,
}

module _ {C : Type 0} ⦃groups : GroupLibrary C⦄ (finds : FindsGroups groups) where
  -- The two files have the same groups at their top, and the counters are equal.
  abbrev Agrees : C × ℤ → List (List ℕ) × ℤ → Type 0
  Agrees (c, n) (names, k) =
      ((q : List ℕ) → is_plain q ≡ true → groups.lookup c q ≡ has_group names q) × (n ≡ k)

  under_if-Agrees :
      (b : Bool) (c : C) (names : List (List ℕ)) (n k : ℤ) (parent name : List ℕ)
      → is_plain parent ≡ true
      → is_plain name ≡ true
      → Agrees (c, n) (names, k)
      → Agrees (under_if b c n parent name) (under_if b names k parent name)
  under_if-Agrees true c names n k parent name pp pn (same, e) =
      ((λ q pq. finds.lookup_under c parent name q pp pn pq ∙ same q pq), ap (λ m. m -ℤ pos 1) e)
  under_if-Agrees false c names n k parent name pp pn agrees = agrees

  top_if-Agrees :
      (b : Bool) (st : C × ℤ) (ss : List (List ℕ) × ℤ) (name : List ℕ)
      → is_plain name ≡ true
      → Agrees st ss
      → Agrees (top_if b st name) (top_if b ss name)
  unfolding has_group
  top_if-Agrees true (c, n) (names, k) name pn (same, e) = (
    (λ q pq. finds.lookup_top c name q pn pq ∙ ap (λ t. strings_equal name q || t) (same q pq)),
    ap (λ m. m -ℤ pos 1) e,
  )
  top_if-Agrees false st ss name pn agrees = agrees

  add_unless-Agrees :
      (b : Bool) (c : C) (names : List (List ℕ)) (n k : ℤ) (name : List ℕ) (parent : Group)
      → is_plain name ≡ true
      → is_plain (parent_name parent) ≡ true
      → Agrees (c, n) (names, k)
      → Agrees (add_unless b c n name parent) (add_unless b names k name parent)
  add_unless-Agrees true c names n k name parent pn pp agrees = agrees
  add_unless-Agrees false c names n k name parent pn pp (same, e) =
      let found = has_group names (parent_name parent) in
      rw (same (parent_name parent) pp) (
        top_if-Agrees (is_root parent) (under_if found c n (parent_name parent) name)
          (under_if found names k (parent_name parent) name) name pn
          (under_if-Agrees found c names n k (parent_name parent) name pp pn (same, e)))

  visit_group-Agrees :
      (c : C) (names : List (List ℕ)) (n k : ℤ) (name : List ℕ) (parent : Option Group)
      → is_plain_group name parent ≡ true
      → Agrees (c, n) (names, k)
      → Agrees (visit_group c n name parent) (visit_group names k name parent)
  visit_group-Agrees c names n k name none plain agrees = agrees
  visit_group-Agrees c names n k name (some parent) plain (same, e) =
      let (pn, pp) = and-true (is_plain name) (is_plain (parent_name parent)) plain in
      rw (same name pn)
        (add_unless-Agrees (has_group names name) c names n k name parent pn pp (same, e))

  pass-Agrees :
      (rows : List VariableMetadata) (c : C) (names : List (List ℕ)) (n k : ℤ)
      → plain_rows rows ≡ true
      → Agrees (c, n) (names, k)
      → Agrees (pass rows (c, n)) (pass rows (names, k))
  unfolding pass plain_rows
  pass-Agrees [] c names n k plain agrees = agrees
  pass-Agrees (vm ∷ rows) c names n k plain agrees =
      let parent = group_parent vm.variable_type vm.parent in
      let (here, later) =
        and-true (is_plain_group vm.variable_name parent) (plain_rows rows) plain in
      let a = visit_group c n vm.variable_name parent in
      let b = visit_group names k vm.variable_name parent in
      pass-Agrees rows a.0 b.0 a.1 b.1 later
        (visit_group-Agrees c names n k vm.variable_name parent here agrees)

-- Each group of the rows is found in the file.
unfoldable pub has_groups : (List ℕ → Bool) → List VariableMetadata → Bool
has_groups found [] = true
has_groups found (vm ∷ rows) =
    let rest = has_groups found rows in
    elim (group_parent vm.variable_type vm.parent) [
      | none ↦ rest
      | some parent ↦ found vm.variable_name && rest
    ]

module _ (f g : List ℕ → Bool) (same : (q : List ℕ) → is_plain q ≡ true → f q ≡ g q) where
  group_found :
      (name : List ℕ) (parent : Option Group)
      → is_plain_group name parent ≡ true
      → (x y : Bool) → x ≡ y
      → (elim parent as (λ p. Bool) [ none ↦ x | some p ↦ f name && x ])
        ≡ (elim parent as (λ p. Bool) [ none ↦ y | some p ↦ g name && y ])
  group_found name none plain x y e = e
  group_found name (some parent) plain x y e =
      let (pn, pp) = and-true (is_plain name) (is_plain (parent_name parent)) plain in
      λ j. same name pn j && e j

  has_groups-same :
      (rows : List VariableMetadata)
      → plain_rows rows ≡ true
      → has_groups f rows ≡ has_groups g rows
  unfolding has_groups plain_rows
  has_groups-same [] plain = refl
  has_groups-same (vm ∷ rows) plain =
      let parent = group_parent vm.variable_type vm.parent in
      let (here, later) =
        and-true (is_plain_group vm.variable_name parent) (plain_rows rows) plain in
      group_found vm.variable_name parent here (has_groups f rows) (has_groups g rows)
        (has_groups-same rows later)

-- What one round leaves of a file without groups.
abbrev first_round : Engines → List (List ℕ) × ℤ
first_round engines =
    let empty : List (List ℕ) = [] in
    pass (variable_metadata engines) (empty, count_groups (variable_metadata engines))

table-count : (engines : Engines) → count_groups (variable_metadata engines) ≡ pos 6
unfolding count_groups ◌+ℤ◌
table-count engines = refl

table-plain : (engines : Engines) → plain_rows (variable_metadata engines) ≡ true
unfolding plain_rows is_plain name_chars
table-plain engines = refl

table-pass : (engines : Engines) → (first_round engines).1 ≡ pos 0
unfolding pass count_groups has_group ◌-ℤ◌ ◌+ℤ◌
table-pass engines = refl

table-has_groups :
    (engines : Engines)
    → has_groups (has_group (first_round engines).0) (variable_metadata engines) ≡ true
unfolding pass count_groups has_group has_groups ◌-ℤ◌ ◌+ℤ◌
table-has_groups engines = refl

module _ {C : Type 0} ⦃groups : GroupLibrary C⦄ where
  create_loop-round :
      (rows : List VariableMetadata) (c : C) (n : ℤ)
      → eq_int n (pos 0) ≡ false
      → (pass rows (c, n)).1 ≡ pos 0
      → create_loop 1 rows (c, n) ≡ ok (pass rows (c, n)).0
  unfolding create_loop
  create_loop-round rows c n more last =
      ap (λ t. if t then ok c else create_loop 0 rows (pass rows (c, n))) more
      ∙ ap (λ m. if eq_int m (pos 0) then ok (pass rows (c, n)).0 else out_of_fuel) last

-- On a file without groups the loop of `write_options_file` that creates the groups ends after one
-- round over the table, and then every group of the table is in the file. Among plain names, of letters
-- and underscores, libconfig finds a group at the top of a file by its name, and not one below another
-- group.
pub create_groups-ends :
    {C : Type 0} (groups : GroupLibrary C) (finds : FindsGroups groups) (engines : Engines) (c : C)
    (none_yet : (q : List ℕ) → is_plain q ≡ true → groups.lookup c q ≡ false)
    → (c' : C) × (create_groups ⦃groups = groups⦄ 1 engines c ≡ ok c')
      × (has_groups (groups.lookup c') (variable_metadata engines) ≡ true)
unfolding create_groups has_group
create_groups-ends groups finds engines c none_yet =
    let rows = variable_metadata engines in
    let n = count_groups rows in
    let plain = table-plain engines in
    let (same, counters) =
      pass-Agrees ⦃groups = groups⦄ finds rows c [] n n plain ((λ q pq. none_yet q pq), refl) in
    let more = ap (λ m. eq_int m (pos 0)) (table-count engines) in
    let c' = (pass ⦃groups = groups⦄ rows (c, n)).0 in
    (
      c',
      create_loop-round ⦃groups = groups⦄ rows c n more (counters ∙ table-pass engines),
      has_groups-same (groups.lookup c') (has_group (first_round engines).0) same rows plain
          ∙ table-has_groups engines,
    )
