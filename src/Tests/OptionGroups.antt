-- ===== src/Tests/OptionGroups.antt =====
-- src/configuration.c, `write_options_file`: the groups of a new file.
use hawk.Prelude.{◌≡◌, refl, ℕ, List, [], ◌∷◌, true, false, ◌||◌, Bool, ok}
use hawk.Metadata.Table.{variable_metadata}
use hawk.Metadata.Choices.{strings_equal}
use hawk.OptionFile.Groups.{has_groups, create_groups-ends}
use hawk.OptionFile.GroupLoop.{GroupLibrary, FindsGroups, create_groups}
use package.hawk.Tests.OptionFiles.{engines}

abbrev found : List (List ℕ) → List ℕ → Bool
found [] q = false
found (name ∷ names) q = strings_equal name q || found names q

-- A file is the names of the groups at its top; groups below others are left out.
abbrev top_groups : GroupLibrary (List (List ℕ))
top_groups = record {
  lookup = found;
  add_top = λ names name. name ∷ names;
  add_under = λ names parent name. names;
}

top_groups-FindsGroups : FindsGroups top_groups
top_groups-FindsGroups = record {
  lookup_top = λ c name q pn pq. refl;
  lookup_under = λ c parent name q pp pn pq. refl;
}

create_groups-ends_example :
    (names : List (List ℕ)) × (create_groups ⦃groups = top_groups⦄ 1 engines [] ≡ ok names)
    × (has_groups (found names) (variable_metadata engines) ≡ true)
create_groups-ends_example =
    create_groups-ends top_groups top_groups-FindsGroups engines [] (λ q pq. refl)
