-- ===== src/OptionFile/RoundTrip.antt =====
-- src/metadata.c and src/configuration.c: what the functions on option files do on the rows of the
-- table `variable_metadata`.
use hawk.Prelude.{
  ◌≡◌, refl, sym, ap, ◌∙◌, ◌≢◌, ℕ, zero, suc, List, [], ◌∷◌, ◌++◌, map, Bool, true, false, not,
  ◌&&◌, ltb, ltb→lt, Option, some, none, Outcome, ok, get_elem?, length, if◌then◌else◌, arith,
}
use mathlib.Core.Option.{some-injective}
use hawk.Metadata.Variable.{
  Group, VariableMetadata, Choice, VariableType, type_multiple_choice, Engines,
}
use hawk.Metadata.Table.{variable_metadata}
use hawk.Metadata.Choices.{strings_equal, strings_equal_refl, and-true}
use hawk.OptionFile.Path.{option_string_size, get_path, get_path-prefix, prefix, put_buffer-fits}
use hawk.OptionFile.Choice.{read_choice, write_choice}
use hawk.OptionFile.Listed.{are_listed, are_listed-Readable, is_usable-lower, is_usable-fits}

abbrev is_multiple_choice : VariableType → Bool
is_multiple_choice type_multiple_choice = true
is_multiple_choice _ = false

abbrev is_readable : VariableMetadata → Bool
is_readable vm = if is_multiple_choice vm.variable_type then are_listed vm.choices else true

module _ {A : Type 0} (test : A → Bool) where
  unfoldable pub every : List A → Bool
  every [] = true
  every (a ∷ as') = test a && every as'

  pub every-elem :
      (as' : List A) (i : ℕ) (a : A) → every as' ≡ true → get_elem? as' i ≡ some a → test a ≡ true
  unfolding every
  every-elem [] i a h e = ground arith
  every-elem (b ∷ as') zero a h e =
      let (first, rest) = and-true (test b) (every as') h in
      ap test (sym (some-injective b a e)) ∙ first
  every-elem (b ∷ as') (suc i) a h e =
      let (first, rest) = and-true (test b) (every as') h in every-elem as' i a rest e

table-readable : (engines : Engines) → every is_readable (variable_metadata engines) ≡ true
unfolding every are_listed
table-readable engines = refl

-- Every value of every multiple choice of the table can be written, and the name that is written
-- for it is read back as the same value.
pub write_choice-roundtrip :
    (engines : Engines) (i k : ℕ) (vm : VariableMetadata) (c : Choice)
    → get_elem? (variable_metadata engines) i ≡ some vm
    → vm.variable_type ≡ type_multiple_choice
    → get_elem? vm.choices k ≡ some c
    → (name : List ℕ) × (write_choice vm.choices c.value ≡ ok name)
      × (read_choice vm.choices (some name) ≡ ok c.value)
unfolding read_choice
write_choice-roundtrip engines i k vm c at type e =
    let readable =
      every-elem is_readable (variable_metadata engines) i vm (table-readable engines) at in
    let listed : are_listed vm.choices ≡ true =
      sym (ap (λ t. if is_multiple_choice t then are_listed vm.choices else true) type)
      ∙ readable in
    let (name, (writes, finds, usable, present)) = are_listed-Readable vm.choices k c listed e in
    let fits = put_buffer-fits name (is_usable-fits name usable) in
    (name, writes, rw (fits, is_usable-lower name usable) finds)

-- whether the path of an option fits into the buffers
abbrev path_fits : List ℕ → Option Group → Bool
path_fits name none = true
path_fits name (some parent) = ltb (length (prefix parent ++ name)) option_string_size

abbrev has_path : VariableMetadata → Bool
has_path vm = path_fits vm.variable_name vm.parent

table-has_path : (engines : Engines) → every has_path (variable_metadata engines) ≡ true
unfolding every
table-has_path engines = refl

-- Every option of the table but the root has a path, which fits into the buffers: the names of the
-- groups around it, from the outermost on, each followed by a dot, and then its own name.
pub get_path-table :
    (engines : Engines) (i : ℕ) (vm : VariableMetadata) (parent : Group)
    → get_elem? (variable_metadata engines) i ≡ some vm
    → vm.parent ≡ some parent
    → get_path vm ≡ ok (prefix parent ++ vm.variable_name)
get_path-table engines i vm parent at e =
    let has = every-elem has_path (variable_metadata engines) i vm (table-has_path engines) at in
    let fits = sym (ap (path_fits vm.variable_name) e) ∙ has in
    get_path-prefix vm parent e
      (ltb→lt (length (prefix parent ++ vm.variable_name)) option_string_size fits)

abbrev same_path : Outcome (List ℕ) → Outcome (List ℕ) → Bool
same_path (ok p) (ok q) = strings_equal p q
same_path _ _ = false

unfoldable are_distinct : List (Outcome (List ℕ)) → Bool
unfolding every
are_distinct [] = true
are_distinct (p ∷ paths) = every (λ q. not (same_path p q)) paths && are_distinct paths

are_distinct-first :
    (p : List ℕ) (paths : List (Outcome (List ℕ))) (j : ℕ)
    → every (λ q. not (same_path (ok p) q)) paths ≡ true
    → get_elem? paths j ≢ some (ok p)
are_distinct-first p paths j h e =
    let differs = every-elem (λ q. not (same_path (ok p) q)) paths j (ok p) h e in
    ground (arith, differs, strings_equal_refl p)

are_distinct-index :
    (paths : List (Outcome (List ℕ))) (i j : ℕ) (p : List ℕ)
    → are_distinct paths ≡ true
    → get_elem? paths i ≡ some (ok p)
    → get_elem? paths j ≡ some (ok p)
    → i ≡ j
unfolding are_distinct
are_distinct-index [] i j p h ei ej = ground arith
are_distinct-index (q ∷ paths) zero zero p h ei ej = refl
are_distinct-index (q ∷ paths) zero (suc j) p h ei ej =
    let (first, rest) = and-true (every (λ r. not (same_path q r)) paths) (are_distinct paths) h in
    let here =
      ap (λ x. every (λ r. not (same_path x r)) paths) (sym (some-injective q (ok p) ei)) ∙ first in
    absurd (are_distinct-first p paths j here ej)
are_distinct-index (q ∷ paths) (suc i) zero p h ei ej =
    let (first, rest) = and-true (every (λ r. not (same_path q r)) paths) (are_distinct paths) h in
    let here =
      ap (λ x. every (λ r. not (same_path x r)) paths) (sym (some-injective q (ok p) ej)) ∙ first in
    absurd (are_distinct-first p paths i here ei)
are_distinct-index (q ∷ paths) (suc i) (suc j) p h ei ej =
    let (first, rest) = and-true (every (λ r. not (same_path q r)) paths) (are_distinct paths) h in
    ap suc (are_distinct-index paths i j p rest ei ej)

get_elem?-map :
    {A B : Type 0} (f : A → B) (xs : List A) (i : ℕ) (x : A)
    → get_elem? xs i ≡ some x
    → get_elem? (map f xs) i ≡ some (f x)
get_elem?-map f [] i x e = ground arith
get_elem?-map f (y ∷ xs) zero x e = ap (λ z. some (f z)) (some-injective y x e)
get_elem?-map f (y ∷ xs) (suc i) x e = get_elem?-map f xs i x e

table-distinct :
    (engines : Engines) → are_distinct (map get_path (variable_metadata engines)) ≡ true
unfolding are_distinct get_path strings_equal
table-distinct engines = refl

-- Two different rows of the table have different paths.
pub get_path-distinct :
    (engines : Engines) (i j : ℕ) (a b : VariableMetadata) (path : List ℕ)
    → i ≢ j
    → get_elem? (variable_metadata engines) i ≡ some a
    → get_elem? (variable_metadata engines) j ≡ some b
    → get_path a ≡ ok path
    → get_path b ≢ ok path
get_path-distinct engines i j a b path differ ei ej pa pb =
    let paths = map get_path (variable_metadata engines) in
    let at_i = get_elem?-map get_path (variable_metadata engines) i a ei ∙ ap some pa in
    let at_j = get_elem?-map get_path (variable_metadata engines) j b ej ∙ ap some pb in
    differ (are_distinct-index paths i j path (table-distinct engines) at_i at_j)
