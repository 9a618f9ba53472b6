-- ===== src/Metadata/Choices.antt =====
-- src/metadata.c, `get_list_value_from_list_name`: the value of a choice.
-- `list_valid_names` is the list of the names before the NULL; `list_valid_values[i]` is read at the
-- index of the name that is found. The name is first copied into `buffer`, which is put into lower
-- case and not used again.
use hawk.Prelude.{
  ℕ, ◌+◌, ◌<◌, ◌≡◌, ◌≢◌, refl, ap, ◌∙◌, List, [], ◌∷◌, ◌++◌, Bool, true, false, ◌&&◌, ◌==◌, ltb,
  lt→ltb, if◌then◌else◌, ℤ, negsuc, Option, none, some, Outcome, ok, undefined, length, get_elem?,
  All, arith, Bool-cases, inl, inr,
}

abbrev pub buffer_size : ℕ
buffer_size = 1024

-- `strcmp(a,b) == 0`
unfoldable pub strings_equal : List ℕ → List ℕ → Bool
strings_equal [] [] = true
strings_equal (a ∷ as') (b ∷ bs) = (a == b) && strings_equal as' bs
strings_equal _ _ = false

abbrev read_value : Option ℤ → Outcome ℤ
read_value (some v) = ok v
read_value none = undefined

unfoldable pub find_name : List (List ℕ) → List ℤ → List ℕ → ℕ → Outcome ℤ
unfolding strings_equal
find_name [] values name i = ok (negsuc 0)
find_name (n ∷ names) values name i =
    let rest = find_name names values name (i + 1) in
    if strings_equal n name then read_value (get_elem? values i) else rest

unfoldable pub get_list_value_from_list_name : List (List ℕ) → List ℤ → List ℕ → Outcome ℤ
unfolding find_name
get_list_value_from_list_name names values name =
    if ltb (length name) buffer_size then find_name names values name 0 else undefined

eq-true : (a b : ℕ) → (a == b) ≡ true → a ≡ b
eq-true a b h = ground arith

pub and-true : (p q : Bool) → (p && q) ≡ true → (p ≡ true) × (q ≡ true)
and-true true q h = (refl, h)
and-true false q h = ground arith

pub strings_equal_refl : (n : List ℕ) → strings_equal n n ≡ true
unfolding strings_equal
strings_equal_refl [] = refl
strings_equal_refl (a ∷ n) =
    let same : (a == a) ≡ true = ground arith in rw same (strings_equal_refl n)

pub strings_equal-eq : (m n : List ℕ) → strings_equal m n ≡ true → m ≡ n
unfolding strings_equal
strings_equal-eq [] [] h = refl
strings_equal-eq [] (b ∷ n) h = ground arith
strings_equal-eq (a ∷ m) [] h = ground arith
strings_equal-eq (a ∷ m) (b ∷ n) h =
    let (same, rest) = and-true (a == b) (strings_equal m n) h in
    ap (λ x. x ∷ m) (eq-true a b same) ∙ ap (◌∷◌ b) (strings_equal-eq m n rest)

pub strings_equal-differ : (m n : List ℕ) → m ≢ n → strings_equal m n ≡ false
strings_equal-differ m n h = elim (Bool-cases (strings_equal m n)) [
  | inl same ↦ absurd (h (strings_equal-eq m n same))
  | inr differ ↦ differ
]

find_name-at :
    (names later : List (List ℕ)) (values : List ℤ) (name : List ℕ) (v : ℤ) (i j : ℕ)
    → All (λ n. n ≢ name) names
    → j ≡ length names + i
    → get_elem? values j ≡ some v
    → find_name (names ++ name ∷ later) values name i ≡ ok v
unfolding find_name
find_name-at [] later values name v i j h at e =
    let here : i ≡ j = omega arith in
    let value : get_elem? values i ≡ some v = ap (get_elem? values) here ∙ e in
    rw (strings_equal_refl name, value)
find_name-at (n ∷ names) later values name v i j (d, h) at e =
    rw (strings_equal-differ n name d)
      (find_name-at names later values name v (i + 1) j h (omega arith) e)

find_name-absent :
    (names : List (List ℕ)) (values : List ℤ) (name : List ℕ) (i : ℕ)
    → All (λ n. n ≢ name) names
    → find_name names values name i ≡ ok (negsuc 0)
unfolding find_name
find_name-absent [] values name i h = refl
find_name-absent (n ∷ names) values name i (d, h) =
    rw (strings_equal-differ n name d) (find_name-absent names values name (i + 1) h)

-- A name of fewer than 1024 characters is given the value at the place where it first stands in the
-- list of the names, provided that there is one.
pub get_list_value_from_list_name-first :
    (names later : List (List ℕ)) (values : List ℤ) (name : List ℕ) (v : ℤ)
    → length name < buffer_size
    → All (λ n. n ≢ name) names
    → get_elem? values (length names) ≡ some v
    → get_list_value_from_list_name (names ++ name ∷ later) values name ≡ ok v
unfolding get_list_value_from_list_name
get_list_value_from_list_name-first names later values name v fits h e =
    rw (lt→ltb (length name) buffer_size fits)
      (find_name-at names later values name v 0 (length names) h (omega arith) e)

-- A name of fewer than 1024 characters that is not in the list, in the same case, is given -1.
pub get_list_value_from_list_name-absent :
    (names : List (List ℕ)) (values : List ℤ) (name : List ℕ)
    → length name < buffer_size
    → All (λ n. n ≢ name) names
    → get_list_value_from_list_name names values name ≡ ok (negsuc 0)
unfolding get_list_value_from_list_name
get_list_value_from_list_name-absent names values name fits h =
    rw (lt→ltb (length name) buffer_size fits) (find_name-absent names values name 0 h)
