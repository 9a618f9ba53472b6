-- ===== src/OptionFile/Listed.antt =====
-- Lists of choices whose names are in lower case, short enough for the buffer, and all different:
-- what the comment above the table of src/metadata.c asks of `list_valid_names`.
use hawk.Prelude.{
  ◌<◌, ◌≡◌, refl, sym, ap, ◌∙◌, ◌≢◌, inl, inr, ℕ, zero, suc, List, [], ◌∷◌, map, Bool, true, false,
  not, ◌&&◌, ltb, ltb→lt, Bool-cases, ℤ, pos, negsuc, eq_int, some, ok, get_elem?, length,
  if◌then◌else◌, arith,
}
use mathlib.Core.Option.{some-injective}
use hawk.Metadata.Variable.{Choice}
use hawk.Metadata.Choices.{
  strings_equal, strings_equal_refl, strings_equal-eq, strings_equal-differ, and-true,
}
use hawk.OptionFile.Path.{option_string_size}
use hawk.OptionFile.Choice.{tolower, find_choice, write_choice}

unfoldable pub has_name : List Choice → List ℕ → Bool
unfolding strings_equal
has_name [] name = false
has_name (c ∷ choices) name =
    let rest = has_name choices name in if strings_equal c.name name then true else rest

unfoldable pub is_usable : List ℕ → Bool
unfolding strings_equal
is_usable name = strings_equal (map tolower name) name && ltb (length name) option_string_size

unfoldable pub are_listed : List Choice → Bool
unfolding has_name is_usable
are_listed [] = true
are_listed (c ∷ choices) = is_usable c.name && (not (has_name choices c.name) && are_listed choices)

pub not-true : (b : Bool) → not b ≡ true → b ≡ false
not-true true h = ground arith
not-true false h = refl

pub is_usable-lower : (name : List ℕ) → is_usable name ≡ true → map tolower name ≡ name
unfolding is_usable
is_usable-lower name h =
    let (same, fits) =
      and-true (strings_equal (map tolower name) name) (ltb (length name) option_string_size) h in
    strings_equal-eq (map tolower name) name same

pub is_usable-fits : (name : List ℕ) → is_usable name ≡ true → length name < option_string_size
unfolding is_usable
is_usable-fits name h =
    let (same, fits) =
      and-true (strings_equal (map tolower name) name) (ltb (length name) option_string_size) h in
    ltb→lt (length name) option_string_size fits

eq_int-eq : (a b : ℤ) → eq_int a b ≡ true → a ≡ b
eq_int-eq (pos a) (pos b) h = ground arith
eq_int-eq (pos a) (negsuc b) h = ground arith
eq_int-eq (negsuc a) (pos b) h = ground arith
eq_int-eq (negsuc a) (negsuc b) h = ground arith

eq_int_refl : (a : ℤ) → eq_int a a ≡ true
eq_int_refl a = ground arith

-- Two names of which the list has one only are different.
has_name-differ :
    (choices : List Choice) (m n : List ℕ)
    → has_name choices m ≡ false
    → has_name choices n ≡ true
    → m ≢ n
has_name-differ choices m n absent present same =
    ground (arith, sym absent ∙ ap (has_name choices) same ∙ present)

-- What writing the value of a listed choice gives.
abbrev pub Readable : List Choice → ℤ → List ℕ → Type 0
Readable choices v name =
    (write_choice choices v ≡ ok name)
    × (find_choice choices name ≡ ok v)
    × (is_usable name ≡ true)
    × (has_name choices name ≡ true)

Readable-here :
    (c : Choice) (choices : List Choice) (v : ℤ)
    → is_usable c.name ≡ true
    → eq_int v c.value ≡ true
    → Readable (c ∷ choices) v c.name
unfolding write_choice find_choice has_name
Readable-here c choices v usable same =
    rw (same, strings_equal_refl c.name)
      (refl, ap ok (sym (eq_int-eq v c.value same)), usable, refl)

Readable-later :
    (c : Choice) (choices : List Choice) (v : ℤ) (name : List ℕ)
    → has_name choices c.name ≡ false
    → eq_int v c.value ≡ false
    → Readable choices v name
    → Readable (c ∷ choices) v name
unfolding write_choice find_choice has_name
Readable-later c choices v name fresh differ (writes, finds, usable, present) =
    let other =
      strings_equal-differ c.name name (has_name-differ choices c.name name fresh present) in
    rw (differ, other) (writes, finds, usable, present)

pub are_listed-Readable :
    (choices : List Choice) (k : ℕ) (c : Choice)
    → are_listed choices ≡ true
    → get_elem? choices k ≡ some c
    → (name : List ℕ) × Readable choices c.value name
unfolding are_listed
are_listed-Readable [] k c h e = ground arith
are_listed-Readable (d ∷ choices) zero c h e =
    let (usable, rest) =
      and-true (is_usable d.name) (not (has_name choices d.name) && are_listed choices) h in
    let same =
      ap (λ x. eq_int x.value d.value) (sym (some-injective d c e)) ∙ eq_int_refl d.value in
    (d.name, Readable-here d choices c.value usable same)
are_listed-Readable (d ∷ choices) (suc k) c h e =
    let (usable, rest) =
      and-true (is_usable d.name) (not (has_name choices d.name) && are_listed choices) h in
    let (fresh, listed) = and-true (not (has_name choices d.name)) (are_listed choices) rest in
    let (name, readable) = are_listed-Readable choices k c listed e in
    let new = not-true (has_name choices d.name) fresh in
    elim (Bool-cases (eq_int c.value d.value)) [
      | inl same ↦ (d.name, Readable-here d choices c.value usable same)
      | inr differ ↦ (name, Readable-later d choices c.value name new differ readable)
    ]
