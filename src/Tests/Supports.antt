-- ===== src/Tests/Supports.antt =====
-- src/support.c on concrete images.
use mathlib.Core.List.Perm
use hawk.Prelude.{
  lt_int, Bool-cases, inl, inr, ◌≡◌, ◌<◌, refl, List, [], ◌∷◌, ℤ, pos, eq_int, if◌then◌else◌, false,
  none, ok, arith,
}
use hawk.SpImage.{Complex, cinit, Image}
use hawk.Reals.{◌⊗◌, ◌⊘◌}
use hawk.Support.{
  SupportLibrary, brightest, blurred, get_updated_support, descend_complex_compare, level_of_area,
}
use hawk.Support.Indicator.{
  with_data, IsBinary, IsStrictOrder, IsBrightest, AllCut, get_updated_support-threshold,
}
use hawk.Support.Area.{count, at_least, brighter, IsInOrder, level_of_area-count}
use package.hawk.Tests.Instances.{int_numbers, int_library, int_reals}
use package.hawk.Tests.Settings.{plain_options}

abbrev Picture : Type 0
Picture = Image ℤ (Unit {0})

-- Insertion behind the elements that stand before in the order of `f`.
abbrev insert : (Complex ℤ → Complex ℤ → ℤ) → Complex ℤ → List (Complex ℤ) → List (Complex ℤ)
insert f x [] = x ∷ []
insert f x (y ∷ ys) = if eq_int (f x y) (pos 1) then y ∷ insert f x ys else x ∷ y ∷ ys

abbrev insertion_sort : (Complex ℤ → Complex ℤ → ℤ) → List (Complex ℤ) → List (Complex ℤ)
insertion_sort f [] = []
insertion_sort f (x ∷ xs) = insert f x (insertion_sort f xs)

instance abbrev sorting_library : SupportLibrary ℤ (Unit {0})
sorting_library = record {
  gaussian_blur = λ a r. a;
  duplicate_data = λ a. a;
  duplicate_masked = λ a. a;
  qsort = insertion_sort;
}

abbrev dark : Complex ℤ
dark = cinit (pos 1) (pos 0)

abbrev bright : Complex ℤ
bright = cinit (pos 3) (pos 0)

abbrev dark_and_bright : Picture
dark_and_bright = record {
  pixels = dark ∷ bright ∷ [];
  mask = pos 1 ∷ pos 1 ∷ [];
  phased = 1;
  shifted = 0;
  rest = tt;
}

int_IsBinary : IsBinary int_numbers int_reals
int_IsBinary = record { one_is_true = refl; zero_is_false = refl }

int_IsStrictOrder : IsStrictOrder int_reals
int_IsStrictOrder = record {
  less_self = λ a. ground arith;
  less_trans = λ a b c h k. ground arith;
  less_split =
      λ a b c h. elim (Bool-cases (lt_int a c)) [ inl l ↦ inl l | inr same ↦ inr (ground arith) ];
}

get_updated_support-threshold_example :
    (top : ℤ) × (qs : List (Complex ℤ)) × (get_updated_support dark_and_bright
        (pos 1)
        (pos 0)
        plain_options
        none
      ≡ with_data (blurred plain_options.support_update_algorithm dark_and_bright (pos 0)) qs)
    × IsBrightest top
        (blurred plain_options.support_update_algorithm dark_and_bright (pos 0)).pixels
    × AllCut
        (top ⊗ pos 1)
        (blurred plain_options.support_update_algorithm dark_and_bright (pos 0)).pixels
        qs
get_updated_support-threshold_example =
    get_updated_support-threshold int_IsBinary int_IsStrictOrder dark_and_bright (pos 1) (pos 0)
      plain_options

-- The dark pixel is darker than one time the brightest.
bright_pixel_stays :
    (get_updated_support dark_and_bright (pos 1) (pos 0) plain_options none).pixels
    ≡ cinit (pos 0) (pos 0) ∷ cinit (pos 1) (pos 0) ∷ []
unfolding get_updated_support brightest
bright_pixel_stays = refl

lt_int_self : (x : ℤ) → int_reals.less x x ≡ false
lt_int_self x = ground arith

sorted-IsInOrder : IsInOrder descend_complex_compare (bright ∷ dark ∷ [])
sorted-IsInOrder = (((λ e. ground arith), tt), (tt, tt))

level_of_area-count_example :
    (p top : Complex ℤ) × (level_of_area (pos 0) dark_and_bright ≡ ok (p.re ⊘ top.re))
    × (0 < count (at_least p) (dark ∷ bright ∷ []))
    × (count (brighter top) (dark ∷ bright ∷ []) ≡ 0)
level_of_area-count_example =
    level_of_area-count lt_int_self (pos 0) dark_and_bright 0 (Perm.swap dark bright [])
      sorted-IsInOrder refl (ground arith)
