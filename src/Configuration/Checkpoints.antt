-- ===== src/Configuration/Checkpoints.antt =====
-- src/configuration.c, `interpolate_on_checkpoints`: between the last checkpoint before the
-- iteration and the first one after it. `get_object_area` writes the same loop and the same cases
-- once more, on its own two vectors.
use hawk.Prelude.{
  ℕ, ◌+◌, ◌-◌, ◌^◌, List, [], ◌∷◌, ◌&&◌, if◌then◌else◌, ◌==◌, ℤ, pos, negsuc, eq_int, ◌-ℤ◌, Option,
  none, some, not, lt_int, Outcome, ok, aborted, undefined, ◌>>=◌, length,
}
use hawk.Reals.{Reals, real_ℕ, ◌⊕◌, ◌⊖◌, ◌⊗◌, ◌⊘◌}
use hawk.Configuration.Bezier.{element}

abbrev pub int_max : ℤ
int_max = pos (2 ^ 31 - 1)

abbrev pub int_min : ℤ
int_min = negsuc (2 ^ 31 - 1)

-- The difference of two `int`.
abbrev pub int_sub : ℤ → ℤ → Outcome ℤ
int_sub a b =
    if not (lt_int (a -ℤ b) int_min) && not (lt_int int_max (a -ℤ b))
    then ok (a -ℤ b)
    else undefined

-- `left`, `left_i`, `right`, `right_i`; an index is not set before its bound.
pub record Bounds : Type 0 where
  pub left : ℤ
  pub left_i : Option ℕ
  pub right : ℤ
  pub right_i : Option ℕ

abbrev pub no_bounds : Bounds
no_bounds = record { left = int_min; left_i = none; right = int_max; right_i = none }

abbrev pub at_bound : {R : Type 0} → List R → Option ℕ → Outcome R
at_bound values none = undefined
at_bound values (some i) = element values i

module _ {R : Type 0} ⦃reals : Reals R⦄ where
  abbrev pub see_left : ℤ → ℕ → R → Bounds → Bounds
  see_left cur i iter b =
      if reals.less_or_equal iter (reals.of_int cur) && reals.less (reals.of_int b.left) iter
      then record b { left = reals.truncate iter; left_i = some i }
      else b

  abbrev pub see_right : ℤ → ℕ → R → Bounds → Bounds
  see_right cur i iter b =
      if reals.less_or_equal (reals.of_int cur) iter && reals.less iter (reals.of_int b.right)
      then record b { right = reals.truncate iter; right_i = some i }
      else b

  unfoldable pub seek_bounds : ℤ → ℕ → List R → Bounds → Bounds
  seek_bounds cur i [] b = b
  seek_bounds cur i (iter ∷ rest) b =
      seek_bounds cur (i + 1) rest (see_right cur i iter (see_left cur i iter b))

  -- The Fermi-Dirac distribution between two checkpoints, from `cur_iteration-left` and `right-left`.
  abbrev pub shift_at : ℤ → ℤ → R → R → R
  shift_at done whole left_value right_value =
      let f : R = reals.decimal 2 0 ⊗ reals.of_int done ⊘ reals.of_int whole in
      let n : R = real_ℕ 1 ⊘ (reals.exp ((f ⊖ real_ℕ 1) ⊗ real_ℕ 5) ⊕ real_ℕ 1) in
      (left_value ⊖ right_value) ⊗ n ⊕ right_value

  abbrev pub smooth_shift : ℤ → Bounds → R → R → Outcome R
  smooth_shift cur b left_value right_value = do
    done ← int_sub cur b.left
    whole ← int_sub b.right b.left
    ok (shift_at done whole left_value right_value)

  abbrev pub shifted_value : List R → ℤ → Bounds → Outcome R
  shifted_value values cur b = do
    left_value ← at_bound values b.left_i
    right_value ← at_bound values b.right_i
    smooth_shift cur b left_value right_value

  unfoldable pub between_bounds : List R → ℤ → ℕ → Bounds → Outcome R
  between_bounds values cur interpolation b =
      if eq_int b.left int_min && eq_int b.right int_max
      then aborted
      else if eq_int b.left int_min
      then at_bound values b.right_i
      else if eq_int b.right int_max
      then at_bound values b.left_i
      else if eq_int b.right b.left
      then at_bound values b.left_i
      else if interpolation == 1
      then shifted_value values cur b
      else aborted

  unfoldable pub interpolate_on_checkpoints : List R → List R → ℤ → ℕ → Outcome R
  unfolding between_bounds seek_bounds
  interpolate_on_checkpoints values checkpoints cur interpolation =
      if length values == length checkpoints
      then between_bounds values cur interpolation (seek_bounds cur 0 checkpoints no_bounds)
      else aborted
