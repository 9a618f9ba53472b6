-- ===== src/Configuration/Bezier.antt =====
-- src/configuration.c, `bezier_map_interpolation`: a map on the iterations, and a curve between its
-- keys.
use hawk.Prelude.{
  ℕ, ◌+◌, ◌-◌, List, [], ◌∷◌, if◌then◌else◌, ◌==◌, Option, none, some, Outcome, ok, undefined,
  ◌>>=◌, length, get_elem?,
}
use hawk.Reals.{Reals, real_ℕ, ◌⊕◌, ◌⊖◌, ◌⊗◌, ◌⊘◌}
use hawk.Options.{Smap}

module _ {R : Type 0} where
  abbrev found : Option R → Outcome R
  found (some x) = ok x
  found none = undefined

  -- `sp_list_get` and `sp_vector_get`.
  abbrev pub element : List R → ℕ → Outcome R
  element xs i = found (get_elem? xs i)

module _ {R : Type 0} ⦃reals : Reals R⦄ where
  abbrev square : R → R
  square a = reals.pow a (real_ℕ 2)

  abbrev cube : R → R
  cube a = reals.pow a (real_ℕ 3)

  -- The argument of the two cubic roots.
  abbrev bezier_radicand : R → R → R → R
  bezier_radicand p0x p3x x =
      real_ℕ 8 ⊗ p0x ⊗ p3x ⊗ x
      ⊖ real_ℕ 2 ⊗ p3x ⊗ square p0x
      ⊖ real_ℕ 4 ⊗ x ⊗ square p0x
      ⊕ real_ℕ 2 ⊗ cube p0x
      ⊖ real_ℕ 2 ⊗ p0x ⊗ square p3x
      ⊖ real_ℕ 4 ⊗ x ⊗ square p3x
      ⊕ real_ℕ 2 ⊗ cube p3x
      ⊕ reals.pow
          (reals.pow (p0x ⊖ p3x) (real_ℕ 4)
            ⊗ (real_ℕ 6 ⊗ p0x ⊗ p3x
                ⊖ real_ℕ 16 ⊗ p0x ⊗ x
                ⊖ real_ℕ 16 ⊗ p3x ⊗ x
                ⊕ real_ℕ 5 ⊗ square p0x
                ⊕ real_ℕ 5 ⊗ square p3x
                ⊕ real_ℕ 16 ⊗ square x))
          (reals.decimal 5 1)

  abbrev third : R
  third = reals.decimal 3333333333333333 16

  abbrev bezier_parameter : R → R → R → R
  bezier_parameter p0x p3x x =
      (real_ℕ 2
        ⊖ real_ℕ 2 ⊗ (p0x ⊖ p3x) ⊗ reals.pow (bezier_radicand p0x p3x x) (reals.negate third)
        ⊕ real_ℕ 2
          ⊗ reals.pow (p0x ⊖ p3x) (reals.negate (real_ℕ 1))
          ⊗ reals.pow (bezier_radicand p0x p3x x) third)
      ⊘ real_ℕ 4

  -- The value at `x` of the curve from (`p0x`, `p0y`) to (`p3x`, `p3y`).
  abbrev pub bezier_curve : R → R → R → R → R → R
  bezier_curve p0x p0y p3x p3y x =
      let t : R = bezier_parameter p0x p3x x in
      let s : R = real_ℕ 1 ⊖ t in
      real_ℕ 3 ⊗ p0y ⊗ t ⊗ square s ⊕ p0y ⊗ cube s ⊕ real_ℕ 3 ⊗ p3y ⊗ s ⊗ square t ⊕ p3y ⊗ cube t

  -- The index of the first key above `x`, from `idx` on, or the number of the keys.
  unfoldable pub first_above : R → ℕ → List R → ℕ
  first_above x idx [] = idx
  first_above x idx (k ∷ ks) =
      let rest = first_above x (idx + 1) ks in if reals.less x k then idx else rest

  -- The body below the loop.
  unfoldable pub at_index : Smap R → R → ℕ → Outcome R
  at_index map x idx =
      if idx == 0
      then element map.values 0
      else if idx == length map.keys
      then element map.values (length map.keys - 1)
      else do
        p0y ← element map.values (idx - 1)
        p0x ← element map.keys (idx - 1)
        p3y ← element map.values idx
        p3x ← element map.keys idx
        ok (bezier_curve p0x p0y p3x p3y x)

  unfoldable pub bezier_map_interpolation : Smap R → R → Outcome R
  unfolding at_index first_above
  bezier_map_interpolation map x = at_index map x (first_above x 0 map.keys)
