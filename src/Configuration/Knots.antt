-- ===== src/Configuration/Knots.antt =====
-- src/configuration.c, `bezier_map_interpolation` by recursion on the points of the map.
use mathlib.Core.List.{append_assoc}
use hawk.Prelude.{
  ℕ, suc, ◌+◌, ◌-◌, ◌<◌, ◌≡◌, ◌∙◌, refl, sym, ap, List, [], ◌∷◌, ◌++◌, map, true, false,
  if◌then◌else◌, Outcome, ok, undefined, length, length-append, length-map, ◌==◌, arith, Bool-cases,
  inl, inr,
}
use hawk.Reals.{Reals}
use hawk.Options.{Smap}
use hawk.Configuration.Bezier.{
  first_above, at_index, bezier_curve, bezier_map_interpolation, element,
}

-- A point of the map: a key and its value.
abbrev pub smap_of : {R : Type 0} → List (R × R) → Smap R
smap_of points = record { keys = map (λ p. p.0) points; values = map (λ p. p.1) points }

element-middle :
    {A R : Type 0} (f : A → R) (pre : List A) (a : A) (rest : List A)
    → element (map f (pre ++ a ∷ rest)) (length pre) ≡ ok (f a)
element-middle f [] a rest = refl
element-middle f (x ∷ pre) a rest = element-middle f pre a rest

module _ {R : Type 0} ⦃reals : Reals R⦄ where
  -- The value at `x` right of the point `p`, where `points` follow.
  unfoldable pub right_of : R → R × R → List (R × R) → R
  right_of x p [] = p.1
  right_of x p (q ∷ points) =
      let rest = right_of x q points in
      if reals.less x q.0 then bezier_curve p.0 p.1 q.0 q.1 x else rest

  -- The map as a function: constant before its first point and after its last one.
  unfoldable pub piecewise : R → List (R × R) → Outcome R
  unfolding right_of
  piecewise x [] = undefined
  piecewise x (p ∷ points) = ok (if reals.less x p.0 then p.1 else right_of x p points)

  at_index-end :
      (m : Smap R) (x : R) (i : ℕ) (v : R)
      → length m.keys ≡ suc i
      → element m.values i ≡ ok v
      → at_index m x (suc i) ≡ ok v
  unfolding at_index
  at_index-end m x i v h e =
      let same : (suc i == length m.keys) ≡ true = ground arith in
      let last : length m.keys - 1 ≡ i = omega arith in
      let positive : (suc i == 0) ≡ false = ground arith in rw (positive, same, last) e

  at_index-inside :
      (m : Smap R) (x : R) (i : ℕ) (p q : R × R)
      → suc i < length m.keys
      → element m.keys i ≡ ok p.0
      → element m.values i ≡ ok p.1
      → element m.keys (suc i) ≡ ok q.0
      → element m.values (suc i) ≡ ok q.1
      → at_index m x (suc i) ≡ ok (bezier_curve p.0 p.1 q.0 q.1 x)
  unfolding at_index
  at_index-inside m x i p q h pk pv qk qv =
      let differ : (suc i == length m.keys) ≡ false = ground arith in
      let before : suc i - 1 ≡ i = omega arith in
      let positive : (suc i == 0) ≡ false = ground arith in
      rw (positive, differ, before, pv, pk, qv, qk)

  length-keys :
      (pre points : List (R × R)) (p : R × R)
      → length (map (λ q. q.0) (pre ++ p ∷ points)) ≡ suc (length pre + length points)
  length-keys pre points p =
      length-map (λ q. q.0) (pre ++ p ∷ points) ∙ length-append pre (p ∷ points) ∙ omega arith

  element-next :
      (f : R × R → R) (pre : List (R × R)) (p q : R × R) (points : List (R × R))
      → element (map f (pre ++ p ∷ q ∷ points)) (suc (length pre)) ≡ ok (f q)
  element-next f [] p q points = refl
  element-next f (x ∷ pre) p q points = element-next f pre p q points

  at_index-right_of :
      (x : R) (pre : List (R × R)) (p : R × R) (points : List (R × R))
      → at_index
          (smap_of (pre ++ p ∷ points))
          x
          (first_above x (suc (length pre)) (map (λ q. q.0) points))
        ≡ ok (right_of x p points)
  unfolding first_above right_of
  at_index-right_of x pre p [] =
      at_index-end (smap_of (pre ++ p ∷ [])) x (length pre) p.1 (length-keys pre [] p ∙ omega arith)
        (element-middle (λ q. q.1) pre p [])
  at_index-right_of x pre p (q ∷ points) = elim (Bool-cases (reals.less x q.0)) [
    | inl below ↦ rw below (
        at_index-inside (smap_of (pre ++ p ∷ q ∷ points)) x (length pre) p q
          (omega (arith, length-keys pre (q ∷ points) p))
          (element-middle (λ r. r.0) pre p (q ∷ points))
          (element-middle (λ r. r.1) pre p (q ∷ points)) (element-next (λ r. r.0) pre p q points)
          (element-next (λ r. r.1) pre p q points))
    | inr above ↦ rw above (
        ap
          (λ l.
            at_index (smap_of l) x (first_above x (suc (length pre) + 1) (map (λ r. r.0) points)))
          (sym (append_assoc pre (p ∷ []) (q ∷ points)))
        ∙ ap
            (λ k.
              at_index (smap_of ((pre ++ p ∷ []) ++ q ∷ points)) x
                (first_above x k (map (λ r. r.0) points)))
            (omega (arith, length-append pre (p ∷ [])))
        ∙ at_index-right_of x (pre ++ p ∷ []) q points)
  ]

  -- On a map of any points, `bezier_map_interpolation` is the function that takes the value of the
  -- first point before it, the value of the last point after it, and between two points the curve
  -- through them; on no points it reads outside of the list.
  pub bezier_map_interpolation-piecewise :
      (x : R) (points : List (R × R))
      → bezier_map_interpolation (smap_of points) x ≡ piecewise x points
  unfolding bezier_map_interpolation at_index first_above piecewise
  bezier_map_interpolation-piecewise x [] = refl
  bezier_map_interpolation-piecewise x (p ∷ points) = elim (Bool-cases (reals.less x p.0)) [
    | inl below ↦ rw below
    | inr above ↦ rw above (at_index-right_of x [] p points)
  ]
