-- ===== src/Configuration/Bounds.antt =====
-- src/configuration.c, `interpolate_on_checkpoints` on checkpoints that are integers.
use mathlib.Core.Path.{subst}
use hawk.Prelude.{
  ℕ, zero, suc, ◌+◌, ◌≡◌, ◌∙◌, refl, sym, ap, List, [], ◌∷◌, map, Bool-cases, inl, inr, true, ◌==◌,
  length-map, All, ℤ, eq_int, ◌-ℤ◌, Option, none, some, Outcome, ok, length, arith,
}
use hawk.Reals.{Reals}
use hawk.Configuration.Checkpoints.{
  Bounds, no_bounds, see_left, see_right, seek_bounds, at_bound, shift_at, between_bounds,
  interpolate_on_checkpoints,
}
use package.hawk.Configuration.Steps.{
  Within, IsOperand, IsExact, IsIndex, step_left, step_right, above_int_min, below_int_max, IsSound,
  step_left-IsSound, step, step-HasBound, step-IsSound, IsReady, at_minimum, above_minimum,
  at_maximum, below_maximum, not_set, eq_self, left-IsOperand, right-IsOperand, int_sub-ok,
}

module _ {R : Type 0} ⦃reals : Reals R⦄ (exact : IsExact reals) (cur : ℤ) (now : Within cur) where
  see_left-eq :
      (n : ℕ) (z : ℤ) (b : Bounds)
      → Within z
      → IsOperand b.left
      → see_left cur n (reals.of_int z) b ≡ step_left cur n z b
  see_left-eq n z b w l =
      rw
        (
          exact.less_or_equal_of_int z cur (inl w) (inl now),
          exact.less_of_int b.left z l (inl w),
          exact.truncate_of_int z w,
        )
        refl

  see_right-eq :
      (n : ℕ) (z : ℤ) (b : Bounds)
      → Within z
      → IsOperand b.right
      → see_right cur n (reals.of_int z) b ≡ step_right cur n z b
  see_right-eq n z b w r =
      rw
        (
          exact.less_or_equal_of_int cur z (inl now) (inl w),
          exact.less_of_int z b.right (inl w) r,
          exact.truncate_of_int z w,
        )
        refl

  step-eq :
      (n : ℕ) (z : ℤ) (b : Bounds)
      → Within z
      → IsSound n b
      → see_right cur n (reals.of_int z) (see_left cur n (reals.of_int z) b) ≡ step cur n z b
  step-eq n z b w h =
      ap (see_right cur n (reals.of_int z)) (see_left-eq n z b w (left-IsOperand n b h.0))
      ∙ see_right-eq n z (step_left cur n z b) w
          (right-IsOperand n (step_left cur n z b) (step_left-IsSound cur n z b w h).1)

  seek_bounds-IsReady :
      (zs : List ℤ) (n : ℕ) (b : Bounds)
      → All Within zs
      → IsReady n b
      → IsReady (n + length zs) (seek_bounds cur n (map reals.of_int zs) b)
  unfolding seek_bounds
  seek_bounds-IsReady [] n b ws h = subst (λ k. IsReady k b) (omega arith) h
  seek_bounds-IsReady (z ∷ zs) n b (w, ws) h =
      subst (λ b'. IsReady (n + length (z ∷ zs)) (seek_bounds cur (n + 1) (map reals.of_int zs) b'))
        (sym (step-eq n z b w h.0))
        (subst (λ k. IsReady k (seek_bounds cur (n + 1) (map reals.of_int zs) (step cur n z b)))
          (omega arith)
          (seek_bounds-IsReady zs (n + 1) (step cur n z b) ws (
            subst (λ k. IsReady k (step cur n z b)) (omega arith)
              (step-IsSound cur n z b w h.0, step-HasBound cur n z b w))))

  abbrev Returns : Outcome R → Type 0
  Returns m = (r : R) × (m ≡ ok r)

  at_bound-Returns :
      (values : List R) (o : Option ℕ) → IsIndex (length values) o → Returns (at_bound values o)
  at_bound-Returns values none h = absurd h
  at_bound-Returns [] (some i) h = absurd (omega arith)
  at_bound-Returns (v ∷ values) (some zero) h = (v, refl)
  at_bound-Returns (v ∷ values) (some (suc i)) h = at_bound-Returns values (some i) (omega arith)

  between_bounds-Returns :
      (values : List R) (b : Bounds)
      → IsReady (length values) b
      → Returns (between_bounds values cur 1 b)
  unfolding between_bounds
  between_bounds-Returns values b ((inl l, inl r), set) = absurd (not_set b l r set)
  between_bounds-Returns values b ((inl l, inr (wr, j)), set) =
      let (v, e) = at_bound-Returns values b.right_i j in
      (v, rw (at_minimum b.left l, below_maximum b.right (below_int_max b.right wr)) e)
  between_bounds-Returns values b ((inr (wl, i), inl r), set) =
      let (v, e) = at_bound-Returns values b.left_i i in
      (v, rw (above_minimum b.left (above_int_min b.left wl), at_maximum b.right r) e)
  between_bounds-Returns values b ((inr (wl, i), inr (wr, j)), set) =
      let (v, e) = at_bound-Returns values b.left_i i in
      let (w, f) = at_bound-Returns values b.right_i j in
      elim (Bool-cases (eq_int b.right b.left)) [
        | inl same ↦ (
          v,
          rw
              (
                above_minimum b.left (above_int_min b.left wl),
                below_maximum b.right (below_int_max b.right wr),
                same,
              )
              e,
        )
        | inr differ ↦ (
          shift_at (cur -ℤ b.left) (b.right -ℤ b.left) v w,
          rw
              (
                above_minimum b.left (above_int_min b.left wl),
                below_maximum b.right (below_int_max b.right wr),
                differ,
                e,
                f,
                int_sub-ok cur b.left now wl,
                int_sub-ok b.right b.left wr wl,
              )
              refl,
        )
      ]

  first_bounds-IsReady :
      (z : ℤ) (zs : List ℤ)
      → All Within (z ∷ zs)
      → IsReady (length (z ∷ zs)) (seek_bounds cur 0 (map reals.of_int (z ∷ zs)) no_bounds)
  unfolding seek_bounds
  first_bounds-IsReady z zs (w, ws) =
      subst (λ b. IsReady (length (z ∷ zs)) (seek_bounds cur 1 (map reals.of_int zs) b))
        (sym (step-eq 0 z no_bounds w (inl refl, inl refl)))
        (subst (λ k. IsReady k (seek_bounds cur 1 (map reals.of_int zs) (step cur 0 z no_bounds)))
          (omega arith)
          (seek_bounds-IsReady zs 1 (step cur 0 z no_bounds) ws (
            step-IsSound cur 0 z no_bounds w (inl refl, inl refl),
            step-HasBound cur 0 z no_bounds w,
          )))

  same_size :
      (values : List R) (zs : List ℤ)
      → length values ≡ length zs
      → (length values == length (map reals.of_int zs)) ≡ true
  same_size values zs e = rw (length-map reals.of_int zs, e) (eq_self (length zs))

  -- With as many values as checkpoints, at least one, and all checkpoints and the iteration between 0
  -- and 2^24, where the conversions between `int` and `real` are exact, the interpolation returns: it
  -- neither ends the program, nor reads an index that is not set, nor overflows `int`.
  pub interpolate_on_checkpoints-Returns :
      (values : List R) (z : ℤ) (zs : List ℤ)
      → All Within (z ∷ zs)
      → length values ≡ length (z ∷ zs)
      → (r : R) × (interpolate_on_checkpoints values (map reals.of_int (z ∷ zs)) cur 1 ≡ ok r)
  unfolding interpolate_on_checkpoints
  interpolate_on_checkpoints-Returns values z zs ws same =
      let ready : IsReady (length values)
          (seek_bounds cur 0 (map reals.of_int (z ∷ zs)) no_bounds) =
        subst (λ k. IsReady k (seek_bounds cur 0 (map reals.of_int (z ∷ zs)) no_bounds)) (sym same)
          (first_bounds-IsReady z zs ws) in
      let (r, e) = between_bounds-Returns values _ ready in
      (r, rw (same_size values (z ∷ zs) same) e)
