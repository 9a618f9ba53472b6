-- ===== src/Configuration/Steps.antt =====
-- src/configuration.c, the loop of `interpolate_on_checkpoints` on numbers of iterations: what it knows of
-- its two bounds.
use mathlib.Core.Path.{subst}
use hawk.Prelude.{
  ℕ, suc, ◌<◌, ◌≡◌, refl, sym, Bool-cases, inl, inr, ◌⊎◌, true, false, not, ◌&&◌, ◌==◌,
  if◌then◌else◌, ℤ, lt_int, eq_int, ◌<ℤ◌, ◌≤ℤ◌, ◌-ℤ◌, ◌^◌, pos, -ℤ_parts, Option, none, some, ok,
  arith,
}
use hawk.Reals.{Reals}
use hawk.Configuration.Checkpoints.{int_min, int_max, Bounds, int_sub}

-- A number of iterations that a `float` has exactly.
abbrev pub Within : ℤ → Type 0
Within z = (pos 0 ≤ℤ z) × (z ≤ℤ pos (2 ^ 24))

-- What the loop compares with a checkpoint.
abbrev pub IsOperand : ℤ → Type 0
IsOperand z = Within z ⊎ ((z ≡ int_min) ⊎ (z ≡ int_max))

-- On such numbers the conversions between `int` and `real` lose nothing and keep the order, also
-- the order to INT_MIN and INT_MAX.
pub record IsExact {R : Type 0} (reals : Reals R) : Type 0 where
  pub truncate_of_int : (z : ℤ) → Within z → reals.truncate (reals.of_int z) ≡ z
  pub less_of_int :
      (a b : ℤ)
      → IsOperand a
      → IsOperand b
      → reals.less (reals.of_int a) (reals.of_int b) ≡ lt_int a b
  pub less_or_equal_of_int :
      (a b : ℤ)
      → IsOperand a
      → IsOperand b
      → reals.less_or_equal (reals.of_int a) (reals.of_int b) ≡ not (lt_int b a)

abbrev pub IsIndex : ℕ → Option ℕ → Type 0
IsIndex n none = ⊥
IsIndex n (some i) = i < n

-- A bound that is set has the index of one of the first `n` checkpoints.
abbrev HasLeft : ℕ → Bounds → Type 0
HasLeft n b = (b.left ≡ int_min) ⊎ (Within b.left × IsIndex n b.left_i)

abbrev HasRight : ℕ → Bounds → Type 0
HasRight n b = (b.right ≡ int_max) ⊎ (Within b.right × IsIndex n b.right_i)

IsIndex-suc : (n : ℕ) (o : Option ℕ) → IsIndex n o → IsIndex (suc n) o
IsIndex-suc n none h = absurd h
IsIndex-suc n (some i) h = omega arith

-- The two updates, on integers.
abbrev pub step_left : ℤ → ℕ → ℤ → Bounds → Bounds
step_left cur n z b =
    if not (lt_int cur z) && lt_int b.left z then record b { left = z; left_i = some n } else b

abbrev pub step_right : ℤ → ℕ → ℤ → Bounds → Bounds
step_right cur n z b =
    if not (lt_int z cur) && lt_int z b.right then record b { right = z; right_i = some n } else b

pub above_int_min : (z : ℤ) → Within z → int_min <ℤ z
above_int_min z (low, high) = omega arith

pub below_int_max : (z : ℤ) → Within z → z <ℤ int_max
below_int_max z (low, high) = omega arith

abbrev pub IsSound : ℕ → Bounds → Type 0
IsSound n b = HasLeft n b × HasRight n b

abbrev HasBound : Bounds → Type 0
HasBound b = (int_min <ℤ b.left) ⊎ (b.right <ℤ int_max)

HasLeft-suc : (n : ℕ) (b : Bounds) → HasLeft n b → HasLeft (suc n) b
HasLeft-suc n b (inl e) = inl e
HasLeft-suc n b (inr (l, h)) = inr (l, IsIndex-suc n b.left_i h)

HasRight-suc : (n : ℕ) (b : Bounds) → HasRight n b → HasRight (suc n) b
HasRight-suc n b (inl e) = inl e
HasRight-suc n b (inr (l, h)) = inr (l, IsIndex-suc n b.right_i h)

pub step_left-IsSound :
    (cur : ℤ) (n : ℕ) (z : ℤ) (b : Bounds)
    → Within z
    → IsSound n b
    → HasLeft (suc n) (step_left cur n z b) × HasRight n (step_left cur n z b)
step_left-IsSound cur n z b w (l, r) = elim (Bool-cases (not (lt_int cur z) && lt_int b.left z)) [
  | inl taken ↦ rw taken (inr (w, omega arith), r)
  | inr kept ↦ rw kept (HasLeft-suc n b l, r)
]

step_right-IsSound :
    (cur : ℤ) (n : ℕ) (z : ℤ) (b : Bounds)
    → Within z
    → HasLeft (suc n) b × HasRight n b
    → IsSound (suc n) (step_right cur n z b)
step_right-IsSound cur n z b w (l, r) = elim (Bool-cases (not (lt_int z cur) && lt_int z b.right)) [
  | inl taken ↦ rw taken (l, inr (w, omega arith))
  | inr kept ↦ rw kept (l, HasRight-suc n b r)
]

abbrev pub step : ℤ → ℕ → ℤ → Bounds → Bounds
step cur n z b = step_right cur n z (step_left cur n z b)

not_lt_int : (a b : ℤ) → lt_int a b ≡ false → b ≤ℤ a
not_lt_int a b h = ground arith

module _ (cur : ℤ) (n : ℕ) (z : ℤ) (b : Bounds) (w : Within z) where
  step_right-left : (step_right cur n z b).left ≡ b.left
  step_right-left = elim (Bool-cases (not (lt_int z cur) && lt_int z b.right)) [
    | inl taken ↦ rw taken
    | inr kept ↦ rw kept
  ]

  left_set : lt_int cur z ≡ false → int_min <ℤ (step_left cur n z b).left
  left_set e = elim (Bool-cases (lt_int b.left z)) [
    | inl taken ↦ rw (e, taken) (above_int_min z w)
    | inr kept ↦ rw (e, kept) (omega (arith, above_int_min z w, not_lt_int b.left z kept))
  ]

  right_set : lt_int z cur ≡ false → (step_right cur n z b).right <ℤ int_max
  right_set e = elim (Bool-cases (lt_int z b.right)) [
    | inl taken ↦ rw (e, taken) (below_int_max z w)
    | inr kept ↦ rw (e, kept) (omega (arith, below_int_max z w, not_lt_int z b.right kept))
  ]

  left_kept : int_min <ℤ b.left → int_min <ℤ (step_left cur n z b).left
  left_kept h = elim (Bool-cases (not (lt_int cur z) && lt_int b.left z)) [
    | inl taken ↦ rw taken (above_int_min z w)
    | inr kept ↦ rw kept h
  ]

  step_left-right : (step_left cur n z b).right ≡ b.right
  step_left-right = elim (Bool-cases (not (lt_int cur z) && lt_int b.left z)) [
    | inl taken ↦ rw taken
    | inr kept ↦ rw kept
  ]

  right_kept : b.right <ℤ int_max → (step_right cur n z b).right <ℤ int_max
  right_kept h = elim (Bool-cases (not (lt_int z cur) && lt_int z b.right)) [
    | inl taken ↦ rw taken (below_int_max z w)
    | inr kept ↦ rw kept h
  ]

one_side : (a b : ℤ) → lt_int a b ≡ true → lt_int b a ≡ false
one_side a b h = ground arith

module _ (cur : ℤ) (n : ℕ) (z : ℤ) (b : Bounds) (w : Within z) where
  keep_left : int_min <ℤ (step_left cur n z b).left → HasBound (step cur n z b)
  keep_left h =
      inl (subst (λ l. int_min <ℤ l) (sym (step_right-left cur n z (step_left cur n z b) w)) h)

  pub step-HasBound : HasBound (step cur n z b)
  step-HasBound = elim (Bool-cases (lt_int cur z)) [
    | inl after ↦ inr (right_set cur n z (step_left cur n z b) w (one_side cur z after))
    | inr before ↦ keep_left (left_set cur n z b w before)
  ]

  pub step-IsSound : IsSound n b → IsSound (suc n) (step cur n z b)
  step-IsSound h =
      step_right-IsSound cur n z (step_left cur n z b) w (step_left-IsSound cur n z b w h)

-- What holds after at least one checkpoint.
abbrev pub IsReady : ℕ → Bounds → Type 0
IsReady n b = IsSound n b × HasBound b

pub at_minimum : (z : ℤ) → z ≡ int_min → eq_int z int_min ≡ true
at_minimum z e = rw e

pub above_minimum : (z : ℤ) → int_min <ℤ z → eq_int z int_min ≡ false
above_minimum z h = ground arith

pub at_maximum : (z : ℤ) → z ≡ int_max → eq_int z int_max ≡ true
at_maximum z e = rw e

pub below_maximum : (z : ℤ) → z <ℤ int_max → eq_int z int_max ≡ false
below_maximum z h = ground arith

pub not_set : (b : Bounds) → b.left ≡ int_min → b.right ≡ int_max → HasBound b → ⊥
not_set b l r (inl h) = omega (arith, subst (λ z. int_min <ℤ z) l h)
not_set b l r (inr h) = omega (arith, subst (λ z. z <ℤ int_max) r h)

pub eq_self : (n : ℕ) → (n == n) ≡ true
eq_self n = ground arith

pub left-IsOperand : (n : ℕ) (b : Bounds) → HasLeft n b → IsOperand b.left
left-IsOperand n b (inl e) = inr (inl e)
left-IsOperand n b (inr (w, i)) = inl w

pub right-IsOperand : (n : ℕ) (b : Bounds) → HasRight n b → IsOperand b.right
right-IsOperand n b (inl e) = inr (inr e)
right-IsOperand n b (inr (w, i)) = inl w

-- Numbers of iterations can be subtracted.
pub int_sub-ok : (a b : ℤ) → Within a → Within b → int_sub a b ≡ ok (a -ℤ b)
int_sub-ok a b (al, ah) (bl, bh) =
    let low : lt_int (a -ℤ b) int_min ≡ false = ground (arith, -ℤ_parts a b) in
    let high : lt_int int_max (a -ℤ b) ≡ false = ground (arith, -ℤ_parts a b) in rw (low, high) refl
