-- ===== src/Reals.antt =====
-- C's floating point, as src/configuration.c computes with it: the operators, the conversions and
-- the functions of `math.h`. `float` and `double` are not told apart.
use hawk.Prelude.{ℕ, Bool, ℤ, not, pos}

pub record Reals (R : Type 0) : Type 0 where
  pub of_int : ℤ → R
  -- the conversion to `int`
  pub truncate : R → ℤ
  -- `decimal n d` is the constant n / 10 ^ d
  pub decimal : ℕ → ℕ → R
  pub plus : R → R → R
  pub minus : R → R → R
  pub times : R → R → R
  pub over : R → R → R
  pub negate : R → R
  pub pow : R → R → R
  pub exp : R → R
  pub log : R → R
  pub less : R → R → Bool
  pub less_or_equal : R → R → Bool
  pub equal : R → R → Bool
  pub isfinite : R → Bool

module _ {R : Type 0} ⦃reals : Reals R⦄ where
  abbrev pub real_ℕ : ℕ → R
  real_ℕ n = reals.of_int (pos n)

  -- A C condition on a number.
  abbrev pub is_true : R → Bool
  is_true x = not (reals.equal x (real_ℕ 0))

  infixl 65 ◌⊕◌ ◌⊖◌
  infixl 70 ◌⊗◌ ◌⊘◌
  abbrev pub ◌⊕◌ : R → R → R
  a ⊕ b = reals.plus a b

  abbrev pub ◌⊖◌ : R → R → R
  a ⊖ b = reals.minus a b

  abbrev pub ◌⊗◌ : R → R → R
  a ⊗ b = reals.times a b

  abbrev pub ◌⊘◌ : R → R → R
  a ⊘ b = reals.over a b
