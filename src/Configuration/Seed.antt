-- ===== src/Configuration/Seed.antt =====
-- src/configuration.c, `get_random_seed`.
use hawk.Prelude.{◌≡◌, Bool-cases, inl, inr, false, if◌then◌else◌, ℤ, negsuc, eq_int}
use hawk.Options.{Options}

-- `getpid` is a parameter: the number of the process.
module _ {R : Type 0} where
  abbrev with_seed : ℤ → Options R → Options R
  with_seed seed opts = record opts { random_seed = seed }

  unfoldable pub get_random_seed : ℤ → Options R → ℤ × Options R
  get_random_seed getpid opts =
      if eq_int opts.random_seed (negsuc 0)
      then (getpid, with_seed getpid opts)
      else (opts.random_seed, opts)

  -- Whatever the numbers of the processes are, as long as the first is not -1, a call on the options
  -- that another call left returns the seed of that call.
  pub get_random_seed-again :
      (first second : ℤ) (opts : Options R)
      → eq_int first (negsuc 0) ≡ false
      → (get_random_seed second (get_random_seed first opts).1).0 ≡ (get_random_seed first opts).0
  unfolding get_random_seed
  get_random_seed-again first second opts h =
      elim (Bool-cases (eq_int opts.random_seed (negsuc 0))) [
        | inl unset ↦ rw (unset, h)
        | inr set ↦ rw (set, set)
      ]
