-- ===== src/MathParser/Machine/Total.antt =====
-- Expressions of src/math_parser.c over images of one size have a meaning.
use mathlib.Core.Path.{subst}
use hawk.Prelude.{
  ℕ, ◌+◌, ◌≡◌, refl, sym, List, [], ◌∷◌, ◌++◌, Outcome, ok, map_ok, ◌>>=◌, length, length-append,
  All, All-append, arith, aborted, undefined, out_of_fuel, Option, none, some,
}
use hawk.SpImage.{Numbers, SpLibrary}
use hawk.MathParser.Token.{Operator, Token, image, scalar, operator, comma_token, error}
use hawk.MathParser.Expr.{Expr, picture, number, prefixed, postfixed, binary}
use hawk.MathParser.Meaning.{
  Kind, unary, binary as binary_kind, ternary, keep, no_operator, operate, optional, kind,
}
use hawk.MathParser.Machine.Sizes.{Yields, IsValue, IsResult, IsSome, IsSound, KeepsSizes}
use hawk.MathParser.Machine.Sound.{kind-IsSound}
use hawk.MathParser.Machine.Values.{
  Meaning, values, failed, results, Accepts, Takes, settle, with_values, HasPixels, apply, meaning,
  leaves, HasOperands,
}

pub Yields-bind {ℓ κ} :
    {A : Type ℓ} {B : Type κ} (P : A → Type 0) (Q : B → Type 0) (m : Outcome A) (f : A → Outcome B)
    → Yields P m
    → ((a : A) → P a → Yields Q (f a))
    → Yields Q (m >>= f)
Yields-bind P Q (ok a) f h k = k a h
Yields-bind P Q aborted f h k = absurd h
Yields-bind P Q undefined f h k = absurd h
Yields-bind P Q out_of_fuel f h k = absurd h

module _ {R D : Type 0} (n : ℕ) where
  -- `k` values of `n` pixels, or an error.
  abbrev pub IsMeaning : ℕ → Meaning R D → Type 0
  IsMeaning k (values ts) = (length ts ≡ k) × All (IsValue n) ts
  IsMeaning k (failed m) = Unit

  settle-one : (t : Token R D) → IsResult n t → IsMeaning 1 (settle (t ∷ []))
  settle-one (image a) h = (refl, (h, tt))
  settle-one (scalar c) h = (refl, (tt, tt))
  settle-one (operator o) h = absurd h
  settle-one comma_token h = absurd h
  settle-one (error m) h = tt

  settle-some : (t : Option (Token R D)) → IsSome n t → IsMeaning 1 (settle (optional t))
  settle-some none h = absurd h
  settle-some (some t) h = settle-one t h

  settle-values :
      (ts : List (Token R D)) (k : ℕ) → length ts ≡ k → All (IsValue n) ts → IsMeaning k (settle ts)
  settle-values [] k e h = (e, h)
  settle-values (image a ∷ ts) k e h = (e, h)
  settle-values (scalar c ∷ ts) k e h = (e, h)
  settle-values (operator o ∷ ts) k e h = (e, h)
  settle-values (comma_token ∷ ts) k e h = (e, h)
  settle-values (error m ∷ ts) k e h = tt

  settle-all :
      (m : Outcome (Token R D))
      → Yields (IsResult n) m
      → Yields (IsMeaning 1) (map_ok settle (map_ok (λ r. r ∷ []) m))
  settle-all (ok r) h = settle-one r h
  settle-all aborted h = absurd h
  settle-all undefined h = absurd h
  settle-all out_of_fuel h = absurd h

  settle-any :
      (m : Outcome (Option (Token R D)))
      → Yields (IsSome n) m
      → Yields (IsMeaning 1) (map_ok settle (map_ok optional m))
  settle-any (ok r) h = settle-some r h
  settle-any aborted h = absurd h
  settle-any undefined h = absurd h
  settle-any out_of_fuel h = absurd h

  pub operate-Yields :
      (k : Kind R D) (args : List (Token R D))
      → IsSound n k
      → Accepts k (length args)
      → All (IsValue n) args
      → Yields (IsMeaning (results k (length args))) (map_ok settle (operate k args))
  operate-Yields (unary f) [] sound e h = absurd (omega arith)
  operate-Yields (unary f) (a ∷ []) sound e (ha, _) = settle-all (f a) (sound a ha)
  operate-Yields (unary f) (a ∷ b ∷ s) sound e h = absurd (omega arith)
  operate-Yields (binary_kind f) [] sound e h = absurd (omega arith)
  operate-Yields (binary_kind f) (b ∷ []) sound e h = absurd (omega arith)
  operate-Yields (binary_kind f) (b ∷ a ∷ []) sound e (hb, (ha, _)) =
      settle-all (f a b) (sound a b ha hb)
  operate-Yields (binary_kind f) (b ∷ a ∷ c ∷ s) sound e h = absurd (omega arith)
  operate-Yields (ternary f) [] sound e h = absurd (omega arith)
  operate-Yields (ternary f) (c ∷ []) sound e h = absurd (omega arith)
  operate-Yields (ternary f) (c ∷ b ∷ []) sound e h = absurd (omega arith)
  operate-Yields (ternary f) (c ∷ b ∷ a ∷ []) sound e (hc, (hb, (ha, _))) =
      settle-any (f a b c) (sound a b c ha hb hc)
  operate-Yields (ternary f) (c ∷ b ∷ a ∷ d ∷ s) sound e h = absurd (omega arith)
  operate-Yields (keep k) args sound e h = settle-values args (length args) refl h
  operate-Yields no_operator args sound e h = absurd e

module _ {R D : Type 0} ⦃num : Numbers R⦄ ⦃lib : SpLibrary R D⦄ (laws : KeepsSizes num lib)
    (n : ℕ) where
  pub apply-Yields :
      (o : Operator) (k : ℕ) (m : Meaning R D)
      → Takes (kind {R = R} {D = D} o.name) o k
      → IsMeaning n k m
      → Yields (IsMeaning n (results (kind {R = R} {D = D} o.name) k)) (with_values m (apply o))
  unfolding apply
  apply-Yields o k (values ts) takes (e, h) =
      subst (λ j. Yields (IsMeaning n (results (kind {R = R} {D = D} o.name) j)) (apply o ts)) e
        (operate-Yields n (kind o.name) ts (kind-IsSound laws n o.name)
          (subst (Accepts (kind o.name)) (sym e) takes.0) h)
  apply-Yields o k (failed m) takes h = tt

  pub join-IsMeaning :
      (o : Operator) (k j : ℕ) (ls : List (Token R D)) (m : Meaning R D)
      → Takes (kind {R = R} {D = D} o.name) o (j + k)
      → IsMeaning n k (values ls)
      → IsMeaning n j m
      → Yields
          (IsMeaning n (results (kind {R = R} {D = D} o.name) (j + k)))
          (with_values m λ rs. apply o (rs ++ ls))
  join-IsMeaning o k j ls (failed m) takes hl hr = tt
  join-IsMeaning o k j ls (values rs) takes (el, hl) (er, hr) =
      apply-Yields o (j + k) (values (rs ++ ls)) takes
        (omega (arith, length-append rs ls), All-append (IsValue n) rs ls hr hl)

  -- An expression over images of `n` pixels whose operators have their operands has a meaning: its
  -- values, each an image of `n` pixels or a number, or an error; never a crash.
  pub meaning-Yields :
      (e : Expr R D) → HasPixels n e → HasOperands e → Yields (IsMeaning n (leaves e)) (meaning e)
  unfolding meaning
  meaning-Yields (picture a) p w = (refl, (p, tt))
  meaning-Yields (number c) p w = (refl, (tt, tt))
  meaning-Yields (prefixed o e) p (w, takes) =
      Yields-bind (IsMeaning n (leaves e)) _ (meaning e) _ (meaning-Yields e p w)
        λ m h. apply-Yields o (leaves e) m takes h
  meaning-Yields (postfixed e o) p (w, takes) =
      Yields-bind (IsMeaning n (leaves e)) _ (meaning e) _ (meaning-Yields e p w)
        λ m h. apply-Yields o (leaves e) m takes h
  meaning-Yields (binary l o r) (pl, pr) (wl, wr, takes) =
      Yields-bind (IsMeaning n (leaves l)) _ (meaning l) _ (meaning-Yields l pl wl) (elim [
        | values ls ↦ λ hl.
            Yields-bind (IsMeaning n (leaves r)) _ (meaning r) _ (meaning-Yields r pr wr)
              λ m hr. join-IsMeaning o (leaves l) (leaves r) ls m takes hl hr
        | failed m ↦ λ hl. tt
      ])
