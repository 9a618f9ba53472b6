-- ===== src/MathParser/Machine/Safe.antt =====
-- The guard of `evaluate_postfix` of src/math_parser.c: on any list of tokens.
use mathlib.Core.Path.{subst}
use hawk.Prelude.{
  ℕ, suc, ◌+◌, ◌≤◌, ◌<◌, ◌≡◌, ◌∙◌, ap, refl, sym, zero, List, [], ◌∷◌, ◌++◌, Outcome, ok, map_ok,
  length, length-append, All, All-append, All-split, arith, aborted, undefined, out_of_fuel, ltb,
  Bool-cases, inl, inr, true, false,
}
use hawk.SpImage.{image_size, Numbers, SpLibrary}
use hawk.MathParser.Token.{
  Operator, Token, image, scalar, operator, comma_token, error, stack_contains, operands_expected,
}
use hawk.MathParser.Stack.{
  TokenStack, stack_max, token_stack_push, token_stack_push-ok, token_stack_size, token_stack_pop,
}
use hawk.MathParser.Evaluate.{
  Flow, returned, running, evaluate_operator, evaluate_token, evaluate_loop, evaluate_postfix,
  finish,
}
use hawk.MathParser.Meaning.{Kind, unary, binary, ternary, keep, no_operator, operands, kind}
use hawk.MathParser.Machine.Sizes.{Yields, Yields-map_ok, IsValue, KeepsSizes}
use hawk.MathParser.Machine.Values.{Meaning, values, failed, results, Accepts, Takes, apply}
use hawk.MathParser.Machine.Total.{IsMeaning, apply-Yields, Yields-bind}
use hawk.MathParser.Machine.Correct.{flow_of, results-le, evaluate_operator-apply}

not_fewer : (a b : ℕ) → ltb a b ≡ false → b ≤ a
not_fewer a b h = ground arith

Yields-mono {ℓ} :
    {A : Type ℓ} (m : Outcome A) (P Q : A → Type 0)
    → ((a : A) → P a → Q a)
    → Yields P m
    → Yields Q m
Yields-mono (ok a) P Q f h = f a h
Yields-mono aborted P Q f h = absurd h
Yields-mono undefined P Q f h = absurd h
Yields-mono out_of_fuel P Q f h = absurd h

split_at {ℓ} :
    {A : Type ℓ} (k : ℕ) (s : List A)
    → k ≤ length s
    → (args rest : List A) × (args ++ rest ≡ s) × (length args ≡ k)
split_at zero s h = ([], s, refl, refl)
split_at (suc k) [] h = absurd (omega arith)
split_at (suc k) (x ∷ s) h =
    let (args, rest, e, l) = split_at k s (omega arith) in (x ∷ args, rest, ap (◌∷◌ x) e, ap suc l)

module _ {R D : Type 0} where
  -- An error token, or a value of `n` pixels.
  abbrev pub IsAnswer : ℕ → Token R D → Type 0
  IsAnswer n (error e) = Unit
  IsAnswer n (image a) = image_size a ≡ n
  IsAnswer n (scalar c) = Unit
  IsAnswer n t = ⊥

module _ {R D : Type 0} (n : ℕ) where
  -- A round that goes on leaves a stack of values, of at most `k` tokens.
  abbrev pub IsFlow : ℕ → Flow R D → Type 0
  IsFlow k (returned t) = IsAnswer n t
  IsFlow k (running s) = All (IsValue n) s × (length s ≤ k)

  flow_of-IsFlow :
      (j k : ℕ) (m : Meaning R D) (rest : TokenStack R D)
      → IsMeaning n j m
      → All (IsValue n) rest
      → j + length rest ≤ k
      → IsFlow k (flow_of rest m)
  flow_of-IsFlow j k (values ts) rest (e, h) hr room =
      (All-append (IsValue n) ts rest h hr, omega (arith, length-append ts rest))
  flow_of-IsFlow j k (failed m) rest h hr room = tt

module _ {R D : Type 0} where
  -- The row of an operator asks for exactly what its function pops.
  abbrev pub IsGuarded : Kind R D → Operator → Type 0
  IsGuarded k o = (o.n_operands ≡ operands k) × (0 < o.n_operands)

  Accepts-operands : (k : Kind R D) → 0 < operands k → Accepts k (operands k)
  Accepts-operands (unary f) p = refl
  Accepts-operands (binary f) p = refl
  Accepts-operands (ternary f) p = refl
  Accepts-operands (keep n) p = omega arith
  Accepts-operands no_operator p = absurd (omega arith)

  IsValue-IsAnswer : (n : ℕ) (t : Token R D) → IsValue n t → IsAnswer n t
  IsValue-IsAnswer n (image a) h = h
  IsValue-IsAnswer n (scalar c) h = tt
  IsValue-IsAnswer n (operator o) h = absurd h
  IsValue-IsAnswer n comma_token h = absurd h
  IsValue-IsAnswer n (error e) h = absurd h

  finish-Yields : (n : ℕ) (s : TokenStack R D) → All (IsValue n) s → Yields (IsAnswer n) (finish s)
  unfolding finish token_stack_size token_stack_pop
  finish-Yields n [] h = tt
  finish-Yields n (t ∷ []) h = IsValue-IsAnswer n t h.0
  finish-Yields n (t ∷ u ∷ s) h =
      let e : finish (t ∷ u ∷ s) ≡ ok (error (stack_contains (length (t ∷ u ∷ s)))) =
        unfold finish token_stack_size in ground arith in
      subst (Yields (IsAnswer n)) (sym e) tt

module _ {R D : Type 0} ⦃num : Numbers R⦄ ⦃lib : SpLibrary R D⦄ where
  -- An operand of `n` pixels, or an operator with the right guard.
  abbrev pub IsRunnable : ℕ → Token R D → Type 0
  IsRunnable n (operator o) = IsGuarded (kind {R = R} {D = D} o.name) o
  IsRunnable n (image a) = image_size a ≡ n
  IsRunnable n (scalar c) = Unit
  IsRunnable n t = ⊥

module _ {R D : Type 0} ⦃num : Numbers R⦄ ⦃lib : SpLibrary R D⦄ (laws : KeepsSizes num lib)
    (n : ℕ) where
  operator_on_split :
      (o : Operator) (args rest : TokenStack R D)
      → IsGuarded (kind {R = R} {D = D} o.name) o
      → length args ≡ o.n_operands
      → All (IsValue n) args
      → All (IsValue n) rest
      → length args + length rest ≤ stack_max
      → Yields (IsFlow n (length args + length rest)) (evaluate_operator o (args ++ rest))
  operator_on_split o args rest (g, p) l ha hr room =
      let k : Kind R D = kind o.name in
      let accepts : Accepts k (length args) =
        subst (Accepts k) (sym (l ∙ g)) (Accepts-operands k (omega (arith, g))) in
      let takes : Takes k o (length args) = (accepts, omega arith, omega arith) in
      subst (Yields (IsFlow n (length args + length rest)))
        (sym (evaluate_operator-apply laws n o args rest takes ha room))
        (Yields-map_ok (IsMeaning n (results k (length args)))
          (IsFlow n (length args + length rest)) (flow_of rest) (apply o args)
          (λ m h.
            flow_of-IsFlow n (results k (length args)) _ m rest h hr
              (omega (arith, results-le k (length args) takes.2)))
          (apply-Yields laws n o (length args) (values args) takes (refl, ha)))

  evaluate_operator-too_few :
      (o : Operator) (s : TokenStack R D)
      → ltb (token_stack_size s) o.n_operands ≡ true
      → evaluate_operator {R = R} {D = D} o s
        ≡ ok (returned (error (operands_expected o.n_operands (token_stack_size s) o.identifier)))
  unfolding evaluate_operator
  evaluate_operator-too_few o s h = rw h

  evaluate_operator-IsFlow :
      (o : Operator) (s : TokenStack R D)
      → IsGuarded (kind {R = R} {D = D} o.name) o
      → All (IsValue n) s
      → length s ≤ stack_max
      → Yields (IsFlow n (length s)) (evaluate_operator o s)
  unfolding token_stack_size
  evaluate_operator-IsFlow o s g h room =
      elim (Bool-cases (ltb (token_stack_size s) o.n_operands)) [
        | inl fewer ↦
            subst (Yields (IsFlow n (length s))) (sym (evaluate_operator-too_few o s fewer)) tt
        | inr enough ↦
            let (args, rest, e, l) =
              split_at o.n_operands s (not_fewer (length s) o.n_operands enough) in
            let (ha, hr) = All-split (IsValue n) args rest (subst (All (IsValue n)) (sym e) h) in
            let long : length args + length rest ≡ length s =
              sym (length-append args rest) ∙ ap length e in
            subst (λ x. Yields (IsFlow n (length s)) (evaluate_operator o x)) e
              (subst (λ k. Yields (IsFlow n k) (evaluate_operator o (args ++ rest))) long
                (operator_on_split o args rest g l ha hr (omega arith)))
      ]

  abbrev Runs : Token R D → Type 0
  Runs t =
      (s : TokenStack R D)
      → All (IsValue n) s
      → length s < stack_max
      → Yields (IsFlow n (suc (length s))) (evaluate_token t s)

  value-Runs :
      (t : Token R D) (s : TokenStack R D)
      → IsValue n t
      → All (IsValue n) s
      → length s < stack_max
      → Yields (IsFlow n (suc (length s))) (map_ok (λ r. running r.1) (token_stack_push t s))
  value-Runs t s h hs room =
      subst (λ m. Yields (IsFlow n (suc (length s))) (map_ok (λ r. running r.1) m))
        (sym (token_stack_push-ok t s (omega arith))) ((h, hs), omega arith)

  IsFlow-mono : (k : ℕ) (f : Flow R D) → IsFlow n k f → IsFlow n (suc k) f
  IsFlow-mono k (returned t) h = h
  IsFlow-mono k (running s) (h, room) = (h, omega arith)

  evaluate_token-IsFlow : (t : Token R D) → IsRunnable n t → Runs t
  unfolding evaluate_token
  evaluate_token-IsFlow (image a) r s h room = value-Runs (image a) s r h room
  evaluate_token-IsFlow (scalar c) r s h room = value-Runs (scalar c) s r h room
  evaluate_token-IsFlow (operator o) r s h room =
      Yields-mono (evaluate_operator o s) (IsFlow n (length s)) (IsFlow n (suc (length s)))
        (IsFlow-mono (length s)) (evaluate_operator-IsFlow o s r h (omega arith))
  evaluate_token-IsFlow comma_token r s h room = absurd r
  evaluate_token-IsFlow (error e) r s h room = absurd r

  -- The room that is left is for the operands to come.
  evaluate_loop-Yields :
      (ts : List (Token R D)) (s : TokenStack R D)
      → All (IsRunnable n) ts
      → All (IsValue n) s
      → length ts + length s ≤ stack_max
      → Yields (IsAnswer n) (evaluate_loop ts s)
  unfolding evaluate_loop
  evaluate_loop-Yields [] s rs h room = finish-Yields n s h
  evaluate_loop-Yields (t ∷ ts) s (r, rs) h room =
      Yields-bind (IsFlow n (suc (length s))) (IsAnswer n) (evaluate_token t s) _
        (evaluate_token-IsFlow t r s h (omega arith))
        (elim [
          | returned e ↦ λ u. u
          | running s' ↦ λ (hs, fits). evaluate_loop-Yields ts s' rs hs (omega arith)
        ])

  -- On any list of at most `STACK_MAX` tokens, in any order, that are images of `n` pixels, numbers
  -- and operators whose row asks for as many operands as their function pops, `evaluate_postfix`
  -- returns an error, a number or an image of `n` pixels: it never leaves the stack or an image. For
  -- this, libspimage keeps the sizes of images.
  pub evaluate_postfix-IsAnswer :
      (ts : List (Token R D))
      → All (IsRunnable n) ts
      → length ts ≤ stack_max
      → Yields (IsAnswer n) (evaluate_postfix ts)
  unfolding evaluate_postfix
  evaluate_postfix-IsAnswer ts h room = evaluate_loop-Yields ts [] h tt (omega arith)
