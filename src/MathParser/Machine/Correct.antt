-- ===== src/MathParser/Machine/Correct.antt =====
-- `evaluate_postfix` of src/math_parser.c computes the value of an expression.
use mathlib.Core.List.{append_assoc}
use mathlib.Core.Path.{subst}
use hawk.Prelude.{
  ℕ, ◌+◌, ◌≤◌, ◌<◌, ◌≡◌, ◌∙◌, ap, refl, sym, List, [], ◌∷◌, ◌++◌, Outcome, ok, map_ok, length,
  length-append, All, All-append, arith, aborted, undefined, out_of_fuel, Option, none, some,
  le→ltb, bind_assoc, ◌>>=◌,
}
use hawk.SpImage.{Numbers, SpLibrary}
use hawk.MathParser.Token.{Operator, Token, image, scalar, operator, comma_token, error}
use hawk.MathParser.Stack.{
  TokenStack, lift, stack_max, token_stack_pop, token_stack_push, token_stack_push-ok,
  ◌>>=◌ as then_run,
}
use hawk.MathParser.Select.{push_any}
use hawk.MathParser.Evaluate.{
  Flow, returned, running, check_errors, evaluate_operator, evaluate_token, evaluate_loop,
}
use hawk.MathParser.Expr.{Expr, picture, number, prefixed, postfixed, binary, postorder}
use hawk.MathParser.Meaning.{
  Kind, unary, binary as binary_kind, ternary, keep, no_operator, operands, operate, optional, kind,
}
use hawk.MathParser.Machine.Programs.{run_kind, run_op-kind}
use hawk.MathParser.Machine.Sizes.{Yields, IsValue, KeepsSizes}
use hawk.MathParser.Machine.Values.{
  Meaning, values, failed, results, Accepts, Takes, settle, with_values, HasPixels, apply, meaning,
  leaves, HasOperands, width,
}
use hawk.MathParser.Machine.Total.{IsMeaning, operate-Yields, meaning-Yields}
use hawk.MathParser.Machine.Sound.{kind-IsSound}

module _ {R D : Type 0} where
  push-one :
      (m : Outcome (Token R D)) (s : TokenStack R D)
      → 1 + length s ≤ stack_max
      → then_run (lift m) (λ r. token_stack_push r) s
        ≡ map_ok (λ r. (tt, r ++ s)) (map_ok (λ r. r ∷ []) m)
  push-one (ok r) s room = token_stack_push-ok r s room
  push-one aborted s room = refl
  push-one undefined s room = refl
  push-one out_of_fuel s room = refl

  push-any :
      (m : Outcome (Option (Token R D))) (s : TokenStack R D)
      → 1 + length s ≤ stack_max
      → then_run (lift m) push_any s ≡ map_ok (λ r. (tt, r ++ s)) (map_ok optional m)
  push-any (ok none) s room = refl
  push-any (ok (some r)) s room = token_stack_push-ok r s room
  push-any aborted s room = refl
  push-any undefined s room = refl
  push-any out_of_fuel s room = refl

  -- The operands of an operator stand on top of any stack.
  run_kind-operate :
      (k : Kind R D) (args s : TokenStack R D)
      → Accepts k (length args)
      → 1 + length s ≤ stack_max
      → run_kind k (args ++ s) ≡ map_ok (λ r. (tt, r ++ s)) (operate k args)
  unfolding token_stack_pop
  run_kind-operate (unary f) [] s e room = absurd (omega arith)
  run_kind-operate (unary f) (a ∷ []) s e room = push-one (f a) s room
  run_kind-operate (unary f) (a ∷ b ∷ t) s e room = absurd (omega arith)
  run_kind-operate (binary_kind f) [] s e room = absurd (omega arith)
  run_kind-operate (binary_kind f) (b ∷ []) s e room = absurd (omega arith)
  run_kind-operate (binary_kind f) (b ∷ a ∷ []) s e room = push-one (f a b) s room
  run_kind-operate (binary_kind f) (b ∷ a ∷ c ∷ t) s e room = absurd (omega arith)
  run_kind-operate (ternary f) [] s e room = absurd (omega arith)
  run_kind-operate (ternary f) (c ∷ []) s e room = absurd (omega arith)
  run_kind-operate (ternary f) (c ∷ b ∷ []) s e room = absurd (omega arith)
  run_kind-operate (ternary f) (c ∷ b ∷ a ∷ []) s e room = push-any (f a b c) s room
  run_kind-operate (ternary f) (c ∷ b ∷ a ∷ d ∷ t) s e room = absurd (omega arith)
  run_kind-operate (keep k) args s e room = refl
  run_kind-operate no_operator args s e room = absurd e

  -- What a meaning makes of the loop.
  abbrev pub flow_of : TokenStack R D → Meaning R D → Flow R D
  flow_of s (values ts) = running (ts ++ s)
  flow_of s (failed m) = returned (error m)

  -- `peep = pop(stack); if(error) return peep; push(stack, peep);`
  abbrev look : TokenStack R D → Outcome (Flow R D)
  look s = token_stack_pop s >>= λ r. check_errors r.0 r.1

  look-settle :
      (n k : ℕ) (ts s : TokenStack R D)
      → IsMeaning n k (settle ts)
      → 0 < k
      → k + length s ≤ stack_max
      → look (ts ++ s) ≡ ok (flow_of s (settle ts))
  unfolding token_stack_pop check_errors
  look-settle n k [] s h p room = absurd (omega arith)
  look-settle n k (image a ∷ ts) s h p room =
      ap (map_ok (λ r. running r.1))
        (token_stack_push-ok (image a) (ts ++ s) (omega (arith, length-append ts s)))
  look-settle n k (scalar c ∷ ts) s h p room =
      ap (map_ok (λ r. running r.1))
        (token_stack_push-ok (scalar c) (ts ++ s) (omega (arith, length-append ts s)))
  look-settle n k (operator o ∷ ts) s h p room = absurd h.1.0
  look-settle n k (comma_token ∷ ts) s h p room = absurd h.1.0
  look-settle n k (error m ∷ ts) s h p room = refl

  look-operate :
      (n k : ℕ) (m : Outcome (TokenStack R D)) (s : TokenStack R D)
      → Yields (IsMeaning n k) (map_ok settle m)
      → 0 < k
      → k + length s ≤ stack_max
      → (map_ok (λ r. (tt, r ++ s)) m >>= λ (r : Unit {0} × TokenStack R D). look r.1)
        ≡ map_ok (flow_of s) (map_ok settle m)
  look-operate n k (ok ts) s h p room = look-settle n k ts s h p room
  look-operate n k aborted s h p room = refl
  look-operate n k undefined s h p room = refl
  look-operate n k out_of_fuel s h p room = refl

  pub results-le : (k : Kind R D) (n : ℕ) → 0 < n → (results k n ≤ n) × (0 < results k n)
  results-le (unary f) n p = omega arith
  results-le (binary_kind f) n p = omega arith
  results-le (ternary f) n p = omega arith
  results-le (keep k) n p = omega arith
  results-le no_operator n p = omega arith

  operands-le : (k : Kind R D) (n m : ℕ) → Accepts k n → n ≤ m → operands k ≤ m
  operands-le (unary f) n m h p = omega arith
  operands-le (binary_kind f) n m h p = omega arith
  operands-le (ternary f) n m h p = omega arith
  operands-le (keep k) n m h p = omega arith
  operands-le no_operator n m h p = omega arith

bind-congr_Yields {ℓ κ} :
    {A : Type ℓ} {B : Type κ} (P : A → Type 0) (m : Outcome A) (f g : A → Outcome B)
    → Yields P m
    → ((a : A) → P a → f a ≡ g a)
    → (m >>= f) ≡ (m >>= g)
bind-congr_Yields P (ok a) f g h e = e a h
bind-congr_Yields P aborted f g h e = refl
bind-congr_Yields P undefined f g h e = refl
bind-congr_Yields P out_of_fuel f g h e = refl

module _ {R D : Type 0} ⦃num : Numbers R⦄ ⦃lib : SpLibrary R D⦄ (laws : KeepsSizes num lib)
    (n : ℕ) where
  pub evaluate_operator-apply :
      (o : Operator) (args s : TokenStack R D)
      → Takes (kind {R = R} {D = D} o.name) o (length args)
      → All (IsValue n) args
      → length args + length s ≤ stack_max
      → evaluate_operator o (args ++ s) ≡ map_ok (flow_of s) (apply o args)
  unfolding evaluate_operator apply
  evaluate_operator-apply o args s (accepts, asks, some_) h room =
      let long : length (args ++ s) ≡ length args + length s = length-append args s in
      let (fewer, pos_) = results-le (kind {R = R} {D = D} o.name) (length args) some_ in
      rw (le→ltb (length (args ++ s)) o.n_operands (omega arith)) (
        ap (λ m. m >>= λ (r : Unit {0} × TokenStack R D). look r.1)
          (run_op-kind o.name (args ++ s)
              (operands-le (kind o.name) (length args) _ accepts (omega arith)) (omega arith)
            ∙ run_kind-operate (kind o.name) args s accepts (omega arith))
        ∙ look-operate n (results (kind {R = R} {D = D} o.name) (length args))
            (operate (kind o.name) args) s
            (operate-Yields n (kind o.name) args (kind-IsSound laws n o.name) accepts h) pos_
            (omega arith))

  -- How the loop goes on after an expression.
  abbrev pub resume : Meaning R D → List (Token R D) → TokenStack R D → Outcome (Token R D)
  resume (values vs) ts s = evaluate_loop ts (vs ++ s)
  resume (failed m) ts s = ok (error m)

  resume-flow :
      (m : Outcome (Meaning R D)) (ts : List (Token R D)) (s : TokenStack R D)
      → (map_ok (flow_of s) m >>= elim [ returned r ↦ ok r | running s' ↦ evaluate_loop ts s' ])
        ≡ (m >>= λ m'. resume m' ts s)
  resume-flow (ok (values vs)) ts s = refl
  resume-flow (ok (failed m)) ts s = refl
  resume-flow aborted ts s = refl
  resume-flow undefined ts s = refl
  resume-flow out_of_fuel ts s = refl

  resume-operator :
      (o : Operator) (k : ℕ) (m : Meaning R D) (ts : List (Token R D)) (s : TokenStack R D)
      → Takes (kind {R = R} {D = D} o.name) o k
      → IsMeaning n k m
      → k + length s ≤ stack_max
      → resume m (operator o ∷ ts) s ≡ (with_values m (apply o) >>= λ m'. resume m' ts s)
  resume-operator o k (failed m) ts s takes h room = refl
  resume-operator o k (values vs) ts s takes (e, h) room =
      unfold evaluate_loop evaluate_token in
      (ap
          (λ m.
            m >>= λ (f : Flow R D). elim f [ returned r ↦ ok r | running s' ↦ evaluate_loop ts s' ])
          (evaluate_operator-apply o vs s
            (subst (Takes (kind {R = R} {D = D} o.name) o) (sym e) takes) h (omega arith))
        ∙ resume-flow (apply o vs) ts s)

  leaves-le-width : (e : Expr R D) → HasOperands e → (leaves e ≤ width e) × (0 < leaves e)
  leaves-le-width (picture a) w = omega arith
  leaves-le-width (number c) w = omega arith
  leaves-le-width (prefixed o e) (w, takes) =
      omega
        (arith, leaves-le-width e w, results-le (kind {R = R} {D = D} o.name) (leaves e) takes.2)
  leaves-le-width (postfixed e o) (w, takes) =
      omega
        (arith, leaves-le-width e w, results-le (kind {R = R} {D = D} o.name) (leaves e) takes.2)
  leaves-le-width (binary l o r) (wl, wr, takes) = omega (
    arith,
    leaves-le-width l wl,
    leaves-le-width r wr,
    results-le (kind {R = R} {D = D} o.name) (leaves r + leaves l) takes.2,
  )

  resume-right :
      (o : Operator) (k j : ℕ) (ls : List (Token R D)) (m : Meaning R D) (ts : List (Token R D))
      (s : TokenStack R D)
      → Takes (kind {R = R} {D = D} o.name) o (j + k)
      → IsMeaning n k (values ls)
      → IsMeaning n j m
      → j + k + length s ≤ stack_max
      → resume m (operator o ∷ ts) (ls ++ s)
        ≡ (with_values m (λ rs. apply o (rs ++ ls)) >>= λ m'. resume m' ts s)
  resume-right o k j ls (failed m) ts s takes hl hr room = refl
  resume-right o k j ls (values rs) ts s takes (el, hl) (er, hr) room =
      ap (evaluate_loop (operator o ∷ ts)) (sym (append_assoc rs ls s))
      ∙ resume-operator o (j + k) (values (rs ++ ls)) ts s takes
          (omega (arith, length-append rs ls), All-append (IsValue n) rs ls hr hl) room

  -- An operator behind the one expression that it applies to.
  after-operand :
      (e : Expr R D) (o : Operator) (ts : List (Token R D)) (s : TokenStack R D)
      → Yields (IsMeaning n (leaves e)) (meaning e)
      → Takes (kind {R = R} {D = D} o.name) o (leaves e)
      → leaves e + length s ≤ stack_max
      → evaluate_loop (postorder e ++ operator o ∷ ts) s
        ≡ (meaning e >>= λ m. resume m (operator o ∷ ts) s)
      → evaluate_loop ((postorder e ++ operator o ∷ []) ++ ts) s
        ≡ (meaning e >>= (λ m. with_values m (apply o)) >>= λ m. resume m ts s)
  after-operand e o ts s h takes room ih =
      ap (λ l. evaluate_loop l s) (append_assoc (postorder e) (operator o ∷ []) ts)
      ∙ ih
      ∙ bind-congr_Yields (IsMeaning n (leaves e)) (meaning e) _ _ h
          (λ m hm. resume-operator o (leaves e) m ts s takes hm room)
      ∙ sym (bind_assoc (meaning e) _ _)

  pub evaluate_loop-postorder :
      (e : Expr R D) (ts : List (Token R D)) (s : TokenStack R D)
      → HasPixels n e
      → HasOperands e
      → width e + length s ≤ stack_max
      → evaluate_loop (postorder e ++ ts) s ≡ (meaning e >>= λ m. resume m ts s)
  unfolding postorder meaning
  evaluate_loop-postorder (picture a) ts s p w room =
      unfold evaluate_loop evaluate_token in rw (token_stack_push-ok (image a) s room)
  evaluate_loop-postorder (number c) ts s p w room =
      unfold evaluate_loop evaluate_token in rw (token_stack_push-ok (scalar c) s room)
  evaluate_loop-postorder (prefixed o e) ts s p (w, takes) room =
      after-operand e o ts s (meaning-Yields laws n e p w) takes
        (omega (arith, leaves-le-width e w))
        (evaluate_loop-postorder e (operator o ∷ ts) s p w room)
  evaluate_loop-postorder (postfixed e o) ts s p (w, takes) room =
      after-operand e o ts s (meaning-Yields laws n e p w) takes
        (omega (arith, leaves-le-width e w))
        (evaluate_loop-postorder e (operator o ∷ ts) s p w room)
  evaluate_loop-postorder (binary l o r) ts s (pl, pr) (wl, wr, takes) room =
      ap (λ x. evaluate_loop x s)
        (append_assoc (postorder l) _ ts
          ∙ ap (λ x. postorder l ++ x) (append_assoc (postorder r) (operator o ∷ []) ts))
      ∙ evaluate_loop-postorder l (postorder r ++ operator o ∷ ts) s pl wl (omega arith)
      ∙ bind-congr_Yields (IsMeaning n (leaves l)) (meaning l) _ _ (meaning-Yields laws n l pl wl)
          (elim [
            | values ls ↦ λ hl.
                evaluate_loop-postorder r (operator o ∷ ts) (ls ++ s) pr wr
                  (omega (arith, length-append ls s, hl.0))
                ∙ bind-congr_Yields (IsMeaning n (leaves r)) (meaning r) _ _
                    (meaning-Yields laws n r pr wr)
                    (λ m hr.
                      resume-right o (leaves l) (leaves r) ls m ts s takes hl hr
                        (omega (arith, leaves-le-width r wr)))
                ∙ sym (bind_assoc (meaning r) _ _)
            | failed m ↦ λ hl. refl
          ])
      ∙ sym (bind_assoc (meaning l) _ _)
