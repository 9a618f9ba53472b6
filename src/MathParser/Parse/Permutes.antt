-- ===== src/MathParser/Parse/Permutes.antt =====
-- `parse_tokens` returns, and only moves tokens: nothing is lost, nothing is written twice, and the
-- array of as many entries as the input, whose end it marks, is filled exactly.
use mathlib.Core.List.{Perm, append_assoc, append-nil, map-append, perm_middle, perm_append_comm}
use mathlib.Core.List.Perm
use mathlib.Core.Path.{subst}
use hawk.Prelude.{
  ℕ, suc, ◌+◌, ◌≤◌, ◌≡◌, refl, ap, List, [], ◌∷◌, ◌++◌, map, Outcome, ok, map_ok, length,
  length-append, lt→ltb, arith,
}
use hawk.MathParser.Token.{Operator, Token, operator, image, scalar, comma_token, error}
use hawk.MathParser.Stack.{stack_max}
use hawk.MathParser.Shunting.{make_room, emit, parse_loop, parse_tokens}
use hawk.MathParser.Parse.Loops.{make_room-append}

module _ {R D : Type 0} where
  abbrev pub count_operators : List (Token R D) → ℕ
  count_operators [] = 0
  count_operators (operator x ∷ ts) = suc (count_operators ts)
  count_operators (image a ∷ ts) = count_operators ts
  count_operators (scalar c ∷ ts) = count_operators ts
  count_operators (comma_token ∷ ts) = count_operators ts
  count_operators (error e ∷ ts) = count_operators ts

  -- A run that returns a permutation of the tokens.
  abbrev pub ReturnsPerm : List (Token R D) → Outcome (List (Token R D)) → Type 0
  ReturnsPerm ts m = (out : List (Token R D)) × (m ≡ ok out) × Perm out ts

  ReturnsPerm-cons :
      (t : Token R D) (ts : List (Token R D)) (m : Outcome (List (Token R D)))
      → ReturnsPerm ts m
      → ReturnsPerm (t ∷ ts) (map_ok (◌∷◌ t) m)
  ReturnsPerm-cons t ts m (out, e, p) = (t ∷ out, rw e, Perm.cons t p)

  perm_regroup :
      (x : Token R D) (ps rs ts : List (Token R D))
      → Perm (ps ++ (ts ++ x ∷ rs)) (x ∷ (ts ++ (ps ++ rs)))
  perm_regroup x ps rs ts =
      Perm.trans
        (subst (λ l. Perm l (x ∷ ((ps ++ ts) ++ rs))) (append_assoc ps ts (x ∷ rs))
          (perm_middle (ps ++ ts) rs))
        (Perm.cons x (
          subst (Perm ((ps ++ ts) ++ rs)) (append_assoc ts ps rs)
            (Perm.append_right rs (perm_append_comm ps ts))))

  ReturnsPerm-emit :
      (x : Operator) (s popped rest : List Operator) (ts : List (Token R D))
      (m : Outcome (List (Token R D)))
      → popped ++ rest ≡ s
      → ReturnsPerm (ts ++ map operator (x ∷ rest)) m
      → ReturnsPerm (operator x ∷ (ts ++ map operator s)) (emit popped m)
  ReturnsPerm-emit x s popped rest ts m whole (out, e, p) = (
    map operator popped ++ out,
    rw e,
    rw (← whole, map-append)
        (Perm.trans (Perm.append_left (map operator popped) p)
          (perm_regroup (operator x) (map operator popped) (map operator rest) ts)),
  )

  parse_loop-ReturnsPerm :
      (ts : List (Token R D)) (s : List Operator)
      → count_operators ts + length s ≤ stack_max
      → ReturnsPerm (ts ++ map operator s) (parse_loop ts s)
  unfolding parse_loop
  parse_loop-ReturnsPerm [] s h = (map operator s, refl, Perm.refl _)
  parse_loop-ReturnsPerm (operator x ∷ ts) s h =
      let (popped, rest) = make_room x s in
      let whole = make_room-append x s in
      let shorter : length rest ≤ length s =
        omega (arith, ap length whole, length-append popped rest) in
      ReturnsPerm-emit x s popped rest ts _ whole (
        rw (lt→ltb (length rest) stack_max (omega arith))
          (parse_loop-ReturnsPerm ts (x ∷ rest) (omega arith)))
  parse_loop-ReturnsPerm (image a ∷ ts) s h =
      ReturnsPerm-cons (image a) _ _ (parse_loop-ReturnsPerm ts s h)
  parse_loop-ReturnsPerm (scalar c ∷ ts) s h =
      ReturnsPerm-cons (scalar c) _ _ (parse_loop-ReturnsPerm ts s h)
  parse_loop-ReturnsPerm (comma_token ∷ ts) s h =
      ReturnsPerm-cons comma_token _ _ (parse_loop-ReturnsPerm ts s h)
  parse_loop-ReturnsPerm (error e ∷ ts) s h =
      ReturnsPerm-cons (error e) _ _ (parse_loop-ReturnsPerm ts s h)

  -- Of a list with at most `STACK_MAX` operators `parse_tokens` returns a permutation: it never
  -- aborts or leaves the operator stack, and what it writes is each token of the input, once.
  pub parse_tokens-perm :
      (ts : List (Token R D))
      → count_operators ts ≤ stack_max
      → (out : List (Token R D)) × (parse_tokens ts ≡ ok out) × Perm out ts
  unfolding parse_tokens
  parse_tokens-perm ts h = rw append-nil at (parse_loop-ReturnsPerm ts [] (omega arith))
