-- ===== src/MathParser/Parse/Trees.antt =====
-- `parse_tokens` finds the tree that precedence and associativity determine.
use mathlib.Core.List.{append_assoc, append-nil, map-append}
use hawk.Prelude.{
  ◌+◌, ◌≤◌, ◌≡◌, ◌∙◌, refl, ap, sym, true, false, List, [], ◌∷◌, ◌++◌, map, Outcome, ok, map_ok,
  length, lt→ltb, arith, All, All-split, aborted, undefined, out_of_fuel,
}
use hawk.MathParser.Token.{Operator, Token, operator, image, scalar}
use hawk.MathParser.Stack.{stack_max}
use hawk.MathParser.Shunting.{pop_while, parse_loop, parse_tokens}
use hawk.MathParser.Expr.{
  Expr, picture, number, prefixed, postfixed, binary, gives_way, infix_list, postorder, operators,
  right_spine, height, Respects,
}
use hawk.MathParser.Parse.Loops.{IsBelow, IsSorted, make_room-eq-pop_while}

-- The top of the stack stays when `x` comes.
abbrev Blocks : List Operator → Operator → Type 0
Blocks [] x = Unit
Blocks (y ∷ s) x = gives_way x y ≡ false

Blocks-IsBelow : (s : List Operator) (x : Operator) → Blocks s x → IsBelow x s
Blocks-IsBelow [] x h = tt
Blocks-IsBelow (y ∷ s) x h = ground arith

pop_while-spine :
    (x : Operator) (ps s : List Operator)
    → All (λ y. gives_way x y ≡ true) ps
    → Blocks s x
    → pop_while (gives_way x) (ps ++ s) ≡ (ps, s)
unfolding pop_while
pop_while-spine x [] [] h b = refl
pop_while-spine x [] (y ∷ s) h b = rw b
pop_while-spine x (p ∷ ps) s (h, hs) b = rw (h, pop_while-spine x ps s hs b)

All-Blocks_nil : (xs : List Operator) → All (Blocks []) xs
All-Blocks_nil [] = tt
All-Blocks_nil (x ∷ xs) = (tt, All-Blocks_nil xs)

module _ {R D : Type 0} where
  -- The tokens that are out when the last token of `e` has been read.
  abbrev written : Expr R D → List (Token R D)
  written (picture a) = image a ∷ []
  written (number c) = scalar c ∷ []
  written (prefixed o e) = written e
  written (postfixed e o) = written e ++ map operator (right_spine e)
  written (binary l o r) = (written l ++ map operator (right_spine l)) ++ written r

  abbrev write : List (Token R D) → Outcome (List (Token R D)) → Outcome (List (Token R D))
  write xs = map_ok (λ out. xs ++ out)

  write-write :
      (xs ys : List (Token R D)) (m : Outcome (List (Token R D)))
      → write xs (write ys m) ≡ write (xs ++ ys) m
  write-write xs ys (ok out) = ap ok (sym (append_assoc xs ys out))
  write-write xs ys aborted = refl
  write-write xs ys undefined = refl
  write-write xs ys out_of_fuel = refl

  written-postorder : (e : Expr R D) → written e ++ map operator (right_spine e) ≡ postorder e
  unfolding postorder
  written-postorder (picture a) = refl
  written-postorder (number c) = refl
  written-postorder (prefixed o e) = rw (map-append, ← append_assoc, written-postorder e)
  written-postorder (postfixed e o) = rw (written-postorder e)
  written-postorder (binary l o r) =
      rw (map-append, written-postorder l)
        (append_assoc (postorder l) (written r) _
          ∙ ap (λ ts. postorder l ++ ts)
              (sym (append_assoc (written r) _ _)
                ∙ ap (λ ts. ts ++ operator o ∷ []) (written-postorder r)))

  spine-IsSorted :
      (e : Expr R D) (s : List Operator)
      → Respects e
      → All (Blocks s) (operators e)
      → IsSorted s
      → IsSorted (right_spine e ++ s)
  spine-IsSorted (picture a) s w b h = h
  spine-IsSorted (number c) s w b h = h
  spine-IsSorted (prefixed o e) s (w, k) (bo, b) h =
      rw append_assoc (spine-IsSorted e (o ∷ s) w k (Blocks-IsBelow s o bo, h))
  spine-IsSorted (postfixed e o) s w b h =
      let (_, last) = All-split (Blocks s) (operators e) (o ∷ []) b in
      (Blocks-IsBelow s o last.0, h)
  spine-IsSorted (binary l o r) s (wl, wr, kl, kr) b h =
      let (_, own) = All-split (Blocks s) (operators l) (o ∷ operators r) b in
      rw append_assoc (spine-IsSorted r (o ∷ s) wr kr (Blocks-IsBelow s o own.0, h))

  write-nil : (m : Outcome (List (Token R D))) → write [] m ≡ m
  write-nil (ok out) = refl
  write-nil aborted = refl
  write-nil undefined = refl
  write-nil out_of_fuel = refl

  -- An operator for which `ps` gives way down to `s`.
  parse_loop-operator :
      (o : Operator) (ts : List (Token R D)) (ps s : List Operator)
      → All (λ y. gives_way o y ≡ true) ps
      → Blocks s o
      → IsSorted (ps ++ s)
      → 1 + length s ≤ stack_max
      → parse_loop (operator o ∷ ts) (ps ++ s) ≡ write (map operator ps) (parse_loop ts (o ∷ s))
  unfolding parse_loop
  parse_loop-operator o ts ps s k b h room =
      rw (make_room-eq-pop_while o (ps ++ s) h, pop_while-spine o ps s k b)
        (rw (lt→ltb (length s) stack_max (omega arith)))

  parse_loop-tree :
      (e : Expr R D) (ts : List (Token R D)) (s : List Operator)
      → Respects e
      → All (Blocks s) (operators e)
      → IsSorted s
      → height e + length s ≤ stack_max
      → parse_loop (infix_list e ++ ts) s ≡ write (written e) (parse_loop ts (right_spine e ++ s))
  unfolding infix_list
  parse_loop-tree (picture a) ts s w b h room = unfold parse_loop in refl
  parse_loop-tree (number c) ts s w b h room = unfold parse_loop in refl
  parse_loop-tree (prefixed o e) ts s (w, k) (bo, b) h room =
      parse_loop-operator o (infix_list e ++ ts) [] s tt bo h (omega arith)
      ∙ write-nil _
      ∙ parse_loop-tree e ts (o ∷ s) w k (Blocks-IsBelow s o bo, h) (omega arith)
      ∙ rw append_assoc
  parse_loop-tree (postfixed e o) ts s (w, k) b h room =
      let (be, last) = All-split (Blocks s) (operators e) (o ∷ []) b in
      ap (λ l. parse_loop l s) (append_assoc (infix_list e) (operator o ∷ []) ts)
      ∙ parse_loop-tree e (operator o ∷ ts) s w be h (omega arith)
      ∙ ap (write (written e)) (
          parse_loop-operator o ts (right_spine e) s k last.0 (spine-IsSorted e s w be h)
            (omega arith))
      ∙ write-write (written e) _ _
  parse_loop-tree (binary l o r) ts s (wl, wr, kl, kr) b h room =
      let (bl, own) = All-split (Blocks s) (operators l) (o ∷ operators r) b in
      ap (λ x. parse_loop x s) (append_assoc (infix_list l) (operator o ∷ infix_list r) ts)
      ∙ parse_loop-tree l (operator o ∷ (infix_list r ++ ts)) s wl bl h (omega arith)
      ∙ ap (write (written l)) (
          parse_loop-operator o (infix_list r ++ ts) (right_spine l) s kl own.0
            (spine-IsSorted l s wl bl h) (omega arith)
          ∙ ap (write (map operator (right_spine l)))
              (parse_loop-tree r ts (o ∷ s) wr kr (Blocks-IsBelow s o own.0, h) (omega arith)))
      ∙ write-write (written l) _ _
      ∙ write-write _ (written r) _
      ∙ ap (λ x. write (written (binary l o r)) (parse_loop ts x))
          (sym (append_assoc (right_spine r) (o ∷ []) s))

  -- If precedence and associativity determine the tree of an expression and no more than `STACK_MAX`
  -- of its operators wait at once, `parse_tokens` turns its infix tokens into the postorder of that
  -- tree.
  pub parse_tokens-infix_list :
      (e : Expr R D)
      → Respects e
      → height e ≤ stack_max
      → parse_tokens (infix_list e) ≡ ok (postorder e)
  unfolding parse_tokens
  parse_tokens-infix_list e w room =
      ap (λ l. parse_loop l []) (sym (append-nil (infix_list e)))
      ∙ parse_loop-tree e [] [] w (All-Blocks_nil (operators e)) tt (omega arith)
      ∙ unfold parse_loop in rw append-nil (ap ok (written-postorder e))
