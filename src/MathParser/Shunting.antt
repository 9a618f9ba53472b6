-- ===== src/MathParser/Shunting.antt =====
-- src/math_parser.c, `parse_tokens`: from infix to postfix by precedence.
-- The stack of this function holds operator tokens only; it is a list of operators, its top first.
-- What the source writes to `postfix` is the list that comes back, in that order. The push is the
-- one of `Stack`: on a stack of `STACK_MAX` tokens it leaves the array.
use hawk.Prelude.{
  Bool, true, false, List, [], ◌∷◌, ◌++◌, map, Outcome, ok, undefined, map_ok, if◌then◌else◌,
  lt_int, eq_int, ltb, length,
}
use hawk.MathParser.Token.{
  Operator, OperatorAssociativity, left_associative, Token, operator, image, scalar, comma_token,
  error,
}
use hawk.MathParser.Stack.{stack_max}

-- `while(size(stack) && p(top(stack))) postfix[postfix_index++] = pop(stack);`
-- What is popped, in that order, and the stack that is left.
unfoldable pub pop_while : (Operator → Bool) → List Operator → List Operator × List Operator
pop_while p [] = ([], [])
pop_while p (y ∷ s) =
    let (popped, rest) = pop_while p s in if p y then (y ∷ popped, rest) else ([], y ∷ s)

abbrev pub is_left : OperatorAssociativity → Bool
is_left left_associative = true
is_left _ = false

abbrev pub is_lower : Operator → Operator → Bool
is_lower x y = lt_int x.precedence y.precedence

abbrev pub is_same : Operator → Operator → Bool
is_same x y = eq_int x.precedence y.precedence

-- The two loops that make room for `x`: operators of a higher precedence, then, if `x` is left
-- associative, operators of the same precedence.
unfoldable pub make_room : Operator → List Operator → List Operator × List Operator
unfolding pop_while
make_room x s =
    let (higher, s1) = pop_while (is_lower x) s in
    let (same, s2) = pop_while (is_same x) s1 in
    if is_left x.associativity then (higher ++ same, s2) else (higher, s1)

module _ {R D : Type 0} where
  abbrev pub emit : List Operator → Outcome (List (Token R D)) → Outcome (List (Token R D))
  emit popped = map_ok (λ out. map operator popped ++ out)

  unfoldable pub parse_loop : List (Token R D) → List Operator → Outcome (List (Token R D))
  parse_loop [] s = ok (map operator s)
  parse_loop (operator x ∷ ts) s =
      let (popped, rest) = make_room x s in
      emit popped (if ltb (length rest) stack_max then parse_loop ts (x ∷ rest) else undefined)
  parse_loop (image a ∷ ts) s = map_ok (◌∷◌ (image a)) (parse_loop ts s)
  parse_loop (scalar c ∷ ts) s = map_ok (◌∷◌ (scalar c)) (parse_loop ts s)
  parse_loop (comma_token ∷ ts) s = map_ok (◌∷◌ comma_token) (parse_loop ts s)
  parse_loop (error e ∷ ts) s = map_ok (◌∷◌ (error e)) (parse_loop ts s)

  unfoldable pub parse_tokens : List (Token R D) → Outcome (List (Token R D))
  unfolding parse_loop
  parse_tokens infix_tokens = parse_loop infix_tokens []
