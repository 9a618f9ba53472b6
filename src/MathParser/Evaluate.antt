-- ===== src/MathParser/Evaluate.antt =====
-- src/math_parser.c, `evaluate_postfix`: the stack machine.
use hawk.Prelude.{List, [], ◌∷◌, Outcome, ok, if◌then◌else◌, ltb, ◌==◌, ◌>>=◌, map_ok}
use hawk.SpImage.{Numbers, SpLibrary}
use hawk.MathParser.Token.{Operator, Token, operator, error, operands_expected, stack_contains}
use hawk.MathParser.Stack.{TokenStack, token_stack_pop, token_stack_push, token_stack_size}
use hawk.MathParser.Table.{run_op}

-- A round of the loop returns a token from the function, or goes on with a stack.
pub data Flow (R D : Type 0) : Type 0 where
  returned : Token R D → Flow R D
  running : TokenStack R D → Flow R D

module _ {R D : Type 0} where
  -- `if(peep->type == TokenError) return peep; token_stack_push(stack,peep);`
  unfoldable pub check_errors : Token R D → TokenStack R D → Outcome (Flow R D)
  unfolding token_stack_push
  check_errors (error e) s = ok (returned (error e))
  check_errors peep s = map_ok (λ r. running r.1) (token_stack_push peep s)

  -- What follows the loop.
  unfoldable pub finish : TokenStack R D → Outcome (Token R D)
  unfolding token_stack_size token_stack_pop
  finish s =
      if token_stack_size s == 1
      then map_ok (λ r. r.0) (token_stack_pop s)
      else ok (error (stack_contains (token_stack_size s)))

  module _ ⦃num : Numbers R⦄ ⦃lib : SpLibrary R D⦄ where
    unfoldable pub evaluate_operator : Operator → TokenStack R D → Outcome (Flow R D)
    unfolding token_stack_pop token_stack_size check_errors
    evaluate_operator o s =
        if ltb (token_stack_size s) o.n_operands
        then ok
            (returned (error (operands_expected o.n_operands (token_stack_size s) o.identifier)))
        else do (_, s1) ← run_op o.name s; (peep, s2) ← token_stack_pop s1; check_errors peep s2

    unfoldable pub evaluate_token : Token R D → TokenStack R D → Outcome (Flow R D)
    unfolding token_stack_push evaluate_operator
    evaluate_token (operator o) s = evaluate_operator o s
    evaluate_token t s = map_ok (λ r. running r.1) (token_stack_push t s)

    unfoldable pub evaluate_loop : List (Token R D) → TokenStack R D → Outcome (Token R D)
    unfolding evaluate_token finish
    evaluate_loop [] s = finish s
    evaluate_loop (t ∷ ts) s = do
      flow ← evaluate_token t s
      elim flow [ returned r ↦ ok r | running s' ↦ evaluate_loop ts s' ]

    unfoldable pub evaluate_postfix : List (Token R D) → Outcome (Token R D)
    unfolding evaluate_loop
    evaluate_postfix ts = evaluate_loop ts []
