-- ===== src/MathParser/Answers.antt =====
-- The three passes of src/math_parser.c together.
use mathlib.Core.List.{append-nil}
use hawk.Prelude.{
  ℕ, ◌≤◌, ◌≡◌, ◌∙◌, refl, sym, ap, List, [], ◌∷◌, Outcome, ok, aborted, undefined, out_of_fuel,
  ◌>>=◌, arith,
}
use hawk.SpImage.{Image, Numbers, SpLibrary}
use hawk.MathParser.Stack.{TokenStack, stack_max, token_stack_size, token_stack_pop}
use hawk.MathParser.Expr.{Expr, infix_list, postorder, height, Respects}
use hawk.MathParser.Shunting.{parse_tokens}
use hawk.MathParser.Parse.Trees.{parse_tokens-infix_list}
use hawk.MathParser.Evaluate.{finish, evaluate_loop, evaluate_postfix}
use hawk.MathParser.Machine.Sizes.{Yields, KeepsSizes}
use hawk.MathParser.Machine.Values.{
  Meaning, values, failed, conclude, HasPixels, meaning, leaves, HasOperands, width,
}
use hawk.MathParser.Machine.Total.{IsMeaning, meaning-Yields}
use hawk.MathParser.Machine.Correct.{resume, evaluate_loop-postorder}
use hawk.MathParser.Tokenize.{Tokens, tokens, tokens_of, tokenize_string}
use hawk.MathParser.Run.{math_output, evaluate_math_expression}

Yields-ok {ℓ} :
    {A : Type ℓ} (P : A → Type 0) (m : Outcome A) → Yields P m → (a : A) × (m ≡ ok a) × P a
Yields-ok P (ok a) h = (a, refl, h)
Yields-ok P aborted h = absurd h
Yields-ok P undefined h = absurd h
Yields-ok P out_of_fuel h = absurd h

module _ {R D : Type 0} where
  finish-conclude : (ts : TokenStack R D) → finish ts ≡ ok (conclude (values ts))
  unfolding finish token_stack_size token_stack_pop
  finish-conclude [] = refl
  finish-conclude (t ∷ []) = refl
  finish-conclude (t ∷ u ∷ ts) = ground arith

module _ {R D : Type 0} ⦃num : Numbers R⦄ ⦃lib : SpLibrary R D⦄ (laws : KeepsSizes num lib)
    (n : ℕ) where
  resume-conclude : (m : Meaning R D) → resume laws n m [] [] ≡ ok (conclude m)
  unfolding evaluate_loop
  resume-conclude (values ts) = rw append-nil (finish-conclude ts)
  resume-conclude (failed m) = refl

  -- Over images of one size, the postorder of an expression whose operators have their operands and
  -- which fits in the stack is evaluated to what the tree means: its value, an operator's error, or
  -- the error that there are several values. libspimage keeps the sizes of images.
  pub evaluate_postfix-postorder :
      (e : Expr R D)
      → HasPixels n e
      → HasOperands e
      → width e ≤ stack_max
      → (m : Meaning R D) × (meaning e ≡ ok m)
        × IsMeaning n (leaves e) m
        × (evaluate_postfix (postorder e) ≡ ok (conclude m))
  evaluate_postfix-postorder e p w room =
      let (m, means, sized) =
        Yields-ok (IsMeaning n (leaves e)) (meaning e) (meaning-Yields laws n e p w) in
      (
        m,
        means,
        sized,
        unfold evaluate_postfix in
            ap (λ l. evaluate_loop l []) (sym (append-nil (postorder e)))
            ∙ evaluate_loop-postorder laws n e [] [] p w (omega arith)
            ∙ ap (λ o. o >>= λ m'. resume laws n m' [] []) means
            ∙ resume-conclude m,
      )

  -- A text whose tokens are those of an expression that precedence and associativity determine, whose
  -- images have one size, whose operators have their operands, and which fits in the two stacks,
  -- evaluates to what the expression means. libspimage keeps the sizes of images.
  pub evaluate_math_expression-infix_list :
      (strtod : List ℕ → R × ℕ) (text : List ℕ) (image_list : List (Image R D)) (e : Expr R D)
      → tokenize_string strtod image_list text ≡ ok (tokens (infix_list e))
      → Respects e
      → height e ≤ stack_max
      → HasPixels n e
      → HasOperands e
      → width e ≤ stack_max
      → (m : Meaning R D) × (meaning e ≡ ok m)
        × (evaluate_math_expression strtod text image_list ≡ ok (math_output (conclude m)))
  evaluate_math_expression-infix_list strtod text image_list e read respects high p w room =
      let (m, means, sized, runs) = evaluate_postfix-postorder e p w room in
      (
        m,
        means,
        unfold evaluate_math_expression in
            ap
              (λ (o : Outcome (Tokens R D)). o >>= λ ts. parse_tokens (tokens_of ts) >>= λ ps.
                evaluate_postfix ps >>= λ out. ok (math_output out))
              read
            ∙ ap (λ o. o >>= λ ps. evaluate_postfix ps >>= λ out. ok (math_output out))
                (parse_tokens-infix_list e respects high)
            ∙ ap (λ o. o >>= λ out. ok (math_output out)) runs,
      )
