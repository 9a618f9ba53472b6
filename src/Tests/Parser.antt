-- ===== src/Tests/Parser.antt =====
-- src/math_parser.c on concrete texts and token lists.
use mathlib.Core.List.{Perm}
use hawk.Prelude.{
  ◌==◌, suc, if◌then◌else◌, ◌+◌, true, ℕ, ◌≡◌, refl, List, [], ◌∷◌, ℤ, pos, negsuc, ◌+ℤ◌, ok,
  undefined, ◌>>=◌, arith,
}
use hawk.SpImage.{cinit, Image}
use hawk.MathParser.Token.{
  Operator, infix_, left_associative, addition, multiplication, Token, image, operator,
}
use hawk.MathParser.Table.{codes, power_row, run_op}
use hawk.MathParser.Arithmetic.{token_stack_mul, token_stack_add}
use hawk.MathParser.Shunting.{make_room, parse_tokens, pop_while}
use hawk.MathParser.Expr.{Expr, picture, number, binary, infix_list, postorder, gives_way}
use hawk.MathParser.Parse.Loops.{make_room-eq-pop_while, make_room-IsSorted, IsSorted}
use hawk.MathParser.Parse.Permutes.{parse_tokens-perm}
use hawk.MathParser.Parse.Trees.{parse_tokens-infix_list}
use hawk.MathParser.Evaluate.{evaluate_postfix}
use hawk.MathParser.Meaning.{kind}
use hawk.MathParser.Machine.Sizes.{IsSound, Yields}
use hawk.MathParser.Machine.Sound.{kind-IsSound}
use hawk.MathParser.Machine.Values.{Meaning, meaning, leaves, conclude}
use hawk.MathParser.Machine.Total.{IsMeaning}
use hawk.MathParser.Machine.Safe.{evaluate_postfix-IsAnswer, IsAnswer}
use hawk.MathParser.Tokenize.{Tokens, is_digit, tokens, tokenize_string, index_from_variable_name}
use hawk.MathParser.Scanner.Readable.{ReadsNumbers, is_readable}
use hawk.MathParser.Scanner.Ends.{tokenize_string-returns}
use hawk.MathParser.Scanner.Names.{
  index_from_variable_name-eq-name_value, index_from_variable_name-overflow,
  index_from_variable_name-A, name_value,
}
use hawk.MathParser.Scanner.Numbers.{evaluate_math_expression-stuck}
use hawk.MathParser.Run.{math_output, evaluate_math_expression, math_output_image}
use hawk.MathParser.Answers.{evaluate_postfix-postorder, evaluate_math_expression-infix_list}
use hawk.MathParser.Power.{power_of_negation, evaluate_postfix-power_of_negation}
use package.hawk.Tests.Instances.{int_numbers, int_library, int_laws_of_sizes, read_digits}

abbrev Picture : Type 0
Picture = Image ℤ (Unit {0})

abbrev two_pixels : Picture
two_pixels = record {
  pixels = cinit (pos 3) (pos 0) ∷ cinit (negsuc 0) (pos 4) ∷ [];
  mask = pos 1 ∷ pos 1 ∷ [];
  phased = 1;
  shifted = 0;
  rest = tt;
}

abbrev plus_sign : Operator
plus_sign = record {
  n_operands = 2;
  precedence = pos 1;
  position = infix_;
  associativity = left_associative;
  identifier = codes "+";
  name = addition;
}

abbrev times_sign : Operator
times_sign = record {
  n_operands = 2;
  precedence = pos 2;
  position = infix_;
  associativity = left_associative;
  identifier = codes "*";
  name = multiplication;
}

abbrev times_sign_inside : Operator
times_sign_inside = record times_sign { precedence = pos 1002 }

-- `A+2*A`
abbrev sum_text : List ℕ
sum_text = codes "A+2*A"

abbrev sum_tree : Expr ℤ (Unit {0})
sum_tree =
    binary (picture two_pixels) plus_sign
      (binary (number (cinit (pos 2) (pos 0))) times_sign (picture two_pixels))

sum_text-tokens :
    tokenize_string read_digits (two_pixels ∷ []) sum_text ≡ ok (tokens (infix_list sum_tree))
unfolding tokenize_string infix_list ◌+ℤ◌
sum_text-tokens = refl

evaluate_math_expression-infix_list_example :
    (m : Meaning ℤ (Unit {0})) × (meaning sum_tree ≡ ok m)
    × (evaluate_math_expression read_digits sum_text (two_pixels ∷ [])
        ≡ ok (math_output (conclude m)))
unfolding kind
evaluate_math_expression-infix_list_example =
    evaluate_math_expression-infix_list int_laws_of_sizes 2 read_digits sum_text (two_pixels ∷ [])
      sum_tree sum_text-tokens (tt, (tt, tt, tt, tt), tt, (refl, tt)) (ground arith)
      (refl, (tt, refl))
      (tt, (tt, tt, (refl, ground arith, ground arith)), (refl, ground arith, ground arith))
      (ground arith)

-- The pixels of `A+2*A` are three times those of `A`.
sum_text-result :
    evaluate_math_expression read_digits sum_text (two_pixels ∷ [])
    ≡ ok (
        math_output_image
          (record two_pixels { pixels = cinit (pos 9) (pos 0) ∷ cinit (negsuc 2) (pos 12) ∷ [] }))
unfolding evaluate_math_expression ◌+ℤ◌ make_room run_op token_stack_mul token_stack_add
sum_text-result = refl

evaluate_postfix-postorder_example :
    (m : Meaning ℤ (Unit {0})) × (meaning sum_tree ≡ ok m)
    × IsMeaning 2 (leaves sum_tree) m
    × (evaluate_postfix (postorder sum_tree) ≡ ok (conclude m))
unfolding kind
evaluate_postfix-postorder_example =
    evaluate_postfix-postorder int_laws_of_sizes 2 sum_tree (refl, (tt, refl))
      (tt, (tt, tt, (refl, ground arith, ground arith)), (refl, ground arith, ground arith))
      (ground arith)

parse_tokens-infix_list_example : parse_tokens (infix_list sum_tree) ≡ ok (postorder sum_tree)
parse_tokens-infix_list_example =
    parse_tokens-infix_list sum_tree (tt, (tt, tt, tt, tt), tt, (refl, tt)) (ground arith)

abbrev odd_tokens : List (Token ℤ (Unit {0}))
odd_tokens = operator times_sign ∷ image two_pixels ∷ operator plus_sign ∷ []

parse_tokens-perm_example :
    (out : List (Token ℤ (Unit {0}))) × (parse_tokens odd_tokens ≡ ok out) × Perm out odd_tokens
parse_tokens-perm_example = parse_tokens-perm odd_tokens (ground arith)

-- The operators that wait inside and outside of a parenthesis.
abbrev waiting : List Operator
waiting = times_sign_inside ∷ plus_sign ∷ []

waiting-IsSorted : IsSorted waiting
waiting-IsSorted = (ground arith, (tt, tt))

make_room-eq-pop_while_example :
    make_room plus_sign waiting ≡ pop_while (gives_way plus_sign) waiting
make_room-eq-pop_while_example = make_room-eq-pop_while plus_sign waiting waiting-IsSorted

make_room-IsSorted_example : IsSorted (power_row ∷ (make_room power_row waiting).1)
make_room-IsSorted_example = make_room-IsSorted power_row waiting waiting-IsSorted

kind-IsSound_example : IsSound {R = ℤ} {D = Unit {0}} 2 (kind multiplication)
kind-IsSound_example = kind-IsSound int_laws_of_sizes 2 multiplication

-- Two operands and a trailing operator: `A A +` runs, and so does `+` alone.
abbrev loose_tokens : List (Token ℤ (Unit {0}))
loose_tokens = operator plus_sign ∷ image two_pixels ∷ []

evaluate_postfix-IsAnswer_example : Yields (IsAnswer 2) (evaluate_postfix loose_tokens)
unfolding kind
evaluate_postfix-IsAnswer_example =
    evaluate_postfix-IsAnswer int_laws_of_sizes 2 loose_tokens ((refl, ground arith), (refl, tt))
      (ground arith)

-- `strtod` on digits, with a point and digits behind them or not; its value is that of the digits
-- before the point.
abbrev digit_count : List ℕ → ℕ
digit_count [] = 0
digit_count (c ∷ cs) = let later = digit_count cs in if is_digit c then suc later else 0

abbrev point_count : List ℕ → ℕ
point_count [] = 0
point_count (c ∷ cs) =
    if c == b'.' then (if digit_count cs == 0 then 0 else suc (digit_count cs)) else 0

abbrev after_digits : List ℕ → List ℕ
after_digits [] = []
after_digits (c ∷ cs) = let later = after_digits cs in if is_digit c then later else c ∷ cs

abbrev read_decimal : List ℕ → ℤ × ℕ
read_decimal text = ((read_digits text).0, digit_count text + point_count (after_digits text))

read_decimal-ReadsNumbers : ReadsNumbers read_decimal
read_decimal-ReadsNumbers = record {
  reads_digit = λ c cs h. rw h (omega arith);
  reads_fraction = λ d ds h. rw h (ground arith);
}

log_is_readable : is_readable (codes "log(.5)") ≡ true
unfolding is_readable
log_is_readable = refl

tokenize_string-returns_example :
    (ts : Tokens ℤ (Unit {0})) × (tokenize_string read_decimal (two_pixels ∷ []) (codes "log(.5)")
      ≡ ok ts)
tokenize_string-returns_example =
    tokenize_string-returns read_decimal read_decimal-ReadsNumbers (two_pixels ∷ [])
      (codes "log(.5)") (ground arith) log_is_readable

index_from_variable_name-eq-name_value_example :
    index_from_variable_name (codes "BC") ≡ ok (name_value (codes "BC"))
index_from_variable_name-eq-name_value_example =
    index_from_variable_name-eq-name_value (codes "BC") (ground arith) (ground arith)

index_from_variable_name-overflow_example : index_from_variable_name (codes "AAAAAAA") ≡ undefined
index_from_variable_name-overflow_example =
    index_from_variable_name-overflow (codes "AAAAAAA") (ground arith)

index_from_variable_name-A_example :
    index_from_variable_name (codes "AC") ≡ index_from_variable_name (codes "C")
index_from_variable_name-A_example =
    index_from_variable_name-A (codes "C") (ground arith) (ground arith)

evaluate_math_expression-stuck_example :
    evaluate_math_expression read_digits (codes ".+A") (two_pixels ∷ []) ≡ undefined
evaluate_math_expression-stuck_example =
    evaluate_math_expression-stuck read_digits (two_pixels ∷ []) (codes "+A") refl

evaluate_postfix-power_of_negation_example :
    (parse_tokens {R = ℤ} {D = Unit {0}}
        (power_of_negation (cinit (pos 2) (pos 0)) (cinit (pos 1) (pos 0)))
      >>= evaluate_postfix)
    ≡ undefined
evaluate_postfix-power_of_negation_example =
    evaluate_postfix-power_of_negation (cinit (pos 2) (pos 0)) (cinit (pos 1) (pos 0))
