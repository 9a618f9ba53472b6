-- ===== src/MathParser/Tokenize.antt =====
-- src/math_parser.c, `tokenize_string`: from the text of an expression to infix tokens.
-- A text is the list of its characters. `strtod` is C's: it gives the number at the start of a text
-- and how many characters it has read. The array `pe` has 1000 entries and the buffers of the two
-- messages 1024 characters, which the source does not check; a variable's index is an `int`.
use hawk.Prelude.{
  ℕ, zero, suc, ◌+◌, ◌-◌, ◌*◌, ◌^◌, Bool, true, false, not, ◌&&◌, ◌||◌, List, [], ◌∷◌, ◌++◌, ℤ, pos,
  ◌+ℤ◌, ◌-ℤ◌, Outcome, ok, undefined, out_of_fuel, map_ok, ◌>>=◌, Option, none, some, if◌then◌else◌,
  ltb, leb, ◌==◌, length, drop, get_elem?,
}
use hawk.SpImage.{Image, Numbers, SpLibrary, cinit}
use hawk.MathParser.Token.{
  Operator, TokenName, operand, left_parenthesis, right_parenthesis, addition, subtraction,
  imaginary_unit, Token, image, scalar, operator, Message, no_matching_file, could_not_tokenize,
}
use hawk.MathParser.Table.{operator_table}

abbrev pub int_limit : ℕ
int_limit = 2 ^ 31

abbrev pub pe_size : ℕ
pe_size = 1000

abbrev pub buffer_size : ℕ
buffer_size = 1024

abbrev pub is_blank : ℕ → Bool
is_blank c = c == 32 || c == 9

abbrev pub is_digit : ℕ → Bool
is_digit c = leb b'0' c && leb c b'9'

abbrev pub is_upper : ℕ → Bool
is_upper c = leb b'A' c && leb c b'Z'

-- The loop of `index_from_variable_name`, from the last letter to the first.
unfoldable pub index_loop : List ℕ → ℕ → ℕ → Outcome ℕ
index_loop [] index base = ok index
index_loop (c ∷ cs) index base =
    if ltb (index + (c - b'A') * base) int_limit && ltb (base * 26) int_limit
    then index_loop cs (index + (c - b'A') * base) (base * 26)
    else undefined

abbrev pub backwards : List ℕ → List ℕ
backwards [] = []
backwards (c ∷ cs) = backwards cs ++ c ∷ []

unfoldable pub index_from_variable_name : List ℕ → Outcome ℕ
unfolding index_loop
index_from_variable_name name = index_loop (backwards name) 0 1

-- `while(isupper(input[j])) j++;`
unfoldable pub variable_name : List ℕ → List ℕ
variable_name [] = []
variable_name (c ∷ cs) = let name = variable_name cs in if is_upper c then c ∷ name else []

-- `strstr(token_start, identifier) == token_start`
abbrev pub starts_with : List ℕ → List ℕ → Bool
starts_with [] text = true
starts_with (c ∷ cs) [] = false
starts_with (c ∷ cs) (d ∷ ds) = c == d && starts_with cs ds

-- The rows of the table from the first one that fits.
unfoldable pub find_row : List Operator → List ℕ → List Operator
find_row [] text = []
find_row (o ∷ rows) text =
    let later = find_row rows text in if starts_with o.identifier text then o ∷ rows else later

abbrev pub is_subtraction : TokenName → Bool
is_subtraction subtraction = true
is_subtraction _ = false

abbrev pub is_addition : TokenName → Bool
is_addition addition = true
is_addition _ = false

abbrev pub is_imaginary_unit : TokenName → Bool
is_imaginary_unit imaginary_unit = true
is_imaginary_unit _ = false

-- `lastToken`, where `none` is the 0 of the start, ends an operand.
abbrev pub follows_operand : Option TokenName → Bool
follows_operand (some operand) = true
follows_operand (some right_parenthesis) = true
follows_operand (some imaginary_unit) = true
follows_operand _ = false

-- A sign that follows no operand is the operator of the next row.
unfoldable pub sign_row : (TokenName → Bool) → Option TokenName → List Operator → List Operator
sign_row is_sign last [] = []
sign_row is_sign last (o ∷ rows) =
    if is_sign o.name && not (follows_operand last) then rows else o ∷ rows

-- The text that is left, `lastToken` and `precedence_modifier`.
pub record Scan : Type 0 where
  pub rest : List ℕ
  pub last : Option TokenName
  pub modifier : ℤ

pub data Round (R D : Type 0) : Type 0 where
  skipped : Scan → Round R D
  emitted : Token R D → Scan → Round R D
  refused : Message → Round R D

-- The array of tokens that is returned, or the single error token.
pub data Tokens (R D : Type 0) : Type 0 where
  tokens : List (Token R D) → Tokens R D
  error_token : Message → Tokens R D

module _ {R D : Type 0} where
  -- `sprintf(buffer, ...)` of a text with `n` characters, its end included.
  abbrev pub report : ℕ → Message → Outcome (Round R D)
  report n m = if leb n buffer_size then ok (refused m) else undefined

  abbrev pub prepend : Token R D → Tokens R D → Tokens R D
  prepend t (tokens ts) = tokens (t ∷ ts)
  prepend t (error_token m) = error_token m

  abbrev pub tokens_of : Tokens R D → List (Token R D)
  tokens_of (tokens ts) = ts
  tokens_of (error_token m) = Token.error m ∷ []

  -- The end of a round: the next round, behind the token that is stored.
  abbrev pub continue_ :
      (Scan → Outcome (Tokens R D))
      → (Scan → Outcome (Tokens R D))
      → ℕ
      → Round R D
      → Outcome (Tokens R D)
  continue_ skip store used (skipped s) = skip s
  continue_ skip store used (emitted t s) =
      if ltb used pe_size then map_ok (prepend t) (store s) else undefined
  continue_ skip store used (refused m) = ok (error_token m)

module _ {R D : Type 0} ⦃num : Numbers R⦄ where
  -- At a row of the table: its operator, or the number `i` where that follows no operand.
  unfoldable pub row_round : Scan → List Operator → Outcome (Round R D)
  row_round s [] = report (length s.rest + 44) (could_not_tokenize s.rest)
  row_round s (o ∷ rows) =
      if is_imaginary_unit o.name && not (follows_operand s.last)
      then ok (
          emitted (scalar (cinit num.nought num.one))
            (record s { rest = drop 1 s.rest; last = some operand }))
      else ok (
          emitted (operator (record o { precedence = o.precedence +ℤ s.modifier }))
            (record s { rest = drop (length o.identifier) s.rest; last = some o.name }))

  unfoldable pub scan_operator : Scan → Outcome (Round R D)
  unfolding find_row sign_row row_round
  scan_operator s = row_round s (
      sign_row is_addition s.last (sign_row is_subtraction s.last (find_row operator_table s.rest)))

  module _ ⦃lib : SpLibrary R D⦄ (strtod : List ℕ → R × ℕ) (image_list : List (Image R D)) where
    unfoldable pub image_round : Scan → List ℕ → Option (Image R D) → Outcome (Round R D)
    image_round s name none = report (length name + 32) (no_matching_file name)
    image_round s name (some a) = ok (
        emitted (image (lib.image_duplicate a))
          (record s { rest = drop (length name) s.rest; last = some operand }))

    unfoldable pub scan_variable : Scan → Outcome (Round R D)
    unfolding variable_name index_from_variable_name image_round
    scan_variable s =
        let name = variable_name s.rest in
        index_from_variable_name name >>= λ index. image_round s name (get_elem? image_list index)

    unfoldable pub scan_number : Scan → Outcome (Round R D)
    scan_number s =
        let (d, read) = strtod s.rest in
        ok (
          emitted (scalar (cinit d num.nought))
            (record s { rest = drop read s.rest; last = some operand }))

    -- The body of the loop, at the character `c`.
    unfoldable pub scan_round : ℕ → Scan → Outcome (Round R D)
    scan_round c s =
        if is_blank c
        then ok (skipped (record s { rest = drop 1 s.rest }))
        else if c == b'('
        then ok (
            skipped (record s {
              rest = drop 1 s.rest;
              last = some left_parenthesis;
              modifier = s.modifier +ℤ pos 1000;
            }))
        else if c == b')'
        then ok (
            skipped (record s {
              rest = drop 1 s.rest;
              last = some right_parenthesis;
              modifier = s.modifier -ℤ pos 1000;
            }))
        else if is_digit c || c == b'.'
        then scan_number s
        else if is_upper c
        then scan_variable s
        else scan_operator s

    -- A round, or the end of the text.
    unfoldable pub loop_step :
        (Scan → Outcome (Tokens R D))
        → (Scan → Outcome (Tokens R D))
        → ℕ
        → Scan
        → List ℕ
        → Outcome (Tokens R D)
    loop_step skip store used s [] = ok (tokens [])
    loop_step skip store used s (c ∷ cs) = scan_round c s >>= continue_ skip store used

    -- The loop, with `used` entries of `pe` filled.
    unfoldable pub tokenize_loop : ℕ → ℕ → Scan → Outcome (Tokens R D)
    tokenize_loop zero used s = out_of_fuel
    tokenize_loop (suc f) used s =
        loop_step (tokenize_loop f used) (tokenize_loop f (used + 1)) used s s.rest

    abbrev pub start : List ℕ → Scan
    start input = record { rest = input; last = none; modifier = pos 0 }

    unfoldable pub tokenize_string : List ℕ → Outcome (Tokens R D)
    unfolding tokenize_loop loop_step scan_round scan_operator scan_variable scan_number
    tokenize_string input = tokenize_loop (length input + 1002) 0 (start input)
