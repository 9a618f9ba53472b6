-- ===== src/MathParser/Scanner/Ends.antt =====
-- The tokenizer of src/math_parser.c returns: every round of its loop consumes a character.
use hawk.Prelude.{
  ℕ, zero, suc, ◌+◌, ◌≤◌, ◌<◌, ◌≡◌, ◌∙◌, refl, sym, ap, true, not, ◌&&◌, ◌||◌, List, [], ◌∷◌,
  Outcome, ok, undefined, Option, none, some, ltb, leb, ◌==◌, lt→ltb, length, drop, arith,
  Bool-cases, inl, inr,
}
use mathlib.Core.Path.{subst}
use hawk.SpImage.{Image, Numbers, SpLibrary}
use hawk.Metadata.Choices.{and-true}
use hawk.MathParser.Token.{Operator}
use hawk.MathParser.Table.{operator_table}
use hawk.MathParser.Tokenize.{
  variable_name, find_row, sign_row, is_subtraction, is_addition, is_imaginary_unit,
  follows_operand, is_digit, is_upper, is_blank, Scan, Round, skipped, emitted, refused, Tokens,
  row_round, image_round, continue_, loop_step, scan_operator, scan_variable, scan_number,
  scan_round, tokenize_loop, tokenize_string, pe_size, start,
}
use package.hawk.MathParser.Scanner.Names.{index_from_variable_name-eq-name_value}
use package.hawk.MathParser.Scanner.Readable.{
  ReadsNumbers, starts_with_digit, is_readable, is_readable-drop, readable-parts,
  variable_name-letters, variable_name-nonempty, named, table-named, find_row-named, sign_row-named,
  Returns, Returns-bind, Returns-if, Returns-value, Consumes, consumes, length-drop-le,
  message_room, Advances, prepend-Returns,
}

le→leb : (a b : ℕ) → a ≤ b → leb a b ≡ true
le→leb a b h = ground arith

is_point : (c : ℕ) → (c == b'.') ≡ true → c ≡ b'.'
is_point c h = ground arith

module _ {R D : Type 0} ⦃num : Numbers R⦄ ⦃lib : SpLibrary R D⦄ (strtod : List ℕ → R × ℕ)
    (reads : ReadsNumbers strtod) (image_list : List (Image R D)) where
  row_round-Returns :
      (s : Scan) (rows : List Operator)
      → length s.rest ≤ message_room
      → named rows ≡ true
      → Returns (Advances s.rest) (row_round {R = R} {D = D} s rows)
  unfolding row_round named
  row_round-Returns s [] room h =
      Returns-if (Advances s.rest) (leb (length s.rest + 44) 1024) _ undefined (λ e. tt)
        (λ e. absurd (ground (arith, room, e)))
  row_round-Returns s (o ∷ rows) room h =
      let (here, later) = and-true (ltb 0 (length o.identifier)) (named rows) h in
      Returns-if (Advances s.rest) (is_imaginary_unit o.name && not (follows_operand s.last)) _ _
        (λ e. (0, refl)) (λ e. consumes (length o.identifier) s.rest (ground (arith, here)))

  scan_operator-Returns :
      (s : Scan)
      → length s.rest ≤ message_room
      → Returns (Advances s.rest) (scan_operator {R = R} {D = D} s)
  unfolding scan_operator
  scan_operator-Returns s room = row_round-Returns s _ room (
      sign_row-named is_addition s.last
        (sign_row is_subtraction s.last (find_row operator_table s.rest))
        (sign_row-named is_subtraction s.last (find_row operator_table s.rest)
          (find_row-named operator_table s.rest table-named)))

  image_round-Returns :
      (s : Scan) (name : List ℕ) (a : Option (Image R D))
      → length name ≤ 6
      → 0 < length name
      → Returns (Advances s.rest) (image_round strtod image_list s name a)
  unfolding image_round
  image_round-Returns s name none short some_letter =
      Returns-if (Advances s.rest) (leb (length name + 32) 1024) _ undefined (λ e. tt)
        (λ e. absurd (ground (arith, short, e)))
  image_round-Returns s name (some a) short some_letter = consumes (length name) s.rest some_letter

  scan_variable-Returns :
      (s : Scan)
      → length (variable_name s.rest) ≤ 6
      → 0 < length (variable_name s.rest)
      → Returns (Advances s.rest) (scan_variable strtod image_list s)
  unfolding scan_variable
  scan_variable-Returns s short some_letter =
      let name = variable_name s.rest in
      rw (index_from_variable_name-eq-name_value name (variable_name-letters s.rest) short)
        (image_round-Returns s name _ short some_letter)

  scan_number-Returns :
      (s : Scan)
      → 0 < (strtod s.rest).1
      → Returns (Advances s.rest) (scan_number strtod image_list s)
  unfolding scan_number
  scan_number-Returns s h = consumes (strtod s.rest).1 s.rest h

  number-read :
      (c : ℕ) (cs : List ℕ)
      → (not (c == b'.') || starts_with_digit cs) ≡ true
      → (is_digit c || c == b'.') ≡ true
      → 0 < (strtod (c ∷ cs)).1
  number-read c cs point h = elim (Bool-cases (is_digit c)) [
    | inl digit ↦ reads.reads_digit c cs digit
    | inr other ↦ fraction cs (is_point c (ground (arith, h, other))) point
  ]
    where
      fraction :
          (ds : List ℕ)
          → c ≡ b'.'
          → (not (c == b'.') || starts_with_digit ds) ≡ true
          → 0 < (strtod (c ∷ ds)).1
      fraction [] e p = absurd (ground (arith, e, p))
      fraction (d ∷ ds) e p =
          subst (λ x. 0 < (strtod (x ∷ d ∷ ds)).1) (sym e)
            (reads.reads_fraction d ds (ground (arith, e, p)))

  scan_round-Returns :
      (c : ℕ) (cs : List ℕ) (s : Scan)
      → s.rest ≡ c ∷ cs
      → is_readable s.rest ≡ true
      → length s.rest ≤ message_room
      → Returns (Advances s.rest) (scan_round strtod image_list c s)
  unfolding scan_round
  scan_round-Returns c cs s e readable room =
      let (point, short) = readable-parts c cs (ap is_readable (sym e) ∙ readable) in
      Returns-if (Advances s.rest) (is_blank c) _ _ (λ blank. (0, refl))
        λ b1.
          Returns-if (Advances s.rest) (c == b'(') _ _ (λ left. (0, refl))
            λ b2.
              Returns-if (Advances s.rest) (c == b')') _ _ (λ right. (0, refl))
                λ b3.
                  Returns-if (Advances s.rest) (is_digit c || c == b'.') _ _
                    (λ number.
                      scan_number-Returns s (
                        subst (λ text. 0 < (strtod text).1) (sym e)
                          (number-read c cs point number)))
                    λ b4.
                      Returns-if (Advances s.rest) (is_upper c) _ _
                        (λ upper.
                          scan_variable-Returns s
                            (subst (λ text. length (variable_name text) ≤ 6) (sym e) short)
                            (subst (λ text. 0 < length (variable_name text)) (sym e)
                              (variable_name-nonempty c cs upper)))
                        λ b5. scan_operator-Returns s room

  -- What the loop needs of the text that is left, with `used` tokens stored and some fuel.
  abbrev Fits : ℕ → ℕ → List ℕ → Type 0
  Fits fuel used text =
      (length text < fuel) × (used + length text ≤ message_room) × (is_readable text ≡ true)

  consumed-Fits :
      (fuel used : ℕ) (c : ℕ) (cs text rest : List ℕ)
      → text ≡ c ∷ cs
      → Consumes text rest
      → Fits (suc fuel) used text
      → Fits fuel used rest × Fits fuel (used + 1) rest
  consumed-Fits fuel used c cs text rest e (n, d) (short, room, readable) =
      let left : rest ≡ drop n cs = d ∙ ap (drop (suc n)) e in
      let size : length rest ≤ length cs =
        subst (λ r. length r ≤ length cs) (sym left) (length-drop-le n cs) in
      let whole : length text ≡ suc (length cs) = ap length e in
      let again = ap is_readable d ∙ is_readable-drop (suc n) text readable in
      (
        (omega (arith, size, whole, short), omega (arith, size, whole, room), again),
        (omega (arith, size, whole, short), omega (arith, size, whole, room), again),
      )

  continue_-Returns :
      (skip store : Scan → Outcome (Tokens R D)) (text : List ℕ) (used : ℕ) (r : Round R D)
      → used < pe_size
      → Advances text r
      → ((s : Scan) → Consumes text s.rest → Returns (λ ts. Unit {0}) (skip s))
      → ((s : Scan) → Consumes text s.rest → Returns (λ ts. Unit {0}) (store s))
      → Returns (λ ts. Unit {0}) (continue_ skip store used r)
  continue_-Returns skip store text used (skipped s) free h a b = a s h
  continue_-Returns skip store text used (emitted t s) free h a b =
      rw (lt→ltb used pe_size free) (prepend-Returns t (store s) (b s h))
  continue_-Returns skip store text used (refused m) free h a b = tt

  loop_step-Returns :
      (skip store : Scan → Outcome (Tokens R D)) (fuel used : ℕ) (s : Scan) (text : List ℕ)
      → s.rest ≡ text
      → Fits (suc fuel) used s.rest
      → ((s' : Scan) → Fits fuel used s'.rest → Returns (λ ts. Unit {0}) (skip s'))
      → ((s' : Scan) → Fits fuel (used + 1) s'.rest → Returns (λ ts. Unit {0}) (store s'))
      → Returns (λ ts. Unit {0}) (loop_step strtod image_list skip store used s text)
  unfolding loop_step
  loop_step-Returns skip store fuel used s [] e fits a b = tt
  loop_step-Returns skip store fuel used s (c ∷ cs) e (short, room, readable) a b =
      let next = λ (s' : Scan) (h : Consumes s.rest s'.rest).
        consumed-Fits fuel used c cs s.rest s'.rest e h (short, room, readable) in
      Returns-bind (Advances s.rest) (λ ts. Unit {0}) (scan_round strtod image_list c s)
        (continue_ skip store used) (scan_round-Returns c cs s e readable (omega (arith, room)))
        λ r h.
          continue_-Returns skip store s.rest used r (omega (arith, room)) h
            (λ s' k. a s' (next s' k).0) (λ s' k. b s' (next s' k).1)

  tokenize_loop-Returns :
      (fuel used : ℕ) (s : Scan)
      → Fits fuel used s.rest
      → Returns (λ ts. Unit {0}) (tokenize_loop strtod image_list fuel used s)
  unfolding tokenize_loop
  tokenize_loop-Returns zero used s (short, room, readable) = absurd (omega (arith, short))
  tokenize_loop-Returns (suc fuel) used s fits =
      loop_step-Returns _ _ fuel used s s.rest refl fits
        (λ s' h. tokenize_loop-Returns fuel used s' h)
        (λ s' h. tokenize_loop-Returns fuel (used + 1) s' h)

  -- On a text of at most 980 characters, where every point stands before a digit and no seven capital
  -- letters follow each other, the tokenizer returns tokens or an error token, without leaving its
  -- array or its buffers: if `strtod` reads at least one character of a number that starts with a digit,
  -- or with a point and a digit.
  pub tokenize_string-returns :
      (text : List ℕ)
      → length text ≤ message_room
      → is_readable text ≡ true
      → (ts : Tokens R D) × (tokenize_string strtod image_list text ≡ ok ts)
  unfolding tokenize_string
  tokenize_string-returns text room readable =
      Returns-value (λ ts. Unit {0})
        (tokenize_loop strtod image_list (length text + 1002) 0 (start strtod image_list text))
        (tokenize_loop-Returns (length text + 1002) 0 (start strtod image_list text)
          (omega arith, omega (arith, room), readable))
