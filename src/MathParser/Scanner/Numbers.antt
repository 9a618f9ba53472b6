-- ===== src/MathParser/Scanner/Numbers.antt =====
-- A number at which `strtod` reads nothing, such as a lone point.
use hawk.Prelude.{
  ℕ, zero, suc, ◌+◌, ◌-◌, ◌<◌, ◌≡◌, ◌∙◌, refl, ap, List, ◌∷◌, Outcome, ok, undefined, map_ok, ◌>>=◌,
  some, ltb, ltb→lt, drop, length, Bool-cases, inl, inr, arith,
}
use hawk.SpImage.{Image, Numbers, SpLibrary, cinit}
use hawk.MathParser.Token.{operand, scalar}
use hawk.MathParser.Tokenize.{
  Scan, emitted, continue_, scan_number, scan_round, loop_step, tokenize_loop, tokenize_string,
  pe_size, Tokens, tokens_of,
}
use hawk.MathParser.Shunting.{parse_tokens}
use hawk.MathParser.Evaluate.{evaluate_postfix}
use hawk.MathParser.Run.{math_output, evaluate_math_expression}

module _ {R D : Type 0} ⦃num : Numbers R⦄ ⦃lib : SpLibrary R D⦄ (strtod : List ℕ → R × ℕ)
    (image_list : List (Image R D)) (cs : List ℕ) (stuck : (strtod (b'.' ∷ cs)).1 ≡ 0) where
  scan_round-stuck :
      (s : Scan)
      → s.rest ≡ b'.' ∷ cs
      → scan_round strtod image_list b'.' s
        ≡ ok (
            emitted
              (scalar (cinit (strtod (b'.' ∷ cs)).0 num.nought))
              (record s { rest = b'.' ∷ cs; last = some operand }))
  unfolding scan_round scan_number
  scan_round-stuck s e =
      ap
        (λ text. ok (
          emitted (scalar (cinit (strtod text).0 num.nought))
            (record s { rest = drop (strtod text).1 text; last = some operand })))
        e
      ∙ ap
          (λ read. ok (
            emitted (scalar (cinit (strtod (b'.' ∷ cs)).0 num.nought))
              (record s { rest = drop read (b'.' ∷ cs); last = some operand })))
          stuck

  tokenize_loop-stuck :
      (fuel used : ℕ) (s : Scan)
      → s.rest ≡ b'.' ∷ cs
      → pe_size - used < fuel
      → tokenize_loop strtod image_list fuel used s ≡ undefined
  unfolding tokenize_loop loop_step
  tokenize_loop-stuck zero used s e h = absurd (omega arith)
  tokenize_loop-stuck (suc fuel) used s e h =
      let skip = tokenize_loop strtod image_list fuel used in
      let store = tokenize_loop strtod image_list fuel (used + 1) in
      ap (loop_step strtod image_list skip store used s) e
      ∙ ap (λ r. r >>= continue_ skip store used) (scan_round-stuck s e)
      ∙ elim (Bool-cases (ltb used pe_size)) [
        | inl free ↦ rw free (
            ap (map_ok _) (
              tokenize_loop-stuck fuel (used + 1) _ refl (omega (arith, ltb→lt used pe_size free))))
        | inr full ↦ rw full
      ]

  -- If `strtod` reads nothing at the point that a text starts with, as in `.` or `.+A`, the
  -- evaluation of the text leaves the array `pe`.
  pub evaluate_math_expression-stuck :
      evaluate_math_expression strtod (b'.' ∷ cs) image_list ≡ undefined
  unfolding evaluate_math_expression tokenize_string
  evaluate_math_expression-stuck =
      ap
        (λ (m : Outcome (Tokens R D)). m >>= λ ts.
          parse_tokens (tokens_of ts) >>= λ ps. evaluate_postfix ps >>= λ out. ok (math_output out))
        (tokenize_loop-stuck (length (b'.' ∷ cs) + 1002) 0 _ refl (omega arith))
