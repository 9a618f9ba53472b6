-- ===== src/MathParser/Scanner/Names.antt =====
-- `index_from_variable_name` of src/math_parser.c: letters as digits in base 26.
use native.Mathlib.Nat.{pow-suc}
use hawk.Prelude.{
  ℕ, ◌+◌, ◌-◌, ◌*◌, ◌^◌, ◌≤◌, ◌<◌, ◌≡◌, ◌∙◌, refl, sym, ap, List, [], ◌∷◌, ◌++◌, ok, undefined, ltb,
  lt→ltb, ltb→lt, length, length-append, All, All-append, arith, Bool-cases, inl, inr,
}
use hawk.MathParser.Tokenize.{int_limit, index_loop, index_from_variable_name, backwards}

abbrev pub IsLetter : ℕ → Type 0
IsLetter c = (b'A' ≤ c) × (c ≤ b'Z')

-- The number that a name stands for, its last letter counting ones.
abbrev pub name_value : List ℕ → ℕ
name_value [] = 0
name_value (c ∷ cs) = (c - b'A') * 26 ^ length cs + name_value cs

-- The same, of a name whose letters stand last to first.
abbrev low_first : List ℕ → ℕ
low_first [] = 0
low_first (c ∷ cs) = (c - b'A') + 26 * low_first cs

-- `base` at the end of the loop.
abbrev scale : ℕ → List ℕ → ℕ
scale b [] = b
scale b (c ∷ cs) = scale (b * 26) cs

le-scale : (b : ℕ) (cs : List ℕ) → b ≤ scale b cs
le-scale b [] = omega arith
le-scale b (c ∷ cs) = omega (arith, le-scale (b * 26) cs)

index_loop-ok :
    (cs : List ℕ) (index base : ℕ)
    → All IsLetter cs
    → index < base
    → scale base cs < int_limit
    → index_loop cs index base ≡ ok (index + base * low_first cs)
unfolding index_loop
index_loop-ok [] index base h small room = ap ok (omega arith)
index_loop-ok (c ∷ cs) index base ((above, below), h) small room =
    let digit = c - b'A' in
    let wide : digit * base ≤ 25 * base = grind arith in
    let fits : base * 26 < int_limit = omega (arith, le-scale (base * 26) cs) in
    rw
      (
        lt→ltb (index + (c - b'A') * base) int_limit (omega arith),
        lt→ltb (base * 26) int_limit fits,
      )
      (index_loop-ok cs (index + (c - b'A') * base) (base * 26) h (omega arith) room
        ∙ ap ok (omega arith))

index_loop-undefined :
    (cs : List ℕ) (index base : ℕ)
    → base < int_limit
    → int_limit ≤ scale base cs
    → index_loop cs index base ≡ undefined
unfolding index_loop
index_loop-undefined [] index base small big = absurd (omega arith)
index_loop-undefined (c ∷ cs) index base small big =
    elim (Bool-cases (ltb (index + (c - b'A') * base) int_limit)) [
      | inl e ↦ elim (Bool-cases (ltb (base * 26) int_limit)) [
        | inl f ↦
            rw (e, f)
              (index_loop-undefined cs (index + (c - b'A') * base) (base * 26)
                (ltb→lt (base * 26) int_limit f) big)
        | inr f ↦ rw (e, f)
      ]
      | inr e ↦ rw e
    ]

length-backwards : (cs : List ℕ) → length (backwards cs) ≡ length cs
length-backwards [] = refl
length-backwards (c ∷ cs) =
    omega (arith, length-append (backwards cs) (c ∷ []), length-backwards cs)

backwards-All : (cs : List ℕ) → All IsLetter cs → All IsLetter (backwards cs)
backwards-All [] h = tt
backwards-All (c ∷ cs) (h, hs) =
    All-append IsLetter (backwards cs) (c ∷ []) (backwards-All cs hs) (h, tt)

low_first-append :
    (xs : List ℕ) (c : ℕ) → low_first (xs ++ c ∷ []) ≡ low_first xs + (c - b'A') * 26 ^ length xs
low_first-append [] c = omega arith
low_first-append (x ∷ xs) c = rw (low_first-append xs c, pow-suc) (omega arith)

low_first-backwards : (cs : List ℕ) → low_first (backwards cs) ≡ name_value cs
low_first-backwards [] = refl
low_first-backwards (c ∷ cs) =
    low_first-append (backwards cs) c
    ∙ rw (length-backwards cs, low_first-backwards cs) (omega arith)

scale-short : (cs : List ℕ) → length cs ≤ 6 → scale 1 cs < int_limit
scale-short [] h = omega arith
scale-short (a ∷ []) h = omega arith
scale-short (a ∷ b ∷ []) h = omega arith
scale-short (a ∷ b ∷ c ∷ []) h = omega arith
scale-short (a ∷ b ∷ c ∷ d ∷ []) h = omega arith
scale-short (a ∷ b ∷ c ∷ d ∷ e ∷ []) h = omega arith
scale-short (a ∷ b ∷ c ∷ d ∷ e ∷ f ∷ []) h = omega arith
scale-short (a ∷ b ∷ c ∷ d ∷ e ∷ f ∷ g ∷ cs) h = absurd (omega arith)

scale-long : (cs : List ℕ) → 7 ≤ length cs → int_limit ≤ scale 1 cs
scale-long (a ∷ b ∷ c ∷ d ∷ e ∷ f ∷ g ∷ cs) h = omega (arith, le-scale (26 ^ 7) cs)
scale-long (a ∷ b ∷ c ∷ d ∷ e ∷ f ∷ []) h = absurd (omega arith)
scale-long (a ∷ b ∷ c ∷ d ∷ e ∷ []) h = absurd (omega arith)
scale-long (a ∷ b ∷ c ∷ d ∷ []) h = absurd (omega arith)
scale-long (a ∷ b ∷ c ∷ []) h = absurd (omega arith)
scale-long (a ∷ b ∷ []) h = absurd (omega arith)
scale-long (a ∷ []) h = absurd (omega arith)
scale-long [] h = absurd (omega arith)

-- A name of at most six capital letters has as its index the number that it writes in base 26, with
-- A for 0.
pub index_from_variable_name-eq-name_value :
    (name : List ℕ)
    → All IsLetter name
    → length name ≤ 6
    → index_from_variable_name name ≡ ok (name_value name)
unfolding index_from_variable_name
index_from_variable_name-eq-name_value name h short =
    index_loop-ok (backwards name) 0 1 (backwards-All name h) (omega arith)
      (scale-short (backwards name) (omega (arith, length-backwards name)))
    ∙ ap ok (omega (arith, low_first-backwards name))

-- The index of a name of seven letters or more overflows `int`.
pub index_from_variable_name-overflow :
    (name : List ℕ) → 7 ≤ length name → index_from_variable_name name ≡ undefined
unfolding index_from_variable_name
index_from_variable_name-overflow name long =
    index_loop-undefined (backwards name) 0 1 (omega arith)
      (scale-long (backwards name) (omega (arith, length-backwards name)))

-- A further A at the front of a name of at most five capital letters changes nothing: AA, AB, ...
-- stand for the images of A, B, ..., and not for those after Z.
pub index_from_variable_name-A :
    (name : List ℕ)
    → All IsLetter name
    → length name ≤ 5
    → index_from_variable_name (b'A' ∷ name) ≡ index_from_variable_name name
index_from_variable_name-A name h short =
    index_from_variable_name-eq-name_value (b'A' ∷ name) ((omega arith), h) (omega arith)
    ∙ ap ok (omega arith)
    ∙ sym (index_from_variable_name-eq-name_value name h (omega arith))
