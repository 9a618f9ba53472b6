-- ===== src/MathParser/Machine/Sizes.antt =====
-- Operators of src/math_parser.c on images of one size and on numbers: what they return, and that
-- they neither call `abort` nor leave an array.
use hawk.Prelude.{
  ℕ, suc, ◌+◌, ◌≡◌, ◌∙◌, refl, ap, sym, Bool, true, false, not, List, [], ◌∷◌, length, length-map,
  Outcome, ok, aborted, undefined, out_of_fuel, map_ok, Option, none, some, if◌then◌else◌, arith,
}
use hawk.SpImage.{Complex, Image, image_size, Numbers, SpLibrary}
use hawk.MathParser.Token.{Token, image, scalar, operator, comma_token, error}
use hawk.MathParser.Pixels.{zip_pixels, zip_images, copy_unless, set_where, index_pixels, is_set}
use hawk.MathParser.Select.{absolutes, mask_values, set_mask_tokens, if_tokens}
use hawk.MathParser.Meaning.{Kind, unary, binary, ternary, keep, no_operator}

-- The run ends with a value of which `P` holds.
abbrev pub Yields {ℓ} : {A : Type ℓ} → (A → Type 0) → Outcome A → Type 0
Yields P (ok a) = P a
Yields P aborted = ⊥
Yields P undefined = ⊥
Yields P out_of_fuel = ⊥

pub Yields-map_ok {ℓ κ} :
    {A : Type ℓ} {B : Type κ} (P : A → Type 0) (Q : B → Type 0) (f : A → B) (m : Outcome A)
    → ((a : A) → P a → Q (f a))
    → Yields P m
    → Yields Q (map_ok f m)
Yields-map_ok P Q f (ok a) k h = k a h
Yields-map_ok P Q f aborted k h = absurd h
Yields-map_ok P Q f undefined k h = absurd h
Yields-map_ok P Q f out_of_fuel k h = absurd h

module _ {R D : Type 0} where
  -- A number, or an image of `n` pixels.
  abbrev pub IsValue : ℕ → Token R D → Type 0
  IsValue n (image a) = image_size a ≡ n
  IsValue n (scalar c) = Unit
  IsValue n _ = ⊥

  -- A value, or an error token.
  abbrev pub IsResult : ℕ → Token R D → Type 0
  IsResult n (error e) = Unit
  IsResult n t = IsValue n t

  abbrev pub IsSome : ℕ → Option (Token R D) → Type 0
  IsSome n none = ⊥
  IsSome n (some t) = IsResult n t

  -- What holds of an operator on values of `n` pixels.
  abbrev pub IsSound : ℕ → Kind R D → Type 0
  IsSound n (unary f) = (a : Token R D) → IsValue n a → Yields (IsResult n) (f a)
  IsSound n (binary f) = (a b : Token R D) → IsValue n a → IsValue n b → Yields (IsResult n) (f a b)
  IsSound n (ternary f) =
      (a b c : Token R D) → IsValue n a → IsValue n b → IsValue n c → Yields (IsSome n) (f a b c)
  IsSound n (keep k) = Unit
  IsSound n no_operator = Unit

  -- libspimage computes images of the size of its operands.
  pub record KeepsSizes (num : Numbers R) (lib : SpLibrary R D) : Type 0 where
    pub image_add_size :
        (a b : Image R D) (n : ℕ)
        → image_size a ≡ n
        → image_size b ≡ n
        → image_size (lib.image_add a b) ≡ n
    pub image_mul_elements_size :
        (a b : Image R D) (n : ℕ)
        → image_size a ≡ n
        → image_size b ≡ n
        → image_size (lib.image_mul_elements a b) ≡ n
    pub image_invert_size : (a : Image R D) → image_size (lib.image_invert a) ≡ image_size a
    pub image_dephase_size : (a : Image R D) → image_size (lib.image_dephase a) ≡ image_size a
    pub image_scale_size : (a : Image R D) (r : R) → image_size (lib.image_scale a r) ≡ image_size a
    pub image_fft_size : (a : Image R D) → image_size (lib.image_fft a) ≡ image_size a
    pub image_ifft_size : (a : Image R D) → image_size (lib.image_ifft a) ≡ image_size a
    pub image_get_mask_size : (a : Image R D) → image_size (lib.image_get_mask a) ≡ image_size a

module _ {R D : Type 0} where
  pub IsValue-IsResult : (n : ℕ) (t : Token R D) → IsValue n t → IsResult n t
  IsValue-IsResult n (image a) h = h
  IsValue-IsResult n (scalar c) h = tt
  IsValue-IsResult n (operator o) h = absurd h
  IsValue-IsResult n comma_token h = absurd h
  IsValue-IsResult n (error e) h = absurd h

module _ {R : Type 0} where
  abbrev HasSize : ℕ → List (Complex R) → Type 0
  HasSize n xs = length xs ≡ n

  pub length-index_pixels :
      (f : ℕ → Complex R) (i : ℕ) (xs : List (Complex R)) → length (index_pixels f i xs) ≡ length xs
  length-index_pixels f i [] = refl
  length-index_pixels f i (x ∷ xs) = ap suc (length-index_pixels f (i + 1) xs)

  zip_pixels-Yields :
      (f : Complex R → Complex R → Complex R) (xs ys : List (Complex R))
      → length xs ≡ length ys
      → Yields (HasSize (length xs)) (zip_pixels f xs ys)
  zip_pixels-Yields f [] ys h = refl
  zip_pixels-Yields f (x ∷ xs) [] h = absurd (omega arith)
  zip_pixels-Yields f (x ∷ xs) (y ∷ ys) h =
      Yields-map_ok (HasSize (length xs)) (HasSize (suc (length xs))) (◌∷◌ (f x y))
        (zip_pixels f xs ys) (λ zs. ap suc) (zip_pixels-Yields f xs ys (omega arith))

  copy_unless-Yields :
      (p : Complex R → Bool) (as' bs cs : List (Complex R))
      → length as' ≡ length bs
      → length as' ≡ length cs
      → Yields (HasSize (length bs)) (copy_unless p as' bs cs)
  copy_unless-Yields p [] bs cs h k = refl
  copy_unless-Yields p (a ∷ as') [] cs h k = absurd (omega arith)
  copy_unless-Yields p (a ∷ as') (b ∷ bs) [] h k = absurd (omega arith)
  copy_unless-Yields p (a ∷ as') (b ∷ bs) (c ∷ cs) h k =
      Yields-map_ok (HasSize (length bs)) (HasSize (suc (length bs))) (◌∷◌ (if p a then b else c))
        (copy_unless p as' bs cs) (λ zs. ap suc)
        (copy_unless-Yields p as' bs cs (omega arith) (omega arith))

  set_where-Yields :
      (p : Complex R → Bool) (c : Complex R) (as' bs : List (Complex R))
      → length as' ≡ length bs
      → Yields (HasSize (length bs)) (set_where p c as' bs)
  set_where-Yields p c [] bs h = refl
  set_where-Yields p c (a ∷ as') [] h = absurd (omega arith)
  set_where-Yields p c (a ∷ as') (b ∷ bs) h =
      Yields-map_ok (HasSize (length bs)) (HasSize (suc (length bs))) (◌∷◌ (if p a then c else b))
        (set_where p c as' bs) (λ zs. ap suc) (set_where-Yields p c as' bs (omega arith))

module _ {R : Type 0} ⦃num : Numbers R⦄ where
  absolutes-Yields :
      (xs ys : List (Complex R)) → length xs ≡ length ys → Yields (λ m. Unit {0}) (absolutes xs ys)
  absolutes-Yields [] ys h = tt
  absolutes-Yields (x ∷ xs) [] h = absurd (omega arith)
  absolutes-Yields (x ∷ xs) (y ∷ ys) h =
      Yields-map_ok (λ m. Unit {0}) (λ m. Unit {0}) (◌∷◌ (num.to_int (num.cabs y)))
        (absolutes xs ys) (λ m u. tt) (absolutes-Yields xs ys (omega arith))

module _ {R D : Type 0} ⦃num : Numbers R⦄ where
  pub zip_images-Yields :
      (n : ℕ) (f : Complex R → Complex R → Complex R) (a b : Image R D)
      → image_size a ≡ n
      → image_size b ≡ n
      → Yields (IsResult n) (zip_images f a b)
  zip_images-Yields n f a b ha hb =
      Yields-map_ok (HasSize (image_size a)) (IsResult n) _ (zip_pixels f a.pixels b.pixels)
        (λ zs h. h ∙ ha) (zip_pixels-Yields f a.pixels b.pixels (ha ∙ sym hb))

  mask_values-Yields :
      (n : ℕ) (b : Token R D) (xs : List (Complex R))
      → IsValue n b
      → length xs ≡ n
      → Yields (λ m. Unit {0}) (mask_values b xs)
  mask_values-Yields n (image b) [] h k = tt
  mask_values-Yields n (scalar c) [] h k = tt
  mask_values-Yields n (image b) (x ∷ xs) h k = absolutes-Yields (x ∷ xs) b.pixels (k ∙ sym h)
  mask_values-Yields n (scalar c) (x ∷ xs) h k = tt
  mask_values-Yields n (operator o) xs h k = absurd h
  mask_values-Yields n comma_token xs h k = absurd h
  mask_values-Yields n (error e) xs h k = absurd h

  pub set_mask_tokens-Yields :
      (n : ℕ) (a : Image R D) (b : Token R D)
      → image_size a ≡ n
      → IsValue n b
      → Yields (IsResult n) (set_mask_tokens (image a) b)
  set_mask_tokens-Yields n a b ha hb =
      Yields-map_ok (λ m. Unit {0}) (IsResult n) _ (mask_values b a.pixels) (λ m u. ha)
        (mask_values-Yields n b a.pixels hb ha)

  branch-IsResult :
      (n : ℕ) (test : Bool) (b c : Token R D)
      → IsValue n b
      → IsValue n c
      → IsSome n (some (if test then b else c))
  branch-IsResult n true b c hb hc = IsValue-IsResult n b hb
  branch-IsResult n false b c hb hc = IsValue-IsResult n c hc

  pub if_tokens-Yields : (n : ℕ) → IsSound {R = R} {D = D} n (ternary if_tokens)
  if_tokens-Yields n (scalar t) b c ha hb hc = branch-IsResult n (is_set t) b c hb hc
  if_tokens-Yields n (image a) (image b) (image c) ha hb hc =
      Yields-map_ok (HasSize (image_size b)) (IsSome n) _
        (copy_unless is_set a.pixels b.pixels c.pixels) (λ zs h. h ∙ hb)
        (copy_unless-Yields is_set a.pixels b.pixels c.pixels (ha ∙ sym hb) (ha ∙ sym hc))
  if_tokens-Yields n (image a) (image b) (scalar c) ha hb hc =
      Yields-map_ok (HasSize (image_size b)) (IsSome n) _
        (set_where (λ x. not (is_set x)) c a.pixels b.pixels) (λ zs h. h ∙ hb)
        (set_where-Yields (λ x. not (is_set x)) c a.pixels b.pixels (ha ∙ sym hb))
  if_tokens-Yields n (image a) (scalar b) (image c) ha hb hc =
      Yields-map_ok (HasSize (image_size c)) (IsSome n) _ (set_where is_set b a.pixels c.pixels)
        (λ zs h. h ∙ hc) (set_where-Yields is_set b a.pixels c.pixels (ha ∙ sym hc))
  if_tokens-Yields n (image a) (scalar b) (scalar c) ha hb hc = length-map _ a.pixels ∙ ha
  if_tokens-Yields n (image a) (image b) (operator o) ha hb hc = absurd hc
  if_tokens-Yields n (image a) (image b) comma_token ha hb hc = absurd hc
  if_tokens-Yields n (image a) (image b) (error e) ha hb hc = absurd hc
  if_tokens-Yields n (image a) (scalar b) (operator o) ha hb hc = absurd hc
  if_tokens-Yields n (image a) (scalar b) comma_token ha hb hc = absurd hc
  if_tokens-Yields n (image a) (scalar b) (error e) ha hb hc = absurd hc
  if_tokens-Yields n (image a) (operator o) c ha hb hc = absurd hb
  if_tokens-Yields n (image a) comma_token c ha hb hc = absurd hb
  if_tokens-Yields n (image a) (error e) c ha hb hc = absurd hb
  if_tokens-Yields n (operator o) b c ha hb hc = absurd ha
  if_tokens-Yields n comma_token b c ha hb hc = absurd ha
  if_tokens-Yields n (error e) b c ha hb hc = absurd ha
