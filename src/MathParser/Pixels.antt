-- ===== src/MathParser/Pixels.antt =====
-- src/math_parser.c: the loops over the pixels of an image, and truth values as complex numbers.
use hawk.Prelude.{
  ℕ, List, [], ◌∷◌, map, Bool, Outcome, ok, undefined, map_ok, if◌then◌else◌, ◌+◌, pos,
}
use hawk.SpImage.{Complex, Image, Numbers, cinit}
use hawk.MathParser.Token.{Token, image}

module _ {R : Type 0} where
  -- `for(i = 0; i < size(a); i++) a[i] = f(a[i], b[i]);` reads past the end of a shorter `b`.
  abbrev pub zip_pixels :
      (Complex R → Complex R → Complex R)
      → List (Complex R)
      → List (Complex R)
      → Outcome (List (Complex R))
  zip_pixels f [] ys = ok []
  zip_pixels f (x ∷ xs) [] = undefined
  zip_pixels f (x ∷ xs) (y ∷ ys) = map_ok (◌∷◌ (f x y)) (zip_pixels f xs ys)

  -- `for(i = 0; i < size(a); i++) if(!p(a[i])) b[i] = c[i];`
  abbrev pub copy_unless :
      (Complex R → Bool)
      → List (Complex R)
      → List (Complex R)
      → List (Complex R)
      → Outcome (List (Complex R))
  copy_unless p [] bs cs = ok bs
  copy_unless p (a ∷ as') [] [] = if p a then copy_unless p as' [] [] else undefined
  copy_unless p (a ∷ as') [] (c ∷ cs) = if p a then copy_unless p as' [] cs else undefined
  copy_unless p (a ∷ as') (b ∷ bs) [] =
      if p a then map_ok (◌∷◌ b) (copy_unless p as' bs []) else undefined
  copy_unless p (a ∷ as') (b ∷ bs) (c ∷ cs) =
      map_ok (◌∷◌ (if p a then b else c)) (copy_unless p as' bs cs)

  -- `for(i = 0; i < size(a); i++) if(p(a[i])) b[i] = c;`
  abbrev pub set_where :
      (Complex R → Bool)
      → Complex R
      → List (Complex R)
      → List (Complex R)
      → Outcome (List (Complex R))
  set_where p c [] bs = ok bs
  set_where p c (a ∷ as') [] = if p a then undefined else set_where p c as' []
  set_where p c (a ∷ as') (b ∷ bs) = map_ok (◌∷◌ (if p a then c else b)) (set_where p c as' bs)

  -- `for(i = first; i < size(a); i++) a[i] = f(i);`
  abbrev pub index_pixels : (ℕ → Complex R) → ℕ → List (Complex R) → List (Complex R)
  index_pixels f i [] = []
  index_pixels f i (x ∷ xs) = f i ∷ index_pixels f (i + 1) xs

module _ {R : Type 0} ⦃num : Numbers R⦄ where
  -- an `int` stored in the real part, with an imaginary part of 0
  abbrev pub truth : Bool → Complex R
  truth b = cinit (if b then num.one else num.nought) num.nought

  -- `if(sp_cabs(x))`
  abbrev pub is_set : Complex R → Bool
  is_set x = num.nonzero (num.cabs x)

module _ {R D : Type 0} where
  -- `for(i = 0; i < size(a); i++) a[i] = f(a[i]);`
  abbrev pub update_pixels : (Complex R → Complex R) → Image R D → Image R D
  update_pixels f a = record a { pixels = map f a.pixels }

  abbrev pub zip_images :
      (Complex R → Complex R → Complex R) → Image R D → Image R D → Outcome (Token R D)
  zip_images f a b =
      map_ok (λ zs. image (record a { pixels = zs })) (zip_pixels f a.pixels b.pixels)

  -- `for(i = 0; i < size(a); i++) a->mask[i] = 1;`
  abbrev pub all_valid : Image R D → Image R D
  all_valid a = record a { mask = map (λ _. pos 1) a.pixels }
