-- ===== src/Tests/Instances.antt =====
-- A concrete instance of what the code takes from outside: numbers are integers, and an image has no
-- other fields than those that the code reads.
use hawk.Prelude.{
  true, ℕ, suc, ◌+◌, ◌*◌, ◌-◌, ◌≡◌, ◌∙◌, refl, ap, List, [], ◌∷◌, map, not, ◌&&◌, leb,
  if◌then◌else◌, ℤ, pos, negsuc, pos_part, neg_part, sub_ℕ, eq_int, lt_int, length, length-map,
}
use hawk.SpImage.{Complex, cinit, Image, Numbers, SpLibrary}
use hawk.Reals.{Reals}
use hawk.MathParser.Machine.Sizes.{KeepsSizes}

abbrev pub int_times : ℤ → ℤ → ℤ
int_times a b =
    sub_ℕ (pos_part a * pos_part b + neg_part a * neg_part b)
      (pos_part a * neg_part b + neg_part a * pos_part b)

abbrev pub int_opposite : ℤ → ℤ
int_opposite a = sub_ℕ (neg_part a) (pos_part a)

abbrev int_add : ℤ → ℤ → ℤ
int_add a b = sub_ℕ (pos_part a + pos_part b) (neg_part a + neg_part b)

abbrev complex_add : Complex ℤ → Complex ℤ → Complex ℤ
complex_add a b = cinit (int_add a.re b.re) (int_add a.im b.im)

abbrev complex_mul : Complex ℤ → Complex ℤ → Complex ℤ
complex_mul a b =
    cinit (int_add (int_times a.re b.re) (int_opposite (int_times a.im b.im)))
      (int_add (int_times a.re b.im) (int_times a.im b.re))

instance abbrev pub int_numbers : Numbers ℤ
int_numbers = record {
  nought = pos 0;
  one = pos 1;
  minus_one = negsuc 0;
  half = pos 0;
  nonzero = λ a. not (eq_int a (pos 0));
  less = lt_int;
  equal = eq_int;
  negate = int_opposite;
  times = int_times;
  reciprocal = λ a. a;
  minimum = λ a b. if lt_int b a then b else a;
  maximum = λ a b. if lt_int a b then b else a;
  to_int = λ a. a;
  cadd = complex_add;
  cmul = complex_mul;
  cpow = complex_mul;
  cexp = λ c. c;
  clog = λ c. c;
  cabs = λ c. c.re;
  carg = λ c. c.im;
}

-- The second list may be shorter.
abbrev combine :
    (Complex ℤ → Complex ℤ → Complex ℤ) → List (Complex ℤ) → List (Complex ℤ) → List (Complex ℤ)
combine f [] ys = []
combine f (x ∷ xs) [] = x ∷ xs
combine f (x ∷ xs) (y ∷ ys) = f x y ∷ combine f xs ys

abbrev Picture : Type 0
Picture = Image ℤ (Unit {0})

abbrev on_pixels : (List (Complex ℤ) → List (Complex ℤ)) → Picture → Picture
on_pixels f a = record a { pixels = f a.pixels }

instance abbrev pub int_library : SpLibrary ℤ (Unit {0})
int_library = record {
  image_add = λ a b. on_pixels (λ xs. combine complex_add xs b.pixels) a;
  image_mul_elements = λ a b. on_pixels (λ xs. combine complex_mul xs b.pixels) a;
  image_invert = λ a. a;
  image_dephase = λ a. record a { phased = 0 };
  image_scale = λ a r. on_pixels (map (complex_mul (cinit r (pos 0)))) a;
  image_fft = λ a. a;
  image_ifft = λ a. a;
  image_get_mask = λ a. a;
  image_integrate = λ a. cinit (pos 0) (pos 0);
  image_duplicate = λ a. a;
  coords = λ d i. (pos i, pos 0, pos 0);
}

length-combine :
    (f : Complex ℤ → Complex ℤ → Complex ℤ) (xs ys : List (Complex ℤ))
    → length (combine f xs ys) ≡ length xs
length-combine f [] ys = refl
length-combine f (x ∷ xs) [] = refl
length-combine f (x ∷ xs) (y ∷ ys) = ap suc (length-combine f xs ys)

pub int_laws_of_sizes : KeepsSizes int_numbers int_library
int_laws_of_sizes = record {
  image_add_size = λ a b n ha hb. length-combine complex_add a.pixels b.pixels ∙ ha;
  image_mul_elements_size = λ a b n ha hb. length-combine complex_mul a.pixels b.pixels ∙ ha;
  image_invert_size = λ a. refl;
  image_dephase_size = λ a. refl;
  image_scale_size = λ a r. length-map _ a.pixels;
  image_fft_size = λ a. refl;
  image_ifft_size = λ a. refl;
  image_get_mask_size = λ a. refl;
}

instance abbrev pub int_reals : Reals ℤ
int_reals = record {
  of_int = λ a. a;
  truncate = λ a. a;
  decimal = λ n d. pos n;
  plus = int_add;
  minus = λ a b. int_add a (int_opposite b);
  times = int_times;
  over = λ a b. a;
  negate = int_opposite;
  pow = λ a b. a;
  exp = λ a. a;
  log = λ a. a;
  less = lt_int;
  less_or_equal = λ a b. not (lt_int b a);
  equal = eq_int;
  isfinite = λ a. true;
}

-- `strtod` on the decimal digits at the start of a text.
abbrev digits_from : ℕ → ℕ → List ℕ → ℤ × ℕ
digits_from value read [] = (pos value, read)
digits_from value read (c ∷ cs) =
    let later = digits_from (10 * value + (c - b'0')) (read + 1) cs in
    if leb b'0' c && leb c b'9' then later else (pos value, read)

abbrev pub read_digits : List ℕ → ℤ × ℕ
read_digits text = digits_from 0 0 text
