-- ===== src/Tests/Modulo2.antt =====
-- Exact numbers: those modulo 2, with images whose transform is the image itself. The transform
-- back multiplies by the number of the pixels.
use hawk.Prelude.{
  ℕ, ◌%◌, ◌==◌, ◌≡◌, refl, sym, ◌∙◌, List, [], ◌∷◌, map, Bool, true, false, not, ◌&&◌, ◌||◌,
  if◌then◌else◌, ℤ, pos, negsuc, suc, length-map,
}
use hawk.SpImage.{Complex, cinit, Image, image_size, Numbers, SpLibrary}
use hawk.Reals.{Reals}
use hawk.Support.{SupportLibrary}
use hawk.Algorithms.{PixelLibrary, AlgorithmLibrary, LogLibrary}
use hawk.Algorithms.Pointwise.{KeepsSizes}
use hawk.Algorithms.Pixels.{zip2, length-zip2}
use hawk.Algorithms.Formula.{ExactArithmetic, ByParts}
use hawk.Algorithms.Measured.{ExactAmplitudes}
use hawk.Algorithms.Elser.{ExactFractions, IsLinear, combined_pixel, scaled_pixel}

abbrev add : Bool → Bool → Bool
add true b = not b
add false b = b

abbrev parity : ℕ → Bool
parity n = n % 2 == 1

abbrev of_int : ℤ → Bool
of_int (pos n) = parity n
of_int (negsuc n) = parity (suc n)

abbrev complex_add : Complex Bool → Complex Bool → Complex Bool
complex_add a b = cinit (add a.re b.re) (add a.im b.im)

abbrev complex_mul : Complex Bool → Complex Bool → Complex Bool
complex_mul a b = cinit (add (a.re && b.re) (a.im && b.im)) (add (a.re && b.im) (a.im && b.re))

instance abbrev pub bit_numbers : Numbers Bool
bit_numbers = record {
  nought = false;
  one = true;
  minus_one = true;
  half = false;
  nonzero = λ a. a;
  less = λ a b. not a && b;
  equal = λ a b. not (add a b);
  negate = λ a. a;
  times = λ a b. a && b;
  reciprocal = λ a. a;
  minimum = λ a b. a && b;
  maximum = λ a b. a || b;
  to_int = λ a. if a then pos 1 else pos 0;
  cadd = complex_add;
  cmul = complex_mul;
  cpow = complex_mul;
  cexp = λ c. c;
  clog = λ c. c;
  cabs = λ c. c.re || c.im;
  carg = λ c. c.im;
}

instance abbrev pub bit_reals : Reals Bool
bit_reals = record {
  of_int = of_int;
  truncate = λ a. if a then pos 1 else pos 0;
  decimal = λ n d. parity n;
  plus = add;
  minus = add;
  times = λ a b. a && b;
  over = λ a b. a;
  negate = λ a. a;
  pow = λ a b. a;
  exp = λ a. a;
  log = λ a. a;
  less = λ a b. not a && b;
  less_or_equal = λ a b. not a || b;
  equal = λ a b. not (add a b);
  isfinite = λ a. true;
}

abbrev pub Bits : Type 0
Bits = Image Bool (Unit {0})

abbrev scale : Bits → Bool → Bits
scale a r = record a { pixels = map (scaled_pixel r) a.pixels }

instance abbrev pub bit_library : SpLibrary Bool (Unit {0})
bit_library = record {
  image_add = λ a b. a;
  image_mul_elements = λ a b. a;
  image_invert = λ a. a;
  image_dephase = λ a. a;
  image_scale = scale;
  image_fft = λ a. a;
  image_ifft = λ a. scale a (parity (image_size a));
  image_get_mask = λ a. a;
  image_integrate = λ a. cinit false false;
  image_duplicate = λ a. a;
  coords = λ d i. (false, false, false);
}

instance abbrev pub bit_blurs : SupportLibrary Bool (Unit {0})
bit_blurs = record {
  gaussian_blur = λ a r. a;
  duplicate_data = λ a. a;
  duplicate_masked = λ a. a;
  qsort = λ f xs. xs;
}

instance abbrev pub bit_pixels : PixelLibrary Bool
bit_pixels = record {
  cscale = λ a r. scaled_pixel r a;
  csub = complex_add;
  fabs = λ a. a;
  sqrt = λ a. a;
}

instance abbrev pub bit_algorithms : AlgorithmLibrary Bool (Unit {0})
bit_algorithms = record {
  zero_phase = λ a. a;
  proj_module = λ a b. a;
  proj_module_histogram = λ a b c. a;
}

-- The log counts its lines.
instance abbrev pub bit_log : LogLibrary Bool (Unit {0}) ℕ
bit_log = record { output_to_log = λ a b c d e opts lines. suc lines }

pub bit_sizes : KeepsSizes bit_library bit_blurs bit_algorithms
bit_sizes = record {
  fft_size = λ a. refl;
  ifft_size = λ a. length-map _ a.pixels;
  duplicate_size = λ a. refl;
  zero_phase_size = λ a. refl;
  module_size = λ a b. refl;
  histogram_size = λ a b c. refl;
}

times_plus : (a b c : Bool) → add (a && b) (a && c) ≡ (a && add b c)
times_plus true b c = refl
times_plus false b c = refl

plus_minus : (a b : Bool) → add a (add b a) ≡ b
plus_minus true true = refl
plus_minus true false = refl
plus_minus false true = refl
plus_minus false false = refl

pub times_one : (a : Bool) → (a && true) ≡ a
times_one true = refl
times_one false = refl

minus_self : (a : Bool) → add a a ≡ false
minus_self true = refl
minus_self false = refl

minus_zero : (a : Bool) → add a false ≡ a
minus_zero true = refl
minus_zero false = refl

times_assoc : (a b c : Bool) → ((a && b) && c) ≡ (a && (b && c))
times_assoc true b c = refl
times_assoc false b c = refl

times_comm : (a b : Bool) → (a && b) ≡ (b && a)
times_comm true true = refl
times_comm true false = refl
times_comm false true = refl
times_comm false false = refl

plus_times : (a b c : Bool) → (add a b && c) ≡ add (a && c) (b && c)
plus_times true true true = refl
plus_times true true false = refl
plus_times true false c = sym (minus_zero c)
plus_times false b c = refl

plus_assoc : (a b c : Bool) → add a (add b c) ≡ add (add a b) c
plus_assoc true true true = refl
plus_assoc true true false = refl
plus_assoc true false c = refl
plus_assoc false b c = refl

pub bit_exact : ExactArithmetic bit_reals
bit_exact = record {
  all_finite = λ a. refl;
  times_plus = times_plus;
  plus_minus = plus_minus;
  times_one = times_one;
  zero_times = λ a. refl;
  zero_plus = λ a. refl;
  minus_self = minus_self;
  minus_zero = minus_zero;
  opposite_times = λ a b. refl;
  minus_opposite = λ a b. refl;
}

pub bit_parts : ByParts bit_numbers bit_reals bit_pixels
bit_parts = record {
  cadd_parts = λ a b. refl;
  csub_parts = λ a b. refl;
  cscale_parts = λ a r. refl;
}

cabs_scaled : (a b r : Bool) → ((a && r) || (b && r)) ≡ ((a || b) && r)
cabs_scaled true true true = refl
cabs_scaled true true false = refl
cabs_scaled true false true = refl
cabs_scaled true false false = refl
cabs_scaled false b r = refl

never_negative : (a : Bool) → (not a && false) ≡ false
never_negative true = refl
never_negative false = refl

or_false : (b : Bool) → (b || false) ≡ b
or_false true = refl
or_false false = refl

equal_false : (b : Bool) → not (add b false) ≡ false → b ≡ true
equal_false true h = refl
equal_false false h = sym h

pub bit_amplitudes : ExactAmplitudes bit_numbers bit_reals bit_pixels
bit_amplitudes = record {
  cabs_nonneg = λ f. never_negative (f.re || f.im);
  cabs_cscale = λ f r h. cabs_scaled f.re f.im r;
  over_nonneg = λ a b ha hb. ha;
  cabs_real = λ r h. or_false r;
  cabs_nonzero = λ f h. λ j. not (add (equal_false f.re h j || f.im) false);
  times_over = λ a b h. λ j. equal_false b h j && a;
}

pub bit_fractions : ExactFractions bit_reals
bit_fractions = record {
  over_times = λ a b. sym (times_one a);
  times_assoc = times_assoc;
  times_comm = times_comm;
  minus_times = plus_times;
  times_minus = λ a b c. sym (times_plus a b c);
  plus_minus_assoc = plus_assoc;
  plus_zero = minus_zero;
}

combined-scaled :
    (a b p q n : Bool) → (add (a && p) (b && q) && n) ≡ add (a && (p && n)) (b && (q && n))
combined-scaled a b p q n =
    plus_times (a && p) (b && q) n ∙ (λ j. add (times_assoc a p n j) (times_assoc b q n j))

zip2-scaled :
    (a b n : Bool) (ps qs : List (Complex Bool))
    → map (scaled_pixel n) (zip2 (combined_pixel a b) ps qs)
      ≡ zip2 (combined_pixel a b) (map (scaled_pixel n) ps) (map (scaled_pixel n) qs)
zip2-scaled a b n [] qs = refl
zip2-scaled a b n (p ∷ ps) [] = refl
zip2-scaled a b n (p ∷ ps) (q ∷ qs) =
    let rest = zip2-scaled a b n ps qs in
    λ j. cinit (combined-scaled a b p.re q.re n j) (combined-scaled a b p.im q.im n j) ∷ rest j

pub bit-IsLinear : IsLinear bit_library bit_blurs
bit-IsLinear = record {
  duplicate_pixels = λ a. refl;
  scale_pixels = λ a r. refl;
  ifft_linear = λ a b t f h.
      let size = length-zip2 (combined_pixel a b) t.pixels f.pixels (sym h) in
      (λ j. map (scaled_pixel (parity (size j))) (zip2 (combined_pixel a b) t.pixels f.pixels))
      ∙ (zip2-scaled a b (parity (image_size t)) t.pixels f.pixels ∙ (λ j.
          zip2 (combined_pixel a b) (map (scaled_pixel (parity (image_size t))) t.pixels)
            (map (scaled_pixel (parity (h j))) f.pixels)));
  ifft_fft = λ a. refl;
}
