-- ===== src/SpImage.antt =====
-- What the program uses of libspimage (`spimage.h`, a library outside the repository) and of C's
-- floating point: numbers of type `real`, complex numbers and images.
-- `Complex` is the struct behind `sp_real` and `sp_imag`. An `Image` shows the fields that the code
-- reads or writes (`image->data`, `mask->data`, `phased`, `shifted`); all others are in `rest`.
-- `image->data` and `mask->data` have `sp_image_size` entries, the length of `pixels`.
use hawk.Prelude.{ℕ, Bool, List, ℤ, length}

pub record Complex (R : Type 0) : Type 0 where
  pub re : R
  pub im : R

abbrev pub cinit : {R : Type 0} → R → R → Complex R
cinit a b = record { re = a; im = b }

pub record Image (R D : Type 0) : Type 0 where
  pub pixels : List (Complex R)
  pub mask : List ℤ
  pub phased : ℕ
  pub shifted : ℕ
  pub rest : D

abbrev pub image_size : {R D : Type 0} → Image R D → ℕ
image_size a = length a.pixels

-- The operations on `real` and on complex numbers that the code calls.
pub record Numbers (R : Type 0) : Type 0 where
  pub nought : R
  pub one : R
  pub minus_one : R
  pub half : R
  -- a C truth value
  pub nonzero : R → Bool
  pub less : R → R → Bool
  pub equal : R → R → Bool
  pub negate : R → R
  pub times : R → R → R
  pub reciprocal : R → R
  pub minimum : R → R → R
  pub maximum : R → R → R
  pub to_int : R → ℤ
  pub cadd : Complex R → Complex R → Complex R
  pub cmul : Complex R → Complex R → Complex R
  pub cpow : Complex R → Complex R → Complex R
  pub cexp : Complex R → Complex R
  pub clog : Complex R → Complex R
  pub cabs : Complex R → R
  pub carg : Complex R → R

-- The functions on images that the code calls.
pub record SpLibrary (R D : Type 0) : Type 0 where
  pub image_add : Image R D → Image R D → Image R D
  pub image_mul_elements : Image R D → Image R D → Image R D
  pub image_invert : Image R D → Image R D
  pub image_dephase : Image R D → Image R D
  pub image_scale : Image R D → R → Image R D
  pub image_fft : Image R D → Image R D
  pub image_ifft : Image R D → Image R D
  pub image_get_mask : Image R D → Image R D
  pub image_integrate : Image R D → Complex R
  pub image_duplicate : Image R D → Image R D
  -- the coordinates of a pixel from the top left corner; they depend on the sizes alone
  pub coords : D → ℕ → R × R × R
