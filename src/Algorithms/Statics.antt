-- ===== src/Algorithms/Statics.antt =====
-- src/algorithms.c, `basic_raar_iteration` after its first call, on images of one size.
use hawk.Prelude.{List, ℤ}
use hawk.SpImage.{Complex, Image, Numbers, SpLibrary}
use hawk.Reals.{Reals}
use hawk.Options.{Options}
use hawk.Support.{SupportLibrary}
use package.hawk.Algorithms.{PixelLibrary, with_pixels}
use package.hawk.Algorithms.Iterations.{back_transformed}
use package.hawk.Algorithms.Formula.{central}

module _ {R D : Type 0} ⦃num : Numbers R⦄ ⦃reals : Reals R⦄ ⦃pix : PixelLibrary R⦄
    ⦃lib : SpLibrary R D⦄ ⦃blurs : SupportLibrary R D⦄ where
  -- Pm: the image whose transform has the pixels `fs`.
  abbrev pub image_of : ℤ → Image R D → List (Complex R) → Image R D
  image_of flag real_in fs =
      back_transformed real_in (with_pixels (lib.image_fft real_in) (central flag fs))
