-- ===== src/Algorithms/Documented.antt =====
-- src/algorithms.c: `serial_raar_iteration` and `basic_error_reduction_iteration` on images of one
-- size, and the formula in the comment of the first.
use hawk.Prelude.{ℤ}
use hawk.SpImage.{Image, Numbers, SpLibrary}
use hawk.Reals.{Reals}
use hawk.Options.{Options}
use hawk.Support.{SupportLibrary}
use package.hawk.Algorithms.{PixelLibrary, with_pixels}
use package.hawk.Algorithms.Iterations.{raar_pixel, back_transformed}
use package.hawk.Algorithms.Pixels.{zip3, masked}
use package.hawk.Algorithms.Formula.{central}

module _ {R D : Type 0} ⦃num : Numbers R⦄ ⦃reals : Reals R⦄ ⦃pix : PixelLibrary R⦄
    ⦃lib : SpLibrary R D⦄ ⦃blurs : SupportLibrary R D⦄ where
  -- Pm of the comment: the image with the measured amplitudes.
  abbrev pub raar_image : ℤ → Image R D → Image R D → Image R D
  raar_image flag exp_amp real_in =
      let fft = lib.image_fft real_in in
      back_transformed real_in (
        with_pixels fft
          (central flag (zip3 (masked raar_pixel) exp_amp.pixels exp_amp.mask fft.pixels)))
