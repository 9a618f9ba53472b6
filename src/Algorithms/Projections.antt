-- ===== src/Algorithms/Projections.antt =====
-- src/output_projection.c, `apply_output_projection`.
use hawk.Prelude.{Outcome, ok, map_ok}
use hawk.SpImage.{Image, image_size, SpLibrary}
use hawk.Reals.{Reals, real_ℕ, ◌⊘◌}
use package.hawk.Algorithms.{AlgorithmLibrary, update, with_pixels}

pub data OutputProjection : Type 0 where
  intensities_projection no_projection : OutputProjection

-- `sp_image_duplicate(input,SP_COPY_ALL)` is an argument.
module _ {R D : Type 0} ⦃reals : Reals R⦄ ⦃lib : SpLibrary R D⦄ ⦃alg : AlgorithmLibrary R D⦄
    (duplicate_all : Image R D → Image R D) where
  -- the image with the measured amplitudes, transformed back and normalized
  abbrev pub with_intensities : Image R D → Image R D → Image R D
  with_intensities input amp =
      let tmp2 = lib.image_ifft (alg.proj_module (lib.image_fft input) amp) in
      lib.image_scale tmp2 (real_ℕ 1 ⊘ real_ℕ (image_size tmp2))

  unfoldable pub apply_output_projection :
      Image R D → OutputProjection → Image R D → Outcome (Image R D)
  unfolding update
  apply_output_projection input intensities_projection amp =
      let ret = duplicate_all input in
      map_ok (with_pixels ret)
        (update (λ old new. new) ret.pixels (with_intensities input amp).pixels)
  apply_output_projection input no_projection amp = ok (duplicate_all input)
