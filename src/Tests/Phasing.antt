-- ===== src/Tests/Phasing.antt =====
-- src/algorithms.c on concrete images of three pixels.
use hawk.Prelude.{
  ◌-ℤ◌, ◌≡◌, refl, [], ◌∷◌, Bool, true, false, pos, ok, some, inl, ℕ, get_elem?, arith,
}
use hawk.SpImage.{Complex, image_size}
use hawk.Options.{Options}
use hawk.Configuration.{get_beta, get_gamma1, get_gamma2}
use hawk.Algorithms.{with_pixels, absolute_pixel}
use hawk.Algorithms.Iterations.{
  clamped_pixel, back_transformed, basic_hio_iteration, basic_error_reduction_iteration,
  basic_hio_proj_iteration, basic_raar_proj_iteration,
}
use hawk.Algorithms.Pixels.{zip2, zip3, enforced}
use hawk.Algorithms.Pointwise.{HasRemainder}
use hawk.Algorithms.Formula.{documented_raar}
use hawk.Algorithms.Reduction.{basic_error_reduction_iteration-outside}
use hawk.Algorithms.Enforcement.{basic_hio_iteration-real}
use hawk.Algorithms.Histogram.{
  histogram_image, basic_hio_proj_iteration-documented, basic_raar_proj_iteration-documented,
}
use hawk.Algorithms.Measured.{AllMeasured, documented_hio}
use hawk.Algorithms.Hybrid.{basic_hio_iteration-documented}
use hawk.Algorithms.Solutions.{AllSolved, basic_hio_iteration-solves}
use hawk.Algorithms.DifferenceMap.{
  serial_difference_map_f1, serial_difference_map_f2, serial_difference_map_iteration,
}
use hawk.Algorithms.Elser.{reference_of}
use hawk.Algorithms.Elser.Equivalence.{pi2_f1_image, serial_difference_map_iteration-reference}
use package.hawk.Tests.Modulo2.{
  Bits, bit_numbers, bit_reals, bit_library, bit_blurs, bit_pixels, bit_algorithms, bit_log,
  bit_sizes, bit_exact, bit_parts, bit_amplitudes, bit_fractions, bit-IsLinear,
}
use package.hawk.Tests.Pictures.{
  bit_options, no_lines, zero, one, bits, amplitudes, area, guess, solution, guess-OneSize,
  solution-OneSize,
}

bit_beta : get_beta bit_options ≡ ok true
unfolding get_beta
bit_beta = refl

bit_gamma1 : get_gamma1 bit_options ≡ ok true
unfolding get_gamma1
bit_gamma1 = refl

bit_gamma2 : get_gamma2 bit_options ≡ ok true
unfolding get_gamma2
bit_gamma2 = refl

period : HasRemainder bit_options.cur_iteration bit_options.log_output_period
period = ((λ h. ground arith), inl (λ h. ground arith))

-- The log is written in the last iteration of a period.
hio_run :
    basic_hio_iteration amplitudes guess area bit_options no_lines
    ≡ ok (bits (one ∷ one ∷ one ∷ []), 1)
unfolding basic_hio_iteration ◌-ℤ◌
hio_run = refl

basic_hio_iteration-documented_example :
    (pattern : Bits) × (log' : ℕ) × (basic_hio_iteration amplitudes guess area bit_options no_lines
      ≡ ok (
        with_pixels (back_transformed guess pattern) (
            zip3
              (λ o s i. enforced clamped_pixel bit_options (documented_hio true o s i) s)
              (back_transformed guess pattern).pixels
              area.pixels
              guess.pixels),
        log',
      ))
    × (image_size (back_transformed guess pattern) ≡ 3)
    × AllMeasured amplitudes.pixels amplitudes.mask guess.pixels amplitudes.pixels pattern.pixels
basic_hio_iteration-documented_example =
    basic_hio_iteration-documented bit_sizes bit_parts bit_amplitudes amplitudes guess area
      bit_options no_lines true guess-OneSize (refl, (refl, (refl, tt))) period bit_beta

-- An image with the measured amplitudes that is 0 outside the support stays.
solution_run : basic_hio_iteration amplitudes solution area bit_options no_lines ≡ ok (solution, 1)
unfolding basic_hio_iteration ◌-ℤ◌
solution_run = refl

basic_hio_iteration-solves_example :
    (pattern : Bits) × AllMeasured amplitudes.pixels amplitudes.mask solution.pixels
      amplitudes.pixels pattern.pixels
    × AllSolved (back_transformed solution pattern).pixels area.pixels solution.pixels
basic_hio_iteration-solves_example =
    basic_hio_iteration-solves bit_sizes bit_exact bit_fractions bit_parts bit_amplitudes amplitudes
      solution area solution bit_options no_lines 1 true solution-OneSize (refl, (refl, (refl, tt)))
      period bit_beta refl refl refl solution_run refl

basic_error_reduction_iteration-outside_example :
    (out : Bits) × (log' : ℕ) × (basic_error_reduction_iteration amplitudes guess area bit_options
        no_lines
      ≡ ok (out, log'))
    × (get_elem? out.pixels 2 ≡ some zero)
basic_error_reduction_iteration-outside_example =
    basic_error_reduction_iteration-outside bit_sizes amplitudes guess area bit_options no_lines 2
      zero guess-OneSize period refl refl

serial_difference_map_iteration-reference_example :
    (f1 f2 : Bits) × (log' : ℕ) × (serial_difference_map_f1 guess area true ≡ ok f1)
    × (serial_difference_map_f2 amplitudes guess true ≡ ok f2)
    × (serial_difference_map_iteration amplitudes guess area bit_options no_lines
        ≡ ok (
          with_pixels guess (
              zip3
                (λ b s q. enforced absolute_pixel bit_options (reference_of true b s q) s)
                guess.pixels
                area.pixels
                (zip2 (λ p q. (p, q)) f2.pixels (pi2_f1_image amplitudes f1 3).pixels)),
          log',
        ))
serial_difference_map_iteration-reference_example =
    serial_difference_map_iteration-reference bit_sizes bit-IsLinear bit_exact bit_fractions
      amplitudes guess area bit_options no_lines true true true guess-OneSize refl period bit_beta
      bit_gamma1 bit_gamma2

-- the same with `enforce_real`
abbrev real_options : Options Bool
real_options = record bit_options { enforce_real = pos 1 }

real_beta : get_beta real_options ≡ ok true
unfolding get_beta
real_beta = refl

-- The pixel inside the support loses its imaginary part.
real_run :
    basic_hio_iteration amplitudes solution area real_options no_lines
    ≡ ok (bits (one ∷ zero ∷ zero ∷ []), 1)
unfolding basic_hio_iteration ◌-ℤ◌
real_run = refl

basic_hio_iteration-real_example :
    (out : Bits) × (log' : ℕ) × (p : Complex Bool) × (basic_hio_iteration amplitudes solution area
        real_options no_lines
      ≡ ok (out, log'))
    × (get_elem? out.pixels 1 ≡ some p)
    × (p.im ≡ false)
basic_hio_iteration-real_example =
    basic_hio_iteration-real bit_sizes amplitudes solution area real_options no_lines true 1 one
      solution-OneSize period real_beta refl refl refl

basic_hio_proj_iteration-documented_example :
    (log' : ℕ) × (basic_hio_proj_iteration amplitudes amplitudes guess area bit_options no_lines
      ≡ ok (
        with_pixels (histogram_image amplitudes amplitudes guess) (
            zip3
              (λ o s i. enforced absolute_pixel bit_options (documented_hio true o s i) s)
              (histogram_image amplitudes amplitudes guess).pixels
              area.pixels
              guess.pixels),
        log',
      ))
basic_hio_proj_iteration-documented_example =
    basic_hio_proj_iteration-documented bit_sizes bit_exact bit_parts amplitudes amplitudes guess
      area bit_options no_lines true guess-OneSize period bit_beta

basic_raar_proj_iteration-documented_example :
    (log' : ℕ) × (basic_raar_proj_iteration amplitudes amplitudes guess area bit_options no_lines
      ≡ ok (
        with_pixels (histogram_image amplitudes amplitudes guess) (
            zip3
              (λ o s i. enforced absolute_pixel bit_options (documented_raar true o s i) s)
              (histogram_image amplitudes amplitudes guess).pixels
              area.pixels
              guess.pixels),
        log',
      ))
basic_raar_proj_iteration-documented_example =
    basic_raar_proj_iteration-documented bit_sizes bit_exact bit_parts amplitudes amplitudes guess
      area bit_options no_lines true guess-OneSize period bit_beta
