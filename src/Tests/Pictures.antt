-- ===== src/Tests/Pictures.antt =====
-- Options, and images of three pixels, over the numbers modulo 2.
use hawk.Prelude.{refl, List, [], ◌∷◌, Bool, true, false, pos, none, ℕ}
use hawk.SpImage.{Complex, cinit}
use hawk.Options.{Options, raar, fixed, gaussian_blur_reduction}
use hawk.Algorithms.Pointwise.{OneSize}
use package.hawk.Tests.Modulo2.{
  Bits, bit_numbers, bit_reals, bit_library, bit_blurs, bit_pixels, bit_algorithms, bit_log,
}

abbrev pub bit_options : Options Bool
bit_options = record {
  diffraction_filename = [];
  init_support_filename = [];
  image_guess_filename = [];
  algorithm = raar;
  support_update_algorithm = fixed;
  patterson_level_algorithm = fixed;
  blur_radius_reduction_method = gaussian_blur_reduction;
  cur_iteration = pos 19;
  beta = true;
  dyn_beta = false;
  max_blur_radius = false;
  min_blur = false;
  iterations_to_min_blur = pos 0;
  phases_max_blur_radius = false;
  phases_min_blur_radius = false;
  iterations_to_min_phases_blur = pos 0;
  object_area = false;
  min_object_area = false;
  iterations_to_min_object_area = pos 0;
  gamma1 = true;
  gamma2 = true;
  random_seed = pos 0;
  automatic = pos 0;
  new_level = false;
  init_level = false;
  real_error_threshold = false;
  object_area_checkpoints = none;
  object_area_at_checkpoints = none;
  beta_checkpoints = none;
  beta_at_checkpoints = none;
  object_area_evolution = none;
  support_blur_evolution = none;
  beta_evolution = none;
  phases_blur_evolution = none;
  template_area_evolution = none;
  enforce_real = pos 0;
  enforce_positivity = pos 0;
  log_output_period = pos 20;
  remove_central_pixel_phase = pos 0;
  perturb_weak_reflections = false;
  charge_flip_sigma = false;
  espresso_tau = false;
}

-- the log before
abbrev pub no_lines : ℕ
no_lines = 0

abbrev pub zero : Complex Bool
zero = cinit false false

abbrev pub one : Complex Bool
one = cinit true false

abbrev pub imaginary : Complex Bool
imaginary = cinit false true

abbrev pub bits : List (Complex Bool) → Bits
bits ps = record {
  pixels = ps;
  mask = pos 1 ∷ pos 0 ∷ pos 1 ∷ [];
  phased = 1;
  shifted = 0;
  rest = tt;
}

-- The second amplitude is masked out, and the third pixel lies outside the support.
abbrev pub amplitudes : Bits
amplitudes = bits (one ∷ one ∷ zero ∷ [])

abbrev pub area : Bits
area = bits (one ∷ one ∷ zero ∷ [])

abbrev pub guess : Bits
guess = bits (one ∷ one ∷ one ∷ [])

abbrev pub solution : Bits
solution = bits (one ∷ imaginary ∷ zero ∷ [])

pub guess-OneSize : OneSize amplitudes guess area
guess-OneSize = record { mask_size = refl; in_size = refl; support_size = refl }

pub solution-OneSize : OneSize amplitudes solution area
solution-OneSize = record { mask_size = refl; in_size = refl; support_size = refl }
