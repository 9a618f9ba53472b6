-- ===== src/Support.antt =====
-- src/support.c: the level of the support at an iteration, and the support for a level; and
-- src/algorithms.c, `get_algorithm`.
-- `qsort` and the blur are parameters, in `SupportLibrary`. `hawk_fatal` is `aborted`. The images that
-- the source writes to files on its way are left out. The field `support_mask` of the options, an
-- image, is an argument.
pub mod Indicator
pub mod Area
use hawk.Prelude.{
  ℕ, ◌+◌, ◌*◌, List, [], ◌∷◌, map, Bool, true, false, not, ◌&&◌, ◌||◌, if◌then◌else◌, ℤ, pos,
  negsuc, eq_int, lt_int, Option, none, some, Outcome, ok, aborted, undefined, map_ok, ◌>>=◌,
}
use hawk.SpImage.{Complex, cinit, Image, image_size, Numbers, SpLibrary}
use hawk.Reals.{Reals, real_ℕ, is_true, ◌⊕◌, ◌⊖◌, ◌⊗◌, ◌⊘◌}
use hawk.Options.{
  Options, PhasingAlgorithm, hio, raar, SupportUpdateAlgorithm, fixed, static, stepped,
  real_error_capped, real_error_adaptative, constant_area, decreasing_area, complex_decreasing_area,
  template_area, is_support, is_phasing,
}
use hawk.Configuration.Bezier.{element}
use hawk.Configuration.Area.{get_object_area}

-- The fields of the log that are read here.
pub record Log (R : Type 0) : Type 0 where
  pub ereal : R
  pub d_sup_size : R

pub record SupportLibrary (R D : Type 0) : Type 0 where
  pub gaussian_blur : Image R D → R → Image R D
  -- `sp_image_duplicate` with SP_COPY_DATA, and with SP_COPY_MASK too
  pub duplicate_data : Image R D → Image R D
  pub duplicate_masked : Image R D → Image R D
  pub qsort : (Complex R → Complex R → ℤ) → List (Complex R) → List (Complex R)

module _ {R : Type 0} ⦃reals : Reals R⦄ where
  unfoldable pub get_algorithm : Options R → Log R → PhasingAlgorithm × Options R
  get_algorithm opts log =
      let changed : Options R = record opts { algorithm = raar } in
      if not (eq_int opts.automatic (pos 0)) && reals.less (real_ℕ 0) log.d_sup_size
      then (raar, changed)
      else (opts.algorithm, opts)

-- The static `stepped_flag`, `*previous_size`, and the options.
pub record LevelState (R : Type 0) : Type 0 where
  pub stepped_flag : Bool
  pub previous_size : R
  pub opts : Options R

module _ {R : Type 0} ⦃num : Numbers R⦄ ⦃reals : Reals R⦄ where
  abbrev pub descend_complex_compare : Complex R → Complex R → ℤ
  descend_complex_compare a b =
      if reals.less (num.cabs a) (num.cabs b)
      then pos 1
      else if reals.equal (num.cabs a) (num.cabs b)
      then pos 0
      else negsuc 0

  -- The loop that finds `max_int`.
  unfoldable pub brightest : R → List (Complex R) → R
  brightest max_int [] = max_int
  brightest max_int (p ∷ ps) =
      brightest (if reals.less max_int (num.cabs p) then num.cabs p else max_int) ps

  -- The index of the first pixel below `bound`, or the number of the pixels.
  unfoldable pub first_below : R → ℕ → List (Complex R) → ℕ
  first_below bound i [] = i
  first_below bound i (p ∷ ps) =
      let later = first_below bound (i + 1) ps in if reals.less (num.cabs p) bound then i else later

  -- `data[i]`
  abbrev pixel_at : List (Complex R) → ℤ → Outcome (Complex R)
  pixel_at ps (pos i) = element ps i
  pixel_at ps (negsuc i) = undefined

  abbrev pub binary_pixel : Complex R → Complex R
  binary_pixel p = if is_true (num.cabs p) then cinit (real_ℕ 1) (real_ℕ 0) else p

  abbrev pub threshold_pixel : R → Complex R → Complex R
  threshold_pixel bound p =
      if reals.less (num.cabs p) bound
      then cinit (real_ℕ 0) (real_ℕ 0)
      else cinit (real_ℕ 1) (real_ℕ 0)

  -- `real_error_threshold`, where a negative option stands for the default of the algorithm.
  abbrev default_threshold : PhasingAlgorithm → Outcome R
  default_threshold hio = ok (reals.decimal 55 2)
  default_threshold raar = ok (reals.decimal 20 2)
  default_threshold _ = aborted

  abbrev error_threshold : Options R → Log R → Outcome (R × Options R)
  error_threshold opts log =
      let (algorithm, opts') = get_algorithm opts log in
      if reals.less opts.real_error_threshold (real_ℕ 0)
      then map_ok (λ r. (r, opts')) (default_threshold algorithm)
      else ok (opts.real_error_threshold, opts)

  abbrev stepped_level : Log R → LevelState R → R × LevelState R
  stepped_level log st =
      let late =
        lt_int (pos 40) st.opts.cur_iteration && reals.less (reals.decimal 3 1) log.ereal in
      let flag = late || st.stepped_flag in
      let level : R = if flag then st.opts.new_level ⊗ reals.decimal 75 2 else st.opts.new_level in
      (level, record st { stepped_flag = flag })

  module _ {D : Type 0} ⦃lib : SpLibrary R D⦄ ⦃support : SupportLibrary R D⦄ where
    abbrev pub on_pixels : (Complex R → Complex R) → Image R D → Image R D
    on_pixels f a = record a { pixels = map f a.pixels }

    abbrev add_mask : Option (Image R D) → Image R D → Image R D
    add_mask none res = res
    add_mask (some mask) res = lib.image_add res mask

    -- The image whose pixels are compared with the level.
    abbrev pub blurred : SupportUpdateAlgorithm → Image R D → R → Image R D
    blurred algorithm input radius =
        let t = support.duplicate_data input in
        let t' = if is_support algorithm complex_decreasing_area then t else lib.image_dephase t in
        lib.image_dephase (support.gaussian_blur t' radius)

    unfoldable pub get_updated_support :
        Image R D → R → R → Options R → Option (Image R D) → Image R D
    unfolding brightest
    get_updated_support input level radius opts support_mask =
        let res = blurred opts.support_update_algorithm input radius in
        let max_int = brightest (real_ℕ 0) res.pixels in
        on_pixels binary_pixel
          (add_mask support_mask (on_pixels (threshold_pixel (max_int ⊗ level)) res))

    abbrev sorted_pixels : Image R D → List (Complex R)
    sorted_pixels a = support.qsort descend_complex_compare a.pixels

    -- The brightness of the pixel at the end of a fraction `area` of the pixels, brightest first, as
    -- a fraction of the maximum.
    abbrev pub level_of_area : R → Image R D → Outcome R
    level_of_area area res = do
      p ← pixel_at (sorted_pixels res) (reals.truncate (real_ℕ (image_size res) ⊗ area))
      top ← element (sorted_pixels res) 0
      ok (num.cabs p ⊘ num.cabs top)

    -- The case REAL_ERROR_ADAPTATIVE: the previous size shrinks or grows with the error.
    abbrev adapted_level :
        Image R D → R → Log R → LevelState R → R → Options R → Outcome (R × LevelState R)
    adapted_level input radius log st threshold opts' =
        let reduction : R = real_ℕ 1 ⊖ (threshold ⊖ log.ereal) ⊘ reals.decimal 10 0 in
        let res = lib.image_dephase (support.gaussian_blur input radius) in
        let max_int = brightest (real_ℕ 0) res.pixels in
        let sorted = sorted_pixels res in
        let previous : R =
          if reals.less st.previous_size (real_ℕ 0)
          then real_ℕ (first_below (reals.negate st.previous_size) 0 sorted)
          else st.previous_size in
        let new_size = reals.truncate (previous ⊗ reduction) in
        do
          p ← pixel_at sorted new_size
          ok (
            num.cabs p ⊘ max_int,
            record st { previous_size = reals.of_int new_size; opts = opts' },
          )

    abbrev area_level : Image R D → R → Options R → SupportUpdateAlgorithm → Outcome R
    area_level input radius opts algorithm =
        let t = support.duplicate_data input in
        let t' = if is_support algorithm complex_decreasing_area then t else lib.image_dephase t in
        get_object_area opts >>= λ area. level_of_area area (support.gaussian_blur t' radius)

    abbrev level_by_algorithm :
        SupportUpdateAlgorithm → Image R D → R → Log R → LevelState R → Outcome (R × LevelState R)
    level_by_algorithm fixed input radius log st = ok (st.opts.new_level, st)
    level_by_algorithm stepped input radius log st = ok (stepped_level log st)
    level_by_algorithm real_error_capped input radius log st = ok (
        if reals.less log.ereal st.opts.real_error_threshold
        then (st.opts.new_level, st)
        else (reals.of_int (negsuc 0), st))
    level_by_algorithm real_error_adaptative input radius log st =
        error_threshold st.opts log >>= λ r. adapted_level input radius log st r.0 r.1
    level_by_algorithm constant_area input radius log st =
        map_ok (λ r. (r, st))
          (level_of_area st.opts.object_area
            (support.gaussian_blur (lib.image_dephase (support.duplicate_data input)) radius))
    level_by_algorithm decreasing_area input radius log st =
        map_ok (λ r. (r, st)) (area_level input radius st.opts decreasing_area)
    level_by_algorithm complex_decreasing_area input radius log st =
        map_ok (λ r. (r, st)) (area_level input radius st.opts complex_decreasing_area)
    level_by_algorithm static input radius log st = aborted
    level_by_algorithm template_area input radius log st = aborted

    unfoldable pub get_support_level :
        Image R D → R → Log R → LevelState R → Outcome (R × LevelState R)
    unfolding get_algorithm brightest first_below
    get_support_level input radius log st =
        level_by_algorithm st.opts.support_update_algorithm input radius log st

    abbrev patterson_by_algorithm : SupportUpdateAlgorithm → Image R D → R → Options R → Outcome R
    patterson_by_algorithm fixed input radius opts = ok opts.init_level
    patterson_by_algorithm constant_area input radius opts = level_of_area opts.object_area (
        lib.image_dephase (
          if is_true radius
          then support.gaussian_blur input radius
          else support.duplicate_masked input))
    patterson_by_algorithm _ input radius opts = aborted

    unfoldable pub get_patterson_level : Image R D → R → Options R → Outcome R
    get_patterson_level input radius opts =
        patterson_by_algorithm opts.patterson_level_algorithm input radius opts
