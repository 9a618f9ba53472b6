-- ===== src/OptionFile/Path.antt =====
-- src/configuration.c, `get_path`: the names from the outermost group to the option, with dots.
-- The two buffers hold `OPTION_STRING_SIZE` characters with the zero at the end; a longer text
-- overruns them.
use hawk.Prelude.{
  ℕ, ◌<◌, ◌≡◌, refl, sym, ap, ◌∙◌, List, [], ◌∷◌, ◌++◌, ltb, lt→ltb, if◌then◌else◌, none, some,
  Outcome, ok, undefined, ◌>>=◌, length, length-append, arith,
}
use hawk.Metadata.Variable.{Group, root, group, VariableMetadata}

abbrev pub option_string_size : ℕ
option_string_size = 10026

abbrev dot : ℕ
dot = 46

unfoldable pub put_buffer : List ℕ → Outcome (List ℕ)
put_buffer text = if ltb (length text) option_string_size then ok text else undefined

-- the loop over the parents
unfoldable pub prepend_parents : Group → List ℕ → Outcome (List ℕ)
unfolding put_buffer
prepend_parents root buffer1 = ok buffer1
prepend_parents (group name parent) buffer1 =
    put_buffer (name ++ dot ∷ buffer1) >>= λ longer. prepend_parents parent longer

unfoldable pub get_path : VariableMetadata → Outcome (List ℕ)
unfolding put_buffer prepend_parents
get_path vm = elim vm.parent [
  | none ↦ undefined
  | some parent ↦ put_buffer vm.variable_name >>= λ buffer1. prepend_parents parent buffer1
]

-- The groups around an option, the outermost first, each with a dot behind its name.
abbrev pub prefix : Group → List ℕ
prefix root = []
prefix (group name parent) = prefix parent ++ (name ++ dot ∷ [])

module _ {A : Type 0} where
  append_assoc : (xs ys zs : List A) → xs ++ ys ++ zs ≡ xs ++ (ys ++ zs)
  append_assoc [] ys zs = refl
  append_assoc (x ∷ xs) ys zs = ap (◌∷◌ x) (append_assoc xs ys zs)

pub put_buffer-fits : (text : List ℕ) → length text < option_string_size → put_buffer text ≡ ok text
unfolding put_buffer
put_buffer-fits text h = rw (lt→ltb (length text) option_string_size h) refl

prefix-snoc :
    (name buffer : List ℕ) (parent : Group)
    → (prefix parent ++ (name ++ dot ∷ [])) ++ buffer ≡ prefix parent ++ (name ++ dot ∷ buffer)
prefix-snoc name buffer parent =
    append_assoc (prefix parent) (name ++ dot ∷ []) buffer
    ∙ ap (λ x. prefix parent ++ x) (append_assoc name (dot ∷ []) buffer)

prepend_parents-prefix :
    (parent : Group) (buffer : List ℕ)
    → length (prefix parent ++ buffer) < option_string_size
    → prepend_parents parent buffer ≡ ok (prefix parent ++ buffer)
unfolding prepend_parents
prepend_parents-prefix root buffer h = refl
prepend_parents-prefix (group name parent) buffer h =
    let longer = name ++ dot ∷ buffer in
    let same = prefix-snoc name buffer parent in
    let fits : length (prefix parent ++ longer) < option_string_size =
      omega (arith, h, ap length same) in
    let short : length longer < option_string_size =
      omega (arith, fits, length-append (prefix parent) longer) in
    rw (put_buffer-fits longer short) (prepend_parents-prefix parent longer fits ∙ ap ok (sym same))

-- `get_path` gives the names of the groups around an option, from the outermost on, each followed
-- by a dot, and then the option's own name, when this text fits into the buffers.
pub get_path-prefix :
    (vm : VariableMetadata) (parent : Group)
    → vm.parent ≡ some parent
    → length (prefix parent ++ vm.variable_name) < option_string_size
    → get_path vm ≡ ok (prefix parent ++ vm.variable_name)
unfolding get_path
get_path-prefix vm parent e h =
    let short : length vm.variable_name < option_string_size =
      omega (arith, h, length-append (prefix parent) vm.variable_name) in
    rw (e, put_buffer-fits vm.variable_name short)
      (prepend_parents-prefix parent vm.variable_name h)
