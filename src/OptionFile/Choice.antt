-- ===== src/OptionFile/Choice.antt =====
-- src/configuration.c: the value of a multiple choice, as `read_options_file` takes it from a text
-- and `write_options_file` turns it into a name.
-- A text is the answer of `config_lookup_string`, which is NULL for a setting that is no string.
use hawk.Prelude.{
  ℕ, ◌+◌, ◌&&◌, List, [], ◌∷◌, map, leb, if◌then◌else◌, ℤ, eq_int, Option, none, some, Outcome, ok,
  aborted, undefined, ◌>>=◌,
}
use hawk.Metadata.Variable.{Choice}
use hawk.Metadata.Choices.{strings_equal}
use hawk.OptionFile.Path.{put_buffer}

-- in the locale of C
abbrev pub tolower : ℕ → ℕ
tolower c = if leb 65 c && leb c 90 then c + 32 else c

unfoldable pub find_choice : List Choice → List ℕ → Outcome ℤ
unfolding strings_equal
find_choice [] buffer = aborted
find_choice (c ∷ choices) buffer =
    let rest = find_choice choices buffer in
    if strings_equal c.name buffer then ok c.value else rest

unfoldable pub read_choice : List Choice → Option (List ℕ) → Outcome ℤ
unfolding find_choice put_buffer
read_choice choices none = undefined
read_choice choices (some text) =
    put_buffer text >>= λ buffer. find_choice choices (map tolower buffer)

unfoldable pub write_choice : List Choice → ℤ → Outcome (List ℕ)
write_choice [] v = aborted
write_choice (c ∷ choices) v =
    let rest = write_choice choices v in if eq_int v c.value then ok c.name else rest
