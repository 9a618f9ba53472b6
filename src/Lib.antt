-- ===== src/Lib.antt =====
-- Hawk reconstructs objects from diffraction data. This library models parts of its C code, function
-- by function, and proves what makes them correct.
--
-- `MathParser` is src/math_parser.c, the calculator on images behind the tool image_math. It has three
-- passes. `tokenize_string` turns a text into an array of infix tokens; `parse_tokens` reorders them
-- into postfix by the shunting-yard algorithm; `evaluate_postfix` runs them on a stack of tokens, where
-- an operator token runs its function `token_stack_*`. `evaluate_math_expression` composes the three.
-- - MathParser/Token and MathParser/Stack: the structs, and the token stack. A function of the source on
--   the stack is a `Program`: from a stack to a result and a stack. The end of a run is an `Outcome`:
--   `ok`; `aborted` for a call of abort() or hawk_fatal(); `undefined` where C's behaviour is undefined,
--   such as an access outside of an array or an overflow of int; `out_of_fuel`.
-- - MathParser/Pixels, Arithmetic, Functions, Compare, Select: the 33 functions token_stack_*. Each pops
--   its operands, applies a function on tokens (`add_tokens` and its like) and pushes the result.
-- - MathParser/Table: operator_table in its order. The function pointer of a row is `run_op` of its name.
-- - MathParser/Shunting: parse_tokens. Its stack holds operators only, so it is a list of operators.
-- - MathParser/Evaluate: evaluate_postfix. MathParser/Tokenize: tokenize_string and
--   index_from_variable_name. MathParser/Run: evaluate_math_expression.
-- - MathParser/Expr: trees of operands and operators, what they look like in infix and in postfix, and
--   when precedence and associativity determine a tree. MathParser/Meaning and
--   MathParser/Machine/Values: the operators as functions, and the value of a tree, without a stack.
-- - MathParser/Parse is about parse_tokens, MathParser/Machine about the stack machine,
--   MathParser/Scanner about the tokenizer, MathParser/Answers about the three together, and
--   MathParser/Power about one expression that goes wrong.
--
-- `Configuration` is the part of src/configuration.c that gives the parameters of a run at an
-- iteration (get_beta, get_blur_radius, get_phases_blur_radius, get_template_area, get_object_area,
-- get_gamma1, get_gamma2, get_random_seed), with the interpolation on maps (Configuration/Bezier)
-- and on checkpoints (Configuration/Checkpoints), about which are Configuration/Knots,
-- Configuration/Steps and Configuration/Bounds. `Metadata` is src/metadata.c: the functions depends_on_*,
-- get_list_value_from_list_name (Metadata/Choices), and the table variable_metadata
-- (Metadata/Table), with the rows in their order. Both read the options, `Options`, which shows those
-- fields of the struct in include/configuration.h that they use.
--
-- `OptionFile` is the part of src/configuration.c that gives an option its place and its text in a
-- file: get_path (OptionFile/Path), get_config_type, the way read_options_file and write_options_file
-- turn a multiple choice into a name and back (OptionFile/Choice), the loop of read_options_file
-- (OptionFile/Reading), and the loop of write_options_file that creates the groups
-- (OptionFile/GroupLoop), where a unit of fuel is a round over the table. A parsed file is its function
-- config_lookup, and what is read from a setting is the record `ConfigLibrary`. OptionFile/Listed is
-- about lists of choices, OptionFile/RoundTrip about the rows of the table, OptionFile/Groups about the
-- creation of the groups, OptionFile/LastRow about the row that gives a field its value, and
-- OptionFile/Spares about the rows that leave it.
--
-- `Algorithms` is src/algorithms.c: one iteration of a phasing algorithm, from the measured
-- amplitudes, the image, the support, the options and the log. The loops that the algorithms share
-- are in Algorithms, the iterations in Algorithms/Iterations, Algorithms/Raar (with its static
-- images in the state `RaarState`), Algorithms/Flip and Algorithms/DifferenceMap.
-- Algorithms/Projections is src/output_projection.c. Algorithms/Pixels has every loop as one function
-- at every pixel, and Algorithms/Pointwise the iterations in these terms. Algorithms/Formula and
-- Algorithms/Documented are about the formula in the comment on RAAR, Algorithms/Elser about the
-- difference map and its reference implementation, Algorithms/Reduction about error reduction,
-- Algorithms/Measured about the amplitudes, Algorithms/Hybrid about the hybrid input-output algorithm
-- and Algorithms/Solutions about its fixed points, Algorithms/Enforcement about the constraints,
-- Algorithms/Histogram about the variants with the histogram, and Algorithms/Bounded and
-- Algorithms/Statics about the calls of RAAR after the first. Numbers are those of `Reals`, without
-- laws; where a theorem needs exact numbers or a linear transform, it says so (`ExactArithmetic`,
-- `ExactFractions`, `ExactAmplitudes`, `ByParts`, `IsLinear`). Rounding is then left out, and what
-- depends on it is not shown.
--
-- `Support` is the part of src/support.c that finds the support at an iteration: get_support_level,
-- get_updated_support and get_patterson_level, with get_algorithm of src/algorithms.c. The static
-- variable stepped_flag and what previous_size points to are in the state `LevelState`. Support/Area is
-- about the level that keeps an area, Support/Indicator about the new support. The blur, the copies of
-- images and qsort are parameters, in the record `SupportLibrary`.
--
-- libspimage, C's floating point and strtod are parameters: the records `Numbers` and `SpLibrary` of
-- SpImage, `Reals` of Reals, and arguments. `KeepsSizes` says what is assumed of libspimage: its
-- functions on images return images of the size of their operands. An `sp_vector` is a list, and an
-- `sp_smap` a list of keys with a list of values. `Tests` has an instance of them all, and runs on it.
--
-- Bounds: a stack has STACK_MAX = 100 places, the tokenizer's array 1000 entries, its message buffers
-- 1024 characters, the paths and texts of options OPTION_STRING_SIZE = 10026 characters, and int is 32
-- bits wide; what leaves them is `undefined`. The fuel of the tokenizer's loop is the length of the text
-- plus 1002, more than its rounds: a round shortens the text, or fills one of the 1000 entries. One
-- round is enough for the groups of a file.
--
-- Not modelled of math_parser.c: the overflow of precedence_modifier after two million parentheses, the
-- text that is left cut off after an unknown variable, the freeing of memory, and the warning about
-- unbalanced parentheses. A row of operator_table has one identifier, as all rows have. Of
-- configuration.c: the defaults, the loading of the images, and the loop of write_options_file over
-- the options. Of algorithms.c: basic_haar_iteration, basic_so2d_iteration and the variant for MPI. Of
-- support.c: the first supports, the filters, and the images that are written on the way. The log, the
-- user interfaces, the network protocol, the command line tools and the vendored libraries are not
-- modelled.
pub mod Prelude
pub mod SpImage
pub mod MathParser
pub mod OptionFile
pub mod Reals
pub mod Options
pub mod Metadata
pub mod Configuration
pub mod Support
pub mod Algorithms
pub mod Tests
