-- ===== src/MathParser/Parse.antt =====
-- `parse_tokens` of src/math_parser.c: what is proved of it.
pub mod Loops
pub mod Permutes
pub mod Trees
