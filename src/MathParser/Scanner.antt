-- ===== src/MathParser/Scanner.antt =====
-- `tokenize_string` of src/math_parser.c: what is proved of it.
pub mod Ends
pub mod Readable
pub mod Names
pub mod Numbers
