-- ===== src/MathParser/Machine.antt =====
-- The stack machine of src/math_parser.c against its operators as functions.
pub mod Programs
pub mod Sizes
pub mod Sound
pub mod Values
pub mod Total
pub mod Correct
pub mod Safe
