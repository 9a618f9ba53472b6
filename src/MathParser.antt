-- ===== src/MathParser.antt =====
-- src/math_parser.c: the evaluator of image expressions such as `(A - B) / abs(C)`.
pub mod Token
pub mod Stack
pub mod Pixels
pub mod Arithmetic
pub mod Functions
pub mod Compare
pub mod Select
pub mod Table
pub mod Shunting
pub mod Expr
pub mod Parse
pub mod Evaluate
pub mod Meaning
pub mod Machine
pub mod Tokenize
pub mod Scanner
pub mod Run
pub mod Answers
pub mod Power
