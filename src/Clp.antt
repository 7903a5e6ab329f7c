-- ===== src/Clp.antt =====
-- clp.c: the command line parser.
pub mod Chars
pub mod BreakArgs
pub mod Options
pub mod Posparam
pub mod OptString
pub mod Parse
pub mod Actions
pub mod Convert
pub mod Usage
pub mod Help
pub mod Errors
pub mod Macros
