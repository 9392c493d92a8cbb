-- ===== src/Prelude/Bits.antt =====
-- `&`, `|` and `^` at every width: the equations of the lowest digit, and what follows from them.
mod Step
pub mod Digit
pub mod Xor
pub mod Fields
pub use Step.{bit_or_step, bit_and_step, bit_xor_step}
