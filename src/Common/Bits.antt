-- ===== src/Common/Bits.antt =====
-- Bit operations at variables: each is a digit recursion, from which the masks' laws follow.
pub mod Halves
pub mod Digits
pub mod Masks
pub use Digits.*
pub use Masks.*
