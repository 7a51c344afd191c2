-- ===== src/Word.antt =====
-- `std::size_t` and `std::uintptr_t` as native numbers below 2 ^ 64, with the wrap-around and the
-- bit operations written out.
mod Ops
mod Masks
mod Align
pub use Ops.*
pub use Align.*
