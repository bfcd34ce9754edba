-- ===== src/F64.antt =====
-- The numbers of type `f64`, as the operations that the program makes on them. The processor
-- implements them, so they are a parameter: a type with an instance of `F64`. Comparisons are
-- Boolean, as a comparison with NaN is false. What the standard library computes from these
-- (`max`, `min`, `clamp`, `is_nan`) is defined here.
pub mod Laws
pub mod Order
pub mod Decimal
mod Defs
unfoldable pub use Defs.*
