-- ===== src/Float.antt =====
-- Go's float64, as an interface: antt has no floats, so the type and the operations that the
-- program uses are a parameter of every definition that touches a price, a volume or a ratio.
-- `a > b` and `a >= b` of the source are `lt b a` and `le b a`, which is how IEEE 754 defines them,
-- NaN included. `IsIeee` names the few facts about float64 that some theorems rely on, and `Fixed`
-- is a number type with NaN that has them all, for the tests.
mod Defs
pub mod Fixed
pub use Defs.*
