-- ===== src/Fan/Curve.antt =====
-- daemon/crates/fan/src/curve.rs: the arithmetic of fan control. The shape of a curve is in `Shape`,
-- the speed floor and the moving average in the other children.
pub mod Shape
pub mod Floor
pub mod Smoother
mod Tests
