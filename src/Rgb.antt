-- ===== src/Rgb.antt =====
-- The lights of the keyboard: the crate under daemon/crates/rgb.
pub mod Color
