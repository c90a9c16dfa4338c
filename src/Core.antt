-- ===== src/Core.antt =====
-- daemon/crates/core: what the modules of the daemon share.
pub mod Events
