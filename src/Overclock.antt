-- ===== src/Overclock.antt =====
-- daemon/crates/overclock: the plan of an overclock, which is arithmetic on requests.
pub mod Plan
pub mod Trial
