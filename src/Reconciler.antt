-- ===== src/Reconciler.antt =====
-- reconciler.py.
pub mod Bouncer
pub mod Filter
pub mod RunOne
pub mod RunOnce
mod Tests
