-- ===== src/Linux.antt =====
-- The Linux host daemon (host/v4gwd.py), one child for each group of its functions.
pub mod Routes
pub mod Select
pub mod Daemon
pub mod Run
mod Tests
