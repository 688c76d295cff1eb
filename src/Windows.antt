-- ===== src/Windows.antt =====
-- The Windows daemon (host/windows/v4gwd.c), one child for each group of its functions.
pub mod Tables
pub mod Daemon
pub mod Args
pub mod Run
pub mod Events
pub mod Service
pub mod Program
mod Tests
