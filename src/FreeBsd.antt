-- ===== src/FreeBsd.antt =====
-- The FreeBSD daemon (host/freebsd/v4gwd.c), one child for each group of its functions.
pub mod Select
pub mod Tables
pub mod Route
pub mod Daemon
mod Tests
pub mod Run
pub mod Program
