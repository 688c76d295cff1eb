-- ===== src/FreeBsd/Tests.antt =====
-- Concrete systems for the FreeBSD daemon (host/freebsd/v4gwd.c), and its theorems at them.
pub mod Kernels
pub mod Scans
pub mod Runs
