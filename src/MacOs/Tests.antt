-- ===== src/MacOs/Tests.antt =====
-- Concrete systems for the macOS daemon (host/macos/v4gwd-arp.c), and its theorems at them.
pub mod Systems
mod Runs
mod Scans
mod Programs
