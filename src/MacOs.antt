-- ===== src/MacOs.antt =====
-- The macOS daemon (host/macos/v4gwd-arp.c), one child for each group of its functions.
pub mod Discovery
pub mod Cache
pub mod Command
pub mod Daemon
pub mod Run
pub mod Program
mod Tests
