-- ===== src/Router.antt =====
-- The return-route daemon of the router (router/debian/usr/local/sbin/v4gwrd.py), one child for each
-- group of its functions.
pub mod Hosts
pub mod NextHop
pub mod Manager
pub mod Fifo
pub mod Serve
mod Tests
