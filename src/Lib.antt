-- ===== src/Lib.antt =====
-- A model of the daemons of v4-with-v6-nh. The host daemons keep the IPv4 default gateway of an
-- interface, the special-purpose address 192.0.0.11, pointed at the IPv6 default router. Those of FreeBSD
-- (host/freebsd/v4gwd.c) and of Linux (host/v4gwd.py) install an IPv4 default route through the router's
-- IPv6 address; the macOS daemon (host/macos/v4gwd-arp.c) pins an ARP entry of the gateway to the
-- router's MAC address, and stores that address on disk, by network, for the next bring-up; the Windows
-- daemon (host/windows/v4gwd.c) does as the macOS one with a permanent neighbour entry and the registry,
-- and the Linux daemon pins a neighbour too where the kernel is older than 5.2. All wait for a change and
-- bring the system to the target by `reconcile`, each time from what they read. The daemon of the router
-- (router/debian/usr/local/sbin/v4gwrd.py) does the same for the way back: for each lease that dnsmasq
-- tells it of it keeps an IPv4 route to the host through the best IPv6 address of the host.
--
-- Files and code:
--   Common            the lists, tests, integers and C string functions that the code uses; tests of
--                     the C language are Booleans (`ltb`, `leb`, `==`), `int` is `ℤ`
--   Inet6             `struct in6_addr` as sixteen bytes, the macros on it, `strip_embedded_scope`
--   Rtsock            the `sysctl` dumps and the loops over their messages; Rtsock.Walk decodes a dump
--                     into a list of messages
--   Mac               a MAC address, `mac_str`, `mac_str_reg` (host/windows/v4gwd.c), the `sscanf` calls
--   FreeBsd.Select    `pref_rank`, `select_router`
--   FreeBsd.Tables    `sentinel_in_fib`, `static_default_router`
--   FreeBsd.Route     `fill_gateway`, the message of `route_msg`
--   FreeBsd.Daemon    the static variables, `sentinel_in_file`, `route_msg`, `install`, `withdraw`,
--                     `reconcile`
--   FreeBsd.Run       `handle_sig`, `kernel_supports_rfc5549`, the options and the poll loop of `main`
--   FreeBsd.Program   `main` with its exits
--   MacOs.Discovery   `ROUNDUP`, `get_rti_info`, `find_default_router`, `router_lladdr`,
--                     `arp_entry_present`, `sentinel_in_fib`, `iface_lladdr`
--   MacOs.Cache       `router_cache_path`, `router_cache_lookup`, `router_cache_put`
--   MacOs.Daemon      the static variables, `sentinel_in_file`, `install`, `withdraw`, `reconcile`,
--                     `dry_run_report`
--   MacOs.Command     `run`
--   MacOs.Run         V4GW_GATEWAY, the options and the poll loop of `main`
--   MacOs.Program     `main` with its exits
--   Windows.Tables    `find_default_router`, `router_lladdr`, `neighbor_present`, `fill_sentinel_row`,
--                     `sentinel_in_fib`
--   Windows.Daemon    the static variables, `resolve_luid`, `interface_mac`, `router_cache_lookup`,
--                     `router_cache_put`, `install`, `withdraw`, `reconcile`, `dry_run_report`
--   Windows.Run       `run_worker`
--   Windows.Args      the command line of `main`
--   Windows.Service   `report`, `ctrl_handler`, `service_main`
--   Windows.Events    the callbacks, `console_ctrl` and the two events of `run_worker`
--   Windows.Program   `main` with its exits
--   Linux.Routes      `_default_routes`, `sentinel_present`, `nud_state`, `router_lladdr`,
--                     `_neighbor_present`
--   Linux.Select      `select_router`
--   Linux.Daemon      `kernel_has_rta_via`, the class `Interface`
--   Linux.Run         `ethernet_ifnames`, `refresh`, `serve`, `main`
--   Router.Hosts      the dictionary `Manager.hosts`
--   Router.NextHop    `is_global_or_ula`, `derive_gua`, `_prefix`, `_cache`, `best_nexthop`
--   Router.Manager    `install`, `withdraw`, `evaluate`, `reconcile_all`, `on_lease`, `on_release`,
--                     `persist`
--   Router.Fifo       `handle_line`, the buffer of `serve`
--   Router.Serve      `restore`, `_live_leases`, `serve`, `main`
--
-- The state of a daemon is a record (`State`), the system is the parameter `K` with a record of
-- operations on it (`Kernel` for FreeBSD, Linux and the router, `System` for macOS and for
-- Windows), and a `World` is both; that of the router is a `Manager`.
-- What a theorem relies on of the system is a record of laws: `IsRouting` and `IsWorking` for the routing
-- socket (route(4)) or rtnetlink(7), `IsOwn` for what the routes of the daemon leave alone, `IsNaming` for
-- the indices of interfaces, `IsPinning` for arp(8) or the neighbour table, `IsFiles` for the file system,
-- `IsRegistry` for the registry. A dump is a function from an offset to what a cast of the pointer reads,
-- since the layout of the structures is the kernel's; a round of the poll loop is a `Round`, with what
-- the rest of the system and the signals have done meanwhile. The loops are all `while_running` of
-- Common.Loop, and a `main` gives an `Outcome`: the exit status, if it has ended, and the system. The
-- Windows service is a step relation: the thread of `service_main` and the control handler take their steps
-- in any order, and when the service control manager sends a stop is a parameter of the relation. So are the
-- changes of the system, the callbacks and the worker with its two events, where a `reconcile` begins, acts and
-- returns in three steps; it acts in one, though it reads one table after the other. What the kernel, arp(8), the
-- neighbour table and the registry are asked for they can refuse, and a theorem that needs it granted says so. A
-- dictionary of Python is a list of its entries in the order in which they have come, a set a list.
--
-- Bounds: the loop over a dump has one round for each byte of the buffer and one more, enough because a
-- message is at least one byte long; the loop over the list of routers likewise, as an entry is; the
-- inner loop over the addresses of a message has its four rounds. The poll loops and the worker's loop run
-- over a list of rounds of any length, and so does the reading of the FIFO over its bytes.
-- The timeout of `poll` is a C `int`, that of the worker a 32-bit number.
--
-- Not modelled: the log lines, and the opening of the log, but for the directory that the Windows daemon
-- creates; `getopt`, `inet_aton`, `socket`, `MultiByteToWideChar`, `wcstoul` and the dispatcher of Windows, whose results are parameters; what
-- the child of `run` does before `execv`; of Python, argparse, the ipaddress module, `int`, `lower` and
-- `decode`, which are parameters, and an exception that nothing catches; pyroute2, which is a parameter;
-- the patches to systemd-networkd, the scripts and configurations of the routers, the lab and the
-- packaging, which are not code of these daemons.
pub mod Common
pub mod Inet6
pub mod Rtsock
pub mod Mac
pub mod FreeBsd
pub mod MacOs
pub mod Windows
pub mod Linux
pub mod Router
