-- ===== src/Windows/Tests/Rows.antt =====
-- The theorems on the tables and on the dry run (host/windows/v4gwd.c) at the small system.
use v4_with_v6_nh.Common.{none, some, List, [], ◌∷◌}
use v4_with_v6_nh.Mac.{Mac}
use v4_with_v6_nh.Windows.Tables.{NeighborRow, fill_sentinel_row}
use v4_with_v6_nh.Windows.Daemon.{World, Report, would_pin}
use v4_with_v6_nh.Windows.Program.{first_state}
use v4_with_v6_nh.Windows.Tests.{router_b, router_mac, router_row, machine_with, Machine}

-- The router's row, and the one that the daemon writes.
abbrev two_rows : List NeighborRow
two_rows = router_row ∷ fill_sentinel_row 7 (some router_mac) ∷ []

abbrev small_report : Report
small_report = record { in_fib = none; found = would_pin router_b router_mac }

abbrev first_world : World Machine
first_world = record { daemon = first_state; os = machine_with none }
