-- ===== src/Windows/Daemon/DryRun.antt =====
-- The dry run against the daemon (host/windows/v4gwd.c `dry_run_report`, `reconcile`).
use v4_with_v6_nh.Common.{Option, none, some}
use v4_with_v6_nh.Mac.{Mac}
use v4_with_v6_nh.Windows.Daemon.{System, Config, World, install, withdraw}

module _ {K : Type 0} (sys : System K) (c : Config) where
  -- What is done with the stored address of the network.
  abbrev pub follow_stored : Option Mac → World K → World K
  follow_stored none w = withdraw sys c w
  follow_stored (some cached) w = install sys c cached w
