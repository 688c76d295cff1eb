-- ===== src/FreeBsd/Program.antt =====
-- `main` of host/freebsd/v4gwd.c as a whole: the checks before the poll loop, each with its exit
-- status, and the loop to its end.
pub mod Exits
use v4_with_v6_nh.Common.Outcome.{Outcome, exits, exits_after}
use v4_with_v6_nh.Common.{
  ℕ, Bool, true, false, not, Option, none, some, List, [], ◌==◌, if◌then◌else◌,
}
use v4_with_v6_nh.Common.Int.{ℤ}
use v4_with_v6_nh.FreeBsd.Daemon.{Kernel, Config, World}
use v4_with_v6_nh.FreeBsd.Run.{
  Opt, Options, has_file, parse_args, kernel_supports_rfc5549, Process, Round, run,
}

-- The kernel, for an interface name and the path of a state file; the value of the feature knob; and
-- whether `socket` gives a routing socket.
pub record Platform (K : Type 0) : Type 0 where
  pub kernel : List ℕ → Option (List ℕ) → Kernel K
  pub rfc5549_support : K → Option ℤ
  pub opens_socket : Bool

abbrev pub config_of : Options → Config
config_of o = record {
  require_sentinel_route = o.require_sentinel_route;
  use_sentinel_file = has_file o;
}

module _ {K : Type 0} where
  -- The static variables at the first `reconcile`.
  abbrev pub first_world : ℕ → K → World K
  first_world ifindex os = record {
    daemon = record { ifindex = ifindex; rtseq = 1; route_installed = false; installed_gw = [] };
    os = os;
  }

  abbrev pub outcome_of : Process K → Outcome K
  outcome_of p = exits_after p.running p.world.os

  -- `main` after the command line.
  unfoldable pub start : Platform K → List ℕ → Options → List (Round K) → K → Outcome K
  start plat ifname o rs os =
      let k = plat.kernel ifname o.sentinel_file in
      let ifindex = k.if_nametoindex os in
      if ifindex == 0
      then exits 1 os
      else if not (kernel_supports_rfc5549 (plat.rfc5549_support os))
      then exits 1 os
      else if not plat.opens_socket
      then exits 1 os
      else outcome_of (run k (config_of o) rs (first_world ifindex os))

  unfoldable pub main : Platform K → List Opt → List (List ℕ) → List (Round K) → K → Outcome K
  main plat opts operands rs os = elim (parse_args opts operands) [
    | none ↦ exits 1 os
    | some (ifname, o) ↦ start plat ifname o rs os
  ]
