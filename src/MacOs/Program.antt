-- ===== src/MacOs/Program.antt =====
-- `main` of host/macos/v4gwd-arp.c as a whole: the gateway of the environment, the command line, the dry
-- run, the socket, and the loop to its end.
pub mod Exits
use v4_with_v6_nh.Common.Outcome.{Outcome, exits, exits_after}
use v4_with_v6_nh.Common.{ℕ, Bool, true, false, not, Option, none, some, List, if◌then◌else◌}
use v4_with_v6_nh.Mac.{Mac}
use v4_with_v6_nh.MacOs.Daemon.{System, Config, World, Report, dry_run_report}
use v4_with_v6_nh.MacOs.Run.{gateway_of, Opt, Options, has_file, parse_args, Process, Round, run}

-- The system, for an interface name and the path of a state file; the value of V4GW_GATEWAY;
-- `inet_aton`; and whether `socket` gives a routing socket.
pub record Platform (K : Type 0) : Type 0 where
  pub system : List ℕ → Option (List ℕ) → System K
  pub gateway_value : Option (List ℕ)
  pub inet_aton : List ℕ → Option ℕ
  pub opens_socket : Bool

abbrev pub config_of : List ℕ → List ℕ × ℕ → Options → Config
config_of ifname (text, addr) o = record {
  ifname = ifname;
  sentinel_str = text;
  sentinel_addr = addr;
  require_sentinel_route = o.require_sentinel_route;
  use_sentinel_file = has_file o;
}

-- The exit status of a dry run.
abbrev pub dry_status : Option Report → ℕ
dry_status none = 1
dry_status (some report) = 0

module _ {K : Type 0} where
  -- The static variables at the first `reconcile`.
  abbrev pub first_world : ℕ → K → World K
  first_world ifindex os = record {
    daemon = record {
      ifindex = ifindex;
      arp_installed = false;
      installed_mac = record { b0 = 0; b1 = 0; b2 = 0; b3 = 0; b4 = 0; b5 = 0 };
    };
    os = os;
  }

  abbrev pub outcome_of : Process K → Outcome K
  outcome_of p = exits_after p.running p.world.os

  -- `main` after the command line; an interface that is not there yet is waited for.
  unfoldable pub start : Platform K → List ℕ × ℕ → List ℕ → Options → List (Round K) → K → Outcome K
  start plat gateway ifname o rs os =
      let sys = plat.system ifname o.sentinel_file in
      let c = config_of ifname gateway o in
      if o.dry_run
      then exits (dry_status (dry_run_report sys c os)) os
      else if not plat.opens_socket
      then exits 1 os
      else outcome_of (run sys c rs (first_world (sys.if_nametoindex os) os))

  unfoldable pub main : Platform K → List Opt → List (List ℕ) → List (Round K) → K → Outcome K
  main plat opts operands rs os = elim (gateway_of plat.inet_aton plat.gateway_value) [
    | none ↦ exits 2 os
    | some gateway ↦ elim (parse_args opts operands) [
      | none ↦ exits 1 os
      | some (ifname, o) ↦ start plat gateway ifname o rs os
    ]
  ]
