-- ===== src/Windows/Program.antt =====
-- `main` of host/windows/v4gwd.c as a whole: the command line, the dry run, the events, and the worker in
-- the foreground or as a service.
pub mod Exits
use v4_with_v6_nh.Common.Outcome.{Outcome, exits, exits_after}
use v4_with_v6_nh.Common.{ℕ, Bool, true, false, not, Option, none, some, List, if◌then◌else◌}
use v4_with_v6_nh.Windows.Daemon.{System, Config, State, World, Report, dry_run_report}
use v4_with_v6_nh.Windows.Args.{Options, parse_args}
use v4_with_v6_nh.Windows.Run.{Process, Round, run_worker}

-- How `StartServiceCtrlDispatcherW` ends: the service has run, with its handler registered or not; the
-- program was not started by the SCM; or another error.
pub data Dispatched : Type 0 where
  service_ran : Bool → Dispatched
  not_a_service other_error : Dispatched

-- The system, and what `wcstoul` makes of the name, for the interface argument; whether both events are
-- created; `CreateDirectoryA(LOGDIR)`, whose result is not looked at.
pub record Platform (K : Type 0) : Type 0 where
  pub system : List ℕ → System K
  pub index_arg : List ℕ → Option ℕ
  pub creates_events : Bool
  pub create_logdir : K → K
  pub dispatched : Dispatched

-- The static variables at the start.
abbrev pub first_state : State
first_state = record {
  luid = 0;
  luid_valid = false;
  installed = false;
  installed_mac = record { b0 = 0; b1 = 0; b2 = 0; b3 = 0; b4 = 0; b5 = 0 };
}

-- The exit status of a dry run.
abbrev pub dry_status : Option Report → ℕ
dry_status none = 1
dry_status (some report) = 0

module _ {K : Type 0} where
  abbrev pub outcome_of : Process K → Outcome K
  outcome_of p = exits_after p.running p.world.os

  abbrev pub config_of : Platform K → List ℕ → Options → Config
  config_of plat ifarg o = record {
    index_arg = plat.index_arg ifarg;
    require_sentinel_route = o.require_sentinel_route;
  }

  abbrev pub work : Platform K → List ℕ → Options → List (Round K) → K → Outcome K
  work plat ifarg o rs os = outcome_of (
      run_worker (plat.system ifarg) (config_of plat ifarg o) rs
        (record { daemon = first_state; os = os }))

  -- Without `-c`. `service_main` returns at once where the handler cannot be registered.
  unfoldable pub dispatch :
      Platform K → Dispatched → List ℕ → Options → List (Round K) → K → Outcome K
  dispatch plat (service_ran true) ifarg o rs os = work plat ifarg o rs os
  dispatch plat (service_ran false) ifarg o rs os = exits 0 os
  dispatch plat not_a_service ifarg o rs os = work plat ifarg o rs os
  dispatch plat other_error ifarg o rs os = exits 1 os

  -- `main` after the command line.
  unfoldable pub start : Platform K → List ℕ → Options → List (Round K) → K → Outcome K
  unfolding dispatch
  start plat ifarg o rs os =
      if o.dry_run
      then exits
          (dry_status (dry_run_report (plat.system ifarg) (config_of plat ifarg o) first_state os))
          os
      else if not plat.creates_events
      then exits 1 os
      else if o.console
      then work plat ifarg o rs os
      else dispatch plat plat.dispatched ifarg o rs (plat.create_logdir os)

  unfoldable pub main : Platform K → List (List ℕ) → List (Round K) → K → Outcome K
  main plat args rs os = elim (parse_args args) [
    | none ↦ exits 1 os
    | some (ifarg, o) ↦ start plat ifarg o rs os
  ]
