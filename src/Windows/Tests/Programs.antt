-- ===== src/Windows/Tests/Programs.antt =====
-- The theorems on the service, the command line and `main` (host/windows/v4gwd.c) at the small system.
use v4_with_v6_nh.Common.{
  ℕ, ◌≡◌, ◌≢◌, ◌⊎◌, inl, refl, true, false, none, some, List, [], ◌∷◌, Any, here, there,
}
use v4_with_v6_nh.Common.Int.{pos, ◌≤ℤ◌}
use v4_with_v6_nh.Common.Text.{codes, strcmp_eq}
use v4_with_v6_nh.Common.Text.Numbers.{atoi}
use v4_with_v6_nh.Windows.Daemon.{World}
use v4_with_v6_nh.Windows.Args.{Options, has_dash, read_arg, read_interval, read_args, parse_args}
use v4_with_v6_nh.Windows.Args.Flags.{given}
use v4_with_v6_nh.Windows.Args.Accepted.{parse_args-given}
use v4_with_v6_nh.Windows.Run.{by_stop}
use v4_with_v6_nh.Windows.Service.{
  ServiceStatus, last_of, report, no_reports, start_pending, running, idle, working, Service,
  registers, reports_start, reports_running, Reach, start, later,
}
use v4_with_v6_nh.Windows.Service.Order.{IsInOrder, Reach-IsInOrder}
use v4_with_v6_nh.Windows.Program.{Platform, service_ran, other_error, first_state, main}
use v4_with_v6_nh.Windows.Program.Exits.{main_finishes, main_leaves_no_entry}
use v4_with_v6_nh.Windows.Tests.{
  found_luid_first, entry_of, small_system-IsPinning, Machine, small_system, plain, machine_with,
  last_rounds,
}

abbrev first_world : World Machine
first_world = record { daemon = first_state; os = machine_with none }

-- The service that has told the SCM that it runs.
abbrev running_service : Service Machine
running_service = record {
  main = working;
  handler = idle;
  reports = report running 0 (report start_pending 3000 no_reports);
  stop_event = false;
  world = first_world;
}

-- The SCM sends a stop only to a service that runs.
abbrev SendsToRunning : List ServiceStatus → Type 0
SendsToRunning sent = last_of sent ≡ some running

running-Reach : Reach small_system plain SendsToRunning first_world running_service
running-Reach =
    later (later (later start (registers refl)) (reports_start refl)) (reports_running refl)

Reach-IsInOrder_example :
    IsInOrder working (report running 0 (report start_pending 3000 no_reports)) false
Reach-IsInOrder_example =
    Reach-IsInOrder small_system plain SendsToRunning (λ sent h. h) running-Reach

-- v4gwd -r -i 60 -c Ethernet
abbrev some_args : List (List ℕ)
some_args = codes "-r" ∷ codes "-i" ∷ codes "60" ∷ codes "-c" ∷ codes "Ethernet" ∷ []

abbrev some_options : Options
some_options = record {
  dry_run = false;
  console = true;
  require_sentinel_route = true;
  interval = pos 60;
  ifarg = some (codes "Ethernet");
}

some_parsed : parse_args some_args ≡ some (codes "Ethernet", some_options)
unfolding parse_args read_args read_arg read_interval strcmp_eq atoi
some_parsed = refl

parse_args-given_example :
    (false ≡ given (codes "-n") some_args)
    × (true ≡ given (codes "-c") some_args)
    × (true ≡ given (codes "-r") some_args)
    × (pos 1 ≤ℤ pos 60)
    × (has_dash (codes "Ethernet") ≡ false)
    × (given (codes "Ethernet") some_args ≡ true)
parse_args-given_example = parse_args-given some_args some_parsed

abbrev small_platform : Platform Machine
small_platform = record {
  system = λ ifarg. small_system;
  index_arg = λ ifarg. none;
  creates_events = true;
  create_logdir = λ m. m;
  dispatched = service_ran true;
}

main_finishes_example :
    let out = main small_platform some_args last_rounds (machine_with none) in
    (out.status ≡ some 1
      → (out.os ≡ machine_with none)
        ⊎ ((service_ran true ≡ other_error) × (out.os ≡ machine_with none)))
    × (given (codes "-n") some_args ≡ true → (out.status ≢ none) × (out.os ≡ machine_with none))
    × ((ifarg : List ℕ) (o : Options)
        → parse_args some_args ≡ some (ifarg, o)
        → o.dry_run ≡ false
        → true ≡ true
        → small_platform.dispatched ≢ other_error
        → Any (λ r. r.woken ≡ by_stop) last_rounds
        → out.status ≡ some 0)
main_finishes_example = main_finishes small_platform some_args last_rounds (machine_with none)

-- The host has no permanent entry, and `-r` is not in force.
abbrev plain_args : List (List ℕ)
plain_args = codes "-c" ∷ codes "Ethernet" ∷ []

abbrev plain_options : Options
plain_options = record {
  dry_run = false;
  console = true;
  require_sentinel_route = false;
  interval = pos 15;
  ifarg = some (codes "Ethernet");
}

plain_parsed : parse_args plain_args ≡ some (codes "Ethernet", plain_options)
unfolding parse_args read_args read_arg strcmp_eq
plain_parsed = refl

main_leaves_no_entry_example :
    let out = main small_platform plain_args last_rounds (machine_with none) in
    (out.status ≡ some 0) × (entry_of 7 out.os ≡ none)
main_leaves_no_entry_example =
    main_leaves_no_entry small_platform plain_args last_rounds (machine_with none)
      (codes "Ethernet") plain_options 7 entry_of (small_system-IsPinning plain) (λ m. refl)
      (λ m. refl) plain_parsed refl refl (λ e. cc) (λ e. cc) (λ m. (refl, refl))
      (λ m. inl refl, (λ m. inl refl, tt)) (there (here refl)) (found_luid_first none) refl
