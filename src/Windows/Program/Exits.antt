-- ===== src/Windows/Program/Exits.antt =====
-- How `main` of host/windows/v4gwd.c ends.
use v4_with_v6_nh.Mac.{Mac}
use v4_with_v6_nh.Windows.Tables.{fill_sentinel_row}
use v4_with_v6_nh.Windows.Daemon.{find_luid}
use v4_with_v6_nh.Windows.Daemon.Laws.{IsPinning}
use v4_with_v6_nh.Windows.Run.Clear.{IsGentle, run_worker-IsClear}
use v4_with_v6_nh.Common.{
  All, Option, ℕ, ◌≡◌, ◌≢◌, ◌∙◌, true, false, none, some, List, arith, Any, Option-cases, inl, inr,
  ◌⊎◌, refl, Bool-cases, if◌then◌else◌,
}
use v4_with_v6_nh.Common.Text.{codes}
use v4_with_v6_nh.Windows.Args.{Options, parse_args}
use v4_with_v6_nh.Windows.Args.Flags.{given}
use v4_with_v6_nh.Windows.Args.Accepted.{parse_args-given}
use v4_with_v6_nh.Windows.Run.{by_stop, Round, run_worker}
use v4_with_v6_nh.Windows.Run.Life.{run_worker-ends}
use v4_with_v6_nh.Windows.Program.{
  Platform, other_error, config_of, first_state, work, start, main, dispatch, service_ran,
}

module _ {K : Type 0} (plat : Platform K) where
  main-parse_args :
      (args : List (List ℕ)) {ifarg : List ℕ} {o : Options} (rs : List (Round K)) (os : K)
      → parse_args args ≡ some (ifarg, o)
      → main plat args rs os ≡ start plat ifarg o rs os
  unfolding main
  main-parse_args args rs os parsed = ground (arith, parsed)

  start-lem :
      (ifarg : List ℕ) (o : Options) (rs : List (Round K)) (os : K)
      → let out = start plat ifarg o rs os in
        (out.status ≡ some 1
          → (out.os ≡ os) ⊎ ((plat.dispatched ≡ other_error) × (out.os ≡ plat.create_logdir os)))
        × (o.dry_run ≡ true → (out.status ≢ none) × (out.os ≡ os))
        × (o.dry_run ≡ false
            → plat.creates_events ≡ true
            → plat.dispatched ≢ other_error
            → Any (λ r. r.woken ≡ by_stop) rs
            → out.status ≡ some 0)
  unfolding start
  start-lem ifarg o rs os = (
    λ e. ground (arith, e),
    λ dry. ground (arith, dry),
    λ wet created served stops.
        ground
          (arith, wet, created, served, stopped os stops, stopped (plat.create_logdir os) stops),
  )
    where
      stopped :
          (os : K)
          → Any (λ r. r.woken ≡ by_stop) rs
          → (run_worker
              (plat.system ifarg)
              (config_of plat ifarg o)
              rs
              (record { daemon = first_state; os = os })).running
            ≡ false
      stopped os stops =
          run_worker-ends (plat.system ifarg) (config_of plat ifarg o) rs
            (record { daemon = first_state; os = os }) stops

  start-work :
      (ifarg : List ℕ) (o : Options) (rs : List (Round K)) (os : K)
      → o.dry_run ≡ false
      → plat.creates_events ≡ true
      → plat.dispatched ≢ other_error
      → plat.dispatched ≢ service_ran false
      → start plat ifarg o rs os
        ≡ work plat ifarg o rs (if o.console then os else plat.create_logdir os)
  unfolding start dispatch
  start-work ifarg o rs os wet created served registered =
      ground (arith, wet, created, served, registered)

  -- `main` exits with 1 only with the system untouched, or where the dispatcher has failed and nothing but
  -- the directory of the log was created; with `-n` among its arguments it ends and leaves
  -- the system untouched; and an accepted command line without `-n`, where the events are created and
  -- the dispatcher does not fail, ends with 0 once the stop event is signalled.
  pub main_finishes :
      (args : List (List ℕ)) (rs : List (Round K)) (os : K)
      → let out = main plat args rs os in
        (out.status ≡ some 1
          → (out.os ≡ os) ⊎ ((plat.dispatched ≡ other_error) × (out.os ≡ plat.create_logdir os)))
        × (given (codes "-n") args ≡ true → (out.status ≢ none) × (out.os ≡ os))
        × ((ifarg : List ℕ) (o : Options)
            → parse_args args ≡ some (ifarg, o)
            → o.dry_run ≡ false
            → plat.creates_events ≡ true
            → plat.dispatched ≢ other_error
            → Any (λ r. r.woken ≡ by_stop) rs
            → out.status ≡ some 0)
  unfolding main
  main_finishes args rs os = (
    λ e. elim (Option-cases (parse_args args)) [
      | inl refused ↦ ground (arith, refused)
      | inr ((ifarg, o), parsed) ↦
          let step = main-parse_args args rs os parsed in
          ground (arith, e, step, (start-lem ifarg o rs os).0)
    ],
    λ dry. elim (Option-cases (parse_args args)) [
      | inl refused ↦ ground (arith, refused)
      | inr ((ifarg, o), parsed) ↦
          let set = (parse_args-given args parsed).0 ∙ dry in
          rw (main-parse_args args rs os parsed) ((start-lem ifarg o rs os).1 set)
    ],
    λ ifarg o parsed wet created served stops.
        rw (main-parse_args args rs os parsed)
          ((start-lem ifarg o rs os).2 wet created served stops),
  )

  -- The program as a whole leaves no entry behind: where there is no permanent entry
  -- for the gateway at the start, the interface stays with its LUID, the delete succeeds, the rest of the
  -- system leaves the entry or removes it, the command line is accepted without `-n`, the events are
  -- created, the dispatcher does not fail, the handler is registered, the directory of the log is created
  -- without a change to the entry or to the interface, and the stop event is signalled, `main` exits with 0 and there is no such entry.
  pub main_leaves_no_entry :
      (args : List (List ℕ)) (rs : List (Round K)) (os : K) (ifarg : List ℕ) (o : Options)
      (luid : ℕ) (entry : ℕ → K → Option Mac)
      → let sys = plat.system ifarg in
        let c = config_of plat ifarg o in
        (laws : IsPinning sys c entry)
        → (up : (os : K) → sys.has_index os luid ≡ true)
        → (granted : (os : K) → (sys.delete_entry os (fill_sentinel_row luid none)).0 ≡ true)
        → parse_args args ≡ some (ifarg, o)
        → o.dry_run ≡ false
        → plat.creates_events ≡ true
        → plat.dispatched ≢ other_error
        → plat.dispatched ≢ service_ran false
        → (logdir : (s : K)
            → (entry luid (plat.create_logdir s) ≡ entry luid s)
              × (find_luid sys c first_state (plat.create_logdir s)
                  ≡ find_luid sys c first_state s))
        → All (IsGentle sys c entry laws luid up granted) rs
        → Any (λ r. r.woken ≡ by_stop) rs
        → find_luid sys c first_state os ≡ some luid
        → entry luid os ≡ none
        → let out = main plat args rs os in (out.status ≡ some 0) × (entry luid out.os ≡ none)
  main_leaves_no_entry args rs os ifarg o luid entry laws up granted parsed wet created served
        registered logdir gentle stops found bare =
      let sys = plat.system ifarg in
      let begun = if o.console then os else plat.create_logdir os in
      let (same_entry, same_luid) = begun_same os in
      let left =
        run_worker-IsClear sys (config_of plat ifarg o) entry laws luid up granted rs
          (record { daemon = first_state; os = begun }) gentle stops (same_luid ∙ found)
          (same_entry ∙ bare) in
      (
        (main_finishes args rs os).2 ifarg o parsed wet created served stops,
        rw
            (
              main-parse_args args rs os parsed,
              start-work ifarg o rs os wet created served registered,
            )
            left,
      )
    where
      begun_same :
          (s : K)
          → let begun = if o.console then s else plat.create_logdir s in
            (entry luid begun ≡ entry luid s)
            × (find_luid (plat.system ifarg) (config_of plat ifarg o) first_state begun
                ≡ find_luid (plat.system ifarg) (config_of plat ifarg o) first_state s)
      begun_same s = elim (Bool-cases o.console) [
        | inl here' ↦ rw here' (refl, refl)
        | inr service ↦ rw service (logdir s)
      ]
