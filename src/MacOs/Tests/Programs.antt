-- ===== src/MacOs/Tests/Programs.antt =====
-- The theorems on the commands and on `main`, at the small system of `Systems`.
use v4_with_v6_nh.Common.{◌≡◌, true, false, none, some, List, [], ◌∷◌, ℕ, ◌<◌, ◌*◌, ◌+◌, ◌==◌}
use v4_with_v6_nh.Common.Text.{codes}
use v4_with_v6_nh.MacOs.Command.{Waited, reaped, failed, command_succeeds}
use v4_with_v6_nh.MacOs.Command.Laws.{command_succeeds_lem}
use v4_with_v6_nh.Common.{inl, arith, refl, here}
use v4_with_v6_nh.Common.Int.{pos}
use v4_with_v6_nh.Common.Text.{strcmp_eq}
use v4_with_v6_nh.MacOs.Run.{opt_r, gateway_of, parse_args, Options, Round}
use v4_with_v6_nh.MacOs.Program.{Platform, main}
use v4_with_v6_nh.MacOs.Program.Exits.{IsAccepted, main_leaves_unpinned}
use v4_with_v6_nh.MacOs.Tests.Systems.{
  machine_entry, system-IsPinning, a_dump, nd6_dump, Machine, sentinel, small_system,
}

abbrev empty_machine : Machine
empty_machine = record { arp_entry = none; disk = λ p. none }

abbrev last_rounds : List (Round Machine)
last_rounds = record { change = λ m. m; signalled = true } ∷ []

command_succeeds_lem_example :
    let ran = λ (w : Waited).
      command_succeeds (record { forked = true; uninitialized = 7; interrupts = 2; waited = w }) in
    ((code : ℕ) → code < 256 → ran (reaped (code * 256)) ≡ (code == 0))
    × ((sig core : ℕ) → 0 < sig → sig < 128 → ran (reaped (core * 128 + sig)) ≡ false)
    × ((w : Waited)
        → command_succeeds
            (record { forked = false; uninitialized = 7; interrupts = 2; waited = w })
          ≡ false)
    × (ran failed
        ≡ command_succeeds
            (record { forked = true; uninitialized = 0; interrupts = 0; waited = reaped 7 }))
command_succeeds_lem_example = command_succeeds_lem 2 7

-- v4gwd-arp en0, where V4GW_GATEWAY is not set.
abbrev small_platform : Platform Machine
small_platform = record {
  system = λ ifname file. small_system;
  gateway_value = none;
  inet_aton = λ text. some sentinel;
  opens_socket = true;
}

abbrev with_r : Options
with_r = record {
  dry_run = false;
  require_sentinel_route = true;
  sentinel_file = none;
  interval = pos 15;
}

small-IsAccepted :
    IsAccepted small_platform
      (opt_r ∷ [])
      (codes "en0" ∷ [])
      (codes "192.0.0.11", sentinel)
      (codes "en0")
      with_r
unfolding gateway_of parse_args
small-IsAccepted = record { chosen = refl; parsed = refl }

main_leaves_unpinned_example :
    let out = main small_platform (opt_r ∷ []) (codes "en0" ∷ []) last_rounds empty_machine in
    (out.status ≡ some 0) × (machine_entry out.os ≡ none)
unfolding strcmp_eq command_succeeds
main_leaves_unpinned_example =
    main_leaves_unpinned small_platform (opt_r ∷ []) (codes "en0" ∷ []) last_rounds empty_machine
      (codes "192.0.0.11", sentinel) (codes "en0") with_r machine_entry
      (system-IsPinning (a_dump nd6_dump) false) (λ os e. omega arith) (λ os. refl) small-IsAccepted
      refl refl (λ os. inl refl, tt) (here refl) refl
