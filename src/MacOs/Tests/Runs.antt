-- ===== src/MacOs/Tests/Runs.antt =====
-- The theorems on the daemon's operations, its map and its loop, at the small systems of `Systems`.
use v4_with_v6_nh.Common.{
  ◌≡◌, ◌≢◌, refl, Bool, true, false, none, some, List, [], ◌∷◌, ◌++◌, here, there, arith, ap, ℕ,
  Any, ◌<◌, ◌*◌, ◌+◌, ◌==◌,
}
use v4_with_v6_nh.Mac.{Mac}
use v4_with_v6_nh.Mac.RoundTrip.{IsMac}
use v4_with_v6_nh.Common.Text.{memcmp_eq, strcmp_eq}
use v4_with_v6_nh.Mac.{copy_mac, mac_str}
use v4_with_v6_nh.Inet6.{is_unspecified, strip_embedded_scope}
use v4_with_v6_nh.Rtsock.{fetch, walk}
use v4_with_v6_nh.MacOs.Discovery.{
  find_default_router, scan, pick_router, get_rti_info, router_lladdr, pick_lladdr, pick_sentinel,
  sentinel_in_fib, iface_lladdr,
}
use v4_with_v6_nh.MacOs.Command.{command_succeeds}
use v4_with_v6_nh.MacOs.Cache.{tmp_path, router_cache_lookup, router_cache_put}
use v4_with_v6_nh.MacOs.Cache.RoundTrip.{router_cache_lookup-put, router_cache_round_trip}
use v4_with_v6_nh.MacOs.Daemon.{
  Config, World, Report, would_install, recall, sentinel_in_file, resolve, reconcile,
  dry_run_report,
}
use v4_with_v6_nh.MacOs.Daemon.Laws.{IsPinning, target, own_mac}
use v4_with_v6_nh.MacOs.Daemon.Pins.{IsPinned, reconcile-IsPinned}
use v4_with_v6_nh.MacOs.Run.{Process, Round, arrive, serve, loop}
use v4_with_v6_nh.MacOs.Run.Tracks.{loop-IsPinned}
use v4_with_v6_nh.MacOs.Tests.Systems.{
  Machine, small_files, small_files-IsFiles, router, router_mac, host_mac, a_dump, nd6_dump,
  rt4_dump, rt6_dump, sentinel, no_dump, small_system, early_system, config_with, with_r,
  machine_entry, system-IsPinning,
}

abbrev pinning : IsPinning small_system with_r machine_entry
pinning = system-IsPinning (a_dump nd6_dump) false

abbrev empty_machine : Machine
empty_machine = record { arp_entry = none; disk = λ p. none }

-- The router of this network is stored.
abbrev known_machine : Machine
known_machine = router_cache_put small_files host_mac router_mac empty_machine

abbrev with_f : Config
with_f = config_with true

-- The daemon counts `mac` as installed; the entry may be gone.
abbrev world_of : Bool → Mac → Machine → World Machine
world_of installed mac m = record {
  daemon = record { ifindex = 4; arp_installed = installed; installed_mac = mac };
  os = m;
}

host_mac-IsMac : IsMac host_mac
host_mac-IsMac = omega arith

router_mac-IsMac : IsMac router_mac
router_mac-IsMac = omega arith

resolve_small : (m : Machine) → resolve small_system with_r 4 m ≡ some router_mac
unfolding resolve find_default_router fetch scan walk pick_router get_rti_info is_unspecified
    memcmp_eq router_lladdr pick_lladdr strip_embedded_scope copy_mac
resolve_small m = refl

resolve_early : (m : Machine) → resolve early_system with_r 4 m ≡ none
unfolding resolve find_default_router fetch scan walk pick_router get_rti_info is_unspecified
    memcmp_eq router_lladdr
resolve_early m = refl

sentinel_small : sentinel_in_fib 92 sentinel (a_dump rt4_dump) ≡ true
unfolding sentinel_in_fib fetch scan walk pick_sentinel get_rti_info
sentinel_small = refl

router_small : find_default_router 92 4 (a_dump rt6_dump) ≡ some router
unfolding find_default_router fetch scan walk pick_router get_rti_info is_unspecified memcmp_eq
    strip_embedded_scope
router_small = refl

lladdr_small : router_lladdr 92 4 router (a_dump nd6_dump) ≡ some router_mac
unfolding fetch scan walk get_rti_info memcmp_eq router_lladdr pick_lladdr strip_embedded_scope
    copy_mac
lladdr_small = refl

lladdr_early : router_lladdr 92 4 router no_dump ≡ none
unfolding fetch router_lladdr
lladdr_early = refl

own_small : own_mac small_system with_r empty_machine ≡ some host_mac
unfolding iface_lladdr strcmp_eq copy_mac
own_small = refl

own_early : own_mac early_system with_r known_machine ≡ some host_mac
unfolding iface_lladdr strcmp_eq copy_mac
own_early = refl

other_network : router_mac ≢ host_mac
other_network e = let b = ap (λ (m : Mac). m.b3) e in omega arith

target_small : (m : Machine) → target small_system with_r m ≡ some router_mac
unfolding target
target_small m = rw (sentinel_small, resolve_small m) refl

target-with_f : (m : Machine) → target small_system with_f m ≡ none
unfolding target sentinel_in_file
target-with_f m = refl

recall_known :
    recall early_system with_r (own_mac early_system with_r known_machine) known_machine
    ≡ some router_mac
recall_known = rw own_early (
    router_cache_lookup-put small_files small_files-IsFiles host_mac router_mac empty_machine
      router_mac-IsMac (λ e. cc))

-- The entry that the daemon counts as installed has been flushed.
reconcile-IsPinned_example :
    IsPinned small_system with_r machine_entry pinning router_mac
      (reconcile small_system with_r (world_of true router_mac empty_machine))
unfolding strcmp_eq command_succeeds
reconcile-IsPinned_example =
    reconcile-IsPinned small_system with_r machine_entry pinning
      (world_of true router_mac empty_machine) router_mac (target_small empty_machine) refl

-- `-r` with the sentinel route there.
abbrev small_report : Report
small_report = record {
  in_fib = some true;
  in_file = none;
  found = would_install router router_mac;
}

small_reported : dry_run_report small_system with_r empty_machine ≡ some small_report
unfolding dry_run_report
small_reported = rw (sentinel_small, router_small, lladdr_small) refl

-- Something has flushed the entry in a first round; the next one puts it back.
abbrev flushing : Round Machine
flushing = record { change = λ m. record m { arp_entry = none }; signalled = false }

abbrev first_process : Process Machine
first_process = record { world = world_of false host_mac empty_machine; running = true }

one_round_on : (loop small_system with_r (flushing ∷ []) first_process).running ≡ true
unfolding loop serve v4_with_v6_nh.Common.Loop.while_running
one_round_on = refl

loop-IsPinned_example :
    IsPinned small_system with_r machine_entry pinning router_mac
      (loop small_system with_r (flushing ∷ flushing ∷ []) first_process).world
unfolding strcmp_eq command_succeeds
loop-IsPinned_example =
    loop-IsPinned small_system with_r machine_entry pinning (flushing ∷ []) flushing first_process
      router_mac one_round_on
      (target_small
        (arrive small_system with_r flushing
          (loop small_system with_r (flushing ∷ []) first_process)).world.os)
      refl

router_cache_round_trip_example :
    (small_files.write empty_machine (tmp_path host_mac) (mac_str router_mac ++ 10 ∷ []) ≢ none
      → router_cache_lookup small_files host_mac known_machine ≡ some router_mac)
    × (router_cache_lookup small_files router_mac known_machine
        ≡ router_cache_lookup small_files router_mac empty_machine)
router_cache_round_trip_example =
    router_cache_round_trip small_files small_files-IsFiles host_mac router_mac router_mac
      empty_machine host_mac-IsMac router_mac-IsMac router_mac-IsMac other_network
