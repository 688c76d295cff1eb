-- ===== src/Windows/Tests/Wakes.antt =====
-- The theorem on the events of the worker (host/windows/v4gwd.c) at the small system.
use v4_with_v6_nh.Common.{◌≡◌, ◌≢◌, refl, false, none, some, []}
use v4_with_v6_nh.Windows.Daemon.{World, reconcile}
use v4_with_v6_nh.Windows.Program.{first_state}
use v4_with_v6_nh.Windows.Events.{
  of_route, waiting, done, Events, call_back, changed, changes, drifts, calls_back, begins, acts,
  reconciles, wakes, sleeps, Reach, start, later,
}
use v4_with_v6_nh.Windows.Events.Quiet.{IsFollowing, Reach-IsFollowing}
use v4_with_v6_nh.Windows.Tests.{router_mac, Machine, small_system, plain, machine_with}

abbrev first_world : World Machine
first_world = record { daemon = first_state; os = machine_with none }

-- Another program removes the entry, or puts it back.
abbrev flush_entry : Machine → Machine
flush_entry m = record m { entry = none }

abbrev put_entry : Machine → Machine
put_entry m = record m { entry = some router_mac }

abbrev MovesEntry : (Machine → Machine) → Type 0
MovesEntry f = (m : Machine) → (f m).registry ≡ m.registry

-- A route has changed together with the entry while the first `reconcile` ran; the worker has followed, and
-- the entry has changed again.
abbrev followed : World Machine
followed =
    changed put_entry (
      reconcile small_system plain (changed flush_entry (reconcile small_system plain first_world)))

abbrev quiet : Events Machine
quiet = record {
  place = waiting;
  due = [];
  stop_event = false;
  wake_event = false;
  unseen = false;
  world = followed;
}

waiting_ne_done : waiting ≢ done
waiting_ne_done e = cc

quiet-Reach : Reach small_system plain MovesEntry first_world quiet
unfolding call_back
quiet-Reach =
    let up = later (later start (begins refl)) (acts refl) in
    let told = later (later up (changes of_route flush_entry)) (reconciles refl) in
    let called = later told (calls_back of_route [] [] refl waiting_ne_done) in
    let awake = later (later called (wakes refl refl refl)) (sleeps refl) in
    let again = later (later (later awake (begins refl)) (acts refl)) (reconciles refl) in
    later again (drifts put_entry (λ m. refl))

Reach-IsFollowing_example :
    (quiet.unseen ≡ false) × IsFollowing small_system plain MovesEntry followed
Reach-IsFollowing_example =
    Reach-IsFollowing small_system plain MovesEntry quiet-Reach refl refl refl
