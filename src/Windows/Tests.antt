-- ===== src/Windows/Tests.antt =====
-- A small Windows system with one interface, whose state is the neighbour entry of the gateway and the
-- registry key, and the theorems on host/windows/v4gwd.c at it.
mod Programs
mod Rows
mod Wakes
use v4_with_v6_nh.Common.{
  ℕ, ◌≡◌, ◌≢◌, ◌≤◌, refl, Bool, true, false, Option, none, some, List, [], ◌∷◌, ltb, if◌then◌else◌,
  length, Any, here, there, ◌*◌, All, ◌↔◌, arith, ap,
}
use v4_with_v6_nh.Common.Int.{pos}
use v4_with_v6_nh.Common.Text.{strcmp_eq, memcmp_eq}
use v4_with_v6_nh.Common.Text.Laws.{strcmp_eq_refl, strcmp_eq-ne}
use v4_with_v6_nh.Mac.{mac_str_reg, Mac, bytes, copy_mac, mac_eq}
use v4_with_v6_nh.Mac.RoundTrip.{IsMac, mac_eq→}
use v4_with_v6_nh.Inet6.{Addr}
use v4_with_v6_nh.Rtsock.{inet6}
use v4_with_v6_nh.Windows.Tables.{
  ForwardRow, NeighborRow, find_default_router, router_lladdr, pick_lladdr, pick_neighbor, consider,
  scan_routes, sentinel_in_fib, neighbor_present, fill_sentinel_row,
}
use v4_with_v6_nh.Windows.Tables.Lowest.{IsDefault, IsLowest, find_default_router-IsLowest}
use v4_with_v6_nh.Windows.Daemon.{
  System, Config, World, no_error, find_luid, program_entry, resolve, reconcile,
  router_cache_lookup, router_cache_put,
}
use v4_with_v6_nh.Windows.Daemon.Laws.{IsPinning, IsRegistry, target}
use v4_with_v6_nh.Windows.Daemon.Pins.{HasPinned, reconcile-HasPinned, reconcile_clears}
use v4_with_v6_nh.Windows.Program.{first_state}
use v4_with_v6_nh.Windows.Run.{worker_timeout, by_stop, by_timeout, Round, loop, run_worker}
use v4_with_v6_nh.Windows.Run.Life.{worker_timeout_lem}
use v4_with_v6_nh.Windows.Daemon.Registry.{registry_round_trip}

pub record Machine : Type 0 where
  pub entry : Option Mac
  pub registry : List ℕ → Option (List ℕ)

-- fe80::a and fe80::b, with the lower metric at b.
abbrev router_a : Addr
router_a = 0xfe ∷ 0x80 ∷ 0 ∷ 0 ∷ 0 ∷ 0 ∷ 0 ∷ 0 ∷ 0 ∷ 0 ∷ 0 ∷ 0 ∷ 0 ∷ 0 ∷ 0 ∷ 10 ∷ []

abbrev pub router_b : Addr
router_b = 0xfe ∷ 0x80 ∷ 0 ∷ 0 ∷ 0 ∷ 0 ∷ 0 ∷ 0 ∷ 0 ∷ 0 ∷ 0 ∷ 0 ∷ 0 ∷ 0 ∷ 0 ∷ 11 ∷ []

abbrev pub router_mac : Mac
router_mac = record { b0 = 2; b1 = 0; b2 = 0; b3 = 0xab; b4 = 0xcd; b5 = 0xef }

abbrev host_mac : Mac
host_mac = record { b0 = 2; b1 = 0; b2 = 0; b3 = 0; b4 = 0; b5 = 1 }

abbrev default_via : Addr → ℕ → ForwardRow
default_via gw metric = record {
  luid = 7;
  prefix_length = 0;
  prefix_family = inet6;
  hop_family = inet6;
  hop_addr6 = gw;
  hop_addr4 = 0;
  metric = metric;
}

abbrev pub two_defaults : List ForwardRow
two_defaults = default_via router_a 256 ∷ default_via router_b 16 ∷ []

abbrev pub router_row : NeighborRow
router_row = record {
  luid = 7;
  family = inet6;
  addr6 = router_b;
  addr4 = 0;
  physical_length = 6;
  physical = bytes router_mac;
  is_permanent = false;
}

abbrev rows_of : Option Mac → List NeighborRow
rows_of none = []
rows_of (some mac) = fill_sentinel_row 7 (some mac) ∷ []

-- The address of a row that is written; a text that has room.
abbrev address_of : NeighborRow → Mac
address_of row = copy_mac row.physical

abbrev fitting : ℕ → Option (List ℕ) → Option (List ℕ)
fitting size none = none
fitting size (some v) = if ltb (length v) size then some v else none

abbrev pub small_system : System Machine
small_system = record {
  alias_to_luid = λ m. some 7;
  index_to_luid = λ m i. none;
  has_index = λ m luid. true;
  if_entry = λ m luid. some (6, bytes host_mac);
  forward6 = λ m. some two_defaults;
  forward4 = λ m. none;
  net6 = λ m. some (router_row ∷ []);
  net4 = λ m. some (rows_of m.entry);
  delete_entry = λ m row. (true, record m { entry = none });
  create_entry = λ m row. (no_error, record m { entry = some (address_of row) });
  set_entry = λ m row. (no_error, record m { entry = some (address_of row) });
  reg_get = λ m n size. fitting size (m.registry n);
  reg_set =
      λ m n v. (true, record m { registry = λ x. if strcmp_eq x n then some v else m.registry x });
}

abbrev pub plain : Config
plain = record { index_arg = none; require_sentinel_route = false }

abbrev with_r : Config
with_r = record { index_arg = none; require_sentinel_route = true }

-- The interface of the small system is the only one.
abbrev pub entry_of : ℕ → Machine → Option Mac
entry_of luid m = m.entry

shows_entry :
    (luid : ℕ) (e : Option Mac) (mac : Mac)
    → neighbor_present luid mac (some (rows_of e)) ≡ true
    → e ≡ some mac
unfolding neighbor_present pick_neighbor fill_sentinel_row copy_mac mac_eq
shows_entry luid none mac h = cc
shows_entry luid (some m) mac h = ap some (mac_eq→ m mac same)
  where
    same : mac_eq m mac ≡ true
    same = ground (arith, h)

pub small_system-IsPinning : (c : Config) → IsPinning small_system c entry_of
unfolding fill_sentinel_row copy_mac
small_system-IsPinning c = record {
  shows = λ luid m mac h. shows_entry luid m.entry mac h;
  creates = λ luid m mac h. refl;
  sets = λ luid m mac h. refl;
  deletes = λ luid m h. refl;
  create_fails = λ luid m mac h. absurd (h refl);
  set_fails = λ luid m mac h. absurd (h refl);
  delete_keeps = λ luid m o h. refl;
  registry_keeps = λ luid m n v. refl;
}

small_system-IsRegistry : IsRegistry small_system plain
small_system-IsRegistry = record {
  set_get = λ m n v size h k. ground (arith, strcmp_eq_refl n);
  set_keeps = λ m a b v size ne. ground (arith, strcmp_eq-ne (mac_str_reg b) (mac_str_reg a) ne);
}

abbrev pub machine_with : Option Mac → Machine
machine_with e = record { entry = e; registry = λ n. none }

abbrev world_with : Bool → Option Mac → World Machine
world_with on e = record {
  daemon = record { luid = 7; luid_valid = on; installed = on; installed_mac = router_mac };
  os = machine_with e;
}

found_luid :
    (on : Bool) (e : Option Mac)
    → find_luid small_system plain (world_with on e).daemon (machine_with e) ≡ some 7
unfolding find_luid
found_luid true e = refl
found_luid false e = refl

pub found_luid_first :
    (e : Option Mac) → find_luid small_system plain first_state (machine_with e) ≡ some 7
unfolding find_luid
found_luid_first e = refl

found_luid_r :
    (e : Option Mac)
    → find_luid small_system with_r (world_with true e).daemon (machine_with e) ≡ some 7
unfolding find_luid
found_luid_r e = refl

target-plain : (e : Option Mac) → target small_system plain 7 (machine_with e) ≡ some router_mac
unfolding target resolve find_default_router scan_routes consider router_lladdr pick_lladdr
    memcmp_eq copy_mac
target-plain e = refl

find_default_router-IsLowest_example :
    ((gw : Addr)
      → find_default_router 7 (some two_defaults) ≡ some gw
      → Any (IsLowest 7 two_defaults gw) two_defaults)
    × ((find_default_router 7 (some two_defaults) ≡ none)
        ↔ All (λ r. IsDefault 7 r → ⊥) two_defaults)
find_default_router-IsLowest_example = find_default_router-IsLowest 7 two_defaults

-- The entry has been replaced by the host's own ARP.
reconcile-HasPinned_example :
    HasPinned small_system plain entry_of
      (small_system-IsPinning plain)
      7
      router_mac
      (reconcile small_system plain (world_with true none))
unfolding program_entry
reconcile-HasPinned_example =
    reconcile-HasPinned small_system plain entry_of (small_system-IsPinning plain)
      (world_with true none) 7 router_mac (found_luid true none) refl (target-plain none) refl

host_mac-IsMac : IsMac host_mac
host_mac-IsMac = omega arith

router_mac-IsMac : IsMac router_mac
router_mac-IsMac = omega arith

other_network : router_mac ≢ host_mac
other_network e = let b = ap (λ (m : Mac). m.b3) e in omega arith

registry_round_trip_example :
    let m = router_cache_put small_system plain host_mac router_mac (machine_with none) in
    (router_cache_lookup small_system plain host_mac m ≡ some router_mac)
    × (router_cache_lookup small_system plain router_mac m
        ≡ router_cache_lookup small_system plain router_mac (machine_with none))
registry_round_trip_example =
    registry_round_trip small_system plain small_system-IsRegistry host_mac router_mac router_mac
      (machine_with none) host_mac-IsMac router_mac-IsMac router_mac-IsMac other_network refl

target-with_r : (e : Option Mac) → target small_system with_r 7 (machine_with e) ≡ none
unfolding target sentinel_in_fib
target-with_r e = refl

abbrev pub last_rounds : List (Round Machine)
last_rounds =
    record { change = λ m. m; woken = by_timeout }
    ∷ record { change = λ m. m; woken = by_stop }
    ∷ []

worker_timeout_lem_example :
    (15 ≤ 4294967 → worker_timeout (pos 15) ≡ 15000)
    × (1 ≤ 3 → worker_timeout (pos (1 * 536870912)) ≡ 0)
worker_timeout_lem_example = worker_timeout_lem 15 1
