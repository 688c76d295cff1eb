-- ===== src/Linux/Tests.antt =====
-- A small Linux system, where each name is an interface with an index of its own, and the theorems on
-- host/v4gwd.py at it.
mod Programs
mod Flaws
use mathlib.Core.Path.{ap₂}
use v4_with_v6_nh.Common.{
  ℕ, zero, suc, ◌+◌, ◌*◌, ◌≡◌, ◌≢◌, refl, ap, sym, ◌∙◌, Bool, true, false, Option, none, some, List,
  [], ◌∷◌, ◌++◌, ◌==◌, if◌then◌else◌, arith,
}
use v4_with_v6_nh.Common.Text.{codes, strcmp_eq}
use v4_with_v6_nh.Linux.Routes.{
  Text, Route, Neighbor, rt_proto, is_usable, pref_rank, same_text, is_default, default_routes,
  sentinel_present, any_sentinel, is_sentinel, nud_state, router_lladdr, neighbor_present,
  any_pinned, is_pinned,
}
use v4_with_v6_nh.Linux.Select.{key_ge, key_of, consider, scan, select_router}
use v4_with_v6_nh.Linux.Select.Last.{IsLastBest, select_router-IsLastBest}
use v4_with_v6_nh.Linux.Daemon.{
  Kernel, Config, Interface, new_interface, World, head_of, nud, reconcile,
}
use v4_with_v6_nh.Linux.Daemon.Laws.{foreign, IsRouting, target}
use v4_with_v6_nh.Linux.Daemon.Converge.{IsSynced}
use v4_with_v6_nh.Linux.Daemon.Idle.{IsSameView, IsOwn, reconcile_settles}
use v4_with_v6_nh.Linux.Daemon.Pins.{IsPinning}
use v4_with_v6_nh.Linux.Run.Clear.{IsNaming}

-- An index for each name.
abbrev doubled : ℕ → ℕ → ℕ
doubled zero m = m
doubled (suc n) m = 2 * doubled n m

abbrev pub index_of : Text → ℕ
index_of [] = 0
index_of (x ∷ xs) = doubled x (2 * index_of xs + 1)

doubled_pos : (n m : ℕ) → doubled n (2 * m + 1) ≢ 0
doubled_pos zero m e = omega arith
doubled_pos (suc n) m e = doubled_pos n m (omega arith)

doubled_lem : (n m a b : ℕ) → doubled n (2 * a + 1) ≡ doubled m (2 * b + 1) → (n ≡ m) × (a ≡ b)
doubled_lem zero zero a b e = (refl, omega arith)
doubled_lem zero (suc m) a b e = absurd (omega arith)
doubled_lem (suc n) zero a b e = absurd (omega arith)
doubled_lem (suc n) (suc m) a b e =
    let (same, rest) = doubled_lem n m a b (omega arith) in (ap suc same, rest)

index_of-injective : (m n : Text) → index_of m ≡ index_of n → m ≡ n
index_of-injective [] [] e = refl
index_of-injective [] (y ∷ n) e = absurd (doubled_pos y (index_of n) (sym e))
index_of-injective (x ∷ m) [] e = absurd (doubled_pos x (index_of m) e)
index_of-injective (x ∷ m) (y ∷ n) e =
    let (same, rest) = doubled_lem x y (index_of m) (index_of n) e in
    ap₂ (λ z zs. z ∷ zs) same (index_of-injective m n rest)

-- The routes of the daemon, by index, and the permanent neighbours of the gateway.
pub record Machine : Type 0 where
  pub vias : ℕ → Option Text
  pub pins : ℕ → Option Text

abbrev pub eth0 : Text
eth0 = codes "eth0"

abbrev gateway : Text
gateway = codes "192.0.0.11"

abbrev pub router : Text
router = codes "fe80::1"

abbrev pub router_mac : Text
router_mac = codes "02:00:00:00:00:01"

abbrev default_via : Text → Option ℕ → Route
default_via gw pref = record {
  dst_len = 0;
  proto = some 9;
  oif = some (index_of eth0);
  gateway = some gw;
  pref = pref;
}

-- The route that DHCP has made, and the daemon's.
abbrev sentinel_row : Route
sentinel_row = record {
  dst_len = 0;
  proto = some 16;
  oif = some (index_of eth0);
  gateway = some gateway;
  pref = none;
}

abbrev own_rows : Option Text → List Route
own_rows none = []
own_rows (some gw) =
    record {
      dst_len = 0;
      proto = some rt_proto;
      oif = some (index_of eth0);
      gateway = none;
      pref = none;
    }
    ∷ []

abbrev put : ℕ → Option Text → (ℕ → Option Text) → ℕ → Option Text
put i t f j = if i == j then t else f j

abbrev put_at : Option ℕ → Option Text → (ℕ → Option Text) → ℕ → Option Text
put_at none t f = f
put_at (some i) t f = put i t f

abbrev pub pinned_rows : Option Text → List Neighbor
pinned_rows none = []
pinned_rows (some mac) = record { state = 128; lladdr = some mac } ∷ []

abbrev pins_at : Option ℕ → Machine → Option Text
pins_at none m = none
pins_at (some i) m = m.pins i

abbrev pub small_kernel : Kernel Machine
small_kernel = record {
  link_lookup = λ m n. index_of n ∷ [];
  routes4 = λ m. own_rows (m.vias (index_of eth0)) ++ (sentinel_row ∷ []);
  routes6 = λ m. default_via (codes "fe80::2") (some 3) ∷ default_via router none ∷ [];
  neighbors4 = λ m i t. some (pinned_rows (pins_at i m));
  neighbors6 = λ m i t. some (record { state = 2; lladdr = some router_mac } ∷ []);
  send_datagram = λ m n gw. m;
  replace_route = λ m i metric gw. (true, record m { vias = put_at i (some gw) m.vias });
  del_route = λ m i metric. (true, record m { vias = put_at i none m.vias });
  replace_neighbor = λ m i t mac. (true, record m { pins = put_at i (some mac) m.pins });
  del_neighbor = λ m i t. (true, record m { pins = put_at i none m.pins });
}

abbrev pub via : ℕ → Machine → Option Text
via i m = m.vias i

abbrev pub pin : ℕ → Machine → Option Text
pin i m = m.pins i

pub put_here : (i : ℕ) (t : Option Text) (f : ℕ → Option Text) → put i t f i ≡ t
put_here i t f = ground arith

put_there : (i j : ℕ) (t : Option Text) (f : ℕ → Option Text) → i ≢ j → put i t f j ≡ f j
put_there i j t f ne = ground arith

pub small_kernel-IsRouting : (c : Config) → IsRouting small_kernel c via
small_kernel-IsRouting c = record {
  replaces = λ i m gw h. put_here i (some gw) m.vias;
  refuses = λ i m gw h. cc;
  deletes = λ i m h. put_here i none m.vias;
  delete_refuses = λ i m h. cc;
  solicits = λ i m n gw. refl;
  others_replace = λ i j m gw ne. put_there i j (some gw) m.vias ne;
  others_delete = λ i j m ne. put_there i j none m.vias ne;
}

pub small_kernel-IsNaming : IsNaming small_kernel via index_of
small_kernel-IsNaming = record {
  found = λ m n i e. ground (arith, e);
  gone = λ m n e. cc;
  distinct = λ m n ne e. ne (index_of-injective m n e);
}

abbrev pub strict : Config
strict = record { sentinel = gateway; metric = 50; require_sentinel = true; static_arp = false }

abbrev pub old_kernel : Config
old_kernel = record strict { static_arp = true }

abbrev pub empty : Machine
empty = record { vias = λ i. none; pins = λ i. none }

abbrev pub first_world : World Machine
first_world = record { iface = new_interface eth0; os = empty }

first_world-IsSynced : IsSynced via (index_of eth0) first_world
first_world-IsSynced = record { agrees = refl; no_mac = refl; indexed = λ h. absurd (h refl) }

select_router-IsLastBest_example :
    IsLastBest
      (λ gw. 2)
      (default_routes (some (index_of eth0)) (small_kernel.routes6 empty))
      (select_router (λ gw. 2) (some (index_of eth0)) (small_kernel.routes6 empty))
select_router-IsLastBest_example =
    select_router-IsLastBest (λ gw. 2) (some (index_of eth0)) (small_kernel.routes6 empty)

pub target-strict :
    (static : Bool)
    → target small_kernel (record strict { static_arp = static }) (index_of eth0) empty
      ≡ some router
unfolding target sentinel_present default_routes is_default any_sentinel is_sentinel select_router
    scan consider key_of key_ge pref_rank nud nud_state strcmp_eq
target-strict static = refl

usable_router :
    (gw : Text) → is_usable (nud small_kernel strict (some (index_of eth0)) empty gw) ≡ true
unfolding is_usable nud nud_state
usable_router gw = refl

foreign-own : (t : Option Text) → foreign (own_rows t ++ (sentinel_row ∷ [])) ≡ sentinel_row ∷ []
foreign-own none = refl
foreign-own (some gw) = refl

same_view : (m m' : Machine) → IsSameView small_kernel strict m m'
same_view m m' = record {
  links = λ n. refl;
  routes4 = foreign-own (m'.vias (index_of eth0)) ∙ sym (foreign-own (m.vias (index_of eth0)));
  routes6 = refl;
  neighbors6 = λ i gw. refl;
}

reconcile_settles_example :
    reconcile small_kernel strict (reconcile small_kernel strict first_world)
    ≡ reconcile small_kernel strict first_world
reconcile_settles_example =
    reconcile_settles small_kernel strict
      (record { replace_view = λ i m gw. same_view m _; del_view = λ i m. same_view m _ }) refl via
      (small_kernel-IsRouting strict) (index_of eth0) first_world refl (λ gw to. usable_router gw)
      first_world-IsSynced (λ os gw. refl)
