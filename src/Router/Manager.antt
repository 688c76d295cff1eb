-- ===== src/Router/Manager.antt =====
-- The manager of the return routes (router/debian/usr/local/sbin/v4gwrd.py `Manager`). What pyroute2, the
-- clock and the files do is a parameter; the log lines are left out.
pub mod Stray
pub mod Leased
pub mod Follow
pub mod Entered
use v4_with_v6_nh.Common.{
  ℕ, ◌+◌, Bool, true, false, not, ◌&&◌, ◌||◌, Option, none, some, List, [], ◌∷◌, ◌++◌, ◌==◌, leb,
  if◌then◌else◌,
}
use v4_with_v6_nh.Common.Text.{codes, strcmp_eq}
use v4_with_v6_nh.Router.Hosts.{Text, Host, Entry, get, put, pop}
use v4_with_v6_nh.Router.NextHop.{Library, Route, Neighbor, cache_of, nexthop, derived}

-- `replace_route` says whether it ends without NetlinkError; the errors of the other operations change
-- nothing in the manager. The files are read as their lines, `none` for an OSError.
pub record Kernel (K : Type 0) : Type 0 where
  pub link_lookup : K → Text → List ℕ
  pub routes6 : K → List Route
  pub neighbors6 : K → ℕ → Option (List Neighbor)
  pub replace_route : K → Text → ℕ → Text → Bool × K
  pub del_neighbor : K → Text → ℕ → K
  pub del_route : K → Text → Bool × K
  pub send_datagram : K → Text → Text → K
  pub monotonic : K → ℕ
  pub write_state : K → Text → K
  pub read_state : K → Option (List Text)
  pub read_leases : K → Option (List Text)

pub record Manager (K : Type 0) : Type 0 where
  pub hosts : List Entry
  pub os : K

abbrev pub gua_probe_delay : ℕ
gua_probe_delay = 15

abbrev pub head_of : List ℕ → Option ℕ
head_of [] = none
head_of (x ∷ xs) = some x

-- `a == b` where one may be None.
abbrev pub same_text : Option Text → Option Text → Bool
same_text none none = true
same_text none (some b) = false
same_text (some a) none = false
same_text (some a) (some b) = strcmp_eq a b

-- The lines that `persist` writes.
unfoldable pub state_text : List Entry → Text
state_text [] = []
state_text (e ∷ es) =
    (e.mac ++ (32 ∷ e.host.iface) ++ (32 ∷ e.host.ip4) ++ (10 ∷ [])) ++ state_text es

abbrev pub due : Option ℕ → ℕ → Bool
due none now = false
due (some t) now = leb t now

module _ {K : Type 0} (lib : Library) (kernel : Kernel K) where
  open kernel use {
    link_lookup, routes6, neighbors6, replace_route, del_neighbor, del_route, send_datagram,
    monotonic, write_state,
  }

  -- After the route, the IPv4 neighbour is dropped.
  abbrev pub installed : Text → ℕ → Bool × K → K
  installed ip4 idx (true, os) = del_neighbor os ip4 idx
  installed ip4 idx (false, os) = os

  unfoldable pub install : ℕ → Text → Text → K → K
  install idx ip4 nh os = installed ip4 idx (replace_route os ip4 idx nh)

  unfoldable pub persist : Manager K → Manager K
  persist m = record m { os = write_state m.os (state_text m.hosts) }

  -- The solicitation of the derived address, at most once per lease: the time for the next one, and the
  -- system.
  unfoldable pub probe : Host → Option Text → Option Text → K → Option ℕ × K
  probe h nh none os = (h.probe_at, os)
  probe h nh (some gua) os =
      if same_text nh (some gua)
      then (none, os)
      else if due h.probe_at (monotonic os)
      then (none, send_datagram os h.iface gua)
      else (h.probe_at, os)

  -- The end of `evaluate`: the route follows the next hop.
  unfoldable pub settle : ℕ → Host → Option Text → K → Host × K
  settle idx h none os = (h, os)
  settle idx h (some nh) os =
      if same_text (some nh) h.nh
      then (h, os)
      else (record h { nh = some nh }, install idx h.ip4 nh os)

  -- `evaluate` of a host whose interface is there.
  unfoldable pub evaluate_host : ℕ → Text → Host → K → Host × K
  evaluate_host idx mac h os =
      let gua = derived lib idx mac (routes6 os) in
      let nh = nexthop lib gua (cache_of lib mac (neighbors6 os idx)) in
      let p = probe h nh gua os in settle idx (record h { probe_at = p.0 }) nh p.1

  abbrev pub store_host : Text → List Entry → Host × K → Manager K
  store_host mac es (h, os) = record { hosts = put mac h es; os = os }

  unfoldable pub evaluate : Text → Manager K → Manager K
  evaluate mac m = elim (get mac m.hosts) [
    | none ↦ m
    | some h ↦ elim (head_of (link_lookup m.os h.iface)) [
      | none ↦ m
      | some idx ↦ store_host mac m.hosts (evaluate_host idx mac h m.os)
    ]
  ]

  unfoldable pub evaluate_all : List Entry → Manager K → Manager K
  evaluate_all [] m = m
  evaluate_all (e ∷ es) m = evaluate_all es (evaluate e.mac m)

  unfoldable pub reconcile_all : Manager K → Manager K
  reconcile_all m = evaluate_all m.hosts m

  unfoldable pub is_changed : Host → Text → Text → Bool
  is_changed h iface ip4 = not (strcmp_eq h.iface iface) || not (strcmp_eq h.ip4 ip4)

  abbrev pub fresh_host : Text → Text → Host
  fresh_host iface ip4 = record { iface = iface; ip4 = ip4; nh = none; probe_at = none }

  -- The host gets its time for a solicitation.
  abbrev pub enter : Text → Host → Manager K → Manager K
  enter mac h m =
      let timed = record h { probe_at = some (monotonic m.os + gua_probe_delay) } in
      record m { hosts = put mac timed m.hosts }

  -- `on_lease` up to `persist`: the entry, and the withdrawal of the route of a changed lease.
  unfoldable pub enter_lease : Text → Text → Text → Manager K → Manager K
  enter_lease iface mac ip4 m = elim (get mac m.hosts) [
    | none ↦ enter mac (fresh_host iface ip4) m
    | some h ↦
        if is_changed h iface ip4
        then enter mac (fresh_host iface ip4) (record m { os = (del_route m.os h.ip4).1 })
        else enter mac h m
  ]

  unfoldable pub on_lease : Text → Text → Text → Manager K → Manager K
  on_lease iface mac ip4 m = evaluate mac (persist (enter_lease iface mac ip4 m))

  unfoldable pub on_release : Text → Text → Manager K → Manager K
  on_release mac ip4 m = elim (get mac m.hosts) [
    | none ↦ m
    | some h ↦ persist (record { hosts = pop mac m.hosts; os = (del_route m.os h.ip4).1 })
  ]
