-- ===== src/Linux/Daemon.antt =====
-- An interface that the daemon manages (host/v4gwd.py `kernel_has_rta_via`, `Interface`). What pyroute2
-- does is a parameter; so is the datagram that a socket sends. The log lines are left out.
pub mod Laws
pub mod Notes
pub mod Flaws
pub mod Converge
pub mod Idle
pub mod Pins
use v4_with_v6_nh.Common.{
  ℕ, Bool, true, false, not, ◌&&◌, ◌||◌, Option, none, some, List, [], ◌∷◌, ◌==◌, ltb, leb,
  if◌then◌else◌,
}
use v4_with_v6_nh.Common.Text.{strcmp_eq}
use v4_with_v6_nh.Linux.Routes.{
  Text, Route, Neighbor, same_text, is_usable, sentinel_present, nud_state, router_lladdr,
  neighbor_present,
}
use v4_with_v6_nh.Linux.Select.{select_router}

-- `get_routes` and `get_neighbours` of a family; an index is `none` for None. The operations say whether
-- they end without NetlinkError. The IPv4 route is the default route with the metric and protocol 199.
pub record Kernel (K : Type 0) : Type 0 where
  pub link_lookup : K → Text → List ℕ
  pub routes4 : K → List Route
  pub routes6 : K → List Route
  pub neighbors4 : K → Option ℕ → Text → Option (List Neighbor)
  pub neighbors6 : K → Option ℕ → Text → Option (List Neighbor)
  pub send_datagram : K → Text → Text → K
  pub replace_route : K → Option ℕ → ℕ → Text → Bool × K
  pub del_route : K → Option ℕ → ℕ → Bool × K
  pub replace_neighbor : K → Option ℕ → Text → Text → Bool × K
  pub del_neighbor : K → Option ℕ → Text → Bool × K

-- What `Interface` is made with, and SENTINEL.
pub record Config : Type 0 where
  pub sentinel : Text
  pub metric : ℕ
  pub require_sentinel : Bool
  pub static_arp : Bool

pub record Interface : Type 0 where
  pub name : Text
  pub index : Option ℕ
  pub installed_via : Option Text
  pub installed_mac : Option Text

abbrev pub new_interface : Text → Interface
new_interface name = record {
  name = name;
  index = none;
  installed_via = none;
  installed_mac = none;
}

pub record World (K : Type 0) : Type 0 where
  pub iface : Interface
  pub os : K

-- `release` is what the two groups of digits of `os.uname().release` are, if it begins with them.
unfoldable pub kernel_has_rta_via : Option (ℕ × ℕ) → Bool
kernel_has_rta_via none = true
kernel_has_rta_via (some (major, minor)) = ltb 5 major || (major == 5 && leb 2 minor)

abbrev pub is_not_none : Option Text → Bool
is_not_none none = false
is_not_none (some t) = true

unfoldable pub active : Interface → Bool
active i = is_not_none i.installed_via || is_not_none i.installed_mac

abbrev pub head_of : List ℕ → Option ℕ
head_of [] = none
head_of (x ∷ xs) = some x

module _ {K : Type 0} (kernel : Kernel K) (c : Config) where
  open kernel use {
    link_lookup, routes4, routes6, neighbors4, neighbors6, send_datagram, replace_route, del_route,
    replace_neighbor, del_neighbor,
  }

  unfoldable pub resolve_index : World K → World K
  resolve_index w = record w {
    iface = record (w.iface) { index = head_of (link_lookup w.os w.iface.name) };
  }

  unfoldable pub nud : Option ℕ → K → Text → ℕ
  nud index os gw = nud_state (neighbors6 os index gw)

  unfoldable pub kick_nud : Text → World K → World K
  kick_nud gw w = record w { os = send_datagram w.os w.iface.name gw }

  abbrev pub noted_via : Text → Interface → Bool × K → World K
  noted_via gw i (true, os) = record { iface = record i { installed_via = some gw }; os = os }
  noted_via gw i (false, os) = record { iface = i; os = os }

  unfoldable pub install_route : Text → World K → World K
  install_route gw w =
      if same_text w.iface.installed_via (some gw)
      then w
      else noted_via gw w.iface (replace_route w.os w.iface.index c.metric gw)

  abbrev pub noted_mac : Text → Interface → Bool × K → World K
  noted_mac mac i (true, os) = record { iface = record i { installed_mac = some mac }; os = os }
  noted_mac mac i (false, os) = record { iface = i; os = os }

  -- `_pin_neighbor` when the address of the router is known.
  unfoldable pub pin_mac : Text → World K → World K
  pin_mac mac w =
      if same_text w.iface.installed_mac (some mac)
        && neighbor_present mac (neighbors4 w.os w.iface.index c.sentinel)
      then w
      else noted_mac mac w.iface (replace_neighbor w.os w.iface.index c.sentinel mac)

  unfoldable pub pin_neighbor : Text → World K → World K
  pin_neighbor gw w = elim (router_lladdr (neighbors6 w.os w.iface.index gw)) [
    | none ↦ w
    | some mac ↦ pin_mac mac w
  ]

  unfoldable pub install : Text → World K → World K
  install gw w = if c.static_arp then pin_neighbor gw w else install_route gw w

  unfoldable pub withdraw_neighbor : World K → World K
  withdraw_neighbor w = if not (is_not_none w.iface.installed_mac) then w else record {
    iface = record (w.iface) { installed_mac = none };
    os = (del_neighbor w.os w.iface.index c.sentinel).1;
  }

  unfoldable pub withdraw_route : World K → World K
  withdraw_route w = record {
    iface = record (w.iface) { installed_via = none };
    os = (del_route w.os w.iface.index c.metric).1;
  }

  unfoldable pub withdraw : World K → World K
  withdraw w = if c.static_arp then withdraw_neighbor w else withdraw_route w

  -- `if self.active(): self.withdraw(…)`
  unfoldable pub withdraw_active : World K → World K
  withdraw_active w = if active w.iface then withdraw w else w

  -- `select_router` on what the kernel tells.
  unfoldable pub router_of : World K → Option Text
  router_of w = select_router (nud w.iface.index w.os) w.iface.index (routes6 w.os)

  unfoldable pub follow : Text → World K → World K
  follow gw w =
      if is_usable (nud w.iface.index w.os gw) then install gw w else install gw (kick_nud gw w)

  -- `reconcile` when the interface is there.
  unfoldable pub manage : World K → World K
  manage w =
      if c.require_sentinel && not (sentinel_present c.sentinel w.iface.index (routes4 w.os))
      then withdraw_active w
      else elim (router_of w) [ none ↦ withdraw_active w | some gw ↦ follow gw w ]

  abbrev pub forgotten : World K → World K
  forgotten w = record w { iface = record (w.iface) { installed_via = none; installed_mac = none } }

  -- `reconcile` when the index has been read.
  abbrev pub reconcile_resolved : World K → World K
  reconcile_resolved w = elim (w.iface.index) [ none ↦ forgotten w | some i ↦ manage w ]

  unfoldable pub reconcile : World K → World K
  reconcile w = reconcile_resolved (resolve_index w)
