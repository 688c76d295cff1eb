-- ===== src/FreeBsd/Daemon/Laws.antt =====
-- What the FreeBSD daemon relies on of the kernel (host/freebsd/v4gwd.c; route(4)), as laws of the
-- parameter `Kernel`, and what it wants of the system: the next hop that Section 4 of the draft asks
-- for.
use v4_with_v6_nh.Common.{
  ◌≡◌, ◌≢◌, ◌⊎◌, Bool, true, false, not, ◌&&◌, Option, none, some, ◌==◌, if◌then◌else◌, arith,
}
use v4_with_v6_nh.Inet6.{Addr}
use v4_with_v6_nh.Rtsock.{Sockaddr}
use v4_with_v6_nh.FreeBsd.Tables.{sentinel_in_fib}
use v4_with_v6_nh.FreeBsd.Route.{rtm_add, rtm_delete, rtm_change, RouteMsg, fill_gateway}
use v4_with_v6_nh.FreeBsd.Daemon.{
  Kernel, Config, World, esrch, sentinel_in_file, next_hop, is_eexist_or_einval, install, withdraw,
  reconcile,
}

module _ {K : Type 0} (k : Kernel K) where
  open k use {abi, if_nametoindex, state_file, fib4, write}

  -- `route os` is the IPv6 gateway of the IPv4 default route, if that route has one.
  -- A write that fails changes nothing; RTM_ADD and RTM_CHANGE set the gateway of the message;
  -- RTM_DELETE removes the route; and ESRCH means that there was no route through that gateway.
  pub record IsRouting (route : K → Option Sockaddr) : Type 0 where
    pub fails : (os : K) (m : RouteMsg) → (write os m).0 ≢ none → route (write os m).1 ≡ route os
    pub sets :
        (os : K) (m : RouteMsg)
        → m.kind ≢ rtm_delete
        → (write os m).0 ≡ none
        → route (write os m).1 ≡ some m.gateway
    pub deletes :
        (os : K) (m : RouteMsg)
        → m.kind ≡ rtm_delete
        → (write os m).0 ≡ none
        → route (write os m).1 ≡ none
    pub missing :
        (os : K) (m : RouteMsg)
        → m.kind ≡ rtm_delete
        → (write os m).0 ≡ some esrch
        → route os ≢ some m.gateway

  -- `has_default os` says whether there is an IPv4 default route, through an IPv6 gateway or not.
  -- RTM_CHANGE of a default route that exists is granted; RTM_ADD is refused only where one exists;
  -- RTM_DELETE is granted or finds no route.
  pub record IsWorking (route : K → Option Sockaddr) (has_default : K → Bool) : Type 0 where
    pub present : (os : K) {g : Sockaddr} → route os ≡ some g → has_default os ≡ true
    pub changes :
        (os : K) (m : RouteMsg)
        → m.kind ≡ rtm_change
        → has_default os ≡ true
        → (write os m).0 ≡ none
    pub adds :
        (os : K) (m : RouteMsg)
        → m.kind ≡ rtm_add
        → (write os m).0 ≢ none
        → (is_eexist_or_einval (write os m).0 ≡ true) × (has_default (write os m).1 ≡ true)
    pub removes :
        (os : K) (m : RouteMsg)
        → m.kind ≡ rtm_delete
        → (write os m).0 ≢ none
        → (write os m).0 ≡ some esrch

  -- The sentinel conditions of the command line hold.
  abbrev pub sentinel_present : Config → K → Bool
  sentinel_present c os =
      not (c.use_sentinel_file && not (sentinel_in_file (state_file os)))
      && not (c.require_sentinel_route && not (sentinel_in_fib abi (fib4 os)))

  -- The router that the IPv4 default route should follow.
  unfoldable pub target : Config → K → Option Addr
  target c os =
      if if_nametoindex os == 0
      then none
      else if sentinel_present c os
      then next_hop k (if_nametoindex os) os
      else none

  -- What the daemon believes is so: a route that it counts as installed is in the kernel.
  pub record IsSynced (route : K → Option Sockaddr) (w : World K) : Type 0 where
    pub agrees :
        w.daemon.route_installed ≡ true
        → route w.os ≡ some (fill_gateway w.daemon.ifindex w.daemon.installed_gw)

  -- The daemon counts no route as installed, or the interface has kept its index since.
  abbrev pub IsStable : World K → Type 0
  IsStable w = (w.daemon.route_installed ≡ false) ⊎ (if_nametoindex w.os ≡ w.daemon.ifindex)

  abbrev pub refreshed : World K → World K
  refreshed w = record w { daemon = record (w.daemon) { ifindex = if_nametoindex w.os } }

  -- `reconcile` by the target: install it, or withdraw, or only forget where the interface is gone.
  pub reconcile-some :
      (c : Config) (w : World K) {gw : Addr}
      → target c w.os ≡ some gw
      → reconcile k c w ≡ install k gw (refreshed w)
  unfolding target reconcile
  reconcile-some c w e = ground arith

  pub reconcile-none :
      (c : Config) (w : World K)
      → if_nametoindex w.os ≢ 0
      → target c w.os ≡ none
      → reconcile k c w ≡ withdraw k (refreshed w)
  unfolding target reconcile
  reconcile-none c w up e = ground arith

  pub reconcile-gone :
      (c : Config) (w : World K)
      → if_nametoindex w.os ≡ 0
      → reconcile k c w
        ≡ record w { daemon = record (w.daemon) { ifindex = 0; route_installed = false } }
  unfolding reconcile
  reconcile-gone c w e = rw e
