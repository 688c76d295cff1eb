-- ===== src/FreeBsd/Daemon/Flaws.antt =====
-- Where `reconcile` and `withdraw` (host/freebsd/v4gwd.c) do less than their comments say.
use v4_with_v6_nh.Common.{◌≡◌, ◌≢◌, true, false, Option, none, some, arith, inl, inr, Bool-cases}
use v4_with_v6_nh.Common.Text.Laws.{memcmp_eq_refl}
use v4_with_v6_nh.Inet6.{Addr}
use v4_with_v6_nh.Rtsock.{Sockaddr}
use v4_with_v6_nh.FreeBsd.Route.{RouteMsg}
use v4_with_v6_nh.FreeBsd.Daemon.{Kernel, Config, World, route_msg, install, withdraw, reconcile}
use v4_with_v6_nh.FreeBsd.Daemon.Laws.{IsRouting, target, refreshed, reconcile-some}

-- Where the daemon counts the route to the target as installed, `reconcile` sends nothing to the
-- kernel, so a route that something else has removed is not put back.
pub reconcile_idle :
    {K : Type 0} (k : Kernel K) (c : Config) (w : World K) (gw : Addr)
    → target k c w.os ≡ some gw
    → w.daemon.route_installed ≡ true
    → w.daemon.installed_gw ≡ gw
    → reconcile k c w ≡ refreshed k w
unfolding install
reconcile_idle k c w gw e on same = rw (reconcile-some k c w e, on, same, memcmp_eq_refl gw)

withdraw-believed :
    {K : Type 0} (k : Kernel K) (w : World K) → (withdraw k w).daemon.route_installed ≡ false
unfolding withdraw
withdraw-believed k w = ground arith

withdraw-off :
    {K : Type 0} (k : Kernel K) (w : World K) → w.daemon.route_installed ≡ false → withdraw k w ≡ w
unfolding withdraw
withdraw-off k w off = ground arith

withdraw-refused :
    {K : Type 0} (k : Kernel K) (route : K → Option Sockaddr)
    → IsRouting k route
    → (w : World K) → ((m : RouteMsg) → (k.write w.os m).0 ≢ none)
    → route (withdraw k w).os ≡ route w.os
unfolding withdraw route_msg
withdraw-refused k route laws w refuses = elim (Bool-cases w.daemon.route_installed) [
  | inl on ↦ rw on (laws.fails w.os _ (refuses _))
  | inr off ↦ rw off
]

-- A `withdraw` whose RTM_DELETE the kernel refuses leaves the route in the kernel, and a later
-- `withdraw` does nothing: the daemon counts no route as installed any more.
pub withdraw_forgets :
    {K : Type 0} (k : Kernel K) (route : K → Option Sockaddr)
    → IsRouting k route
    → (w : World K) → ((m : RouteMsg) → (k.write w.os m).0 ≢ none)
    → (route (withdraw k w).os ≡ route w.os) × (withdraw k (withdraw k w) ≡ withdraw k w)
withdraw_forgets k route laws w refuses =
    (withdraw-refused k route laws w refuses, withdraw-off k (withdraw k w) (withdraw-believed k w))
