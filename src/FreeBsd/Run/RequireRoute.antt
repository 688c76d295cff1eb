-- ===== src/FreeBsd/Run/RequireRoute.antt =====
-- The option `-r` of host/freebsd/v4gwd.c: the daemon waits for the IPv4 default route via 192.0.0.11,
-- and then replaces it.
use v4_with_v6_nh.Common.{
  ◌≡◌, ◌≢◌, sym, Bool, true, false, Option, none, some, arith, inr, ◌∙◌, length,
}
use v4_with_v6_nh.Inet6.{Addr}
use v4_with_v6_nh.Rtsock.{Sockaddr}
use v4_with_v6_nh.FreeBsd.Tables.{sentinel_in_fib}
use v4_with_v6_nh.FreeBsd.Route.{RouteMsg, fill_gateway}
use v4_with_v6_nh.FreeBsd.Daemon.{Kernel, Config, World, reconcile}
use v4_with_v6_nh.FreeBsd.Daemon.Laws.{
  IsRouting, IsWorking, IsStable, IsSynced, target, refreshed, reconcile-some,
}
use v4_with_v6_nh.FreeBsd.Daemon.Converge.{reconcile_leads, reconcile_ceases}
use v4_with_v6_nh.FreeBsd.Run.Steady.{install-Keeps}

target-required :
    {K : Type 0} (k : Kernel K) (c : Config) (os : K)
    → c.require_sentinel_route ≡ true
    → sentinel_in_fib k.abi (k.fib4 os) ≡ false
    → target k c os ≡ none
unfolding target
target-required k c os required no_route = ground arith

target-up :
    {K : Type 0} (k : Kernel K) (c : Config) (os : K) {gw : Addr}
    → target k c os ≡ some gw
    → k.if_nametoindex os ≢ 0
unfolding target
target-up k c os e gone = ground arith

module _ {K : Type 0} (k : Kernel K) (route : K → Option Sockaddr) (laws : IsRouting k route)
    (has_default : K → Bool) (works : IsWorking k route has_default)
    (keeps : (os : K) (m : RouteMsg) → k.if_nametoindex (k.write os m).1 ≡ k.if_nametoindex os)
    (only : (os : K) (g : Sockaddr) → route os ≡ some g → sentinel_in_fib k.abi (k.fib4 os) ≡ false)
    (c : Config) (w : World K) {gw : Addr} where
  same_index :
      target k c w.os ≡ some gw → k.if_nametoindex (reconcile k c w).os ≡ k.if_nametoindex w.os
  same_index e =
      rw (reconcile-some k c w e) (install-Keeps k route laws keeps c gw (refreshed k w)).os_index

  same_daemon_index :
      target k c w.os ≡ some gw → (reconcile k c w).daemon.ifindex ≡ k.if_nametoindex w.os
  same_daemon_index e =
      rw (reconcile-some k c w e) (install-Keeps k route laws keeps c gw (refreshed k w)).index

  -- With `-r`, a route of the daemon's own replaces the sentinel route that it waits for: if the FIB
  -- has one IPv4 default route, the `reconcile` after the one that installs the route withdraws it.
  pub reconcile_twice_ceases :
      c.require_sentinel_route ≡ true
      → IsSynced k route w
      → IsStable k w
      → (w.daemon.route_installed ≡ true → length w.daemon.installed_gw ≡ length gw)
      → target k c w.os ≡ some gw
      → let w1 = reconcile k c w in
        let w2 = reconcile k c w1 in
        (w1.daemon.route_installed ≡ true)
        × (w2.daemon.route_installed ≡ false)
        × (route w2.os ≢ some (fill_gateway (k.if_nametoindex w.os) gw))
  reconcile_twice_ceases required sync stable sizes e =
      let w1 = reconcile k c w in
      let (there, on, noted) =
        reconcile_leads k route laws has_default works c w gw sync stable sizes e in
      let up : k.if_nametoindex w1.os ≢ 0 = rw (same_index e) (target-up k c w.os e) in
      let out = target-required k c w1.os required (only w1.os _ there) in
      let (off, gone, idle) =
        reconcile_ceases k route laws has_default works c w1
          (inr (same_index e ∙ sym (same_daemon_index e))) up out in
      (on, off, rw (← same_index e, ← noted) (gone on))
