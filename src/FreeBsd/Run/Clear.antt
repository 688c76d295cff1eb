-- ===== src/FreeBsd/Run/Clear.antt =====
-- Where there was no IPv4 default route through an IPv6 router before (host/freebsd/v4gwd.c `main`),
-- there is one while the daemon counts it as installed, and none at its end.
use v4_with_v6_nh.Common.{
  ◌≡◌, ◌≢◌, refl, sym, ◌∙◌, Bool, true, false, ◌&&◌, Option, none, some, List, arith, inl, inr,
  Bool-cases, Option-cases, All, Any,
}
use v4_with_v6_nh.Inet6.{Addr}
use v4_with_v6_nh.Rtsock.{Sockaddr}
use v4_with_v6_nh.Common.Text.{memcmp_eq}
use v4_with_v6_nh.Common.Loop.{while_running-keeps}
use v4_with_v6_nh.FreeBsd.Route.{rtm_delete, RouteMsg, build_msg}
use v4_with_v6_nh.FreeBsd.Daemon.{
  Kernel, Config, World, Errno, route_msg, note_installed, install, withdraw, reconcile,
}
use v4_with_v6_nh.FreeBsd.Daemon.Laws.{
  IsRouting, IsWorking, target, IsSynced, refreshed, reconcile-some, reconcile-none,
}
use v4_with_v6_nh.FreeBsd.Daemon.Follow.{IsAttempt, attempted, refreshed-IsSynced}
use v4_with_v6_nh.FreeBsd.Run.Life.{Stops, handle_sigs-world, after_loop, run-withdraw}
use v4_with_v6_nh.FreeBsd.Run.Steady.{
  IsSteady, install-Keeps, IsGentle, arrive-IsSteady, reconcile-IsSteady,
}
use v4_with_v6_nh.FreeBsd.Run.{is_running, Process, Round, arrive, serve, loop, run}

module _ {K : Type 0} (k : Kernel K) (route : K → Option Sockaddr) (laws : IsRouting k route)
    (keeps : (os : K) (m : RouteMsg) → k.if_nametoindex (k.write os m).1 ≡ k.if_nametoindex os)
    (has_default : K → Bool) (works : IsWorking k route has_default) (c : Config) where
  -- Where the daemon counts no route as installed, there is none.
  abbrev pub IsClear : World K → Type 0
  IsClear w = w.daemon.route_installed ≡ false → route w.os ≡ none

  note_installed-IsClear :
      (gw : Addr) (w : World K) (p : Option Errno × World K)
      → IsClear w
      → IsAttempt k route laws gw w p
      → IsClear (note_installed k gw p)
  note_installed-IsClear gw w (none, w') clear a off = cc
  note_installed-IsClear gw w (some e, w') clear a off =
      a.refused (λ n. cc) ∙ clear (sym a.same_installed ∙ off)

  install-IsClear : (gw : Addr) (w : World K) → IsClear w → IsClear (install k gw w)
  unfolding install
  install-IsClear gw w clear =
      elim (Bool-cases (w.daemon.route_installed && memcmp_eq w.daemon.installed_gw gw)) [
        | inl same ↦ rw same clear
        | inr differs ↦
            rw differs (note_installed-IsClear gw w _ clear (attempted k route laws gw w))
      ]

  delete_clears :
      (os : K) (m : RouteMsg)
      → m.kind ≡ rtm_delete
      → route os ≡ some m.gateway
      → route (k.write os m).1 ≡ none
  delete_clears os m e there_is = elim (Option-cases (k.write os m).0) [
    | inl granted ↦ laws.deletes os m e granted
    | inr (err, refused) ↦
        absurd
          (laws.missing os m e (works.removes os m e (λ n. ground (arith, refused, n))) there_is)
  ]

  withdraw-IsClear : (w : World K) → IsSynced k route w → IsClear w → IsClear (withdraw k w)
  unfolding withdraw route_msg build_msg
  withdraw-IsClear w sync clear = elim (Bool-cases w.daemon.route_installed) [
    | inl on ↦ rw on (λ h. delete_clears w.os _ refl (sync.agrees on))
    | inr off ↦ rw off (λ h. clear off)
  ]

  reconcile-IsClear :
      (w : World K)
      → k.if_nametoindex w.os ≢ 0
      → IsSteady k route laws keeps c w
      → IsClear w
      → IsClear (reconcile k c w)
  reconcile-IsClear w up s clear = elim (Option-cases (target k c w.os)) [
    | inl out ↦ rw (reconcile-none k c w up out) (
        withdraw-IsClear (refreshed k w) (refreshed-IsSynced k route laws w s.synced s.stable)
          clear)
    | inr (gw, e) ↦ rw (reconcile-some k c w e) (install-IsClear gw (refreshed k w) clear)
  ]

  withdraw-os_index : (w : World K) → k.if_nametoindex (withdraw k w).os ≡ k.if_nametoindex w.os
  unfolding withdraw route_msg
  withdraw-os_index w = elim (Bool-cases w.daemon.route_installed) [
    | inl on ↦ rw on (keeps w.os _)
    | inr off ↦ rw off refl
  ]

  reconcile-os_index :
      (w : World K)
      → k.if_nametoindex w.os ≢ 0
      → k.if_nametoindex (reconcile k c w).os ≡ k.if_nametoindex w.os
  reconcile-os_index w up = elim (Option-cases (target k c w.os)) [
    | inl out ↦ rw (reconcile-none k c w up out) (withdraw-os_index (refreshed k w))
    | inr (gw, e) ↦
        let a = install-Keeps k route laws keeps c gw (refreshed k w) in
        rw (reconcile-some k c w e) a.os_index
  ]

  -- What each round keeps.
  record IsHeld (w : World K) : Type 0 where
    up : k.if_nametoindex w.os ≢ 0
    steady : IsSteady k route laws keeps c w
    clear : IsClear w

  reconcile-IsHeld : (w : World K) → IsHeld w → IsHeld (reconcile k c w)
  reconcile-IsHeld w h = record {
    up = λ e. h.up (sym (reconcile-os_index w h.up) ∙ e);
    steady = reconcile-IsSteady k route laws keeps c w h.steady;
    clear = reconcile-IsClear w h.up h.steady h.clear;
  }

  arrive-IsHeld :
      (r : Round K) (p : Process K)
      → IsGentle k route laws keeps c r
      → IsHeld p.world
      → IsHeld (arrive k c r p).world
  unfolding arrive
  arrive-IsHeld r p g h =
      let same = handle_sigs-world r.signals (record p { world = moved }) in
      record {
        up = rw same (λ e. h.up (sym (g p.world.os).1 ∙ e));
        steady = arrive-IsSteady k route laws keeps c r p g h.steady;
        clear = rw same (λ off. (g p.world.os).0 ∙ h.clear off);
      }
    where
      moved : World K
      moved = record (p.world) { os = r.change p.world.os }

  serve-IsHeld :
      (r : Round K) (p : Process K)
      → IsGentle k route laws keeps c r
      → IsHeld p.world
      → IsHeld (serve k c r p).world
  unfolding serve
  serve-IsHeld r p g h =
      let now = arrive-IsHeld r p g h in
      ground (arith, now, reconcile-IsHeld (arrive k c r p).world now)

  loop-IsHeld :
      (rs : List (Round K)) (p : Process K)
      → All (IsGentle k route laws keeps c) rs
      → IsHeld p.world
      → IsHeld (loop k c rs p).world
  unfolding loop
  loop-IsHeld rs p g h =
      while_running-keeps is_running (serve k c) (λ q. IsHeld q.world)
        (IsGentle k route laws keeps c) serve-IsHeld rs p g h

  withdraw-believed : (w : World K) → (withdraw k w).daemon.route_installed ≡ false
  unfolding withdraw
  withdraw-believed w = ground arith

  -- If the interface is there and there is no IPv4 default route through an IPv6 router at the start, then
  -- there is none at the end.
  pub run-IsClear :
      (rs : List (Round K)) (w : World K)
      → All (IsGentle k route laws keeps c) rs
      → Any Stops rs
      → k.if_nametoindex w.os ≢ 0
      → w.daemon.route_installed ≡ false
      → route w.os ≡ none
      → route (run k c rs w).world.os ≡ none
  run-IsClear rs w g stops up off bare =
      let first : IsHeld w = record {
        up = up;
        steady = record { synced = record { agrees = λ h. cc }; stable = inl off };
        clear = λ h. bare;
      } in
      let last =
        loop-IsHeld rs (record { world = reconcile k c w; running = true; reload = false }) g
          (reconcile-IsHeld w first) in
      let v = (after_loop k c rs w).world in
      rw (run-withdraw k c rs w stops)
        (withdraw-IsClear v last.steady.synced last.clear (withdraw-believed v))
