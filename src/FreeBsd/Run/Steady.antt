-- ===== src/FreeBsd/Run/Steady.antt =====
-- What holds of the daemon and the kernel after any rounds of the poll loop (host/freebsd/v4gwd.c
-- `main`), if the rest of the system leaves the route alone.
use v4_with_v6_nh.Common.{
  ◌≡◌, refl, sym, Bool, true, false, not, ◌&&◌, Option, none, some, List, arith, inl, inr,
  Bool-cases, Option-cases, ◌∙◌, All,
}
use native.Mathlib.Decide.{ℕ_discrete}
use v4_with_v6_nh.Inet6.{Addr}
use v4_with_v6_nh.Rtsock.{Sockaddr}
use v4_with_v6_nh.Common.Text.{memcmp_eq}
use v4_with_v6_nh.FreeBsd.Route.{MsgType, rtm_change, RouteMsg}
use v4_with_v6_nh.FreeBsd.Daemon.{
  Kernel, Config, World, Errno, is_eexist_or_einval, route_msg, take_over, note_installed, install,
  withdraw, reconcile,
}
use v4_with_v6_nh.FreeBsd.Daemon.Laws.{
  IsRouting, IsStable, target, IsSynced, refreshed, reconcile-some, reconcile-none, reconcile-gone,
}
use v4_with_v6_nh.FreeBsd.Daemon.Follow.{reconcile-IsSynced, withdraw-IsSynced}
use v4_with_v6_nh.FreeBsd.Run.Life.{handle_sigs-world}
use v4_with_v6_nh.Common.Loop.{while_running-keeps}
use v4_with_v6_nh.FreeBsd.Run.{is_running, Process, Round, arrive, serve, loop, run}

module _ {K : Type 0} (k : Kernel K) (route : K → Option Sockaddr) (laws : IsRouting k route)
    (keeps : (os : K) (m : RouteMsg) → k.if_nametoindex (k.write os m).1 ≡ k.if_nametoindex os)
    (c : Config) where
  -- The daemon's belief is true and the interface has kept its index.
  pub record IsSteady (w : World K) : Type 0 where
    pub synced : IsSynced k route w
    pub stable : IsStable k w

  -- The index of the interface, in the system and in the daemon, is as in `w`.
  pub record Keeps (w : World K) (v : World K) : Type 0 where
    pub os_index : k.if_nametoindex v.os ≡ k.if_nametoindex w.os
    pub index : v.daemon.ifindex ≡ w.daemon.ifindex

  route_msg-Keeps : (kind : MsgType) (gw : Addr) (w : World K) → Keeps w (route_msg k kind gw w).1
  unfolding route_msg
  route_msg-Keeps kind gw w = record { os_index = keeps w.os _; index = refl }

  Keeps-trans : (u v w : World K) → Keeps u v → Keeps v w → Keeps u w
  Keeps-trans u v w a b = ground (arith, a.os_index, b.os_index, a.index, b.index)

  take_over-Keeps :
      (gw : Addr) (b : Bool) (w : World K) (p : Option Errno × World K)
      → Keeps w p.1
      → Keeps w (take_over k gw b p).1
  unfolding take_over
  take_over-Keeps gw b w (r, w') a = elim (Bool-cases (not b && is_eexist_or_einval r)) [
    | inl again ↦ rw again (Keeps-trans w w' _ a (route_msg-Keeps rtm_change gw w'))
    | inr once ↦ rw once a
  ]

  note_installed-Keeps :
      (gw : Addr) (w : World K) (p : Option Errno × World K)
      → Keeps w p.1
      → Keeps w (note_installed k gw p)
  note_installed-Keeps gw w (none, w') a = record { os_index = a.os_index; index = a.index }
  note_installed-Keeps gw w (some e, w') a = a

  pub install-Keeps : (gw : Addr) (w : World K) → Keeps w (install k gw w)
  unfolding install
  install-Keeps gw w =
      elim (Bool-cases (w.daemon.route_installed && memcmp_eq w.daemon.installed_gw gw)) [
        | inl same ↦ rw same (record { os_index = refl; index = refl })
        | inr differs ↦
            rw differs
              (note_installed-Keeps gw w _ (take_over-Keeps gw _ w _ (route_msg-Keeps _ gw w)))
      ]

  withdraw-believed : (w : World K) → (withdraw k w).daemon.route_installed ≡ false
  unfolding withdraw
  withdraw-believed w = ground arith

  reconcile-IsStable : (w : World K) → IsStable k (reconcile k c w)
  reconcile-IsStable w = elim (ℕ_discrete (k.if_nametoindex w.os) 0) [
    | yes gone ↦ rw (reconcile-gone k c w gone) (inl refl)
    | no up ↦ elim (Option-cases (target k c w.os)) [
      | inl out ↦ rw (reconcile-none k c w up out) (inl (withdraw-believed (refreshed k w)))
      | inr (gw, e) ↦
          let a = install-Keeps gw (refreshed k w) in
          rw (reconcile-some k c w e) (inr (a.os_index ∙ sym a.index))
    ]
  ]

  -- What the rest of the system does in a round leaves the daemon's route and the interface alone.
  abbrev pub IsGentle : Round K → Type 0
  IsGentle r =
      (os : K)
      → (route (r.change os) ≡ route os) × (k.if_nametoindex (r.change os) ≡ k.if_nametoindex os)

  pub arrive-IsSteady :
      (r : Round K) (p : Process K)
      → IsGentle r
      → IsSteady p.world
      → IsSteady (arrive k c r p).world
  unfolding arrive
  arrive-IsSteady r p g s = rw (handle_sigs-world r.signals (record p { world = moved })) (record {
    synced = record { agrees = λ h. (g p.world.os).0 ∙ s.synced.agrees h };
    stable = ground (arith, s.stable, (g p.world.os).1);
  })
    where
      moved : World K
      moved = record (p.world) { os = r.change p.world.os }

  pub reconcile-IsSteady : (w : World K) → IsSteady w → IsSteady (reconcile k c w)
  reconcile-IsSteady w s = record {
    synced = reconcile-IsSynced k route laws c w s.synced s.stable;
    stable = reconcile-IsStable w;
  }

  serve-IsSteady :
      (r : Round K) (p : Process K) → IsGentle r → IsSteady p.world → IsSteady (serve k c r p).world
  unfolding serve
  serve-IsSteady r p g s = ground (
    arith,
    arrive-IsSteady r p g s,
    reconcile-IsSteady (arrive k c r p).world (arrive-IsSteady r p g s),
  )

  pub loop-IsSteady :
      (rs : List (Round K)) (p : Process K)
      → All IsGentle rs
      → IsSteady p.world
      → IsSteady (loop k c rs p).world
  unfolding loop
  loop-IsSteady rs p g s =
      while_running-keeps is_running (serve k c) (λ q. IsSteady q.world) IsGentle serve-IsSteady rs
        p g s

  -- From a start with no route installed, after any rounds in which the rest of the system leaves the
  -- route and the interface alone, the kernel has the route that the daemon counts as installed.
  pub run-IsSynced :
      (rs : List (Round K)) (w : World K)
      → All IsGentle rs
      → w.daemon.route_installed ≡ false
      → IsSynced k route (run k c rs w).world
  unfolding run
  run-IsSynced rs w g off =
      let p = loop k c rs (record { world = reconcile k c w; running = true; reload = false }) in
      let s =
        loop-IsSteady rs (record { world = reconcile k c w; running = true; reload = false }) g
          (reconcile-IsSteady w first) in
      ground (arith, s.synced, withdraw-IsSynced k route laws p.world s.synced)
    where
      first : IsSteady w
      first = record { synced = record { agrees = λ h. cc }; stable = inl off }
