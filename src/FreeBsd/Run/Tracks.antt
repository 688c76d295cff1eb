-- ===== src/FreeBsd/Run/Tracks.antt =====
-- The IPv4 default route follows the target while the program runs (host/freebsd/v4gwd.c `main`).
use v4_with_v6_nh.Common.{
  ◌≡◌, ◌≢◌, refl, sym, ◌∙◌, ap, Bool, true, false, ◌&&◌, Option, none, some, List, [], ◌∷◌, ◌++◌,
  if◌then◌else◌, arith, inl, inr, Bool-cases, Option-cases, All, length,
}
use native.Mathlib.Decide.{ℕ_discrete}
use v4_with_v6_nh.Inet6.{Addr}
use v4_with_v6_nh.Rtsock.{Sockaddr}
use v4_with_v6_nh.Common.Text.{memcmp_eq}
use v4_with_v6_nh.Common.Loop.{while_running-keeps, while_running-append, while_running-next}
use v4_with_v6_nh.FreeBsd.Route.{RouteMsg, fill_gateway}
use v4_with_v6_nh.FreeBsd.Daemon.{
  Kernel, Config, World, Errno, note_installed, install, withdraw, reconcile,
}
use v4_with_v6_nh.FreeBsd.Daemon.Laws.{
  IsRouting, IsWorking, target, refreshed, reconcile-some, reconcile-none, reconcile-gone,
}
use v4_with_v6_nh.FreeBsd.Daemon.Follow.{IsAttempt, attempted}
use v4_with_v6_nh.FreeBsd.Daemon.Converge.{reconcile_leads}
use v4_with_v6_nh.FreeBsd.Run.Life.{handle_sigs-world, after_loop}
use v4_with_v6_nh.FreeBsd.Run.Steady.{
  IsSteady, IsGentle, arrive-IsSteady, reconcile-IsSteady, loop-IsSteady,
}
use v4_with_v6_nh.FreeBsd.Run.{is_running, is_echo, Process, Round, arrive, serve, loop}

module _ {K : Type 0} (k : Kernel K) (route : K → Option Sockaddr) (laws : IsRouting k route)
    (c : Config) where
  -- The router that the daemon counts as installed has an address of sixteen bytes.
  abbrev IsSized : World K → Type 0
  IsSized w = w.daemon.route_installed ≡ true → length w.daemon.installed_gw ≡ 16

  note_installed-IsSized :
      (gw : Addr) (w : World K) (p : Option Errno × World K)
      → length gw ≡ 16
      → IsSized w
      → IsAttempt k route laws gw w p
      → IsSized (note_installed k gw p)
  note_installed-IsSized gw w (none, w') size sized a on = size
  note_installed-IsSized gw w (some e, w') size sized a on =
      ap length a.same_gw ∙ sized (sym a.same_installed ∙ on)

  install-IsSized :
      (gw : Addr) (w : World K) → length gw ≡ 16 → IsSized w → IsSized (install k gw w)
  unfolding install
  install-IsSized gw w size sized =
      elim (Bool-cases (w.daemon.route_installed && memcmp_eq w.daemon.installed_gw gw)) [
        | inl same ↦ rw same sized
        | inr differs ↦
            rw differs (note_installed-IsSized gw w _ size sized (attempted k route laws gw w))
      ]

  withdraw-IsSized : (w : World K) → IsSized (withdraw k w)
  unfolding withdraw
  withdraw-IsSized w on = ground arith

  module _ (sizes : (os : K) (gw : Addr) → target k c os ≡ some gw → length gw ≡ 16) where
    reconcile-IsSized : (w : World K) → IsSized w → IsSized (reconcile k c w)
    reconcile-IsSized w sized = elim (ℕ_discrete (k.if_nametoindex w.os) 0) [
      | yes gone ↦ rw (reconcile-gone k c w gone) (λ on. cc)
      | no up ↦ elim (Option-cases (target k c w.os)) [
        | inl out ↦ rw (reconcile-none k c w up out) (withdraw-IsSized (refreshed k w))
        | inr (gw, e) ↦
            rw (reconcile-some k c w e) (install-IsSized gw (refreshed k w) (sizes w.os gw e) sized)
      ]
    ]

    arrive-IsSized :
        (r : Round K) (p : Process K) → IsSized p.world → IsSized (arrive k c r p).world
    unfolding arrive
    arrive-IsSized r p sized =
        rw
          (handle_sigs-world r.signals
            (record p { world = record (p.world) { os = r.change p.world.os } }))
          sized

    serve-IsSized : (r : Round K) (p : Process K) → IsSized p.world → IsSized (serve k c r p).world
    unfolding serve
    serve-IsSized r p sized =
        let now = arrive-IsSized r p sized in
        elim (Bool-cases (is_echo k c r)) [
          | inl echo ↦ rw echo now
          | inr other ↦ rw other (reconcile-IsSized (arrive k c r p).world now)
        ]

    module _
        (keeps : (os : K) (m : RouteMsg) → k.if_nametoindex (k.write os m).1 ≡ k.if_nametoindex os)
        (has_default : K → Bool) (works : IsWorking k route has_default) where
      loop-IsSized :
          (rs : List (Round K)) (p : Process K)
          → All (IsGentle k route laws keeps c) rs
          → IsSized p.world
          → IsSized (loop k c rs p).world
      unfolding loop
      loop-IsSized rs p g sized =
          while_running-keeps is_running (serve k c) (λ q. IsSized q.world)
            (IsGentle k route laws keeps c) (λ r q gentle. serve-IsSized r q) rs p g sized

      loop-next :
          (rs : List (Round K)) (r : Round K) (p : Process K)
          → (loop k c rs p).running ≡ true
          → loop k c (rs ++ r ∷ []) p ≡ serve k c r (loop k c rs p)
      unfolding loop v4_with_v6_nh.Common.Loop.while_running
      loop-next rs r p on =
          while_running-append is_running (serve k c) rs (r ∷ []) p
          ∙ while_running-next is_running (serve k c) r [] (loop k c rs p) on

      serve-reconcile :
          (r : Round K) (p : Process K)
          → is_echo k c r ≡ false
          → (serve k c r p).world ≡ reconcile k c (arrive k c r p).world
      unfolding serve
      serve-reconcile r p other = rw other refl

      -- On a kernel that grants its messages, where the targets are addresses of sixteen bytes, and from
      -- a start with no route installed: after any rounds of the poll loop in which the rest of the system
      -- leaves the route and the interface alone, one more such round that reads no echo of the daemon
      -- makes the target at its wake-up, if there is one then, the gateway of the IPv4 default route, and
      -- the daemon notes so.
      pub after_loop_leads :
          (rs : List (Round K)) (r : Round K) (w : World K) (gw : Addr)
          → All (IsGentle k route laws keeps c) rs
          → IsGentle k route laws keeps c r
          → w.daemon.route_installed ≡ false
          → (after_loop k c rs w).running ≡ true
          → is_echo k c r ≡ false
          → let v = (arrive k c r (after_loop k c rs w)).world in
            target k c v.os ≡ some gw
            → let w' = (after_loop k c (rs ++ r ∷ []) w).world in
              (route w'.os ≡ some (fill_gateway (k.if_nametoindex v.os) gw))
              × (w'.daemon.route_installed ≡ true)
              × (w'.daemon.installed_gw ≡ gw)
      after_loop_leads rs r w gw g gentle off on other aimed =
          let p = after_loop k c rs w in
          let v = (arrive k c r p).world in
          let first : IsSteady k route laws keeps c w = record {
            synced = record { agrees = λ h. cc };
            stable = inl off;
          } in
          let w1 = reconcile k c w in
          let p1 : Process K = record { world = w1; running = true; reload = false } in
          let steady = arrive-IsSteady k route laws keeps c r p gentle (
            loop-IsSteady k route laws keeps c rs p1 g
              (reconcile-IsSteady k route laws keeps c w first)) in
          let sized = arrive-IsSized r p (loop-IsSized rs p1 g (reconcile-IsSized w (λ h. cc))) in
          rw (loop-next rs r p1 on, serve-reconcile r p other)
            (reconcile_leads k route laws has_default works c v gw steady.synced steady.stable
              (λ h. sized h ∙ sym (sizes v.os gw aimed)) aimed)
