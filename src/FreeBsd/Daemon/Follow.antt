-- ===== src/FreeBsd/Daemon/Follow.antt =====
-- `reconcile` (host/freebsd/v4gwd.c) makes the IPv4 default route follow the target.
use v4_with_v6_nh.Common.{
  ◌≡◌, ◌≢◌, refl, Bool, true, false, ◌&&◌, Option, none, some, if◌then◌else◌, arith, inl, inr,
  Bool-cases, Option-cases, ◌∙◌,
}
use native.Mathlib.Decide.{ℕ_discrete}
use v4_with_v6_nh.Common.Text.{memcmp_eq}
use v4_with_v6_nh.Inet6.{Addr}
use v4_with_v6_nh.Rtsock.{Sockaddr}
use v4_with_v6_nh.FreeBsd.Route.{MsgType, rtm_add, rtm_delete, rtm_change, fill_gateway, build_msg}
use v4_with_v6_nh.FreeBsd.Daemon.{
  Kernel, Config, World, Errno, eexist, einval, esrch, route_msg, take_over, note_installed,
  install, withdraw, reconcile,
}
use v4_with_v6_nh.FreeBsd.Daemon.Laws.{
  IsRouting, IsStable, target, IsSynced, refreshed, reconcile-some, reconcile-none, reconcile-gone,
}

module _ {K : Type 0} (k : Kernel K) (route : K → Option Sockaddr) (laws : IsRouting k route) where
  -- What a message to set the gateway has done: granted, the gateway is in the kernel; refused, the
  -- kernel's route is as before; and the daemon has noted nothing yet.
  pub record IsAttempt (gw : Addr) (w : World K) (p : Option Errno × World K) : Type 0 where
    pub granted : p.0 ≡ none → route p.1.os ≡ some (fill_gateway w.daemon.ifindex gw)
    pub refused : p.0 ≢ none → route p.1.os ≡ route w.os
    pub same_ifindex : p.1.daemon.ifindex ≡ w.daemon.ifindex
    pub same_installed : p.1.daemon.route_installed ≡ w.daemon.route_installed
    pub same_gw : p.1.daemon.installed_gw ≡ w.daemon.installed_gw

  pub route_msg-IsAttempt :
      (kind : MsgType) (gw : Addr) (w : World K)
      → kind ≢ rtm_delete
      → IsAttempt gw w (route_msg k kind gw w)
  unfolding route_msg build_msg
  route_msg-IsAttempt kind gw w ne = record {
    granted = laws.sets w.os _ ne;
    refused = laws.fails w.os _;
    same_ifindex = refl;
    same_installed = refl;
    same_gw = refl;
  }

  -- A second attempt from where the first was refused is an attempt.
  retry :
      (gw : Addr) (w : World K) (p q : Option Errno × World K)
      → IsAttempt gw w p
      → p.0 ≢ none
      → IsAttempt gw p.1 q
      → IsAttempt gw w q
  retry gw w p q a ne b =
      let f = a.refused ne in
      record {
        granted = λ h. rw (← a.same_ifindex) (b.granted h);
        refused = λ h. b.refused h ∙ f;
        same_ifindex = b.same_ifindex ∙ a.same_ifindex;
        same_installed = b.same_installed ∙ a.same_installed;
        same_gw = b.same_gw ∙ a.same_gw;
      }

  pub take_over-IsAttempt :
      (gw : Addr) (w : World K) (b : Bool) (p : Option Errno × World K)
      → IsAttempt gw w p
      → IsAttempt gw w (take_over k gw b p)
  unfolding take_over
  take_over-IsAttempt gw w true p a = a
  take_over-IsAttempt gw w false (none, w') a = a
  take_over-IsAttempt gw w false (some eexist, w') a =
      retry gw w (some eexist, w') _ a (λ e. cc) (route_msg-IsAttempt rtm_change gw w' (λ e. cc))
  take_over-IsAttempt gw w false (some einval, w') a =
      retry gw w (some einval, w') _ a (λ e. cc) (route_msg-IsAttempt rtm_change gw w' (λ e. cc))
  take_over-IsAttempt gw w false (some esrch, w') a = a
  take_over-IsAttempt gw w false (some Errno.other, w') a = a

  note_installed-IsSynced :
      (gw : Addr) (w : World K) (p : Option Errno × World K)
      → IsSynced k route w
      → IsAttempt gw w p
      → IsSynced k route (note_installed k gw p)
  note_installed-IsSynced gw w (none, w') sync a = record {
    agrees = λ h. rw a.same_ifindex (a.granted refl);
  }
  note_installed-IsSynced gw w (some e, w') sync a = record {
    agrees = λ h.
        ground
          (arith, sync.agrees, a.refused (λ n. cc), a.same_ifindex, a.same_installed, a.same_gw);
  }

  -- The messages of `install` are an attempt.
  pub attempted :
      (gw : Addr) (w : World K)
      → let b = w.daemon.route_installed in
        IsAttempt gw w (take_over k gw b (route_msg k (if b then rtm_change else rtm_add) gw w))
  attempted gw w =
      take_over-IsAttempt gw w w.daemon.route_installed _
        (route_msg-IsAttempt _ gw w (ne_delete w.daemon.route_installed))
    where
      ne_delete : (b : Bool) → (if b then rtm_change else rtm_add) ≢ rtm_delete
      ne_delete true e = cc
      ne_delete false e = cc

  -- `install` keeps the daemon's belief true, whether or not the kernel grants its messages.
  pub install-IsSynced :
      (gw : Addr) (w : World K) → IsSynced k route w → IsSynced k route (install k gw w)
  unfolding install
  install-IsSynced gw w sync =
      elim (Bool-cases (w.daemon.route_installed && memcmp_eq w.daemon.installed_gw gw)) [
        | inl same ↦ rw same sync
        | inr differs ↦ rw differs (note_installed-IsSynced gw w _ sync (attempted gw w))
      ]

  pub withdraw-IsSynced : (w : World K) → IsSynced k route w → IsSynced k route (withdraw k w)
  unfolding withdraw
  withdraw-IsSynced w sync = record { agrees = ground (arith, sync.agrees) }

  pub refreshed-IsSynced :
      (w : World K) → IsSynced k route w → IsStable k w → IsSynced k route (refreshed k w)
  refreshed-IsSynced w sync (inl out) = record { agrees = λ h. cc }
  refreshed-IsSynced w sync (inr same) = record { agrees = λ h. rw same (sync.agrees h) }

  -- `reconcile` keeps true that the kernel has the route which the daemon counts as installed: on
  -- every path, whatever the kernel answers to its messages, as long as the interface keeps its index
  -- while a route is installed.
  pub reconcile-IsSynced :
      (c : Config) (w : World K)
      → IsSynced k route w
      → IsStable k w
      → IsSynced k route (reconcile k c w)
  reconcile-IsSynced c w sync stable = elim (ℕ_discrete (k.if_nametoindex w.os) 0) [
    | yes gone ↦ rw (reconcile-gone k c w gone) (record { agrees = λ h. cc })
    | no up ↦ elim (Option-cases (target k c w.os)) [
      | inl out ↦ rw (reconcile-none k c w up out) (withdraw-IsSynced (refreshed k w) now)
      | inr (gw, e) ↦ rw (reconcile-some k c w e) (install-IsSynced gw (refreshed k w) now)
    ]
  ]
    where
      now : IsSynced k route (refreshed k w)
      now = refreshed-IsSynced w sync stable
