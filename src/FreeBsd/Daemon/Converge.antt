-- ===== src/FreeBsd/Daemon/Converge.antt =====
-- On a kernel that grants its messages, one `reconcile` (host/freebsd/v4gwd.c) brings the IPv4
-- default route to the target.
use v4_with_v6_nh.Common.{
  ℕ, ◌≡◌, ◌≢◌, refl, sym, Bool, true, false, ◌&&◌, Option, none, some, if◌then◌else◌, arith, inl,
  inr, Bool-cases, Option-cases, ◌∙◌, length, ap,
}
use v4_with_v6_nh.Common.Text.{memcmp_eq}
use v4_with_v6_nh.Common.Text.Laws.{memcmp_eq_iff}
use v4_with_v6_nh.Inet6.{Addr}
use v4_with_v6_nh.Rtsock.{Sockaddr}
use v4_with_v6_nh.FreeBsd.Route.{rtm_add, rtm_delete, rtm_change, RouteMsg, fill_gateway, build_msg}
use v4_with_v6_nh.FreeBsd.Daemon.{
  Kernel, Config, World, Errno, eexist, einval, esrch, is_eexist_or_einval, route_msg, take_over,
  note_installed, install, withdraw, reconcile,
}
use v4_with_v6_nh.FreeBsd.Daemon.Laws.{
  IsRouting, IsWorking, IsStable, target, IsSynced, refreshed, reconcile-some, reconcile-none,
}
use v4_with_v6_nh.FreeBsd.Daemon.Follow.{
  IsAttempt, route_msg-IsAttempt, take_over-IsAttempt, refreshed-IsSynced,
}

module _ {K : Type 0} (k : Kernel K) (route : K → Option Sockaddr) (laws : IsRouting k route)
    (has_default : K → Bool) (works : IsWorking k route has_default) where
  -- The route leads to `gw`, and the daemon knows it.
  pub record Leads (ifindex : ℕ) (gw : Addr) (w : World K) : Type 0 where
    pub in_kernel : route w.os ≡ some (fill_gateway ifindex gw)
    pub believed : w.daemon.route_installed ≡ true
    pub noted : w.daemon.installed_gw ≡ gw

  -- Where a refusal means that there is a default route, the second attempt is granted.
  retry_granted :
      (gw : Addr) (p : Option Errno × World K)
      → (p.0 ≢ none → (is_eexist_or_einval p.0 ≡ true) × (has_default p.1.os ≡ true))
      → (take_over k gw false p).0 ≡ none
  unfolding take_over route_msg build_msg
  retry_granted gw (none, w) h = refl
  retry_granted gw (some eexist, w) h = works.changes w.os _ refl (h (λ e. cc)).1
  retry_granted gw (some einval, w) h = works.changes w.os _ refl (h (λ e. cc)).1
  retry_granted gw (some esrch, w) h = cc (h (λ e. cc)).0
  retry_granted gw (some Errno.other, w) h = cc (h (λ e. cc)).0

  -- The attempts of `install` end in a grant.
  take_over-granted :
      (gw : Addr) (b : Bool) (w : World K)
      → (b ≡ true → has_default w.os ≡ true)
      → (take_over k gw b (route_msg k (if b then rtm_change else rtm_add) gw w)).0 ≡ none
  unfolding take_over route_msg build_msg
  take_over-granted gw true w there = works.changes w.os _ refl (there refl)
  take_over-granted gw false w there = retry_granted gw _ (works.adds w.os _ refl)

  note_installed-Leads :
      (gw : Addr) (w : World K) (p : Option Errno × World K)
      → IsAttempt k route laws gw w p
      → p.0 ≡ none
      → Leads w.daemon.ifindex gw (note_installed k gw p)
  note_installed-Leads gw w (none, w') a h = record {
    in_kernel = a.granted refl;
    believed = refl;
    noted = refl;
  }
  note_installed-Leads gw w (some e, w') a h = cc

  install-Leads :
      (gw : Addr) (w : World K)
      → IsSynced k route w
      → (w.daemon.route_installed ≡ true → length w.daemon.installed_gw ≡ length gw)
      → Leads w.daemon.ifindex gw (install k gw w)
  unfolding install
  install-Leads gw w sync sizes =
      elim (Bool-cases (w.daemon.route_installed && memcmp_eq w.daemon.installed_gw gw)) [
        | inl same ↦ rw same (already same)
        | inr differs ↦ rw differs (
            note_installed-Leads gw w _
              (take_over-IsAttempt k route laws gw w w.daemon.route_installed _
                (route_msg-IsAttempt k route laws _ gw w (ne_delete w.daemon.route_installed)))
              (take_over-granted gw w.daemon.route_installed w
                (λ on. works.present w.os (sync.agrees on))))
      ]
    where
      ne_delete : (b : Bool) → (if b then rtm_change else rtm_add) ≢ rtm_delete
      ne_delete true e = cc
      ne_delete false e = cc

      already :
          (w.daemon.route_installed && memcmp_eq w.daemon.installed_gw gw) ≡ true
          → Leads w.daemon.ifindex gw w
      already same =
          let on : w.daemon.route_installed ≡ true = ground (arith, same) in
          let eq : memcmp_eq w.daemon.installed_gw gw ≡ true = ground (arith, same) in
          let gws = memcmp_eq_iff w.daemon.installed_gw gw (sizes on) eq in
          record {
            in_kernel = sync.agrees on ∙ ap (λ a. some (fill_gateway w.daemon.ifindex a)) gws;
            believed = on;
            noted = gws;
          }

  removed :
      (w : World K) (m : RouteMsg) → m.kind ≡ rtm_delete → route (k.write w.os m).1 ≢ some m.gateway
  removed w m kind e = elim (Option-cases (k.write w.os m).0) [
    | inl granted ↦ cc (laws.deletes w.os m kind granted)
    | inr (errno, refused) ↦
        let ne = λ (h : (k.write w.os m).0 ≡ none). some_ne refused h in
        laws.missing w.os m kind (works.removes w.os m kind ne) (sym (laws.fails w.os m ne) ∙ e)
  ]
    where
      some_ne : {errno : Errno} → (k.write w.os m).0 ≡ some errno → (k.write w.os m).0 ≡ none → ⊥
      some_ne a b = cc

  pub withdraw-gone :
      (w : World K)
      → w.daemon.route_installed ≡ true
      → route (withdraw k w).os ≢ some (fill_gateway w.daemon.ifindex w.daemon.installed_gw)
  unfolding withdraw route_msg build_msg
  withdraw-gone w on = rw on (removed w (message w) refl)
    where
      message : World K → RouteMsg
      message v =
          build_msg k.abi k.pid v.daemon.ifindex v.daemon.rtseq rtm_delete v.daemon.installed_gw

  pub withdraw-idle : (w : World K) → w.daemon.route_installed ≡ false → (withdraw k w).os ≡ w.os
  unfolding withdraw
  withdraw-idle w off = ground arith

  pub withdraw-believed : (w : World K) → (withdraw k w).daemon.route_installed ≡ false
  unfolding withdraw
  withdraw-believed w = ground arith

  -- On a kernel that grants its messages, if there is a target, the daemon's belief is true, and while a
  -- route was installed the interface has kept its index and the gateway has as many bytes as the target,
  -- one `reconcile` makes the target the gateway of the IPv4 default route, and notes so, whether a default
  -- route was there or not.
  pub reconcile_leads :
      (c : Config) (w : World K) (gw : Addr)
      → IsSynced k route w
      → IsStable k w
      → (w.daemon.route_installed ≡ true → length w.daemon.installed_gw ≡ length gw)
      → target k c w.os ≡ some gw
      → let w' = reconcile k c w in
        (route w'.os ≡ some (fill_gateway (k.if_nametoindex w.os) gw))
        × (w'.daemon.route_installed ≡ true)
        × (w'.daemon.installed_gw ≡ gw)
  reconcile_leads c w gw sync stable sizes e =
      let l =
        install-Leads gw (refreshed k w) (refreshed-IsSynced k route laws w sync stable) sizes in
      rw (reconcile-some k c w e) (l.in_kernel, l.believed, l.noted)

  -- On a kernel that grants its messages, if the interface is there, with the index that it had while a
  -- route was installed, and there is no target, one `reconcile` leaves no route of the daemon's; where
  -- it had installed none, nothing of the system is touched.
  pub reconcile_ceases :
      (c : Config) (w : World K)
      → IsStable k w
      → k.if_nametoindex w.os ≢ 0
      → target k c w.os ≡ none
      → let w' = reconcile k c w in
        (w'.daemon.route_installed ≡ false)
        × (w.daemon.route_installed ≡ true
            → route w'.os ≢ some (fill_gateway (k.if_nametoindex w.os) w.daemon.installed_gw))
        × (w.daemon.route_installed ≡ false → w'.os ≡ w.os)
  reconcile_ceases c w stable up e = rw (reconcile-none k c w up e) (
    withdraw-believed (refreshed k w),
    withdraw-gone (refreshed k w),
    withdraw-idle (refreshed k w),
  )
