-- ===== src/Linux/Daemon/Flaws.antt =====
-- What a refused delete leaves (host/v4gwd.py `withdraw`).
use v4_with_v6_nh.Common.{ℕ, ◌≡◌, ◌≢◌, refl, sym, ◌∙◌, true, false, Option, none, some}
use mathlib.Core.Path.{subst}
use v4_with_v6_nh.Linux.Routes.{Text}
use v4_with_v6_nh.Linux.Daemon.{
  Kernel, Config, World, head_of, is_not_none, withdraw_active, reconcile,
}
use v4_with_v6_nh.Linux.Daemon.Laws.{
  IsRouting, target, with_index, reconcile-manage, manage-none, withdraw_active-off,
  withdraw_active-route,
}
use v4_with_v6_nh.Linux.Daemon.Converge.{IsSynced}
use v4_with_v6_nh.Linux.Daemon.Notes.{active-via}

not_none : (t : Option Text) → t ≢ none → is_not_none t ≡ true
not_none none h = absurd (h refl)
not_none (some t) h = refl

module _ {K : Type 0} (kernel : Kernel K) (c : Config) (via : ℕ → K → Option Text)
    (laws : IsRouting kernel c via) (native : c.static_arp ≡ false) where
  -- With RTA_VIA, where the interface is there, the daemon knows its route, no router is left or the
  -- sentinel is gone, and the kernel refuses to delete the route: after one `reconcile` the route leads
  -- where it led before, the daemon notes none, and the withdrawal at the end of the program does nothing.
  pub reconcile_forgets :
      (i : ℕ) (w : World K) (gw : Text)
      → head_of (kernel.link_lookup w.os w.iface.name) ≡ some i
      → IsSynced via i w
      → w.iface.installed_via ≡ some gw
      → target kernel c i w.os ≡ none
      → (kernel.del_route w.os (some i) c.metric).0 ≡ false
      → let w' = reconcile kernel c w in
        (via i w'.os ≡ some gw)
        × (w'.iface.installed_via ≡ none)
        × (withdraw_active kernel c w' ≡ w')
  reconcile_forgets i w gw found s noted out refused =
      let v = with_index kernel c i w in
      let on =
        active-via kernel c native v.iface s.no_mac
        ∙ not_none w.iface.installed_via (λ e. some_ne noted e) in
      let same =
        reconcile-manage kernel c i w found
        ∙ manage-none kernel c i w out
        ∙ withdraw_active-route kernel c v native on in
      subst
        (λ (w' : World K).
          (via i w'.os ≡ some gw)
          × (w'.iface.installed_via ≡ none)
          × (withdraw_active kernel c w' ≡ w'))
        (sym same)
        (
          laws.delete_refuses i w.os refused ∙ s.agrees ∙ noted,
          refl,
          withdraw_active-off kernel c _ (active-via kernel c native _ s.no_mac),
        )
    where
      some_ne : {t : Option Text} {gw : Text} → t ≡ some gw → t ≡ none → ⊥
      some_ne a b = cc
