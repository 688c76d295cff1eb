-- ===== src/Linux/Daemon/Idle.antt =====
-- The daemon's own route is no reason to act (host/v4gwd.py `sentinel_present`, `reconcile`).
use mathlib.Core.Path.{subst, fun_ext}
use v4_with_v6_nh.Common.{
  ℕ, ◌≡◌, refl, sym, ap, ◌∙◌, Bool, true, false, Option, none, some, List, [], ◌∷◌, arith, inl, inr,
  Bool-cases, Option-cases,
}
use v4_with_v6_nh.Common.Text.Laws.{strcmp_eq_refl}
use v4_with_v6_nh.Linux.Routes.{
  Text, Route, same_text, is_usable, nud_state, default_routes, is_sentinel, any_sentinel,
  sentinel_present,
}
use v4_with_v6_nh.Linux.Daemon.{
  Kernel, Config, Interface, World, head_of, active, nud, noted_via, install, withdraw_active,
  reconcile,
}
use v4_with_v6_nh.Linux.Daemon.Laws.{
  foreign, IsRouting, target, with_index, reconcile-manage, manage-none, manage-some,
  withdraw_active-off, withdraw_active-route, install-same, install-route, follow-usable,
}
use v4_with_v6_nh.Linux.Daemon.Converge.{IsSynced}
use v4_with_v6_nh.Linux.Daemon.Notes.{reconcile-no_mac, reconcile-notes}

-- A sentinel is a foreign route.
any_sentinel-foreign :
    (t : Text) (index : Option ℕ) (rs : List Route)
    → sentinel_present t index (foreign rs) ≡ sentinel_present t index rs
unfolding sentinel_present default_routes any_sentinel is_sentinel
any_sentinel-foreign t index [] = refl
any_sentinel-foreign t index (r ∷ rs) = ground (arith, any_sentinel-foreign t index rs)

module _ {K : Type 0} (kernel : Kernel K) (c : Config) where
  -- What the daemon reads is the same, but for routes of its own.
  pub record IsSameView (os os' : K) : Type 0 where
    pub links : (name : Text) → kernel.link_lookup os' name ≡ kernel.link_lookup os name
    pub routes4 : foreign (kernel.routes4 os') ≡ foreign (kernel.routes4 os)
    pub routes6 : kernel.routes6 os' ≡ kernel.routes6 os
    pub neighbors6 :
        (index : Option ℕ) (gw : Text)
        → kernel.neighbors6 os' index gw ≡ kernel.neighbors6 os index gw

  IsSameView-refl : (os : K) → IsSameView os os
  IsSameView-refl os = record {
    links = λ n. refl;
    routes4 = refl;
    routes6 = refl;
    neighbors6 = λ i gw. refl;
  }

  -- The daemon's operations on its IPv4 route change no other route, and no neighbour of IPv6.
  pub record IsOwn : Type 0 where
    pub replace_view :
        (i : ℕ) (os : K) (gw : Text)
        → IsSameView os (kernel.replace_route os (some i) c.metric gw).1
    pub del_view : (i : ℕ) (os : K) → IsSameView os (kernel.del_route os (some i) c.metric).1

  same_nud :
      {os os' : K} (i : ℕ)
      → IsSameView os os'
      → nud kernel c (some i) os' ≡ nud kernel c (some i) os
  unfolding nud
  same_nud i v = fun_ext (λ gw. ap nud_state (v.neighbors6 (some i) gw))

  same_sentinel :
      {os os' : K} (i : ℕ)
      → IsSameView os os'
      → sentinel_present c.sentinel (some i) (kernel.routes4 os')
        ≡ sentinel_present c.sentinel (some i) (kernel.routes4 os)
  same_sentinel {os} {os'} i v =
      sym (any_sentinel-foreign c.sentinel (some i) (kernel.routes4 os'))
      ∙ ap (sentinel_present c.sentinel (some i)) v.routes4
      ∙ any_sentinel-foreign c.sentinel (some i) (kernel.routes4 os)

  same_target :
      {os os' : K} (i : ℕ) → IsSameView os os' → target kernel c i os' ≡ target kernel c i os
  unfolding target
  same_target i v = rw (same_sentinel i v, same_nud i v, v.routes6) refl

  -- A step of the daemon that changes no more than its route.
  record IsStep (i : ℕ) (w w' : World K) : Type 0 where
    named : w'.iface.name ≡ w.iface.name
    indexed : w'.iface.index ≡ some i
    view : IsSameView w.os w'.os

  noted_via-IsStep :
      (i : ℕ) (w : World K) (gw : Text) (r : Bool × K)
      → IsSameView w.os r.1
      → IsStep i w (noted_via kernel c gw (with_index kernel c i w).iface r)
  noted_via-IsStep i w gw (true, os) v = record { named = refl; indexed = refl; view = v }
  noted_via-IsStep i w gw (false, os) v = record { named = refl; indexed = refl; view = v }

  module _ (own : IsOwn) (native : c.static_arp ≡ false) where
    install-IsStep :
        (i : ℕ) (gw : Text) (w : World K)
        → IsStep i w (install kernel c gw (with_index kernel c i w))
    install-IsStep i gw w =
        let v = with_index kernel c i w in
        elim (Bool-cases (same_text w.iface.installed_via (some gw))) [
          | inl same ↦
              subst (IsStep i w) (sym (install-same kernel c gw v native same))
                (record { named = refl; indexed = refl; view = IsSameView-refl w.os })
          | inr differs ↦
              subst (IsStep i w) (sym (install-route kernel c gw v native differs))
                (noted_via-IsStep i w gw _ (own.replace_view i w.os gw))
        ]

    withdraw_active-IsStep :
        (i : ℕ) (w : World K) → IsStep i w (withdraw_active kernel c (with_index kernel c i w))
    withdraw_active-IsStep i w =
        let v = with_index kernel c i w in
        elim (Bool-cases (active v.iface)) [
          | inl on ↦
              subst (IsStep i w) (sym (withdraw_active-route kernel c v native on))
                (record { named = refl; indexed = refl; view = own.del_view i w.os })
          | inr off ↦
              subst (IsStep i w) (sym (withdraw_active-off kernel c v off))
                (record { named = refl; indexed = refl; view = IsSameView-refl w.os })
        ]

    -- The interface is there, and the router that is selected is usable.
    abbrev IsReady : ℕ → World K → Type 0
    IsReady i w =
        (head_of (kernel.link_lookup w.os w.iface.name) ≡ some i)
        × ((gw : Text)
            → target kernel c i w.os ≡ some gw
            → is_usable (nud kernel c (some i) w.os gw) ≡ true)

    reconcile-IsStep : (i : ℕ) (w : World K) → IsReady i w → IsStep i w (reconcile kernel c w)
    reconcile-IsStep i w (found, usable) =
        subst (IsStep i w) (sym (reconcile-manage kernel c i w found))
          (elim (Option-cases (target kernel c i w.os)) [
            | inl out ↦
                subst (IsStep i w) (sym (manage-none kernel c i w out)) (withdraw_active-IsStep i w)
            | inr (gw, to) ↦
                subst (IsStep i w)
                  (sym
                    (manage-some kernel c i w gw to ∙ follow-usable kernel c gw _ (usable gw to)))
                  (install-IsStep i gw w)
          ])

    restored : (i : ℕ) (w : World K) → w.iface.index ≡ some i → with_index kernel c i w ≡ w
    restored i w e = ap (λ x. record w { iface = record (w.iface) { index = x } }) (sym e)

    off_without :
        (f : Interface) → f.installed_via ≡ none → f.installed_mac ≡ none → active f ≡ false
    unfolding active
    off_without f a b = rw (a, b) refl

    same_text-of : (t : Option Text) (gw : Text) → t ≡ some gw → same_text t (some gw) ≡ true
    same_text-of t gw e = rw e (strcmp_eq_refl gw)

    -- At the target there is nothing to do.
    reconcile_at_target :
        (i : ℕ) (w : World K)
        → IsReady i w
        → w.iface.index ≡ some i
        → w.iface.installed_mac ≡ none
        → w.iface.installed_via ≡ target kernel c i w.os
        → reconcile kernel c w ≡ w
    reconcile_at_target i w (found, usable) indexed no_mac there =
        reconcile-manage kernel c i w found ∙ elim (Option-cases (target kernel c i w.os)) [
          | inl out ↦
              manage-none kernel c i w out
              ∙ withdraw_active-off kernel c _ (off_without _ (there ∙ out) no_mac)
              ∙ restored i w indexed
          | inr (gw, to) ↦
              manage-some kernel c i w gw to
              ∙ follow-usable kernel c gw _ (usable gw to)
              ∙ install-same kernel c gw _ native (same_text-of _ gw (there ∙ to))
              ∙ restored i w indexed
        ]

    -- With RTA_VIA, where the interface is there, the selected router is usable, the daemon knows its
    -- route and the kernel grants what replaces it: a second `reconcile` changes nothing and asks nothing
    -- of the kernel, so the daemon's own route, which wakes it, does not keep it busy.
    pub reconcile_settles :
        (via : ℕ → K → Option Text) (laws : IsRouting kernel c via) (i : ℕ) (w : World K)
        → (head_of (kernel.link_lookup w.os w.iface.name) ≡ some i)
        → ((gw : Text)
            → target kernel c i w.os ≡ some gw
            → is_usable (nud kernel c (some i) w.os gw) ≡ true)
        → IsSynced via i w
        → ((os : K) (gw : Text) → (kernel.replace_route os (some i) c.metric gw).0 ≡ true)
        → reconcile kernel c (reconcile kernel c w) ≡ reconcile kernel c w
    reconcile_settles via laws i w found usable s granted =
        let step = reconcile-IsStep i w (found, usable) in
        let same = same_target i step.view in
        reconcile_at_target i (reconcile kernel c w)
          (
            ap head_of (step.view.links _ ∙ ap (kernel.link_lookup w.os) step.named) ∙ found,
            λ gw to. ap (λ n. is_usable (n gw)) (same_nud i step.view) ∙ usable gw (sym same ∙ to),
          )
          step.indexed (reconcile-no_mac kernel c native i w found s.no_mac)
          (reconcile-notes kernel c native i w found s.no_mac granted ∙ sym same)
