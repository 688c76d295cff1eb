-- ===== src/Linux/Daemon/Converge.antt =====
-- The daemon's IPv4 route after one `reconcile` (host/v4gwd.py) with RTA_VIA.
use v4_with_v6_nh.Common.{
  ℕ, ◌≡◌, ◌≢◌, refl, sym, ◌∙◌, Bool, true, false, Option, none, some, inl, inr, Bool-cases,
  Option-cases,
}
use mathlib.Core.Path.{subst}
use v4_with_v6_nh.Linux.Routes.{Text, same_text}
use v4_with_v6_nh.Linux.Daemon.{
  Kernel, Config, Interface, World, head_of, active, kick_nud, noted_via, install, withdraw_active,
  reconcile,
}
use v4_with_v6_nh.Linux.Daemon.Laws.{
  IsRouting, Deletable, deleted, target, with_index, reconcile-manage, manage-none, manage-some,
  withdraw_active-off, withdraw_active-route, install-same, install-route,
}
use v4_with_v6_nh.Linux.Daemon.Notes.{follow-install}

-- The daemon with RTA_VIA knows the gateway of its route.
pub record IsSynced {K : Type 0} (via : ℕ → K → Option Text) (i : ℕ) (w : World K) : Type 0 where
  pub agrees : via i w.os ≡ w.iface.installed_via
  pub no_mac : w.iface.installed_mac ≡ none
  pub indexed : w.iface.installed_via ≢ none → w.iface.index ≡ some i

module _ {K : Type 0} (kernel : Kernel K) (c : Config) (via : ℕ → K → Option Text)
    (laws : IsRouting kernel c via) (free : Deletable kernel c via)
    (native : c.static_arp ≡ false) where
  noted_via-IsSynced :
      (i : ℕ) (gw : Text) (f : Interface) (r : Bool × K)
      → f.installed_mac ≡ none
      → f.index ≡ some i
      → (r.0 ≡ true → via i r.1 ≡ some gw)
      → (r.0 ≡ false → via i r.1 ≡ f.installed_via)
      → IsSynced via i (noted_via kernel c gw f r)
  noted_via-IsSynced i gw f (true, os) no_mac indexed on off = record {
    agrees = on refl;
    no_mac = no_mac;
    indexed = λ h. indexed;
  }
  noted_via-IsSynced i gw f (false, os) no_mac indexed on off = record {
    agrees = off refl;
    no_mac = no_mac;
    indexed = λ h. indexed;
  }

  install-IsSynced :
      (i : ℕ) (gw : Text) (w : World K)
      → IsSynced via i w
      → IsSynced via i (install kernel c gw (with_index kernel c i w))
  install-IsSynced i gw w s = elim (Bool-cases (same_text w.iface.installed_via (some gw))) [
    | inl same ↦
        subst (IsSynced via i)
          (sym (install-same kernel c gw (with_index kernel c i w) native same))
          (record { agrees = s.agrees; no_mac = s.no_mac; indexed = λ h. refl })
    | inr differs ↦
        subst (IsSynced via i)
          (sym (install-route kernel c gw (with_index kernel c i w) native differs))
          (noted_via-IsSynced i gw _ _ s.no_mac refl (laws.replaces i w.os gw)
            (λ off. laws.refuses i w.os gw off ∙ s.agrees))
  ]

  kick_nud-IsSynced :
      (i : ℕ) (gw : Text) (w : World K) → IsSynced via i w → IsSynced via i (kick_nud kernel c gw w)
  unfolding kick_nud
  kick_nud-IsSynced i gw w s = record {
    agrees = laws.solicits i w.os w.iface.name gw ∙ s.agrees;
    no_mac = s.no_mac;
    indexed = s.indexed;
  }

  withdraw_active-IsSynced :
      (i : ℕ) (w : World K)
      → IsSynced via i w
      → IsSynced via i (withdraw_active kernel c (with_index kernel c i w))
  withdraw_active-IsSynced i w s =
      let v = with_index kernel c i w in
      elim (Bool-cases (active v.iface)) [
        | inl on ↦
            subst (IsSynced via i) (sym (withdraw_active-route kernel c v native on)) (record {
              agrees = deleted kernel c via laws free i w.os;
              no_mac = s.no_mac;
              indexed = λ h. refl;
            })
        | inr off ↦
            subst (IsSynced via i) (sym (withdraw_active-off kernel c v off))
              (record { agrees = s.agrees; no_mac = s.no_mac; indexed = λ h. refl })
      ]

  -- A `reconcile` with the interface there keeps the daemon's knowledge of its route.
  pub reconcile-IsSynced :
      (i : ℕ) (w : World K)
      → head_of (kernel.link_lookup w.os w.iface.name) ≡ some i
      → IsSynced via i w
      → IsSynced via i (reconcile kernel c w)
  reconcile-IsSynced i w found s =
      subst (IsSynced via i) (sym (reconcile-manage kernel c i w found))
        (elim (Option-cases (target kernel c i w.os)) [
          | inl out ↦
              subst (IsSynced via i) (sym (manage-none kernel c i w out))
                (withdraw_active-IsSynced i w s)
          | inr (gw, to) ↦ subst (IsSynced via i) (sym (manage-some kernel c i w gw to)) (
              follow-install kernel c native (IsSynced via i) i gw w (install-IsSynced i gw w s)
                (install-IsSynced i gw (kick_nud kernel c gw w) (kick_nud-IsSynced i gw w s)))
        ])
