-- ===== src/Linux/Run/Clear.antt =====
-- The routes of the daemon with RTA_VIA that it does not know of (host/v4gwd.py `reconcile`): one interface
-- at a time.
pub mod Leaves
use mathlib.Core.Path.{subst}
use v4_with_v6_nh.Common.{
  ℕ, ◌≡◌, ◌≢◌, refl, sym, ap, ◌∙◌, Bool, true, false, Option, none, some, inl, inr, Bool-cases,
  Option-cases,
}
use v4_with_v6_nh.Linux.Routes.{Text, same_text, is_usable}
use v4_with_v6_nh.Linux.Daemon.{
  Kernel, Config, Interface, World, head_of, is_not_none, active, nud, kick_nud, noted_via, install,
  withdraw_active, follow, forgotten, reconcile,
}
use v4_with_v6_nh.Linux.Daemon.Laws.{
  IsRouting, Deletable, deleted, target, with_index, reconcile-manage, reconcile-gone, manage-none,
  manage-some, withdraw_active-off, withdraw_active-route, install-same, install-route,
  same_text-some,
}
use v4_with_v6_nh.Linux.Daemon.Notes.{follow-install, active-via, is_not_none-none}

-- An interface keeps its index, no two have one index, and a route goes with its interface.
pub record IsNaming {K : Type 0} (kernel : Kernel K) (via : ℕ → K → Option Text)
    (index_of : Text → ℕ) : Type 0 where
  pub found :
      (os : K) (n : Text) (i : ℕ) → head_of (kernel.link_lookup os n) ≡ some i → i ≡ index_of n
  pub gone :
      (os : K) (n : Text) → head_of (kernel.link_lookup os n) ≡ none → via (index_of n) os ≡ none
  pub distinct : (m n : Text) → m ≢ n → index_of m ≢ index_of n

module _ {K : Type 0} (kernel : Kernel K) (c : Config) (via : ℕ → K → Option Text)
    (laws : IsRouting kernel c via) (free : Deletable kernel c via) (index_of : Text → ℕ)
    (naming : IsNaming kernel via index_of) (native : c.static_arp ≡ false) where
  -- A route of the daemon's at the interface is one that it knows.
  pub record IsKnown (w : World K) : Type 0 where
    pub none_stray : w.iface.installed_via ≡ none → via (index_of w.iface.name) w.os ≡ none
    pub no_mac : w.iface.installed_mac ≡ none
    pub indexed : w.iface.installed_via ≢ none → w.iface.index ≡ some (index_of w.iface.name)

  -- A step of one interface, which touches no route of another.
  pub record IsKept (w w' : World K) : Type 0 where
    pub named : w'.iface.name ≡ w.iface.name
    pub known : IsKnown w'
    pub others : (j : ℕ) → index_of w.iface.name ≢ j → via j w'.os ≡ via j w.os

  noted_via-IsKept :
      (w : World K) (gw : Text) (r : Bool × K)
      → IsKnown w
      → let i = index_of w.iface.name in
        (r.0 ≡ false → via i r.1 ≡ via i w.os)
        → ((j : ℕ) → i ≢ j → via j r.1 ≡ via j w.os)
        → IsKept w (noted_via kernel c gw (with_index kernel c i w).iface r)
  noted_via-IsKept w gw (true, os) k off others = record {
    named = refl;
    known = record { none_stray = λ e. cc; no_mac = k.no_mac; indexed = λ h. refl };
    others = others;
  }
  noted_via-IsKept w gw (false, os) k off others = record {
    named = refl;
    known = record {
      none_stray = λ e. off refl ∙ k.none_stray e;
      no_mac = k.no_mac;
      indexed = λ h. refl;
    };
    others = others;
  }

  install-IsKept :
      (gw : Text) (w : World K)
      → IsKnown w
      → IsKept w (install kernel c gw (with_index kernel c (index_of w.iface.name) w))
  install-IsKept gw w k =
      let i = index_of w.iface.name in
      let v = with_index kernel c i w in
      elim (Bool-cases (same_text w.iface.installed_via (some gw))) [
        | inl same ↦ subst (IsKept w) (sym (install-same kernel c gw v native same)) (record {
          named = refl;
          known = record { none_stray = k.none_stray; no_mac = k.no_mac; indexed = λ h. refl };
          others = λ j ne. refl;
        })
        | inr differs ↦ subst (IsKept w) (sym (install-route kernel c gw v native differs)) (
            noted_via-IsKept w gw _ k (laws.refuses i w.os gw)
              (λ j ne. laws.others_replace i j w.os gw ne))
      ]

  kick_nud-IsKept : (gw : Text) (w : World K) → IsKnown w → IsKept w (kick_nud kernel c gw w)
  unfolding kick_nud
  kick_nud-IsKept gw w k = record {
    named = refl;
    known = record {
      none_stray = λ e. laws.solicits _ w.os w.iface.name gw ∙ k.none_stray e;
      no_mac = k.no_mac;
      indexed = k.indexed;
    };
    others = λ j ne. laws.solicits j w.os w.iface.name gw;
  }

  IsKept-trans : (u v w : World K) → IsKept u v → IsKept v w → IsKept u w
  IsKept-trans u v w a b = record {
    named = b.named ∙ a.named;
    known = b.known;
    others = λ j ne. b.others j (λ e. ne (sym (ap index_of a.named) ∙ e)) ∙ a.others j ne;
  }

  -- What is withdrawn: after it the daemon knows of no route.
  pub withdraw_active-IsKept :
      (w : World K)
      → IsKnown w
      → let w' = withdraw_active kernel c (with_index kernel c (index_of w.iface.name) w) in
        IsKept w w' × (w'.iface.installed_via ≡ none)
  withdraw_active-IsKept w k =
      let i = index_of w.iface.name in
      let v = with_index kernel c i w in
      let P : World K → Type 0 = λ x. IsKept w x × (x.iface.installed_via ≡ none) in
      elim (Bool-cases (active v.iface)) [
        | inl on ↦ subst P (sym (withdraw_active-route kernel c v native on)) (
          record {
            named = refl;
            known = record {
              none_stray = λ e. deleted kernel c via laws free i w.os;
              no_mac = k.no_mac;
              indexed = λ h. refl;
            };
            others = λ j ne. laws.others_delete i j w.os ne;
          },
          refl,
        )
        | inr off ↦
            let out =
              is_not_none-none w.iface.installed_via
                (sym (active-via kernel c native v.iface k.no_mac) ∙ off) in
            subst P (sym (withdraw_active-off kernel c v off)) (
              record {
                named = refl;
                known = record {
                  none_stray = k.none_stray;
                  no_mac = k.no_mac;
                  indexed = λ h. refl;
                };
                others = λ j ne. refl;
              },
              out,
            )
      ]

  -- The interface with its index as the daemon has it: what is not indexed is not active.
  pub withdraw_known :
      (w : World K)
      → IsKnown w
      → let w' = withdraw_active kernel c w in IsKept w w' × (w'.iface.installed_via ≡ none)
  withdraw_known w k = elim (Option-cases w.iface.installed_via) [
    | inl out ↦
        let off = active-via kernel c native w.iface k.no_mac ∙ ap is_not_none out in
        subst (λ x. IsKept w x × (x.iface.installed_via ≡ none))
          (sym (withdraw_active-off kernel c w off))
          (record { named = refl; known = k; others = λ j ne. refl }, out)
    | inr (gw, on) ↦
        let same = k.indexed (λ e. some_ne on e) in
        subst
          (λ x.
            let w' = withdraw_active kernel c x in IsKept w w' × (w'.iface.installed_via ≡ none))
          (ap (λ x. record w { iface = record (w.iface) { index = x } }) (sym same))
          (withdraw_active-IsKept w k)
  ]
    where
      some_ne : {t : Option Text} {gw : Text} → t ≡ some gw → t ≡ none → ⊥
      some_ne a b = cc

  forgotten-IsKept :
      (w : World K)
      → head_of (kernel.link_lookup w.os w.iface.name) ≡ none
      → IsKept w (forgotten kernel c (record w { iface = record (w.iface) { index = none } }))
  forgotten-IsKept w gone = record {
    named = refl;
    known = record {
      none_stray = λ e. naming.gone w.os w.iface.name gone;
      no_mac = refl;
      indexed = λ h. absurd (h refl);
    };
    others = λ j ne. refl;
  }

  install-after_kick :
      (gw : Text) (w : World K)
      → IsKnown (kick_nud kernel c gw w)
      → let v = kick_nud kernel c gw w in
        IsKept v (install kernel c gw (with_index kernel c (index_of w.iface.name) v))
  unfolding kick_nud
  install-after_kick gw w k = install-IsKept gw (kick_nud kernel c gw w) k

  pub reconcile-IsKept : (w : World K) → IsKnown w → IsKept w (reconcile kernel c w)
  reconcile-IsKept w k = elim (Option-cases (head_of (kernel.link_lookup w.os w.iface.name))) [
    | inl gone ↦ subst (IsKept w) (sym (reconcile-gone kernel c w gone)) (forgotten-IsKept w gone)
    | inr (n, there) ↦
        let i = index_of w.iface.name in
        let found = there ∙ ap some (naming.found w.os w.iface.name n there) in
        subst (IsKept w) (sym (reconcile-manage kernel c i w found))
          (elim (Option-cases (target kernel c i w.os)) [
            | inl out ↦
                subst (IsKept w) (sym (manage-none kernel c i w out)) (withdraw_active-IsKept w k).0
            | inr (gw, to) ↦
                let kicked = kick_nud-IsKept gw w k in
                subst (IsKept w) (sym (manage-some kernel c i w gw to)) (
                  follow-install kernel c native (IsKept w) i gw w (install-IsKept gw w k) (
                    IsKept-trans w (kick_nud kernel c gw w) _ kicked
                      (install-after_kick gw w kicked.known)))
          ])
  ]
