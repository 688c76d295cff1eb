-- ===== src/Linux/Daemon/Notes.antt =====
-- What the daemon notes with RTA_VIA (host/v4gwd.py `install`, `withdraw`, `reconcile`).
use v4_with_v6_nh.Common.{
  ℕ, ◌≡◌, refl, sym, ap, ◌∙◌, Bool, true, false, Option, none, some, inl, inr, Bool-cases,
  Option-cases, ◌||◌,
}
use mathlib.Core.Path.{subst}
use v4_with_v6_nh.Linux.Routes.{Text, same_text, is_usable}
use v4_with_v6_nh.Linux.Daemon.{
  Kernel, Config, Interface, World, head_of, is_not_none, active, nud, kick_nud, noted_via, install,
  withdraw_active, follow, reconcile,
}
use v4_with_v6_nh.Linux.Daemon.Laws.{
  target, with_index, reconcile-manage, manage-none, manage-some, withdraw_active-off,
  withdraw_active-route, install-same, install-route, same_text-some, follow-usable, follow-kicks,
}

pub is_not_none-none : (t : Option Text) → is_not_none t ≡ false → t ≡ none
is_not_none-none none e = refl
is_not_none-none (some t) e = cc

module _ {K : Type 0} (kernel : Kernel K) (c : Config) (native : c.static_arp ≡ false) where
  pub active-via : (i : Interface) → i.installed_mac ≡ none → active i ≡ is_not_none i.installed_via
  unfolding active
  active-via i no_mac = rw no_mac (or_false (is_not_none i.installed_via))
    where
      or_false : (b : Bool) → (b || false) ≡ b
      or_false true = refl
      or_false false = refl

  noted_via-granted :
      (i : ℕ) (gw : Text) (f : Interface) (r : Bool × K)
      → r.0 ≡ true
      → (noted_via kernel c gw f r).iface.installed_via ≡ some gw
  noted_via-granted i gw f (true, os) ok = refl
  noted_via-granted i gw f (false, os) ok = cc

  noted_via-no_mac :
      (gw : Text) (f : Interface) (r : Bool × K)
      → f.installed_mac ≡ none
      → (noted_via kernel c gw f r).iface.installed_mac ≡ none
  noted_via-no_mac gw f (true, os) no_mac = no_mac
  noted_via-no_mac gw f (false, os) no_mac = no_mac

  install-notes :
      (i : ℕ) (gw : Text) (w : World K)
      → ((os : K) → (kernel.replace_route os (some i) c.metric gw).0 ≡ true)
      → (install kernel c gw (with_index kernel c i w)).iface.installed_via ≡ some gw
  install-notes i gw w granted = elim (Bool-cases (same_text w.iface.installed_via (some gw))) [
    | inl same ↦
        ap (λ v. v.iface.installed_via)
          (install-same kernel c gw (with_index kernel c i w) native same)
        ∙ same_text-some w.iface.installed_via gw same
    | inr differs ↦
        ap (λ v. v.iface.installed_via)
          (install-route kernel c gw (with_index kernel c i w) native differs)
        ∙ noted_via-granted i gw _ _ (granted w.os)
  ]

  install-no_mac :
      (i : ℕ) (gw : Text) (w : World K)
      → w.iface.installed_mac ≡ none
      → (install kernel c gw (with_index kernel c i w)).iface.installed_mac ≡ none
  install-no_mac i gw w no_mac = elim (Bool-cases (same_text w.iface.installed_via (some gw))) [
    | inl same ↦
        ap (λ v. v.iface.installed_mac)
          (install-same kernel c gw (with_index kernel c i w) native same)
        ∙ no_mac
    | inr differs ↦
        ap (λ v. v.iface.installed_mac)
          (install-route kernel c gw (with_index kernel c i w) native differs)
        ∙ noted_via-no_mac gw _ _ no_mac
  ]

  pub kick_nud-index :
      (i : ℕ) (gw : Text) (w : World K)
      → kick_nud kernel c gw (with_index kernel c i w)
        ≡ with_index kernel c i (kick_nud kernel c gw w)
  unfolding kick_nud
  kick_nud-index i gw w = refl

  -- `follow` is an install, after a datagram or without one.
  pub follow-install :
      (P : World K → Type 0) (i : ℕ) (gw : Text) (w : World K)
      → P (install kernel c gw (with_index kernel c i w))
      → P (install kernel c gw (with_index kernel c i (kick_nud kernel c gw w)))
      → P (follow kernel c gw (with_index kernel c i w))
  follow-install P i gw w at_once after_kick =
      let v = with_index kernel c i w in
      elim (Bool-cases (is_usable (nud kernel c (some i) w.os gw))) [
        | inl ok ↦ subst P (sym (follow-usable kernel c gw v ok)) at_once
        | inr out ↦
            subst P
              (sym
                (follow-kicks kernel c gw v out ∙ ap (install kernel c gw) (kick_nud-index i gw w)))
              after_kick
      ]

  kick_nud-no_mac :
      (gw : Text) (w : World K)
      → w.iface.installed_mac ≡ none
      → (kick_nud kernel c gw w).iface.installed_mac ≡ none
  unfolding kick_nud
  kick_nud-no_mac gw w no_mac = no_mac

  -- After the withdrawal the daemon notes nothing, whether the delete was granted or refused.
  pub withdraw_active-forgets :
      (i : ℕ) (w : World K)
      → w.iface.installed_mac ≡ none
      → let w' = withdraw_active kernel c (with_index kernel c i w) in
        (w'.iface.installed_via ≡ none) × (w'.iface.installed_mac ≡ none)
  withdraw_active-forgets i w no_mac =
      let v = with_index kernel c i w in
      let P : World K → Type 0 =
        λ x. (x.iface.installed_via ≡ none) × (x.iface.installed_mac ≡ none) in
      elim (Bool-cases (active v.iface)) [
        | inl on ↦ subst P (sym (withdraw_active-route kernel c v native on)) (refl, no_mac)
        | inr off ↦
            let out =
              is_not_none-none w.iface.installed_via (sym (active-via v.iface no_mac) ∙ off) in
            subst P (sym (withdraw_active-off kernel c v off)) (out, no_mac)
      ]

  pub reconcile-no_mac :
      (i : ℕ) (w : World K)
      → head_of (kernel.link_lookup w.os w.iface.name) ≡ some i
      → w.iface.installed_mac ≡ none
      → (reconcile kernel c w).iface.installed_mac ≡ none
  reconcile-no_mac i w found no_mac =
      let P : World K → Type 0 = λ v. v.iface.installed_mac ≡ none in
      subst P (sym (reconcile-manage kernel c i w found))
        (elim (Option-cases (target kernel c i w.os)) [
          | inl out ↦
              subst P (sym (manage-none kernel c i w out)) (withdraw_active-forgets i w no_mac).1
          | inr (gw, to) ↦ subst P (sym (manage-some kernel c i w gw to)) (
              follow-install P i gw w (install-no_mac i gw w no_mac)
                (install-no_mac i gw (kick_nud kernel c gw w) (kick_nud-no_mac gw w no_mac)))
        ])

  pub reconcile-notes :
      (i : ℕ) (w : World K)
      → head_of (kernel.link_lookup w.os w.iface.name) ≡ some i
      → w.iface.installed_mac ≡ none
      → ((os : K) (gw : Text) → (kernel.replace_route os (some i) c.metric gw).0 ≡ true)
      → (reconcile kernel c w).iface.installed_via ≡ target kernel c i w.os
  reconcile-notes i w found no_mac granted =
      ap (λ v. v.iface.installed_via) (reconcile-manage kernel c i w found)
      ∙ elim (Option-cases (target kernel c i w.os)) [
        | inl out ↦
            ap (λ v. v.iface.installed_via) (manage-none kernel c i w out)
            ∙ (withdraw_active-forgets i w no_mac).0
            ∙ sym out
        | inr (gw, to) ↦
            ap (λ v. v.iface.installed_via) (manage-some kernel c i w gw to)
            ∙ follow-install (λ v. v.iface.installed_via ≡ some gw) i gw w
                (install-notes i gw w (λ os. granted os gw))
                (install-notes i gw (kick_nud kernel c gw w) (λ os. granted os gw))
            ∙ sym to
      ]
