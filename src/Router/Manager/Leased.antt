-- ===== src/Router/Manager/Leased.antt =====
-- Each operation of the manager keeps the return routes to leased addresses
-- (router/debian/usr/local/sbin/v4gwrd.py `evaluate`, `reconcile_all`, `on_lease`, `on_release`).
use mathlib.Core.Path.{subst}
use v4_with_v6_nh.Common.{
  ℕ, ◌≡◌, refl, sym, true, false, Option, none, some, List, [], ◌∷◌, arith, inl, inr, Bool-cases,
  Option-cases,
}
use v4_with_v6_nh.Router.Hosts.{Text, Host, Entry, get, pop}
use v4_with_v6_nh.Router.Hosts.Laws.{put-Holds}
use v4_with_v6_nh.Router.NextHop.{Library}
use v4_with_v6_nh.Router.Manager.{
  Kernel, Manager, head_of, persist, evaluate_host, store_host, evaluate, evaluate_all,
  reconcile_all, is_changed, fresh_host, enter, enter_lease, on_lease, on_release,
}
use v4_with_v6_nh.Router.Manager.Stray.{
  IsRouting, Deletable, IsLeased, stepped, withdrawn, released, persist-IsLeased,
  evaluate_host-keeps, evaluate_host-ip4,
}

module _ {K : Type 0} (lib : Library) (kernel : Kernel K) where
  pub evaluate-absent :
      (mac : Text) (m : Manager K) → get mac m.hosts ≡ none → evaluate lib kernel mac m ≡ m
  unfolding evaluate
  evaluate-absent mac m e = ground arith

  pub evaluate-gone :
      (mac : Text) (m : Manager K) (h : Host)
      → get mac m.hosts ≡ some h
      → head_of (kernel.link_lookup m.os h.iface) ≡ none
      → evaluate lib kernel mac m ≡ m
  unfolding evaluate
  evaluate-gone mac m h e gone = ground arith

  pub evaluate-there :
      (mac : Text) (m : Manager K) (h : Host) (i : ℕ)
      → get mac m.hosts ≡ some h
      → head_of (kernel.link_lookup m.os h.iface) ≡ some i
      → evaluate lib kernel mac m
        ≡ store_host lib kernel mac m.hosts (evaluate_host lib kernel i mac h m.os)
  unfolding evaluate
  evaluate-there mac m h i e there = ground arith

  pub enter_lease-new :
      (iface mac ip4 : Text) (m : Manager K)
      → get mac m.hosts ≡ none
      → enter_lease lib kernel iface mac ip4 m
        ≡ enter lib kernel mac (fresh_host lib kernel iface ip4) m
  unfolding enter_lease
  enter_lease-new iface mac ip4 m e = ground arith

  pub enter_lease-changed :
      (iface mac ip4 : Text) (m : Manager K) (h : Host)
      → get mac m.hosts ≡ some h
      → is_changed lib kernel h iface ip4 ≡ true
      → enter_lease lib kernel iface mac ip4 m
        ≡ enter lib kernel mac
            (fresh_host lib kernel iface ip4)
            (record m { os = (kernel.del_route m.os h.ip4).1 })
  unfolding enter_lease
  enter_lease-changed iface mac ip4 m h e changed = ground arith

  pub enter_lease-same :
      (iface mac ip4 : Text) (m : Manager K) (h : Host)
      → get mac m.hosts ≡ some h
      → is_changed lib kernel h iface ip4 ≡ false
      → enter_lease lib kernel iface mac ip4 m ≡ enter lib kernel mac h m
  unfolding enter_lease
  enter_lease-same iface mac ip4 m h e same = ground arith

  on_release-absent :
      (mac ip4 : Text) (m : Manager K)
      → get mac m.hosts ≡ none
      → on_release lib kernel mac ip4 m ≡ m
  unfolding on_release
  on_release-absent mac ip4 m e = ground arith

  on_release-there :
      (mac ip4 : Text) (m : Manager K) (h : Host)
      → get mac m.hosts ≡ some h
      → on_release lib kernel mac ip4 m
        ≡ persist lib kernel
            (record { hosts = pop mac m.hosts; os = (kernel.del_route m.os h.ip4).1 })
  unfolding on_release
  on_release-there mac ip4 m h e = ground arith

  module _ (via : Text → K → Option Text) (laws : IsRouting kernel via)
      (free : Deletable kernel via) where
    Leased : Manager K → Type 0
    Leased m = IsLeased lib kernel via laws m

    evaluate-IsLeased : (mac : Text) (m : Manager K) → Leased m → Leased (evaluate lib kernel mac m)
    unfolding Leased
    evaluate-IsLeased mac m leased = elim (Option-cases (get mac m.hosts)) [
      | inl absent ↦ subst Leased (sym (evaluate-absent mac m absent)) leased
      | inr (h, at) ↦ elim (Option-cases (head_of (kernel.link_lookup m.os h.iface))) [
        | inl gone ↦ subst Leased (sym (evaluate-gone mac m h at gone)) leased
        | inr (i, there) ↦ subst Leased (sym (evaluate-there mac m h i at there)) (
            stepped lib kernel via laws mac h _ m.hosts m.os _ at
              (evaluate_host-ip4 lib kernel via laws i mac h m.os)
              (λ x ne. evaluate_host-keeps lib kernel via laws i mac h m.os x ne) leased)
      ]
    ]

    evaluate_all-IsLeased :
        (es : List Entry) (m : Manager K) → Leased m → Leased (evaluate_all lib kernel es m)
    unfolding evaluate_all
    evaluate_all-IsLeased [] m leased = leased
    evaluate_all-IsLeased (e ∷ es) m leased =
        evaluate_all-IsLeased es (evaluate lib kernel e.mac m) (evaluate-IsLeased e.mac m leased)

    pub reconcile_all-IsLeased :
        (m : Manager K)
        → IsLeased lib kernel via laws m
        → IsLeased lib kernel via laws (reconcile_all lib kernel m)
    unfolding reconcile_all Leased
    reconcile_all-IsLeased m leased = evaluate_all-IsLeased m.hosts m leased

    enter_lease-IsLeased :
        (iface mac ip4 : Text) (m : Manager K)
        → Leased m
        → Leased (enter_lease lib kernel iface mac ip4 m)
    unfolding Leased
    enter_lease-IsLeased iface mac ip4 m leased = elim (Option-cases (get mac m.hosts)) [
      | inl absent ↦ subst Leased (sym (enter_lease-new iface mac ip4 m absent)) (λ ip there.
          put-Holds mac ip _ m.hosts (λ h at. absurd (clash absent at)) (leased ip there))
      | inr (h, at) ↦ elim (Bool-cases (is_changed lib kernel h iface ip4)) [
        | inl changed ↦
            subst Leased (sym (enter_lease-changed iface mac ip4 m h at changed))
              (withdrawn lib kernel via laws free mac h _ m.hosts m.os at leased)
        | inr same ↦
            subst Leased (sym (enter_lease-same iface mac ip4 m h at same))
              (stepped lib kernel via laws mac h _ m.hosts m.os m.os at refl (λ x ne. refl) leased)
      ]
    ]
      where
        clash : {o : Option Host} {h : Host} → o ≡ none → o ≡ some h → ⊥
        clash a b = cc

    pub on_lease-IsLeased :
        (iface mac ip4 : Text) (m : Manager K)
        → IsLeased lib kernel via laws m
        → IsLeased lib kernel via laws (on_lease lib kernel iface mac ip4 m)
    unfolding on_lease Leased
    on_lease-IsLeased iface mac ip4 m leased =
        evaluate-IsLeased mac _
          (persist-IsLeased lib kernel via laws _ (enter_lease-IsLeased iface mac ip4 m leased))

    pub on_release-IsLeased :
        (mac ip4 : Text) (m : Manager K)
        → IsLeased lib kernel via laws m
        → IsLeased lib kernel via laws (on_release lib kernel mac ip4 m)
    unfolding Leased
    on_release-IsLeased mac ip4 m leased = elim (Option-cases (get mac m.hosts)) [
      | inl absent ↦ subst Leased (sym (on_release-absent mac ip4 m absent)) leased
      | inr (h, at) ↦ subst Leased (sym (on_release-there mac ip4 m h at)) (
          persist-IsLeased lib kernel via laws _
            (released lib kernel via laws free mac h m.hosts m.os at leased))
    ]
