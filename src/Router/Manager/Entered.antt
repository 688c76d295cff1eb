-- ===== src/Router/Manager/Entered.antt =====
-- What a lease does to the table of hosts (router/debian/usr/local/sbin/v4gwrd.py `on_lease`).
use mathlib.Core.Path.{subst}
use v4_with_v6_nh.Common.{
  ℕ, ◌≡◌, ◌≢◌, refl, sym, ap, ◌∙◌, true, false, Option, none, some, List, arith, inl, inr,
  Bool-cases, Option-cases,
}
use v4_with_v6_nh.Common.Text.{strcmp_eq}
use v4_with_v6_nh.Common.Text.Laws.{strcmp_eq→}
use v4_with_v6_nh.Router.Hosts.{Text, Host, Entry, get}
use v4_with_v6_nh.Router.Hosts.Laws.{get-put, get-put_other}
use v4_with_v6_nh.Router.NextHop.{Library}
use v4_with_v6_nh.Router.Manager.{
  Kernel, Manager, head_of, persist, settle, evaluate_host, evaluate, is_changed, enter_lease,
  on_lease,
}
use v4_with_v6_nh.Router.Manager.Leased.{
  evaluate-absent, evaluate-gone, evaluate-there, enter_lease-new, enter_lease-changed,
  enter_lease-same,
}

module _ {K : Type 0} (lib : Library) (kernel : Kernel K) where
  -- The table has the host of a MAC address with this interface and IPv4 address.
  abbrev pub HasLease : Text → Text → Text → List Entry → Type 0
  HasLease mac iface ip4 es = (h : Host) × (get mac es ≡ some h) × (h.iface ≡ iface) × (h.ip4 ≡ ip4)

  settle-lease :
      (i : ℕ) (h : Host) (nh : Option Text) (os : K)
      → ((settle lib kernel i h nh os).0.iface ≡ h.iface)
        × ((settle lib kernel i h nh os).0.ip4 ≡ h.ip4)
  unfolding settle
  settle-lease i h none os = (refl, refl)
  settle-lease i h (some nh) os = (ground arith, ground arith)

  evaluate-HasLease :
      (mac iface ip4 : Text) (m : Manager K)
      → HasLease mac iface ip4 m.hosts
      → HasLease mac iface ip4 (evaluate lib kernel mac m).hosts
  unfolding evaluate_host
  evaluate-HasLease mac iface ip4 m (h, at, a, b) =
      let P : Manager K → Type 0 = λ x. HasLease mac iface ip4 x.hosts in
      elim (Option-cases (head_of (kernel.link_lookup m.os h.iface))) [
        | inl gone ↦ subst P (sym (evaluate-gone lib kernel mac m h at gone)) (h, at, a, b)
        | inr (i, there) ↦
            let (same_iface, same_ip4) = settle-lease i _ _ _ in
            subst P (sym (evaluate-there lib kernel mac m h i at there))
              (_, get-put mac _ m.hosts, same_iface ∙ a, same_ip4 ∙ b)
      ]

  evaluate-others :
      (mac x : Text) (m : Manager K)
      → mac ≢ x
      → get x (evaluate lib kernel mac m).hosts ≡ get x m.hosts
  evaluate-others mac x m ne = elim (Option-cases (get mac m.hosts)) [
    | inl absent ↦ ap (λ v. get x v.hosts) (evaluate-absent lib kernel mac m absent)
    | inr (h, at) ↦ elim (Option-cases (head_of (kernel.link_lookup m.os h.iface))) [
      | inl gone ↦ ap (λ v. get x v.hosts) (evaluate-gone lib kernel mac m h at gone)
      | inr (i, there) ↦
          ap (λ v. get x v.hosts) (evaluate-there lib kernel mac m h i at there)
          ∙ get-put_other mac x _ m.hosts ne
    ]
  ]

  unchanged :
      (h : Host) (iface ip4 : Text)
      → is_changed lib kernel h iface ip4 ≡ false
      → (h.iface ≡ iface) × (h.ip4 ≡ ip4)
  unfolding is_changed
  unchanged h iface ip4 e =
      let a : strcmp_eq h.iface iface ≡ true = ground (arith, e) in
      let b : strcmp_eq h.ip4 ip4 ≡ true = ground (arith, e) in
      (strcmp_eq→ h.iface iface a, strcmp_eq→ h.ip4 ip4 b)

  -- An entered lease is in the table, and the other hosts are as before.
  IsEntered : Text → Text → Text → Text → Manager K → Manager K → Type 0
  IsEntered iface mac ip4 x m v = HasLease mac iface ip4 v.hosts × (get x v.hosts ≡ get x m.hosts)

  enter_lease-IsEntered :
      (iface mac ip4 x : Text) (m : Manager K)
      → mac ≢ x
      → IsEntered iface mac ip4 x m (enter_lease lib kernel iface mac ip4 m)
  unfolding IsEntered
  enter_lease-IsEntered iface mac ip4 x m ne =
      let P = IsEntered iface mac ip4 x m in
      elim (Option-cases (get mac m.hosts)) [
        | inl absent ↦
            subst P (sym (enter_lease-new lib kernel iface mac ip4 m absent))
              ((_, get-put mac _ m.hosts, refl, refl), get-put_other mac x _ m.hosts ne)
        | inr (h, at) ↦ elim (Bool-cases (is_changed lib kernel h iface ip4)) [
          | inl changed ↦
              subst P (sym (enter_lease-changed lib kernel iface mac ip4 m h at changed))
                ((_, get-put mac _ m.hosts, refl, refl), get-put_other mac x _ m.hosts ne)
          | inr same ↦
              let (a, b) = unchanged h iface ip4 same in
              subst P (sym (enter_lease-same lib kernel iface mac ip4 m h at same))
                ((_, get-put mac _ m.hosts, a, b), get-put_other mac x _ m.hosts ne)
        ]
      ]

  -- After a lease the table has its MAC address with its interface and IPv4 address, whether the MAC address
  -- was there before, with these or others, or not; and another host is in the table as it was.
  pub on_lease_enters :
      (iface mac ip4 x : Text) (m : Manager K)
      → mac ≢ x
      → let es = (on_lease lib kernel iface mac ip4 m).hosts in
        HasLease mac iface ip4 es × (get x es ≡ get x m.hosts)
  unfolding on_lease persist IsEntered
  on_lease_enters iface mac ip4 x m ne =
      let (lease, others) = enter_lease-IsEntered iface mac ip4 x m ne in
      let v = persist lib kernel (enter_lease lib kernel iface mac ip4 m) in
      (evaluate-HasLease mac iface ip4 v lease, evaluate-others mac x v ne ∙ others)
