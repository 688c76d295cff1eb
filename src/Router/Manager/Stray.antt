-- ===== src/Router/Manager/Stray.antt =====
-- The return routes and the leases (router/debian/usr/local/sbin/v4gwrd.py `evaluate`, `on_lease`,
-- `on_release`).
use mathlib.Core.Path.{subst}
use v4_with_v6_nh.Common.{
  ℕ, ◌≡◌, ◌≢◌, refl, sym, ap, ◌∙◌, Bool, true, false, Option, none, some, List, [], arith, inl, inr,
  Bool-cases,
}
use v4_with_v6_nh.Common.Text.{strcmp_eq}
use v4_with_v6_nh.Common.Text.Laws.{strcmp_eq→, strcmp_eq_refl}
use v4_with_v6_nh.Router.Hosts.{Text, Host, Entry, get, put, pop}
use v4_with_v6_nh.Router.Hosts.Laws.{Holds, put-Holds, put-here, pop-Holds}
use v4_with_v6_nh.Router.NextHop.{Library}
use v4_with_v6_nh.Router.Manager.{
  Kernel, Manager, state_text, installed, install, persist, probe, settle, evaluate_host,
}

-- `via ip os` is the next hop of the daemon's route to the address `ip`.
pub record IsRouting {K : Type 0} (kernel : Kernel K) (via : Text → K → Option Text) : Type 0 where
  pub replaces :
      (os : K) (ip nh : Text) (i : ℕ)
      → (kernel.replace_route os ip i nh).0 ≡ true
      → via ip (kernel.replace_route os ip i nh).1 ≡ some nh
  pub refuses :
      (os : K) (ip nh : Text) (i : ℕ)
      → (kernel.replace_route os ip i nh).0 ≡ false
      → via ip (kernel.replace_route os ip i nh).1 ≡ via ip os
  pub replace_keeps :
      (os : K) (ip x nh : Text) (i : ℕ)
      → ip ≢ x
      → via x (kernel.replace_route os ip i nh).1 ≡ via x os
  pub deletes :
      (os : K) (ip : Text)
      → (kernel.del_route os ip).0 ≡ true
      → via ip (kernel.del_route os ip).1 ≡ none
  pub delete_refuses :
      (os : K) (ip : Text)
      → (kernel.del_route os ip).0 ≡ false
      → via ip (kernel.del_route os ip).1 ≡ via ip os
  pub delete_keeps : (os : K) (ip x : Text) → ip ≢ x → via x (kernel.del_route os ip).1 ≡ via x os
  pub neighbor_keeps :
      (os : K) (ip x : Text) (i : ℕ) → via x (kernel.del_neighbor os ip i) ≡ via x os
  pub datagram_keeps : (os : K) (n a x : Text) → via x (kernel.send_datagram os n a) ≡ via x os
  pub write_keeps : (os : K) (t x : Text) → via x (kernel.write_state os t) ≡ via x os

-- A delete is refused only where there is no route to the address, as with ESRCH.
abbrev pub Deletable : {K : Type 0} → Kernel K → (via : Text → K → Option Text) → Type 0
Deletable {K} kernel via =
    (os : K) (ip : Text) → (kernel.del_route os ip).0 ≡ false → via ip os ≡ none

deleted :
    {K : Type 0} (kernel : Kernel K) (via : Text → K → Option Text)
    → IsRouting kernel via
    → Deletable kernel via
    → (os : K) (ip : Text) → via ip (kernel.del_route os ip).1 ≡ none
deleted kernel via laws free os ip = elim (Bool-cases (kernel.del_route os ip).0) [
  | inl ok ↦ laws.deletes os ip ok
  | inr refused ↦ laws.delete_refuses os ip refused ∙ free os ip refused
]

module _ {K : Type 0} (lib : Library) (kernel : Kernel K) (via : Text → K → Option Text)
    (laws : IsRouting kernel via) where
  -- An address to which there is a route is that of a host in the table.
  abbrev pub IsLeased : Manager K → Type 0
  IsLeased m = (ip : Text) → via ip m.os ≢ none → Holds ip m.hosts

  pub probe-keeps :
      (h : Host) (nh gua : Option Text) (os : K) (x : Text)
      → via x (probe lib kernel h nh gua os).1 ≡ via x os
  unfolding probe
  probe-keeps h nh none os x = refl
  probe-keeps h nh (some gua) os x = ground (arith, laws.datagram_keeps os h.iface gua x)

  pub installed-keeps :
      (ip : Text) (i : ℕ) (r : Bool × K) (x : Text)
      → via x (installed lib kernel ip i r) ≡ via x r.1
  installed-keeps ip i (true, os) x = laws.neighbor_keeps os ip x i
  installed-keeps ip i (false, os) x = refl

  settle-keeps :
      (i : ℕ) (h : Host) (nh : Option Text) (os : K) (x : Text)
      → h.ip4 ≢ x
      → via x (settle lib kernel i h nh os).1 ≡ via x os
  unfolding settle install
  settle-keeps i h none os x ne = refl
  settle-keeps i h (some nh) os x ne =
      let one = installed-keeps h.ip4 i (kernel.replace_route os h.ip4 i nh) x in
      ground (arith, one, laws.replace_keeps os h.ip4 x nh i ne)

  settle-ip4 :
      (i : ℕ) (h : Host) (nh : Option Text) (os : K) → (settle lib kernel i h nh os).0.ip4 ≡ h.ip4
  unfolding settle
  settle-ip4 i h none os = refl
  settle-ip4 i h (some nh) os = ground arith

  -- An evaluation touches the route of its host only, and keeps its address.
  pub evaluate_host-keeps :
      (i : ℕ) (mac : Text) (h : Host) (os : K) (x : Text)
      → h.ip4 ≢ x
      → via x (evaluate_host lib kernel i mac h os).1 ≡ via x os
  unfolding evaluate_host
  evaluate_host-keeps i mac h os x ne = settle-keeps i _ _ _ x ne ∙ probe-keeps h _ _ os x

  pub evaluate_host-ip4 :
      (i : ℕ) (mac : Text) (h : Host) (os : K) → (evaluate_host lib kernel i mac h os).0.ip4 ≡ h.ip4
  unfolding evaluate_host
  evaluate_host-ip4 i mac h os = settle-ip4 i _ _ _

  ne_of : (a b : Text) → strcmp_eq a b ≡ false → a ≢ b
  ne_of a b differs same =
      let hit = subst (λ t. strcmp_eq a t ≡ true) same (strcmp_eq_refl a) in
      ground (arith, differs, hit)

  same_host :
      (mac : Text) (es : List Entry) (h g : Host)
      → get mac es ≡ some h
      → get mac es ≡ some g
      → g.ip4 ≡ h.ip4
  same_host mac es h g a b = ap ip4_of (sym b ∙ a)
    where
      ip4_of : Option Host → Text
      ip4_of none = []
      ip4_of (some h) = h.ip4

  -- A step of one host, which keeps its address.
  pub stepped :
      (mac : Text) (h h' : Host) (es : List Entry) (os os' : K)
      → get mac es ≡ some h
      → h'.ip4 ≡ h.ip4
      → ((x : Text) → h.ip4 ≢ x → via x os' ≡ via x os)
      → IsLeased (record { hosts = es; os = os })
      → IsLeased (record { hosts = put mac h' es; os = os' })
  stepped mac h h' es os os' at same keeps leased ip there =
      elim (Bool-cases (strcmp_eq h.ip4 ip)) [
        | inl here' ↦
            subst (λ t. Holds t (put mac h' es)) (same ∙ strcmp_eq→ h.ip4 ip here')
              (put-here mac h' es)
        | inr away ↦
            let ne = ne_of h.ip4 ip away in
            put-Holds mac ip h' es
              (λ g at' is. absurd (ne (sym (same_host mac es h g at at') ∙ is)))
              (leased ip (λ gone. there (keeps ip ne ∙ gone)))
      ]

  -- A step that withdraws the route of a host, whatever replaces it.
  pub withdrawn :
      (free : Deletable kernel via) (mac : Text) (h h' : Host) (es : List Entry) (os : K)
      → get mac es ≡ some h
      → IsLeased (record { hosts = es; os = os })
      → IsLeased (record { hosts = put mac h' es; os = (kernel.del_route os h.ip4).1 })
  withdrawn free mac h h' es os at leased ip there = elim (Bool-cases (strcmp_eq h.ip4 ip)) [
    | inl here' ↦ absurd (
        there (
          subst (λ t. via t (kernel.del_route os h.ip4).1 ≡ none) (strcmp_eq→ h.ip4 ip here')
            (deleted kernel via laws free os h.ip4)))
    | inr away ↦
        let ne = ne_of h.ip4 ip away in
        put-Holds mac ip h' es (λ g at' is. absurd (ne (sym (same_host mac es h g at at') ∙ is)))
          (leased ip (λ gone. there (laws.delete_keeps os h.ip4 ip ne ∙ gone)))
  ]

  pub released :
      (free : Deletable kernel via) (mac : Text) (h : Host) (es : List Entry) (os : K)
      → get mac es ≡ some h
      → IsLeased (record { hosts = es; os = os })
      → IsLeased (record { hosts = pop mac es; os = (kernel.del_route os h.ip4).1 })
  released free mac h es os at leased ip there = elim (Bool-cases (strcmp_eq h.ip4 ip)) [
    | inl here' ↦ absurd (
        there (
          subst (λ t. via t (kernel.del_route os h.ip4).1 ≡ none) (strcmp_eq→ h.ip4 ip here')
            (deleted kernel via laws free os h.ip4)))
    | inr away ↦
        let ne = ne_of h.ip4 ip away in
        pop-Holds mac ip es (λ g at' is. ne (sym (same_host mac es h g at at') ∙ is))
          (leased ip (λ gone. there (laws.delete_keeps os h.ip4 ip ne ∙ gone)))
  ]

  pub persist-IsLeased : (m : Manager K) → IsLeased m → IsLeased (persist lib kernel m)
  unfolding persist
  persist-IsLeased m leased ip there =
      leased ip (λ gone. there (laws.write_keeps m.os (state_text m.hosts) ip ∙ gone))
