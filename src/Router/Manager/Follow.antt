-- ===== src/Router/Manager/Follow.antt =====
-- What one evaluation makes of the route of a host (router/debian/usr/local/sbin/v4gwrd.py `evaluate`).
use v4_with_v6_nh.Common.{
  ℕ, ◌≡◌, sym, ap, ◌∙◌, true, false, Option, none, some, arith, inl, inr, ◌⊎◌, Bool-cases,
}
use v4_with_v6_nh.Common.Text.Laws.{strcmp_eq→, strcmp_eq_refl}
use v4_with_v6_nh.Router.Hosts.{Text, Host, get}
use v4_with_v6_nh.Router.Hosts.Laws.{get-put}
use v4_with_v6_nh.Router.NextHop.{Library, cache_of, nexthop, derived}
use v4_with_v6_nh.Router.Manager.{
  Kernel, Manager, head_of, same_text, install, settle, evaluate_host, evaluate,
}
use v4_with_v6_nh.Router.Manager.Stray.{IsRouting, probe-keeps, installed-keeps}
use v4_with_v6_nh.Router.Manager.Leased.{evaluate-there}

module _ {K : Type 0} (lib : Library) (kernel : Kernel K) where
  -- The next hop that the cache and the routes give for a host.
  abbrev pub chosen : ℕ → Text → K → Option Text
  chosen i mac os =
      nexthop lib (derived lib i mac (kernel.routes6 os))
        (cache_of lib mac (kernel.neighbors6 os i))

  same_text-some : (n : Text) (t : Option Text) → same_text (some n) t ≡ true → t ≡ some n
  same_text-some n none e = cc
  same_text-some n (some t) e = ap some (sym (strcmp_eq→ n t e))

  settle-nh :
      (i : ℕ) (h : Host) (n : Text) (os : K) → (settle lib kernel i h (some n) os).0.nh ≡ some n
  unfolding settle
  settle-nh i h n os = elim (Bool-cases (same_text (some n) h.nh)) [
    | inl same ↦ ground (arith, same, same_text-some n h.nh same)
    | inr differs ↦ ground (arith, differs)
  ]

  module _ (via : Text → K → Option Text) (laws : IsRouting kernel via) where
    install-via :
        (i : ℕ) (ip n : Text) (os : K)
        → (kernel.replace_route os ip i n).0 ≡ true
        → via ip (install lib kernel i ip n os) ≡ some n
    unfolding install
    install-via i ip n os granted =
        installed-keeps lib kernel via laws ip i (kernel.replace_route os ip i n) ip
        ∙ laws.replaces os ip n i granted

    settle-via :
        (i : ℕ) (h : Host) (n : Text) (os : K)
        → (h.nh ≡ some n → via h.ip4 os ≡ some n)
        → (kernel.replace_route os h.ip4 i n).0 ≡ true
        → via h.ip4 (settle lib kernel i h (some n) os).1 ≡ some n
    unfolding settle
    settle-via i h n os true_belief granted = elim (Bool-cases (same_text (some n) h.nh)) [
      | inl same ↦ ground (arith, same, true_belief (same_text-some n h.nh same))
      | inr differs ↦ ground (arith, differs, install-via i h.ip4 n os granted)
    ]

    -- Where the interface of a host is there, a next hop is chosen for it, what the table notes for the host
    -- is true of its route and the kernel grants what replaces it: one evaluation makes the chosen next hop
    -- that of the return route to the host's address, and notes it in the table.
    pub evaluate_follows :
        (mac : Text) (m : Manager K) (h : Host) (i : ℕ) (n : Text)
        → get mac m.hosts ≡ some h
        → head_of (kernel.link_lookup m.os h.iface) ≡ some i
        → chosen i mac m.os ≡ some n
        → (h.nh ≡ some n → via h.ip4 m.os ≡ some n)
        → ((os : K) → (kernel.replace_route os h.ip4 i n).0 ≡ true)
        → let m' = evaluate lib kernel mac m in
          (via h.ip4 m'.os ≡ some n) × ((g : Host) × (get mac m'.hosts ≡ some g) × (g.nh ≡ some n))
    unfolding evaluate_host
    evaluate_follows mac m h i n at there to true_belief granted =
        rw (evaluate-there lib kernel mac m h i at there, to)
          (
            settle-via i _ n _
                (λ b. probe-keeps lib kernel via laws h _ _ m.os h.ip4 ∙ true_belief b) (granted _),
            (_, get-put mac _ m.hosts, settle-nh i _ n _),
          )

    settle-refused :
        (i : ℕ) (h : Host) (n : Text) (os : K)
        → (kernel.replace_route os h.ip4 i n).0 ≡ false
        → via h.ip4 (settle lib kernel i h (some n) os).1 ≡ via h.ip4 os
    unfolding settle install
    settle-refused i h n os refused = elim (Bool-cases (same_text (some n) h.nh)) [
      | inl same ↦ ground (arith, same)
      | inr differs ↦
          let kept =
            installed-keeps lib kernel via laws h.ip4 i (kernel.replace_route os h.ip4 i n) h.ip4
            ∙ laws.refuses os h.ip4 n i refused in
          ground (arith, differs, kept)
    ]

    settle-noted :
        (i : ℕ) (h : Host) (n : Text) (os : K)
        → h.nh ≡ some n
        → via h.ip4 (settle lib kernel i h (some n) os).1 ≡ via h.ip4 os
    unfolding settle
    settle-noted i h n os noted = ground (arith, noted, strcmp_eq_refl n)

    -- Where the interface of a host is there and a next hop is chosen for it, which the table notes already
    -- or the kernel refuses: an evaluation leaves the return route as it was, whatever that is, and the
    -- table has the chosen next hop after it, so later evaluations with the same choice leave it too.
    pub evaluate_notes_refusal :
        (mac : Text) (m : Manager K) (h : Host) (i : ℕ) (n : Text)
        → get mac m.hosts ≡ some h
        → head_of (kernel.link_lookup m.os h.iface) ≡ some i
        → chosen i mac m.os ≡ some n
        → (h.nh ≡ some n) ⊎ ((os : K) → (kernel.replace_route os h.ip4 i n).0 ≡ false)
        → let m' = evaluate lib kernel mac m in
          (via h.ip4 m'.os ≡ via h.ip4 m.os)
          × ((g : Host) × (get mac m'.hosts ≡ some g) × (g.nh ≡ some n))
    unfolding evaluate_host
    evaluate_notes_refusal mac m h i n at there to (inr refused) =
        rw (evaluate-there lib kernel mac m h i at there, to)
          (
            settle-refused i _ n _ (refused _) ∙ probe-keeps lib kernel via laws h _ _ m.os h.ip4,
            (_, get-put mac _ m.hosts, settle-nh i _ n _),
          )
    evaluate_notes_refusal mac m h i n at there to (inl noted) =
        rw (evaluate-there lib kernel mac m h i at there, to)
          (
            settle-noted i _ n _ noted ∙ probe-keeps lib kernel via laws h _ _ m.os h.ip4,
            (_, get-put mac _ m.hosts, settle-nh i _ n _),
          )
