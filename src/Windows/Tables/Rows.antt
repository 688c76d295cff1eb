-- ===== src/Windows/Tables/Rows.antt =====
-- The searches of `router_lladdr`, `neighbor_present` and `sentinel_in_fib` (host/windows/v4gwd.c)
-- against the rows of the tables.
use v4_with_v6_nh.Common.{
  ℕ, ◌≡◌, ◌≢◌, true, false, none, some, List, arith, All, Any, Any-map, Any-All, ◌↔◌, is_some-true,
  is_some_ne, is_true-some, is_true_ne, first, first-Any, Any-first,
}
use v4_with_v6_nh.Common.Text.{memcmp_eq}
use v4_with_v6_nh.Mac.{Mac, bytes, copy_mac}
use v4_with_v6_nh.Inet6.{Addr}
use v4_with_v6_nh.Rtsock.{inet, inet6}
use v4_with_v6_nh.Windows.Tables.{
  sentinel_host, ForwardRow, NeighborRow, pick_lladdr, pick_neighbor, pick_sentinel, router_lladdr,
  neighbor_present, sentinel_in_fib,
}

module _ (g_luid : ℕ) where
  -- A neighbour entry for `gw` on the interface with a link-layer address of six bytes.
  abbrev pub IsNeighbor : Addr → NeighborRow → Type 0
  IsNeighbor gw r =
      (r.luid ≡ g_luid)
      × (r.family ≡ inet6)
      × (memcmp_eq r.addr6 gw ≡ true)
      × (r.physical_length ≡ 6)

  -- An entry for the sentinel on the interface.
  abbrev pub IsEntry : NeighborRow → Type 0
  IsEntry r = (r.luid ≡ g_luid) × (r.family ≡ inet) × (r.addr4 ≡ sentinel_host)

  -- It is permanent and holds `mac`.
  abbrev pub IsPinned : Mac → NeighborRow → Type 0
  IsPinned mac r =
      (r.is_permanent ≡ true)
      × (r.physical_length ≡ 6)
      × (memcmp_eq (bytes (copy_mac r.physical)) (bytes mac) ≡ true)

  -- A default route of the interface with the sentinel as its IPv4 next hop.
  abbrev pub IsSentinelRoute : ForwardRow → Type 0
  IsSentinelRoute r =
      (r.luid ≡ g_luid)
      × (r.prefix_length ≡ 0)
      × (r.hop_family ≡ inet)
      × (r.hop_addr4 ≡ sentinel_host)

  pick_lladdr→ :
      (gw : Addr) (mac : Mac) (r : NeighborRow)
      → pick_lladdr g_luid gw r ≡ some mac
      → IsNeighbor gw r × (copy_mac r.physical ≡ mac)
  unfolding pick_lladdr
  pick_lladdr→ gw mac r h = ground arith

  pick_lladdr← : (gw : Addr) (r : NeighborRow) → IsNeighbor gw r → pick_lladdr g_luid gw r ≢ none
  unfolding pick_lladdr
  pick_lladdr← gw r h e = ground arith

  pick_neighbor→ :
      (mac : Mac) (r : NeighborRow)
      → pick_neighbor g_luid mac r ≡ some true
      → IsEntry r × IsPinned mac r
  unfolding pick_neighbor
  pick_neighbor→ mac r h = ground arith

  pick_neighbor-false :
      (mac : Mac) (r : NeighborRow)
      → pick_neighbor g_luid mac r ≡ some false
      → IsEntry r × ¬ IsPinned mac r
  unfolding pick_neighbor
  pick_neighbor-false mac r h = (ground arith, λ pinned. ground arith)

  pick_neighbor← : (mac : Mac) (r : NeighborRow) → IsEntry r → pick_neighbor g_luid mac r ≢ none
  unfolding pick_neighbor
  pick_neighbor← mac r h e = ground arith

  pick_sentinel→ : (r : ForwardRow) → pick_sentinel g_luid r ≡ some tt → IsSentinelRoute r
  unfolding pick_sentinel
  pick_sentinel→ r h = ground arith

  pick_sentinel← : (r : ForwardRow) → IsSentinelRoute r → pick_sentinel g_luid r ≢ none
  unfolding pick_sentinel
  pick_sentinel← r h e = ground arith

  -- `router_lladdr` returns the link-layer address of a neighbour entry for the router on the interface,
  -- and it returns nothing exactly when the table has no such entry.
  pub router_lladdr-Any :
      (gw : Addr) (rows : List NeighborRow)
      → ((mac : Mac)
          → router_lladdr g_luid gw (some rows) ≡ some mac
          → Any (λ r. IsNeighbor gw r × (copy_mac r.physical ≡ mac)) rows)
        × (Any (IsNeighbor gw) rows → router_lladdr g_luid gw (some rows) ≢ none)
  unfolding router_lladdr
  router_lladdr-Any gw rows = (
    λ mac e. Any-map (pick_lladdr→ gw mac) (first-Any (pick_lladdr g_luid gw) rows e),
    λ any. Any-first (pick_lladdr g_luid gw) (Any-map (pick_lladdr← gw) any),
  )

  -- `neighbor_present` holds only if the table has a permanent entry for the sentinel with that address,
  -- and it holds if there is an entry for the sentinel on the interface and every such entry is one.
  pub neighbor_present-Any :
      (mac : Mac) (rows : List NeighborRow)
      → (neighbor_present g_luid mac (some rows) ≡ true
          → Any (λ r. IsEntry r × IsPinned mac r) rows)
        × (Any IsEntry rows
            → All (λ r. IsEntry r → IsPinned mac r) rows
            → neighbor_present g_luid mac (some rows) ≡ true)
  unfolding neighbor_present
  neighbor_present-Any mac rows = (
    λ e.
        Any-map (pick_neighbor→ mac) (first-Any (pick_neighbor g_luid mac) rows (is_true-some _ e)),
    λ any all.
        is_true_ne _ (Any-first (pick_neighbor g_luid mac) (Any-map (pick_neighbor← mac) any)) (λ e.
          let (r, bad, good) = Any-All (first-Any (pick_neighbor g_luid mac) rows e) all in
          let (entry, unpinned) = pick_neighbor-false mac r bad in unpinned (good entry)),
  )

  -- `sentinel_in_fib` holds exactly when the interface has a default route via 192.0.0.11.
  pub sentinel_in_fib-IsSentinelRoute :
      (rows : List ForwardRow)
      → (sentinel_in_fib g_luid (some rows) ≡ true) ↔ Any IsSentinelRoute rows
  unfolding sentinel_in_fib
  sentinel_in_fib-IsSentinelRoute rows = (
    λ e.
        let (u, hit) = is_some-true (first (pick_sentinel g_luid) rows) e in
        Any-map (λ r h. pick_sentinel→ r h) (first-Any (pick_sentinel g_luid) rows hit),
    λ any.
        is_some_ne _ (Any-first (pick_sentinel g_luid) (Any-map (λ r h. pick_sentinel← r h) any)),
  )
