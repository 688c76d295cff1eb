-- ===== src/MacOs/Discovery/Refine.antt =====
-- The scans of host/macos/v4gwd-arp.c against the routes and neighbours that the kernel has put in
-- the dump.
use v4_with_v6_nh.Common.{
  is_some-true, is_some_ne, is_true-some, is_true_ne, first, first-Any, Any-first, ℕ, ◌+◌, ◌≡◌, ◌≢◌,
  ◌∙◌, sym, true, Option, none, some, List, arith, All, Any, Any-All, Any-map, ◌↔◌, ap,
}
use mathlib.Core.Path.{ap₂}
use v4_with_v6_nh.Mac.{Mac}
use v4_with_v6_nh.Inet6.{Addr}
use v4_with_v6_nh.Rtsock.{Sockaddr, RtMsghdr, Buffer, Sysctl, fetch, result}
use v4_with_v6_nh.Rtsock.Walk.{Message, Holds, walk_dump, result-ended}
use v4_with_v6_nh.MacOs.Discovery.{
  roundup, pick_router, pick_lladdr, pick_arp, pick_sentinel, scan, scan_dump, find_default_router,
  router_lladdr, arp_entry_present, sentinel_in_fib,
}
use v4_with_v6_nh.MacOs.Discovery.Rows.{
  rti-Packed, on_message, IsRouteToUnspecified, Through, IsNeighbor, Resolves, IsArpEntry, IsPinned,
  IsSentinelRoute, pick_router→, pick_router←, pick_lladdr→, pick_lladdr←, pick_arp→, pick_arp←,
  pick_arp-false, pick_sentinel→, pick_sentinel←,
}

module _ (hdr_size : ℕ) (buf : Buffer) (ms : List Message)
    (holds : Holds hdr_size roundup buf 0 ms) where
  scan-first :
      {A : Type 0} (pick : RtMsghdr → Option Sockaddr → Option Sockaddr → Option A)
      → scan hdr_size pick buf ≡ first (on_message pick) ms
  unfolding scan
  scan-first pick =
      ap result (
        walk_dump hdr_size roundup buf _ (on_message pick)
          (λ p m pk.
            let e = rti-Packed buf (p + hdr_size) m.hdr.addrs pk in ap₂ (pick m.hdr) e.0 e.1)
          ms holds)
      ∙ result-ended (first (on_message pick) ms)

  module _ (dump : Sysctl Buffer) (read : fetch dump ≡ some buf) where
    dump-first :
        {A : Type 0} (pick : RtMsghdr → Option Sockaddr → Option Sockaddr → Option A)
        → scan_dump hdr_size pick dump ≡ first (on_message pick) ms
    dump-first pick = ground (arith, read, scan-first pick)

    -- `find_default_router` returns the gateway, link-local or not, of an IPv6 route of the interface that
    -- is up, with the destination address ::, of any prefix length, with no scope embedded, and it returns
    -- nothing only if the dump has no such route.
    pub find_default_router_lem :
        (ifindex : ℕ)
        → ((gw : Addr)
            → find_default_router hdr_size ifindex dump ≡ some gw
            → Any (λ m. IsRouteToUnspecified ifindex m × Through m gw) ms)
          × (Any (IsRouteToUnspecified ifindex) ms
              → find_default_router hdr_size ifindex dump ≢ none)
    unfolding find_default_router
    find_default_router_lem ifindex = (
      λ gw e. Any-map (pick_router→ ifindex gw) (
          first-Any (on_message (pick_router ifindex)) ms
            (sym (dump-first (pick_router ifindex)) ∙ e)),
      λ any e.
          Any-first (on_message (pick_router ifindex)) (Any-map (pick_router← ifindex) any)
            (sym (dump-first (pick_router ifindex)) ∙ e),
    )

    -- `router_lladdr` returns the link-layer address of a resolved ND entry for the router on the
    -- interface, and it returns nothing only if the ND cache has no such entry.
    pub router_lladdr_lem :
        (ifindex : ℕ) (gw : Addr)
        → ((mac : Mac)
            → router_lladdr hdr_size ifindex gw dump ≡ some mac
            → Any (λ m. IsNeighbor ifindex gw m × Resolves m mac) ms)
          × (Any (IsNeighbor ifindex gw) ms → router_lladdr hdr_size ifindex gw dump ≢ none)
    unfolding router_lladdr
    router_lladdr_lem ifindex gw = (
      λ mac e. Any-map (pick_lladdr→ ifindex gw mac) (
          first-Any (on_message (pick_lladdr ifindex gw)) ms
            (sym (dump-first (pick_lladdr ifindex gw)) ∙ e)),
      λ any e.
          Any-first (on_message (pick_lladdr ifindex gw)) (Any-map (pick_lladdr← ifindex gw) any)
            (sym (dump-first (pick_lladdr ifindex gw)) ∙ e),
    )

    -- `sentinel_in_fib` holds exactly when the dump has a route via the sentinel with the destination address
    -- 0.0.0.0, of any prefix length.
    pub sentinel_in_fib-Any :
        (sentinel : ℕ)
        → (sentinel_in_fib hdr_size sentinel dump ≡ true) ↔ Any (IsSentinelRoute sentinel) ms
    unfolding sentinel_in_fib
    sentinel_in_fib-Any sentinel = (
      λ e.
          let (u, hit) = is_some-true (scan_dump hdr_size (pick_sentinel sentinel) dump) e in
          Any-map (λ m h. pick_sentinel→ sentinel m h)
            (first-Any (on_message (pick_sentinel sentinel)) ms
              (sym (dump-first (pick_sentinel sentinel)) ∙ hit)),
      λ any. is_some_ne (scan_dump hdr_size (pick_sentinel sentinel) dump) (λ e.
          Any-first (on_message (pick_sentinel sentinel)) (Any-map (pick_sentinel← sentinel) any)
            (sym (dump-first (pick_sentinel sentinel)) ∙ e)),
    )

    -- `arp_entry_present` holds only if the ARP table has a permanent entry for the sentinel with that
    -- address, and it holds if there is an entry for the sentinel and every such entry is one.
    pub arp_entry_present_lem :
        (ifindex sentinel : ℕ) (mac : Mac)
        → (arp_entry_present hdr_size ifindex sentinel mac dump ≡ true
            → Any (λ m. IsArpEntry ifindex sentinel m × IsPinned mac m) ms)
          × (Any (IsArpEntry ifindex sentinel) ms
              → All (λ m. IsArpEntry ifindex sentinel m → IsPinned mac m) ms
              → arp_entry_present hdr_size ifindex sentinel mac dump ≡ true)
    unfolding arp_entry_present
    arp_entry_present_lem ifindex sentinel mac = (
      λ e. Any-map (pick_arp→ ifindex sentinel mac) (
          first-Any (on_message (pick_arp ifindex sentinel mac)) ms
            (sym (dump-first (pick_arp ifindex sentinel mac)) ∙ is_true-some _ e)),
      λ any all.
          is_true_ne _
            (λ e.
              Any-first (on_message (pick_arp ifindex sentinel mac))
                (Any-map (pick_arp← ifindex sentinel mac) any)
                (sym (dump-first (pick_arp ifindex sentinel mac)) ∙ e))
            (λ e.
              let (m, bad, good) =
                Any-All
                  (first-Any (on_message (pick_arp ifindex sentinel mac)) ms
                    (sym (dump-first (pick_arp ifindex sentinel mac)) ∙ e))
                  all in
              let (entry, unpinned) = pick_arp-false ifindex sentinel mac m bad in
              unpinned (good entry)),
    )
