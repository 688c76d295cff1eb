-- ===== src/MacOs/Tests/Scans.antt =====
-- The theorems on the scans of the tables, at concrete dumps.
use v4_with_v6_nh.Common.{◌+◌, ◌≡◌, ◌≢◌, refl, true, none, some, List, [], ◌∷◌, All, Any, arith}
use v4_with_v6_nh.Inet6.{Addr, unspecified}
use v4_with_v6_nh.Rtsock.{Sockaddr, Buffer, fetch}
use v4_with_v6_nh.Rtsock.Walk.{Message, both, Holds}
use v4_with_v6_nh.MacOs.Discovery.{roundup, find_default_router, arp_entry_present}
use v4_with_v6_nh.MacOs.Discovery.Rows.{IsRouteToUnspecified, Through, IsArpEntry, IsPinned}
use v4_with_v6_nh.MacOs.Discovery.Refine.{find_default_router_lem, arp_entry_present_lem}
use v4_with_v6_nh.MacOs.Tests.Systems.{
  sentinel, router, router_mac, inet_sa, inet6_sa, link_sa, a_header, a_dump, rt6_dump, nd6_dump,
  rt4_dump, arp_dump,
}

abbrev message_of : Sockaddr → Sockaddr → List Message
message_of dst gateway =
    record { hdr = a_header (92 + dst.len + gateway.len); dst = some dst; gateway = some gateway }
    ∷ []

fetch_dump : (b : Buffer) → fetch (a_dump b) ≡ some b
unfolding fetch
fetch_dump b = refl

rt6-Holds : Holds 92 roundup rt6_dump 0 (message_of (inet6_sa unspecified) (inet6_sa router))
unfolding roundup
rt6-Holds = (refl, omega arith, omega arith, both (λ e. omega arith) (λ e. omega arith), refl)

nd6-Holds : Holds 92 roundup nd6_dump 0 (message_of (inet6_sa router) (link_sa router_mac))
unfolding roundup
nd6-Holds = (refl, omega arith, omega arith, both (λ e. omega arith) (λ e. omega arith), refl)

rt4-Holds : Holds 92 roundup rt4_dump 0 (message_of (inet_sa 0) (inet_sa sentinel))
unfolding roundup
rt4-Holds = (refl, omega arith, omega arith, both (λ e. omega arith) (λ e. omega arith), refl)

arp-Holds :
    Holds 92 roundup (arp_dump router_mac) 0 (message_of (inet_sa sentinel) (link_sa router_mac))
unfolding roundup
arp-Holds = (refl, omega arith, omega arith, both (λ e. omega arith) (λ e. omega arith), refl)

find_default_router_lem_example :
    let ms = message_of (inet6_sa unspecified) (inet6_sa router) in
    ((gw : Addr)
      → find_default_router 92 4 (a_dump rt6_dump) ≡ some gw
      → Any (λ m. IsRouteToUnspecified 4 m × Through m gw) ms)
    × (Any (IsRouteToUnspecified 4) ms → find_default_router 92 4 (a_dump rt6_dump) ≢ none)
find_default_router_lem_example =
    find_default_router_lem 92 rt6_dump (message_of (inet6_sa unspecified) (inet6_sa router))
      rt6-Holds (a_dump rt6_dump) (fetch_dump rt6_dump) 4

arp_entry_present_lem_example :
    let ms = message_of (inet_sa sentinel) (link_sa router_mac) in
    (arp_entry_present 92 4 sentinel router_mac (a_dump (arp_dump router_mac)) ≡ true
      → Any (λ m. IsArpEntry 4 sentinel m × IsPinned router_mac m) ms)
    × (Any (IsArpEntry 4 sentinel) ms
        → All (λ m. IsArpEntry 4 sentinel m → IsPinned router_mac m) ms
        → arp_entry_present 92 4 sentinel router_mac (a_dump (arp_dump router_mac)) ≡ true)
arp_entry_present_lem_example =
    arp_entry_present_lem 92 (arp_dump router_mac)
      (message_of (inet_sa sentinel) (link_sa router_mac)) arp-Holds (a_dump (arp_dump router_mac))
      (fetch_dump (arp_dump router_mac)) 4 sentinel router_mac
