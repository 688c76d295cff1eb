-- ===== src/MacOs/Discovery/Rows.antt =====
-- The rows of a dump that the scans of host/macos/v4gwd-arp.c are after, each against its tests, and
-- the packing of the addresses of a message.
use v4_with_v6_nh.Common.{
  ℕ, ◌+◌, ◌%◌, ◌<◌, ◌≤◌, ◌≡◌, ◌≢◌, refl, Bool, true, false, ◌&&◌, ◌||◌, Option, none, some, arith,
  ◌==◌, leb, ltb, bit_and, ◌⊎◌, check_table, check_table_entry,
}
use v4_with_v6_nh.Common.Text.{memcmp_eq}
use v4_with_v6_nh.Mac.{Mac, bytes, copy_mac}
use v4_with_v6_nh.Inet6.{Addr, is_unspecified, strip_embedded_scope}
use v4_with_v6_nh.Rtsock.{
  inet, inet6, link, Sockaddr, RtMsghdr, Buffer, rtm_version, rtf_gateway, rtf_static,
}
use v4_with_v6_nh.Rtsock.Walk.{Message, Packed, both, dst_only, gateway_only, neither}
use v4_with_v6_nh.MacOs.Discovery.{
  roundup, get_rti_info, rti_dst, rti_gateway, gateway_up, pick_router, pick_lladdr, pick_arp,
  pick_sentinel,
}

-- `ROUNDUP` gives the least multiple of four that holds `a`, and at least four.
is_roundup : ℕ → ℕ → Bool
is_roundup a r = (r % 4 == 0) && leb a r && leb 4 r && (ltb r (a + 4) || r == 4)

roundup_table : check_table (λ a. is_roundup a (roundup a)) 256 ≡ true
unfolding check_table is_roundup roundup
roundup_table = refl

-- For a `sa_len`, a byte, `ROUNDUP` gives the next multiple of four, which is four for 0.
pub roundup_lem :
    (a : ℕ)
    → a < 256
    → (roundup a % 4 ≡ 0)
      × (a ≤ roundup a)
      × (4 ≤ roundup a)
      × ((roundup a < a + 4) ⊎ (roundup a ≡ 4))
unfolding is_roundup
roundup_lem a h =
    ground (arith, check_table_entry (λ x. is_roundup x (roundup x)) 256 a h roundup_table)

pub rti-Packed :
    (buf : Buffer) (q addrs : ℕ) {d g : Option Sockaddr}
    → Packed roundup buf q addrs d g
    → let rti = get_rti_info buf addrs q in (rti_dst rti ≡ d) × (rti_gateway rti ≡ g)
unfolding get_rti_info
rti-Packed buf q addrs (both a b) = ground arith
rti-Packed buf q addrs (dst_only a b) = ground arith
rti-Packed buf q addrs (gateway_only a b) = ground arith
rti-Packed buf q addrs (neither a b) = ground arith

-- The test of a routine on a decoded message.
abbrev pub on_message :
    {A : Type 0} → (RtMsghdr → Option Sockaddr → Option Sockaddr → Option A) → Message → Option A
on_message pick m = pick m.hdr m.dst m.gateway

-- A route that is up, on the interface, through an IPv6 gateway, with the destination address ::, of any
-- prefix length.
abbrev pub IsRouteToUnspecified : ℕ → Message → Type 0
IsRouteToUnspecified ifindex m =
    (m.hdr.version ≡ rtm_version)
    × (bit_and m.hdr.flags gateway_up ≡ gateway_up)
    × (m.hdr.index ≡ ifindex)
    × ((d : Sockaddr) × (m.dst ≡ some d) × (d.family ≡ inet6) × (is_unspecified d.sin6_addr ≡ true))
    × ((g : Sockaddr) × (m.gateway ≡ some g) × (g.family ≡ inet6))

-- Its gateway is `gw`, with no scope embedded.
abbrev pub Through : Message → Addr → Type 0
Through m gw = (g : Sockaddr) × (m.gateway ≡ some g) × (strip_embedded_scope g.sin6_addr ≡ gw)

-- A resolved entry of the ND cache for `gw` on the interface.
abbrev pub IsNeighbor : ℕ → Addr → Message → Type 0
IsNeighbor ifindex gw m =
    (m.hdr.version ≡ rtm_version)
    × (m.hdr.index ≡ ifindex)
    × ((d : Sockaddr) × (m.dst ≡ some d)
        × (d.family ≡ inet6)
        × (memcmp_eq (strip_embedded_scope d.sin6_addr) gw ≡ true))
    × ((g : Sockaddr) × (m.gateway ≡ some g) × (g.family ≡ link) × (g.sdl_alen ≡ 6))

-- Its link-layer address is `mac`.
abbrev pub Resolves : Message → Mac → Type 0
Resolves m mac = (g : Sockaddr) × (m.gateway ≡ some g) × (copy_mac g.lladdr ≡ mac)

-- An entry of the ARP table for the sentinel on the interface.
abbrev pub IsArpEntry : ℕ → ℕ → Message → Type 0
IsArpEntry ifindex sentinel m =
    (m.hdr.version ≡ rtm_version)
    × (m.hdr.index ≡ ifindex)
    × ((d : Sockaddr) × (m.dst ≡ some d) × (d.family ≡ inet) × (d.sin_addr ≡ sentinel))
    × ((g : Sockaddr) × (m.gateway ≡ some g) × (g.family ≡ link))

-- It is permanent and holds `mac`.
abbrev pub IsPinned : Mac → Message → Type 0
IsPinned mac m =
    (bit_and m.hdr.flags rtf_static ≢ 0)
    × ((g : Sockaddr) × (m.gateway ≡ some g)
        × (g.sdl_alen ≡ 6)
        × (memcmp_eq (bytes (copy_mac g.lladdr)) (bytes mac) ≡ true))

-- A route through the sentinel with the destination address 0.0.0.0, of any prefix length.
abbrev pub IsSentinelRoute : ℕ → Message → Type 0
IsSentinelRoute sentinel m =
    (m.hdr.version ≡ rtm_version)
    × (bit_and m.hdr.flags rtf_gateway ≢ 0)
    × ((d : Sockaddr) × (m.dst ≡ some d) × (d.family ≡ inet) × (d.sin_addr ≡ 0))
    × ((g : Sockaddr) × (m.gateway ≡ some g) × (g.family ≡ inet) × (g.sin_addr ≡ sentinel))

-- Each test against its predicate, in both directions.
pub pick_router→ :
    (ifindex : ℕ) (gw : Addr) (m : Message)
    → on_message (pick_router ifindex) m ≡ some gw
    → IsRouteToUnspecified ifindex m × Through m gw
unfolding pick_router
pick_router→ ifindex gw m h = ground arith

pub pick_router← :
    (ifindex : ℕ) (m : Message)
    → IsRouteToUnspecified ifindex m
    → on_message (pick_router ifindex) m ≢ none
unfolding pick_router
pick_router← ifindex m h e = ground arith

pub pick_lladdr→ :
    (ifindex : ℕ) (gw : Addr) (mac : Mac) (m : Message)
    → on_message (pick_lladdr ifindex gw) m ≡ some mac
    → IsNeighbor ifindex gw m × Resolves m mac
unfolding pick_lladdr
pick_lladdr→ ifindex gw mac m h = ground arith

pub pick_lladdr← :
    (ifindex : ℕ) (gw : Addr) (m : Message)
    → IsNeighbor ifindex gw m
    → on_message (pick_lladdr ifindex gw) m ≢ none
unfolding pick_lladdr
pick_lladdr← ifindex gw m h e = ground arith

pub pick_arp→ :
    (ifindex sentinel : ℕ) (mac : Mac) (m : Message)
    → on_message (pick_arp ifindex sentinel mac) m ≡ some true
    → IsArpEntry ifindex sentinel m × IsPinned mac m
unfolding pick_arp
pick_arp→ ifindex sentinel mac m h = ground arith

pub pick_arp-false :
    (ifindex sentinel : ℕ) (mac : Mac) (m : Message)
    → on_message (pick_arp ifindex sentinel mac) m ≡ some false
    → IsArpEntry ifindex sentinel m × ¬ IsPinned mac m
unfolding pick_arp
pick_arp-false ifindex sentinel mac m h = (ground arith, λ pinned. ground arith)

pub pick_arp← :
    (ifindex sentinel : ℕ) (mac : Mac) (m : Message)
    → IsArpEntry ifindex sentinel m
    → on_message (pick_arp ifindex sentinel mac) m ≢ none
unfolding pick_arp
pick_arp← ifindex sentinel mac m h e = ground arith

pub pick_sentinel→ :
    (sentinel : ℕ) (m : Message) {u : Unit {0}}
    → on_message (pick_sentinel sentinel) m ≡ some u
    → IsSentinelRoute sentinel m
unfolding pick_sentinel
pick_sentinel→ sentinel m h = ground arith

pub pick_sentinel← :
    (sentinel : ℕ) (m : Message)
    → IsSentinelRoute sentinel m
    → on_message (pick_sentinel sentinel) m ≢ none
unfolding pick_sentinel
pick_sentinel← sentinel m h e = ground arith
