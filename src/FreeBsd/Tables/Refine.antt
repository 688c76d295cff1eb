-- ===== src/FreeBsd/Tables/Refine.antt =====
-- The scans of host/freebsd/v4gwd.c against the routes that the kernel has put in the dump.
use v4_with_v6_nh.Common.{
  is_some, is_some-true, is_some_ne, first, first-Any, Any-first, ℕ, ◌+◌, ◌≡◌, ◌≢◌, ◌∙◌, sym, true,
  not, Option, none, some, List, arith, ◌==◌, if◌then◌else◌, bit_and, Any, Any-map, ◌↔◌,
}
use v4_with_v6_nh.Inet6.{Addr, is_unspecified, strip_embedded_scope}
use v4_with_v6_nh.Rtsock.{
  inet, inet6, Sockaddr, Buffer, Abi, Sysctl, fetch, walk, rounds, rtm_version, rtf_gateway,
}
use v4_with_v6_nh.Rtsock.Walk.{
  Message, Packed, both, dst_only, gateway_only, neither, Holds, ended, walk_dump, result-ended,
}
use v4_with_v6_nh.FreeBsd.Tables.{
  collect, no_slots, sentinel_addr, slots, check_sentinel, sentinel_body, sentinel_in_fib,
  check_default, default_body, static_default_router, gateway_static,
}

collect-Packed :
    (abi : Abi) (buf : Buffer) (q addrs : ℕ) {d g : Option Sockaddr}
    → Packed abi.sa_size buf q addrs d g
    → collect abi buf addrs 4 1 q no_slots ≡ record { dst = d; gw = g }
unfolding collect
collect-Packed abi buf q addrs (both a b) = ground arith
collect-Packed abi buf q addrs (dst_only a b) = ground arith
collect-Packed abi buf q addrs (gateway_only a b) = ground arith
collect-Packed abi buf q addrs (neither a b) = ground arith

-- The inner loop finds the destination and the gateway that the message carries.
pub slots-Packed :
    (abi : Abi) (buf : Buffer) (p : ℕ) (m : Message)
    → Packed abi.sa_size buf (p + abi.hdr_size) m.hdr.addrs m.dst m.gateway
    → slots abi buf p m.hdr ≡ record { dst = m.dst; gw = m.gateway }
unfolding slots
slots-Packed abi buf p m pk = collect-Packed abi buf (p + abi.hdr_size) m.hdr.addrs pk

-- A route through the gateway 192.0.0.11 with the destination address 0.0.0.0. A default route is one; so
-- is a route to 0.0.0.0 with a longer prefix, since the netmask is not looked at.
abbrev pub IsSentinelRoute : Message → Type 0
IsSentinelRoute m =
    (m.hdr.version ≡ rtm_version)
    × (bit_and m.hdr.flags rtf_gateway ≢ 0)
    × ((d : Sockaddr) × (m.dst ≡ some d) × (d.family ≡ inet) × (d.sin_addr ≡ 0))
    × ((g : Sockaddr) × (m.gateway ≡ some g) × (g.family ≡ inet) × (g.sin_addr ≡ sentinel_addr))

abbrev pick_sentinel : Message → Option (Unit {0})
pick_sentinel m =
    if m.hdr.version == rtm_version then check_sentinel m.hdr m.dst m.gateway else none

pick_sentinel→ : (m : Message) {u : Unit {0}} → pick_sentinel m ≡ some u → IsSentinelRoute m
unfolding check_sentinel
pick_sentinel→ m h = ground arith

pick_sentinel← : (m : Message) → IsSentinelRoute m → pick_sentinel m ≢ none
unfolding check_sentinel
pick_sentinel← m h e = ground arith

-- A static route on the interface through an IPv6 gateway with the destination address ::, of any prefix
-- length.
abbrev pub IsStaticToUnspecified : ℕ → Message → Type 0
IsStaticToUnspecified ifindex m =
    (m.hdr.version ≡ rtm_version)
    × (m.hdr.index ≡ ifindex)
    × (bit_and m.hdr.flags gateway_static ≡ gateway_static)
    × ((d : Sockaddr) × (m.dst ≡ some d) × (d.family ≡ inet6) × (is_unspecified d.sin6_addr ≡ true))
    × ((g : Sockaddr) × (m.gateway ≡ some g) × (g.family ≡ inet6))

-- The gateway of the message, with its scope stripped.
abbrev pub Through : Message → Addr → Type 0
Through m gw = (g : Sockaddr) × (m.gateway ≡ some g) × (strip_embedded_scope g.sin6_addr ≡ gw)

abbrev pick_default : ℕ → Message → Option Addr
pick_default ifindex m =
    if not (m.hdr.version == rtm_version)
    then none
    else if not (m.hdr.index == ifindex)
    then none
    else if not (bit_and m.hdr.flags gateway_static == gateway_static)
    then none
    else check_default m.dst m.gateway

pick_default→ :
    (ifindex : ℕ) (gw : Addr) (m : Message)
    → pick_default ifindex m ≡ some gw
    → IsStaticToUnspecified ifindex m × Through m gw
unfolding check_default
pick_default→ ifindex gw m h = ground arith

pick_default← :
    (ifindex : ℕ) (m : Message) → IsStaticToUnspecified ifindex m → pick_default ifindex m ≢ none
unfolding check_default
pick_default← ifindex m h e = ground arith

module _ (abi : Abi) (buf : Buffer) (ms : List Message)
    (holds : Holds abi.hdr_size abi.sa_size buf 0 ms) (fib : Sysctl Buffer)
    (read : fetch fib ≡ some buf) where
  sentinel_walk : walk buf (sentinel_body abi buf) (rounds buf) 0 ≡ ended (first pick_sentinel ms)
  unfolding sentinel_body
  sentinel_walk =
      walk_dump abi.hdr_size abi.sa_size buf (sentinel_body abi buf) pick_sentinel
        (λ p m pk. ground (arith, slots-Packed abi buf p m pk)) ms holds

  sentinel_in_fib-first : sentinel_in_fib abi fib ≡ is_some (first pick_sentinel ms)
  unfolding sentinel_in_fib
  sentinel_in_fib-first = ground (arith, read, sentinel_walk, result-ended (first pick_sentinel ms))

  -- `sentinel_in_fib` holds exactly when the dump has a route via 192.0.0.11 with the destination address
  -- 0.0.0.0, of any prefix length.
  pub sentinel_in_fib_iff : (sentinel_in_fib abi fib ≡ true) ↔ Any IsSentinelRoute ms
  sentinel_in_fib_iff = (
    λ e.
        let (u, hit) = is_some-true (first pick_sentinel ms) (sym sentinel_in_fib-first ∙ e) in
        Any-map (λ m h. pick_sentinel→ m h) (first-Any pick_sentinel ms hit),
    λ any.
        sentinel_in_fib-first
        ∙ is_some_ne (first pick_sentinel ms)
            (Any-first pick_sentinel (Any-map pick_sentinel← any)),
  )

  default_walk :
      (ifindex : ℕ)
      → walk buf (default_body abi ifindex buf) (rounds buf) 0
        ≡ ended (first (pick_default ifindex) ms)
  unfolding default_body
  default_walk ifindex =
      walk_dump abi.hdr_size abi.sa_size buf (default_body abi ifindex buf) (pick_default ifindex)
        (λ p m pk. ground (arith, slots-Packed abi buf p m pk)) ms holds

  static_default_router-first :
      (ifindex : ℕ) → static_default_router abi ifindex fib ≡ first (pick_default ifindex) ms
  unfolding static_default_router
  static_default_router-first ifindex =
      ground (arith, read, default_walk ifindex, result-ended (first (pick_default ifindex) ms))

  -- `static_default_router` returns the gateway of a static IPv6 route on the interface with the
  -- destination address ::, of any prefix length, with no scope embedded, and it returns nothing only if the
  -- dump has no such route.
  pub static_default_router_lem :
      (ifindex : ℕ)
      → ((gw : Addr)
          → static_default_router abi ifindex fib ≡ some gw
          → Any (λ m. IsStaticToUnspecified ifindex m × Through m gw) ms)
        × (Any (IsStaticToUnspecified ifindex) ms → static_default_router abi ifindex fib ≢ none)
  static_default_router_lem ifindex = (
    λ gw e.
        Any-map (pick_default→ ifindex gw)
          (first-Any (pick_default ifindex) ms (sym (static_default_router-first ifindex) ∙ e)),
    λ any e.
        Any-first (pick_default ifindex) (Any-map (pick_default← ifindex) any)
          (sym (static_default_router-first ifindex) ∙ e),
  )
