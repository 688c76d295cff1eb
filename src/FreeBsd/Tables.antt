-- ===== src/FreeBsd/Tables.antt =====
-- The two scans of the routing table (host/freebsd/v4gwd.c `sentinel_in_fib`,
-- `static_default_router`). An IPv4 address is the number `ntohl(s_addr)`.
pub mod Refine
use v4_with_v6_nh.Common.{
  is_some, ℕ, zero, suc, ◌+◌, ◌*◌, Bool, true, false, not, ◌||◌, Option, none, some, leb, ◌==◌,
  if◌then◌else◌, bit_and,
}
use v4_with_v6_nh.Inet6.{Addr, is_unspecified, strip_embedded_scope}
use v4_with_v6_nh.Rtsock.{
  Family, is_inet, is_inet6, Sockaddr, RtMsghdr, Buffer, Abi, Sysctl, fetch, Outcome, result, walk,
  rounds, rtm_version, rtf_gateway, rtf_static, rta_dst, rta_gateway, rta_netmask,
}

-- 192.0.0.11
abbrev pub sentinel_addr : ℕ
sentinel_addr = 0xc000000b

-- The locals `dst` and `gw` of the inner loop.
pub record Slots : Type 0 where
  pub dst : Option Sockaddr
  pub gw : Option Sockaddr

abbrev pub no_slots : Slots
no_slots = record { dst = none; gw = none }

abbrev pub store : ℕ → Sockaddr → Slots → Slots
store i sa s =
    if i == rta_dst
    then record s { dst = some sa }
    else if i == rta_gateway
    then record s { gw = some sa }
    else s

-- `for (i = 1; i <= RTA_NETMASK; i <<= 1)` over the addresses of one message.
unfoldable pub collect : Abi → Buffer → ℕ → ℕ → ℕ → ℕ → Slots → Slots
collect abi buf addrs zero i q s = s
collect abi buf addrs (suc n) i q s =
    let skip = collect abi buf addrs n (i * 2) q s in
    let keep =
      collect abi buf addrs n (i * 2) (q + abi.sa_size (buf.sa q).len) (store i (buf.sa q) s) in
    if leb i rta_netmask then if bit_and addrs i == 0 then skip else keep else s

-- Four rounds: `i` takes the values 1, 2 and 4, and then the test ends the loop.
unfoldable pub slots : Abi → Buffer → ℕ → RtMsghdr → Slots
unfolding collect
slots abi buf p rtm = collect abi buf rtm.addrs 4 1 (p + abi.hdr_size) no_slots

-- The tests of `sentinel_in_fib` after the inner loop, in their order.
unfoldable pub check_sentinel : RtMsghdr → Option Sockaddr → Option Sockaddr → Option (Unit {0})
check_sentinel rtm none gw = none
check_sentinel rtm (some dst) none = none
check_sentinel rtm (some dst) (some gw) =
    if not (is_inet dst.family) || not (is_inet gw.family)
    then none
    else if not (dst.sin_addr == 0)
    then none
    else if bit_and rtm.flags rtf_gateway == 0
    then none
    else if gw.sin_addr == sentinel_addr
    then some tt
    else none

unfoldable pub sentinel_body : Abi → Buffer → ℕ → RtMsghdr → Option (Unit {0})
unfolding slots check_sentinel
sentinel_body abi buf p rtm =
    let s = slots abi buf p rtm in
    if rtm.version == rtm_version then check_sentinel rtm s.dst s.gw else none

unfoldable pub sentinel_in_fib : Abi → Sysctl Buffer → Bool
unfolding sentinel_body
sentinel_in_fib abi fib = elim (fetch fib) [
  | none ↦ false
  | some buf ↦ is_some (result (walk buf (sentinel_body abi buf) (rounds buf) 0))
]

-- The tests of `static_default_router` after the inner loop.
unfoldable pub check_default : Option Sockaddr → Option Sockaddr → Option Addr
check_default none gwsa = none
check_default (some dst) none = none
check_default (some dst) (some gwsa) =
    if not (is_inet6 dst.family) || not (is_inet6 gwsa.family)
    then none
    else if not (is_unspecified dst.sin6_addr)
    then none
    else some (strip_embedded_scope gwsa.sin6_addr)

-- `RTF_GATEWAY | RTF_STATIC`
abbrev pub gateway_static : ℕ
gateway_static = 0x802

unfoldable pub default_body : Abi → ℕ → Buffer → ℕ → RtMsghdr → Option Addr
unfolding slots check_default
default_body abi ifindex buf p rtm =
    let s = slots abi buf p rtm in
    if not (rtm.version == rtm_version)
    then none
    else if not (rtm.index == ifindex)
    then none
    else if not (bit_and rtm.flags gateway_static == gateway_static)
    then none
    else check_default s.dst s.gw

unfoldable pub static_default_router : Abi → ℕ → Sysctl Buffer → Option Addr
unfolding default_body
static_default_router abi ifindex fib = elim (fetch fib) [
  | none ↦ none
  | some buf ↦ result (walk buf (default_body abi ifindex buf) (rounds buf) 0)
]
