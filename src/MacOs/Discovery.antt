-- ===== src/MacOs/Discovery.antt =====
-- What the daemon reads from the kernel (host/macos/v4gwd-arp.c `ROUNDUP`, `get_rti_info`,
-- `find_default_router`, `router_lladdr`, `arp_entry_present`, `sentinel_in_fib`, `iface_lladdr`).
-- An IPv4 address is the number `ntohl(s_addr)`.
pub mod Rows
pub mod Refine
use v4_with_v6_nh.Common.{
  is_some, is_true, ℕ, zero, suc, ◌+◌, ◌-◌, ◌*◌, ◌^◌, Bool, true, false, not, ◌&&◌, ◌||◌, Option,
  none, some, List, [], ◌∷◌, ltb, ◌==◌, if◌then◌else◌, bit_and, bit_or, get_or,
}
use v4_with_v6_nh.Common.Text.{memcmp_eq, strcmp_eq}
use v4_with_v6_nh.Mac.{Mac, bytes, copy_mac}
use v4_with_v6_nh.Inet6.{Addr, is_unspecified, strip_embedded_scope}
use v4_with_v6_nh.Rtsock.{
  Family, is_inet, is_inet6, is_link, Sockaddr, RtMsghdr, Buffer, Sysctl, fetch, Outcome, result,
  walk, rounds, rtm_version, rtf_up, rtf_gateway, rtf_static,
}

-- `ROUNDUP(a)`, with `sizeof(uint32_t) - 1` = 3.
unfoldable pub roundup : ℕ → ℕ
roundup a = if ltb 0 a then 1 + bit_or (a - 1) 3 else 4

abbrev pub rtax_max : ℕ
rtax_max = 8

-- The slots from number `i` on, `n` of them, with the next sockaddr at offset `q`.
unfoldable pub rti_from : Buffer → ℕ → ℕ → ℕ → ℕ → List (Option Sockaddr)
unfolding roundup
rti_from buf addrs zero i q = []
rti_from buf addrs (suc n) i q =
    let unset = bit_and addrs (2 ^ i) == 0 in
    (if unset then none else some (buf.sa q))
    ∷ rti_from buf addrs n (i + 1) (if unset then q else q + roundup (buf.sa q).len)

unfoldable pub get_rti_info : Buffer → ℕ → ℕ → List (Option Sockaddr)
unfolding rti_from
get_rti_info buf addrs q = rti_from buf addrs rtax_max 0 q

-- `rti[RTAX_DST]` and `rti[RTAX_GATEWAY]`
abbrev pub rti_dst : List (Option Sockaddr) → Option Sockaddr
rti_dst rti = get_or rti 0 none

abbrev pub rti_gateway : List (Option Sockaddr) → Option Sockaddr
rti_gateway rti = get_or rti 1 none

-- A test of the destination and the gateway, which a message without either does not pass.
abbrev pub with_both :
    {A : Type 0} → (Sockaddr → Sockaddr → Option A) → Option Sockaddr → Option Sockaddr → Option A
with_both f none g = none
with_both f (some d) none = none
with_both f (some d) (some g) = f d g

-- `RTF_GATEWAY | RTF_UP`
abbrev pub gateway_up : ℕ
gateway_up = 0x3

-- The tests of `find_default_router` on a message with both addresses.
unfoldable pub check_router : Sockaddr → Sockaddr → Option Addr
check_router d g =
    if not (is_inet6 d.family) || not (is_inet6 g.family)
    then none
    else if not (is_unspecified d.sin6_addr)
    then none
    else some (strip_embedded_scope g.sin6_addr)

unfoldable pub pick_router : ℕ → RtMsghdr → Option Sockaddr → Option Sockaddr → Option Addr
unfolding check_router
pick_router ifindex rtm d g =
    if not (rtm.version == rtm_version)
    then none
    else if not (bit_and rtm.flags gateway_up == gateway_up)
    then none
    else if not (rtm.index == ifindex)
    then none
    else with_both check_router d g

-- The tests of `router_lladdr` for the router `gw`.
unfoldable pub check_lladdr : Addr → Sockaddr → Sockaddr → Option Mac
check_lladdr gw d g =
    if not (is_inet6 d.family) || not (is_link g.family)
    then none
    else if not (memcmp_eq (strip_embedded_scope d.sin6_addr) gw)
    then none
    else if not (g.sdl_alen == 6)
    then none
    else some (copy_mac g.lladdr)

unfoldable pub pick_lladdr : ℕ → Addr → RtMsghdr → Option Sockaddr → Option Sockaddr → Option Mac
unfolding check_lladdr
pick_lladdr ifindex gw rtm d g =
    if not (rtm.version == rtm_version)
    then none
    else if not (rtm.index == ifindex)
    then none
    else with_both (check_lladdr gw) d g

-- The tests of `arp_entry_present`: the first entry for the sentinel ends the loop with the answer.
unfoldable pub check_arp : ℕ → Mac → ℕ → Sockaddr → Sockaddr → Option Bool
check_arp sentinel mac flags d g =
    if not (is_inet d.family) || not (is_link g.family)
    then none
    else if not (d.sin_addr == sentinel)
    then none
    else some (
        (g.sdl_alen == 6)
        && memcmp_eq (bytes (copy_mac g.lladdr)) (bytes mac)
        && not (bit_and flags rtf_static == 0))

unfoldable pub pick_arp : ℕ → ℕ → Mac → RtMsghdr → Option Sockaddr → Option Sockaddr → Option Bool
unfolding check_arp
pick_arp ifindex sentinel mac rtm d g =
    if not (rtm.version == rtm_version)
    then none
    else if not (rtm.index == ifindex)
    then none
    else with_both (check_arp sentinel mac rtm.flags) d g

-- The tests of `sentinel_in_fib`.
unfoldable pub check_sentinel : ℕ → Sockaddr → Sockaddr → Option (Unit {0})
check_sentinel sentinel d g =
    if not (is_inet d.family) || not (is_inet g.family)
    then none
    else if not (d.sin_addr == 0)
    then none
    else if g.sin_addr == sentinel
    then some tt
    else none

unfoldable pub pick_sentinel : ℕ → RtMsghdr → Option Sockaddr → Option Sockaddr → Option (Unit {0})
unfolding check_sentinel
pick_sentinel sentinel rtm d g =
    if not (rtm.version == rtm_version)
    then none
    else if bit_and rtm.flags rtf_gateway == 0
    then none
    else with_both (check_sentinel sentinel) d g

-- The loop that the four functions share: `get_rti_info` behind the header, then the tests.
unfoldable pub scan :
    {A : Type 0} → ℕ → (RtMsghdr → Option Sockaddr → Option Sockaddr → Option A) → Buffer → Option A
scan hdr_size pick buf = result (
    walk buf
      (λ p rtm.
        let rti = get_rti_info buf rtm.addrs (p + hdr_size) in
        pick rtm (rti_dst rti) (rti_gateway rti))
      (rounds buf) 0)

abbrev pub scan_dump :
    {A : Type 0}
    → ℕ
    → (RtMsghdr → Option Sockaddr → Option Sockaddr → Option A)
    → Sysctl Buffer
    → Option A
scan_dump hdr_size pick s = elim (fetch s) [ none ↦ none | some buf ↦ scan hdr_size pick buf ]

unfoldable pub find_default_router : ℕ → ℕ → Sysctl Buffer → Option Addr
find_default_router hdr_size ifindex rt6 = scan_dump hdr_size (pick_router ifindex) rt6

unfoldable pub router_lladdr : ℕ → ℕ → Addr → Sysctl Buffer → Option Mac
router_lladdr hdr_size ifindex gw nd6 = scan_dump hdr_size (pick_lladdr ifindex gw) nd6

unfoldable pub arp_entry_present : ℕ → ℕ → ℕ → Mac → Sysctl Buffer → Bool
arp_entry_present hdr_size ifindex sentinel mac arp =
    is_true (scan_dump hdr_size (pick_arp ifindex sentinel mac) arp)

unfoldable pub sentinel_in_fib : ℕ → ℕ → Sysctl Buffer → Bool
sentinel_in_fib hdr_size sentinel rt4 = is_some (scan_dump hdr_size (pick_sentinel sentinel) rt4)

-- One entry of `getifaddrs`.
pub record Ifaddr : Type 0 where
  pub ifa_name : List ℕ
  pub ifa_addr : Option Sockaddr

abbrev pub own_mac : List ℕ → Ifaddr → Option Mac
own_mac ifn ifa = elim (ifa.ifa_addr) [
  | none ↦ none
  | some sa ↦
      if not (is_link sa.family) || not (strcmp_eq ifa.ifa_name ifn)
      then none
      else if sa.sdl_alen == 6
      then some (copy_mac sa.lladdr)
      else none
]

unfoldable pub first_mac : List ℕ → List Ifaddr → Option Mac
first_mac ifn [] = none
first_mac ifn (ifa ∷ rest) = elim (own_mac ifn ifa) [ some m ↦ some m | none ↦ first_mac ifn rest ]

-- `none` is a failure of `getifaddrs`.
unfoldable pub iface_lladdr : List ℕ → Option (List Ifaddr) → Option Mac
unfolding first_mac
iface_lladdr ifn none = none
iface_lladdr ifn (some list) = first_mac ifn list
