-- ===== src/FreeBsd/Select.antt =====
-- The choice of an IPv6 default router from the kernel's list (host/freebsd/v4gwd.c `pref_rank`,
-- `select_router`). `struct in6_defrouter` and the preference bits of RFC 4191 are those of
-- <netinet6/nd6.h> and <netinet/icmp6.h>.
pub mod Best
pub mod Highest
pub mod AnyOrder
use v4_with_v6_nh.Common.{
  ℕ, zero, suc, ◌+◌, ◌/◌, Bool, true, false, ◌&&◌, Option, none, some, List, [], ◌∷◌, ltb, leb,
  ◌==◌, if◌then◌else◌, bit_and,
}
use v4_with_v6_nh.Common.Int.{ℤ, pos, negsuc, ltb_ℤ, eqb_ℤ}
use v4_with_v6_nh.Common.Text.{memcmp_ge}
use v4_with_v6_nh.Inet6.{Addr}
use v4_with_v6_nh.Rtsock.{Sysctl, fetch}

abbrev pub rtpref_mask : ℕ
rtpref_mask = 0x18

abbrev pub rtpref_high : ℕ
rtpref_high = 0x08

abbrev pub rtpref_medium : ℕ
rtpref_medium = 0x00

abbrev pub rtpref_low : ℕ
rtpref_low = 0x18

unfoldable pub pref_rank : ℕ → ℤ
pref_rank raflags =
    let pref = bit_and raflags rtpref_mask in
    if pref == rtpref_high
    then pos 2
    else if pref == rtpref_medium
    then pos 1
    else if pref == rtpref_low
    then pos 0
    else negsuc 0

-- The fields of `struct in6_defrouter` that the code reads.
pub record Defrouter : Type 0 where
  pub rtaddr : Addr
  pub flags : ℕ
  pub if_index : ℕ

-- The buffer of the ND6_DRLIST dump: its length, and the entry that a cast of `buf + p` reads.
pub record DrBuffer : Type 0 where
  pub len : ℕ
  pub entry : ℕ → Defrouter

-- The locals of the loop. `best` means nothing until `found`.
pub record Choice : Type 0 where
  pub best_rank : ℤ
  pub best : Addr
  pub found : Bool

abbrev pub start : Choice
start = record { best_rank = negsuc 0; best = []; found = false }

-- `if (found) *gw = best; return found;`
abbrev pub chosen : Choice → Option Addr
chosen c = if c.found then some c.best else none

module _ (ifindex : ℕ) where
  -- The body of the loop; each `continue` leaves the locals as they are.
  unfoldable pub consider : Defrouter → Choice → Choice
  unfolding pref_rank
  consider dr c =
      let rank = pref_rank dr.flags in
      if dr.if_index == ifindex
      then if ltb_ℤ rank c.best_rank
        then c
        else if eqb_ℤ rank c.best_rank && (c.found && memcmp_ge dr.rtaddr c.best)
        then c
        else record { best_rank = rank; best = dr.rtaddr; found = true }
      else c

  -- `for (p = buf; p + sizeof(*dr) <= buf + len; p += sizeof(*dr))`, with `size` the `sizeof`.
  unfoldable pub scan_drlist : ℕ → DrBuffer → ℕ → ℕ → Choice → Choice
  scan_drlist size buf zero p c = c
  scan_drlist size buf (suc rounds) p c =
      let rest = scan_drlist size buf rounds (p + size) (consider (buf.entry p) c) in
      if leb (p + size) buf.len then rest else c

  unfoldable pub select_router : ℕ → Sysctl DrBuffer → Option Addr
  unfolding scan_drlist fetch
  select_router size drlist = elim (fetch drlist) [
    | none ↦ none
    | some buf ↦ chosen (scan_drlist size buf (suc buf.len) 0 start)
  ]
