-- ===== src/Rtsock.antt =====
-- The routing socket as the FreeBSD and macOS daemons read it: the result of a `sysctl` dump
-- (`NET_RT_DUMP`, `NET_RT_FLAGS`) and the loops over its messages
-- (host/freebsd/v4gwd.c `sentinel_in_fib`, `static_default_router`; host/macos/v4gwd-arp.c
-- `find_default_router`, `router_lladdr`, `arp_entry_present`, `sentinel_in_fib`).
-- The layout of the structures is the kernel's (<net/route.h>): a dump is a function from an offset
-- to what the casts of the code read there. The flag values are those of the same header.
pub mod Walk
use v4_with_v6_nh.Common.{
  ℕ, zero, suc, ◌+◌, Bool, true, false, Option, none, some, List, ltb, ◌==◌, if◌then◌else◌,
}

-- An address family, as far as the code tells them apart.
pub data Family : Type 0 where
  inet inet6 link other : Family

abbrev pub is_inet : Family → Bool
is_inet inet = true
is_inet _ = false

abbrev pub is_inet6 : Family → Bool
is_inet6 inet6 = true
is_inet6 _ = false

abbrev pub is_link : Family → Bool
is_link link = true
is_link _ = false

-- A `struct sockaddr` with what its casts read: `sin_addr` of a `sockaddr_in`, `sin6_addr` of a
-- `sockaddr_in6`, `sdl_alen` and `LLADDR` of a `sockaddr_dl`.
pub record Sockaddr : Type 0 where
  pub len : ℕ
  pub family : Family
  pub sin_addr : ℕ
  pub sin6_addr : List ℕ
  pub sdl_alen : ℕ
  pub lladdr : List ℕ

-- The fields of `struct rt_msghdr` that the code uses.
pub record RtMsghdr : Type 0 where
  pub msglen : ℕ
  pub version : ℕ
  pub type : ℕ
  pub index : ℕ
  pub flags : ℕ
  pub addrs : ℕ
  pub pid : ℕ
  pub seq : ℕ

abbrev pub rtm_version : ℕ
rtm_version = 5

abbrev pub rtf_up : ℕ
rtf_up = 0x1

abbrev pub rtf_gateway : ℕ
rtf_gateway = 0x2

abbrev pub rtf_static : ℕ
rtf_static = 0x800

abbrev pub rta_dst : ℕ
rta_dst = 0x1

abbrev pub rta_gateway : ℕ
rta_gateway = 0x2

abbrev pub rta_netmask : ℕ
rta_netmask = 0x4

-- A buffer that `sysctl` has filled: its length, and what a cast of the pointer `buf + p` reads.
pub record Buffer : Type 0 where
  pub len : ℕ
  pub hdr : ℕ → RtMsghdr
  pub sa : ℕ → Sockaddr

-- What <net/route.h> fixes: the size of `struct rt_msghdr`, and the room that a `sockaddr` of a
-- given `sa_len` takes in a message (FreeBSD's `SA_SIZE`).
pub record Abi : Type 0 where
  pub hdr_size : ℕ
  pub sa_size : ℕ → ℕ

-- What the calls of one dump return: the size of the first `sysctl` (`none` for a failure), whether
-- `malloc` succeeds, and the buffer of the second `sysctl`.
pub record Sysctl (B : Type 0) : Type 0 where
  pub size : Option ℕ
  pub memory : Bool
  pub contents : Option B

-- The preamble of every dump: ask the size, allocate, read; `none` is the early `return false`.
unfoldable pub fetch : {B : Type 0} → Sysctl B → Option B
fetch s = elim s.size [
  | none ↦ none
  | some n ↦ if n == 0 then none else if s.memory then s.contents else none
]

-- How a loop over a dump ends: by its `break`, at the end of the buffer, or not within the rounds.
pub data Outcome (A : Type 0) : Type 0 where
  found : A → Outcome A
  absent : Outcome A
  running : Outcome A

-- What the routine returns (`found`, with what it has filled).
abbrev pub result : {A : Type 0} → Outcome A → Option A
result (found a) = some a
result absent = none
result running = none

-- `for (p = buf; p < end; ) { rtm = p; p += rtm->rtm_msglen; ... }`: the body is a function of the
-- message at `p`, `none` where it says `continue`, `some` where it says `break`.
unfoldable pub walk : {A : Type 0} → Buffer → (ℕ → RtMsghdr → Option A) → ℕ → ℕ → Outcome A
walk buf body zero p = running
walk buf body (suc rounds) p =
    let rest = walk buf body rounds (p + (buf.hdr p).msglen) in
    if ltb p buf.len then elim (body p (buf.hdr p)) [ some a ↦ found a | none ↦ rest ] else absent

-- A message is at least one byte long, so this many rounds are enough (`Rtsock.Walk`).
abbrev pub rounds : Buffer → ℕ
rounds buf = suc buf.len
