-- ===== src/Inet6.antt =====
-- IPv6 addresses as `struct in6_addr`, sixteen bytes in network order, with the tests of
-- <netinet/in.h> that the daemons use. A link-local address on a KAME routing socket carries its
-- interface index in bytes 2 and 3.
use v4_with_v6_nh.Common.{
  ℕ, ◌≡◌, Bool, true, ◌&&◌, List, [], ◌∷◌, ◌==◌, if◌then◌else◌, bit_and, length, get_or, set,
}
use v4_with_v6_nh.Common.Text.{memcmp_eq}
use v4_with_v6_nh.Common.Text.Laws.{IsBytes}

abbrev pub Addr : Type 0
Addr = List ℕ

-- `a->s6_addr[i]`
abbrev pub byte : Addr → ℕ → ℕ
byte a i = get_or a i 0

-- fe80::/10
unfoldable pub is_linklocal : Addr → Bool
is_linklocal a = (byte a 0 == 0xfe) && (bit_and (byte a 1) 0xc0 == 0x80)

-- A multicast address of link-local scope.
unfoldable pub is_mc_linklocal : Addr → Bool
is_mc_linklocal a = (byte a 0 == 0xff) && (bit_and (byte a 1) 0x0f == 0x02)

abbrev pub unspecified : Addr
unspecified = 0 ∷ 0 ∷ 0 ∷ 0 ∷ 0 ∷ 0 ∷ 0 ∷ 0 ∷ 0 ∷ 0 ∷ 0 ∷ 0 ∷ 0 ∷ 0 ∷ 0 ∷ 0 ∷ []

unfoldable pub is_unspecified : Addr → Bool
is_unspecified a = memcmp_eq a unspecified

-- `a.s6_addr[2] = hi; a.s6_addr[3] = lo;`
abbrev pub with_scope : ℕ → ℕ → Addr → Addr
with_scope hi lo a = set (set a 2 hi) 3 lo

-- Clear the embedded scope of a link-local address (macOS `strip_embedded_scope`; written out in
-- FreeBSD's `static_default_router`).
unfoldable pub strip_embedded_scope : Addr → Addr
unfolding is_linklocal
strip_embedded_scope a = if is_linklocal a then with_scope 0 0 a else a

-- Sixteen bytes.
pub record IsAddr (a : Addr) : Type 0 where
  pub size : length a ≡ 16
  pub bytes : IsBytes a

-- An address as it is on the wire: a link-local one has no interface index in bytes 2 and 3.
pub record IsWire (a : Addr) : Type 0 where
  pub size : length a ≡ 16
  pub unscoped : is_linklocal a ≡ true → (byte a 2 ≡ 0) × (byte a 3 ≡ 0)
