-- ===== src/FreeBsd/Route/RoundTrip.antt =====
-- The scope that `fill_gateway` (host/freebsd/v4gwd.c) embeds can be stripped again, and the daemon's
-- own parser reads the message that it writes.
use v4_with_v6_nh.Common.{
  ℕ, ◌+◌, ◌-◌, ◌*◌, ◌/◌, ◌%◌, ◌<◌, ◌≤◌, ◌≡◌, refl, true, false, some, List, [], ◌∷◌, arith, ◌==◌,
  if◌then◌else◌, length, inl, inr, Bool-cases,
}
use v4_with_v6_nh.Inet6.{
  Addr, byte, is_linklocal, is_mc_linklocal, with_scope, strip_embedded_scope, IsWire,
}
use v4_with_v6_nh.Rtsock.{Sockaddr, Buffer, Abi}
use v4_with_v6_nh.FreeBsd.Tables.{slots}
use v4_with_v6_nh.FreeBsd.Route.{MsgType, RouteMsg, fill_gateway, any_inet, build_msg}

set_scope :
    (hi lo : ℕ) (a : Addr)
    → length a ≡ 16
    → byte a 2 ≡ 0
    → byte a 3 ≡ 0
    → with_scope 0 0 (with_scope hi lo a) ≡ a
set_scope hi lo (b0 ∷ b1 ∷ b2 ∷ b3 ∷ a) e z2 z3 = ground arith
set_scope hi lo _ e z2 z3 = absurd (omega arith)

-- Writing the scope leaves the prefix that makes an address link-local.
linklocal-with_scope :
    (hi lo : ℕ) (a : Addr) → length a ≡ 16 → is_linklocal (with_scope hi lo a) ≡ is_linklocal a
unfolding is_linklocal
linklocal-with_scope hi lo (b0 ∷ b1 ∷ b2 ∷ b3 ∷ a) e = refl
linklocal-with_scope hi lo _ e = absurd (omega arith)

-- Stripping the scope of the gateway that `fill_gateway` writes gives back the unicast address.
pub strip-fill_gateway :
    (ifindex : ℕ) (gw : Addr)
    → IsWire gw
    → is_mc_linklocal gw ≡ false
    → strip_embedded_scope (fill_gateway ifindex gw).sin6_addr ≡ gw
unfolding strip_embedded_scope fill_gateway
strip-fill_gateway ifindex gw w uni = elim (Bool-cases (is_linklocal gw)) [
  | inl ll ↦ ground (
    arith,
    w.unscoped,
    w.size,
    set_scope (ifindex / 256 % 256) (ifindex % 256) gw,
    linklocal-with_scope (ifindex / 256 % 256) (ifindex % 256) gw,
  )
  | inr other ↦ ground arith
]

-- The interface index can be read back from the embedded scope, as far as sixteen bits hold it.
pub scope-fill_gateway :
    (ifindex : ℕ) (gw : Addr)
    → length gw ≡ 16
    → is_linklocal gw ≡ true
    → let a = (fill_gateway ifindex gw).sin6_addr in byte a 2 * 256 + byte a 3 ≡ ifindex % 65536
unfolding fill_gateway
scope-fill_gateway ifindex (b0 ∷ b1 ∷ b2 ∷ b3 ∷ a) e ll = rw ll (omega arith)
scope-fill_gateway ifindex _ e ll = absurd (omega arith)

-- The sockaddr at an offset of `space`.
abbrev at_offset : ℕ → List (ℕ × Sockaddr) → Sockaddr
at_offset q [] = any_inet
at_offset q ((o, sa) ∷ rest) = if q == o then sa else at_offset q rest

-- The written bytes as the parser of a dump would see them.
abbrev pub as_buffer : Abi → RouteMsg → Buffer
as_buffer abi m = record {
  len = m.hdr.msglen;
  hdr = λ p. m.hdr;
  sa = λ q. at_offset (q - abi.hdr_size) m.space;
}

-- A message of `route_msg` read by the inner loop of `sentinel_in_fib` has the destination 0.0.0.0
-- and the gateway of `fill_gateway`, whatever padding `SA_SIZE` adds to a sockaddr.
pub slots-build_msg :
    (abi : Abi) (pid ifindex seq : ℕ) (kind : MsgType) (gw : Addr)
    → ((n : ℕ) → n ≤ abi.sa_size n)
    → let m = build_msg abi pid ifindex seq kind gw in
      slots abi (as_buffer abi m) 0 m.hdr
      ≡ record { dst = some any_inet; gw = some (fill_gateway ifindex gw) }
unfolding slots build_msg
slots-build_msg abi pid ifindex seq kind gw pads = ground (arith, pads 16, pads 28)

-- The length in the header is that of the header and the three padded sockaddrs, and these fit into
-- the 512 bytes of `space` if `SA_SIZE` rounds up to a multiple of eight.
pub msglen-build_msg :
    (abi : Abi) (pid ifindex seq : ℕ) (kind : MsgType) (gw : Addr)
    → abi.hdr_size < 1024
    → ((n : ℕ) → abi.sa_size n < n + 8)
    → let m = build_msg abi pid ifindex seq kind gw in
      let used = abi.sa_size 16 + abi.sa_size 28 + abi.sa_size 16 in
      (m.hdr.msglen ≡ abi.hdr_size + used) × (used ≤ 512)
unfolding build_msg fill_gateway
msglen-build_msg abi pid ifindex seq kind gw small pads = omega (arith, pads 16, pads 28)
