-- ===== src/FreeBsd/Tests/Kernels.antt =====
-- A small FreeBSD kernel with one interface of index 3: its state is the IPv4 default route.
use v4_with_v6_nh.Common.{
  ℕ, ◌+◌, ◌*◌, ◌/◌, ◌≡◌, ◌≢◌, Bool, true, false, Option, none, some, [], ◌∷◌, ◌==◌, if◌then◌else◌,
  arith,
}
use v4_with_v6_nh.Inet6.{Addr, unspecified}
use v4_with_v6_nh.Rtsock.{inet, inet6, Sockaddr, RtMsghdr, Buffer, Abi, Sysctl}
use v4_with_v6_nh.FreeBsd.Select.{Defrouter, DrBuffer}
use v4_with_v6_nh.FreeBsd.Route.{MsgType, rtm_add, rtm_delete, rtm_change, any_inet, fill_gateway}
use v4_with_v6_nh.FreeBsd.Tables.{sentinel_addr}
use v4_with_v6_nh.FreeBsd.Daemon.{Errno, eexist, esrch, is_eexist_or_einval, Kernel}
use v4_with_v6_nh.FreeBsd.Daemon.Laws.{IsRouting, IsWorking}

-- No default route, the one via 192.0.0.11 that DHCP has installed, or one through an IPv6 gateway.
pub data Fib : Type 0 where
  empty dhcp : Fib
  via : Sockaddr → Fib

-- fe80::a, fe80::b and fe80::c
abbrev pub router_a : Addr
router_a = 0xfe ∷ 0x80 ∷ 0 ∷ 0 ∷ 0 ∷ 0 ∷ 0 ∷ 0 ∷ 0 ∷ 0 ∷ 0 ∷ 0 ∷ 0 ∷ 0 ∷ 0 ∷ 10 ∷ []

abbrev pub router_b : Addr
router_b = 0xfe ∷ 0x80 ∷ 0 ∷ 0 ∷ 0 ∷ 0 ∷ 0 ∷ 0 ∷ 0 ∷ 0 ∷ 0 ∷ 0 ∷ 0 ∷ 0 ∷ 0 ∷ 11 ∷ []

abbrev pub router_c : Addr
router_c = 0xfe ∷ 0x80 ∷ 0 ∷ 0 ∷ 0 ∷ 0 ∷ 0 ∷ 0 ∷ 0 ∷ 0 ∷ 0 ∷ 0 ∷ 0 ∷ 0 ∷ 0 ∷ 12 ∷ []

-- On interface 3 b and a with medium preference; c, on another interface, is preferred to both.
abbrev pub drlist_b : Defrouter
drlist_b = record { rtaddr = router_b; flags = 0; if_index = 3 }

abbrev pub drlist_a : Defrouter
drlist_a = record { rtaddr = router_a; flags = 0; if_index = 3 }

abbrev pub drlist_c : Defrouter
drlist_c = record { rtaddr = router_c; flags = 0x08; if_index = 4 }

abbrev pub three_routers : DrBuffer
three_routers = record {
  len = 120;
  entry = λ p. if p == 0 then drlist_b else if p == 40 then drlist_a else drlist_c;
}

abbrev pub a_dump : {B : Type 0} → B → Sysctl B
a_dump b = record { size = some 1; memory = true; contents = some b }

abbrev pub no_dump : {B : Type 0} → Sysctl B
no_dump = record { size = none; memory = true; contents = none }

abbrev pub freebsd_abi : Abi
freebsd_abi = record { hdr_size = 152; sa_size = λ n. (n + 7) / 8 * 8 }

-- 192.0.0.11
abbrev pub sentinel_sa : Sockaddr
sentinel_sa = record {
  len = 16;
  family = inet;
  sin_addr = sentinel_addr;
  sin6_addr = [];
  sdl_alen = 0;
  lladdr = [];
}

abbrev pub any_inet6 : Sockaddr
any_inet6 = record {
  len = 28;
  family = inet6;
  sin_addr = 0;
  sin6_addr = unspecified;
  sdl_alen = 0;
  lladdr = [];
}

-- The header of a message with a destination and a gateway, on interface 3.
abbrev pub a_header : ℕ → ℕ → RtMsghdr
a_header msglen flags = record {
  msglen = msglen;
  version = 5;
  type = 4;
  index = 3;
  flags = flags;
  addrs = 3;
  pid = 0;
  seq = 0;
}

-- A dump of one message: 0.0.0.0/0 via 192.0.0.11.
abbrev pub sentinel_dump : Buffer
sentinel_dump = record {
  len = 184;
  hdr = λ p. a_header 184 0x803;
  sa = λ q. if q == 152 then any_inet else sentinel_sa;
}

-- A dump of one message: ::/0 via fe80::a, with the scope 3 embedded.
abbrev pub default_dump : Buffer
default_dump = record {
  len = 216;
  hdr = λ p. a_header 216 0x803;
  sa = λ q. if q == 152 then any_inet6 else fill_gateway 3 router_a;
}

abbrev pub fib4_of : Fib → Sysctl Buffer
fib4_of dhcp = a_dump sentinel_dump
fib4_of _ = no_dump

-- `write`: RTM_ADD fails with EEXIST where there is a default route, RTM_CHANGE replaces one, and
-- RTM_DELETE fails with ESRCH where there is none through a gateway of its kind.
abbrev pub write_fib : Fib → MsgType → Sockaddr → Option Errno × Fib
write_fib empty rtm_add g = (none, via g)
write_fib dhcp rtm_add g = (some eexist, dhcp)
write_fib (via x) rtm_add g = (some eexist, via x)
write_fib empty rtm_change g = (some esrch, empty)
write_fib dhcp rtm_change g = (none, via g)
write_fib (via x) rtm_change g = (none, via g)
write_fib empty rtm_delete g = (some esrch, empty)
write_fib dhcp rtm_delete g = (some esrch, dhcp)
write_fib (via x) rtm_delete g = (none, empty)

abbrev pub small_kernel : Kernel Fib
small_kernel = record {
  abi = freebsd_abi;
  drouter_size = 40;
  pid = 77;
  if_nametoindex = λ os. 3;
  state_file = λ os. none;
  drlist = λ os. a_dump three_routers;
  fib4 = fib4_of;
  fib6 = λ os. no_dump;
  write = λ os m. write_fib os m.kind m.gateway;
}

abbrev pub route_of : Fib → Option Sockaddr
route_of (via g) = some g
route_of _ = none

abbrev pub has_default : Fib → Bool
has_default empty = false
has_default _ = true

pub small_kernel-IsRouting : IsRouting small_kernel route_of
small_kernel-IsRouting = record {
  fails = λ os m. fails os m.kind m.gateway;
  sets = λ os m. sets os m.kind m.gateway;
  deletes = λ os m. deletes os m.kind m.gateway;
  missing = λ os m. missing os m.kind m.gateway;
}
  where
    fails :
        (os : Fib) (t : MsgType) (g : Sockaddr)
        → (write_fib os t g).0 ≢ none
        → route_of (write_fib os t g).1 ≡ route_of os
    fails os t g h = ground arith

    sets :
        (os : Fib) (t : MsgType) (g : Sockaddr)
        → t ≢ rtm_delete
        → (write_fib os t g).0 ≡ none
        → route_of (write_fib os t g).1 ≡ some g
    sets os t g h e = ground arith

    deletes :
        (os : Fib) (t : MsgType) (g : Sockaddr)
        → t ≡ rtm_delete
        → (write_fib os t g).0 ≡ none
        → route_of (write_fib os t g).1 ≡ none
    deletes os t g h e = ground arith

    missing :
        (os : Fib) (t : MsgType) (g : Sockaddr)
        → t ≡ rtm_delete
        → (write_fib os t g).0 ≡ some esrch
        → route_of os ≢ some g
    missing os t g h e r = ground arith

pub small_kernel-IsWorking : IsWorking small_kernel route_of has_default
small_kernel-IsWorking = record {
  present = λ os. present os;
  changes = λ os m. changes os m.kind m.gateway;
  adds = λ os m. adds os m.kind m.gateway;
  removes = λ os m. removes os m.kind m.gateway;
}
  where
    present : (os : Fib) {g : Sockaddr} → route_of os ≡ some g → has_default os ≡ true
    present os e = ground arith

    changes :
        (os : Fib) (t : MsgType) (g : Sockaddr)
        → t ≡ rtm_change
        → has_default os ≡ true
        → (write_fib os t g).0 ≡ none
    changes os t g h e = ground arith

    adds :
        (os : Fib) (t : MsgType) (g : Sockaddr)
        → t ≡ rtm_add
        → (write_fib os t g).0 ≢ none
        → (is_eexist_or_einval (write_fib os t g).0 ≡ true)
          × (has_default (write_fib os t g).1 ≡ true)
    adds os t g h e = ground arith

    removes :
        (os : Fib) (t : MsgType) (g : Sockaddr)
        → t ≡ rtm_delete
        → (write_fib os t g).0 ≢ none
        → (write_fib os t g).0 ≡ some esrch
    removes os t g h e = ground arith
