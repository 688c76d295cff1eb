-- ===== src/FreeBsd/Route.antt =====
-- The messages that the daemon writes to its routing socket (host/freebsd/v4gwd.c `fill_gateway`,
-- `route_msg`).
pub mod RoundTrip
use v4_with_v6_nh.Common.{
  ℕ, zero, suc, ◌+◌, ◌/◌, ◌%◌, Bool, true, false, ◌||◌, Option, none, some, List, [], ◌∷◌, ◌==◌,
  if◌then◌else◌, bit_and,
}
use v4_with_v6_nh.Inet6.{Addr, is_linklocal, is_mc_linklocal, with_scope}
use v4_with_v6_nh.Rtsock.{
  Family, inet, inet6, Sockaddr, RtMsghdr, Abi, rtm_version, rtf_up, rtf_gateway, rtf_static,
}

abbrev pub sizeof_sockaddr_in : ℕ
sizeof_sockaddr_in = 16

abbrev pub sizeof_sockaddr_in6 : ℕ
sizeof_sockaddr_in6 = 28

-- The scope is embedded in bytes 2 and 3: `(ifindex >> 8) & 0xff` and `ifindex & 0xff`.
unfoldable pub fill_gateway : ℕ → Addr → Sockaddr
unfolding is_linklocal is_mc_linklocal
fill_gateway ifindex gw = record {
  len = sizeof_sockaddr_in6;
  family = inet6;
  sin_addr = 0;
  sin6_addr =
      if is_linklocal gw || is_mc_linklocal gw
      then with_scope (ifindex / 256 % 256) (ifindex % 256) gw
      else gw;
  sdl_alen = 0;
  lladdr = [];
}

-- `dst` and `mask`, both 0.0.0.0.
abbrev pub any_inet : Sockaddr
any_inet = record {
  len = sizeof_sockaddr_in;
  family = inet;
  sin_addr = 0;
  sin6_addr = [];
  sdl_alen = 0;
  lladdr = [];
}

pub data MsgType : Type 0 where
  rtm_add rtm_delete rtm_change : MsgType

-- RTM_ADD, RTM_DELETE and RTM_CHANGE as numbers.
abbrev pub type_code : MsgType → ℕ
type_code rtm_add = 1
type_code rtm_delete = 2
type_code rtm_change = 3

-- `struct { struct rt_msghdr hdr; char space[512]; }`: the sockaddrs with their offsets in `space`.
pub record RouteMsg : Type 0 where
  pub kind : MsgType
  pub hdr : RtMsghdr
  pub gateway : Sockaddr
  pub space : List (ℕ × Sockaddr)

-- `RTF_UP | RTF_GATEWAY | RTF_STATIC`
abbrev pub route_flags : ℕ
route_flags = 0x803

-- `RTA_DST | RTA_GATEWAY | RTA_NETMASK`
abbrev pub route_addrs : ℕ
route_addrs = 0x7

-- What `route_msg` has built when it calls `write`.
unfoldable pub build_msg : Abi → ℕ → ℕ → ℕ → MsgType → Addr → RouteMsg
build_msg abi pid ifindex seq kind gw =
    let gw6 = fill_gateway ifindex gw in
    let cp1 = abi.sa_size any_inet.len in
    let cp2 = cp1 + abi.sa_size gw6.len in
    let cp3 = cp2 + abi.sa_size any_inet.len in
    record {
      kind = kind;
      hdr = record {
        msglen = (abi.hdr_size + cp3) % 65536;
        version = rtm_version;
        type = type_code kind;
        index = ifindex % 65536;
        flags = route_flags;
        addrs = route_addrs;
        pid = pid;
        seq = seq;
      };
      gateway = gw6;
      space = (0, any_inet) ∷ (cp1, gw6) ∷ (cp2, any_inet) ∷ [];
    }
