-- ===== src/MacOs/Tests/Systems.antt =====
-- A small macOS system with one interface of index 4: its state is the ARP entry of the gateway and the
-- disk.
use v4_with_v6_nh.Common.{
  ℕ, ◌+◌, ◌-◌, ◌*◌, ◌/◌, ◌%◌, ◌≡◌, refl, ap, Bool, true, false, ◌&&◌, Option, none, some, List, [],
  ◌∷◌, ◌==◌, ltb, if◌then◌else◌, get_or, arith,
}
use v4_with_v6_nh.Common.Text.{codes, strcmp_eq}
use v4_with_v6_nh.Common.Text.Laws.{strcmp_eq_refl, strcmp_eq-ne}
use v4_with_v6_nh.Mac.{Mac, bytes, copy_mac, mac_eq, hex_digit, mac_str}
use v4_with_v6_nh.Mac.RoundTrip.{mac_eq→}
use v4_with_v6_nh.Inet6.{Addr, unspecified}
use v4_with_v6_nh.Rtsock.{inet, inet6, link, Sockaddr, RtMsghdr, Buffer, Sysctl, fetch, walk}
use v4_with_v6_nh.MacOs.Discovery.{Ifaddr, arp_entry_present, scan, get_rti_info, pick_arp}
use v4_with_v6_nh.MacOs.Command.{Spawned, reaped, command_succeeds}
use v4_with_v6_nh.MacOs.Cache.{FilePath, Files}
use v4_with_v6_nh.MacOs.Cache.RoundTrip.{IsFiles}
use v4_with_v6_nh.MacOs.Daemon.{System, Config, is_present}
use v4_with_v6_nh.MacOs.Daemon.Laws.{IsPinning}

pub record Machine : Type 0 where
  pub arp_entry : Option Mac
  pub disk : FilePath → Option (List ℕ)

-- The disk.
abbrev pub small_files : Files Machine
small_files = record {
  read = λ m p. m.disk p;
  mkdir = λ m p. m;
  write = λ m p text. some (record m { disk = λ q. if strcmp_eq q p then some text else m.disk q });
  rename = λ m p q. record m {
    disk = λ r. if strcmp_eq r q then m.disk p else if strcmp_eq r p then none else m.disk r;
  };
}

pub small_files-IsFiles : IsFiles small_files
small_files-IsFiles = record {
  mkdir_keeps = λ f d p. refl;
  write_read = λ f p c f' e. ground (arith, strcmp_eq_refl p);
  write_keeps = λ f p c f' q e ne. ground (arith, strcmp_eq-ne q p ne);
  rename_read = λ f p q c e. ground (arith, strcmp_eq_refl q);
  rename_keeps = λ f p q r np nq. ground (arith, strcmp_eq-ne r p np, strcmp_eq-ne r q nq);
}

-- What `arp -s` reads in its argument.
abbrev digit_of : ℕ → ℕ
digit_of c = if ltb c 58 then c - 48 else c - 87

abbrev byte_at : List ℕ → ℕ → ℕ
byte_at text i = digit_of (get_or text i 0) * 16 + digit_of (get_or text (i + 1) 0)

abbrev pub parse_mac : List ℕ → Mac
parse_mac text = record {
  b0 = byte_at text 0;
  b1 = byte_at text 3;
  b2 = byte_at text 6;
  b3 = byte_at text 9;
  b4 = byte_at text 12;
  b5 = byte_at text 15;
}

-- A child that exits with this code.
abbrev exits : ℕ → Spawned
exits code = record {
  forked = true;
  uninitialized = 7;
  interrupts = 0;
  waited = reaped (code * 256);
}

-- `arp -s` and `arp -d` as the daemon calls them.
abbrev pub run_arp : Machine → List (List ℕ) → Spawned × Machine
run_arp m (path ∷ flag ∷ gateway ∷ text ∷ rest) =
    if strcmp_eq flag (codes "-s")
    then (exits 0, record m { arp_entry = some (parse_mac text) })
    else (exits 0, record m { arp_entry = none })
run_arp m _ = (exits 1, m)

digit_of-hex_digit : (d : ℕ) → digit_of (hex_digit b'a' d) ≡ d
unfolding hex_digit
digit_of-hex_digit d = ground arith

byte_of : (b : ℕ) → digit_of (hex_digit b'a' (b / 16)) * 16 + digit_of (hex_digit b'a' (b % 16)) ≡ b
byte_of b = rw (digit_of-hex_digit (b / 16), digit_of-hex_digit (b % 16)) (omega arith)

parse-mac_str : (m : Mac) → parse_mac (mac_str m) ≡ m
unfolding mac_str
parse-mac_str m =
    rw (byte_of m.b0, byte_of m.b1, byte_of m.b2, byte_of m.b3, byte_of m.b4, byte_of m.b5)

-- 192.0.0.11, fe80::a, and the two link-layer addresses.
abbrev pub sentinel : ℕ
sentinel = 0xc000000b

abbrev pub router : Addr
router = 0xfe ∷ 0x80 ∷ 0 ∷ 0 ∷ 0 ∷ 0 ∷ 0 ∷ 0 ∷ 0 ∷ 0 ∷ 0 ∷ 0 ∷ 0 ∷ 0 ∷ 0 ∷ 10 ∷ []

abbrev pub router_mac : Mac
router_mac = record { b0 = 2; b1 = 0; b2 = 0; b3 = 0xab; b4 = 0xcd; b5 = 0xef }

abbrev pub host_mac : Mac
host_mac = record { b0 = 2; b1 = 0; b2 = 0; b3 = 0; b4 = 0; b5 = 1 }

abbrev pub inet_sa : ℕ → Sockaddr
inet_sa a = record {
  len = 16;
  family = inet;
  sin_addr = a;
  sin6_addr = [];
  sdl_alen = 0;
  lladdr = [];
}

abbrev pub inet6_sa : Addr → Sockaddr
inet6_sa a = record {
  len = 28;
  family = inet6;
  sin_addr = 0;
  sin6_addr = a;
  sdl_alen = 0;
  lladdr = [];
}

abbrev pub link_sa : Mac → Sockaddr
link_sa m = record {
  len = 20;
  family = link;
  sin_addr = 0;
  sin6_addr = [];
  sdl_alen = 6;
  lladdr = bytes m;
}

-- The header of a message with a destination and a gateway, on interface 4.
abbrev pub a_header : ℕ → RtMsghdr
a_header msglen = record {
  msglen = msglen;
  version = 5;
  type = 4;
  index = 4;
  flags = 0x803;
  addrs = 3;
  pid = 0;
  seq = 0;
}

-- A dump of one message with these addresses.
abbrev pub one_message : Sockaddr → Sockaddr → Buffer
one_message dst gateway = record {
  len = 92 + dst.len + gateway.len;
  hdr = λ p. a_header (92 + dst.len + gateway.len);
  sa = λ q. if q == 92 then dst else gateway;
}

abbrev pub a_dump : Buffer → Sysctl Buffer
a_dump b = record { size = some 1; memory = true; contents = some b }

abbrev pub no_dump : Sysctl Buffer
no_dump = record { size = none; memory = true; contents = none }

-- The tables that the small system shows: ::/0 via the router, the router's ND entry, the default route
-- via the sentinel, and the ARP entry.
abbrev pub rt6_dump : Buffer
rt6_dump = one_message (inet6_sa unspecified) (inet6_sa router)

abbrev pub nd6_dump : Buffer
nd6_dump = one_message (inet6_sa router) (link_sa router_mac)

abbrev pub rt4_dump : Buffer
rt4_dump = one_message (inet_sa 0) (inet_sa sentinel)

abbrev pub arp_dump : Mac → Buffer
arp_dump m = one_message (inet_sa sentinel) (link_sa m)

abbrev pub arp_of : Option Mac → Sysctl Buffer
arp_of none = no_dump
arp_of (some m) = a_dump (arp_dump m)

abbrev pub own_address : Ifaddr
own_address = record { ifa_name = codes "en0"; ifa_addr = some (link_sa host_mac) }

-- With the router resolved by ND, or not yet.
abbrev pub system_with : Sysctl Buffer → System Machine
system_with nd6 = record {
  hdr_size = 92;
  if_nametoindex = λ m. 4;
  state_file = λ m. none;
  rt6 = λ m. a_dump rt6_dump;
  rt4 = λ m. a_dump rt4_dump;
  nd6 = λ m. nd6;
  arp = λ m. arp_of m.arp_entry;
  getifaddrs = λ m. some (own_address ∷ []);
  spawn = run_arp;
  files = small_files;
}

abbrev pub small_system : System Machine
small_system = system_with (a_dump nd6_dump)

abbrev pub early_system : System Machine
early_system = system_with no_dump

abbrev pub config_with : Bool → Config
config_with f = record {
  ifname = codes "en0";
  sentinel_str = codes "192.0.0.11";
  sentinel_addr = sentinel;
  require_sentinel_route = true;
  use_sentinel_file = f;
}

abbrev pub with_r : Config
with_r = config_with false

abbrev pub machine_entry : Machine → Option Mac
machine_entry m = m.arp_entry

arp_dump-mac_eq :
    (m mac : Mac) → arp_entry_present 92 4 sentinel mac (arp_of (some m)) ≡ (mac_eq m mac && true)
unfolding arp_entry_present fetch scan walk get_rti_info pick_arp copy_mac mac_eq
arp_dump-mac_eq m mac = refl

arp_dump-none : (mac : Mac) → arp_entry_present 92 4 sentinel mac (arp_of none) ≡ false
unfolding arp_entry_present fetch
arp_dump-none mac = refl

shows_arp :
    (e : Option Mac) (mac : Mac)
    → arp_entry_present 92 4 sentinel mac (arp_of e) ≡ true
    → e ≡ some mac
shows_arp none mac h = cc (h, arp_dump-none mac)
shows_arp (some m) mac h =
    let same : mac_eq m mac ≡ true = ground (arith, arp_dump-mac_eq m mac, h) in
    ap some (mac_eq→ m mac same)

pub system-IsPinning :
    (nd6 : Sysctl Buffer) (f : Bool) → IsPinning (system_with nd6) (config_with f) machine_entry
unfolding strcmp_eq is_present command_succeeds
system-IsPinning nd6 f = record {
  shows = λ m mac h. shows_arp m.arp_entry mac h;
  sets = λ m mac h. ap some (parse-mac_str mac);
  fails = λ m mac h. cc;
  deletes = λ m h. refl;
  mkdir_keeps = λ m p. refl;
  write_keeps = λ m p text m' e. ground arith;
  rename_keeps = λ m p q. refl;
}
