-- ===== src/MacOs/Daemon.antt =====
-- The state of the daemon and its operations (host/macos/v4gwd-arp.c `install`, `withdraw`,
-- `sentinel_in_file`, `reconcile`, `dry_run_report`). The system is a parameter: its tables, its files,
-- and what the commands do that it runs. The log lines are left out.
pub mod Laws
pub mod Pins
pub mod DryRun
use v4_with_v6_nh.Common.{
  ℕ, Bool, true, false, not, ◌&&◌, Option, none, some, List, [], ◌∷◌, ◌==◌, if◌then◌else◌, take,
  length,
}
use v4_with_v6_nh.Common.Text.{fgets, strncmp_eq, codes}
use v4_with_v6_nh.Mac.{Mac, mac_eq, mac_str}
use v4_with_v6_nh.Inet6.{Addr}
use v4_with_v6_nh.Rtsock.{Buffer, Sysctl}
use v4_with_v6_nh.MacOs.Discovery.{
  Ifaddr, find_default_router, router_lladdr, arp_entry_present, sentinel_in_fib, iface_lladdr,
}
use v4_with_v6_nh.MacOs.Command.{Spawned, command_succeeds}
use v4_with_v6_nh.MacOs.Cache.{Files, router_cache_lookup, router_cache_put}

-- `rt6`, `rt4` are the routing tables, `nd6` and `arp` the link-layer tables; `spawn` runs
-- a command line.
pub record System (K : Type 0) : Type 0 where
  pub hdr_size : ℕ
  pub if_nametoindex : K → ℕ
  pub state_file : K → Option (List ℕ)
  pub rt6 : K → Sysctl Buffer
  pub rt4 : K → Sysctl Buffer
  pub nd6 : K → Sysctl Buffer
  pub arp : K → Sysctl Buffer
  pub getifaddrs : K → Option (List Ifaddr)
  pub spawn : K → List (List ℕ) → Spawned × K
  pub files : Files K

-- `run(argv)`, with what the command does to the system.
abbrev pub run_command : {K : Type 0} → System K → K → List (List ℕ) → Bool × K
run_command sys os argv = let (s, os') = sys.spawn os argv in (command_succeeds s, os')

-- The command line and the gateway address, as text and as a number.
pub record Config : Type 0 where
  pub ifname : List ℕ
  pub sentinel_str : List ℕ
  pub sentinel_addr : ℕ
  pub require_sentinel_route : Bool
  pub use_sentinel_file : Bool

pub record State : Type 0 where
  pub ifindex : ℕ
  pub arp_installed : Bool
  pub installed_mac : Mac

pub record World (K : Type 0) : Type 0 where
  pub daemon : State
  pub os : K

unfoldable pub sentinel_in_file : List ℕ → Option (List ℕ) → Bool
sentinel_in_file sentinel_str none = false
sentinel_in_file sentinel_str (some content) = elim (fgets 64 content) [
  | none ↦ false
  | some buf ↦ strncmp_eq (length sentinel_str) buf sentinel_str
]

-- `strlcpy(ifbuf, ifname, IF_NAMESIZE)`
abbrev pub ifbuf : Config → List ℕ
ifbuf c = take 15 c.ifname

-- arp -s <sentinel> <mac> ifscope <interface>
abbrev pub install_argv : Config → Mac → List (List ℕ)
install_argv c mac =
    codes "/usr/sbin/arp"
    ∷ codes "-s"
    ∷ c.sentinel_str
    ∷ mac_str mac
    ∷ codes "ifscope"
    ∷ ifbuf c
    ∷ []

-- arp -d <sentinel> ifscope <interface>
abbrev pub withdraw_argv : Config → List (List ℕ)
withdraw_argv c =
    codes "/usr/sbin/arp" ∷ codes "-d" ∷ c.sentinel_str ∷ codes "ifscope" ∷ ifbuf c ∷ []

-- What `dry_run_report` prints: the answers of the sentinel lines that it prints, then how far
-- discovery gets.
pub data Found : Type 0 where
  would_remove : Found
  would_wait : Addr → Found
  would_install : Addr → Mac → Found

pub record Report : Type 0 where
  pub in_fib : Option Bool
  pub in_file : Option Bool
  pub found : Found

abbrev pub lladdr_line : Addr → Option Mac → Found
lladdr_line gw none = would_wait gw
lladdr_line gw (some mac) = would_install gw mac

module _ {K : Type 0} (sys : System K) (c : Config) where
  open sys use {hdr_size, if_nametoindex, state_file, rt6, rt4, nd6, arp, getifaddrs, files}

  -- The entry in the kernel is ours, permanent and with this address.
  unfoldable pub is_present : ℕ → Mac → K → Bool
  is_present ifindex mac os = arp_entry_present hdr_size ifindex c.sentinel_addr mac (arp os)

  abbrev pub noted : Mac → State → Bool × K → World K
  noted mac s (false, os) = record { daemon = s; os = os }
  noted mac s (true, os) = record {
    daemon = record s { arp_installed = true; installed_mac = mac };
    os = os;
  }

  unfoldable pub install : Mac → World K → World K
  install mac w =
      let s = w.daemon in
      if s.arp_installed && (mac_eq s.installed_mac mac && is_present s.ifindex mac w.os)
      then w
      else noted mac s (run_command sys w.os (install_argv c mac))

  unfoldable pub withdraw : World K → World K
  withdraw w =
      let s = w.daemon in
      if not s.arp_installed then w else record {
        daemon = record s { arp_installed = false };
        os = (run_command sys w.os (withdraw_argv c)).1;
      }

  -- `find_default_router(&gw) && router_lladdr(&gw, mac)`
  unfoldable pub resolve : ℕ → K → Option Mac
  resolve ifindex os = elim (find_default_router hdr_size ifindex (rt6 os)) [
    | none ↦ none
    | some gw ↦ router_lladdr hdr_size ifindex gw (nd6 os)
  ]

  abbrev pub remember : Option Mac → Mac → World K → World K
  remember none mac w = w
  remember (some host) mac w = record w { os = router_cache_put files host mac w.os }

  -- The stored router of this network.
  abbrev pub recall : Option Mac → K → Option Mac
  recall none os = none
  recall (some host) os = router_cache_lookup files host os

  unfoldable pub reconcile : World K → World K
  reconcile w =
      let ifindex = if_nametoindex w.os in
      let w1 = record w { daemon = record (w.daemon) { ifindex = ifindex } } in
      let host_mac = iface_lladdr c.ifname (getifaddrs w.os) in
      if ifindex == 0
      then record w1 { daemon = record (w1.daemon) { arp_installed = false } }
      else if c.use_sentinel_file && not (sentinel_in_file c.sentinel_str (state_file w.os))
      then withdraw w1
      else if c.require_sentinel_route && not (sentinel_in_fib hdr_size c.sentinel_addr (rt4 w.os))
      then withdraw w1
      else elim (resolve ifindex w.os) [
        | some mac ↦ remember host_mac mac (install mac w1)
        | none ↦ elim (recall host_mac w.os) [
          | some cached ↦ install cached w1
          | none ↦ withdraw w1
        ]
      ]

  -- `none` is the exit status 1 for a missing interface.
  unfoldable pub dry_run_report : K → Option Report
  dry_run_report os =
      let ifindex = if_nametoindex os in
      if ifindex == 0
      then none
      else some (record {
        in_fib =
            if c.require_sentinel_route
            then some (sentinel_in_fib hdr_size c.sentinel_addr (rt4 os))
            else none;
        in_file =
            if c.use_sentinel_file
            then some (sentinel_in_file c.sentinel_str (state_file os))
            else none;
        found = elim (find_default_router hdr_size ifindex (rt6 os)) [
          | none ↦ would_remove
          | some gw ↦ lladdr_line gw (router_lladdr hdr_size ifindex gw (nd6 os))
        ];
      })
