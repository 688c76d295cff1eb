-- ===== src/FreeBsd/Daemon.antt =====
-- The state of the daemon and its operations (host/freebsd/v4gwd.c `install`, `withdraw`,
-- `sentinel_in_file`, `reconcile`). The kernel is a parameter: what its tables hold and what a write
-- to the routing socket does. The log lines are left out.
pub mod Laws
pub mod Follow
pub mod Converge
pub mod Sentinel
pub mod Flaws
use v4_with_v6_nh.Common.{
  ℕ, zero, suc, ◌+◌, Bool, true, false, not, ◌&&◌, ◌||◌, Option, none, some, List, [], ◌∷◌, ◌==◌,
  if◌then◌else◌, length,
}
use v4_with_v6_nh.Common.Text.{fgets, strncmp_eq, memcmp_eq}
use v4_with_v6_nh.Inet6.{Addr}
use v4_with_v6_nh.Rtsock.{Buffer, Abi, Sysctl}
use v4_with_v6_nh.FreeBsd.Select.{DrBuffer, select_router}
use v4_with_v6_nh.FreeBsd.Tables.{sentinel_in_fib, static_default_router}
use v4_with_v6_nh.FreeBsd.Route.{MsgType, rtm_add, rtm_delete, rtm_change, RouteMsg, build_msg}

pub data Errno : Type 0 where
  eexist einval esrch other : Errno

-- The system as one daemon sees it, for the interface and the state file of its command line:
-- `if_nametoindex`, the file's bytes, the dumps, and `write` with the errno of a failure.
pub record Kernel (K : Type 0) : Type 0 where
  pub abi : Abi
  pub drouter_size : ℕ
  pub pid : ℕ
  pub if_nametoindex : K → ℕ
  pub state_file : K → Option (List ℕ)
  pub drlist : K → Sysctl DrBuffer
  pub fib4 : K → Sysctl Buffer
  pub fib6 : K → Sysctl Buffer
  pub write : K → RouteMsg → Option Errno × K

-- The options `-r` and `-f`.
pub record Config : Type 0 where
  pub require_sentinel_route : Bool
  pub use_sentinel_file : Bool

-- The static variables of the program.
pub record State : Type 0 where
  pub ifindex : ℕ
  pub rtseq : ℕ
  pub route_installed : Bool
  pub installed_gw : Addr

pub record World (K : Type 0) : Type 0 where
  pub daemon : State
  pub os : K

-- "192.0.0.11"
abbrev pub sentinel_text : List ℕ
sentinel_text = b'1' ∷ b'9' ∷ b'2' ∷ b'.' ∷ b'0' ∷ b'.' ∷ b'0' ∷ b'.' ∷ b'1' ∷ b'1' ∷ []

unfoldable pub sentinel_in_file : Option (List ℕ) → Bool
sentinel_in_file none = false
sentinel_in_file (some content) = elim (fgets 64 content) [
  | none ↦ false
  | some buf ↦ strncmp_eq 10 buf sentinel_text
]

abbrev pub is_eexist_or_einval : Option Errno → Bool
is_eexist_or_einval (some eexist) = true
is_eexist_or_einval (some einval) = true
is_eexist_or_einval _ = false

module _ {K : Type 0} (k : Kernel K) where
  open k use {abi, drouter_size, pid, if_nametoindex, state_file, drlist, fib4, fib6, write}

  unfoldable pub route_msg : MsgType → Addr → World K → Option Errno × World K
  route_msg kind gw w =
      let s = w.daemon in
      let (r, os) = write w.os (build_msg abi pid s.ifindex s.rtseq kind gw) in
      (r, record { daemon = record s { rtseq = s.rtseq + 1 }; os = os })

  -- The second attempt of `install`.
  unfoldable pub take_over : Addr → Bool → Option Errno × World K → Option Errno × World K
  take_over gw was_installed (r, w) =
      if not was_installed && is_eexist_or_einval r then route_msg rtm_change gw w else (r, w)

  abbrev pub note_installed : Addr → Option Errno × World K → World K
  note_installed gw (some e, w) = w
  note_installed gw (none, w) = record w {
    daemon = record (w.daemon) { route_installed = true; installed_gw = gw };
  }

  unfoldable pub install : Addr → World K → World K
  install gw w =
      let s = w.daemon in
      if s.route_installed && memcmp_eq s.installed_gw gw
      then w
      else note_installed gw (
          take_over gw s.route_installed
            (route_msg (if s.route_installed then rtm_change else rtm_add) gw w))

  -- Both ends of the `if` on the result only log.
  unfoldable pub withdraw : World K → World K
  withdraw w =
      let s = w.daemon in
      if not s.route_installed
      then w
      else let (r, w') = route_msg rtm_delete s.installed_gw w in
        record w' { daemon = record (w'.daemon) { route_installed = false } }

  -- The choice of `reconcile` once the interface and the sentinel are there.
  unfoldable pub next_hop : ℕ → K → Option Addr
  next_hop ifindex os = elim (select_router ifindex drouter_size (drlist os)) [
    | some gw ↦ some gw
    | none ↦ static_default_router abi ifindex (fib6 os)
  ]

  unfoldable pub reconcile : Config → World K → World K
  reconcile c w =
      let ifindex = if_nametoindex w.os in
      let w1 = record w { daemon = record (w.daemon) { ifindex = ifindex } } in
      if ifindex == 0
      then record w1 { daemon = record (w1.daemon) { route_installed = false } }
      else if c.use_sentinel_file && not (sentinel_in_file (state_file w.os))
      then withdraw w1
      else if c.require_sentinel_route && not (sentinel_in_fib abi (fib4 w.os))
      then withdraw w1
      else elim (next_hop ifindex w.os) [ some gw ↦ install gw w1 | none ↦ withdraw w1 ]
