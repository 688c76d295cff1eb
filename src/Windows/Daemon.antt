-- ===== src/Windows/Daemon.antt =====
-- The state of the daemon and its operations (host/windows/v4gwd.c `resolve_luid`, `iface_present`,
-- `interface_mac`, `router_cache_lookup`, `router_cache_put`, `install`, `withdraw`, `reconcile`,
-- `dry_run_report`). The system is a parameter; the log lines are left out.
pub mod Laws
pub mod Pins
pub mod Registry
pub mod DryRun
use v4_with_v6_nh.Common.{
  ℕ, ◌^◌, ◌%◌, Bool, true, false, not, ◌&&◌, Option, none, some, List, [], ◌∷◌, ◌==◌, if◌then◌else◌,
}
use v4_with_v6_nh.Mac.{Mac, copy_mac, mac_eq, mac_str_reg, scan_mac}
use v4_with_v6_nh.Inet6.{Addr}
use v4_with_v6_nh.Windows.Tables.{
  ForwardRow, NeighborRow, find_default_router, router_lladdr, neighbor_present, fill_sentinel_row,
  sentinel_in_fib,
}

-- What `CreateIpNetEntry2` and `SetIpNetEntry2` return: NO_ERROR, ERROR_OBJECT_ALREADY_EXISTS, another.
pub data Status : Type 0 where
  no_error already_exists other_error : Status

-- The conversions of an interface name, the tables, the operations on the neighbour table, and the
-- values of the registry key. `delete_entry` says whether there is no such entry any more; `reg_get` has the size of the buffer as its last argument, and `reg_set` says
-- whether the value could be written.
pub record System (K : Type 0) : Type 0 where
  pub alias_to_luid : K → Option ℕ
  pub index_to_luid : K → ℕ → Option ℕ
  pub has_index : K → ℕ → Bool
  pub if_entry : K → ℕ → Option (ℕ × List ℕ)
  pub forward6 : K → Option (List ForwardRow)
  pub forward4 : K → Option (List ForwardRow)
  pub net6 : K → Option (List NeighborRow)
  pub net4 : K → Option (List NeighborRow)
  pub delete_entry : K → NeighborRow → Bool × K
  pub create_entry : K → NeighborRow → Status × K
  pub set_entry : K → NeighborRow → Status × K
  pub reg_get : K → List ℕ → ℕ → Option (List ℕ)
  pub reg_set : K → List ℕ → List ℕ → Bool × K

-- `index_arg` is what `wcstoul` makes of the interface argument, if it takes all of it.
pub record Config : Type 0 where
  pub index_arg : Option ℕ
  pub require_sentinel_route : Bool

pub record State : Type 0 where
  pub luid : ℕ
  pub luid_valid : Bool
  pub installed : Bool
  pub installed_mac : Mac

pub record World (K : Type 0) : Type 0 where
  pub daemon : State
  pub os : K

-- `(uint8_t)b[i]`
abbrev pub low_bytes : Mac → Mac
low_bytes m = record {
  b0 = m.b0 % 256;
  b1 = m.b1 % 256;
  b2 = m.b2 % 256;
  b3 = m.b3 % 256;
  b4 = m.b4 % 256;
  b5 = m.b5 % 256;
}

abbrev pub read_value : Option (List ℕ) → Option Mac
read_value none = none
read_value (some val) = elim (scan_mac (2 ^ 32) b'-' val) [
  | none ↦ none
  | some m ↦ some (low_bytes m)
]

unfoldable pub is_unchanged : Mac → Option Mac → Bool
is_unchanged router none = false
is_unchanged router (some cur) = mac_eq cur router

-- What a dry run prints: the answer of the sentinel line, then how far discovery gets, with the advice:
-- no default router ("would remove any entry"), one that is not resolved ("would wait"), or the entry.
pub data Found : Type 0 where
  would_remove : Found
  would_wait : Addr → Found
  would_pin : Addr → Mac → Found

pub record Report : Type 0 where
  pub in_fib : Option Bool
  pub found : Found

abbrev pub lladdr_line : Addr → Option Mac → Found
lladdr_line gw none = would_wait gw
lladdr_line gw (some mac) = would_pin gw mac

module _ {K : Type 0} (sys : System K) (c : Config) where
  open sys use {
    alias_to_luid, index_to_luid, has_index, if_entry, forward6, forward4, net6, net4, delete_entry,
    create_entry, set_entry, reg_get, reg_set,
  }

  -- The LUID of an index, which is not 0; the cast is to 32 bits.
  abbrev pub luid_of_index : K → Option ℕ → Option ℕ
  luid_of_index os none = none
  luid_of_index os (some n) = if n == 0 then none else index_to_luid os (n % 2 ^ 32)

  -- The LUID that `resolve_luid` finds, or has found before.
  unfoldable pub find_luid : State → K → Option ℕ
  find_luid s os =
      if s.luid_valid
      then some s.luid
      else elim (alias_to_luid os) [ some luid ↦ some luid | none ↦ luid_of_index os c.index_arg ]

  abbrev pub with_luid : ℕ → State → State
  with_luid luid s = record s { luid = luid; luid_valid = true }

  abbrev pub mac_of_entry : Option (ℕ × List ℕ) → Option Mac
  mac_of_entry none = none
  mac_of_entry (some (len, addr)) = if len == 6 then some (copy_mac addr) else none

  unfoldable pub interface_mac : ℕ → K → Option Mac
  interface_mac luid os = mac_of_entry (if_entry os luid)

  unfoldable pub router_cache_lookup : Mac → K → Option Mac
  router_cache_lookup host os = read_value (reg_get os (mac_str_reg host) 32)

  unfoldable pub router_cache_put : Mac → Mac → K → K
  router_cache_put host router os =
      if is_unchanged router (router_cache_lookup host os)
      then os
      else (reg_set os (mac_str_reg host) (mac_str_reg router)).1

  -- SetIpNetEntry2 where the entry exists.
  abbrev pub set_existing : NeighborRow → Status × K → Status × K
  set_existing row (already_exists, os) = set_entry os row
  set_existing row (e, os) = (e, os)

  -- The calls of `install` on the neighbour table.
  unfoldable pub program_entry : ℕ → Mac → K → Status × K
  program_entry luid mac os =
      let row = fill_sentinel_row luid (some mac) in
      set_existing row (create_entry (delete_entry os row).1 row)

  abbrev pub noted : Mac → State → Status × K → World K
  noted mac s (no_error, os) = record {
    daemon = record s { installed = true; installed_mac = mac };
    os = os;
  }
  noted mac s (e, os) = record { daemon = s; os = os }

  unfoldable pub install : Mac → World K → World K
  install mac w =
      let s = w.daemon in
      if s.installed && (mac_eq s.installed_mac mac && neighbor_present s.luid mac (net4 w.os))
      then w
      else noted mac s (program_entry s.luid mac w.os)

  unfoldable pub withdraw : World K → World K
  withdraw w =
      let s = w.daemon in
      if not s.installed then w else record {
        daemon = record s { installed = false };
        os = (delete_entry w.os (fill_sentinel_row s.luid none)).1;
      }

  -- `find_default_router(&gw) && router_lladdr(&gw, mac)`
  unfoldable pub resolve : ℕ → K → Option Mac
  resolve luid os = elim (find_default_router luid (forward6 os)) [
    | none ↦ none
    | some gw ↦ router_lladdr luid gw (net6 os)
  ]

  abbrev pub remember : Option Mac → Mac → World K → World K
  remember none mac w = w
  remember (some host) mac w = record w { os = router_cache_put host mac w.os }

  abbrev pub recall : Option Mac → K → Option Mac
  recall none os = none
  recall (some host) os = router_cache_lookup host os

  -- `reconcile` with the interface resolved and present.
  unfoldable pub manage : ℕ → World K → World K
  manage luid w =
      let host_mac = interface_mac luid w.os in
      if c.require_sentinel_route && not (sentinel_in_fib luid (forward4 w.os))
      then withdraw w
      else elim (resolve luid w.os) [
        | some mac ↦ remember host_mac mac (install mac w)
        | none ↦ elim (recall host_mac w.os) [ some cached ↦ install cached w | none ↦ withdraw w ]
      ]

  abbrev pub forgotten : World K → World K
  forgotten w = record w { daemon = record (w.daemon) { installed = false } }

  unfoldable pub reconcile : World K → World K
  reconcile w = elim (find_luid w.daemon w.os) [
    | none ↦ forgotten w
    | some luid ↦
        let w1 = record w { daemon = with_luid luid w.daemon } in
        if has_index w.os luid then manage luid w1 else forgotten w1
  ]

  -- `none` is the exit status 1 for a missing interface.
  unfoldable pub dry_run_report : State → K → Option Report
  dry_run_report s os = elim (find_luid s os) [
    | none ↦ none
    | some luid ↦ some (record {
      in_fib = if c.require_sentinel_route then some (sentinel_in_fib luid (forward4 os)) else none;
      found = elim (find_default_router luid (forward6 os)) [
        | none ↦ would_remove
        | some gw ↦ lladdr_line gw (router_lladdr luid gw (net6 os))
      ];
    })
  ]
