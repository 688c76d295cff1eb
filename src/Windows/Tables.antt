-- ===== src/Windows/Tables.antt =====
-- What the daemon reads in the tables of the IP Helper interface (host/windows/v4gwd.c
-- `find_default_router`, `router_lladdr`, `neighbor_present`, `fill_sentinel_row`, `sentinel_in_fib`).
-- A table is the list of its rows, or `none` where `GetIpForwardTable2` or `GetIpNetTable2` fails; a
-- `NET_LUID` is its number, an IPv4 address the number `ntohl(s_addr)`.
pub mod Lowest
pub mod Rows
use v4_with_v6_nh.Common.{
  is_some, is_true, first, ℕ, Bool, true, false, not, ◌&&◌, ◌||◌, Option, none, some, List, [], ◌∷◌,
  ltb, ◌==◌, if◌then◌else◌,
}
use v4_with_v6_nh.Common.Text.{memcmp_eq}
use v4_with_v6_nh.Mac.{Mac, bytes, copy_mac}
use v4_with_v6_nh.Inet6.{Addr}
use v4_with_v6_nh.Rtsock.{Family, inet, is_inet, is_inet6}

-- 192.0.0.11
abbrev pub sentinel_host : ℕ
sentinel_host = 0xc000000b

-- The fields of MIB_IPFORWARD_ROW2 that the code reads.
pub record ForwardRow : Type 0 where
  pub luid : ℕ
  pub prefix_length : ℕ
  pub prefix_family : Family
  pub hop_family : Family
  pub hop_addr6 : Addr
  pub hop_addr4 : ℕ
  pub metric : ℕ

-- The fields of MIB_IPNET_ROW2 that the code reads; `is_permanent` says whether `State` is
-- `NlnsPermanent`.
pub record NeighborRow : Type 0 where
  pub luid : ℕ
  pub family : Family
  pub addr6 : Addr
  pub addr4 : ℕ
  pub physical_length : ℕ
  pub physical : List ℕ
  pub is_permanent : Bool

-- The locals of `find_default_router`.
pub record Candidate : Type 0 where
  pub gw : Addr
  pub best : ℕ
  pub found : Bool

abbrev pub no_candidate : Candidate
no_candidate = record { gw = []; best = 0; found = false }

module _ (g_luid : ℕ) where
  -- The body of the loop; each `continue` leaves the locals as they are.
  unfoldable pub consider : ForwardRow → Candidate → Candidate
  consider r c =
      if not (r.luid == g_luid)
      then c
      else if not (r.prefix_length == 0)
      then c
      else if not (is_inet6 r.prefix_family) || not (is_inet6 r.hop_family)
      then c
      else if not c.found || ltb r.metric c.best
      then record { gw = r.hop_addr6; best = r.metric; found = true }
      else c

  unfoldable pub scan_routes : List ForwardRow → Candidate → Candidate
  scan_routes [] c = c
  scan_routes (r ∷ rs) c = scan_routes rs (consider r c)

  abbrev pub result_of : Candidate → Option Addr
  result_of c = if c.found then some c.gw else none

  unfoldable pub find_default_router : Option (List ForwardRow) → Option Addr
  find_default_router none = none
  find_default_router (some rows) = result_of (scan_routes rows no_candidate)

  unfoldable pub pick_lladdr : Addr → NeighborRow → Option Mac
  pick_lladdr gw r =
      if not (r.luid == g_luid)
      then none
      else if not (is_inet6 r.family)
      then none
      else if not (memcmp_eq r.addr6 gw)
      then none
      else if not (r.physical_length == 6)
      then none
      else some (copy_mac r.physical)

  unfoldable pub pick_neighbor : Mac → NeighborRow → Option Bool
  pick_neighbor mac r =
      if not (r.luid == g_luid)
      then none
      else if not (is_inet r.family)
      then none
      else if not (r.addr4 == sentinel_host)
      then none
      else some (
          r.is_permanent
          && ((r.physical_length == 6) && memcmp_eq (bytes (copy_mac r.physical)) (bytes mac)))

  unfoldable pub pick_sentinel : ForwardRow → Option (Unit {0})
  pick_sentinel r =
      if not (r.luid == g_luid)
      then none
      else if not (r.prefix_length == 0)
      then none
      else if not (is_inet r.hop_family)
      then none
      else if r.hop_addr4 == sentinel_host
      then some tt
      else none

-- The loop of the other three functions: the first row that the tests accept ends it.
abbrev pub in_table : {R A : Type 0} → (R → Option A) → Option (List R) → Option A
in_table pick none = none
in_table pick (some rows) = first pick rows

unfoldable pub router_lladdr : ℕ → Addr → Option (List NeighborRow) → Option Mac
router_lladdr g_luid gw tbl = in_table (pick_lladdr g_luid gw) tbl

unfoldable pub neighbor_present : ℕ → Mac → Option (List NeighborRow) → Bool
neighbor_present g_luid mac tbl = is_true (in_table (pick_neighbor g_luid mac) tbl)

unfoldable pub sentinel_in_fib : ℕ → Option (List ForwardRow) → Bool
sentinel_in_fib g_luid tbl = is_some (in_table (pick_sentinel g_luid) tbl)

-- `fill_sentinel_row`, with and without an address.
unfoldable pub fill_sentinel_row : ℕ → Option Mac → NeighborRow
fill_sentinel_row g_luid none = record {
  luid = g_luid;
  family = inet;
  addr6 = [];
  addr4 = sentinel_host;
  physical_length = 0;
  physical = [];
  is_permanent = false;
}
fill_sentinel_row g_luid (some mac) = record {
  luid = g_luid;
  family = inet;
  addr6 = [];
  addr4 = sentinel_host;
  physical_length = 6;
  physical = bytes mac;
  is_permanent = true;
}
