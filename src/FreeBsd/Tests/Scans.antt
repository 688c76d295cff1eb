-- ===== src/FreeBsd/Tests/Scans.antt =====
-- The theorems on the list of routers, the scans of the routing table and the messages, at concrete
-- dumps.
use v4_with_v6_nh.Common.{
  ℕ, ◌<◌, ◌≡◌, ◌≢◌, refl, true, none, some, List, [], ◌∷◌, All, Any, here, there, ◌↔◌, ◌==◌,
  if◌then◌else◌, arith,
}
use v4_with_v6_nh.Inet6.{Addr, IsAddr}
use v4_with_v6_nh.Rtsock.{fetch}
use v4_with_v6_nh.Rtsock.Walk.{Message, both, Holds}
use v4_with_v6_nh.FreeBsd.Select.{Defrouter, DrBuffer, select_router}
use v4_with_v6_nh.FreeBsd.Select.Best.{Lists, IsBest}
use v4_with_v6_nh.FreeBsd.Select.Highest.{select_router-IsBest}
use v4_with_v6_nh.FreeBsd.Select.AnyOrder.{IsListing, select_router_any_order}
use v4_with_v6_nh.FreeBsd.Tables.{sentinel_in_fib, static_default_router}
use v4_with_v6_nh.FreeBsd.Tables.Refine.{
  IsSentinelRoute, sentinel_in_fib_iff, IsStaticToUnspecified, Through, static_default_router_lem,
}
use v4_with_v6_nh.FreeBsd.Route.{fill_gateway, any_inet}
use v4_with_v6_nh.FreeBsd.Tests.Kernels.{
  router_a, drlist_a, drlist_b, drlist_c, three_routers, a_dump, freebsd_abi, sentinel_sa,
  any_inet6, a_header, sentinel_dump, default_dump,
}

abbrev three : List Defrouter
three = drlist_b ∷ drlist_a ∷ drlist_c ∷ []

three-Lists : Lists 40 three_routers 0 three
three-Lists = (omega arith, refl, (omega arith, refl, (omega arith, refl, omega arith)))

an-IsAddr :
    (n : ℕ)
    → n < 256
    → IsAddr (0xfe ∷ 0x80 ∷ 0 ∷ 0 ∷ 0 ∷ 0 ∷ 0 ∷ 0 ∷ 0 ∷ 0 ∷ 0 ∷ 0 ∷ 0 ∷ 0 ∷ 0 ∷ n ∷ [])
an-IsAddr n h = record { size = refl; bytes = omega (arith, h) }

three-IsAddr : All (λ d. IsAddr d.rtaddr) three
three-IsAddr =
    (an-IsAddr 11 (omega arith), (an-IsAddr 10 (omega arith), (an-IsAddr 12 (omega arith), tt)))

fetch_dump : {B : Type 0} (b : B) → fetch (a_dump b) ≡ some b
unfolding fetch
fetch_dump b = refl

select_router-IsBest_example :
    ((gw : Addr)
      → select_router 3 40 (a_dump three_routers) ≡ some gw
      → Any (IsBest 3 three gw) three)
    × ((select_router 3 40 (a_dump three_routers) ≡ none) ↔ All (λ d. d.if_index ≢ 3) three)
select_router-IsBest_example =
    select_router-IsBest 3 40 (a_dump three_routers) three (fetch_dump three_routers) (omega arith)
      three-Lists three-IsAddr

-- The same routers from the last to the first.
abbrev turned_routers : DrBuffer
turned_routers = record {
  len = 120;
  entry = λ p. if p == 0 then drlist_c else if p == 40 then drlist_a else drlist_b;
}

abbrev turned : List Defrouter
turned = drlist_c ∷ drlist_a ∷ drlist_b ∷ []

three-IsListing : IsListing 40 (a_dump three_routers) three
three-IsListing = record {
  buf = three_routers;
  read = fetch_dump three_routers;
  lists = three-Lists;
  addrs = three-IsAddr;
}

turned-IsListing : IsListing 40 (a_dump turned_routers) turned
turned-IsListing = record {
  buf = turned_routers;
  read = fetch_dump turned_routers;
  lists = (omega arith, refl, (omega arith, refl, (omega arith, refl, omega arith)));
  addrs = (three-IsAddr.1.1.0, (three-IsAddr.1.0, (three-IsAddr.0, tt)));
}

select_router_any_order_example :
    select_router 3 40 (a_dump three_routers) ≡ select_router 3 40 (a_dump turned_routers)
select_router_any_order_example =
    select_router_any_order 3 40 (omega arith) (a_dump three_routers) (a_dump turned_routers) three
      turned three-IsListing turned-IsListing
      (there (there (here refl)), (there (here refl), (here refl, tt)))
      (there (there (here refl)), (there (here refl), (here refl, tt)))

abbrev sentinel_message : Message
sentinel_message = record {
  hdr = a_header 184 0x803;
  dst = some any_inet;
  gateway = some sentinel_sa;
}

sentinel-Holds : Holds 152 freebsd_abi.sa_size sentinel_dump 0 (sentinel_message ∷ [])
sentinel-Holds = (refl, omega arith, omega arith, both (λ e. omega arith) (λ e. omega arith), refl)

sentinel_in_fib_iff_example :
    (sentinel_in_fib freebsd_abi (a_dump sentinel_dump) ≡ true)
    ↔ Any IsSentinelRoute (sentinel_message ∷ [])
sentinel_in_fib_iff_example =
    sentinel_in_fib_iff freebsd_abi sentinel_dump (sentinel_message ∷ []) sentinel-Holds
      (a_dump sentinel_dump) (fetch_dump sentinel_dump)

abbrev default_message : Message
default_message = record {
  hdr = a_header 216 0x803;
  dst = some any_inet6;
  gateway = some (fill_gateway 3 router_a);
}

default-Holds : Holds 152 freebsd_abi.sa_size default_dump 0 (default_message ∷ [])
default-Holds = (refl, omega arith, omega arith, both (λ e. omega arith) (λ e. omega arith), refl)

static_default_router_lem_example :
    ((gw : Addr)
      → static_default_router freebsd_abi 3 (a_dump default_dump) ≡ some gw
      → Any (λ m. IsStaticToUnspecified 3 m × Through m gw) (default_message ∷ []))
    × (Any (IsStaticToUnspecified 3) (default_message ∷ [])
        → static_default_router freebsd_abi 3 (a_dump default_dump) ≢ none)
static_default_router_lem_example =
    static_default_router_lem freebsd_abi default_dump (default_message ∷ []) default-Holds
      (a_dump default_dump) (fetch_dump default_dump) 3
