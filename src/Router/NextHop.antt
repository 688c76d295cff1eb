-- ===== src/Router/NextHop.antt =====
-- The choice of a host's next hop (router/debian/usr/local/sbin/v4gwrd.py `is_global_or_ula`,
-- `derive_gua`, `_prefix`, `_cache`, `best_nexthop`). What the ipaddress module and the `int` and `lower` of
-- Python compute is a parameter.
pub mod Highest
use v4_with_v6_nh.Common.{
  ℕ, ◌+◌, ◌-◌, bit_and, bit_or, Bool, true, false, not, ◌&&◌, ◌||◌, Option, none, some, List, [],
  ◌∷◌, ◌++◌, ◌==◌, leb, ◌>>=◌, if◌then◌else◌, first,
}
use v4_with_v6_nh.Common.Text.{codes, strcmp_eq, starts_with}
use v4_with_v6_nh.Common.Text.Laws.{value}
use v4_with_v6_nh.Router.Hosts.{Text}

-- `first_byte` is `IPv6Address(a).packed[0]`, `network` the number of `IPv6Network(a/64, strict=False)`,
-- `show` the text of the address with a number, `hex` is `int(x, 16)` where that is not negative.
pub record Library : Type 0 where
  pub first_byte : Text → ℕ
  pub network : Text → ℕ
  pub show : ℕ → Text
  pub hex : Text → Option ℕ
  pub lower : Text → Text
  pub decode : List ℕ → Text

pub record Route : Type 0 where
  pub dst_len : ℕ
  pub oif : Option ℕ
  pub dst : Option Text

pub record Neighbor : Type 0 where
  pub lladdr : Option Text
  pub dst : Option Text
  pub state : ℕ

-- An entry of the dictionary that `_cache` makes.
pub record Cached : Type 0 where
  pub dst : Text
  pub state : ℕ

unfoldable pub is_usable : ℕ → Bool
is_usable s = s == 2 || (s == 4 || (s == 8 || s == 16))

-- None and the empty text are false.
abbrev pub truthy : Option Text → Option Text
truthy none = none
truthy (some []) = none
truthy (some (c ∷ s)) = some (c ∷ s)

-- `mac.split(":")`, from its first part on.
unfoldable pub split_colon : List ℕ → Text → List Text
split_colon part [] = part ∷ []
split_colon part (c ∷ s) =
    let here = split_colon [] s in
    let more = split_colon (part ++ (c ∷ [])) s in if c == 58 then part ∷ here else more

-- `cache.get(dst)`, and a write to it.
unfoldable pub state_of : Text → List Cached → Option ℕ
state_of dst [] = none
state_of dst (e ∷ es) = if strcmp_eq e.dst dst then some e.state else state_of dst es

unfoldable pub set_state : Text → ℕ → List Cached → List Cached
set_state dst st [] = record { dst = dst; state = st } ∷ []
set_state dst st (e ∷ es) =
    let rest = set_state dst st es in
    if strcmp_eq e.dst dst then record { dst = e.dst; state = st } ∷ es else e ∷ rest

-- The byte with its second lowest bit flipped.
abbrev pub flip_local : ℕ → ℕ
flip_local b = if bit_and b 2 == 0 then b + 2 else b - 2

abbrev pub interface_id : List ℕ → Option (List ℕ)
interface_id (a ∷ b ∷ c ∷ d ∷ e ∷ f ∷ []) = some (flip_local a ∷ b ∷ c ∷ 255 ∷ 254 ∷ d ∷ e ∷ f ∷ [])
interface_id _ = none

module _ (lib : Library) where
  open lib use {first_byte, network, show, hex, lower}

  unfoldable pub is_global_or_ula : Text → Bool
  is_global_or_ula addr =
      let b0 = first_byte addr in (leb 32 b0 && leb b0 63) || (b0 == 252 || b0 == 253)

  -- `bytes(int(x, 16) for x in …)`; `none` is a ValueError.
  unfoldable pub mac_bytes : List Text → Option (List ℕ)
  mac_bytes [] = some []
  mac_bytes (x ∷ xs) = do b ← hex x; bs ← mac_bytes xs; if leb b 255 then some (b ∷ bs) else none

  unfoldable pub derive_gua : ℕ → Text → Option Text
  derive_gua net mac = do
    mb ← mac_bytes (split_colon [] mac)
    iid ← interface_id mb
    some (show (bit_or net (value iid)))

  unfoldable pub prefix_of : ℕ → Route → Option ℕ
  prefix_of idx r =
      if not (r.dst_len == 64)
      then none
      else if not (elim (r.oif) [ none ↦ false | some i ↦ i == idx ])
      then none
      else elim (truthy r.dst) [
        | none ↦ none
        | some dst ↦ if is_global_or_ula dst then some (network dst) else none
      ]

  -- `_prefix`, given the IPv6 routes.
  unfoldable pub prefix : ℕ → List Route → Option ℕ
  prefix idx rs = first (prefix_of idx) rs

  unfoldable pub note : Text → Neighbor → List Cached → List Cached
  note mac n cache = elim (truthy n.lladdr) [
    | none ↦ cache
    | some lla ↦ elim (truthy n.dst) [
      | none ↦ cache
      | some dst ↦ if strcmp_eq (lower lla) mac then set_state dst n.state cache else cache
    ]
  ]

  unfoldable pub collect : Text → List Neighbor → List Cached → List Cached
  collect mac [] cache = cache
  collect mac (n ∷ ns) cache = collect mac ns (note mac n cache)

  -- `_cache`; `none` is a NetlinkError.
  unfoldable pub cache_of : Text → Option (List Neighbor) → List Cached
  cache_of mac none = []
  cache_of mac (some ns) = collect mac ns []

  abbrev pub pick_global : Cached → Option Text
  pick_global e = if is_usable e.state && is_global_or_ula e.dst then some e.dst else none

  abbrev pub pick_linklocal : Cached → Option Text
  pick_linklocal e =
      if is_usable e.state && starts_with (codes "fe80") e.dst then some e.dst else none

  -- `cache.get(gua, 0) in NUD_USABLE`
  abbrev pub is_cached : List Cached → Text → Bool
  is_cached cache gua = elim (state_of gua cache) [ none ↦ is_usable 0 | some st ↦ is_usable st ]

  -- The loops of `best_nexthop`, when the derived address is not usable.
  unfoldable pub other_nexthop : List Cached → Option Text
  other_nexthop cache = elim (first pick_global cache) [
    | some dst ↦ some dst
    | none ↦ first pick_linklocal cache
  ]

  unfoldable pub nexthop : Option Text → List Cached → Option Text
  nexthop none cache = other_nexthop cache
  nexthop (some gua) cache = if is_cached cache gua then some gua else other_nexthop cache

  -- The derived address: `derive_gua(prefix, mac) if prefix else None`.
  unfoldable pub derived : ℕ → Text → List Route → Option Text
  derived idx mac rs = elim (prefix idx rs) [ none ↦ none | some net ↦ derive_gua net mac ]
