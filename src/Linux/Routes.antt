-- ===== src/Linux/Routes.antt =====
-- The routes and the neighbours that pyroute2 gives (host/v4gwd.py `PREF_RANK`, `NUD_USABLE`,
-- `_default_routes`, `sentinel_present`, `nud_state`, `router_lladdr`, `_neighbor_present`). A text is the list of its code points;
-- `none` stands for `None`, and for NetlinkError where one is caught.
use v4_with_v6_nh.Common.{
  ℕ, bit_and, Bool, true, false, not, ◌&&◌, ◌||◌, Option, none, some, List, [], ◌∷◌, ◌==◌,
  if◌then◌else◌,
}
use v4_with_v6_nh.Common.Text.{strcmp_eq}

abbrev pub Text : Type 0
Text = List ℕ

-- The fields of a route that the daemon reads.
pub record Route : Type 0 where
  pub dst_len : ℕ
  pub proto : Option ℕ
  pub oif : Option ℕ
  pub gateway : Option Text
  pub pref : Option ℕ

pub record Neighbor : Type 0 where
  pub state : ℕ
  pub lladdr : Option Text

abbrev pub rt_proto : ℕ
rt_proto = 199

abbrev pub nud_reachable : ℕ
nud_reachable = 2

-- NUD_USABLE
unfoldable pub is_usable : ℕ → Bool
is_usable s = s == 2 || (s == 4 || (s == 8 || s == 16))

-- `PREF_RANK.get(pref, 1)`
unfoldable pub pref_rank : Option ℕ → ℕ
pref_rank none = 1
pref_rank (some p) = if p == 1 then 2 else if p == 3 then 0 else 1

-- `==` of Python on values of which one may be None.
abbrev pub opt_eq : {A : Type 0} → (A → A → Bool) → Option A → Option A → Bool
opt_eq eq none none = true
opt_eq eq none (some b) = false
opt_eq eq (some a) none = false
opt_eq eq (some a) (some b) = eq a b

abbrev pub same_index : Option ℕ → Option ℕ → Bool
same_index a b = opt_eq (λ x y. x == y) a b

abbrev pub same_text : Option Text → Option Text → Bool
same_text a b = opt_eq strcmp_eq a b

unfoldable pub is_default : Option ℕ → Route → Bool
is_default index r = r.dst_len == 0 && same_index r.oif index

unfoldable pub default_routes : Option ℕ → List Route → List Route
default_routes index [] = []
default_routes index (r ∷ rs) =
    let rest = default_routes index rs in if is_default index r then r ∷ rest else rest

unfoldable pub is_sentinel : Text → Route → Bool
is_sentinel sentinel r =
    if same_index r.proto (some rt_proto) then false else same_text r.gateway (some sentinel)

unfoldable pub any_sentinel : Text → List Route → Bool
any_sentinel sentinel [] = false
any_sentinel sentinel (r ∷ rs) = is_sentinel sentinel r || any_sentinel sentinel rs

-- `sentinel_present`, given the IPv4 routes.
unfoldable pub sentinel_present : Text → Option ℕ → List Route → Bool
sentinel_present sentinel index rs = any_sentinel sentinel (default_routes index rs)

-- `nud_state` and `router_lladdr`, given what `get_neighbours` gives for the router.
unfoldable pub nud_state : Option (List Neighbor) → ℕ
nud_state none = 0
nud_state (some []) = 0
nud_state (some (n ∷ ns)) = n.state

unfoldable pub router_lladdr : Option (List Neighbor) → Option Text
router_lladdr none = none
router_lladdr (some []) = none
router_lladdr (some (n ∷ ns)) = n.lladdr

abbrev pub nud_permanent : ℕ
nud_permanent = 128

unfoldable pub is_pinned : Text → Neighbor → Bool
is_pinned mac n = not (bit_and n.state nud_permanent == 0) && same_text n.lladdr (some mac)

unfoldable pub any_pinned : Text → List Neighbor → Bool
any_pinned mac [] = false
any_pinned mac (n ∷ ns) = is_pinned mac n || any_pinned mac ns

-- `_neighbor_present`, given what `get_neighbours` gives for the sentinel.
unfoldable pub neighbor_present : Text → Option (List Neighbor) → Bool
neighbor_present mac none = false
neighbor_present mac (some ns) = any_pinned mac ns
