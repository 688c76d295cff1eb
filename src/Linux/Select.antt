-- ===== src/Linux/Select.antt =====
-- The choice of the IPv6 default router (host/v4gwd.py `select_router`).
pub mod Last
use v4_with_v6_nh.Common.{
  ℕ, Bool, ◌&&◌, ◌||◌, Option, none, some, List, [], ◌∷◌, ◌==◌, ltb, leb, if◌then◌else◌,
}
use v4_with_v6_nh.Linux.Routes.{Text, Route, pref_rank, nud_reachable, default_routes}

-- The key `(pref, reachable)`, and `>=` on two keys.
pub record Key : Type 0 where
  pub pref : ℕ
  pub reachable : ℕ

unfoldable pub key_ge : Key → Key → Bool
key_ge a b = ltb b.pref a.pref || (a.pref == b.pref && leb b.reachable a.reachable)

-- `best` and `best_key`
pub record Choice : Type 0 where
  pub best : Text
  pub best_key : Key

-- `nud` is the NUD state of a router.
module _ (nud : Text → ℕ) where
  unfoldable pub key_of : Route → Text → Key
  key_of r gw = record {
    pref = pref_rank r.pref;
    reachable = if nud gw == nud_reachable then 1 else 0;
  }

  abbrev pub better : Choice → Option Choice → Option Choice
  better new none = some new
  better new (some old) = if key_ge new.best_key old.best_key then some new else some old

  unfoldable pub consider : Route → Option Choice → Option Choice
  consider r c = elim (r.gateway) [
    | none ↦ c
    | some gw ↦ better (record { best = gw; best_key = key_of r gw }) c
  ]

  unfoldable pub scan : List Route → Option Choice → Option Choice
  scan [] c = c
  scan (r ∷ rs) c = scan rs (consider r c)

  abbrev pub chosen : Option Choice → Option Text
  chosen none = none
  chosen (some c) = some c.best

  -- Given the IPv6 routes.
  unfoldable pub select_router : Option ℕ → List Route → Option Text
  select_router index rs = chosen (scan (default_routes index rs) none)
