-- ===== src/Router/NextHop/Highest.antt =====
-- The next hop that is chosen (router/debian/usr/local/sbin/v4gwrd.py `best_nexthop`).
use mathlib.Core.Path.{subst}
use v4_with_v6_nh.Common.{
  ℕ, ◌≤◌, ◌≡◌, ◌≢◌, refl, sym, Bool, true, false, Option, none, some, List, [], ◌∷◌, arith, Any,
  here, there, Any-map, first, first-Any, Any-first, inl, inr, Bool-cases, Option-cases,
  if◌then◌else◌,
}
use v4_with_v6_nh.Common.Text.{codes, strcmp_eq, starts_with}
use v4_with_v6_nh.Common.Text.Laws.{strcmp_eq→, strcmp_eq_refl}
use v4_with_v6_nh.Router.Hosts.{Text}
use v4_with_v6_nh.Router.NextHop.{
  Library, Cached, is_usable, state_of, is_global_or_ula, pick_global, pick_linklocal, is_cached,
  other_nexthop, nexthop,
}

abbrev is_some_text : Option Text → Text → Bool
is_some_text none d = false
is_some_text (some g) d = strcmp_eq g d

module _ (lib : Library) where
  -- What the daemon prefers: the derived address, then a global one, then a link-local one.
  abbrev pub rank : Option Text → Text → ℕ
  rank gua d =
      if is_some_text gua d
      then 3
      else if is_global_or_ula lib d
      then 2
      else if starts_with (codes "fe80") d
      then 1
      else 0

  -- What the cache tells of an address, and an entry of it.
  abbrev pub IsUsable : List Cached → Text → Type 0
  IsUsable cache d = (st : ℕ) × (state_of d cache ≡ some st) × (is_usable st ≡ true)

  abbrev pub IsListed : List Cached → Text → Type 0
  IsListed cache d = Any (λ e. (e.dst ≡ d) × (is_usable e.state ≡ true)) cache

  -- Usable in the cache, and of the highest rank there; or nothing usable there has a rank.
  abbrev pub IsHighest : Option Text → List Cached → Option Text → Type 0
  IsHighest gua cache none = (d : Text) → IsUsable cache d → rank gua d ≡ 0
  IsHighest gua cache (some n) =
      IsListed cache n × ((d : Text) → IsUsable cache d → rank gua d ≤ rank gua n)

  listed :
      (d : Text) (cache : List Cached) (st : ℕ)
      → state_of d cache ≡ some st
      → is_usable st ≡ true
      → IsListed cache d
  unfolding state_of
  listed d [] st e ok = cc
  listed d (x ∷ cache) st e ok = elim (Bool-cases (strcmp_eq x.dst d)) [
    | inl same ↦ here (strcmp_eq→ x.dst d same, ground (arith, e, ok, same))
    | inr differs ↦ there (listed d cache st (ground (arith, e, differs)) ok)
  ]

  -- The derived address is taken if the cache has it as usable.
  is_cached-IsUsable :
      (cache : List Cached) (g : Text) → is_cached lib cache g ≡ true → IsUsable cache g
  unfolding is_usable
  is_cached-IsUsable cache g e = elim (Option-cases (state_of g cache)) [
    | inl absent ↦ absurd (never absent)
    | inr (st, at) ↦ (st, at, ground (arith, e, at))
  ]
    where
      never : state_of g cache ≡ none → ⊥
      never absent = ground (arith, e, absent)

  IsUsable-is_cached :
      (cache : List Cached) (g : Text) → IsUsable cache g → is_cached lib cache g ≡ true
  IsUsable-is_cached cache g (st, at, ok) = ground (arith, at, ok)

  rank-le : (gua : Option Text) (d : Text) → is_some_text gua d ≡ false → rank gua d ≤ 2
  rank-le gua d e = ground arith

  picked_global :
      (e : Cached) (d : Text)
      → pick_global lib e ≡ some d
      → (e.dst ≡ d) × (is_usable e.state ≡ true) × (is_global_or_ula lib d ≡ true)
  picked_global e d h = ground arith

  picked_linklocal :
      (e : Cached) (d : Text)
      → pick_linklocal lib e ≡ some d
      → (e.dst ≡ d) × (is_usable e.state ≡ true) × (starts_with (codes "fe80") d ≡ true)
  picked_linklocal e d h = ground arith

  rank_global : (gua : Option Text) (d : Text) → is_global_or_ula lib d ≡ true → 2 ≤ rank gua d
  rank_global gua d g = ground arith

  rank_linklocal :
      (gua : Option Text) (d : Text) → starts_with (codes "fe80") d ≡ true → 1 ≤ rank gua d
  rank_linklocal gua d l = ground arith

  rank_low :
      (gua : Option Text) (d : Text)
      → is_some_text gua d ≡ false
      → is_global_or_ula lib d ≢ true
      → rank gua d ≤ 1
  rank_low gua d out g = ground arith

  rank_none :
      (gua : Option Text) (d : Text)
      → is_some_text gua d ≡ false
      → is_global_or_ula lib d ≢ true
      → starts_with (codes "fe80") d ≢ true
      → rank gua d ≡ 0
  rank_none gua d out g l = ground arith

  -- Where no entry is picked, what the cache has as usable is of another kind.
  no_global :
      (cache : List Cached) (d : Text)
      → first (pick_global lib) cache ≡ none
      → IsUsable cache d
      → is_global_or_ula lib d ≢ true
  no_global cache d e (st, at, ok) g =
      Any-first (pick_global lib) (Any-map (λ x p h. kind x p h) (listed d cache st at ok)) e
    where
      kind : (x : Cached) → (x.dst ≡ d) × (is_usable x.state ≡ true) → pick_global lib x ≢ none
      kind x p h =
          let g' = subst (λ t. is_global_or_ula lib t ≡ true) (sym p.0) g in
          ground (arith, p, h, g')

  no_linklocal :
      (cache : List Cached) (d : Text)
      → first (pick_linklocal lib) cache ≡ none
      → IsUsable cache d
      → starts_with (codes "fe80") d ≢ true
  no_linklocal cache d e (st, at, ok) l =
      Any-first (pick_linklocal lib) (Any-map (λ x p h. kind x p h) (listed d cache st at ok)) e
    where
      kind : (x : Cached) → (x.dst ≡ d) × (is_usable x.state ≡ true) → pick_linklocal lib x ≢ none
      kind x p h =
          let l' = subst (λ t. starts_with (codes "fe80") t ≡ true) (sym p.0) l in
          ground (arith, p, h, l')

  picked-IsListed :
      (pick : Cached → Option Text) (cache : List Cached) (n : Text)
      → ((e : Cached) → pick e ≡ some n → (e.dst ≡ n) × (is_usable e.state ≡ true))
      → first pick cache ≡ some n
      → IsListed cache n
  picked-IsListed pick cache n picked e = Any-map (λ x p. picked x p) (first-Any pick cache e)

  any_of : {P : Cached → Type 0} (cache : List Cached) → Any P cache → (x : Cached) × P x
  any_of cache (here {x = x} p) = (x, p)
  any_of cache (there {xs = xs} a) = any_of xs a

  other-global :
      (cache : List Cached) (n : Text)
      → first (pick_global lib) cache ≡ some n
      → other_nexthop lib cache ≡ some n
  unfolding other_nexthop
  other-global cache n hit = ground (arith, hit)

  other-linklocal :
      (cache : List Cached)
      → first (pick_global lib) cache ≡ none
      → other_nexthop lib cache ≡ first (pick_linklocal lib) cache
  unfolding other_nexthop
  other-linklocal cache miss = ground (arith, miss)

  other_nexthop-IsHighest :
      (gua : Option Text) (cache : List Cached)
      → ((d : Text) → IsUsable cache d → is_some_text gua d ≡ false)
      → IsHighest gua cache (other_nexthop lib cache)
  other_nexthop-IsHighest gua cache out =
      let P : Option Text → Type 0 = λ r. IsHighest gua cache r in
      elim (Option-cases (first (pick_global lib) cache)) [
        | inr (n, hit) ↦
            let (x, p) = any_of cache (first-Any (pick_global lib) cache hit) in
            let (same, ok, g) = picked_global x n p in
            let top = rank_global gua n g in
            subst P (sym (other-global cache n hit)) (
              picked-IsListed (pick_global lib) cache n
                  (λ e q. let (a, b, c) = picked_global e n q in (a, b)) hit,
              λ d u. let low = rank-le gua d (out d u) in omega (arith, low, top),
            )
        | inl miss ↦
            subst P (sym (other-linklocal cache miss))
              (elim (Option-cases (first (pick_linklocal lib) cache)) [
                | inr (n, hit) ↦
                    let (x, p) = any_of cache (first-Any (pick_linklocal lib) cache hit) in
                    let (same, ok, l) = picked_linklocal x n p in
                    let top = rank_linklocal gua n l in
                    subst P (sym hit) (
                      picked-IsListed (pick_linklocal lib) cache n
                          (λ e q. let (a, b, c) = picked_linklocal e n q in (a, b)) hit,
                      λ d u.
                          let low = rank_low gua d (out d u) (no_global cache d miss u) in
                          omega (arith, low, top),
                    )
                | inl none_there ↦ subst P (sym none_there) (λ d u.
                    rank_none gua d (out d u) (no_global cache d miss u)
                      (no_linklocal cache d none_there u))
              ])
      ]

  -- The next hop that is chosen is usable in the cache, and nothing that the cache has as usable is of a
  -- higher rank: the derived address first, then global and unique local addresses, then those that
  -- begin with "fe80"; and none is chosen only if nothing usable there is of these.
  pub nexthop-IsHighest :
      (gua : Option Text) (cache : List Cached) → IsHighest gua cache (nexthop lib gua cache)
  unfolding nexthop
  nexthop-IsHighest none cache = other_nexthop-IsHighest none cache (λ d u. refl)
  nexthop-IsHighest (some g) cache = elim (Bool-cases (is_cached lib cache g)) [
    | inl hit ↦
        let (st, at, ok) = is_cached-IsUsable cache g hit in
        rw hit (listed g cache st at ok, λ d u. ground (arith, strcmp_eq_refl g))
    | inr miss ↦ rw miss (other_nexthop-IsHighest (some g) cache (λ d u. unlike miss d u))
  ]
    where
      unlike : is_cached lib cache g ≡ false → (d : Text) → IsUsable cache d → strcmp_eq g d ≡ false
      unlike miss d u = elim (Bool-cases (strcmp_eq g d)) [
        | inl same ↦ absurd (clash (subst (λ x. IsUsable cache x) (sym (strcmp_eq→ g d same)) u))
        | inr differs ↦ differs
      ]
        where
          clash : IsUsable cache g → ⊥
          clash v = ground (arith, miss, IsUsable-is_cached cache g v)
