-- ===== src/Windows/Tables/Lowest.antt =====
-- `find_default_router` (host/windows/v4gwd.c) finds a default route of the lowest metric.
use mathlib.Core.Path.{subst}
use v4_with_v6_nh.Common.{
  ℕ, ◌≤◌, ◌≡◌, ◌∙◌, sym, refl, true, false, none, some, List, [], ◌∷◌, arith, All, Any, here, there,
  Any-map, All-map, Any-All, ◌⊎◌, inl, inr, ◌↔◌, Bool-cases,
}
use v4_with_v6_nh.Inet6.{Addr}
use v4_with_v6_nh.Rtsock.{inet6}
use v4_with_v6_nh.Windows.Tables.{
  ForwardRow, Candidate, no_candidate, consider, scan_routes, result_of, find_default_router,
}

module _ (g_luid : ℕ) where
  -- An IPv6 default route on the interface.
  abbrev pub IsDefault : ForwardRow → Type 0
  IsDefault r =
      (r.luid ≡ g_luid) × (r.prefix_length ≡ 0) × (r.prefix_family ≡ inet6) × (r.hop_family ≡ inet6)

  abbrev Dominates : Candidate → ForwardRow → Type 0
  Dominates c r = IsDefault r → (c.found ≡ true) × (c.best ≤ r.metric)

  abbrev Grows : Candidate → Candidate → Type 0
  Grows c c' = c.found ≡ true → (c'.found ≡ true) × (c'.best ≤ c.best)

  abbrev IsKept : Candidate → ForwardRow → Type 0
  IsKept c r = IsDefault r × (r.hop_addr6 ≡ c.gw) × (r.metric ≡ c.best) × (c.found ≡ true)

  consider-Grows : (r : ForwardRow) (c : Candidate) → Grows c (consider g_luid r c)
  unfolding consider
  consider-Grows r c found = ground arith

  consider-Dominates : (r : ForwardRow) (c : Candidate) → Dominates (consider g_luid r c) r
  unfolding consider
  consider-Dominates r c d = ground arith

  consider-IsKept :
      (r : ForwardRow) (c : Candidate) → (consider g_luid r c ≡ c) ⊎ IsKept (consider g_luid r c) r
  unfolding consider
  consider-IsKept r c = ground arith

  scan_routes-Grows : (rs : List ForwardRow) (c : Candidate) → Grows c (scan_routes g_luid rs c)
  unfolding scan_routes
  scan_routes-Grows [] c found = (found, omega arith)
  scan_routes-Grows (r ∷ rs) c found =
      let step = consider-Grows r c found in
      let rest = scan_routes-Grows rs (consider g_luid r c) step.0 in
      (rest.0, omega (arith, step.1, rest.1))

  scan_routes-Dominates :
      (rs : List ForwardRow) (c : Candidate) → All (Dominates (scan_routes g_luid rs c)) rs
  unfolding scan_routes
  scan_routes-Dominates [] c = tt
  scan_routes-Dominates (r ∷ rs) c = (
    λ d.
        let step = consider-Dominates r c d in
        let rest = scan_routes-Grows rs (consider g_luid r c) step.0 in
        (rest.0, omega (arith, step.1, rest.1)),
    scan_routes-Dominates rs (consider g_luid r c),
  )

  scan_routes-IsKept :
      (rs : List ForwardRow) (c : Candidate)
      → (scan_routes g_luid rs c ≡ c) ⊎ Any (IsKept (scan_routes g_luid rs c)) rs
  unfolding scan_routes
  scan_routes-IsKept [] c = inl refl
  scan_routes-IsKept (r ∷ rs) c = elim (scan_routes-IsKept rs (consider g_luid r c)) [
    | inr later ↦ inr (there later)
    | inl same ↦ elim (consider-IsKept r c) [
      | inl kept ↦ inl (same ∙ kept)
      | inr new ↦ inr (here (subst (λ x. IsKept x r) (sym same) new))
    ]
  ]

  -- Of the routes, `r` is a default route through `gw` and none has a lower metric.
  abbrev pub IsLowest : List ForwardRow → Addr → ForwardRow → Type 0
  IsLowest rows gw r =
      IsDefault r × (r.hop_addr6 ≡ gw) × All (λ x. IsDefault x → r.metric ≤ x.metric) rows

  result_of-found :
      (c : Candidate) {gw : Addr} → result_of g_luid c ≡ some gw → (c.found ≡ true) × (c.gw ≡ gw)
  result_of-found c e = ground arith

  found-IsLowest :
      (rows : List ForwardRow) (c : Candidate)
      → c.found ≡ true
      → All (Dominates c) rows
      → (c ≡ no_candidate) ⊎ Any (IsKept c) rows
      → Any (IsLowest rows c.gw) rows
  found-IsLowest rows c found dom (inl none_kept) = cc
  found-IsLowest rows c found dom (inr kept) =
      Any-map
        (λ r k. (
          k.0,
          k.1,
          All-map rows (λ x d on. let e = k.2 in let le = (d on).1 in omega (arith, e, le)) dom,
        ))
        kept

  -- `find_default_router` returns the next hop of an IPv6 default route on the interface that has the
  -- lowest metric of these routes, and it returns nothing exactly when there is no such route.
  pub find_default_router-IsLowest :
      (rows : List ForwardRow)
      → ((gw : Addr)
          → find_default_router g_luid (some rows) ≡ some gw
          → Any (IsLowest rows gw) rows)
        × ((find_default_router g_luid (some rows) ≡ none) ↔ All (λ r. IsDefault r → ⊥) rows)
  unfolding find_default_router
  find_default_router-IsLowest rows = (
    λ gw e.
        let f = result_of-found (scan_routes g_luid rows no_candidate) e in
        subst (λ a. Any (IsLowest rows a) rows) f.1
          (found-IsLowest rows (scan_routes g_luid rows no_candidate) f.0
            (scan_routes-Dominates rows no_candidate) (scan_routes-IsKept rows no_candidate)),
    (
      λ e.
          All-map rows (λ r dom d. let f = (dom d).0 in unfound f e)
            (scan_routes-Dominates rows no_candidate),
      λ away. absent (Bool-cases (scan_routes g_luid rows no_candidate).found) away,
    ),
  )
    where
      unfound :
          (scan_routes g_luid rows no_candidate).found ≡ true
          → result_of g_luid (scan_routes g_luid rows no_candidate) ≡ none
          → ⊥
      unfound f e = ground arith

      absent :
          ((scan_routes g_luid rows no_candidate).found ≡ true)
            ⊎ ((scan_routes g_luid rows no_candidate).found ≡ false)
          → All (λ r. IsDefault r → ⊥) rows
          → result_of g_luid (scan_routes g_luid rows no_candidate) ≡ none
      absent (inl f) away =
          let (r, k, off) =
            Any-All
              (found-IsLowest rows (scan_routes g_luid rows no_candidate) f
                (scan_routes-Dominates rows no_candidate) (scan_routes-IsKept rows no_candidate))
              away in
          absurd (off k.0)
      absent (inr f) away = rw f
