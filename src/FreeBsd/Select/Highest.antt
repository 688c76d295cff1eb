-- ===== src/FreeBsd/Select/Highest.antt =====
-- What `select_router` (host/freebsd/v4gwd.c) promises its caller.
use mathlib.Core.Path.{subst}
use v4_with_v6_nh.Common.{
  ℕ, ◌<◌, ◌≡◌, ◌≢◌, ◌∙◌, sym, true, false, none, some, List, arith, All, Any, All-map, Any-map,
  Any-All, inl, inr, ◌↔◌, Bool-cases,
}
use v4_with_v6_nh.Inet6.{Addr, IsAddr}
use v4_with_v6_nh.Rtsock.{Sysctl, fetch}
use v4_with_v6_nh.FreeBsd.Select.{Defrouter, DrBuffer, Choice, start, pref_rank, select_router}
use v4_with_v6_nh.FreeBsd.Select.Best.{
  Lists, consider_all, IsBest, Dominates, IsKept, Beats, consider_all-Dominates,
  consider_all-IsKept, start-IsGood, select_router-chosen,
}

module _ (ifindex size : ℕ) (drlist : Sysctl DrBuffer) {buf : DrBuffer} (ds : List Defrouter)
    (read : fetch drlist ≡ some buf) (sized : 0 < size) (holds : Lists size buf 0 ds)
    (addrs : All (λ d. IsAddr d.rtaddr) ds) where
  kept : Choice
  kept = consider_all ifindex ds start

  kept-Dominates : All (Dominates ifindex kept) ds
  unfolding kept
  kept-Dominates = consider_all-Dominates ifindex ds start addrs (start-IsGood ifindex)

  kept-IsKept : kept.found ≡ true → Any (IsKept ifindex kept) ds
  unfolding kept
  kept-IsKept found = elim (consider_all-IsKept ifindex ds start) [ inl same ↦ cc | inr any ↦ any ]

  selected :
      {gw : Addr}
      → select_router ifindex size drlist ≡ some gw
      → (kept.found ≡ true) × (kept.best ≡ gw)
  unfolding kept
  selected e = ground (arith, select_router-chosen ifindex size drlist ds read sized holds)

  selected-IsBest :
      {gw : Addr} → select_router ifindex size drlist ≡ some gw → Any (IsBest ifindex ds gw) ds
  selected-IsBest {gw} e =
      let (found, same) = selected e in
      Any-map
        (λ d k. (
          k.0,
          k.1 ∙ same,
          All-map ds
              (λ x dom on.
                subst (λ a. Beats (pref_rank d.flags) a x) same
                  (subst (λ r. Beats r kept.best x) (sym k.2) (dom on).1))
              kept-Dominates,
        ))
        (kept-IsKept found)

  unfound : select_router ifindex size drlist ≡ none → kept.found ≡ false
  unfolding kept
  unfound e = ground (arith, select_router-chosen ifindex size drlist ds read sized holds)

  unfound_back : kept.found ≡ false → select_router ifindex size drlist ≡ none
  unfolding kept
  unfound_back e = ground (arith, select_router-chosen ifindex size drlist ds read sized holds)

  none_if_absent : All (λ d. d.if_index ≢ ifindex) ds → kept.found ≡ false
  none_if_absent off = elim (Bool-cases kept.found) [
    | inl found ↦ let (d, k, away) = Any-All (kept-IsKept found) off in absurd (away k.0)
    | inr none_found ↦ none_found
  ]

  none_iff_absent : (select_router ifindex size drlist ≡ none) ↔ All (λ d. d.if_index ≢ ifindex) ds
  none_iff_absent = (
    λ e. All-map ds (λ d dom on. let f = unfound e in let g = (dom on).0 in cc) kept-Dominates,
    λ off. unfound_back (none_if_absent off),
  )

  -- What `select_router` returns is the address of a router on the interface, none of whose rivals there
  -- has a higher preference, or the same preference and a numerically lower address; and it finds nothing
  -- exactly when no router of the list is on the interface, whatever the preferences.
  pub select_router-IsBest :
      ((gw : Addr) → select_router ifindex size drlist ≡ some gw → Any (IsBest ifindex ds gw) ds)
      × ((select_router ifindex size drlist ≡ none) ↔ All (λ d. d.if_index ≢ ifindex) ds)
  select_router-IsBest = (λ gw e. selected-IsBest e, none_iff_absent)
