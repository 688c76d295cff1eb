-- ===== src/Linux/Select/Last.antt =====
-- Which router is chosen (host/v4gwd.py `select_router`): one of the highest key, the last such.
use v4_with_v6_nh.Common.{
  ◌+◌, ◌*◌, ◌≤◌, ◌<◌, ◌==◌, if◌then◌else◌, All-map, ℕ, ◌≡◌, refl, sym, ap, true, false, Option,
  none, some, List, [], ◌∷◌, ◌++◌, arith, All, inl, inr, Bool-cases, Option-cases,
}
use mathlib.Core.Path.{subst}
use v4_with_v6_nh.Linux.Routes.{pref_rank, Text, Route, default_routes}
use v4_with_v6_nh.Linux.Select.{
  Key, key_ge, Choice, key_of, better, consider, scan, chosen, select_router,
}

key_ge_trans : (a b c : Key) → key_ge a b ≡ true → key_ge b c ≡ true → key_ge a c ≡ true
unfolding key_ge
key_ge_trans a b c h k = ground arith

key_ge_total : (a b : Key) → key_ge a b ≡ false → key_ge b a ≡ true
unfolding key_ge
key_ge_total a b h = ground arith

key_ge_refl : (a : Key) → key_ge a a ≡ true
unfolding key_ge
key_ge_refl a = ground arith

module _ (nud : Text → ℕ) where
  abbrev AtMost : Key → Route → Type 0
  AtMost k r = (gw : Text) → r.gateway ≡ some gw → key_ge k (key_of nud r gw) ≡ true

  abbrev Below : Key → Route → Type 0
  Below k r = (gw : Text) → r.gateway ≡ some gw → key_ge (key_of nud r gw) k ≡ false

  -- The preference, then whether the router is NUD REACHABLE, as a number.
  abbrev pub score : Route → Text → ℕ
  score r gw = 2 * pref_rank r.pref + (if nud gw == 2 then 1 else 0)

  abbrev pub ScoresAtMost : ℕ → Route → Type 0
  ScoresAtMost n r = (gw : Text) → r.gateway ≡ some gw → score r gw ≤ n

  abbrev pub ScoresBelow : ℕ → Route → Type 0
  ScoresBelow n r = (gw : Text) → r.gateway ≡ some gw → score r gw < n

  -- Nothing, if no route has a gateway; or the gateway of a route that none before it exceeds in its score,
  -- and none after it reaches.
  pub data IsLastBest (rs : List Route) : Option Text → Type 0 where
    no_gateway : All (λ r. r.gateway ≡ none) rs → IsLastBest rs none
    last_best :
        (before : List Route) (r : Route) (after : List Route) (gw : Text)
        → rs ≡ before ++ (r ∷ after)
        → r.gateway ≡ some gw
        → All (ScoresAtMost (score r gw)) before
        → All (ScoresBelow (score r gw)) after
        → IsLastBest rs (some gw)

  key_ge-score :
      (r r' : Route) (gw gw' : Text)
      → key_ge (key_of nud r gw) (key_of nud r' gw') ≡ true
      → score r' gw' ≤ score r gw
  unfolding key_ge key_of
  key_ge-score r r' gw gw' h = ground arith

  key_ge-score_lt :
      (r r' : Route) (gw gw' : Text)
      → key_ge (key_of nud r gw) (key_of nud r' gw') ≡ false
      → score r gw < score r' gw'
  unfolding key_ge key_of
  key_ge-score_lt r r' gw gw' h = ground arith

  abbrev Weaker : Option Choice → Route → Type 0
  Weaker none r = r.gateway ≡ none
  Weaker (some c) r = Below c.best_key r

  abbrev Reaches : Key → Option Choice → Type 0
  Reaches k none = Unit
  Reaches k (some c) = key_ge k c.best_key ≡ true

  -- What a scan from a choice comes to.
  data IsScanned (c : Option Choice) (rs : List Route) : Option Choice → Type 0 where
    kept : All (Weaker c) rs → IsScanned c rs c
    taken :
        (before : List Route) (r : Route) (after : List Route) (gw : Text)
        → rs ≡ before ++ (r ∷ after)
        → r.gateway ≡ some gw
        → Reaches (key_of nud r gw) c
        → All (AtMost (key_of nud r gw)) before
        → All (Below (key_of nud r gw)) after
        → IsScanned c rs (some (record { best = gw; best_key = key_of nud r gw }))

  -- One route more at the front: it has no gateway, or it is weaker than the choice, or it is taken.
  data IsFirst (r : Route) (c : Option Choice) : Option Choice → Type 0 where
    skipped : Weaker c r → ((k : Key) → Reaches k c → AtMost k r) → IsFirst r c c
    now :
        (gw : Text)
        → r.gateway ≡ some gw
        → Reaches (key_of nud r gw) c
        → IsFirst r c (some (record { best = gw; best_key = key_of nud r gw }))

  absent-Weaker : (r : Route) (c : Option Choice) → r.gateway ≡ none → Weaker c r
  absent-Weaker r none absent = absent
  absent-Weaker r (some c) absent = λ gw e. ground arith

  under_key :
      (r : Route) (gw : Text) (k : Key)
      → r.gateway ≡ some gw
      → key_ge (key_of nud r gw) k ≡ false
      → Below k r
  under_key r gw k e under g e' = ground arith

  over_key :
      (r : Route) (gw : Text) (k : Key)
      → r.gateway ≡ some gw
      → key_ge k (key_of nud r gw) ≡ true
      → AtMost k r
  over_key r gw k e over g e' = ground arith

  better-IsFirst :
      (r : Route) (gw : Text) (c : Option Choice)
      → r.gateway ≡ some gw
      → IsFirst r c (better nud (record { best = gw; best_key = key_of nud r gw }) c)
  better-IsFirst r gw none e = now gw e tt
  better-IsFirst r gw (some c) e = elim (Bool-cases (key_ge (key_of nud r gw) c.best_key)) [
    | inl over ↦ rw over (now gw e over)
    | inr under ↦ rw under (
        skipped (under_key r gw c.best_key e under) (λ k h. over_key r gw k e (
          key_ge_trans k c.best_key (key_of nud r gw) h
            (key_ge_total (key_of nud r gw) c.best_key under))))
  ]

  consider-none : (r : Route) (c : Option Choice) → r.gateway ≡ none → consider nud r c ≡ c
  unfolding consider
  consider-none r c e = ground arith

  consider-some :
      (r : Route) (c : Option Choice) (gw : Text)
      → r.gateway ≡ some gw
      → consider nud r c ≡ better nud (record { best = gw; best_key = key_of nud r gw }) c
  unfolding consider
  consider-some r c gw e = ground arith

  consider-IsFirst : (r : Route) (c : Option Choice) → IsFirst r c (consider nud r c)
  consider-IsFirst r c = elim (Option-cases r.gateway) [
    | inl absent ↦
        subst (IsFirst r c) (sym (consider-none r c absent))
          (skipped (absent-Weaker r c absent) (λ k h gw e. ground arith))
    | inr (gw, e) ↦ subst (IsFirst r c) (sym (consider-some r c gw e)) (better-IsFirst r gw c e)
  ]

  Reaches-trans : (a b : Key) (c : Option Choice) → key_ge a b ≡ true → Reaches b c → Reaches a c
  Reaches-trans a b none h k = tt
  Reaches-trans a b (some old) h k = key_ge_trans a b old.best_key h k

  -- A scan goes on behind its first route.
  go_on :
      {r : Route} {rs : List Route} {c d e : Option Choice}
      → IsFirst r c d
      → IsScanned d rs e
      → IsScanned c (r ∷ rs) e
  go_on (skipped w up) (kept ws) = kept (w, ws)
  go_on {r} (skipped w up) (taken before r' after gw same e h le lt) =
      taken (r ∷ before) r' after gw (ap (λ l. r ∷ l) same) e h (up _ h, le) lt
  go_on {r} {rs} (now gw e h) (kept ws) = taken [] r rs gw refl e h tt ws
  go_on {r} (now gw e h) (taken before r' after gw' same e' h' le lt) =
      taken (r ∷ before) r' after gw' (ap (λ l. r ∷ l) same) e' (Reaches-trans _ _ _ h' h)
        (over_key r gw _ e h', le) lt

  scan-IsScanned : (rs : List Route) (c : Option Choice) → IsScanned c rs (scan nud rs c)
  unfolding scan
  scan-IsScanned [] c = kept tt
  scan-IsScanned (r ∷ rs) c = go_on (consider-IsFirst r c) (scan-IsScanned rs (consider nud r c))

  scanned-IsLastBest :
      (rs : List Route) (d : Option Choice) → IsScanned none rs d → IsLastBest rs (chosen nud d)
  scanned-IsLastBest rs none (kept ws) = no_gateway ws
  scanned-IsLastBest rs (some d) (taken before r after gw same e h le lt) =
      last_best before r after gw same e
        (All-map before (λ x a g at. key_ge-score r x gw g (a g at)) le)
        (All-map after (λ x a g at. key_ge-score_lt x r g gw (a g at)) lt)

  -- RFC 4191: of the default routes of the interface with a gateway, the chosen router has the highest
  -- preference, then NUD REACHABLE, and is the last such in the order of the dump, whatever the addresses;
  -- none is chosen only if no such route has a gateway.
  pub select_router-IsLastBest :
      (index : Option ℕ) (rs : List Route)
      → IsLastBest (default_routes index rs) (select_router nud index rs)
  unfolding select_router
  select_router-IsLastBest index rs =
      scanned-IsLastBest _ _ (scan-IsScanned (default_routes index rs) none)
