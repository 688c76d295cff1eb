-- ===== src/FreeBsd/Select/Best.antt =====
-- `select_router` (host/freebsd/v4gwd.c) finds a router of the highest rank and, among those, of
-- the lowest address.
use v4_with_v6_nh.Common.{
  ℕ, zero, suc, ◌+◌, ◌-◌, ◌≤◌, ◌<◌, ◌≡◌, ◌∙◌, sym, refl, true, false, some, List, [], ◌∷◌, arith,
  leb, All, Any, here, there, ◌⊎◌, inl, inr,
}
use mathlib.Core.Path.{subst}
use v4_with_v6_nh.Common.Int.{ℤ, negsuc, ◌≤ℤ◌}
use v4_with_v6_nh.Common.Text.{memcmp_ge}
use v4_with_v6_nh.Common.Text.Laws.{value, memcmp_ge-value}
use v4_with_v6_nh.Inet6.{Addr, IsAddr}
use v4_with_v6_nh.Rtsock.{Sysctl, fetch}
use v4_with_v6_nh.FreeBsd.Select.{
  Defrouter, DrBuffer, Choice, start, chosen, pref_rank, consider, scan_drlist, select_router,
}

-- The buffer holds these routers from offset `p` on, and then no whole entry.
abbrev pub Lists : ℕ → DrBuffer → ℕ → List Defrouter → Type 0
Lists size buf p [] = buf.len < p + size
Lists size buf p (d ∷ ds) = (p + size ≤ buf.len) × (buf.entry p ≡ d) × Lists size buf (p + size) ds

-- The rank `r` with address `a` is at least as good as router `d`.
abbrev pub Beats : ℤ → Addr → Defrouter → Type 0
Beats r a d = (pref_rank d.flags ≤ℤ r) × (r ≤ℤ pref_rank d.flags → value a ≤ value d.rtaddr)

module _ (ifindex : ℕ) where
  abbrev pub consider_all : List Defrouter → Choice → Choice
  consider_all [] c = c
  consider_all (d ∷ ds) c = consider_all ds (consider ifindex d c)

  -- The loop visits the entries of the buffer in order, each once.
  pub scan_drlist-Lists :
      (size : ℕ) (buf : DrBuffer) (ds : List Defrouter) (rounds p : ℕ) (c : Choice)
      → 0 < size
      → Lists size buf p ds
      → buf.len - p < rounds
      → scan_drlist ifindex size buf rounds p c ≡ consider_all ds c
  unfolding scan_drlist
  scan_drlist-Lists size buf ds zero p c sz l fuel = absurd (omega arith)
  scan_drlist-Lists size buf [] (suc n) p c sz l fuel = ground arith
  scan_drlist-Lists size buf (d ∷ ds) (suc n) p c sz l fuel =
      ground (arith, scan_drlist-Lists size buf ds n (p + size) (consider ifindex d c) sz l.2)

  abbrev pub Dominates : Choice → Defrouter → Type 0
  Dominates c d = d.if_index ≡ ifindex → (c.found ≡ true) × Beats c.best_rank c.best d

  -- `c'` is `c` or better.
  pub record Grows (c c' : Choice) : Type 0 where
    still : c.found ≡ true → c'.found ≡ true
    higher : c.found ≡ true → c.best_rank ≤ℤ c'.best_rank
    lower : c.found ≡ true → c'.best_rank ≤ℤ c.best_rank → value c'.best ≤ value c.best

  pub record IsGood (c : Choice) : Type 0 where
    pub fresh : c.found ≡ false → c.best_rank ≡ negsuc 0
    pub address : c.found ≡ true → IsAddr c.best

  rank-ge : (flags : ℕ) → negsuc 0 ≤ℤ pref_rank flags
  unfolding pref_rank
  rank-ge flags = ground arith

  lowest : (a b : Addr) → IsAddr a → IsAddr b → memcmp_ge a b ≡ leb (value b) (value a)
  lowest a b ha hb = memcmp_ge-value a b ha.bytes hb.bytes (omega (arith, ha.size, hb.size))

  consider-IsGood :
      (d : Defrouter) (c : Choice) → IsAddr d.rtaddr → IsGood c → IsGood (consider ifindex d c)
  unfolding consider
  consider-IsGood d c a g = ground arith

  consider-Grows :
      (d : Defrouter) (c : Choice) → IsAddr d.rtaddr → IsGood c → Grows c (consider ifindex d c)
  unfolding consider
  consider-Grows d c a g = ground (arith, g.address, lowest d.rtaddr c.best)

  consider-Dominates :
      (d : Defrouter) (c : Choice) → IsAddr d.rtaddr → IsGood c → Dominates (consider ifindex d c) d
  unfolding consider
  consider-Dominates d c a g =
      ground (arith, g.fresh, g.address, rank-ge d.flags, lowest d.rtaddr c.best)

  Dominates-Grows : (c c' : Choice) (d : Defrouter) → Dominates c d → Grows c c' → Dominates c' d
  Dominates-Grows c c' d dom g on = ground (arith, dom on, g.still, g.higher, g.lower)

  Grows-trans : (a b c : Choice) → Grows a b → Grows b c → Grows a c
  Grows-trans a b c g h = ground (arith, g.still, g.higher, g.lower, h.still, h.higher, h.lower)

  pub consider_all-IsGood :
      (ds : List Defrouter) (c : Choice)
      → All (λ d. IsAddr d.rtaddr) ds
      → IsGood c
      → IsGood (consider_all ds c)
  consider_all-IsGood [] c a g = g
  consider_all-IsGood (d ∷ ds) c a g =
      consider_all-IsGood ds (consider ifindex d c) a.1 (consider-IsGood d c a.0 g)

  consider_all-Grows :
      (ds : List Defrouter) (c : Choice)
      → All (λ d. IsAddr d.rtaddr) ds
      → IsGood c
      → Grows c (consider_all ds c)
  consider_all-Grows [] c a g = record {
    still = λ h. h;
    higher = λ h. omega arith;
    lower = λ h k. omega arith;
  }
  consider_all-Grows (d ∷ ds) c a g =
      Grows-trans c (consider ifindex d c) (consider_all ds (consider ifindex d c))
        (consider-Grows d c a.0 g)
        (consider_all-Grows ds (consider ifindex d c) a.1 (consider-IsGood d c a.0 g))

  pub consider_all-Dominates :
      (ds : List Defrouter) (c : Choice)
      → All (λ d. IsAddr d.rtaddr) ds
      → IsGood c
      → All (Dominates (consider_all ds c)) ds
  consider_all-Dominates [] c a g = tt
  consider_all-Dominates (d ∷ ds) c a g =
      let c' = consider ifindex d c in
      let g' = consider-IsGood d c a.0 g in
      (
        Dominates-Grows c' (consider_all ds c') d (consider-Dominates d c a.0 g)
            (consider_all-Grows ds c' a.1 g'),
        consider_all-Dominates ds c' a.1 g',
      )

  -- A router of the interface that is what the loop has kept.
  abbrev pub IsKept : Choice → Defrouter → Type 0
  IsKept c d =
      (d.if_index ≡ ifindex)
      × (d.rtaddr ≡ c.best)
      × (pref_rank d.flags ≡ c.best_rank)
      × (c.found ≡ true)

  consider-IsKept :
      (d : Defrouter) (c : Choice) → (consider ifindex d c ≡ c) ⊎ IsKept (consider ifindex d c) d
  unfolding consider
  consider-IsKept d c = ground arith

  pub consider_all-IsKept :
      (ds : List Defrouter) (c : Choice)
      → (consider_all ds c ≡ c) ⊎ Any (IsKept (consider_all ds c)) ds
  consider_all-IsKept [] c = inl refl
  consider_all-IsKept (d ∷ ds) c = elim (consider_all-IsKept ds (consider ifindex d c)) [
    | inr later ↦ inr (there later)
    | inl same ↦ elim (consider-IsKept d c) [
      | inl kept ↦ inl (same ∙ kept)
      | inr new ↦ inr (here (subst (λ x. IsKept x d) (sym same) new))
    ]
  ]

  pub start-IsGood : IsGood start
  start-IsGood = record { fresh = λ h. refl; address = λ h. cc }

  -- Of the routers `ds`, `d` is on the interface at address `gw` and none of the others there is
  -- ranked higher, nor as high with a lower address.
  abbrev pub IsBest : List Defrouter → Addr → Defrouter → Type 0
  IsBest ds gw d =
      (d.if_index ≡ ifindex)
      × (d.rtaddr ≡ gw)
      × All (λ e. e.if_index ≡ ifindex → Beats (pref_rank d.flags) gw e) ds

  pub select_router-chosen :
      (size : ℕ) (drlist : Sysctl DrBuffer) {buf : DrBuffer} (ds : List Defrouter)
      → fetch drlist ≡ some buf
      → 0 < size
      → Lists size buf 0 ds
      → select_router ifindex size drlist ≡ chosen (consider_all ds start)
  unfolding select_router
  select_router-chosen size drlist {buf} ds read sz l =
      ground (arith, scan_drlist-Lists size buf ds (suc buf.len) 0 start sz l)
