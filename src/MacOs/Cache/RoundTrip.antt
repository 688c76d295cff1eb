-- ===== src/MacOs/Cache/RoundTrip.antt =====
-- What is stored for a network is found for that network, and no other entry changes
-- (host/macos/v4gwd-arp.c `router_cache_put`, `router_cache_lookup`).
use v4_with_v6_nh.Common.{
  ℕ, zero, suc, ◌<◌, ◌≡◌, ◌≢◌, refl, sym, ◌∙◌, ap, true, Option, none, some, List, [], ◌∷◌, ◌++◌,
  arith, drop, length, All, Bool-cases, Option-cases, inl, inr,
}
use v4_with_v6_nh.Common.Text.{fgets, line}
use v4_with_v6_nh.Mac.{Mac, mac_str, scan_mac}
use v4_with_v6_nh.Mac.RoundTrip.{IsMac, mac_eq→, scan-mac_str, scan-mac_line, mac_str-no_newline}
use v4_with_v6_nh.MacOs.Cache.{
  FilePath, Files, router_cache_dir, router_cache_path, tmp_path, read_line, router_cache_lookup,
  is_unchanged, store_entry, router_cache_put,
}

-- What the code relies on of the file system: a directory made leaves the files; a file written holds
-- what was written, and the others what they held; a file renamed is read under its new name.
pub record IsFiles {F : Type 0} (files : Files F) : Type 0 where
  pub mkdir_keeps : (f : F) (d p : FilePath) → files.read (files.mkdir f d) p ≡ files.read f p
  pub write_read :
      (f : F) (p : FilePath) (c : List ℕ) (f' : F)
      → files.write f p c ≡ some f'
      → files.read f' p ≡ some c
  pub write_keeps :
      (f : F) (p : FilePath) (c : List ℕ) (f' : F) (q : FilePath)
      → files.write f p c ≡ some f'
      → q ≢ p
      → files.read f' q ≡ files.read f q
  pub rename_read :
      (f : F) (p q : FilePath) (c : List ℕ)
      → files.read f p ≡ some c
      → files.read (files.rename f p q) q ≡ some c
  pub rename_keeps :
      (f : F) (p q r : FilePath)
      → r ≢ p
      → r ≢ q
      → files.read (files.rename f p q) r ≡ files.read f r

-- A line of the file is read whole.
line-word :
    (p rest : List ℕ) (k : ℕ)
    → All (λ c. c ≢ 10) p
    → length p < k
    → line k (p ++ 10 ∷ rest) ≡ p ++ 10 ∷ []
unfolding line
line-word p rest zero h lt = absurd (omega arith)
line-word [] rest (suc k) h lt = refl
line-word (c ∷ p) rest (suc k) h lt = ground (arith, line-word p rest k h.1)

read_line-mac_str : (m : Mac) → IsMac m → read_line (some (mac_str m ++ 10 ∷ [])) ≡ some m
unfolding fgets mac_str
read_line-mac_str m h =
    ground
      (arith, line-word (mac_str m) [] 31 (mac_str-no_newline m h) (omega arith), scan-mac_line m h)

-- The paths of two networks differ, and no path is a temporary one.
path-injective : (a b : Mac) → IsMac a → IsMac b → router_cache_path a ≡ router_cache_path b → a ≡ b
unfolding router_cache_path
path-injective a b ha hb e =
    let texts : mac_str a ≡ mac_str b = ap (drop 18) e in
    let same : some a ≡ some b =
      sym (scan-mac_str a ha) ∙ ap (scan_mac 256 b':') texts ∙ scan-mac_str b hb in
    cc

path-ne-tmp : (a b : Mac) → router_cache_path a ≢ tmp_path b
unfolding tmp_path
path-ne-tmp a b e = let lengths = ap length e in omega arith

unchanged : (router : Mac) (o : Option Mac) → is_unchanged router o ≡ true → o ≡ some router
unfolding is_unchanged
unchanged router none h = cc
unchanged router (some cur) h = ap some (mac_eq→ cur router h)

module _ {F : Type 0} (files : Files F) (laws : IsFiles files) where
  store_entry_self :
      (host router : Mac) (f f' : F)
      → files.write f (tmp_path host) (mac_str router ++ 10 ∷ []) ≡ some f'
      → files.read (store_entry files host router f) (router_cache_path host)
        ≡ some (mac_str router ++ 10 ∷ [])
  unfolding store_entry
  store_entry_self host router f f' e =
      rw (e, store_entry)
        (laws.rename_read f' (tmp_path host) (router_cache_path host) _
          (laws.write_read f (tmp_path host) _ f' e))

  store_entry-other :
      (host router : Mac) (f : F) (p : FilePath)
      → p ≢ tmp_path host
      → p ≢ router_cache_path host
      → files.read (store_entry files host router f) p ≡ files.read f p
  unfolding store_entry
  store_entry-other host router f p nt np =
      elim (Option-cases (files.write f (tmp_path host) (mac_str router ++ 10 ∷ []))) [
        | inl e ↦ ground arith
        | inr (f', e) ↦ ground (
          arith,
          laws.rename_keeps f' (tmp_path host) (router_cache_path host) p nt np,
          laws.write_keeps f (tmp_path host) (mac_str router ++ 10 ∷ []) f' p e nt,
        )
      ]

  lookup-read :
      (host : Mac) (f : F)
      → router_cache_lookup files host f ≡ read_line (files.read f (router_cache_path host))
  unfolding router_cache_lookup
  lookup-read host f = refl

  -- After `router_cache_put`, `router_cache_lookup` for the same network finds the router's MAC, if the
  -- file could be written.
  pub router_cache_lookup-put :
      (host router : Mac) (f : F)
      → IsMac router
      → files.write (files.mkdir f router_cache_dir) (tmp_path host) (mac_str router ++ 10 ∷ [])
        ≢ none
      → router_cache_lookup files host (router_cache_put files host router f) ≡ some router
  unfolding router_cache_put
  router_cache_lookup-put host router f h written =
      elim (Bool-cases (is_unchanged router (router_cache_lookup files host f))) [
        | inl same ↦ rw same (unchanged router (router_cache_lookup files host f) same)
        | inr new ↦
            elim (Option-cases (
              files.write (files.mkdir f router_cache_dir) (tmp_path host)
                (mac_str router ++ 10 ∷ []))) [
                  | inl e ↦ absurd (written e)
                  | inr (f', e) ↦ rw new (
                      lookup-read host
                        (store_entry files host router (files.mkdir f router_cache_dir))
                      ∙ ap read_line
                          (store_entry_self host router (files.mkdir f router_cache_dir) f' e)
                      ∙ read_line-mac_str router h)
                ]
      ]

  -- The entries of other networks stay.
  router_cache_lookup-put_ne :
      (host other router : Mac) (f : F)
      → IsMac host
      → IsMac other
      → other ≢ host
      → router_cache_lookup files other (router_cache_put files host router f)
        ≡ router_cache_lookup files other f
  unfolding router_cache_put router_cache_lookup
  router_cache_lookup-put_ne host other router f hh ho ne =
      elim (Bool-cases (is_unchanged router (router_cache_lookup files host f))) [
        | inl same ↦ rw same
        | inr new ↦ rw new (
            ap read_line (
              store_entry-other host router (files.mkdir f router_cache_dir)
                (router_cache_path other) (path-ne-tmp other host)
                (λ e. ne (path-injective other host ho hh e))
              ∙ laws.mkdir_keeps f router_cache_dir (router_cache_path other)))
      ]

  -- After `router_cache_put`, `router_cache_lookup` for the same network finds the router's MAC, if the
  -- file could be written; and for any other network it finds what it found before, whether or not the
  -- file could be written.
  pub router_cache_round_trip :
      (host other router : Mac) (f : F)
      → IsMac host
      → IsMac other
      → IsMac router
      → other ≢ host
      → let f' = router_cache_put files host router f in
        (files.write (files.mkdir f router_cache_dir) (tmp_path host) (mac_str router ++ 10 ∷ [])
            ≢ none
          → router_cache_lookup files host f' ≡ some router)
        × (router_cache_lookup files other f' ≡ router_cache_lookup files other f)
  router_cache_round_trip host other router f hh ho hr ne = (
    router_cache_lookup-put host router f hr,
    router_cache_lookup-put_ne host other router f hh ho ne,
  )
