-- ===== src/MacOs/Cache.antt =====
-- The map of router MACs on disk, one file for each own-MAC (host/macos/v4gwd-arp.c
-- `router_cache_path`, `router_cache_lookup`, `router_cache_put`). The file system is a parameter.
pub mod RoundTrip
use v4_with_v6_nh.Common.{
  ℕ, Bool, true, false, Option, none, some, List, [], ◌∷◌, ◌++◌, if◌then◌else◌, take, ◌≡◌, ◌≢◌,
}
use v4_with_v6_nh.Common.Text.{fgets, codes}
use v4_with_v6_nh.Mac.{Mac, mac_eq, mac_str, scan_mac}

abbrev pub FilePath : Type 0
FilePath = List ℕ

-- `fopen(path, "r")` with the bytes to be read; `mkdir`; `fopen(path, "w")`, with `none` for its
-- failure, and what is written; `rename`.
pub record Files (F : Type 0) : Type 0 where
  pub read : F → FilePath → Option (List ℕ)
  pub mkdir : F → FilePath → F
  pub write : F → FilePath → List ℕ → Option F
  pub rename : F → FilePath → FilePath → F

abbrev pub router_cache_dir : FilePath
router_cache_dir = codes "/var/db/v4gwd-arp"

-- `char path[64]`
unfoldable pub router_cache_path : Mac → FilePath
unfolding mac_str
router_cache_path host = take 63 (router_cache_dir ++ b'/' ∷ mac_str host)

-- `char tmp[72]`
unfoldable pub tmp_path : Mac → FilePath
unfolding router_cache_path
tmp_path host = take 71 (router_cache_path host ++ codes ".tmp")

abbrev pub read_line : Option (List ℕ) → Option Mac
read_line none = none
read_line (some content) = elim (fgets 32 content) [
  | none ↦ none
  | some text ↦ scan_mac 256 b':' text
]

-- The entry is there already.
unfoldable pub is_unchanged : Mac → Option Mac → Bool
is_unchanged router none = false
is_unchanged router (some cur) = mac_eq cur router

module _ {F : Type 0} (files : Files F) where
  open files use {read, mkdir, write, rename}

  unfoldable pub router_cache_lookup : Mac → F → Option Mac
  router_cache_lookup host f = read_line (read f (router_cache_path host))

  unfoldable pub store_entry : Mac → Mac → F → F
  store_entry host router f = elim (write f (tmp_path host) (mac_str router ++ 10 ∷ [])) [
    | none ↦ f
    | some f' ↦ rename f' (tmp_path host) (router_cache_path host)
  ]

  unfoldable pub router_cache_put : Mac → Mac → F → F
  router_cache_put host router f =
      if is_unchanged router (router_cache_lookup host f)
      then f
      else store_entry host router (mkdir f router_cache_dir)
