-- ===== src/Windows/Daemon/Registry.antt =====
-- The stored addresses (host/windows/v4gwd.c `router_cache_put`, `router_cache_lookup`).
use v4_with_v6_nh.Common.{
  ◌<◌, ◌≡◌, ◌≢◌, ◌∙◌, sym, ap, true, Option, none, some, arith, Bool-cases, inl, inr, length,
}
use v4_with_v6_nh.Mac.{Mac, mac_str_reg, scan_mac}
use v4_with_v6_nh.Mac.RoundTrip.{IsMac, mac_eq→, scan-mac_str_reg}
use v4_with_v6_nh.Windows.Daemon.{
  System, Config, low_bytes, read_value, is_unchanged, router_cache_lookup, router_cache_put,
}
use v4_with_v6_nh.Windows.Daemon.Laws.{IsRegistry}

low_bytes-same : (m : Mac) → IsMac m → low_bytes m ≡ m
low_bytes-same m h = ground arith

read_value-mac_str_reg : (m : Mac) → IsMac m → read_value (some (mac_str_reg m)) ≡ some m
read_value-mac_str_reg m h = ground (arith, scan-mac_str_reg m h, low_bytes-same m h)

unchanged : (router : Mac) (o : Option Mac) → is_unchanged router o ≡ true → o ≡ some router
unfolding is_unchanged
unchanged router none h = cc
unchanged router (some cur) h = ap some (mac_eq→ cur router h)

fits : (m : Mac) → length (mac_str_reg m) < 32
unfolding mac_str_reg
fits m = omega arith

name-injective : (a b : Mac) → IsMac a → IsMac b → mac_str_reg a ≡ mac_str_reg b → a ≡ b
name-injective a b ha hb e =
    let same : some a ≡ some b =
      sym (scan-mac_str_reg a ha) ∙ ap (scan_mac 4294967296 b'-') e ∙ scan-mac_str_reg b hb in
    cc

module _ {K : Type 0} (sys : System K) (c : Config) (laws : IsRegistry sys c) where
  -- If the value could be written, after `router_cache_put`, `router_cache_lookup` for the same network
  -- finds the router's MAC, and for any other network it finds what it found before.
  pub registry_round_trip :
      (host other router : Mac) (os : K)
      → IsMac host
      → IsMac other
      → IsMac router
      → other ≢ host
      → (sys.reg_set os (mac_str_reg host) (mac_str_reg router)).0 ≡ true
      → (router_cache_lookup sys c host (router_cache_put sys c host router os) ≡ some router)
        × (router_cache_lookup sys c other (router_cache_put sys c host router os)
            ≡ router_cache_lookup sys c other os)
  unfolding router_cache_put router_cache_lookup
  registry_round_trip host other router os hh ho hr ne written =
      elim (Bool-cases (is_unchanged router (read_value (sys.reg_get os (mac_str_reg host) 32)))) [
        | inl same ↦
            let kept = unchanged router (read_value (sys.reg_get os (mac_str_reg host) 32)) same in
            ground (arith, same, kept)
        | inr new ↦ rw new (
          ap read_value
                (laws.set_get os (mac_str_reg host) (mac_str_reg router) 32 (fits router) written)
              ∙ read_value-mac_str_reg router hr,
          ap read_value (
              laws.set_keeps os host other (mac_str_reg router) 32
                (λ e. ne (name-injective other host ho hh e))),
        )
      ]
