-- ===== src/MacOs/Daemon/Pins.antt =====
-- One `reconcile` (host/macos/v4gwd-arp.c) brings the ARP entry of the gateway to the target, whatever
-- has happened to it before.
use v4_with_v6_nh.Common.{
  ℕ, ◌≡◌, ◌≢◌, refl, ◌∙◌, ap, Bool, true, false, ◌&&◌, Option, none, some, List, [], ◌∷◌, ◌++◌,
  arith, Bool-cases, Option-cases, inl, inr,
}
use v4_with_v6_nh.Mac.{Mac, mac_eq, mac_str}
use v4_with_v6_nh.Mac.RoundTrip.{IsMac, mac_eq→}
use v4_with_v6_nh.MacOs.Cache.{
  router_cache_dir, router_cache_path, tmp_path, store_entry, router_cache_put,
}
use v4_with_v6_nh.MacOs.Cache.RoundTrip.{IsFiles, router_cache_lookup-put}
use v4_with_v6_nh.MacOs.Daemon.{
  run_command, System, Config, State, World, install_argv, withdraw_argv, is_present, noted,
  install, withdraw, resolve, recall, remember, reconcile,
}
use v4_with_v6_nh.MacOs.Daemon.Laws.{
  IsPinning, target, own_mac, refreshed, reconcile-resolved, reconcile-recalled, target-resolved,
  reconcile-none,
}

module _ {K : Type 0} (sys : System K) (c : Config) (entry : K → Option Mac)
    (laws : IsPinning sys c entry) where
  open sys use {if_nametoindex, files}

  -- The entry is `mac`, and the daemon knows it.
  pub record IsPinned (mac : Mac) (w : World K) : Type 0 where
    pub in_kernel : entry w.os ≡ some mac
    pub believed : w.daemon.arp_installed ≡ true
    pub kept : w.daemon.installed_mac ≡ mac

  noted-IsPinned :
      (mac : Mac) (s : State) (r : Bool × K)
      → r.0 ≡ true
      → entry r.1 ≡ some mac
      → IsPinned mac (noted sys c mac s r)
  noted-IsPinned mac s (true, os) h e = record { in_kernel = e; believed = refl; kept = refl }
  noted-IsPinned mac s (false, os) h e = cc

  install-IsPinned :
      (mac : Mac) (w : World K)
      → w.daemon.ifindex ≡ if_nametoindex w.os
      → (run_command sys w.os (install_argv c mac)).0 ≡ true
      → IsPinned mac (install sys c mac w)
  unfolding install
  install-IsPinned mac w index granted =
      elim (Bool-cases (
        w.daemon.arp_installed
        && (mac_eq w.daemon.installed_mac mac && is_present sys c w.daemon.ifindex mac w.os))) [
          | inl same ↦ rw same (already same)
          | inr differs ↦
              rw differs (noted-IsPinned mac w.daemon _ granted (laws.sets w.os mac granted))
        ]
    where
      already :
          (w.daemon.arp_installed
              && (mac_eq w.daemon.installed_mac mac && is_present sys c w.daemon.ifindex mac w.os))
            ≡ true
          → IsPinned mac w
      already same =
          let on : w.daemon.arp_installed ≡ true = ground (arith, same) in
          let eq : mac_eq w.daemon.installed_mac mac ≡ true = ground (arith, same) in
          let there : is_present sys c (if_nametoindex w.os) mac w.os ≡ true =
            ground (arith, same, index) in
          record {
            in_kernel = laws.shows w.os mac there;
            believed = on;
            kept = mac_eq→ w.daemon.installed_mac mac eq;
          }

  -- Storing an entry of the map leaves the ARP table alone.
  store-entry : (host router : Mac) (os : K) → entry (store_entry files host router os) ≡ entry os
  unfolding store_entry
  store-entry host router os =
      elim (Option-cases (files.write os (tmp_path host) (mac_str router ++ 10 ∷ []))) [
        | inl e ↦ ground arith
        | inr (os', e) ↦ ground (
          arith,
          laws.rename_keeps os' (tmp_path host) (router_cache_path host),
          laws.write_keeps os (tmp_path host) (mac_str router ++ 10 ∷ []) os' e,
        )
      ]

  put-entry :
      (host router : Mac) (os : K) → entry (router_cache_put files host router os) ≡ entry os
  unfolding router_cache_put
  put-entry host router os = ground (
    arith,
    store-entry host router (files.mkdir os router_cache_dir),
    laws.mkdir_keeps os router_cache_dir,
  )

  pub remember-entry :
      (host : Option Mac) (router : Mac) (w : World K)
      → (entry (remember sys c host router w).os ≡ entry w.os)
        × ((remember sys c host router w).daemon ≡ w.daemon)
  remember-entry none router w = (refl, refl)
  remember-entry (some host) router w = (put-entry host router w.os, refl)

  remember-IsPinned :
      (host : Option Mac) (mac router : Mac) (w : World K)
      → IsPinned mac w
      → IsPinned mac (remember sys c host router w)
  remember-IsPinned host mac router w p =
      let (same_entry, same) = remember-entry host router w in
      record {
        in_kernel = same_entry ∙ p.in_kernel;
        believed = ap (λ (s : State). s.arp_installed) same ∙ p.believed;
        kept = ap (λ (s : State). s.installed_mac) same ∙ p.kept;
      }

  -- If there is an address to pin and `arp -s` succeeds, then after one `reconcile` the permanent entry
  -- for the gateway has it, and the daemon counts it as installed: from any state, so also where
  -- something else has flushed or replaced the entry.
  pub reconcile-IsPinned :
      (w : World K) (mac : Mac)
      → target sys c w.os ≡ some mac
      → (run_command sys w.os (install_argv c mac)).0 ≡ true
      → IsPinned mac (reconcile sys c w)
  reconcile-IsPinned w mac e granted =
      elim (Option-cases (resolve sys c (if_nametoindex w.os) w.os)) [
        | inl unresolved ↦
            rw (reconcile-recalled sys c w e unresolved)
              (install-IsPinned mac (refreshed sys c w) refl granted)
        | inr (other, found) ↦
            let same = target-resolved sys c w.os e found in
            rw (reconcile-resolved sys c w e (found ∙ ap some same)) (
              remember-IsPinned (own_mac sys c w.os) mac mac (install sys c mac (refreshed sys c w))
                (install-IsPinned mac (refreshed sys c w) refl granted))
      ]

  withdraw-lem :
      (w : World K)
      → ((withdraw sys c w).daemon.arp_installed ≡ false)
        × (w.daemon.arp_installed ≡ true
            → (run_command sys w.os (withdraw_argv c)).0 ≡ true
            → entry (withdraw sys c w).os ≡ none)
        × (w.daemon.arp_installed ≡ false → (withdraw sys c w).os ≡ w.os)
  unfolding withdraw
  withdraw-lem w = ground (arith, laws.deletes w.os)

  -- If the interface is there and there is nothing to pin, then after one `reconcile` the daemon counts
  -- no entry as installed; the one that it had is out of the ARP table if `arp -d` succeeds, and where
  -- it had none, nothing of the system is touched.
  pub reconcile_unpins :
      (w : World K)
      → if_nametoindex w.os ≢ 0
      → target sys c w.os ≡ none
      → let w' = reconcile sys c w in
        (w'.daemon.arp_installed ≡ false)
        × (w.daemon.arp_installed ≡ true
            → (run_command sys w.os (withdraw_argv c)).0 ≡ true
            → entry w'.os ≡ none)
        × (w.daemon.arp_installed ≡ false → w'.os ≡ w.os)
  reconcile_unpins w up e = rw (reconcile-none sys c w up e) (withdraw-lem (refreshed sys c w))

  -- A router that ND has resolved is stored for the network: the next bring-up on the same own-MAC finds
  -- it in the map, if the file could be written.
  pub reconcile_remembers :
      (w : World K) (mac host : Mac)
      → IsFiles files
      → IsMac mac
      → ((os : K) (text : List ℕ) → files.write os (tmp_path host) text ≢ none)
      → target sys c w.os ≡ some mac
      → resolve sys c (if_nametoindex w.os) w.os ≡ some mac
      → own_mac sys c w.os ≡ some host
      → recall sys c (some host) (reconcile sys c w).os ≡ some mac
  reconcile_remembers w mac host fs m writable e found own =
      rw (reconcile-resolved sys c w e found, own)
        (router_cache_lookup-put files fs host mac (install sys c mac (refreshed sys c w)).os m
          (writable (files.mkdir (install sys c mac (refreshed sys c w)).os router_cache_dir) _))
