-- ===== src/Windows/Daemon/Pins.antt =====
-- One `reconcile` (host/windows/v4gwd.c) brings the neighbour entry of the gateway to the target.
use v4_with_v6_nh.Common.{
  ℕ, ◌≡◌, refl, ◌∙◌, ap, true, false, ◌&&◌, Option, none, some, arith, Bool-cases, Option-cases,
  inl, inr,
}
use v4_with_v6_nh.Mac.{Mac, mac_eq, mac_str_reg}
use v4_with_v6_nh.Mac.RoundTrip.{mac_eq→}
use v4_with_v6_nh.Windows.Tables.{neighbor_present, fill_sentinel_row}
use v4_with_v6_nh.Windows.Daemon.{
  System, Config, State, World, Status, no_error, already_exists, other_error, find_luid,
  interface_mac, set_existing, program_entry, noted, install, withdraw, resolve, remember,
  router_cache_put, reconcile,
}
use v4_with_v6_nh.Windows.Daemon.Laws.{
  IsPinning, target, resolved, reconcile-manage, manage-resolved, manage-recalled, manage-none,
  target-resolved,
}

module _ {K : Type 0} (sys : System K) (c : Config) (entry : ℕ → K → Option Mac)
    (laws : IsPinning sys c entry) where
  open sys use {has_index, net4, delete_entry, create_entry}

  -- The entry is `mac`, and the daemon knows it.
  pub record HasPinned (luid : ℕ) (mac : Mac) (w : World K) : Type 0 where
    pub in_kernel : entry luid w.os ≡ some mac
    pub believed : w.daemon.installed ≡ true
    pub kept : w.daemon.installed_mac ≡ mac

  set_existing-entry :
      (luid : ℕ) (mac : Mac) (r : Status × K)
      → (r.0 ≡ no_error → entry luid r.1 ≡ some mac)
      → (set_existing sys c (fill_sentinel_row luid (some mac)) r).0 ≡ no_error
      → entry luid (set_existing sys c (fill_sentinel_row luid (some mac)) r).1 ≡ some mac
  set_existing-entry luid mac (no_error, os) created ok = created refl
  set_existing-entry luid mac (already_exists, os) created ok = laws.sets luid os mac ok
  set_existing-entry luid mac (other_error, os) created ok = cc

  program_entry-entry :
      (luid : ℕ) (mac : Mac) (os : K)
      → (program_entry sys c luid mac os).0 ≡ no_error
      → entry luid (program_entry sys c luid mac os).1 ≡ some mac
  unfolding program_entry
  program_entry-entry luid mac os ok =
      set_existing-entry luid mac _
        (laws.creates luid (delete_entry os (fill_sentinel_row luid (some mac))).1 mac) ok

  noted-HasPinned :
      (luid : ℕ) (mac : Mac) (s : State) (r : Status × K)
      → r.0 ≡ no_error
      → entry luid r.1 ≡ some mac
      → HasPinned luid mac (noted sys c mac s r)
  noted-HasPinned luid mac s (no_error, os) h e = record {
    in_kernel = e;
    believed = refl;
    kept = refl;
  }
  noted-HasPinned luid mac s (already_exists, os) h e = cc
  noted-HasPinned luid mac s (other_error, os) h e = cc

  install-HasPinned :
      (mac : Mac) (w : World K)
      → (program_entry sys c w.daemon.luid mac w.os).0 ≡ no_error
      → HasPinned w.daemon.luid mac (install sys c mac w)
  unfolding install
  install-HasPinned mac w granted =
      elim (Bool-cases (
        w.daemon.installed
        && (mac_eq w.daemon.installed_mac mac && neighbor_present w.daemon.luid mac (net4 w.os)))) [
          | inl same ↦ rw same (already same)
          | inr differs ↦ rw differs (
              noted-HasPinned w.daemon.luid mac w.daemon _ granted
                (program_entry-entry w.daemon.luid mac w.os granted))
        ]
    where
      already :
          (w.daemon.installed
              && (mac_eq w.daemon.installed_mac mac
                  && neighbor_present w.daemon.luid mac (net4 w.os)))
            ≡ true
          → HasPinned w.daemon.luid mac w
      already same =
          let on : w.daemon.installed ≡ true = ground (arith, same) in
          let eq : mac_eq w.daemon.installed_mac mac ≡ true = ground (arith, same) in
          let there : neighbor_present w.daemon.luid mac (net4 w.os) ≡ true =
            ground (arith, same) in
          record {
            in_kernel = laws.shows w.daemon.luid w.os mac there;
            believed = on;
            kept = mac_eq→ w.daemon.installed_mac mac eq;
          }

  pub put-entry :
      (luid : ℕ) (host router : Mac) (os : K)
      → entry luid (router_cache_put sys c host router os) ≡ entry luid os
  unfolding router_cache_put
  put-entry luid host router os =
      ground (arith, laws.registry_keeps luid os (mac_str_reg host) (mac_str_reg router))

  remember-HasPinned :
      (luid : ℕ) (host : Option Mac) (mac router : Mac) (w : World K)
      → HasPinned luid mac w
      → HasPinned luid mac (remember sys c host router w)
  remember-HasPinned luid none mac router w p = p
  remember-HasPinned luid (some host) mac router w p = record {
    in_kernel = put-entry luid host router w.os ∙ p.in_kernel;
    believed = p.believed;
    kept = p.kept;
  }

  -- If the interface is there, there is an address to pin and the calls on the neighbour table succeed,
  -- then after one `reconcile` the permanent entry for the gateway has it, and the daemon counts it as
  -- installed: from any state, so also where something else has flushed or replaced the entry.
  pub reconcile-HasPinned :
      (w : World K) (luid : ℕ) (mac : Mac)
      → find_luid sys c w.daemon w.os ≡ some luid
      → has_index w.os luid ≡ true
      → target sys c luid w.os ≡ some mac
      → (program_entry sys c luid mac w.os).0 ≡ no_error
      → HasPinned luid mac (reconcile sys c w)
  reconcile-HasPinned w luid mac found up e granted =
      rw (reconcile-manage sys c w found up) (elim (Option-cases (resolve sys c luid w.os)) [
        | inl unresolved ↦
            rw (manage-recalled sys c luid (resolved sys c luid w) e unresolved)
              (install-HasPinned mac (resolved sys c luid w) granted)
        | inr (other, hit) ↦
            let same = target-resolved sys c luid w.os e hit in
            rw (manage-resolved sys c luid (resolved sys c luid w) e (hit ∙ ap some same)) (
              remember-HasPinned luid (interface_mac sys c luid w.os) mac mac
                (install sys c mac (resolved sys c luid w))
                (install-HasPinned mac (resolved sys c luid w) granted))
      ])

  withdraw-lem :
      (w : World K)
      → ((withdraw sys c w).daemon.installed ≡ false)
        × (w.daemon.installed ≡ true
            → (delete_entry w.os (fill_sentinel_row w.daemon.luid none)).0 ≡ true
            → entry w.daemon.luid (withdraw sys c w).os ≡ none)
        × (w.daemon.installed ≡ false → (withdraw sys c w).os ≡ w.os)
  unfolding withdraw
  withdraw-lem w = ground (arith, laws.deletes w.daemon.luid w.os)

  -- If the interface is there and there is nothing to pin, then after one `reconcile` the daemon counts
  -- no entry as installed; the one that it had is gone unless the delete fails, and where it had none,
  -- nothing of the system is touched.
  pub reconcile_clears :
      (w : World K) (luid : ℕ)
      → find_luid sys c w.daemon w.os ≡ some luid
      → has_index w.os luid ≡ true
      → target sys c luid w.os ≡ none
      → let w' = reconcile sys c w in
        (w'.daemon.installed ≡ false)
        × (w.daemon.installed ≡ true
            → (delete_entry w.os (fill_sentinel_row luid none)).0 ≡ true
            → entry luid w'.os ≡ none)
        × (w.daemon.installed ≡ false → w'.os ≡ w.os)
  reconcile_clears w luid found up e =
      rw (reconcile-manage sys c w found up, manage-none sys c luid (resolved sys c luid w) e)
        (withdraw-lem (resolved sys c luid w))
