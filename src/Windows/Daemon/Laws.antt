-- ===== src/Windows/Daemon/Laws.antt =====
-- What the Windows daemon relies on of the system (host/windows/v4gwd.c; the IP Helper interface and the
-- registry), and the address that it should pin.
use v4_with_v6_nh.Common.{
  ℕ, ◌<◌, ◌≡◌, ◌≢◌, true, not, ◌&&◌, Option, none, some, List, if◌then◌else◌, arith, length,
}
use v4_with_v6_nh.Mac.{Mac, mac_str_reg}
use v4_with_v6_nh.Windows.Tables.{neighbor_present, fill_sentinel_row, sentinel_in_fib}
use v4_with_v6_nh.Windows.Daemon.{
  System, Config, World, no_error, find_luid, with_luid, interface_mac, resolve, recall, remember,
  install, withdraw, manage, reconcile,
}

module _ {K : Type 0} (sys : System K) (c : Config) where
  open sys use {has_index, forward4, net4, delete_entry, create_entry, set_entry, reg_get, reg_set}

  -- `entry luid os` is the address of the permanent neighbour entry for the sentinel. The table shows it;
  -- a create or a set that succeeds makes it, and one that fails leaves it as it was; a delete that succeeds,
  -- or finds none, leaves none, and one that fails does not make one; the registry does not touch it.
  pub record IsPinning (entry : ℕ → K → Option Mac) : Type 0 where
    pub shows :
        (luid : ℕ) (os : K) (mac : Mac)
        → neighbor_present luid mac (net4 os) ≡ true
        → entry luid os ≡ some mac
    pub creates :
        (luid : ℕ) (os : K) (mac : Mac)
        → (create_entry os (fill_sentinel_row luid (some mac))).0 ≡ no_error
        → entry luid (create_entry os (fill_sentinel_row luid (some mac))).1 ≡ some mac
    pub sets :
        (luid : ℕ) (os : K) (mac : Mac)
        → (set_entry os (fill_sentinel_row luid (some mac))).0 ≡ no_error
        → entry luid (set_entry os (fill_sentinel_row luid (some mac))).1 ≡ some mac
    pub deletes :
        (luid : ℕ) (os : K)
        → (delete_entry os (fill_sentinel_row luid none)).0 ≡ true
        → entry luid (delete_entry os (fill_sentinel_row luid none)).1 ≡ none
    pub create_fails :
        (luid : ℕ) (os : K) (mac : Mac)
        → (create_entry os (fill_sentinel_row luid (some mac))).0 ≢ no_error
        → entry luid (create_entry os (fill_sentinel_row luid (some mac))).1 ≡ entry luid os
    pub set_fails :
        (luid : ℕ) (os : K) (mac : Mac)
        → (set_entry os (fill_sentinel_row luid (some mac))).0 ≢ no_error
        → entry luid (set_entry os (fill_sentinel_row luid (some mac))).1 ≡ entry luid os
    pub delete_keeps :
        (luid : ℕ) (os : K) (m : Option Mac)
        → entry luid os ≡ none
        → entry luid (delete_entry os (fill_sentinel_row luid m)).1 ≡ none
    pub registry_keeps :
        (luid : ℕ) (os : K) (n v : List ℕ) → entry luid (reg_set os n v).1 ≡ entry luid os

  -- A value that could be written is read back by a buffer with room for it and its NUL. The values of
  -- other networks stay, whether it could or not: their names differ in more than case.
  pub record IsRegistry : Type 0 where
    pub set_get :
        (os : K) (n v : List ℕ) (size : ℕ)
        → length v < size
        → (reg_set os n v).0 ≡ true
        → reg_get (reg_set os n v).1 n size ≡ some v
    pub set_keeps :
        (os : K) (host other : Mac) (v : List ℕ) (size : ℕ)
        → mac_str_reg other ≢ mac_str_reg host
        → reg_get (reg_set os (mac_str_reg host) v).1 (mac_str_reg other) size
          ≡ reg_get os (mac_str_reg other) size

  -- The address to pin on the interface: that of the router, or the stored one of this network.
  unfoldable pub target : ℕ → K → Option Mac
  target luid os =
      if not (c.require_sentinel_route && not (sentinel_in_fib luid (forward4 os)))
      then elim (resolve sys c luid os) [
        | some mac ↦ some mac
        | none ↦ recall sys c (interface_mac sys c luid os) os
      ]
      else none

  abbrev pub resolved : ℕ → World K → World K
  resolved luid w = record w { daemon = with_luid sys c luid w.daemon }

  -- `reconcile` by what it finds.
  pub reconcile-manage :
      (w : World K) {luid : ℕ}
      → find_luid sys c w.daemon w.os ≡ some luid
      → has_index w.os luid ≡ true
      → reconcile sys c w ≡ manage sys c luid (resolved luid w)
  unfolding reconcile
  reconcile-manage w found up = ground arith

  pub manage-resolved :
      (luid : ℕ) (w : World K) {mac : Mac}
      → target luid w.os ≡ some mac
      → resolve sys c luid w.os ≡ some mac
      → manage sys c luid w
        ≡ remember sys c (interface_mac sys c luid w.os) mac (install sys c mac w)
  unfolding target manage
  manage-resolved luid w e r = ground arith

  pub manage-recalled :
      (luid : ℕ) (w : World K) {mac : Mac}
      → target luid w.os ≡ some mac
      → resolve sys c luid w.os ≡ none
      → manage sys c luid w ≡ install sys c mac w
  unfolding target manage
  manage-recalled luid w e r = ground arith

  pub target-resolved :
      (luid : ℕ) (os : K) {mac other : Mac}
      → target luid os ≡ some mac
      → resolve sys c luid os ≡ some other
      → other ≡ mac
  unfolding target
  target-resolved luid os e r = ground arith

  pub manage-none :
      (luid : ℕ) (w : World K) → target luid w.os ≡ none → manage sys c luid w ≡ withdraw sys c w
  unfolding target manage
  manage-none luid w e = ground arith
