-- ===== src/MacOs/Daemon/Laws.antt =====
-- What the macOS daemon relies on of the system (host/macos/v4gwd-arp.c; arp(8)), and the address that
-- it should pin.
use v4_with_v6_nh.Common.{
  ℕ, ◌≡◌, ◌≢◌, Bool, true, false, not, ◌&&◌, Option, none, some, List, ◌==◌, if◌then◌else◌, arith,
}
use v4_with_v6_nh.Mac.{Mac}
use v4_with_v6_nh.MacOs.Discovery.{sentinel_in_fib, iface_lladdr}
use v4_with_v6_nh.MacOs.Cache.{FilePath}
use v4_with_v6_nh.MacOs.Daemon.{
  run_command, System, Config, World, sentinel_in_file, install_argv, withdraw_argv, is_present,
  install, withdraw, resolve, recall, remember, reconcile,
}

module _ {K : Type 0} (sys : System K) (c : Config) where
  open sys use {hdr_size, if_nametoindex, state_file, rt4, getifaddrs, files}

  -- `entry os` is the address of the permanent ARP entry for the sentinel on the interface. The ARP
  -- dump shows it; `arp -s` sets it if it succeeds and leaves it if not; `arp -d` removes it if it succeeds;
  -- and writing files leaves it. (This takes it that `waitpid` does not fail where `run` waits.)
  pub record IsPinning (entry : K → Option Mac) : Type 0 where
    pub shows :
        (os : K) (mac : Mac)
        → is_present sys c (if_nametoindex os) mac os ≡ true
        → entry os ≡ some mac
    pub sets :
        (os : K) (mac : Mac)
        → (run_command sys os (install_argv c mac)).0 ≡ true
        → entry (run_command sys os (install_argv c mac)).1 ≡ some mac
    pub fails :
        (os : K) (mac : Mac)
        → (run_command sys os (install_argv c mac)).0 ≡ false
        → entry (run_command sys os (install_argv c mac)).1 ≡ entry os
    pub deletes :
        (os : K)
        → (run_command sys os (withdraw_argv c)).0 ≡ true
        → entry (run_command sys os (withdraw_argv c)).1 ≡ none
    pub mkdir_keeps : (os : K) (p : FilePath) → entry (files.mkdir os p) ≡ entry os
    pub write_keeps :
        (os : K) (p : FilePath) (text : List ℕ) (os' : K)
        → files.write os p text ≡ some os'
        → entry os' ≡ entry os
    pub rename_keeps : (os : K) (p q : FilePath) → entry (files.rename os p q) ≡ entry os

  -- The sentinel conditions of the command line hold.
  abbrev pub sentinel_present : K → Bool
  sentinel_present os =
      not (c.use_sentinel_file && not (sentinel_in_file c.sentinel_str (state_file os)))
      && not (c.require_sentinel_route && not (sentinel_in_fib hdr_size c.sentinel_addr (rt4 os)))

  abbrev pub own_mac : K → Option Mac
  own_mac os = iface_lladdr c.ifname (getifaddrs os)

  -- The address to pin: that of the router, or the stored one of this network.
  unfoldable pub target : K → Option Mac
  target os =
      if if_nametoindex os == 0
      then none
      else if sentinel_present os
      then elim (resolve sys c (if_nametoindex os) os) [
        | some mac ↦ some mac
        | none ↦ recall sys c (own_mac os) os
      ]
      else none

  abbrev pub refreshed : World K → World K
  refreshed w = record w { daemon = record (w.daemon) { ifindex = if_nametoindex w.os } }

  -- `reconcile` by what it finds.
  pub reconcile-resolved :
      (w : World K) {mac : Mac}
      → target w.os ≡ some mac
      → resolve sys c (if_nametoindex w.os) w.os ≡ some mac
      → reconcile sys c w ≡ remember sys c (own_mac w.os) mac (install sys c mac (refreshed w))
  unfolding target reconcile
  reconcile-resolved w e r = ground arith

  pub reconcile-recalled :
      (w : World K) {mac : Mac}
      → target w.os ≡ some mac
      → resolve sys c (if_nametoindex w.os) w.os ≡ none
      → reconcile sys c w ≡ install sys c mac (refreshed w)
  unfolding target reconcile
  reconcile-recalled w e r = ground arith

  pub target-resolved :
      (os : K) {mac other : Mac}
      → target os ≡ some mac
      → resolve sys c (if_nametoindex os) os ≡ some other
      → other ≡ mac
  unfolding target
  target-resolved os e r = ground arith

  pub reconcile-none :
      (w : World K)
      → if_nametoindex w.os ≢ 0
      → target w.os ≡ none
      → reconcile sys c w ≡ withdraw sys c (refreshed w)
  unfolding target reconcile
  reconcile-none w up e = ground arith
