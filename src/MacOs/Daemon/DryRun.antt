-- ===== src/MacOs/Daemon/DryRun.antt =====
-- The dry run against the daemon (host/macos/v4gwd-arp.c `dry_run_report`, `reconcile`).
use v4_with_v6_nh.Common.{◌≡◌, ◌≢◌, false, some, arith, ◌⊎◌, inl, inr, refl}
use v4_with_v6_nh.Mac.{Mac}
use v4_with_v6_nh.Inet6.{Addr}
use v4_with_v6_nh.MacOs.Daemon.{
  System, Config, Report, Found, recall, would_remove, would_wait, would_install, resolve,
  dry_run_report,
}
use v4_with_v6_nh.MacOs.Daemon.Laws.{target, own_mac}

-- A sentinel line, where there is one, says that the daemon would manage the interface.
abbrev pub IsManaged : Report → Type 0
IsManaged r = (r.in_fib ≢ some false) × (r.in_file ≢ some false)

predicted :
    {K : Type 0} (sys : System K) (c : Config) (os : K) {r : Report} (gw : Addr) (mac : Mac)
    → dry_run_report sys c os ≡ some r
    → IsManaged r
    → r.found ≡ would_install gw mac
    → target sys c os ≡ some mac
unfolding dry_run_report target resolve
predicted sys c os gw mac e managed found = ground arith

recalled :
    {K : Type 0} (sys : System K) (c : Config) (os : K) {r : Report} (cached : Mac)
    → dry_run_report sys c os ≡ some r
    → IsManaged r
    → (r.found ≡ would_remove) ⊎ ((gw : Addr) × (r.found ≡ would_wait gw))
    → recall sys c (own_mac sys c os) os ≡ some cached
    → target sys c os ≡ some cached
unfolding dry_run_report target resolve
recalled sys c os cached e managed found known = ground arith

-- If no sentinel line of a dry run says otherwise: where it reports that it would install an entry, that
-- is the address which `reconcile` pins in the same state of the system; where it reports that there is no
-- router or that the router is not resolved, `reconcile` still pins the stored address of the network,
-- if there is one.
pub dry_run_report-target :
    {K : Type 0} (sys : System K) (c : Config) (os : K) {r : Report}
    → dry_run_report sys c os ≡ some r
    → IsManaged r
    → ((gw : Addr) (mac : Mac) → r.found ≡ would_install gw mac → target sys c os ≡ some mac)
      × (((gw : Addr) (mac : Mac) → r.found ≢ would_install gw mac)
          → (cached : Mac) → recall sys c (own_mac sys c os) os ≡ some cached
          → target sys c os ≡ some cached)
dry_run_report-target sys c os {r} e managed = (
  λ gw mac. predicted sys c os gw mac e managed,
  λ unfound cached known. by_found unfound cached known r.found refl,
)
  where
    by_found :
        ((gw : Addr) (mac : Mac) → r.found ≢ would_install gw mac)
        → (cached : Mac) → recall sys c (own_mac sys c os) os ≡ some cached
        → (f : Found) → r.found ≡ f
        → target sys c os ≡ some cached
    by_found unfound cached known would_remove h = recalled sys c os cached e managed (inl h) known
    by_found unfound cached known (would_wait gw) h =
        recalled sys c os cached e managed (inr (gw, h)) known
    by_found unfound cached known (would_install gw mac) h = absurd (unfound gw mac h)
