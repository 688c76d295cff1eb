-- ===== src/Linux/Tests/Flaws.antt =====
-- The theorem on a refused delete (host/v4gwd.py `withdraw`) at a kernel that refuses every delete.
use v4_with_v6_nh.Common.{◌≡◌, refl, false, none, some, []}
use v4_with_v6_nh.Linux.Select.{select_router, scan}
use v4_with_v6_nh.Linux.Routes.{
  default_routes, sentinel_present, any_sentinel, is_sentinel, is_default,
}
use v4_with_v6_nh.Common.Text.{strcmp_eq}
use v4_with_v6_nh.Linux.Daemon.{Kernel, World, withdraw_active, reconcile}
use v4_with_v6_nh.Linux.Daemon.Laws.{IsRouting, target}
use v4_with_v6_nh.Linux.Daemon.Converge.{IsSynced}
use v4_with_v6_nh.Linux.Daemon.Flaws.{reconcile_forgets}
use v4_with_v6_nh.Linux.Tests.{
  index_of, Machine, eth0, router, small_kernel, via, small_kernel-IsRouting, strict,
}

-- The small system, with no router left.
abbrev stuck_kernel : Kernel Machine
stuck_kernel = record small_kernel { routes6 = λ m. []; del_route = λ m i metric. (false, m) }

stuck_kernel-IsRouting : IsRouting stuck_kernel strict via
stuck_kernel-IsRouting =
    let laws = small_kernel-IsRouting strict in
    record {
      replaces = laws.replaces;
      refuses = laws.refuses;
      deletes = λ i m h. cc;
      delete_refuses = λ i m h. refl;
      solicits = laws.solicits;
      others_replace = laws.others_replace;
      others_delete = λ i j m ne. refl;
    }

abbrev routed : World Machine
routed = record {
  iface = record {
    name = eth0;
    index = some (index_of eth0);
    installed_via = some router;
    installed_mac = none;
  };
  os = record { vias = λ i. some router; pins = λ i. none };
}

routed-IsSynced : IsSynced via (index_of eth0) routed
routed-IsSynced = record { agrees = refl; no_mac = refl; indexed = λ h. refl }

target-stuck : target stuck_kernel strict (index_of eth0) routed.os ≡ none
unfolding target sentinel_present any_sentinel is_sentinel default_routes is_default select_router
    scan strcmp_eq
target-stuck = refl

reconcile_forgets_example :
    let w' = reconcile stuck_kernel strict routed in
    (via (index_of eth0) w'.os ≡ some router)
    × (w'.iface.installed_via ≡ none)
    × (withdraw_active stuck_kernel strict w' ≡ w')
reconcile_forgets_example =
    reconcile_forgets stuck_kernel strict via stuck_kernel-IsRouting refl (index_of eth0) routed
      router refl routed-IsSynced refl target-stuck refl
