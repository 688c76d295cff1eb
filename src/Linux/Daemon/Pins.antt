-- ===== src/Linux/Daemon/Pins.antt =====
-- Before Linux 5.2, `reconcile` (host/v4gwd.py) pins the neighbour of the gateway.
use v4_with_v6_nh.Common.{ℕ, ◌≡◌, true, Option, some}
use v4_with_v6_nh.Linux.Routes.{Text, neighbor_present}
use v4_with_v6_nh.Linux.Daemon.{Kernel, Config, World}

-- `entry i os` is the address of the permanent neighbour of the gateway at the interface `i`.
pub record IsPinning {K : Type 0} (kernel : Kernel K) (c : Config) (entry : ℕ → K → Option Text)
    : Type 0 where
  pub shows :
      (i : ℕ) (os : K) (mac : Text)
      → neighbor_present mac (kernel.neighbors4 os (some i) c.sentinel) ≡ true
      → entry i os ≡ some mac
  pub pins :
      (i : ℕ) (os : K) (mac : Text)
      → (kernel.replace_neighbor os (some i) c.sentinel mac).0 ≡ true
      → entry i (kernel.replace_neighbor os (some i) c.sentinel mac).1 ≡ some mac

module _ {K : Type 0} (kernel : Kernel K) (c : Config) (entry : ℕ → K → Option Text)
    (laws : IsPinning kernel c entry) where
  abbrev HasPinned : ℕ → Text → World K → Type 0
  HasPinned i mac w = (entry i w.os ≡ some mac) × (w.iface.installed_mac ≡ some mac)
