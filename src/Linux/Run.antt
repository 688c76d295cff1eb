-- ===== src/Linux/Run.antt =====
-- The program (host/v4gwd.py `SENTINEL`, `ethernet_ifnames`, `serve`, `main`). The interfaces are a list, in the order in
-- which the dictionary has got them, and so is a set of names. The command line is what argparse makes
-- of it.
pub mod Names
pub mod Clear
pub mod Exits
use v4_with_v6_nh.Common.{
  ℕ, Bool, true, false, not, ◌&&◌, ◌||◌, Option, none, some, List, [], ◌∷◌, ◌++◌, ◌==◌,
  if◌then◌else◌,
}
use v4_with_v6_nh.Common.Loop.{while_running}
use v4_with_v6_nh.Common.Text.{codes, strcmp_eq}
use v4_with_v6_nh.Linux.Routes.{Text}
use v4_with_v6_nh.Linux.Daemon.{
  Kernel, Config, Interface, new_interface, World, kernel_has_rta_via, reconcile, withdraw_active,
}

-- `os.environ.get("V4GW_GATEWAY", "192.0.0.11")`
unfoldable pub sentinel_of : Option Text → Text
sentinel_of none = codes "192.0.0.11"
sentinel_of (some t) = t

abbrev pub default_metric : ℕ
default_metric = 50

pub record Args : Type 0 where
  pub interfaces : List Text
  pub unconditional : Bool
  pub metric : ℕ

-- The type of a link, and its name, if it has one that is not empty.
pub record Link : Type 0 where
  pub ifi_type : ℕ
  pub ifname : Option Text

unfoldable pub ethernet_ifnames : List Link → List Text
ethernet_ifnames [] = []
ethernet_ifnames (l ∷ ls) =
    let rest = ethernet_ifnames ls in
    if l.ifi_type == 1 then elim (l.ifname) [ none ↦ rest | some n ↦ n ∷ rest ] else rest

unfoldable pub has_name : Text → List Interface → Bool
has_name n [] = false
has_name n (f ∷ fs) = strcmp_eq f.name n || has_name n fs

-- One name of `refresh`.
abbrev pub add_new : Text → List Interface → List Interface
add_new n fs = if has_name n fs then fs else fs ++ (new_interface n ∷ [])

unfoldable pub add_names : List Text → List Interface → List Interface
add_names [] fs = fs
add_names (n ∷ ns) fs = add_names ns (add_new n fs)

pub record Host (K : Type 0) : Type 0 where
  pub ifaces : List Interface
  pub os : K

pub record Process (K : Type 0) : Type 0 where
  pub host : Host K
  pub running : Bool

abbrev pub is_running : {K : Type 0} → Process K → Bool
is_running p = p.running

-- What the system has become when `poll` ends, and whether a signal has come before `if running`, or
-- during the reconciliation.
pub record Round (K : Type 0) : Type 0 where
  pub change : K → K
  pub stop_before : Bool
  pub stop_during : Bool

abbrev pub config_of : Args → Option Text → Option (ℕ × ℕ) → Config
config_of args env release = record {
  sentinel = sentinel_of env;
  metric = args.metric;
  require_sentinel = not args.unconditional;
  static_arp = not (kernel_has_rta_via release);
}

-- One interface of `for i in ifaces.values()`, and the others after it.
abbrev pub with_first : {K : Type 0} → Interface → Host K → Host K
with_first f h = record h { ifaces = f ∷ h.ifaces }

module _ {K : Type 0} (each : World K → World K) where
  unfoldable pub for_all : List Interface → K → Host K
  for_all [] os = record { ifaces = []; os = os }
  for_all (f ∷ fs) os =
      let w = each (record { iface = f; os = os }) in with_first w.iface (for_all fs w.os)

module _ {K : Type 0} (kernel : Kernel K) (links : K → List Link) (args : Args) (c : Config) where
  abbrev pub wanted : K → List Text
  wanted os = elim (args.interfaces) [ [] ↦ ethernet_ifnames (links os) | n ∷ ns ↦ n ∷ ns ]

  unfoldable pub refresh : Host K → Host K
  refresh h = record h { ifaces = add_names (wanted h.os) h.ifaces }

  abbrev pub reconcile_all : Host K → Host K
  reconcile_all h = for_all (reconcile kernel c) h.ifaces h.os

  unfoldable pub serve : Round K → Process K → Process K
  serve r p =
      let h = record (p.host) { os = r.change (p.host).os } in
      if r.stop_before
      then record { host = h; running = false }
      else record { host = reconcile_all (refresh h); running = not r.stop_during }

  unfoldable pub loop : List (Round K) → Process K → Process K
  loop rs p = while_running is_running serve rs p

  abbrev pub withdraw_all : Host K → Host K
  withdraw_all h = for_all (withdraw_active kernel c) h.ifaces h.os

  -- After the loop, if it has ended.
  unfoldable pub finish : Process K → Process K
  finish p = if p.running then p else record p { host = withdraw_all p.host }

  -- The interfaces before the loop; `early` says whether a signal has come.
  unfoldable pub begin : Bool → K → Process K
  begin early os = record {
    host = reconcile_all (refresh (record { ifaces = []; os = os }));
    running = not early;
  }

  -- `main` from `refresh()` on.
  unfoldable pub run : Bool → List (Round K) → K → Process K
  run early rs os = finish (loop rs (begin early os))

module _ {K : Type 0} (kernel : Kernel K) (links : K → List Link) where
  unfoldable pub main : Args → Option Text → Option (ℕ × ℕ) → Bool → List (Round K) → K → Process K
  main args env release early rs os = run kernel links args (config_of args env release) early rs os
