-- ===== src/Windows/Run.antt =====
-- The worker loop (host/windows/v4gwd.c `run_worker`): the timeout of its wait, and what it does when
-- the wait ends.
pub mod Life
pub mod Clear
use v4_with_v6_nh.Common.{
  ℕ, ◌+◌, ◌-◌, ◌*◌, ◌^◌, ◌%◌, Bool, true, false, List, [], ◌∷◌, if◌then◌else◌,
}
use v4_with_v6_nh.Common.Loop.{while_running}
use v4_with_v6_nh.Common.Int.{ℤ, pos, negsuc}
use v4_with_v6_nh.Windows.Daemon.{System, Config, World, reconcile, withdraw}

-- `(DWORD)g_interval * 1000`, in 32 bits.
unfoldable pub worker_timeout : ℤ → ℕ
worker_timeout (pos n) = n % 2 ^ 32 * 1000 % 2 ^ 32
worker_timeout (negsuc n) = (2 ^ 32 - 1 - n % 2 ^ 32) * 1000 % 2 ^ 32

-- How `WaitForMultipleObjects` ends: with the stop event, the wake event, or otherwise.
pub data Woken : Type 0 where
  by_stop by_wake by_timeout : Woken

abbrev pub is_stop : Woken → Bool
is_stop by_stop = true
is_stop _ = false

pub record Process (K : Type 0) : Type 0 where
  pub world : World K
  pub running : Bool

-- What the system has become when the wait ends (and `Sleep` after a wake event), and how it ends.
pub record Round (K : Type 0) : Type 0 where
  pub change : K → K
  pub woken : Woken

abbrev pub is_running : {K : Type 0} → Process K → Bool
is_running p = p.running

module _ {K : Type 0} (sys : System K) (c : Config) where
  unfoldable pub serve : Round K → Process K → Process K
  serve r p =
      let w = record (p.world) { os = r.change (p.world).os } in
      if is_stop r.woken
      then record { world = w; running = false }
      else record p { world = reconcile sys c w }

  unfoldable pub loop : List (Round K) → Process K → Process K
  loop rs p = while_running is_running serve rs p

  -- `run_worker`: if the loop has ended, the entry is withdrawn.
  unfoldable pub run_worker : List (Round K) → World K → Process K
  run_worker rs w =
      let p = loop rs (record { world = reconcile sys c w; running = true }) in
      if p.running then p else record p { world = withdraw sys c p.world }
