-- ===== src/Windows/Run/Life.antt =====
-- The life of the worker (host/windows/v4gwd.c `run_worker`).
use v4_with_v6_nh.Common.{ℕ, ◌*◌, ◌≤◌, ◌≡◌, true, false, Option, none, List, arith, Any}
use v4_with_v6_nh.Common.Int.{pos}
use v4_with_v6_nh.Mac.{Mac}
use v4_with_v6_nh.Windows.Tables.{fill_sentinel_row}
use v4_with_v6_nh.Windows.Daemon.{System, Config, World, withdraw, reconcile}
use v4_with_v6_nh.Windows.Daemon.Laws.{IsPinning}
use v4_with_v6_nh.Common.Loop.{while_running-stops}
use v4_with_v6_nh.Windows.Run.{
  is_running, worker_timeout, by_stop, Process, Round, serve, loop, run_worker,
}

-- The timeout of the wait is the interval in milliseconds, for intervals of up to 4294967 seconds; for an
-- interval that is a multiple of 2^29 seconds it is 0, so that the wait never blocks.
pub worker_timeout_lem :
    (n k : ℕ)
    → (n ≤ 4294967 → worker_timeout (pos n) ≡ n * 1000)
      × (k ≤ 3 → worker_timeout (pos (k * 536870912)) ≡ 0)
unfolding worker_timeout
worker_timeout_lem n k = (λ h. omega arith, λ h. omega arith)

module _ {K : Type 0} (sys : System K) (c : Config) where
  serve-stops :
      (r : Round K) (p : Process K) → r.woken ≡ by_stop → (serve sys c r p).running ≡ false
  unfolding serve
  serve-stops r p h = ground arith

  loop-stops :
      {rs : List (Round K)} (p : Process K)
      → Any (λ r. r.woken ≡ by_stop) rs
      → (loop sys c rs p).running ≡ false
  unfolding loop
  loop-stops p stops =
      while_running-stops is_running (serve sys c) (λ r. r.woken ≡ by_stop) serve-stops p stops

  -- The worker returns only after `withdraw`.
  pub run_worker-withdrawn :
      (rs : List (Round K)) (w : World K)
      → (run_worker sys c rs w).running ≡ false
      → (run_worker sys c rs w).world.daemon.installed ≡ false
  unfolding run_worker withdraw
  run_worker-withdrawn rs w ended = ground (arith, ended)

  pub run_worker-ends :
      (rs : List (Round K)) (w : World K)
      → Any (λ r. r.woken ≡ by_stop) rs
      → (run_worker sys c rs w).running ≡ false
  unfolding run_worker
  run_worker-ends rs w stops =
      ground (arith, loop-stops (record { world = reconcile sys c w; running = true }) stops)

  -- Once the stop event is signalled in a round, the worker returns; at its end no entry is counted as
  -- installed, and one that was so when the loop ended is out of the neighbour table
  -- unless the delete fails.
  pub run_worker-stops :
      (entry : ℕ → K → Option Mac) (rs : List (Round K)) (w : World K)
      → IsPinning sys c entry
      → Any (λ r. r.woken ≡ by_stop) rs
      → let p = run_worker sys c rs w in
        let q = loop sys c rs (record { world = reconcile sys c w; running = true }) in
        (p.running ≡ false)
        × (p.world.daemon.installed ≡ false)
        × (q.world.daemon.installed ≡ true
            → (sys.delete_entry q.world.os (fill_sentinel_row q.world.daemon.luid none)).0 ≡ true
            → entry q.world.daemon.luid p.world.os ≡ none)
  unfolding run_worker withdraw
  run_worker-stops entry rs w laws stops = ground (
    arith,
    loop-stops (record { world = reconcile sys c w; running = true }) stops,
    laws.deletes
        (loop sys c rs (record { world = reconcile sys c w; running = true })).world.daemon.luid
        (loop sys c rs (record { world = reconcile sys c w; running = true })).world.os,
  )
