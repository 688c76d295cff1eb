-- ===== src/FreeBsd/Run/Life.antt =====
-- The life of the process (host/freebsd/v4gwd.c `main`): what holds after any number of rounds of the
-- poll loop, and at its end.
use v4_with_v6_nh.Common.{
  ◌≡◌, ◌≢◌, refl, Bool, true, false, Option, some, List, [], ◌∷◌, arith, Any, here, there,
}
use v4_with_v6_nh.FreeBsd.Daemon.{Kernel, Config, World, withdraw, reconcile}
use v4_with_v6_nh.Rtsock.{Sockaddr}
use v4_with_v6_nh.FreeBsd.Route.{fill_gateway}
use v4_with_v6_nh.FreeBsd.Daemon.Laws.{IsRouting, IsWorking}
use v4_with_v6_nh.FreeBsd.Daemon.Converge.{withdraw-believed, withdraw-gone}
use v4_with_v6_nh.Common.Loop.{while_running-stops}
use v4_with_v6_nh.FreeBsd.Run.{
  is_running, Signal, sighup, sigint, sigterm, Process, Round, handle_sigs, serve, loop, run,
}

-- A signal other than SIGHUP came in the round.
abbrev pub Stops : {K : Type 0} → Round K → Type 0
Stops r = Any (λ s. s ≢ sighup) r.signals

module _ {K : Type 0} where
  handle_sigs-stopped :
      (xs : List Signal) (p : Process K) → p.running ≡ false → (handle_sigs xs p).running ≡ false
  unfolding handle_sigs
  handle_sigs-stopped [] p h = h
  handle_sigs-stopped (sighup ∷ xs) p h = handle_sigs-stopped xs _ h
  handle_sigs-stopped (sigint ∷ xs) p h = handle_sigs-stopped xs _ refl
  handle_sigs-stopped (sigterm ∷ xs) p h = handle_sigs-stopped xs _ refl

  handle_sigs-Stops :
      {xs : List Signal} (p : Process K)
      → Any (λ s. s ≢ sighup) xs
      → (handle_sigs xs p).running ≡ false
  unfolding handle_sigs
  handle_sigs-Stops p (here {x = sighup} ne) = absurd (ne refl)
  handle_sigs-Stops p (here {x = sigint} {xs = xs} ne) = handle_sigs-stopped xs _ refl
  handle_sigs-Stops p (here {x = sigterm} {xs = xs} ne) = handle_sigs-stopped xs _ refl
  handle_sigs-Stops p (there {x = s} a) = handle_sigs-Stops _ a

  pub handle_sigs-world : (xs : List Signal) (p : Process K) → (handle_sigs xs p).world ≡ p.world
  unfolding handle_sigs
  handle_sigs-world [] p = refl
  handle_sigs-world (sighup ∷ xs) p = handle_sigs-world xs _
  handle_sigs-world (sigint ∷ xs) p = handle_sigs-world xs _
  handle_sigs-world (sigterm ∷ xs) p = handle_sigs-world xs _

module _ {K : Type 0} (k : Kernel K) (c : Config) where
  serve-Stops : (r : Round K) (p : Process K) → Stops r → (serve k c r p).running ≡ false
  unfolding serve
  serve-Stops r p s = ground (
    arith,
    handle_sigs-Stops (record p { world = record (p.world) { os = r.change (p.world).os } }) s,
  )

  loop-Stops :
      {rs : List (Round K)} (p : Process K) → Any Stops rs → (loop k c rs p).running ≡ false
  unfolding loop
  loop-Stops p stops = while_running-stops is_running (serve k c) Stops serve-Stops p stops

  -- The process at the end of the poll loop.
  abbrev pub after_loop : List (Round K) → World K → Process K
  after_loop rs w = loop k c rs (record { world = reconcile k c w; running = true; reload = false })

  after_loop-Stops :
      (rs : List (Round K)) (w : World K) → Any Stops rs → (after_loop rs w).running ≡ false
  after_loop-Stops rs w stops =
      loop-Stops (record { world = reconcile k c w; running = true; reload = false }) stops

  pub run-withdraw :
      (rs : List (Round K)) (w : World K)
      → Any Stops rs
      → run k c rs w ≡ record (after_loop rs w) { world = withdraw k (after_loop rs w).world }
  unfolding run
  run-withdraw rs w stops = ground (arith, after_loop-Stops rs w stops)

  pub run-Stops :
      (rs : List (Round K)) (w : World K) → Any Stops rs → (run k c rs w).running ≡ false
  run-Stops rs w stops = rw (run-withdraw rs w stops) (after_loop-Stops rs w stops)

  module _ (route : K → Option Sockaddr) (laws : IsRouting k route) (has_default : K → Bool)
      (works : IsWorking k route has_default) where
    -- A SIGINT or SIGTERM in any round ends the program, with no route counted as installed; one that
    -- was so when the loop ended is no longer in the kernel, if that grants the RTM_DELETE or has no
    -- such route.
    pub run_exits :
        (rs : List (Round K)) (w : World K)
        → Any Stops rs
        → let p = run k c rs w in
          let q = after_loop rs w in
          (p.running ≡ false)
          × (p.world.daemon.route_installed ≡ false)
          × (q.world.daemon.route_installed ≡ true
              → route p.world.os
                ≢ some (fill_gateway q.world.daemon.ifindex q.world.daemon.installed_gw))
    run_exits rs w stops = rw (run-withdraw rs w stops) (
      after_loop-Stops rs w stops,
      withdraw-believed k route laws has_default works (after_loop rs w).world,
      withdraw-gone k route laws has_default works (after_loop rs w).world,
    )
