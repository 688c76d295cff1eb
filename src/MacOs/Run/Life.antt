-- ===== src/MacOs/Run/Life.antt =====
-- The life of the process (host/macos/v4gwd-arp.c `main`).
use v4_with_v6_nh.Common.{
  ℕ, zero, suc, ◌≡◌, refl, ap, true, false, Option, none, some, List, [], ◌∷◌, ◌++◌, arith, Any,
  length, take,
}
use v4_with_v6_nh.Mac.{Mac}
use v4_with_v6_nh.MacOs.Daemon.{
  run_command, System, Config, World, withdraw_argv, withdraw, reconcile,
}
use v4_with_v6_nh.MacOs.Daemon.Laws.{IsPinning}
use v4_with_v6_nh.Common.Loop.{while_running-stops}
use v4_with_v6_nh.MacOs.Run.{is_running, Process, Round, serve, loop, run, sentinel_str_of}

module _ {K : Type 0} (sys : System K) (c : Config) where
  serve-stops :
      (r : Round K) (p : Process K) → r.signalled ≡ true → (serve sys c r p).running ≡ false
  unfolding serve
  serve-stops r p h = ground arith

  loop-stops :
      {rs : List (Round K)} (p : Process K)
      → Any (λ r. r.signalled ≡ true) rs
      → (loop sys c rs p).running ≡ false
  unfolding loop
  loop-stops p stops =
      while_running-stops is_running (serve sys c) (λ r. r.signalled ≡ true) serve-stops p stops

  pub run-stops :
      (rs : List (Round K)) (w : World K)
      → Any (λ r. r.signalled ≡ true) rs
      → (run sys c rs w).running ≡ false
  unfolding run
  run-stops rs w stops =
      ground (arith, loop-stops (record { world = reconcile sys c w; running = true }) stops)

  -- A SIGINT or SIGTERM in any round ends the program, and at its end no entry is counted as
  -- installed; one that was so when the loop ended is out of the ARP table if `arp -d` succeeds.
  pub run_unpins :
      (entry : K → Option Mac) (rs : List (Round K)) (w : World K)
      → IsPinning sys c entry
      → Any (λ r. r.signalled ≡ true) rs
      → let p = run sys c rs w in
        let q = loop sys c rs (record { world = reconcile sys c w; running = true }) in
        (p.running ≡ false)
        × (p.world.daemon.arp_installed ≡ false)
        × (q.world.daemon.arp_installed ≡ true
            → (run_command sys q.world.os (withdraw_argv c)).0 ≡ true
            → entry p.world.os ≡ none)
  unfolding run withdraw
  run_unpins entry rs w laws stops = ground (
    arith,
    loop-stops (record { world = reconcile sys c w; running = true }) stops,
    laws.deletes (loop sys c rs (record { world = reconcile sys c w; running = true })).world.os,
  )

take-append : (n : ℕ) (s t : List ℕ) → length s ≡ n → take n (s ++ t) ≡ s
take-append zero [] t e = refl
take-append zero (x ∷ s) t e = absurd (omega arith)
take-append (suc n) [] t e = absurd (omega arith)
take-append (suc n) (x ∷ s) t e = ap (λ r. x ∷ r) (take-append n s t (omega arith))

-- A value of V4GW_GATEWAY that is longer than fifteen bytes is cut, and the address that its first
-- fifteen bytes spell is used.
pub sentinel_str_of_long : (s t : List ℕ) → length s ≡ 15 → sentinel_str_of (some (s ++ t)) ≡ s
unfolding sentinel_str_of
sentinel_str_of_long [] t e = absurd (omega arith)
sentinel_str_of_long (x ∷ s) t e = take-append 15 (x ∷ s) t e
