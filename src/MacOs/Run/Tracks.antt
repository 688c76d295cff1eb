-- ===== src/MacOs/Run/Tracks.antt =====
-- The ARP entry follows the target while the program runs (host/macos/v4gwd-arp.c `main`).
use v4_with_v6_nh.Common.{◌≡◌, ◌∙◌, Bool, true, Option, some, List, [], ◌∷◌, ◌++◌}
use v4_with_v6_nh.Common.Loop.{while_running-append, while_running-next}
use v4_with_v6_nh.Mac.{Mac}
use v4_with_v6_nh.MacOs.Daemon.{run_command, System, Config, install_argv}
use v4_with_v6_nh.MacOs.Daemon.Laws.{IsPinning, target}
use v4_with_v6_nh.MacOs.Daemon.Pins.{IsPinned, reconcile-IsPinned}
use v4_with_v6_nh.MacOs.Run.{is_running, Process, Round, arrive, serve, loop}

module _ {K : Type 0} (sys : System K) (c : Config) where
  -- The loop over some rounds and then one more.
  pub loop-last :
      (rs : List (Round K)) (r : Round K) (p : Process K)
      → (loop sys c rs p).running ≡ true
      → loop sys c (rs ++ r ∷ []) p ≡ serve sys c r (loop sys c rs p)
  unfolding loop v4_with_v6_nh.Common.Loop.while_running
  loop-last rs r p on =
      while_running-append is_running (serve sys c) rs (r ∷ []) p
      ∙ while_running-next is_running (serve sys c) r [] (loop sys c rs p) on

  module _ (entry : K → Option Mac) (laws : IsPinning sys c entry) where
    -- After any rounds of the loop, whatever the rest of the system has done in them, one more round
    -- brings the permanent entry to the address that is to be pinned when the wait ends, if there is
    -- one and `arp -s` succeeds.
    pub loop-IsPinned :
        (rs : List (Round K)) (r : Round K) (p : Process K) (mac : Mac)
        → (loop sys c rs p).running ≡ true
        → let w = (arrive sys c r (loop sys c rs p)).world in
          target sys c w.os ≡ some mac
          → (run_command sys w.os (install_argv c mac)).0 ≡ true
          → IsPinned sys c entry laws mac (loop sys c (rs ++ r ∷ []) p).world
    unfolding serve
    loop-IsPinned rs r p mac on aimed granted = rw (loop-last rs r p on) (
        reconcile-IsPinned sys c entry laws (arrive sys c r (loop sys c rs p)).world mac aimed
          granted)
