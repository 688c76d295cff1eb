-- ===== src/Windows/Events/Quiet.antt =====
-- The changes of which Windows tells, between the callbacks and the worker (host/windows/v4gwd.c
-- `run_worker`).
use v4_with_v6_nh.Common.{◌≡◌, ◌≢◌, refl, sym, ap, ◌∙◌, arith, true, false, List, [], ◌∷◌}
use v4_with_v6_nh.Windows.Daemon.{System, Config, World, reconcile, withdraw}
use v4_with_v6_nh.Windows.Events.{
  Notice, of_route, of_addr, of_iface, waiting, done, Events, call_back, console_ctrl, changed,
  Step, changes, drifts, calls_back, signals_stop, begins, acts, reconciles, has_begun, has_acted,
  stops, wakes, times_out, sleeps, withdraws, Reach, start, later,
}

module _ {K : Type 0} (sys : System K) (c : Config) (IsSilent : (K → K) → Type 0) where
  -- What a `reconcile` has made of the system, and silent changes since.
  pub data IsFollowing : World K → Type 0 where
    settled : (w : World K) → IsFollowing (reconcile sys c w)
    drifted : {w : World K} (f : K → K) → IsSilent f → IsFollowing w → IsFollowing (changed f w)

  -- From the beginning of a `reconcile` to the end of the wait, every change that has come since is due or
  -- has set the wake event, and once `reconcile` has acted the system follows; after the loop the entry has
  -- gone.
  abbrev IsAlert : Events K → Type 0
  IsAlert s =
      (has_begun s.place ≡ true → s.due ≡ [] → s.wake_event ≡ false → s.unseen ≡ false)
      × (has_acted s.place ≡ true → s.due ≡ [] → s.wake_event ≡ false → IsFollowing s.world)
      × (s.place ≡ done → s.world.daemon.installed ≡ false)

  withdraw-drops : (w : World K) → (withdraw sys c w).daemon.installed ≡ false
  unfolding withdraw
  withdraw-drops w = ground arith

  true_ne_false : true ≢ false
  true_ne_false e = cc

  cons_ne : (n : Notice) (xs : List Notice) → (n ∷ xs) ≢ []
  cons_ne n xs e = cc

  call_back-wakes : (n : Notice) (s : Events K) → (call_back n s).wake_event ≡ true
  unfolding call_back
  call_back-wakes of_route s = refl
  call_back-wakes of_addr s = refl
  call_back-wakes of_iface s = refl

  call_back-place : (n : Notice) (s : Events K) → (call_back n s).place ≡ s.place
  unfolding call_back
  call_back-place of_route s = refl
  call_back-place of_addr s = refl
  call_back-place of_iface s = refl

  Step-IsAlert : {s t : Events K} → Step sys c IsSilent s t → IsAlert s → IsAlert t
  unfolding console_ctrl
  Step-IsAlert (changes notice f) (seen, follows, dropped) = (
    (λ at due quiet. absurd (cons_ne notice _ due)),
    (λ at due quiet. absurd (cons_ne notice _ due)),
    dropped,
  )
  Step-IsAlert (drifts f silent) (seen, follows, dropped) =
      (seen, (λ at due quiet. drifted f silent (follows at due quiet)), dropped)
  Step-IsAlert {s} (calls_back notice before after due on) a = (
    (λ at due quiet. absurd (true_ne_false (sym (call_back-wakes notice _) ∙ quiet))),
    (λ at due quiet. absurd (true_ne_false (sym (call_back-wakes notice _) ∙ quiet))),
    (λ d. absurd (on (sym (call_back-place notice _) ∙ d))),
  )
  Step-IsAlert signals_stop a = a
  Step-IsAlert (begins at) a = ((λ b due quiet. refl), (λ b. cc), (λ d. cc))
  Step-IsAlert (acts at) (seen, follows, dropped) =
      ((λ b. seen (ap has_begun at)), (λ b due quiet. settled _), (λ d. cc))
  Step-IsAlert (reconciles at) (seen, follows, dropped) =
      ((λ b. seen (ap has_begun at)), (λ b. follows (ap has_acted at)), (λ d. cc))
  Step-IsAlert (stops at on) a = ((λ b. cc), (λ b. cc), (λ d. cc))
  Step-IsAlert (wakes at on w) a = ((λ b. cc), (λ b. cc), (λ d. cc))
  Step-IsAlert (times_out at on w) a = ((λ b. cc), (λ b. cc), (λ d. cc))
  Step-IsAlert (sleeps at) a = ((λ b. cc), (λ b. cc), (λ d. cc))
  Step-IsAlert {s} (withdraws at) a = ((λ b. cc), (λ b. cc), (λ d. withdraw-drops s.world))

  Reach-IsAlert : {w : World K} {s : Events K} → Reach sys c IsSilent w s → IsAlert s
  Reach-IsAlert start = ((λ b. cc), (λ b. cc), (λ d. cc))
  Reach-IsAlert (later r step) = Step-IsAlert step (Reach-IsAlert r)

  -- No change is lost between the callbacks and the worker, also one that comes while `reconcile` runs:
  -- while the worker waits, with no callback due and the wake event not set, no change of which Windows
  -- tells has come since the last `reconcile` began, and the system is what that `reconcile` has made of
  -- it, but for silent changes since.
  pub Reach-IsFollowing :
      {w : World K} {s : Events K}
      → Reach sys c IsSilent w s
      → s.place ≡ waiting
      → s.due ≡ []
      → s.wake_event ≡ false
      → (s.unseen ≡ false) × IsFollowing s.world
  Reach-IsFollowing r at due quiet =
      let (seen, follows, dropped) = Reach-IsAlert r in
      (seen (ap has_begun at) due quiet, follows (ap has_acted at) due quiet)

  -- When the worker has returned, the daemon counts no entry as installed.
  pub Reach-done :
      {w : World K} {s : Events K}
      → Reach sys c IsSilent w s
      → s.place ≡ done
      → s.world.daemon.installed ≡ false
  Reach-done r = (Reach-IsAlert r).2
