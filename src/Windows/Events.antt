-- ===== src/Windows/Events.antt =====
-- The events of the worker (host/windows/v4gwd.c `cb_route`, `cb_addr`, `cb_iface`, `console_ctrl`,
-- `ctrl_handler`, `run_worker`): the system changes, Windows calls the callbacks on threads of its own,
-- and the worker waits, sleeps and reconciles, in any order. A `reconcile` begins, acts and returns, and
-- changes and callbacks can come between these steps.
pub mod Quiet
use v4_with_v6_nh.Common.{◌≡◌, ◌≢◌, Bool, true, false, List, [], ◌∷◌, ◌++◌}
use v4_with_v6_nh.Windows.Daemon.{System, Config, World, reconcile, withdraw}

-- What the worker has registered for: the routes, the IPv4 addresses, the interfaces.
pub data Notice : Type 0 where
  of_route of_addr of_iface : Notice

-- The worker before the call of `reconcile`, in it before and after it has acted on the system, in its
-- wait, in `Sleep`, out of the loop, returned.
pub data Place : Type 0 where
  calling begun acted waiting sleeping leaving done : Place

-- In `reconcile` or in the wait after it; and there with the system acted upon.
abbrev pub has_begun : Place → Bool
has_begun begun = true
has_begun acted = true
has_begun waiting = true
has_begun _ = false

abbrev pub has_acted : Place → Bool
has_acted acted = true
has_acted waiting = true
has_acted _ = false

-- `due` are the notices for which the callback has not run; the two events say whether they are
-- signalled. The stop event is reset by hand, the wake event by the wait that it ends. `unseen`, which is
-- not in the code, says whether a change of which Windows tells has come since the last `reconcile` began.
pub record Events (K : Type 0) : Type 0 where
  pub place : Place
  pub due : List Notice
  pub stop_event : Bool
  pub wake_event : Bool
  pub unseen : Bool
  pub world : World K

-- `cb_route`, `cb_addr` and `cb_iface`: each only signals the worker.
unfoldable pub call_back : {K : Type 0} → Notice → Events K → Events K
call_back of_route s = record s { wake_event = true }
call_back of_addr s = record s { wake_event = true }
call_back of_iface s = record s { wake_event = true }

unfoldable pub console_ctrl : {K : Type 0} → Events K → Events K
console_ctrl s = record s { stop_event = true }

abbrev pub changed : {K : Type 0} → (K → K) → World K → World K
changed f w = record w { os = f w.os }

-- `IsSilent` holds of the changes that Windows does not tell of, such as one of the neighbour table.
module _ {K : Type 0} (sys : System K) (c : Config) (IsSilent : (K → K) → Type 0) where
  pub data Step (s : Events K) : Events K → Type 0 where
    changes :
        (notice : Notice) (f : K → K)
        → Step s (record s { due = notice ∷ s.due; unseen = true; world = changed f s.world })
    drifts : (f : K → K) → IsSilent f → Step s (record s { world = changed f s.world })
    calls_back :
        (notice : Notice) (before after : List Notice)
        → s.due ≡ before ++ (notice ∷ after)
        → s.place ≢ done
        → Step s (call_back notice (record s { due = before ++ after }))
    signals_stop : Step s (console_ctrl s)
    begins : s.place ≡ calling → Step s (record s { place = begun; unseen = false })
    acts : s.place ≡ begun → Step s (record s { place = acted; world = reconcile sys c s.world })
    reconciles : s.place ≡ acted → Step s (record s { place = waiting })
    stops : s.place ≡ waiting → s.stop_event ≡ true → Step s (record s { place = leaving })
    wakes :
        s.place ≡ waiting
        → s.stop_event ≡ false
        → s.wake_event ≡ true
        → Step s (record s { place = sleeping; wake_event = false })
    times_out :
        s.place ≡ waiting
        → s.stop_event ≡ false
        → s.wake_event ≡ false
        → Step s (record s { place = calling })
    sleeps : s.place ≡ sleeping → Step s (record s { place = calling })
    withdraws :
        s.place ≡ leaving
        → Step s (record s { place = done; due = []; world = withdraw sys c s.world })

  -- The worker when it has registered its callbacks.
  abbrev pub registered : World K → Events K
  registered w = record {
    place = calling;
    due = [];
    stop_event = false;
    wake_event = false;
    unseen = false;
    world = w;
  }

  pub data Reach (w : World K) : Events K → Type 0 where
    start : Reach w (registered w)
    later : {s t : Events K} → Reach w s → Step s t → Reach w t
