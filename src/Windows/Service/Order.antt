-- ===== src/Windows/Service/Order.antt =====
-- The order of the reports to the SCM (host/windows/v4gwd.c `report`, `ctrl_handler`, `service_main`).
use mathlib.Core.Path.{subst}
use v4_with_v6_nh.Common.{
  ℕ, ◌≡◌, refl, sym, Bool, true, false, some, List, [], ◌∷◌, ◌++◌, if◌then◌else◌, drop, inl, inr,
  Any,
}
use v4_with_v6_nh.Windows.Daemon.{System, Config, World}
use v4_with_v6_nh.Windows.Run.{by_stop, Round}
use v4_with_v6_nh.Windows.Run.Life.{run_worker-ends}
use v4_with_v6_nh.Windows.Service.Places.{started, announced, asked, ended, IsAt, Reach-IsSound}
use v4_with_v6_nh.Windows.Service.{
  is_start_pending, is_settled, ServiceState, ServiceStatus, start_pending, running, stop_pending,
  stopped, Reports, no_reports, report, last_of, is_stop_control, Main, registering, starting,
  announcing, working, finishing, returned, Handler, idle, signalling, Service, Control,
  handle_control, works, reports_stopped, controls, sets_event, Reach, later,
}

-- The reports of a service that is started and stopped.
abbrev pub whole_life : List ServiceStatus
whole_life =
    record {
      current_state = start_pending;
      accepts_stop = false;
      check_point = 1;
      wait_hint = 3000;
    }
    ∷ record { current_state = running; accepts_stop = true; check_point = 0; wait_hint = 0 }
    ∷ record {
      current_state = stop_pending;
      accepts_stop = true;
      check_point = 2;
      wait_hint = 3000;
    }
    ∷ record { current_state = stopped; accepts_stop = true; check_point = 0; wait_hint = 0 }
    ∷ []

abbrev pub IsPrefix : List ServiceStatus → List ServiceStatus → Type 0
IsPrefix xs ys = (rest : List ServiceStatus) × (xs ++ rest ≡ ys)

-- What has been reported at each place.
abbrev pub IsInOrder : Main → Reports → Bool → Type 0
IsInOrder m r on =
    IsPrefix r.sent whole_life
    × (last_of r.sent ≡ some running → m ≡ working)
    × (last_of r.sent ≡ some stopped → on ≡ false)

in_order : (m : Main) (r r' : Reports) (on : Bool) → IsInOrder m r' on → r ≡ r' → IsInOrder m r on
in_order m r r' on ok same = subst (λ r. IsInOrder m r on) (sym same) ok

places :
    (m : Main) (h : Handler) (event : Bool) (r : Reports) (on : Bool)
    → IsAt m h event r on
    → IsInOrder m r on
unfolding report
places registering idle event r on (off, same) =
    in_order registering r no_reports on ((whole_life, refl), (λ e. cc), (λ e. cc)) same
places starting idle event r on (off, same) =
    in_order starting r no_reports on ((whole_life, refl), (λ e. cc), (λ e. cc)) same
places announcing idle event r on (off, same) =
    in_order announcing r started on ((drop 1 whole_life, refl), (λ e. cc), (λ e. cc)) same
places working idle event r on (inl (off, same)) =
    in_order working r announced on ((drop 2 whole_life, refl), (λ e. refl), (λ e. cc)) same
places working idle event r on (inr (set, same)) =
    in_order working r asked on ((drop 3 whole_life, refl), (λ e. refl), (λ e. cc)) same
places working signalling event r on (off, same) =
    in_order working r asked on ((drop 3 whole_life, refl), (λ e. refl), (λ e. cc)) same
places finishing idle event r on (set, same, gone) =
    in_order finishing r asked on ((drop 3 whole_life, refl), (λ e. cc), (λ e. gone)) same
places returned idle event r on (inl (off, same)) =
    in_order returned r no_reports on ((whole_life, refl), (λ e. cc), (λ e. cc)) same
places returned idle event r on (inr (set, same, gone)) =
    in_order returned r ended on (([], refl), (λ e. cc), (λ e. gone)) same
places registering signalling event r on i = absurd i
places starting signalling event r on i = absurd i
places announcing signalling event r on i = absurd i
places finishing signalling event r on i = absurd i
places returned signalling event r on i = absurd i

last_of-append :
    (xs : List ServiceStatus) (x : ServiceStatus) → last_of (xs ++ (x ∷ [])) ≡ some x.current_state
last_of-append [] x = refl
last_of-append (y ∷ []) x = refl
last_of-append (y ∷ z ∷ xs) x = last_of-append (z ∷ xs) x

last_of-report :
    (state : ServiceState) (hint : ℕ) (r : Reports)
    → last_of (report state hint r).sent ≡ some state
unfolding report
last_of-report state hint r = last_of-append r.sent (record {
  current_state = state;
  accepts_stop = if is_start_pending state then false else true;
  check_point = if is_settled state then 0 else r.checkpoint;
  wait_hint = hint;
})

module _ {K : Type 0} (sys : System K) (c : Config) (Sends : List ServiceStatus → Type 0)
    (scm : (sent : List ServiceStatus) → Sends sent → last_of sent ≡ some running) where
  -- Where the SCM sends a stop or a shutdown only while the last status that it was told is RUNNING,
  -- whatever the order of the steps: what it has been told is a beginning of START_PENDING, RUNNING,
  -- STOP_PENDING, STOPPED, with the checkpoints 1, 0, 2, 0; while the last is RUNNING, `service_main` is
  -- in the worker; and when STOPPED has been told, the daemon counts no entry as installed.
  pub Reach-IsInOrder :
      {w : World K} {s : Service K}
      → Reach sys c Sends w s
      → IsInOrder s.main s.reports s.world.daemon.installed
  Reach-IsInOrder {s = s} r =
      places s.main s.handler s.stop_event s.reports s.world.daemon.installed
        (Reach-IsSound sys c Sends scm r)

  handle_stop :
      (s : Service K) (ctrl : Control)
      → is_stop_control ctrl ≡ true
      → handle_control ctrl s
        ≡ (record s { handler = signalling; reports = report stop_pending 3000 s.reports })
  unfolding handle_control
  handle_stop s ctrl stop = rw stop refl

  -- The service that runs can be stopped: if a stop or shutdown control comes and the worker gets to see
  -- the stop event, there are steps to the report STOPPED and the return of `service_main`.
  pub stop_reaches :
      {w : World K} {s : Service K} (ctrl : Control) (rs : List (Round K))
      → Reach sys c Sends w s
      → s.handler ≡ idle
      → Sends s.reports.sent
      → is_stop_control ctrl ≡ true
      → Any (λ r. r.woken ≡ by_stop) rs
      → (t : Service K) × Reach sys c Sends w t
        × (t.main ≡ returned)
        × (last_of t.reports.sent ≡ some stopped)
  stop_reaches {w} {s} ctrl rs r quiet up stop stops =
      let pressed : Service K = record s {
        handler = signalling;
        reports = report stop_pending 3000 s.reports;
      } in
      let r1 : Reach sys c Sends w pressed =
        subst (λ t. Reach sys c Sends w t) (handle_stop s ctrl stop)
          (later r (controls ctrl quiet (λ e. up))) in
      let r2 = later r1 (sets_event refl) in
      let at_work = (Reach-IsInOrder r).1 (scm s.reports.sent up) in
      let r3 = later r2 (works rs at_work refl (run_worker-ends sys c rs s.world stops)) in
      let r4 = later r3 (reports_stopped refl) in
      (_, r4, refl, last_of-report stopped 0 (report stop_pending 3000 s.reports))
