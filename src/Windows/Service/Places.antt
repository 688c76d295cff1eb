-- ===== src/Windows/Service/Places.antt =====
-- What holds at each place of the two threads (host/windows/v4gwd.c `report`, `ctrl_handler`, `service_main`).
use mathlib.Core.Path.{subst}
use v4_with_v6_nh.Common.{
  ◌≡◌, refl, ap, sym, ◌∙◌, Bool, true, false, Option, none, some, List, arith, ◌⊎◌, inl, inr,
  Bool-cases,
}
use v4_with_v6_nh.Windows.Daemon.{System, Config, World}
use v4_with_v6_nh.Windows.Run.{run_worker}
use v4_with_v6_nh.Windows.Run.Life.{run_worker-withdrawn}
use v4_with_v6_nh.Windows.Service.{
  ServiceState, ServiceStatus, start_pending, running, stop_pending, stopped, Reports, no_reports,
  report, last_of, is_stop_control, Main, registering, starting, announcing, working, finishing,
  returned, Handler, idle, signalling, Service, Control, handle_control, Step, registration_fails,
  registers, reports_start, reports_running, works, reports_stopped, controls, sets_event, Reach,
  start, later,
}

abbrev pub started : Reports
started = report start_pending 3000 no_reports

abbrev pub announced : Reports
announced = report running 0 started

abbrev pub asked : Reports
asked = report stop_pending 3000 announced

abbrev pub ended : Reports
ended = report stopped 0 asked

-- What holds at each place of `service_main`; `on` says whether an entry is counted as installed.
abbrev pub IsAt : Main → Handler → Bool → Reports → Bool → Type 0
IsAt registering idle event r on = (event ≡ false) × (r ≡ no_reports)
IsAt starting idle event r on = (event ≡ false) × (r ≡ no_reports)
IsAt announcing idle event r on = (event ≡ false) × (r ≡ started)
IsAt working idle event r on = ((event ≡ false) × (r ≡ announced)) ⊎ ((event ≡ true) × (r ≡ asked))
IsAt working signalling event r on = (event ≡ false) × (r ≡ asked)
IsAt finishing idle event r on = (event ≡ true) × (r ≡ asked) × (on ≡ false)
IsAt returned idle event r on =
    ((event ≡ false) × (r ≡ no_reports)) ⊎ ((event ≡ true) × (r ≡ ended) × (on ≡ false))
IsAt _ signalling event r on = ⊥

-- How the steps of `service_main` lead from place to place.
starts :
    (h : Handler) (event : Bool) (r : Reports) (on : Bool)
    → IsAt registering h event r on
    → IsAt starting h event r on × IsAt returned h event r on
starts idle event r on i = (i, inl i)
starts signalling event r on i = absurd i

announces :
    (h : Handler) (event : Bool) (r : Reports) (on : Bool)
    → IsAt starting h event r on
    → IsAt announcing h event (report start_pending 3000 r) on
announces idle event r on (off, same) = (off, ap (report start_pending 3000) same)
announces signalling event r on i = absurd i

begins :
    (h : Handler) (event : Bool) (r : Reports) (on : Bool)
    → IsAt announcing h event r on
    → IsAt working h event (report running 0 r) on
begins idle event r on (off, same) = inl (off, ap (report running 0) same)
begins signalling event r on i = absurd i

finishes :
    (h : Handler) (event : Bool) (r : Reports) (on on' : Bool)
    → event ≡ true
    → on' ≡ false
    → IsAt working h event r on
    → IsAt finishing h event r on'
finishes idle event r on on' e gone (inl (off, same)) = absurd (ground (arith, e, off))
finishes idle event r on on' e gone (inr (set, same)) = (set, same, gone)
finishes signalling event r on on' e gone (off, same) = absurd (ground (arith, e, off))

returns :
    (h : Handler) (event : Bool) (r : Reports) (on : Bool)
    → IsAt finishing h event r on
    → IsAt returned h event (report stopped 0 r) on
returns idle event r on (set, same, gone) = inr (set, ap (report stopped 0) same, gone)
returns signalling event r on i = absurd i

-- The handler signals only while `service_main` works.
signals :
    (m : Main) (event : Bool) (r : Reports) (on : Bool)
    → IsAt m signalling event r on
    → IsAt m idle true r on
signals working event r on (off, same) = inr (refl, same)
signals registering event r on i = absurd i
signals starting event r on i = absurd i
signals announcing event r on i = absurd i
signals finishing event r on i = absurd i
signals returned event r on i = absurd i

last_is :
    {r r' : Reports} {x : Option ServiceState}
    → last_of r'.sent ≡ x
    → r ≡ r'
    → last_of r.sent ≡ some running
    → x ≡ some running
last_is last' same last = sym last' ∙ ap (λ (r : Reports). last_of r.sent) (sym same) ∙ last

-- A stop is sent only before the first one.
accepts :
    (m : Main) (event : Bool) (r : Reports) (on : Bool)
    → last_of r.sent ≡ some running
    → IsAt m idle event r on
    → (m ≡ working) × IsAt m signalling event (report stop_pending 3000 r) on
unfolding report
accepts working event r on last (inl (off, same)) =
    (refl, (off, ap (report stop_pending 3000) same))
accepts working event r on last (inr (set, same)) =
    let e : some stop_pending ≡ some running = last_is refl same last in cc
accepts registering event r on last (off, same) =
    let e : none ≡ some running = last_is refl same last in cc
accepts starting event r on last (off, same) =
    let e : none ≡ some running = last_is refl same last in cc
accepts announcing event r on last (off, same) =
    let e : some start_pending ≡ some running = last_is refl same last in cc
accepts finishing event r on last (set, same, gone) =
    let e : some stop_pending ≡ some running = last_is refl same last in cc
accepts returned event r on last (inl (off, same)) =
    let e : none ≡ some running = last_is refl same last in cc
accepts returned event r on last (inr (set, same, gone)) =
    let e : some stopped ≡ some running = last_is refl same last in cc

module _ {K : Type 0} (sys : System K) (c : Config) (Sends : List ServiceStatus → Type 0)
    (scm : (sent : List ServiceStatus) → Sends sent → last_of sent ≡ some running) where
  abbrev IsSound : Service K → Type 0
  IsSound s = IsAt s.main s.handler s.stop_event s.reports s.world.daemon.installed

  placed :
      (s : Service K) {m : Main}
      → s.main ≡ m
      → IsSound s
      → IsAt m s.handler s.stop_event s.reports s.world.daemon.installed
  placed s e i = subst (λ m. IsAt m s.handler s.stop_event s.reports s.world.daemon.installed) e i

  handled :
      (s : Service K) {h : Handler}
      → s.handler ≡ h
      → IsSound s
      → IsAt s.main h s.stop_event s.reports s.world.daemon.installed
  handled s e i = subst (λ h. IsAt s.main h s.stop_event s.reports s.world.daemon.installed) e i

  control-IsSound :
      (s : Service K) (ctrl : Control)
      → s.handler ≡ idle
      → (is_stop_control ctrl ≡ true → last_of s.reports.sent ≡ some running)
      → IsSound s
      → IsSound (handle_control ctrl s)
  unfolding handle_control
  control-IsSound s ctrl e may i = elim (Bool-cases (is_stop_control ctrl)) [
    | inl stop ↦
        rw stop
          (accepts s.main s.stop_event s.reports s.world.daemon.installed (may stop)
            (handled s e i)).1
    | inr other ↦ rw other i
  ]

  Step-IsSound : {s t : Service K} → Step sys c Sends s t → IsSound s → IsSound t
  Step-IsSound {s} (registration_fails e) i =
      (starts s.handler s.stop_event s.reports s.world.daemon.installed (placed s e i)).1
  Step-IsSound {s} (registers e) i =
      (starts s.handler s.stop_event s.reports s.world.daemon.installed (placed s e i)).0
  Step-IsSound {s} (reports_start e) i =
      announces s.handler s.stop_event s.reports s.world.daemon.installed (placed s e i)
  Step-IsSound {s} (reports_running e) i =
      begins s.handler s.stop_event s.reports s.world.daemon.installed (placed s e i)
  Step-IsSound {s} (works rs e set gone) i =
      finishes s.handler s.stop_event s.reports s.world.daemon.installed
        (run_worker sys c rs s.world).world.daemon.installed set
        (run_worker-withdrawn sys c rs s.world gone) (placed s e i)
  Step-IsSound {s} (reports_stopped e) i =
      returns s.handler s.stop_event s.reports s.world.daemon.installed (placed s e i)
  Step-IsSound {s} (controls ctrl e may) i =
      control-IsSound s ctrl e (λ stop. scm s.reports.sent (may stop)) i
  Step-IsSound {s} (sets_event e) i =
      signals s.main s.stop_event s.reports s.world.daemon.installed (handled s e i)

  pub Reach-IsSound : {w : World K} {s : Service K} → Reach sys c Sends w s → IsSound s
  Reach-IsSound start = (refl, refl)
  Reach-IsSound (later r st) = Step-IsSound st (Reach-IsSound r)
