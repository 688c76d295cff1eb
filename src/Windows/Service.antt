-- ===== src/Windows/Service.antt =====
-- The service (host/windows/v4gwd.c `report`, `ctrl_handler`, `service_main`): the thread of
-- `service_main` and the handler that the service control manager (SCM) calls on another, as steps in any
-- order. One `report` is one step; `SetEvent` after it is another.

pub mod Places
pub mod Order
use v4_with_v6_nh.Common.{
  ℕ, ◌+◌, ◌≡◌, Bool, true, false, ◌||◌, Option, none, some, List, [], ◌∷◌, ◌++◌, if◌then◌else◌,
}
use v4_with_v6_nh.Windows.Daemon.{System, Config, World}
use v4_with_v6_nh.Windows.Run.{Process, Round, run_worker}

pub data ServiceState : Type 0 where
  start_pending running stop_pending stopped : ServiceState

abbrev pub is_start_pending : ServiceState → Bool
is_start_pending start_pending = true
is_start_pending _ = false

abbrev pub is_settled : ServiceState → Bool
is_settled running = true
is_settled stopped = true
is_settled _ = false

-- The fields of SERVICE_STATUS that vary; `accepts_stop` is SERVICE_ACCEPT_STOP and
-- SERVICE_ACCEPT_SHUTDOWN.
pub record ServiceStatus : Type 0 where
  pub current_state : ServiceState
  pub accepts_stop : Bool
  pub check_point : ℕ
  pub wait_hint : ℕ

-- The static `checkpoint`, and what has been given to `SetServiceStatus`, first to last.
pub record Reports : Type 0 where
  pub checkpoint : ℕ
  pub sent : List ServiceStatus

abbrev pub no_reports : Reports
no_reports = record { checkpoint = 1; sent = [] }

unfoldable pub report : ServiceState → ℕ → Reports → Reports
report state wait_hint r =
    let status : ServiceStatus = record {
      current_state = state;
      accepts_stop = if is_start_pending state then false else true;
      check_point = if is_settled state then 0 else r.checkpoint;
      wait_hint = wait_hint;
    } in
    record {
      checkpoint = if is_settled state then r.checkpoint else r.checkpoint + 1;
      sent = r.sent ++ (status ∷ []);
    }

-- What the SCM knows: the status reported last.
abbrev pub last_of : List ServiceStatus → Option ServiceState
last_of [] = none
last_of (x ∷ []) = some x.current_state
last_of (x ∷ y ∷ xs) = last_of (y ∷ xs)

pub data Control : Type 0 where
  control_stop control_shutdown control_interrogate control_other : Control

-- Where `service_main` is: before the registration of the handler, before each of the first two reports,
-- before `run_worker`, before the last report, and returned.
pub data Main : Type 0 where
  registering starting announcing working finishing returned : Main

-- The handler between two calls, or before its `SetEvent`.
pub data Handler : Type 0 where
  idle signalling : Handler

-- `stop_event` says whether `g_stop_event` is signalled.
pub record Service (K : Type 0) : Type 0 where
  pub main : Main
  pub handler : Handler
  pub reports : Reports
  pub stop_event : Bool
  pub world : World K

abbrev pub is_stop_control : Control → Bool
is_stop_control control_stop = true
is_stop_control control_shutdown = true
is_stop_control _ = false

-- What `ctrl_handler` returns.
pub data Answer : Type 0 where
  answered call_not_implemented : Answer

unfoldable pub answer_of : Control → Answer
answer_of control_other = call_not_implemented
answer_of _ = answered

-- `ctrl_handler` up to its `SetEvent`.
unfoldable pub handle_control : {K : Type 0} → Control → Service K → Service K
handle_control ctrl s =
    if is_stop_control ctrl
    then record s { handler = signalling; reports = report stop_pending 3000 s.reports }
    else s

-- `Sends sent` says that the SCM may send a stop or a shutdown after the reports `sent`.
module _ {K : Type 0} (sys : System K) (c : Config) (Sends : List ServiceStatus → Type 0) where
  -- A step of one of the two threads. `run_worker` is one step, which ends by the stop event only; its
  -- wait reports that event only when it is signalled. The SCM has one control handled at a time.
  pub data Step (s : Service K) : Service K → Type 0 where
    registration_fails : s.main ≡ registering → Step s (record s { main = returned })
    registers : s.main ≡ registering → Step s (record s { main = starting })
    reports_start :
        s.main ≡ starting
        → Step s (record s { main = announcing; reports = report start_pending 3000 s.reports })
    reports_running :
        s.main ≡ announcing
        → Step s (record s { main = working; reports = report running 0 s.reports })
    works :
        (rs : List (Round K))
        → s.main ≡ working
        → s.stop_event ≡ true
        → (run_worker sys c rs s.world).running ≡ false
        → Step s (record s { main = finishing; world = (run_worker sys c rs s.world).world })
    reports_stopped :
        s.main ≡ finishing
        → Step s (record s { main = returned; reports = report stopped 0 s.reports })
    controls :
        (ctrl : Control)
        → s.handler ≡ idle
        → (is_stop_control ctrl ≡ true → Sends s.reports.sent)
        → Step s (handle_control ctrl s)
    sets_event : s.handler ≡ signalling → Step s (record s { handler = idle; stop_event = true })

  abbrev pub initial : World K → Service K
  initial w = record {
    main = registering;
    handler = idle;
    reports = no_reports;
    stop_event = false;
    world = w;
  }

  pub data Reach (w : World K) : Service K → Type 0 where
    start : Reach w (initial w)
    later : {s t : Service K} → Reach w s → Step s t → Reach w t
