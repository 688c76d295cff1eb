-- ===== src/FreeBsd/Run.antt =====
-- The program around the daemon's state (host/freebsd/v4gwd.c `handle_sig`, `kernel_supports_rfc5549`,
-- `main`): the command line, the signals, and the poll loop over the routing socket.
pub mod Args
pub mod Life
pub mod Steady
pub mod Clear
pub mod Tracks
pub mod RequireRoute
use v4_with_v6_nh.Common.{
  ℕ, zero, suc, ◌+◌, ◌*◌, Bool, true, false, not, ◌&&◌, ◌||◌, Option, none, some, List, [], ◌∷◌,
  ◌==◌, if◌then◌else◌,
}
use v4_with_v6_nh.Common.Loop.{while_running}
use v4_with_v6_nh.Common.Int.{ℤ, pos, negsuc, ltb_ℤ, leb_ℤ, as_int, thousandfold}
use v4_with_v6_nh.Common.Text.Numbers.{atoi}
use v4_with_v6_nh.FreeBsd.Daemon.{Kernel, Config, World, reconcile, withdraw}

-- What `getopt(argc, argv, "rf:i:")` gives: the two options with an argument, `-r`, and any other
-- answer, which is the `default` of the switch.
pub data Opt : Type 0 where
  opt_r : Opt
  opt_f : List ℕ → Opt
  opt_i : List ℕ → Opt
  opt_other : Opt

-- The variables that the options set.
pub record Options : Type 0 where
  pub require_sentinel_route : Bool
  pub sentinel_file : Option (List ℕ)
  pub interval : ℤ

abbrev pub default_interval : ℤ
default_interval = pos 15

abbrev pub no_options : Options
no_options = record {
  require_sentinel_route = false;
  sentinel_file = none;
  interval = default_interval;
}

-- `usage` exits: `none`.
unfoldable pub set_option : Opt → Options → Option Options
set_option opt_r o = some (record o { require_sentinel_route = true })
set_option (opt_f arg) o = some (record o { sentinel_file = some arg })
set_option (opt_i arg) o =
    if ltb_ℤ (atoi arg) (pos 1) then none else some (record o { interval = atoi arg })
set_option opt_other o = none

unfoldable pub set_options : List Opt → Options → Option Options
unfolding set_option
set_options [] o = some o
set_options (x ∷ xs) o = elim (set_option x o) [ none ↦ none | some o' ↦ set_options xs o' ]

abbrev pub has_file : Options → Bool
has_file o = elim (o.sentinel_file) [ none ↦ false | some f ↦ true ]

-- The checks after the loop; the operand is the interface name.
abbrev pub check_operands : List (List ℕ) → Options → Option (List ℕ × Options)
check_operands [] o = none
check_operands (name ∷ []) o =
    if o.require_sentinel_route && has_file o then none else some (name, o)
check_operands (name ∷ _ ∷ _) o = none

-- `interval * 1000`
unfoldable pub poll_timeout : ℤ → Option ℤ
unfolding as_int
poll_timeout interval = as_int (thousandfold interval)

unfoldable pub parse_args : List Opt → List (List ℕ) → Option (List ℕ × Options)
unfolding set_options
parse_args opts operands = elim (set_options opts no_options) [
  | none ↦ none
  | some o ↦ check_operands operands o
]

-- The value of the feature knob: `none` where `sysctlbyname` fails.
unfoldable pub kernel_supports_rfc5549 : Option ℤ → Bool
kernel_supports_rfc5549 none = true
kernel_supports_rfc5549 (some (pos zero)) = false
kernel_supports_rfc5549 (some _) = true

pub data Signal : Type 0 where
  sighup sigint sigterm : Signal

-- The process: its world and its two flags.
pub record Process (K : Type 0) : Type 0 where
  pub world : World K
  pub running : Bool
  pub reload : Bool

-- What happens from one test of the loop to the next: what the system has become when `poll` returns
-- and the signals that came meanwhile, whether `poll` reports input, and what `read` then returns.
pub record Round (K : Type 0) : Type 0 where
  pub change : K → K
  pub signals : List Signal
  pub ready : Bool
  pub nread : ℤ
  pub rtm_pid : ℕ

module _ {K : Type 0} where
  abbrev pub is_running : Process K → Bool
  is_running p = p.running

  unfoldable pub handle_sig : Signal → Process K → Process K
  handle_sig sighup p = record p { reload = true }
  handle_sig _ p = record p { running = false }

  unfoldable pub handle_sigs : List Signal → Process K → Process K
  unfolding handle_sig
  handle_sigs [] p = p
  handle_sigs (x ∷ xs) p = handle_sigs xs (handle_sig x p)

module _ {K : Type 0} (k : Kernel K) (c : Config) where
  -- The message read is an echo of one of our own.
  abbrev pub is_echo : Round K → Bool
  is_echo r = r.ready && (leb_ℤ (pos k.abi.hdr_size) r.nread && (r.rtm_pid == k.pid))

  unfoldable pub arrive : Round K → Process K → Process K
  unfolding handle_sigs
  arrive r p =
      handle_sigs r.signals (record p { world = record (p.world) { os = r.change (p.world).os } })

  -- The body of `while (running)`.
  unfoldable pub serve : Round K → Process K → Process K
  unfolding arrive
  serve r p =
      let p1 = arrive r p in
      if is_echo r then p1 else record p1 { world = reconcile k c p1.world; reload = false }

  unfoldable pub loop : List (Round K) → Process K → Process K
  loop rs p = while_running is_running serve rs p

  -- From the first `reconcile` on. If the loop has ended, the route is withdrawn.
  unfoldable pub run : List (Round K) → World K → Process K
  run rs w =
      let p = loop rs (record { world = reconcile k c w; running = true; reload = false }) in
      if p.running then p else record p { world = withdraw k p.world }
