-- ===== src/MacOs/Run.antt =====
-- The program around the daemon's state (host/macos/v4gwd-arp.c `handle_sig`, `main`): the gateway
-- address from the environment, the command line, the signals and the poll loop.
pub mod Life
pub mod Tracks
pub mod Clear
use v4_with_v6_nh.Common.{
  ℕ, zero, suc, ◌+◌, Bool, true, false, not, ◌&&◌, ◌||◌, Option, none, some, List, [], ◌∷◌, ◌==◌,
  if◌then◌else◌, take,
}
use v4_with_v6_nh.Common.Loop.{while_running}
use v4_with_v6_nh.Common.Int.{ℤ, pos, negsuc, ltb_ℤ, as_int, thousandfold}
use v4_with_v6_nh.Common.Text.{codes}
use v4_with_v6_nh.Common.Text.Numbers.{atoi}
use v4_with_v6_nh.MacOs.Daemon.{
  System, Config, State, World, Report, reconcile, withdraw, dry_run_report,
}

abbrev pub default_sentinel : List ℕ
default_sentinel = codes "192.0.0.11"

-- `char sentinel_str[16]`, from the value of V4GW_GATEWAY if it is set and not empty.
unfoldable pub sentinel_str_of : Option (List ℕ) → List ℕ
sentinel_str_of none = default_sentinel
sentinel_str_of (some []) = default_sentinel
sentinel_str_of (some (x ∷ s)) = take 15 (x ∷ s)

-- The text and the number; `none` is `errx(2, "invalid V4GW_GATEWAY ...")`. `inet_aton` is the C
-- library's.
unfoldable pub gateway_of : (List ℕ → Option ℕ) → Option (List ℕ) → Option (List ℕ × ℕ)
unfolding sentinel_str_of
gateway_of inet_aton env = elim (inet_aton (sentinel_str_of env)) [
  | none ↦ none
  | some addr ↦ some (sentinel_str_of env, addr)
]

-- What `getopt(argc, argv, "nrf:i:")` gives.
pub data Opt : Type 0 where
  opt_n : Opt
  opt_r : Opt
  opt_f : List ℕ → Opt
  opt_i : List ℕ → Opt
  opt_other : Opt

pub record Options : Type 0 where
  pub dry_run : Bool
  pub require_sentinel_route : Bool
  pub sentinel_file : Option (List ℕ)
  pub interval : ℤ

abbrev pub no_options : Options
no_options = record {
  dry_run = false;
  require_sentinel_route = false;
  sentinel_file = none;
  interval = pos 15;
}

-- `usage` exits: `none`.
unfoldable pub set_option : Opt → Options → Option Options
set_option opt_n o = some (record o { dry_run = true })
set_option opt_r o = some (record o { require_sentinel_route = true })
set_option (opt_f arg) o = some (record o { sentinel_file = some arg })
set_option (opt_i arg) o =
    if ltb_ℤ (atoi arg) (pos 1) then none else some (record o { interval = atoi arg })
set_option opt_other o = none

unfoldable pub set_options : List Opt → Options → Option Options
unfolding set_option
set_options [] o = some o
set_options (x ∷ xs) o = elim (set_option x o) [ none ↦ none | some o' ↦ set_options xs o' ]

abbrev pub has_file : Options → Bool
has_file o = elim (o.sentinel_file) [ none ↦ false | some f ↦ true ]

abbrev pub check_operands : List (List ℕ) → Options → Option (List ℕ × Options)
check_operands [] o = none
check_operands (name ∷ []) o =
    if o.require_sentinel_route && has_file o then none else some (name, o)
check_operands (name ∷ _ ∷ _) o = none

-- `interval * 1000`
unfoldable pub poll_timeout : ℤ → Option ℤ
unfolding as_int
poll_timeout interval = as_int (thousandfold interval)

unfoldable pub parse_args : List Opt → List (List ℕ) → Option (List ℕ × Options)
unfolding set_options
parse_args opts operands = elim (set_options opts no_options) [
  | none ↦ none
  | some o ↦ check_operands operands o
]

-- The process, and what happens from one test of the loop to the next: what the system has become when
-- `poll` returns, and whether SIGINT or SIGTERM came meanwhile.
pub record Process (K : Type 0) : Type 0 where
  pub world : World K
  pub running : Bool

pub record Round (K : Type 0) : Type 0 where
  pub change : K → K
  pub signalled : Bool

abbrev pub is_running : {K : Type 0} → Process K → Bool
is_running p = p.running

module _ {K : Type 0} (sys : System K) (c : Config) where
  -- `handle_sig`, if a signal came.
  unfoldable pub arrive : Round K → Process K → Process K
  arrive r p =
      let p1 = record p { world = record (p.world) { os = r.change (p.world).os } } in
      if r.signalled then record p1 { running = false } else p1

  -- The body of `while (running)`: what `read` returns is not looked at.
  unfoldable pub serve : Round K → Process K → Process K
  unfolding arrive
  serve r p = let p1 = arrive r p in record p1 { world = reconcile sys c p1.world }

  unfoldable pub loop : List (Round K) → Process K → Process K
  loop rs p = while_running is_running serve rs p

  -- From the first `reconcile` on. If the loop has ended, the entry is withdrawn.
  unfoldable pub run : List (Round K) → World K → Process K
  run rs w =
      let p = loop rs (record { world = reconcile sys c w; running = true }) in
      if p.running then p else record p { world = withdraw sys c p.world }
