-- ===== src/Windows/Args.antt =====
-- The command line of the Windows daemon (host/windows/v4gwd.c `main`, `usage`), which it reads without
-- `getopt`.
pub mod Flags
pub mod Accepted
use v4_with_v6_nh.Common.{
  Bool, true, false, Option, none, some, List, [], ◌∷◌, ◌==◌, if◌then◌else◌, ℕ,
}
use v4_with_v6_nh.Common.Int.{ℤ, pos, ltb_ℤ}
use v4_with_v6_nh.Common.Text.{codes, strcmp_eq}
use v4_with_v6_nh.Common.Text.Numbers.{atoi}

-- `dry_run`, `g_console`, `g_require_sentinel_route`, `g_interval` and `ifarg`.
pub record Options : Type 0 where
  pub dry_run : Bool
  pub console : Bool
  pub require_sentinel_route : Bool
  pub interval : ℤ
  pub ifarg : Option (List ℕ)

abbrev pub no_options : Options
no_options = record {
  dry_run = false;
  console = false;
  require_sentinel_route = false;
  interval = pos 15;
  ifarg = none;
}

-- `argv[i][0] == '-'`
abbrev pub has_dash : List ℕ → Bool
has_dash [] = false
has_dash (c ∷ s) = c == b'-'

abbrev pub set_ifarg : List ℕ → Option (List ℕ) → Options → Option Options
set_ifarg arg none o = some (record o { ifarg = some arg })
set_ifarg arg (some name) o = none

-- Whether the next argument is the value of `-i`.
abbrev pub read_on : Bool → Option Options → Option (Bool × Options)
read_on waits none = none
read_on waits (some o) = some (waits, o)

-- The chain of tests on one argument; `usage` exits: `none`.
unfoldable pub read_arg : List ℕ → Options → Option (Bool × Options)
read_arg arg o =
    if strcmp_eq arg (codes "-n")
    then some (false, record o { dry_run = true })
    else if strcmp_eq arg (codes "-c")
    then some (false, record o { console = true })
    else if strcmp_eq arg (codes "-r")
    then some (false, record o { require_sentinel_route = true })
    else if strcmp_eq arg (codes "-i")
    then some (true, o)
    else if has_dash arg
    then none
    else read_on false (set_ifarg arg o.ifarg o)

-- The argument after `-i`.
unfoldable pub read_interval : List ℕ → Options → Option (Bool × Options)
read_interval arg o =
    if ltb_ℤ (atoi arg) (pos 1) then none else some (false, record o { interval = atoi arg })

abbrev pub read_next : Bool → List ℕ → Options → Option (Bool × Options)
read_next waits arg o = if waits then read_interval arg o else read_arg arg o

unfoldable pub read_args : List (List ℕ) → Bool → Options → Option Options
read_args [] waits o = if waits then none else some o
read_args (arg ∷ args) waits o = elim (read_next waits arg o) [
  | none ↦ none
  | some (waits', o') ↦ read_args args waits' o'
]

abbrev pub with_ifarg : Option Options → Option (List ℕ × Options)
with_ifarg none = none
with_ifarg (some o) = elim (o.ifarg) [ none ↦ none | some name ↦ some (name, o) ]

-- From the arguments after the program's name.
unfoldable pub parse_args : List (List ℕ) → Option (List ℕ × Options)
parse_args args = with_ifarg (read_args args false no_options)
