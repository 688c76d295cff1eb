-- ===== src/Common/Outcome.antt =====
-- How a program has gone so far: its exit status, if it has ended, and the system.
use Prim.Native.Nat.{ℕ}
use mathlib.Core.Bool.{Bool}
use mathlib.Core.Option.{Option, none, some}
use v4_with_v6_nh.Common.Tests.{if◌then◌else◌}

pub record Outcome (K : Type 0) : Type 0 where
  pub status : Option ℕ
  pub os : K

-- `exit(status)`; and `return 0` after a loop, if that has ended.
abbrev pub exits : {K : Type 0} → ℕ → K → Outcome K
exits status os = record { status = some status; os = os }

abbrev pub exits_after : {K : Type 0} → Bool → K → Outcome K
exits_after running os = record { status = if running then none else some 0; os = os }
