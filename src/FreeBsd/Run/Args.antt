-- ===== src/FreeBsd/Run/Args.antt =====
-- The command lines that `main` (host/freebsd/v4gwd.c) accepts.
use v4_with_v6_nh.Common.{
  ℕ, ◌≤◌, ◌<◌, ◌*◌, none, ◌≡◌, false, ◌&&◌, some, List, [], ◌∷◌, arith, Option-cases, inl, inr,
}
use v4_with_v6_nh.Common.Int.{pos, ◌≤ℤ◌}
use v4_with_v6_nh.FreeBsd.Run.{
  Opt, opt_r, opt_f, opt_i, opt_other, Options, no_options, set_option, set_options, has_file,
  check_operands, parse_args, poll_timeout,
}

set_option-interval :
    (x : Opt) (o o' : Options)
    → set_option x o ≡ some o'
    → pos 1 ≤ℤ o.interval
    → pos 1 ≤ℤ o'.interval
unfolding set_option
set_option-interval opt_r o o' e h = ground arith
set_option-interval (opt_f arg) o o' e h = ground arith
set_option-interval (opt_i arg) o o' e h = ground arith
set_option-interval opt_other o o' e h = ground arith

set_options-interval :
    (xs : List Opt) (o o' : Options)
    → set_options xs o ≡ some o'
    → pos 1 ≤ℤ o.interval
    → pos 1 ≤ℤ o'.interval
unfolding set_options
set_options-interval [] o o' e h = ground arith
set_options-interval (x ∷ xs) o o' e h = elim (Option-cases (set_option x o)) [
  | inl refused ↦ ground arith
  | inr (o1, set) ↦ set_options-interval xs o1 o' (ground arith) (set_option-interval x o o1 set h)
]

check_operands-lem :
    (operands : List (List ℕ)) (o : Options) {name : List ℕ} {o' : Options}
    → check_operands operands o ≡ some (name, o')
    → (operands ≡ name ∷ []) × (o' ≡ o) × ((o.require_sentinel_route && has_file o) ≡ false)
check_operands-lem [] o e = cc
check_operands-lem (x ∷ []) o e = ground arith
check_operands-lem (x ∷ y ∷ rest) o e = cc

-- A command line that is accepted has one operand, the interface, an interval of at least one second,
-- and not both `-r` and `-f`.
pub parse_args_lem :
    (opts : List Opt) (operands : List (List ℕ)) {name : List ℕ} {o : Options}
    → parse_args opts operands ≡ some (name, o)
    → (operands ≡ name ∷ [])
      × (pos 1 ≤ℤ o.interval)
      × ((o.require_sentinel_route && has_file o) ≡ false)
unfolding parse_args
parse_args_lem opts operands {name} {o} e = elim (Option-cases (set_options opts no_options)) [
  | inl refused ↦ ground arith
  | inr (o1, set) ↦ accepted o1 set (ground (arith, e, set))
]
  where
    accepted :
        (o1 : Options)
        → set_options opts no_options ≡ some o1
        → check_operands operands o1 ≡ some (name, o)
        → (operands ≡ name ∷ [])
          × (pos 1 ≤ℤ o.interval)
          × ((o.require_sentinel_route && has_file o) ≡ false)
    accepted o1 set c =
        let checked = check_operands-lem operands o1 c in
        rw checked.1
          (checked.0, set_options-interval opts no_options o1 set (omega arith), checked.2)

-- The timeout of `poll` is the interval in milliseconds for an interval of up to 2147483 seconds; a longer
-- one, which the command line may give, overflows the `int`.
pub poll_timeout_lem :
    (n : ℕ)
    → (n ≤ 2147483 → poll_timeout (pos n) ≡ some (pos (n * 1000)))
      × (2147483 < n → poll_timeout (pos n) ≡ none)
unfolding poll_timeout
poll_timeout_lem n = (λ h. ground arith, λ h. ground arith)
