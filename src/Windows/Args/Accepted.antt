-- ===== src/Windows/Args/Accepted.antt =====
-- The command lines that `main` (host/windows/v4gwd.c) accepts.
use v4_with_v6_nh.Common.{
  ℕ, ◌≡◌, refl, sym, ◌∙◌, ap, Bool, true, false, none, some, List, [], ◌∷◌, arith, Option-cases,
  inl, inr, ◌⊎◌,
}
use v4_with_v6_nh.Common.Int.{pos, ◌≤ℤ◌}
use v4_with_v6_nh.Common.Text.{codes}
use v4_with_v6_nh.Common.Text.Laws.{strcmp_eq_refl}
use v4_with_v6_nh.Common.Text.Numbers.{atoi}
use v4_with_v6_nh.Windows.Args.Flags.{
  given, read_args-cons, read_all-given, read_interval-pos, dry_run-sets, console-sets,
  require-sets, dry_run-keeps, console-keeps, require-keeps,
}
use v4_with_v6_nh.Windows.Args.{
  Options, no_options, has_dash, read_arg, read_next, read_args, with_ifarg, parse_args,
}

-- The interval stays at least 1.
read_next-interval :
    (arg : List ℕ) (o o1 : Options) (before after : Bool)
    → read_next before arg o ≡ some (after, o1)
    → pos 1 ≤ℤ o.interval
    → pos 1 ≤ℤ o1.interval
unfolding read_arg
read_next-interval arg o o1 true after e h =
    let (at_least, same) = read_interval-pos arg o o1 after e in rw same at_least
read_next-interval arg o o1 false after e h = ground arith

read_args-interval :
    (args : List (List ℕ)) (waits : Bool) (o : Options) {o' : Options}
    → read_args args waits o ≡ some o'
    → pos 1 ≤ℤ o.interval
    → pos 1 ≤ℤ o'.interval
unfolding read_args
read_args-interval [] waits o e h = ground arith
read_args-interval (arg ∷ args) waits o e h =
    let (waits', o1, read, rest) = read_args-cons arg args waits o e in
    read_args-interval args waits' o1 rest (read_next-interval arg o o1 waits waits' read h)

-- The interface's name is an argument that no dash begins.
module _ (name : List ℕ) where
  abbrev IsOperand : List (List ℕ) → Type 0
  IsOperand args = (has_dash name ≡ false) × (given name args ≡ true)

  read_next-ifarg :
      (arg : List ℕ) (o o1 : Options) (before after : Bool)
      → read_next before arg o ≡ some (after, o1)
      → o1.ifarg ≡ some name
      → (o.ifarg ≡ some name) ⊎ ((has_dash name ≡ false) × (arg ≡ name))
  unfolding read_arg
  read_next-ifarg arg o o1 true after e named =
      let (h, same) = read_interval-pos arg o o1 after e in inl (ground (arith, same))
  read_next-ifarg arg o o1 false after e named = ground arith

  read_args-ifarg :
      (args : List (List ℕ)) (waits : Bool) (o : Options) {o' : Options}
      → read_args args waits o ≡ some o'
      → o'.ifarg ≡ some name
      → (o.ifarg ≡ some name) ⊎ IsOperand args
  unfolding read_args
  read_args-ifarg [] waits o e named = ground arith
  read_args-ifarg (arg ∷ args) waits o e named =
      let (waits', o1, read, rest) = read_args-cons arg args waits o e in
      elim (read_args-ifarg args waits' o1 rest named) [
        | inr (plain, later) ↦ inr (plain, ground (arith, later))
        | inl now ↦ elim (read_next-ifarg arg o o1 waits waits' read now) [
          | inl before ↦ inl before
          | inr (plain, here) ↦ inr (plain, rw here (ground (arith, strcmp_eq_refl name)))
        ]
      ]

-- In a command line that is accepted, `-n`, `-c` and `-r` are in force exactly if they are among the
-- arguments, the interval is at least one second, and the interface is one of the arguments, with no dash
-- before it.
pub parse_args-given :
    (args : List (List ℕ)) {name : List ℕ} {o : Options}
    → parse_args args ≡ some (name, o)
    → (o.dry_run ≡ given (codes "-n") args)
      × (o.console ≡ given (codes "-c") args)
      × (o.require_sentinel_route ≡ given (codes "-r") args)
      × (pos 1 ≤ℤ o.interval)
      × (has_dash name ≡ false)
      × (given name args ≡ true)
unfolding parse_args atoi
parse_args-given args {name} {o} e = elim (Option-cases (read_args args false no_options)) [
  | inl refused ↦ ground (arith, e, refused)
  | inr (o1, read) ↦
      let (named, same) = with_ifarg-some o1 (ap with_ifarg (sym read) ∙ e) in
      rw same (accepted o1 read named)
]
  where
    with_ifarg-some :
        (o1 : Options) → with_ifarg (some o1) ≡ some (name, o) → (o1.ifarg ≡ some name) × (o ≡ o1)
    with_ifarg-some o1 h = ground arith

    operand : (none ≡ some name) ⊎ IsOperand name args → IsOperand name args
    operand (inl h) = absurd (ground arith)
    operand (inr h) = h

    accepted :
        (o1 : Options)
        → read_args args false no_options ≡ some o1
        → o1.ifarg ≡ some name
        → (o1.dry_run ≡ given (codes "-n") args)
          × (o1.console ≡ given (codes "-c") args)
          × (o1.require_sentinel_route ≡ given (codes "-r") args)
          × (pos 1 ≤ℤ o1.interval)
          × (has_dash name ≡ false)
          × (given name args ≡ true)
    accepted o1 read named =
        let (plain, listed) = operand (read_args-ifarg name args false no_options read named) in
        (
          read_all-given (codes "-n") (λ (o : Options). o.dry_run) dry_run-sets
              (dry_run-keeps (codes "-n") refl) args no_options refl read,
          read_all-given (codes "-c") (λ (o : Options). o.console) console-sets
              (console-keeps (codes "-c") refl) args no_options refl read,
          read_all-given (codes "-r") (λ (o : Options). o.require_sentinel_route) require-sets
              (require-keeps (codes "-r") refl) args no_options refl read,
          read_args-interval args false no_options read (omega arith),
          plain,
          listed,
        )
