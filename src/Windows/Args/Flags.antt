-- ===== src/Windows/Args/Flags.antt =====
-- The flags of an accepted command line (host/windows/v4gwd.c `main`) are those that are given.
use v4_with_v6_nh.Common.{
  ℕ, ◌≡◌, refl, ◌∙◌, ap, Bool, true, false, ◌||◌, some, List, [], ◌∷◌, arith, Option-cases,
  Bool-cases, inl, inr,
}
use v4_with_v6_nh.Common.Int.{pos, ◌≤ℤ◌}
use v4_with_v6_nh.Common.Text.{codes, strcmp_eq}
use v4_with_v6_nh.Common.Text.Laws.{strcmp_eq→}
use v4_with_v6_nh.Common.Text.Numbers.{atoi}
use v4_with_v6_nh.Windows.Args.{Options, read_arg, read_interval, read_next, read_args}

-- Whether a text is one of the arguments.
abbrev pub given : List ℕ → List (List ℕ) → Bool
given x [] = false
given x (arg ∷ args) = strcmp_eq arg x || given x args

pub read_args-cons :
    (arg : List ℕ) (args : List (List ℕ)) (waits : Bool) (o : Options) {o' : Options}
    → read_args (arg ∷ args) waits o ≡ some o'
    → (waits' : Bool) × (o1 : Options) × (read_next waits arg o ≡ some (waits', o1))
      × (read_args args waits' o1 ≡ some o')
unfolding read_args
read_args-cons arg args waits o e = elim (Option-cases (read_next waits arg o)) [
  | inl refused ↦ ground arith
  | inr ((waits', o1), read) ↦ (waits', o1, read, ground (arith, e, read))
]

-- A word that is no number, for which one argument sets a flag.
module _ (word : List ℕ) (flag : Options → Bool)
    (sets : (arg : List ℕ) (o o1 : Options) (waits : Bool)
      → read_arg arg o ≡ some (waits, o1)
      → flag o1 ≡ (strcmp_eq arg word || flag o))
    (keeps : (arg : List ℕ) (o o1 : Options) (waits : Bool)
      → read_interval arg o ≡ some (waits, o1)
      → flag o1 ≡ (strcmp_eq arg word || flag o)) where
  reads :
      (arg : List ℕ) (o o1 : Options) (before after : Bool)
      → read_next before arg o ≡ some (after, o1)
      → flag o1 ≡ (strcmp_eq arg word || flag o)
  reads arg o o1 true after e = keeps arg o o1 after e
  reads arg o o1 false after e = sets arg o o1 after e

  read_args-given :
      (args : List (List ℕ)) (waits : Bool) (o : Options) {o' : Options}
      → read_args args waits o ≡ some o'
      → flag o' ≡ (given word args || flag o)
  unfolding read_args
  read_args-given [] waits o e = ground arith
  read_args-given (arg ∷ args) waits o e =
      let (waits', o1, read, rest) = read_args-cons arg args waits o e in
      let later = read_args-given args waits' o1 rest in
      let now = reads arg o o1 waits waits' read in ground (arith, later, now)

  pub read_all-given :
      (args : List (List ℕ)) (o : Options) {o' : Options}
      → flag o ≡ false
      → read_args args false o ≡ some o'
      → flag o' ≡ given word args
  read_all-given args o unset e =
      let reached = read_args-given args false o e in ground (arith, reached, unset)

-- The three flags.
IsNumber_ne :
    (word : List ℕ) (arg : List ℕ)
    → atoi word ≡ pos 0
    → pos 1 ≤ℤ atoi arg
    → strcmp_eq arg word ≡ false
IsNumber_ne word arg zero_word h = elim (Bool-cases (strcmp_eq arg word)) [
  | inl same ↦
      let zero = ap atoi (strcmp_eq→ arg word same) ∙ zero_word in absurd (ground (arith, zero))
  | inr differs ↦ differs
]

pub read_interval-pos :
    (arg : List ℕ) (o o1 : Options) (waits : Bool)
    → read_interval arg o ≡ some (waits, o1)
    → (pos 1 ≤ℤ atoi arg) × (o1 ≡ record o { interval = atoi arg })
unfolding read_interval
read_interval-pos arg o o1 waits e = ground arith

pub dry_run-sets :
    (arg : List ℕ) (o o1 : Options) (waits : Bool)
    → read_arg arg o ≡ some (waits, o1)
    → o1.dry_run ≡ (strcmp_eq arg (codes "-n") || o.dry_run)
unfolding read_arg
dry_run-sets arg o o1 waits e = ground arith

-- One of the four words at most is the argument.
other_word :
    (arg word other : List ℕ)
    → strcmp_eq word other ≡ false
    → strcmp_eq arg word ≡ true
    → strcmp_eq arg other ≡ false
other_word arg word other differ h = rw (strcmp_eq→ arg word h) differ

pub console-sets :
    (arg : List ℕ) (o o1 : Options) (waits : Bool)
    → read_arg arg o ≡ some (waits, o1)
    → o1.console ≡ (strcmp_eq arg (codes "-c") || o.console)
unfolding read_arg strcmp_eq
console-sets arg o o1 waits e =
    let n = other_word arg (codes "-n") (codes "-c") refl in ground (arith, n)

pub require-sets :
    (arg : List ℕ) (o o1 : Options) (waits : Bool)
    → read_arg arg o ≡ some (waits, o1)
    → o1.require_sentinel_route ≡ (strcmp_eq arg (codes "-r") || o.require_sentinel_route)
unfolding read_arg strcmp_eq
require-sets arg o o1 waits e =
    let n = other_word arg (codes "-n") (codes "-r") refl in
    let c = other_word arg (codes "-c") (codes "-r") refl in ground (arith, n, c)

-- The value of `-i` is at least 1, so it is none of the words, and it changes no flag.
module _ (word : List ℕ) (zero_word : atoi word ≡ pos 0) where
  pub dry_run-keeps :
      (arg : List ℕ) (o o1 : Options) (waits : Bool)
      → read_interval arg o ≡ some (waits, o1)
      → o1.dry_run ≡ (strcmp_eq arg word || o.dry_run)
  dry_run-keeps arg o o1 waits e =
      let (h, same) = read_interval-pos arg o o1 waits e in
      rw (same, IsNumber_ne word arg zero_word h) refl

  pub console-keeps :
      (arg : List ℕ) (o o1 : Options) (waits : Bool)
      → read_interval arg o ≡ some (waits, o1)
      → o1.console ≡ (strcmp_eq arg word || o.console)
  console-keeps arg o o1 waits e =
      let (h, same) = read_interval-pos arg o o1 waits e in
      rw (same, IsNumber_ne word arg zero_word h) refl

  pub require-keeps :
      (arg : List ℕ) (o o1 : Options) (waits : Bool)
      → read_interval arg o ≡ some (waits, o1)
      → o1.require_sentinel_route ≡ (strcmp_eq arg word || o.require_sentinel_route)
  require-keeps arg o o1 waits e =
      let (h, same) = read_interval-pos arg o o1 waits e in
      rw (same, IsNumber_ne word arg zero_word h) refl
