-- ===== src/Common/Found.antt =====
-- A search through a list by a test that gives a result, and the answers that the code makes of it.
use mathlib.Core.Path.{◌≡◌, refl, ap}
use mathlib.Core.Logic.{◌≢◌, ◌⊎◌, inl, inr}
use mathlib.Core.Bool.{Bool, true, false}
use mathlib.Core.List.{List, [], ◌∷◌}
use mathlib.Core.Option.{Option, none, some}
use native.Mathlib.Omega.{arith}
use v4_with_v6_nh.Common.Lists.{Any, here, there}

-- A `do` block of steps that may have no result.
infixl 5 ◌>>=◌
abbrev pub ◌>>=◌ : {A B : Type 0} → Option A → (A → Option B) → Option B
none >>= f = none
some a >>= f = f a

-- Whether there is a result, and a result that is itself an answer.
abbrev pub is_some : {A : Type 0} → Option A → Bool
is_some none = false
is_some (some a) = true

abbrev pub is_true : Option Bool → Bool
is_true none = false
is_true (some b) = b

pub is_some-true : {A : Type 0} (o : Option A) → is_some o ≡ true → (a : A) × (o ≡ some a)
is_some-true none e = cc
is_some-true (some a) e = (a, refl)

pub is_some_ne : {A : Type 0} (o : Option A) → o ≢ none → is_some o ≡ true
is_some_ne none e = absurd (e refl)
is_some_ne (some a) e = refl

pub is_true-some : (o : Option Bool) → is_true o ≡ true → o ≡ some true
is_true-some none e = cc
is_true-some (some b) e = ap some e

pub is_true_ne : (o : Option Bool) → o ≢ none → o ≢ some false → is_true o ≡ true
is_true_ne none e f = absurd (e refl)
is_true_ne (some true) e f = refl
is_true_ne (some false) e f = absurd (f refl)

module _ {R A : Type 0} (pick : R → Option A) where
  -- The result for the first element that has one.
  abbrev pub first : List R → Option A
  first [] = none
  first (r ∷ rs) = elim (pick r) [ some a ↦ some a | none ↦ first rs ]

  first-cons :
      (r : R) (rs : List R) {a : A}
      → first (r ∷ rs) ≡ some a
      → (pick r ≡ some a) ⊎ (first rs ≡ some a)
  first-cons r rs e = ground arith

  first-cons_none :
      (r : R) (rs : List R) → first (r ∷ rs) ≡ none → (pick r ≡ none) × (first rs ≡ none)
  first-cons_none r rs e = ground arith

  -- What is found, some element gave; where nothing is found, no element gives anything.
  pub first-Any : (rs : List R) {a : A} → first rs ≡ some a → Any (λ r. pick r ≡ some a) rs
  first-Any [] e = cc
  first-Any (r ∷ rs) e = elim (first-cons r rs e) [
    | inl hit ↦ here hit
    | inr later ↦ there (first-Any rs later)
  ]

  pub Any-first : {rs : List R} → Any (λ r. pick r ≢ none) rs → first rs ≢ none
  Any-first (here {x = r} {xs = rs} p) e = p (first-cons_none r rs e).0
  Any-first (there {x = r} {xs = rs} a) e = Any-first a (first-cons_none r rs e).1
