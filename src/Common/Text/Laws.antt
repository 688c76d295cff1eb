-- ===== src/Common/Text/Laws.antt =====
-- What the string functions compute: a `strncmp` against a word with no NUL and no newline is a
-- prefix test on the file, and `memcmp` orders addresses as big-endian numbers.
use v4_with_v6_nh.Common.Tests.{leb, Bool-cases}
use v4_with_v6_nh.Common.Lists.{length, All}
use v4_with_v6_nh.Common.Text.{line, strncmp_eq, strcmp_eq, memcmp_eq, memcmp_ge, starts_with}
use Prim.Native.Nat.{ℕ, zero, suc, ◌+◌, ◌*◌, ◌^◌, ◌≤◌, ◌<◌}
use mathlib.Core.Path.{◌≡◌, refl, ap, ap₂, ◌∙◌, sym}
use mathlib.Core.Logic.{◌≢◌, inl, inr}
use mathlib.Core.Bool.{true, false}
use mathlib.Core.List.{List, [], ◌∷◌}
use native.Mathlib.Nat.{pow-suc}
use native.Mathlib.Omega.{arith}

-- A byte of a word: neither NUL nor newline.
abbrev pub IsWord : List ℕ → Type 0
IsWord = All (λ c. (c ≢ 0) × (c ≢ 10))

pub strncmp_eq-line :
    (p s : List ℕ) (k : ℕ)
    → IsWord p
    → length p ≤ k
    → strncmp_eq (length p) (line k s) p ≡ starts_with p s
unfolding strncmp_eq line
strncmp_eq-line [] s k w h = refl
strncmp_eq-line (x ∷ p) s zero w h = absurd (omega arith)
strncmp_eq-line (x ∷ p) [] (suc k) w h = ground arith
strncmp_eq-line (x ∷ p) (c ∷ s) (suc k) w h = ground (arith, strncmp_eq-line p s k w.1)

-- The number that a byte string stands for, most significant byte first.
abbrev pub value : List ℕ → ℕ
value [] = 0
value (x ∷ xs) = x * 256 ^ length xs + value xs

abbrev pub IsBytes : List ℕ → Type 0
IsBytes = All (λ x. x < 256)

pub value-lt : (xs : List ℕ) → IsBytes xs → value xs < 256 ^ length xs
value-lt [] h = omega arith
value-lt (x ∷ xs) h = rw pow-suc (grind (arith, value-lt xs h.1))

-- A smaller leading digit outweighs the rest.
digit-lt : (x y p v w : ℕ) → v < p → x < y → x * p + v < y * p + w
digit-lt x y p v w hv h = grind arith

pub memcmp_ge-value :
    (a b : List ℕ)
    → IsBytes a
    → IsBytes b
    → length a ≡ length b
    → memcmp_ge a b ≡ leb (value b) (value a)
unfolding memcmp_ge
memcmp_ge-value [] [] ha hb e = refl
memcmp_ge-value [] (y ∷ b) ha hb e = absurd (omega arith)
memcmp_ge-value (x ∷ a) [] ha hb e = absurd (omega arith)
memcmp_ge-value (x ∷ a) (y ∷ b) ha hb e =
    let e' : length b ≡ length a = omega arith in
    rw e' (
      ground (
        arith,
        memcmp_ge-value a b ha.1 hb.1,
        value-lt a ha.1,
        bound,
        digit-lt x y (256 ^ length a) (value a) (value b),
        digit-lt y x (256 ^ length a) (value b) (value a),
      ))
  where
    bound : value b < 256 ^ length a
    bound = let e' : length b ≡ length a = omega arith in rw e' at (value-lt b hb.1)

pub memcmp_eq_iff : (a b : List ℕ) → length a ≡ length b → memcmp_eq a b ≡ true → a ≡ b
unfolding memcmp_eq
memcmp_eq_iff [] [] e h = refl
memcmp_eq_iff [] (y ∷ b) e h = absurd (omega arith)
memcmp_eq_iff (x ∷ a) [] e h = absurd (omega arith)
memcmp_eq_iff (x ∷ a) (y ∷ b) e h = ground (arith, memcmp_eq_iff a b)

pub memcmp_eq_refl : (a : List ℕ) → memcmp_eq a a ≡ true
unfolding memcmp_eq
memcmp_eq_refl [] = refl
memcmp_eq_refl (x ∷ a) = ground (arith, memcmp_eq_refl a)

-- `strcmp` decides equality.
-- Texts of one length that stand for one number are the same.
same_digit : (x y p v w : ℕ) → v < p → w < p → x * p + v ≡ y * p + w → (x ≡ y) × (v ≡ w)
same_digit x y p v w hv hw e =
    let same : x ≡ y = ground (arith, digit-lt x y p v w hv, digit-lt y x p w v hw) in
    (same, grind (arith, same))

pub value_injective :
    (a b : List ℕ) → IsBytes a → IsBytes b → length a ≡ length b → value a ≡ value b → a ≡ b
value_injective [] [] ha hb n e = refl
value_injective [] (y ∷ b) ha hb n e = absurd (omega arith)
value_injective (x ∷ a) [] ha hb n e = absurd (omega arith)
value_injective (x ∷ a) (y ∷ b) ha hb n e =
    let n' : length b ≡ length a = omega arith in
    let (head, tail) =
      same_digit x y (256 ^ length a) (value a) (value b) (value-lt a ha.1)
        (rw (← n') (value-lt b hb.1)) (e ∙ ap (λ k. y * 256 ^ k + value b) n') in
    ap₂ (λ c s. c ∷ s) head (value_injective a b ha.1 hb.1 (sym n') tail)

pub strcmp_eq_refl : (a : List ℕ) → strcmp_eq a a ≡ true
unfolding strcmp_eq
strcmp_eq_refl [] = refl
strcmp_eq_refl (x ∷ a) = ground (arith, strcmp_eq_refl a)

pub strcmp_eq→ : (a b : List ℕ) → strcmp_eq a b ≡ true → a ≡ b
unfolding strcmp_eq
strcmp_eq→ [] [] h = refl
strcmp_eq→ [] (y ∷ b) h = cc
strcmp_eq→ (x ∷ a) [] h = cc
strcmp_eq→ (x ∷ a) (y ∷ b) h = ground (arith, strcmp_eq→ a b)

pub strcmp_eq-ne : (a b : List ℕ) → a ≢ b → strcmp_eq a b ≡ false
strcmp_eq-ne a b ne = elim (Bool-cases (strcmp_eq a b)) [
  | inl same ↦ absurd (ne (strcmp_eq→ a b same))
  | inr differs ↦ differs
]
