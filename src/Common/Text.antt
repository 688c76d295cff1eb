-- ===== src/Common/Text.antt =====
-- The string functions of the C library that the daemons call, on byte lists: `fgets`, `strncmp`,
-- `memcmp`. A byte list stands for the bytes before the terminating NUL of a buffer.
pub mod Laws
pub mod Numbers
use Prim.Native.Nat.{ℕ, zero, suc, ◌-◌, compare, Ordering}
use Prim.Native.Char.{code}
use Prim.Native.String.{String}
use mathlib.Core.Bool.{Bool, true, false, ◌&&◌, ◌||◌}
use mathlib.Core.List.{List, [], ◌∷◌}
use mathlib.Core.Option.{Option, none, some}
use v4_with_v6_nh.Common.Tests.{◌==◌, if◌then◌else◌}

-- At most `k` bytes, up to and with the first newline.
unfoldable pub line : ℕ → List ℕ → List ℕ
line zero s = []
line (suc k) [] = []
line (suc k) (c ∷ s) = c ∷ (if c == 10 then [] else line k s)

-- `fgets(buf, n, fp)` at the start of a file; `none` is NULL, at the end of the file.
unfoldable pub fgets : ℕ → List ℕ → Option (List ℕ)
fgets n [] = none
fgets n (c ∷ s) = some (line (n - 1) (c ∷ s))

-- `strncmp(a, b, n) == 0`. The end of a list is the terminating NUL.
unfoldable pub strncmp_eq : ℕ → List ℕ → List ℕ → Bool
strncmp_eq zero a b = true
strncmp_eq (suc n) [] [] = true
strncmp_eq (suc n) [] (y ∷ b) = y == 0
strncmp_eq (suc n) (x ∷ a) [] = x == 0
strncmp_eq (suc n) (x ∷ a) (y ∷ b) = (x == y) && (x == 0 || strncmp_eq n a b)

-- `strcmp(a, b) == 0`, on lists without NUL.
unfoldable pub strcmp_eq : List ℕ → List ℕ → Bool
strcmp_eq [] [] = true
strcmp_eq [] (y ∷ b) = false
strcmp_eq (x ∷ a) [] = false
strcmp_eq (x ∷ a) (y ∷ b) = (x == y) && strcmp_eq a b

-- The sign of `memcmp(a, b, n)` on two objects of one size.
unfoldable pub memcmp : List ℕ → List ℕ → Ordering
memcmp [] b = Ordering.eq
memcmp (x ∷ a) [] = Ordering.eq
memcmp (x ∷ a) (y ∷ b) = elim (compare x y) [
  | Ordering.lt ↦ Ordering.lt
  | Ordering.gt ↦ Ordering.gt
  | Ordering.eq ↦ memcmp a b
]

-- `memcmp(a, b, n) == 0` and `memcmp(a, b, n) >= 0`.
unfoldable pub memcmp_eq : List ℕ → List ℕ → Bool
unfolding memcmp
memcmp_eq a b = elim (memcmp a b) [ Ordering.eq ↦ true | _ ↦ false ]

unfoldable pub memcmp_ge : List ℕ → List ℕ → Bool
unfolding memcmp
memcmp_ge a b = elim (memcmp a b) [ Ordering.lt ↦ false | _ ↦ true ]

-- What the prefix tests mean.
abbrev pub starts_with : List ℕ → List ℕ → Bool
starts_with [] s = true
starts_with (x ∷ p) [] = false
starts_with (x ∷ p) (y ∷ s) = (x == y) && starts_with p s

-- The bytes of an ASCII text.
abbrev pub codes : String → List ℕ
codes String.[] = []
codes (String.◌∷◌ c s) = code c ∷ codes s
