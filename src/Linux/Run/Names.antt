-- ===== src/Linux/Run/Names.antt =====
-- The names of the interfaces (host/v4gwd.py `refresh`): the dictionary has each name once.
use mathlib.Core.Path.{subst}
use v4_with_v6_nh.Common.{
  ◌≡◌, ◌≢◌, sym, true, false, List, [], ◌∷◌, ◌++◌, map, arith, All, Any, here, there, inl, inr,
  Bool-cases,
}
use v4_with_v6_nh.Common.Text.{strcmp_eq}
use v4_with_v6_nh.Common.Text.Laws.{strcmp_eq→, strcmp_eq_refl}
use v4_with_v6_nh.Linux.Routes.{Text}
use v4_with_v6_nh.Linux.Daemon.{Interface}
use v4_with_v6_nh.Linux.Run.{has_name}

abbrev pub names : List Interface → List Text
names fs = map (λ f. f.name) fs

abbrev pub IsAbsent : Text → List Text → Type 0
IsAbsent n ns = All (λ m. m ≢ n) ns

abbrev pub IsDistinct : List Text → Type 0
IsDistinct [] = Unit
IsDistinct (n ∷ ns) = IsAbsent n ns × IsDistinct ns

pub has_name-IsAbsent :
    (n : Text) (fs : List Interface) → has_name n fs ≡ false → IsAbsent n (names fs)
unfolding has_name
has_name-IsAbsent n [] e = tt
has_name-IsAbsent n (f ∷ fs) e = elim (Bool-cases (strcmp_eq f.name n)) [
  | inl same ↦ absurd (hit same)
  | inr differs ↦ (ne differs, has_name-IsAbsent n fs (rest differs))
]
  where
    hit : strcmp_eq f.name n ≡ true → ⊥
    hit same = ground (arith, e)

    ne : strcmp_eq f.name n ≡ false → f.name ≢ n
    ne differs s =
        let same = subst (λ t. strcmp_eq t n ≡ true) (sym s) (strcmp_eq_refl n) in
        ground (arith, differs, same)

    rest : strcmp_eq f.name n ≡ false → has_name n fs ≡ false
    rest differs = ground (arith, e)

pub has_name-Any :
    (n : Text) (fs : List Interface) → has_name n fs ≡ true → Any (λ f. f.name ≡ n) fs
unfolding has_name
has_name-Any n [] e = cc
has_name-Any n (f ∷ fs) e = elim (Bool-cases (strcmp_eq f.name n)) [
  | inl same ↦ here (strcmp_eq→ f.name n same)
  | inr differs ↦ there (has_name-Any n fs (ground arith))
]

All-names :
    (P : Text → Type 0) (fs : List Interface) (f : Interface)
    → All P (names fs)
    → P f.name
    → All P (names (fs ++ (f ∷ [])))
All-names P [] f a p = (p, tt)
All-names P (g ∷ fs) f a p = (a.0, All-names P fs f a.1 p)

pub names-IsDistinct :
    (fs : List Interface) (f : Interface)
    → IsDistinct (names fs)
    → IsAbsent f.name (names fs)
    → IsDistinct (names (fs ++ (f ∷ [])))
names-IsDistinct [] f d a = (tt, tt)
names-IsDistinct (g ∷ fs) f d a =
    (All-names (λ m. m ≢ g.name) fs f d.0 (λ e. a.0 (sym e)), names-IsDistinct fs f d.1 a.1)

-- What is absent from a longer list is absent from its beginning, and is not its last.
pub names-IsAbsent :
    (n : Text) (fs : List Interface) (f : Interface)
    → IsAbsent n (names (fs ++ (f ∷ [])))
    → IsAbsent n (names fs)
names-IsAbsent n [] f a = tt
names-IsAbsent n (g ∷ fs) f a = (a.0, names-IsAbsent n fs f a.1)
