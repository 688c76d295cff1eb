-- ===== src/Common/Loop.antt =====
-- The main loops of the daemons: `while (running)` with one round for each wait that ends. A round is
-- what the wait brings; the loop looks at the flag before each.
use mathlib.Core.Path.{◌≡◌, refl, sym, ◌∙◌, ap}
use mathlib.Core.Logic.{inl, inr}
use mathlib.Core.Bool.{Bool, true, false}
use mathlib.Core.List.{List, [], ◌∷◌, ◌++◌}
use native.Mathlib.Omega.{arith}
use v4_with_v6_nh.Common.Tests.{if◌then◌else◌, Bool-cases}
use v4_with_v6_nh.Common.Lists.{All, Any, here, there}

module _ {R S : Type 0} (is_running : S → Bool) (serve : R → S → S) where
  unfoldable pub while_running : List R → S → S
  while_running [] s = s
  while_running (r ∷ rs) s =
      let rest = while_running rs (serve r s) in if is_running s then rest else s

  pub while_running-stopped : (rs : List R) (s : S) → is_running s ≡ false → while_running rs s ≡ s
  unfolding while_running
  while_running-stopped [] s h = refl
  while_running-stopped (r ∷ rs) s h = rw h

  pub while_running-next :
      (r : R) (rs : List R) (s : S)
      → is_running s ≡ true
      → while_running (r ∷ rs) s ≡ while_running rs (serve r s)
  unfolding while_running
  while_running-next r rs s h = ground arith

  -- A round that clears the flag ends the loop.
  pub while_running-stops :
      (Stops : R → Type 0)
      → ((r : R) (s : S) → Stops r → is_running (serve r s) ≡ false)
      → {rs : List R} (s : S) → Any Stops rs
      → is_running (while_running rs s) ≡ false
  while_running-stops Stops clears s (here {x = r} {xs = rs} h) = elim (Bool-cases (is_running s)) [
    | inl on ↦
        ap is_running
          (while_running-next r rs s on ∙ while_running-stopped rs (serve r s) (clears r s h))
        ∙ clears r s h
    | inr off ↦ ap is_running (while_running-stopped (r ∷ rs) s off) ∙ off
  ]
  while_running-stops Stops clears s (there {x = r} {xs = rs} a) =
      elim (Bool-cases (is_running s)) [
        | inl on ↦
            ap is_running (while_running-next r rs s on)
            ∙ while_running-stops Stops clears (serve r s) a
        | inr off ↦ ap is_running (while_running-stopped (r ∷ rs) s off) ∙ off
      ]

  -- What every round of some kind keeps, the loop keeps.
  pub while_running-keeps :
      (Inv : S → Type 0) (Kind : R → Type 0)
      → ((r : R) (s : S) → Kind r → Inv s → Inv (serve r s))
      → (rs : List R) (s : S) → All Kind rs
      → Inv s
      → Inv (while_running rs s)
  unfolding while_running
  while_running-keeps Inv Kind keep [] s a h = h
  while_running-keeps Inv Kind keep (r ∷ rs) s a h = elim (Bool-cases (is_running s)) [
    | inl on ↦ rw on (while_running-keeps Inv Kind keep rs (serve r s) a.1 (keep r s a.0 h))
    | inr off ↦ rw off h
  ]

  -- Rounds one after the other.
  pub while_running-append :
      (rs ts : List R) (s : S) → while_running (rs ++ ts) s ≡ while_running ts (while_running rs s)
  unfolding while_running
  while_running-append [] ts s = refl
  while_running-append (r ∷ rs) ts s = elim (Bool-cases (is_running s)) [
    | inl on ↦ rw on (while_running-append rs ts (serve r s))
    | inr off ↦ rw off (sym (while_running-stopped ts s off))
  ]
