-- ===== src/Router/Fifo/Chunks.antt =====
-- How the bytes of the FIFO are cut into reads does not matter
-- (router/debian/usr/local/sbin/v4gwrd.py `serve`).
use v4_with_v6_nh.Common.{
  ℕ, ◌≡◌, refl, sym, ap, ◌∙◌, false, List, [], ◌∷◌, ◌++◌, ◌==◌, All, All-append, inl, inr,
  Bool-cases,
}
use v4_with_v6_nh.Router.NextHop.{Library}
use v4_with_v6_nh.Router.Manager.{Kernel, Manager}
use v4_with_v6_nh.Router.Fifo.{handle_line, Reader, drain, feed, feed_all}

abbrev IsPartial : List ℕ → Type 0
IsPartial s = All (λ c. (c == 10) ≡ false) s

append_nil : (s : List ℕ) → s ++ [] ≡ s
append_nil [] = refl
append_nil (c ∷ s) = ap (λ t. c ∷ t) (append_nil s)

append_assoc : (s t u : List ℕ) → (s ++ t) ++ u ≡ s ++ (t ++ u)
append_assoc [] t u = refl
append_assoc (c ∷ s) t u = ap (λ x. c ∷ x) (append_assoc s t u)

abbrev pub concat : List (List ℕ) → List ℕ
concat [] = []
concat (s ∷ ss) = s ++ concat ss

module _ {K : Type 0} (lib : Library) (kernel : Kernel K) where
  drain-append :
      (line s t : List ℕ) (m : Manager K)
      → let r = drain lib kernel line s m in
        drain lib kernel line (s ++ t) m ≡ drain lib kernel r.buf t r.manager
  unfolding drain
  drain-append line [] t m = refl
  drain-append line (c ∷ s) t m = elim (Bool-cases (c == 10)) [
    | inl end ↦ rw end (drain-append [] s t (handle_line lib kernel (lib.decode line) m))
    | inr on ↦ rw on (drain-append (line ++ (c ∷ [])) s t m)
  ]

  drain-IsPartial :
      (line s : List ℕ) (m : Manager K) → IsPartial line → IsPartial (drain lib kernel line s m).buf
  unfolding drain
  drain-IsPartial line [] m p = p
  drain-IsPartial line (c ∷ s) m p = elim (Bool-cases (c == 10)) [
    | inl end ↦ rw end (drain-IsPartial [] s _ tt)
    | inr on ↦ rw on (drain-IsPartial (line ++ (c ∷ [])) s m (All-append _ line _ p (on, tt)))
  ]

  -- A line that has begun is taken up again.
  drain-partial :
      (line s t : List ℕ) (m : Manager K)
      → IsPartial s
      → drain lib kernel line (s ++ t) m ≡ drain lib kernel (line ++ s) t m
  unfolding drain
  drain-partial line [] t m p = ap (λ x. drain lib kernel x t m) (sym (append_nil line))
  drain-partial line (c ∷ s) t m (on, p) = rw on (
      drain-partial (line ++ (c ∷ [])) s t m p
      ∙ ap (λ x. drain lib kernel x t m) (append_assoc line (c ∷ []) s))

  feed-feed :
      (a b : List ℕ) (r : Reader lib kernel)
      → feed lib kernel b (feed lib kernel a r) ≡ feed lib kernel (a ++ b) r
  unfolding feed
  feed-feed a b r =
      let q = drain lib kernel [] (r.buf ++ a) r.manager in
      drain-partial [] q.buf b q.manager (drain-IsPartial [] (r.buf ++ a) r.manager tt)
      ∙ sym (drain-append [] (r.buf ++ a) b r.manager)
      ∙ ap (λ x. drain lib kernel [] x r.manager) (append_assoc r.buf a b)

  feed_all-concat :
      (chunk : List ℕ) (chunks : List (List ℕ)) (r : Reader lib kernel)
      → feed_all lib kernel (chunk ∷ chunks) r ≡ feed lib kernel (chunk ++ concat chunks) r
  unfolding feed_all
  feed_all-concat chunk [] r = ap (λ x. feed lib kernel x r) (sym (append_nil chunk))
  feed_all-concat chunk (next ∷ chunks) r =
      feed_all-concat next chunks (feed lib kernel chunk r)
      ∙ feed-feed chunk (next ++ concat chunks) r

  -- The same bytes in other reads, of which there is at least one, leave the manager and the rest of the
  -- buffer the same: no line is lost, doubled or cut where a read ends.
  pub feed_all_any_chunks :
      (a b : List ℕ) (xs ys : List (List ℕ)) (r : Reader lib kernel)
      → concat (a ∷ xs) ≡ concat (b ∷ ys)
      → feed_all lib kernel (a ∷ xs) r ≡ feed_all lib kernel (b ∷ ys) r
  feed_all_any_chunks a b xs ys r same =
      feed_all-concat a xs r ∙ ap (λ x. feed lib kernel x r) same ∙ sym (feed_all-concat b ys r)
