-- ===== src/FreeBsd/Select/AnyOrder.antt =====
-- `select_router` (host/freebsd/v4gwd.c) does not depend on the order of the kernel's list.
use mathlib.Core.Path.{subst}
use v4_with_v6_nh.Common.{
  ℕ, ◌<◌, ◌≡◌, ◌≢◌, ◌∙◌, sym, ap, none, some, List, arith, All, Any, All-map, Any-All, Any-member,
  inl, inr, Option-cases,
}
use v4_with_v6_nh.Common.Text.Laws.{value, value_injective}
use v4_with_v6_nh.Inet6.{Addr, IsAddr}
use v4_with_v6_nh.Rtsock.{Sysctl, fetch}
use v4_with_v6_nh.FreeBsd.Select.{Defrouter, DrBuffer, pref_rank, select_router}
use v4_with_v6_nh.FreeBsd.Select.Best.{Lists, IsBest, Beats}
use v4_with_v6_nh.FreeBsd.Select.Highest.{select_router-IsBest}

-- The dump lists these routers, with addresses of sixteen bytes.
pub record IsListing (size : ℕ) (drlist : Sysctl DrBuffer) (ds : List Defrouter) : Type 0 where
  pub buf : DrBuffer
  pub read : fetch drlist ≡ some buf
  pub lists : Lists size buf 0 ds
  pub addrs : All (λ d. IsAddr d.rtaddr) ds

-- Each router of one list is in the other.
abbrev pub IsWithin : List Defrouter → List Defrouter → Type 0
IsWithin ds es = All (λ d. Any (λ e. e ≡ d) es) ds

All-IsWithin :
    (P : Defrouter → Type 0) (ds es : List Defrouter) → IsWithin ds es → All P es → All P ds
All-IsWithin P ds es within all =
    All-map ds (λ d any. let (e, same, p) = Any-All any all in subst P same p) within

module _ (ifindex : ℕ) where
  -- The best of one list against a router of another that is within the first.
  best_wins :
      (ds es : List Defrouter) (a : Addr) (d e : Defrouter)
      → IsWithin es ds
      → Any (λ x. x ≡ e) es
      → e.if_index ≡ ifindex
      → IsBest ifindex ds a d
      → Beats (pref_rank d.flags) a e
  best_wins ds es a d e within member up best =
      let P : Defrouter → Type 0 = λ x. x.if_index ≡ ifindex → Beats (pref_rank d.flags) a x in
      let (x, same, beats) = Any-All member (All-IsWithin P es ds within best.2) in
      subst P same beats up

  same_best :
      (a b : Addr) (d e : Defrouter)
      → IsAddr d.rtaddr
      → IsAddr e.rtaddr
      → d.rtaddr ≡ a
      → e.rtaddr ≡ b
      → Beats (pref_rank d.flags) a e
      → Beats (pref_rank e.flags) b d
      → a ≡ b
  same_best a b d e hd he at_a at_b over under =
      let below = over.1 under.0 in
      let above = under.1 over.0 in
      let va = ap value at_a in
      let vb = ap value at_b in
      sym at_a
      ∙ value_injective d.rtaddr e.rtaddr hd.bytes he.bytes (hd.size ∙ sym he.size)
          (omega (arith, below, above, va, vb))
      ∙ at_b

  same_choice :
      (ds es : List Defrouter) (a b : Addr)
      → All (λ d. IsAddr d.rtaddr) ds
      → All (λ d. IsAddr d.rtaddr) es
      → IsWithin ds es
      → IsWithin es ds
      → Any (IsBest ifindex ds a) ds
      → Any (IsBest ifindex es b) es
      → a ≡ b
  same_choice ds es a b wa wb sub sup best best' =
      let (d, d_in, p) = Any-member best in
      let (e, e_in, q) = Any-member best' in
      let (d1, same_d, hd) = Any-All d_in wa in
      let (e1, same_e, he) = Any-All e_in wb in
      same_best a b d e (subst (λ x. IsAddr x.rtaddr) same_d hd)
        (subst (λ x. IsAddr x.rtaddr) same_e he) p.1 q.1 (best_wins ds es a d e sup e_in q.0 p)
        (best_wins es ds b e d sub d_in p.0 q)

  module _ (size : ℕ) (sized : 0 < size) where
    select-IsBest :
        (drlist : Sysctl DrBuffer) (ds : List Defrouter) (l : IsListing size drlist ds) {a : Addr}
        → select_router ifindex size drlist ≡ some a
        → Any (IsBest ifindex ds a) ds
    select-IsBest drlist ds l e =
        (select_router-IsBest ifindex size drlist ds l.read sized l.lists l.addrs).0 _ e

    none_too :
        (p q : Sysctl DrBuffer) (ds es : List Defrouter)
        → IsListing size p ds
        → IsListing size q es
        → IsWithin es ds
        → select_router ifindex size p ≡ none
        → select_router ifindex size q ≡ none
    none_too p q ds es lp lq sup e =
        let off = (select_router-IsBest ifindex size p ds lp.read sized lp.lists lp.addrs).1.0 e in
        (select_router-IsBest ifindex size q es lq.read sized lq.lists lq.addrs).1.1
          (All-IsWithin (λ d. d.if_index ≢ ifindex) es ds sup off)

    -- Two lists with the same routers, in any order and with any repetitions, give the same choice.
    pub select_router_any_order :
        (p q : Sysctl DrBuffer) (ds es : List Defrouter)
        → IsListing size p ds
        → IsListing size q es
        → IsWithin ds es
        → IsWithin es ds
        → select_router ifindex size p ≡ select_router ifindex size q
    select_router_any_order p q ds es lp lq sub sup =
        elim (Option-cases (select_router ifindex size p)) [
          | inl e ↦ e ∙ sym (none_too p q ds es lp lq sup e)
          | inr (a, e) ↦ elim (Option-cases (select_router ifindex size q)) [
            | inl f ↦ none_too q p es ds lq lp sub f ∙ sym f
            | inr (b, f) ↦
                e
                ∙ ap some (
                    same_choice ds es a b lp.addrs lq.addrs sub sup (select-IsBest p ds lp e)
                      (select-IsBest q es lq f))
                ∙ sym f
          ]
        ]
