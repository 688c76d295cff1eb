-- ===== src/Rtsock/Walk.antt =====
-- What the loops over a dump compute when the kernel has laid the messages out back to back: the
-- first message that the body accepts, with a bound on the rounds.
use v4_with_v6_nh.Common.{
  first, ℕ, zero, suc, ◌+◌, ◌-◌, ◌≤◌, ◌<◌, ◌≡◌, ◌≢◌, refl, Option, none, some, List, [], ◌∷◌, arith,
  bit_and, inl, inr, Option-cases, ◌∙◌, ap, sym,
}
use v4_with_v6_nh.Rtsock.{
  Buffer, RtMsghdr, Sockaddr, Outcome, found, absent, walk, rounds, result, rta_dst, rta_gateway,
}

-- A message of a dump, decoded: its header, and its destination and gateway where it has them.
pub record Message : Type 0 where
  pub hdr : RtMsghdr
  pub dst : Option Sockaddr
  pub gateway : Option Sockaddr

-- The addresses at offset `q` under the mask `rtm_addrs`, packed in slot order, each padded to
-- `size` of its length.
pub data Packed (size : ℕ → ℕ) (buf : Buffer) (q : ℕ)
    : ℕ → Option Sockaddr → Option Sockaddr → Type 0 where
  both :
      {addrs : ℕ}
      → bit_and addrs rta_dst ≢ 0
      → bit_and addrs rta_gateway ≢ 0
      → Packed size buf q addrs (some (buf.sa q)) (some (buf.sa (q + size (buf.sa q).len)))
  dst_only :
      {addrs : ℕ}
      → bit_and addrs rta_dst ≢ 0
      → bit_and addrs rta_gateway ≡ 0
      → Packed size buf q addrs (some (buf.sa q)) none
  gateway_only :
      {addrs : ℕ}
      → bit_and addrs rta_dst ≡ 0
      → bit_and addrs rta_gateway ≢ 0
      → Packed size buf q addrs none (some (buf.sa q))
  neither :
      {addrs : ℕ}
      → bit_and addrs rta_dst ≡ 0
      → bit_and addrs rta_gateway ≡ 0
      → Packed size buf q addrs none none

module _ (hdr_size : ℕ) (size : ℕ → ℕ) (buf : Buffer) where
  -- From offset `p` on the buffer holds these messages and no more.
  abbrev pub Holds : ℕ → List Message → Type 0
  Holds p [] = p ≡ buf.len
  Holds p (m ∷ ms) =
      (buf.hdr p ≡ m.hdr)
      × (0 < m.hdr.msglen)
      × (p < buf.len)
      × Packed size buf (p + hdr_size) m.hdr.addrs m.dst m.gateway
      × Holds (p + m.hdr.msglen) ms

abbrev pub ended : {A : Type 0} → Option A → Outcome A
ended (some a) = found a
ended none = absent

module _ {A : Type 0} (pick : Message → Option A) (m : Message) (ms : List Message) where
  first-hit : {a : A} → pick m ≡ some a → ended (first pick (m ∷ ms)) ≡ found a
  first-hit e = ground arith

  first-miss : pick m ≡ none → ended (first pick (m ∷ ms)) ≡ ended (first pick ms)
  first-miss e = ground arith

-- One round of the loop, at each of its three ends.
module _ {A : Type 0} (buf : Buffer) (body : ℕ → RtMsghdr → Option A) (n p : ℕ) where
  walk-end : buf.len ≤ p → walk buf body (suc n) p ≡ absent
  unfolding walk
  walk-end h = ground arith

  walk-stop :
      {a : A} → p < buf.len → body p (buf.hdr p) ≡ some a → walk buf body (suc n) p ≡ found a
  unfolding walk
  walk-stop h e = ground arith

  walk-next :
      p < buf.len
      → body p (buf.hdr p) ≡ none
      → walk buf body (suc n) p ≡ walk buf body n (p + (buf.hdr p).msglen)
  unfolding walk
  walk-next h e = ground arith

-- A loop whose body reads each message as `pick` does ends with what `first` finds.
pub walk-first :
    {A : Type 0} (hdr_size : ℕ) (size : ℕ → ℕ) (buf : Buffer) (body : ℕ → RtMsghdr → Option A)
    (pick : Message → Option A)
    → ((p : ℕ) (m : Message)
        → Packed size buf (p + hdr_size) m.hdr.addrs m.dst m.gateway
        → body p m.hdr ≡ pick m)
    → (ms : List Message) (n p : ℕ) → Holds hdr_size size buf p ms
    → buf.len - p < n
    → walk buf body n p ≡ ended (first pick ms)
walk-first h size buf body pick agree ms zero p holds fuel = absurd (omega arith)
walk-first h size buf body pick agree [] (suc n) p holds fuel = walk-end buf body n p (omega arith)
walk-first h size buf body pick agree (m ∷ ms) (suc n) p holds fuel = elim (Option-cases (pick m)) [
  | inl e ↦ next (walk-first h size buf body pick agree ms n (p + m.hdr.msglen) holds.4 step) e
  | inr (a, e) ↦ walk-stop buf body n p holds.2 (read ∙ e) ∙ sym (first-hit pick m ms e)
]
  where
    read : body p (buf.hdr p) ≡ pick m
    read = rw holds.0 (agree p m holds.3)

    step : buf.len - (p + m.hdr.msglen) < n
    step = omega (arith, holds.1)

    next :
        walk buf body n (p + m.hdr.msglen) ≡ ended (first pick ms)
        → pick m ≡ none
        → walk buf body (suc n) p ≡ ended (first pick (m ∷ ms))
    next rest e =
        walk-next buf body n p holds.2 (read ∙ e)
        ∙ ap (λ (r : RtMsghdr). walk buf body n (p + r.msglen)) holds.0
        ∙ rest
        ∙ sym (first-miss pick m ms e)

pub walk_dump :
    {A : Type 0} (hdr_size : ℕ) (size : ℕ → ℕ) (buf : Buffer) (body : ℕ → RtMsghdr → Option A)
    (pick : Message → Option A)
    → ((p : ℕ) (m : Message)
        → Packed size buf (p + hdr_size) m.hdr.addrs m.dst m.gateway
        → body p m.hdr ≡ pick m)
    → (ms : List Message) → Holds hdr_size size buf 0 ms
    → walk buf body (rounds buf) 0 ≡ ended (first pick ms)
walk_dump h size buf body pick agree ms holds =
    walk-first h size buf body pick agree ms (rounds buf) 0 holds (omega arith)

pub result-ended : {A : Type 0} (o : Option A) → result (ended o) ≡ o
result-ended none = refl
result-ended (some a) = refl
