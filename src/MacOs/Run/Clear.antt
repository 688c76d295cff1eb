-- ===== src/MacOs/Run/Clear.antt =====
-- Where there was no permanent ARP entry for the gateway before (host/macos/v4gwd-arp.c `main`), there is
-- one only while the daemon counts it as installed, and none at its end.
use v4_with_v6_nh.Common.{
  ◌≡◌, ◌≢◌, ◌⊎◌, refl, sym, ◌∙◌, ap, Bool, true, false, ◌&&◌, Option, none, some, List, arith, inl,
  inr, Bool-cases, Option-cases, All, Any,
}
use v4_with_v6_nh.Mac.{Mac, mac_eq}
use v4_with_v6_nh.Common.Loop.{while_running-keeps}
use v4_with_v6_nh.MacOs.Daemon.{
  run_command, System, Config, State, World, withdraw_argv, is_present, noted, install, withdraw,
  resolve, remember, reconcile,
}
use v4_with_v6_nh.MacOs.Daemon.Laws.{
  IsPinning, target, own_mac, refreshed, reconcile-resolved, reconcile-recalled, target-resolved,
  reconcile-none,
}
use v4_with_v6_nh.MacOs.Daemon.Pins.{remember-entry}
use v4_with_v6_nh.MacOs.Run.{is_running, Process, Round, arrive, serve, loop, run}
use v4_with_v6_nh.MacOs.Run.Life.{run-stops}

-- The interface stays, and `arp -d` succeeds.
module _ {K : Type 0} (sys : System K) (c : Config) (entry : K → Option Mac)
    (laws : IsPinning sys c entry) (up : (os : K) → sys.if_nametoindex os ≢ 0)
    (granted : (os : K) → (run_command sys os (withdraw_argv c)).0 ≡ true) where
  -- Where the daemon counts no entry as installed, there is none.
  abbrev IsClear : World K → Type 0
  IsClear w = w.daemon.arp_installed ≡ false → entry w.os ≡ none

  noted-IsClear :
      (mac : Mac) (w : World K) (r : Bool × K)
      → (r.0 ≡ false → entry r.1 ≡ entry w.os)
      → IsClear w
      → IsClear (noted sys c mac w.daemon r)
  noted-IsClear mac w (true, os) fails clear off = cc
  noted-IsClear mac w (false, os) fails clear off = fails refl ∙ clear off

  install-IsClear : (mac : Mac) (w : World K) → IsClear w → IsClear (install sys c mac w)
  unfolding install
  install-IsClear mac w clear =
      elim (Bool-cases (
        w.daemon.arp_installed
        && (mac_eq w.daemon.installed_mac mac && is_present sys c w.daemon.ifindex mac w.os))) [
          | inl same ↦ rw same clear
          | inr differs ↦ rw differs (noted-IsClear mac w _ (laws.fails w.os mac) clear)
        ]

  withdraw-IsClear : (w : World K) → IsClear w → IsClear (withdraw sys c w)
  unfolding withdraw
  withdraw-IsClear w clear = elim (Bool-cases w.daemon.arp_installed) [
    | inl on ↦ rw on (λ h. laws.deletes w.os (granted w.os))
    | inr off ↦ rw off (λ h. clear off)
  ]

  withdraw-off : (w : World K) → (withdraw sys c w).daemon.arp_installed ≡ false
  unfolding withdraw
  withdraw-off w = ground arith

  remember-IsClear :
      (host : Option Mac) (router : Mac) (w : World K)
      → IsClear w
      → IsClear (remember sys c host router w)
  remember-IsClear host router w clear off =
      let (same_entry, same) = remember-entry sys c entry laws host router w in
      same_entry ∙ clear (ap (λ (s : State). s.arp_installed) (sym same) ∙ off)

  reconcile-IsClear : (w : World K) → IsClear w → IsClear (reconcile sys c w)
  reconcile-IsClear w clear = elim (Option-cases (target sys c w.os)) [
    | inl out ↦
        rw (reconcile-none sys c w (up w.os) out) (withdraw-IsClear (refreshed sys c w) clear)
    | inr (mac, e) ↦ elim (Option-cases (resolve sys c (sys.if_nametoindex w.os) w.os)) [
      | inl unresolved ↦
          rw (reconcile-recalled sys c w e unresolved)
            (install-IsClear mac (refreshed sys c w) clear)
      | inr (other, found) ↦
          let same = target-resolved sys c w.os e found in
          rw (reconcile-resolved sys c w e (found ∙ ap some same)) (
            remember-IsClear (own_mac sys c w.os) mac (install sys c mac (refreshed sys c w))
              (install-IsClear mac (refreshed sys c w) clear))
    ]
  ]

  -- What the rest of the system does in a round leaves the entry or removes it.
  abbrev pub IsGentle : Round K → Type 0
  IsGentle r = (os : K) → (entry (r.change os) ≡ entry os) ⊎ (entry (r.change os) ≡ none)

  arrive-IsClear :
      (r : Round K) (p : Process K)
      → IsGentle r
      → IsClear p.world
      → IsClear (arrive sys c r p).world
  unfolding arrive
  arrive-IsClear r p gentle clear = elim (Bool-cases r.signalled) [
    | inl stop ↦ rw stop moved
    | inr quiet ↦ rw quiet moved
  ]
    where
      moved : p.world.daemon.arp_installed ≡ false → entry (r.change p.world.os) ≡ none
      moved off = elim (gentle p.world.os) [ inl same ↦ same ∙ clear off | inr gone ↦ gone ]

  serve-IsClear :
      (r : Round K) (p : Process K) → IsGentle r → IsClear p.world → IsClear (serve sys c r p).world
  unfolding serve
  serve-IsClear r p gentle clear =
      reconcile-IsClear (arrive sys c r p).world (arrive-IsClear r p gentle clear)

  loop-IsClear :
      (rs : List (Round K)) (p : Process K)
      → All IsGentle rs
      → IsClear p.world
      → IsClear (loop sys c rs p).world
  unfolding loop
  loop-IsClear rs p g clear =
      while_running-keeps is_running (serve sys c) (λ q. IsClear q.world) IsGentle serve-IsClear rs
        p g clear

  -- If there is no permanent entry at the start and a SIGINT or SIGTERM comes, there is none at the end.
  pub run-IsClear :
      (rs : List (Round K)) (w : World K)
      → All IsGentle rs
      → Any (λ r. r.signalled ≡ true) rs
      → entry w.os ≡ none
      → entry (run sys c rs w).world.os ≡ none
  unfolding run
  run-IsClear rs w g stops bare =
      let p : Process K = record { world = reconcile sys c w; running = true } in
      let q = loop sys c rs p in
      let last = loop-IsClear rs p g (reconcile-IsClear w (λ h. bare)) in
      let end = withdraw-IsClear q.world last (withdraw-off q.world) in
      ground (arith, end, run-stops sys c rs w stops)
