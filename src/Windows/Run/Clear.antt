-- ===== src/Windows/Run/Clear.antt =====
-- Where there was no permanent neighbour entry for the gateway before (host/windows/v4gwd.c `run_worker`),
-- there is one only while the daemon counts it as installed, and none at its end.
use v4_with_v6_nh.Common.{
  ℕ, ◌≡◌, ◌≢◌, ◌⊎◌, refl, ◌∙◌, ap, true, false, ◌&&◌, Option, none, some, List, arith, inl, inr,
  Bool-cases, Option-cases, All, Any,
}
use v4_with_v6_nh.Mac.{Mac, mac_eq}
use v4_with_v6_nh.Common.Loop.{while_running-keeps}
use v4_with_v6_nh.Windows.Tables.{neighbor_present, fill_sentinel_row}
use v4_with_v6_nh.Windows.Daemon.{
  System, Config, World, Status, no_error, already_exists, other_error, find_luid, interface_mac,
  set_existing, program_entry, noted, install, withdraw, resolve, remember, reconcile, manage,
}
use v4_with_v6_nh.Windows.Daemon.Laws.{
  IsPinning, target, resolved, reconcile-manage, manage-resolved, manage-recalled, manage-none,
  target-resolved,
}
use v4_with_v6_nh.Windows.Daemon.Pins.{put-entry}
use v4_with_v6_nh.Windows.Run.{
  is_running, Process, by_stop, is_stop, Round, serve, loop, run_worker,
}
use v4_with_v6_nh.Windows.Run.Life.{run_worker-ends}

-- The interface stays, with one LUID, and the delete succeeds.
module _ {K : Type 0} (sys : System K) (c : Config) (entry : ℕ → K → Option Mac)
    (laws : IsPinning sys c entry) (luid : ℕ) (up : (os : K) → sys.has_index os luid ≡ true)
    (granted : (os : K) → (sys.delete_entry os (fill_sentinel_row luid none)).0 ≡ true) where
  -- The daemon has the LUID, and where it counts no entry as installed, there is none.
  record IsHeld (w : World K) : Type 0 where
    known : w.daemon.luid_valid ≡ true
    same_luid : w.daemon.luid ≡ luid
    clear : w.daemon.installed ≡ false → entry luid w.os ≡ none

  set_existing-none :
      (mac : Mac) (r : Status × K)
      → (r.0 ≢ no_error → entry luid r.1 ≡ none)
      → (set_existing sys c (fill_sentinel_row luid (some mac)) r).0 ≢ no_error
      → entry luid (set_existing sys c (fill_sentinel_row luid (some mac)) r).1 ≡ none
  set_existing-none mac (no_error, os) bare failed = absurd (failed refl)
  set_existing-none mac (already_exists, os) bare failed =
      laws.set_fails luid os mac failed ∙ bare (λ e. cc)
  set_existing-none mac (other_error, os) bare failed = bare (λ e. cc)

  program_entry-none :
      (mac : Mac) (os : K)
      → entry luid os ≡ none
      → (program_entry sys c luid mac os).0 ≢ no_error
      → entry luid (program_entry sys c luid mac os).1 ≡ none
  unfolding program_entry
  program_entry-none mac os bare failed =
      set_existing-none mac _
        (λ ne.
          laws.create_fails luid (sys.delete_entry os (fill_sentinel_row luid (some mac))).1 mac ne
          ∙ laws.delete_keeps luid os (some mac) bare)
        failed

  program_entry-same :
      (l : ℕ) (mac : Mac) (os : K)
      → l ≡ luid
      → entry luid os ≡ none
      → (program_entry sys c l mac os).0 ≢ no_error
      → entry luid (program_entry sys c l mac os).1 ≡ none
  program_entry-same l mac os same = rw same (program_entry-none mac os)

  noted-IsHeld :
      (mac : Mac) (w : World K) (r : Status × K)
      → IsHeld w
      → (entry luid w.os ≡ none → r.0 ≢ no_error → entry luid r.1 ≡ none)
      → IsHeld (noted sys c mac w.daemon r)
  noted-IsHeld mac w (no_error, os) h fails = record {
    known = h.known;
    same_luid = h.same_luid;
    clear = λ off. cc;
  }
  noted-IsHeld mac w (already_exists, os) h fails = record {
    known = h.known;
    same_luid = h.same_luid;
    clear = λ off. fails (h.clear off) (λ e. cc);
  }
  noted-IsHeld mac w (other_error, os) h fails = record {
    known = h.known;
    same_luid = h.same_luid;
    clear = λ off. fails (h.clear off) (λ e. cc);
  }

  install-IsHeld : (mac : Mac) (w : World K) → IsHeld w → IsHeld (install sys c mac w)
  unfolding install
  install-IsHeld mac w h =
      elim (Bool-cases (
        w.daemon.installed
        && (mac_eq w.daemon.installed_mac mac
            && neighbor_present w.daemon.luid mac (sys.net4 w.os)))) [
              | inl same ↦ rw same h
              | inr differs ↦
                  rw differs
                    (noted-IsHeld mac w _ h (program_entry-same w.daemon.luid mac w.os h.same_luid))
            ]

  withdraw-off : (w : World K) → (withdraw sys c w).daemon.installed ≡ false
  unfolding withdraw
  withdraw-off w = ground arith

  withdraw-idle : (w : World K) → w.daemon.installed ≡ false → withdraw sys c w ≡ w
  unfolding withdraw
  withdraw-idle w off = ground arith

  withdraw-deletes :
      (w : World K)
      → w.daemon.installed ≡ true
      → withdraw sys c w ≡ record {
        daemon = record (w.daemon) { installed = false };
        os = (sys.delete_entry w.os (fill_sentinel_row w.daemon.luid none)).1;
      }
  unfolding withdraw
  withdraw-deletes w on = ground arith

  deleted :
      (l : ℕ) (os : K)
      → l ≡ luid
      → entry luid (sys.delete_entry os (fill_sentinel_row l none)).1 ≡ none
  deleted l os same = rw same (laws.deletes luid os (granted os))

  withdraw-IsHeld : (w : World K) → IsHeld w → IsHeld (withdraw sys c w)
  withdraw-IsHeld w h = elim (Bool-cases w.daemon.installed) [
    | inl on ↦ rw (withdraw-deletes w on) (record {
      known = h.known;
      same_luid = h.same_luid;
      clear = λ off. deleted w.daemon.luid w.os h.same_luid;
    })
    | inr off ↦ rw (withdraw-idle w off) h
  ]

  remember-IsHeld :
      (host : Option Mac) (router : Mac) (w : World K)
      → IsHeld w
      → IsHeld (remember sys c host router w)
  remember-IsHeld none router w h = h
  remember-IsHeld (some host) router w h = record {
    known = h.known;
    same_luid = h.same_luid;
    clear = λ off. put-entry sys c entry laws luid host router w.os ∙ h.clear off;
  }

  manage-IsHeld : (w : World K) → IsHeld w → IsHeld (manage sys c luid w)
  manage-IsHeld w h = elim (Option-cases (target sys c luid w.os)) [
    | inl out ↦ rw (manage-none sys c luid w out) (withdraw-IsHeld w h)
    | inr (mac, e) ↦ elim (Option-cases (resolve sys c luid w.os)) [
      | inl unresolved ↦ rw (manage-recalled sys c luid w e unresolved) (install-IsHeld mac w h)
      | inr (other, hit) ↦
          let same = target-resolved sys c luid w.os e hit in
          rw (manage-resolved sys c luid w e (hit ∙ ap some same)) (
            remember-IsHeld (interface_mac sys c luid w.os) mac (install sys c mac w)
              (install-IsHeld mac w h))
    ]
  ]

  reconcile-IsHeld :
      (w : World K)
      → find_luid sys c w.daemon w.os ≡ some luid
      → (w.daemon.installed ≡ false → entry luid w.os ≡ none)
      → IsHeld (reconcile sys c w)
  reconcile-IsHeld w found clear = rw (reconcile-manage sys c w found (up w.os)) (
      manage-IsHeld (resolved sys c luid w)
        (record { known = refl; same_luid = refl; clear = clear }))

  -- What the rest of the system does in a round leaves the entry or removes it.
  abbrev pub IsGentle : Round K → Type 0
  IsGentle r =
      (os : K) → (entry luid (r.change os) ≡ entry luid os) ⊎ (entry luid (r.change os) ≡ none)

  moved :
      (r : Round K) (w : World K)
      → IsGentle r
      → IsHeld w
      → w.daemon.installed ≡ false
      → entry luid (r.change w.os) ≡ none
  moved r w gentle h off = elim (gentle w.os) [ inl same ↦ same ∙ h.clear off | inr gone ↦ gone ]

  still_found : (w : World K) (os : K) → IsHeld w → find_luid sys c w.daemon os ≡ some luid
  unfolding find_luid
  still_found w os h = ground (arith, h.known, h.same_luid)

  serve-IsHeld :
      (r : Round K) (p : Process K) → IsGentle r → IsHeld p.world → IsHeld (serve sys c r p).world
  unfolding serve
  serve-IsHeld r p gentle h =
      let w : World K = record (p.world) { os = r.change p.world.os } in
      let clear = moved r p.world gentle h in
      elim (Bool-cases (is_stop r.woken)) [
        | inl stop ↦ rw stop (record { known = h.known; same_luid = h.same_luid; clear = clear })
        | inr on ↦ rw on (reconcile-IsHeld w (still_found p.world w.os h) clear)
      ]

  loop-IsHeld :
      (rs : List (Round K)) (p : Process K)
      → All IsGentle rs
      → IsHeld p.world
      → IsHeld (loop sys c rs p).world
  unfolding loop
  loop-IsHeld rs p g h =
      while_running-keeps is_running (serve sys c) (λ q. IsHeld q.world) IsGentle serve-IsHeld rs p
        g h

  -- If there is no permanent entry at the start and the stop event is signalled, there is none at the end.
  pub run_worker-IsClear :
      (rs : List (Round K)) (w : World K)
      → All IsGentle rs
      → Any (λ r. r.woken ≡ by_stop) rs
      → find_luid sys c w.daemon w.os ≡ some luid
      → entry luid w.os ≡ none
      → entry luid (run_worker sys c rs w).world.os ≡ none
  unfolding run_worker
  run_worker-IsClear rs w g stops found bare =
      let p : Process K = record { world = reconcile sys c w; running = true } in
      let q = loop sys c rs p in
      let last =
        withdraw-IsHeld q.world (loop-IsHeld rs p g (reconcile-IsHeld w found (λ h. bare))) in
      let end = last.clear (withdraw-off q.world) in
      ground (arith, end, run_worker-ends sys c rs w stops)
