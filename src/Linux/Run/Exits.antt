-- ===== src/Linux/Run/Exits.antt =====
-- The program as a whole (host/v4gwd.py `serve`, `main`) with RTA_VIA.
use v4_with_v6_nh.Common.{
  ℕ, ◌≡◌, refl, ap, ◌∙◌, Bool, true, false, not, ◌||◌, Option, none, some, List, [], ◌∷◌, arith,
  All, ◌⊎◌, Any, inl, inr, Bool-cases,
}
use v4_with_v6_nh.Common.Loop.{while_running-keeps, while_running-stops, while_running-stopped}
use v4_with_v6_nh.Linux.Routes.{Text}
use v4_with_v6_nh.Linux.Daemon.{Interface, Kernel, Config, Interface, kernel_has_rta_via}
use v4_with_v6_nh.Linux.Daemon.Laws.{IsRouting, Deletable}
use v4_with_v6_nh.Linux.Run.{
  Link, Args, Host, Process, is_running, Round, config_of, refresh, reconcile_all, serve, loop,
  begin, finish, run, main, wanted,
}
use v4_with_v6_nh.Linux.Run.Clear.{IsNaming}
use v4_with_v6_nh.Linux.Run.Clear.Leaves.{
  Known, AllKnown, IsTracked, add_names-IsTracked, reconciled-IsTracked, withdrawn-none,
}

-- A signal comes in the round.
abbrev pub Stops : {K : Type 0} → Round K → Type 0
Stops r = (r.stop_before || r.stop_during) ≡ true

module _ {K : Type 0} (kernel : Kernel K) (links : K → List Link) (args : Args) (c : Config) where
  serve-Stops :
      (r : Round K) (p : Process K) → Stops r → (serve kernel links args c r p).running ≡ false
  unfolding serve
  serve-Stops r p s = ground (arith, s)

  loop-Stops :
      {rs : List (Round K)} (p : Process K)
      → Any Stops rs
      → (loop kernel links args c rs p).running ≡ false
  unfolding loop
  loop-Stops p stops =
      while_running-stops is_running (serve kernel links args c) Stops serve-Stops p stops

  module _ (via : ℕ → K → Option Text) (laws : IsRouting kernel c via)
      (free : Deletable kernel c via) (index_of : Text → ℕ) (naming : IsNaming kernel via index_of)
      (native : c.static_arp ≡ false) where
    -- The rest of the system makes no route like the daemon's.
    abbrev pub IsGentle : Round K → Type 0
    IsGentle r = (os : K) (i : ℕ) → via i os ≡ none → via i (r.change os) ≡ none

    abbrev Tracked : Host K → Type 0
    Tracked h = IsTracked kernel c via laws free index_of naming native h

    changed_known :
        (os os' : K) (fs : List Interface)
        → ((i : ℕ) → via i os ≡ none → via i os' ≡ none)
        → AllKnown kernel c via laws free index_of naming native os fs
        → AllKnown kernel c via laws free index_of naming native os' fs
    unfolding AllKnown Known
    changed_known os os' [] gentle k = tt
    changed_known os os' (f ∷ fs) gentle k = (
      record {
        none_stray = λ e. gentle _ (k.0.none_stray e);
        no_mac = k.0.no_mac;
        indexed = k.0.indexed;
      },
      changed_known os os' fs gentle k.1,
    )

    changed-IsTracked :
        (r : Round K) (h : Host K)
        → IsGentle r
        → Tracked h
        → Tracked (record h { os = r.change h.os })
    changed-IsTracked r h gentle t = record {
      distinct = t.distinct;
      known = changed_known h.os (r.change h.os) h.ifaces (gentle h.os) t.known;
      fresh = λ n a. gentle h.os _ (t.fresh n a);
    }

    refreshed-IsTracked : (h : Host K) → Tracked h → Tracked (refresh kernel links args c h)
    unfolding refresh
    refreshed-IsTracked h t =
        add_names-IsTracked kernel c via laws free index_of naming native
          (wanted kernel links args c h.os) h t

    pass-IsTracked :
        (h : Host K)
        → Tracked h
        → Tracked (reconcile_all kernel links args c (refresh kernel links args c h))
    pass-IsTracked h t =
        reconciled-IsTracked kernel c via laws free index_of naming native _
          (refreshed-IsTracked h t)

    serve-IsTracked :
        (r : Round K) (p : Process K)
        → IsGentle r
        → Tracked p.host
        → Tracked (serve kernel links args c r p).host
    unfolding serve
    serve-IsTracked r p gentle t =
        let changed = changed-IsTracked r p.host gentle t in
        elim (Bool-cases r.stop_before) [
          | inl stop ↦ rw stop changed
          | inr on ↦ rw on (pass-IsTracked _ changed)
        ]

    begin-IsTracked :
        (early : Bool) (os : K)
        → ((i : ℕ) → via i os ≡ none)
        → Tracked (begin kernel links args c early os).host
    unfolding begin AllKnown
    begin-IsTracked early os bare =
        pass-IsTracked (record { ifaces = []; os = os })
          (record { distinct = tt; known = tt; fresh = λ n a. bare (index_of n) })

    loop-IsTracked :
        (rs : List (Round K)) (p : Process K)
        → All IsGentle rs
        → Tracked p.host
        → Tracked (loop kernel links args c rs p).host
    unfolding loop
    loop-IsTracked rs p gentle t =
        while_running-keeps is_running (serve kernel links args c) (λ q. Tracked q.host) IsGentle
          serve-IsTracked rs p gentle t

    finish-none :
        (p : Process K)
        → Tracked p.host
        → p.running ≡ false
        → let q = finish kernel links args c p in
          (q.running ≡ false) × ((n : Text) → via (index_of n) q.host.os ≡ none)
    unfolding finish
    finish-none p t off =
        rw off (refl, λ n. withdrawn-none kernel c via laws free index_of naming native p.host n t)

  ends :
      (early : Bool) (rs : List (Round K)) (os : K)
      → (early ≡ true) ⊎ Any Stops rs
      → (loop kernel links args c rs (begin kernel links args c early os)).running ≡ false
  unfolding begin loop
  ends early rs os (inl at_once) =
      ap is_running
        (while_running-stopped is_running (serve kernel links args c) rs _ (ap not at_once))
      ∙ ap not at_once
  ends early rs os (inr stops) = loop-Stops _ stops

module _ {K : Type 0} (kernel : Kernel K) (links : K → List Link) where
  -- With RTA_VIA: where the interfaces keep different indices and the kernel has no route of the
  -- daemon's at the start and refuses to delete one only where there is none, the rest of the system
  -- makes none, and a signal comes at some time, the program ends, and the kernel has no route of the
  -- daemon's at any interface, whether it has granted the messages that replace one or refused them.
  pub main_leaves_no_route :
      (args : Args) (env : Option Text) (release : Option (ℕ × ℕ)) (early : Bool)
      (rs : List (Round K)) (os : K) (via : ℕ → K → Option Text) (index_of : Text → ℕ)
      → let c = config_of args env release in
        (laws : IsRouting kernel c via)
        → (free : (i : ℕ) (s : K)
            → (kernel.del_route s (some i) c.metric).0 ≡ false
            → via i s ≡ none)
        → (naming : IsNaming kernel via index_of) → kernel_has_rta_via release ≡ true
        → ((i : ℕ) → via i os ≡ none)
        → All (λ r. (s : K) (i : ℕ) → via i s ≡ none → via i (r.change s) ≡ none) rs
        → (early ≡ true) ⊎ Any Stops rs
        → let p = main kernel links args env release early rs os in
          (p.running ≡ false) × ((n : Text) → via (index_of n) p.host.os ≡ none)
  unfolding main run
  main_leaves_no_route args env release early rs os via index_of laws free naming has_via bare
        gentle stops =
      let c = config_of args env release in
      let native = ap not has_via in
      let first =
        begin-IsTracked kernel links args c via laws free index_of naming native early os bare in
      let last =
        loop-IsTracked kernel links args c via laws free index_of naming native rs _ gentle first in
      let off = ends kernel links args c early rs os stops in
      finish-none kernel links args c via laws free index_of naming native _ last off
