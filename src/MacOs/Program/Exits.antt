-- ===== src/MacOs/Program/Exits.antt =====
-- How `main` of host/macos/v4gwd-arp.c ends.
use v4_with_v6_nh.Mac.{Mac}
use v4_with_v6_nh.MacOs.Daemon.{run_command, withdraw_argv}
use v4_with_v6_nh.MacOs.Daemon.Laws.{IsPinning}
use v4_with_v6_nh.MacOs.Run.Clear.{IsGentle, run-IsClear}
use v4_with_v6_nh.Common.{
  All, Option, ℕ, ◌≡◌, ◌≢◌, true, false, none, some, List, arith, Any, Option-cases, inl, inr,
}
use v4_with_v6_nh.MacOs.Run.{Opt, Options, gateway_of, parse_args, Round, run}
use v4_with_v6_nh.MacOs.Run.Life.{run-stops}
use v4_with_v6_nh.MacOs.Program.{Platform, config_of, first_world, outcome_of, start, main}

module _ {K : Type 0} (plat : Platform K) where
  -- The gateway's text is an address and the command line is accepted.
  pub record IsAccepted (opts : List Opt) (operands : List (List ℕ)) (gateway : List ℕ × ℕ)
      (ifname : List ℕ) (o : Options) : Type 0 where
    pub chosen : gateway_of plat.inet_aton plat.gateway_value ≡ some gateway
    pub parsed : parse_args opts operands ≡ some (ifname, o)

  main-IsAccepted :
      {opts : List Opt} {operands : List (List ℕ)} {gateway : List ℕ × ℕ} {ifname : List ℕ}
      {o : Options} (rs : List (Round K)) (os : K)
      → IsAccepted opts operands gateway ifname o
      → main plat opts operands rs os ≡ start plat gateway ifname o rs os
  unfolding main
  main-IsAccepted rs os a = ground (arith, a.chosen, a.parsed)

  start-run :
      (gateway : List ℕ × ℕ) (ifname : List ℕ) (o : Options) (rs : List (Round K)) (os : K)
      → o.dry_run ≡ false
      → plat.opens_socket ≡ true
      → let sys = plat.system ifname o.sentinel_file in
        start plat gateway ifname o rs os
        ≡ outcome_of
            (run sys (config_of ifname gateway o) rs (first_world (sys.if_nametoindex os) os))
  unfolding start
  start-run gateway ifname o rs os wet opened = ground (arith, wet, opened)

  start-lem :
      (gateway : List ℕ × ℕ) (ifname : List ℕ) (o : Options) (rs : List (Round K)) (os : K)
      → let out = start plat gateway ifname o rs os in
        (out.status ≢ some 0 → out.status ≢ none → out.os ≡ os)
        × (o.dry_run ≡ true → (out.status ≢ none) × (out.os ≡ os))
        × (o.dry_run ≡ false
            → plat.opens_socket ≡ true
            → Any (λ r. r.signalled ≡ true) rs
            → out.status ≡ some 0)
  unfolding start
  start-lem gateway ifname o rs os = (
    λ e f. ground (arith, e, f),
    λ dry. ground (arith, dry),
    λ wet opened stops. ground (arith, wet, opened, stopped stops),
  )
    where
      stopped :
          Any (λ r. r.signalled ≡ true) rs
          → (run
              (plat.system ifname o.sentinel_file)
              (config_of ifname gateway o)
              rs
              (first_world ((plat.system ifname o.sentinel_file).if_nametoindex os) os)).running
            ≡ false
      stopped stops =
          let sys = plat.system ifname o.sentinel_file in
          run-stops sys (config_of ifname gateway o) rs (first_world (sys.if_nametoindex os) os)
            stops

  -- `main` ends with a failure only with the system untouched; a dry run ends and leaves the system
  -- untouched; and a command line without `-n` that is accepted, with a gateway that is an address and a
  -- routing socket, ends with 0 once a SIGINT or SIGTERM comes, whether the interface is there or not.
  pub main_ends :
      (opts : List Opt) (operands : List (List ℕ)) (rs : List (Round K)) (os : K)
      → let out = main plat opts operands rs os in
        (out.status ≢ some 0 → out.status ≢ none → out.os ≡ os)
        × ((gateway : List ℕ × ℕ) (ifname : List ℕ) (o : Options)
            → IsAccepted opts operands gateway ifname o
            → o.dry_run ≡ true
            → (out.status ≢ none) × (out.os ≡ os))
        × ((gateway : List ℕ × ℕ) (ifname : List ℕ) (o : Options)
            → IsAccepted opts operands gateway ifname o
            → o.dry_run ≡ false
            → plat.opens_socket ≡ true
            → Any (λ r. r.signalled ≡ true) rs
            → out.status ≡ some 0)
  unfolding main
  main_ends opts operands rs os = (
    λ e f. elim (Option-cases (gateway_of plat.inet_aton plat.gateway_value)) [
      | inl invalid ↦ ground (arith, invalid)
      | inr (gateway, chosen) ↦ elim (Option-cases (parse_args opts operands)) [
        | inl refused ↦ ground (arith, chosen, refused)
        | inr ((ifname, o), parsed) ↦
            let step = main-IsAccepted rs os (record { chosen = chosen; parsed = parsed }) in
            ground (arith, e, f, step, (start-lem gateway ifname o rs os).0)
      ]
    ],
    λ gateway ifname o a dry.
        rw (main-IsAccepted rs os a) ((start-lem gateway ifname o rs os).1 dry),
    λ gateway ifname o a wet opened stops.
        rw (main-IsAccepted rs os a) ((start-lem gateway ifname o rs os).2 wet opened stops),
  )

  -- The program as a whole leaves no entry behind: where there is no permanent entry for the gateway at the
  -- start, the interface stays, `arp -d` succeeds, the rest of the system leaves the entry or removes it,
  -- the text of the gateway is an address, the command line is accepted without `-n`, the socket opens and
  -- a SIGINT or SIGTERM comes, it exits with 0 and there is no such entry.
  pub main_leaves_unpinned :
      (opts : List Opt) (operands : List (List ℕ)) (rs : List (Round K)) (os : K)
      (gateway : List ℕ × ℕ) (ifname : List ℕ) (o : Options) (entry : K → Option Mac)
      → let sys = plat.system ifname o.sentinel_file in
        let c = config_of ifname gateway o in
        (laws : IsPinning sys c entry)
        → (up : (os : K) → sys.if_nametoindex os ≢ 0)
        → (granted : (os : K) → (run_command sys os (withdraw_argv c)).0 ≡ true)
        → IsAccepted opts operands gateway ifname o
        → o.dry_run ≡ false
        → plat.opens_socket ≡ true
        → All (IsGentle sys c entry laws up granted) rs
        → Any (λ r. r.signalled ≡ true) rs
        → entry os ≡ none
        → let out = main plat opts operands rs os in (out.status ≡ some 0) × (entry out.os ≡ none)
  main_leaves_unpinned opts operands rs os gateway ifname o entry laws up granted a wet opened
        gentle stops bare =
      let sys = plat.system ifname o.sentinel_file in
      let w = first_world (sys.if_nametoindex os) os in
      let left =
        run-IsClear sys (config_of ifname gateway o) entry laws up granted rs w gentle stops bare in
      (
        (main_ends opts operands rs os).2 gateway ifname o a wet opened stops,
        rw (main-IsAccepted rs os a, start-run gateway ifname o rs os wet opened) left,
      )
