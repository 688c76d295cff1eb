-- ===== src/FreeBsd/Program/Exits.antt =====
-- How `main` of host/freebsd/v4gwd.c ends.
use v4_with_v6_nh.Common.{
  ℕ, ◌≡◌, ◌≢◌, refl, ◌∙◌, ap, Bool, true, false, Option, none, some, List, arith, All, Any,
  Option-cases, inl, inr,
}
use v4_with_v6_nh.Common.Outcome.{Outcome}
use v4_with_v6_nh.FreeBsd.Run.{
  Opt, Options, parse_args, kernel_supports_rfc5549, Process, Round, run,
}
use v4_with_v6_nh.FreeBsd.Run.Life.{Stops, run-Stops}
use v4_with_v6_nh.FreeBsd.Run.Steady.{IsGentle}
use v4_with_v6_nh.FreeBsd.Run.Clear.{run-IsClear}
use v4_with_v6_nh.Rtsock.{Sockaddr}
use v4_with_v6_nh.FreeBsd.Route.{RouteMsg}
use v4_with_v6_nh.FreeBsd.Daemon.Laws.{IsRouting, IsWorking}
use v4_with_v6_nh.FreeBsd.Program.{Platform, config_of, first_world, outcome_of, start, main}

module _ {K : Type 0} (plat : Platform K) where
  -- The command line is accepted, the interface is there, the kernel supports RFC 5549 as far as it
  -- says, and there is a routing socket.
  pub record IsStarting (opts : List Opt) (operands : List (List ℕ)) (os : K) (ifname : List ℕ)
      (o : Options) : Type 0 where
    pub parsed : parse_args opts operands ≡ some (ifname, o)
    pub present : (plat.kernel ifname o.sentinel_file).if_nametoindex os ≢ 0
    pub supported : kernel_supports_rfc5549 (plat.rfc5549_support os) ≡ true
    pub opened : plat.opens_socket ≡ true

  abbrev pub running_from : List ℕ → Options → List (Round K) → K → Process K
  running_from ifname o rs os =
      let k = plat.kernel ifname o.sentinel_file in
      run k (config_of o) rs (first_world (k.if_nametoindex os) os)

  pub main-IsStarting :
      {opts : List Opt} {operands : List (List ℕ)} {os : K} {ifname : List ℕ} {o : Options}
      (rs : List (Round K))
      → IsStarting opts operands os ifname o
      → main plat opts operands rs os ≡ outcome_of (running_from ifname o rs os)
  unfolding main start
  main-IsStarting rs s = ground (arith, s.parsed, s.present, s.supported, s.opened)

  start-one :
      (ifname : List ℕ) (o : Options) (rs : List (Round K)) (os : K)
      → (start plat ifname o rs os).status ≡ some 1
      → (start plat ifname o rs os).os ≡ os
  unfolding start
  start-one ifname o rs os e = ground arith

  -- `main` exits with 1 only with the system untouched; and where the command line is accepted, the
  -- interface is there, the kernel has the support and the socket opens, it exits with 0 once a SIGINT or
  -- SIGTERM comes.
  pub main_exits :
      (opts : List Opt) (operands : List (List ℕ)) (rs : List (Round K)) (os : K)
      → let out = main plat opts operands rs os in
        (out.status ≡ some 1 → out.os ≡ os)
        × ((ifname : List ℕ) (o : Options)
            → IsStarting opts operands os ifname o
            → Any Stops rs
            → out.status ≡ some 0)
  unfolding main
  main_exits opts operands rs os = (
    λ e. elim (Option-cases (parse_args opts operands)) [
      | inl refused ↦ ground (arith, refused)
      | inr ((ifname, o), parsed) ↦ ground (arith, e, parsed, start-one ifname o rs os)
    ],
    λ ifname o s stops.
        ap (λ (x : Outcome K). x.status) (main-IsStarting rs s) ∙ rw (stopped ifname o stops) refl,
  )
    where
      stopped :
          (ifname : List ℕ) (o : Options)
          → Any Stops rs
          → (running_from ifname o rs os).running ≡ false
      stopped ifname o stops =
          let k = plat.kernel ifname o.sentinel_file in
          run-Stops k (config_of o) rs (first_world (k.if_nametoindex os) os) stops

  -- The program as a whole leaves no route behind: where there is no IPv4 default route through an IPv6
  -- router at the start, the kernel grants its messages, the rest of the system leaves the route and the
  -- interface alone, the checks of `main` pass and a SIGINT or SIGTERM comes, it exits with 0 and there is
  -- no such route.
  pub main_leaves_none :
      (opts : List Opt) (operands : List (List ℕ)) (rs : List (Round K)) (os : K) (ifname : List ℕ)
      (o : Options) (route : K → Option Sockaddr) (has_default : K → Bool)
      → let k = plat.kernel ifname o.sentinel_file in
        (laws : IsRouting k route)
        → (keeps : (os : K) (m : RouteMsg)
            → k.if_nametoindex (k.write os m).1 ≡ k.if_nametoindex os)
        → IsWorking k route has_default
        → IsStarting opts operands os ifname o
        → All (IsGentle k route laws keeps (config_of o)) rs
        → Any Stops rs
        → route os ≡ none
        → let out = main plat opts operands rs os in (out.status ≡ some 0) × (route out.os ≡ none)
  main_leaves_none opts operands rs os ifname o route has_default laws keeps works s gentle stops
        bare =
      let k = plat.kernel ifname o.sentinel_file in
      let w = first_world (k.if_nametoindex os) os in
      let left =
        run-IsClear k route laws keeps has_default works (config_of o) rs w gentle stops s.present
          refl bare in
      ((main_exits opts operands rs os).1 ifname o s stops, rw (main-IsStarting rs s) left)
