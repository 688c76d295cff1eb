-- ===== src/FreeBsd/Tests/Runs.antt =====
-- The theorems on the daemon's operations and its loop, at the small kernel of `Kernels`.
use v4_with_v6_nh.Common.{
  ◌≡◌, ◌≢◌, refl, true, false, none, some, List, [], ◌∷◌, ◌++◌, here, there, inl, inr, arith, ◌≤◌,
  ◌<◌,
}
use v4_with_v6_nh.Common.Int.{pos}
use v4_with_v6_nh.Common.Text.{codes}
use v4_with_v6_nh.Common.Text.Numbers.{atoi}
use v4_with_v6_nh.Inet6.{Addr}
use v4_with_v6_nh.Rtsock.{Sockaddr, fetch, walk}
use v4_with_v6_nh.FreeBsd.Select.{consider, select_router}
use v4_with_v6_nh.Common.Text.{memcmp_ge}
use v4_with_v6_nh.FreeBsd.Route.{RouteMsg, fill_gateway}
use v4_with_v6_nh.FreeBsd.Tables.{sentinel_in_fib}
use v4_with_v6_nh.FreeBsd.Daemon.{
  Errno, Kernel, Config, World, sentinel_in_file, next_hop, withdraw, reconcile,
}
use v4_with_v6_nh.FreeBsd.Daemon.Laws.{IsRouting, target, IsSynced}
use v4_with_v6_nh.FreeBsd.Daemon.Converge.{reconcile_leads, reconcile_ceases}
use v4_with_v6_nh.FreeBsd.Daemon.Flaws.{withdraw_forgets}
use v4_with_v6_nh.FreeBsd.Run.{opt_i, Options, parse_args, Signal, sighup, sigterm, Round, run}
use v4_with_v6_nh.FreeBsd.Run.{kernel_supports_rfc5549}
use v4_with_v6_nh.FreeBsd.Program.{Platform, main}
use v4_with_v6_nh.FreeBsd.Program.Exits.{IsStarting, main_leaves_none}
use v4_with_v6_nh.FreeBsd.Run.Life.{after_loop}
use v4_with_v6_nh.FreeBsd.Run.Tracks.{after_loop_leads}
use v4_with_v6_nh.FreeBsd.Run.{loop, serve}
use v4_with_v6_nh.Common.{Option, length, sym, ap, ◌∙◌}
use v4_with_v6_nh.FreeBsd.Run.Steady.{run-IsSynced}
use v4_with_v6_nh.FreeBsd.Run.RequireRoute.{reconcile_twice_ceases}
use v4_with_v6_nh.FreeBsd.Tests.Kernels.{
  Fib, empty, dhcp, via, router_a, small_kernel, route_of, has_default, small_kernel-IsRouting,
  small_kernel-IsWorking,
}

abbrev plain : Config
plain = record { require_sentinel_route = false; use_sentinel_file = false }

abbrev with_r : Config
with_r = record { require_sentinel_route = true; use_sentinel_file = false }

abbrev with_f : Config
with_f = record { require_sentinel_route = false; use_sentinel_file = true }

-- The daemon has just started.
abbrev fresh : Fib → World Fib
fresh os = record {
  daemon = record { ifindex = 0; rtseq = 1; route_installed = false; installed_gw = [] };
  os = os;
}

-- The daemon has installed a route through this router.
abbrev settled : Addr → World Fib
settled gw = record {
  daemon = record { ifindex = 3; rtseq = 2; route_installed = true; installed_gw = gw };
  os = via (fill_gateway 3 gw);
}

abbrev round_of : List Signal → Round Fib
round_of signals = record {
  change = λ os. os;
  signals = signals;
  ready = true;
  nread = pos 152;
  rtm_pid = 5;
}

abbrev two_rounds : List (Round Fib)
two_rounds = round_of (sighup ∷ []) ∷ round_of [] ∷ []

abbrev last_rounds : List (Round Fib)
last_rounds = round_of [] ∷ round_of (sigterm ∷ []) ∷ []

keeps_index :
    (os : Fib) (m : RouteMsg)
    → small_kernel.if_nametoindex (small_kernel.write os m).1 ≡ small_kernel.if_nametoindex os
keeps_index os m = refl

-- From the default route of DHCP the loop goes to the lowest router of the interface.
target-plain : (os : Fib) → target small_kernel plain os ≡ some router_a
unfolding target next_hop select_router consider memcmp_ge
target-plain os = refl

target-with_r : target small_kernel with_r dhcp ≡ some router_a
unfolding target sentinel_in_fib fetch walk next_hop select_router consider memcmp_ge
target-with_r = refl

target-with_f : (os : Fib) → target small_kernel with_f os ≡ none
unfolding target sentinel_in_file
target-with_f os = refl

run-IsSynced_example :
    IsSynced small_kernel route_of (run small_kernel plain two_rounds (fresh dhcp)).world
run-IsSynced_example =
    run-IsSynced small_kernel route_of small_kernel-IsRouting keeps_index plain two_rounds
      (fresh dhcp) (λ os. (refl, refl), (λ os. (refl, refl), tt)) refl

-- The daemon takes over the default route that DHCP has installed.
reconcile_leads_example :
    let w' = reconcile small_kernel plain (fresh dhcp) in
    (route_of w'.os ≡ some (fill_gateway 3 router_a))
    × (w'.daemon.route_installed ≡ true)
    × (w'.daemon.installed_gw ≡ router_a)
reconcile_leads_example =
    reconcile_leads small_kernel route_of small_kernel-IsRouting has_default small_kernel-IsWorking
      plain (fresh dhcp) router_a (record { agrees = λ h. cc }) (inl refl) (λ h. cc)
      (target-plain dhcp)

reconcile_ceases_example :
    let w' = reconcile small_kernel with_f (settled router_a) in
    (w'.daemon.route_installed ≡ false)
    × ((settled router_a).daemon.route_installed ≡ true
        → route_of w'.os ≢ some (fill_gateway 3 router_a))
    × ((settled router_a).daemon.route_installed ≡ false → w'.os ≡ via (fill_gateway 3 router_a))
reconcile_ceases_example =
    reconcile_ceases small_kernel route_of small_kernel-IsRouting has_default small_kernel-IsWorking
      with_f (settled router_a) (inr refl) (λ h. omega arith) (target-with_f (settled router_a).os)

no_sentinel_via :
    (os : Fib) (g : Sockaddr)
    → route_of os ≡ some g
    → sentinel_in_fib small_kernel.abi (small_kernel.fib4 os) ≡ false
unfolding sentinel_in_fib fetch
no_sentinel_via empty g e = cc
no_sentinel_via dhcp g e = cc
no_sentinel_via (via x) g e = refl

reconcile_twice_ceases_example :
    let w1 = reconcile small_kernel with_r (fresh dhcp) in
    let w2 = reconcile small_kernel with_r w1 in
    (w1.daemon.route_installed ≡ true)
    × (w2.daemon.route_installed ≡ false)
    × (route_of w2.os ≢ some (fill_gateway 3 router_a))
reconcile_twice_ceases_example =
    reconcile_twice_ceases small_kernel route_of small_kernel-IsRouting has_default
      small_kernel-IsWorking keeps_index no_sentinel_via with_r (fresh dhcp) refl
      (record { agrees = λ h. cc }) (inl refl) (λ h. cc) target-with_r

-- Something else has removed the route that the daemon has installed.
abbrev flushed : World Fib
flushed = record (settled router_a) { os = empty }

-- A kernel that refuses every message.
abbrev refusing_kernel : Kernel Fib
refusing_kernel = record small_kernel { write = λ os m. (some Errno.other, os) }

refusing_kernel-IsRouting : IsRouting refusing_kernel route_of
refusing_kernel-IsRouting = record {
  fails = λ os m h. refl;
  sets = λ os m h e. cc;
  deletes = λ os m h e. cc;
  missing = λ os m h e. cc;
}

withdraw_forgets_example :
    (route_of (withdraw refusing_kernel (settled router_a)).os ≡ some (fill_gateway 3 router_a))
    × (withdraw refusing_kernel (withdraw refusing_kernel (settled router_a))
        ≡ withdraw refusing_kernel (settled router_a))
withdraw_forgets_example =
    withdraw_forgets refusing_kernel route_of refusing_kernel-IsRouting (settled router_a)
      (λ m e. cc)

-- v4gwd -i 30 em0
abbrev thirty_seconds : Options
thirty_seconds = record { require_sentinel_route = false; sentinel_file = none; interval = pos 30 }

thirty_parsed :
    parse_args (opt_i (codes "30") ∷ []) (codes "em0" ∷ []) ≡ some (codes "em0", thirty_seconds)
unfolding parse_args atoi
thirty_parsed = refl

abbrev small_platform : Platform Fib
small_platform = record {
  kernel = λ ifname file. small_kernel;
  rfc5549_support = λ os. none;
  opens_socket = true;
}

small-IsStarting :
    IsStarting small_platform
      (opt_i (codes "30") ∷ [])
      (codes "em0" ∷ [])
      empty
      (codes "em0")
      thirty_seconds
unfolding kernel_supports_rfc5549
small-IsStarting = record {
  parsed = thirty_parsed;
  present = λ e. omega arith;
  supported = refl;
  opened = refl;
}

-- SIGTERM comes in the second round.
main_leaves_none_example :
    let out = main small_platform (opt_i (codes "30") ∷ []) (codes "em0" ∷ []) last_rounds empty in
    (out.status ≡ some 0) × (route_of out.os ≡ none)
main_leaves_none_example =
    main_leaves_none small_platform (opt_i (codes "30") ∷ []) (codes "em0" ∷ []) last_rounds empty
      (codes "em0") thirty_seconds route_of has_default small_kernel-IsRouting keeps_index
      small_kernel-IsWorking small-IsStarting (λ os. (refl, refl), (λ os. (refl, refl), tt))
      (there (here (here (λ e. cc)))) refl

sixteen_bytes : (os : Fib) (gw : Addr) → target small_kernel plain os ≡ some gw → length gw ≡ 16
sixteen_bytes os gw e =
    let same : some router_a ≡ some gw = sym (target-plain os) ∙ e in
    sym (ap (λ (o : Option Addr). elim o [ none ↦ 16 | some a ↦ length a ]) same)

still_running : (after_loop small_kernel plain (round_of [] ∷ []) (fresh dhcp)).running ≡ true
unfolding loop serve v4_with_v6_nh.Common.Loop.while_running
still_running = refl

after_loop_leads_example :
    let w' = (after_loop small_kernel plain (round_of [] ∷ round_of [] ∷ []) (fresh dhcp)).world in
    (route_of w'.os ≡ some (fill_gateway 3 router_a))
    × (w'.daemon.route_installed ≡ true)
    × (w'.daemon.installed_gw ≡ router_a)
after_loop_leads_example =
    after_loop_leads small_kernel route_of small_kernel-IsRouting plain sixteen_bytes keeps_index
      has_default small_kernel-IsWorking (round_of [] ∷ []) (round_of []) (fresh dhcp) router_a
      (λ os. (refl, refl), tt) (λ os. (refl, refl)) refl still_running refl (target-plain _)
