-- ===== src/Linux/Tests/Programs.antt =====
-- The theorems on the static neighbour and on `main` (host/v4gwd.py) at the small system.
use v4_with_v6_nh.Common.{◌≡◌, refl, true, false, none, some, List, [], ◌∷◌, here, there, inr}
use v4_with_v6_nh.Linux.Routes.{Text}
use v4_with_v6_nh.Linux.Daemon.{kernel_has_rta_via}
use v4_with_v6_nh.Linux.Run.{Link, Args, default_metric, Round, config_of, main}
use v4_with_v6_nh.Linux.Run.Exits.{main_leaves_no_route}
use v4_with_v6_nh.Linux.Tests.{
  index_of, Machine, eth0, small_kernel, via, small_kernel-IsRouting, small_kernel-IsNaming, empty,
}

-- v4gwd.py eth0, which is stopped after another program has flushed the neighbours.
abbrev some_args : Args
some_args = record { interfaces = eth0 ∷ []; unconditional = false; metric = default_metric }

abbrev no_links : Machine → List Link
no_links m = []

abbrev some_rounds : List (Round Machine)
some_rounds =
    record { change = λ m. record m { pins = λ i. none }; stop_before = false; stop_during = false }
    ∷ record { change = λ m. m; stop_before = false; stop_during = true }
    ∷ []

main_leaves_no_route_example :
    let p = main small_kernel no_links some_args none (some (6, 1)) false some_rounds empty in
    (p.running ≡ false) × ((n : Text) → via (index_of n) p.host.os ≡ none)
unfolding kernel_has_rta_via
main_leaves_no_route_example =
    main_leaves_no_route small_kernel no_links some_args none (some (6, 1)) false some_rounds empty
      via index_of (small_kernel-IsRouting (config_of some_args none (some (6, 1)))) (λ i m h. cc)
      small_kernel-IsNaming refl (λ i. refl) ((λ s i e. e), ((λ s i e. e), tt))
      (inr (there (here refl)))
