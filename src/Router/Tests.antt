-- ===== src/Router/Tests.antt =====
-- A small router with one interface, and the theorems on
-- router/debian/usr/local/sbin/v4gwrd.py at it.
use mathlib.Core.Path.{subst}
use v4_with_v6_nh.Common.{
  ◌≡◌, ◌≢◌, refl, Bool, true, false, Option, none, some, List, [], ◌∷◌, if◌then◌else◌, arith, inr,
}
use v4_with_v6_nh.Common.Text.{codes, strcmp_eq, starts_with}
use v4_with_v6_nh.Common.Text.Laws.{strcmp_eq_refl, strcmp_eq-ne}
use v4_with_v6_nh.Common.Loop.{while_running}
use v4_with_v6_nh.Router.Hosts
use v4_with_v6_nh.Router.Hosts.{Text, Host, Entry, get}
use v4_with_v6_nh.Router.Hosts.Laws.{Holds}
use v4_with_v6_nh.Router.NextHop.{
  Library, Neighbor, Cached, is_usable, set_state, is_global_or_ula, prefix, note, collect,
  cache_of, other_nexthop, nexthop, derived,
}
use v4_with_v6_nh.Router.NextHop.Highest.{IsHighest, nexthop-IsHighest}
use v4_with_v6_nh.Router.Manager.{
  Kernel, Manager, install, persist, probe, settle, evaluate_host, evaluate, evaluate_all,
  reconcile_all, enter_lease, on_lease,
}
use v4_with_v6_nh.Router.Manager.Stray.{IsRouting}
use v4_with_v6_nh.Router.Manager.Follow.{chosen, evaluate_follows, evaluate_notes_refusal}
use v4_with_v6_nh.Router.Manager.Entered.{HasLease, on_lease_enters}
use v4_with_v6_nh.Router.Fifo.{
  is_space, split_words, handle_fields, handle_words, handle_line, Reader, drain, feed, feed_all,
}
use v4_with_v6_nh.Router.Fifo.Chunks.{concat, feed_all_any_chunks}
use v4_with_v6_nh.Router.Serve.{
  Round, of_fifo, restore, handle_event, handle_events, handle_poll, serve, start, main,
}
use v4_with_v6_nh.Router.Serve.Leases.{main-IsLeased}

-- The next hops by address.
record Machine : Type 0 where
  vias : Text → Option Text

abbrev small_library : Library
small_library = record {
  first_byte = λ a. if starts_with (codes "fe80") a then 254 else 32;
  network = λ a. 0;
  show = λ n. codes "2001:db8::1";
  hex = λ x. none;
  lower = λ t. t;
  decode = λ t. t;
}

abbrev host_mac : Text
host_mac = codes "02:00:00:00:00:01"

abbrev address : Text
address = codes "10.0.0.7"

abbrev linklocal : Text
linklocal = codes "fe80::7"

abbrev put : Text → Option Text → (Text → Option Text) → Text → Option Text
put ip t f x = if strcmp_eq ip x then t else f x

abbrev put_if : Bool → Text → Text → Machine → Machine
put_if false ip nh m = m
put_if true ip nh m = record m { vias = put ip (some nh) m.vias }

abbrev row : Neighbor
row = record { lladdr = some host_mac; dst = some linklocal; state = 4 }

-- `grants` says whether the kernel takes routes.
abbrev small_kernel : Bool → Kernel Machine
small_kernel grants = record {
  link_lookup = λ m n. 3 ∷ [];
  routes6 = λ m. [];
  neighbors6 = λ m i. some (row ∷ []);
  replace_route = λ m ip i nh. (grants, put_if grants ip nh m);
  del_neighbor = λ m ip i. m;
  del_route = λ m ip. (true, record m { vias = put ip none m.vias });
  send_datagram = λ m n a. m;
  monotonic = λ m. 0;
  write_state = λ m t. m;
  read_state = λ m. none;
  read_leases = λ m. none;
}

abbrev via : Text → Machine → Option Text
via ip m = m.vias ip

put_here : (ip : Text) (t : Option Text) (f : Text → Option Text) → put ip t f ip ≡ t
put_here ip t f = ground (arith, strcmp_eq_refl ip)

put_away : (ip x : Text) (t : Option Text) (f : Text → Option Text) → ip ≢ x → put ip t f x ≡ f x
put_away ip x t f ne = ground (arith, strcmp_eq-ne ip x ne)

small_replaces :
    (g : Bool) (m : Machine) (ip nh : Text) → g ≡ true → via ip (put_if g ip nh m) ≡ some nh
small_replaces true m ip nh e = put_here ip (some nh) m.vias
small_replaces false m ip nh e = cc

small_refuses :
    (g : Bool) (m : Machine) (ip nh : Text) → g ≡ false → via ip (put_if g ip nh m) ≡ via ip m
small_refuses true m ip nh e = cc
small_refuses false m ip nh e = refl

small_keeps :
    (g : Bool) (m : Machine) (ip x nh : Text) → ip ≢ x → via x (put_if g ip nh m) ≡ via x m
small_keeps true m ip x nh ne = put_away ip x (some nh) m.vias ne
small_keeps false m ip x nh ne = refl

small_kernel-IsRouting : (grants : Bool) → IsRouting (small_kernel grants) via
small_kernel-IsRouting grants = record {
  replaces = λ m ip nh i e. small_replaces grants m ip nh e;
  refuses = λ m ip nh i e. small_refuses grants m ip nh e;
  replace_keeps = λ m ip x nh i ne. small_keeps grants m ip x nh ne;
  deletes = λ m ip h. put_here ip none m.vias;
  delete_refuses = λ m ip h. cc;
  delete_keeps = λ m ip x ne. put_away ip x none m.vias ne;
  neighbor_keeps = λ m ip x i. refl;
  datagram_keeps = λ m n a x. refl;
  write_keeps = λ m t x. refl;
}

abbrev cold_host : Host
cold_host = record { iface = codes "lan"; ip4 = address; nh = none; probe_at = none }

abbrev machine : Machine
machine = record { vias = λ ip. none }

abbrev manager : Manager Machine
manager = record { hosts = record { mac = host_mac; host = cold_host } ∷ []; os = machine }

abbrev small_cache : List Cached
small_cache = record { dst = linklocal; state = 4 } ∷ []

nexthop-IsHighest_example :
    IsHighest small_library
      (some (codes "2001:db8::1"))
      small_cache
      (nexthop small_library (some (codes "2001:db8::1")) small_cache)
nexthop-IsHighest_example = nexthop-IsHighest small_library (some (codes "2001:db8::1")) small_cache

chosen_linklocal :
    (grants : Bool) → chosen small_library (small_kernel grants) 3 host_mac machine ≡ some linklocal
unfolding derived prefix nexthop other_nexthop cache_of collect note set_state is_usable
    is_global_or_ula strcmp_eq
chosen_linklocal grants = refl

found_host : get host_mac manager.hosts ≡ some cold_host
unfolding get strcmp_eq
found_host = refl

evaluate_follows_example :
    let m' = evaluate small_library (small_kernel true) host_mac manager in
    (via address m'.os ≡ some linklocal)
    × ((g : Host) × (get host_mac m'.hosts ≡ some g) × (g.nh ≡ some linklocal))
evaluate_follows_example =
    evaluate_follows small_library (small_kernel true) via (small_kernel-IsRouting true) host_mac
      manager cold_host 3 linklocal found_host refl (chosen_linklocal true) (λ b. cc) (λ os. refl)

evaluate_notes_refusal_example :
    let m' = evaluate small_library (small_kernel false) host_mac manager in
    (via address m'.os ≡ none)
    × ((g : Host) × (get host_mac m'.hosts ≡ some g) × (g.nh ≡ some linklocal))
evaluate_notes_refusal_example =
    evaluate_notes_refusal small_library (small_kernel false) via (small_kernel-IsRouting false)
      host_mac manager cold_host 3 linklocal found_host refl (chosen_linklocal false)
      (inr (λ os. refl))

abbrev other_mac : Text
other_mac = codes "02:00:00:00:00:02"

other_ne : host_mac ≢ other_mac
unfolding strcmp_eq
other_ne e =
    let same : false ≡ true =
      subst (λ t. strcmp_eq host_mac t ≡ true) e (strcmp_eq_refl host_mac) in
    cc

on_lease_enters_example :
    let es =
      (on_lease small_library
        (small_kernel true)
        (codes "lan")
        host_mac
        (codes "10.0.0.8")
        manager).hosts in
    HasLease small_library (small_kernel true) host_mac (codes "lan") (codes "10.0.0.8") es
    × (get other_mac es ≡ get other_mac manager.hosts)
on_lease_enters_example =
    on_lease_enters small_library (small_kernel true) (codes "lan") host_mac (codes "10.0.0.8")
      other_mac manager other_ne

-- The line "add lan 02:00:00:00:00:01 10.0.0.7", whole and in two reads.
abbrev first_part : Text
first_part = codes "add lan 02:00:00"

abbrev second_part : Text
second_part = codes ":00:00:01 10.0.0.7\n"

abbrev reader : Reader small_library (small_kernel true)
reader = record { buf = []; manager = record { hosts = []; os = machine } }

feed_all_any_chunks_example :
    feed_all small_library (small_kernel true) (first_part ∷ second_part ∷ []) reader
    ≡ feed_all small_library
        (small_kernel true)
        (concat (first_part ∷ second_part ∷ []) ∷ [])
        reader
feed_all_any_chunks_example =
    feed_all_any_chunks small_library (small_kernel true) first_part
      (concat (first_part ∷ second_part ∷ [])) (second_part ∷ []) [] reader refl

abbrev some_rounds : List (Round Machine)
some_rounds =
    record {
      change = λ m. m;
      events = of_fifo (some first_part) ∷ of_fifo (some second_part) ∷ [];
      stopped = false;
    }
    ∷ []

abbrev last_manager : Manager Machine
last_manager = (main small_library (small_kernel true) some_rounds machine).reader.manager

routed : via address last_manager.os ≡ some linklocal
unfolding main while_running serve start restore reconcile_all evaluate_all handle_poll
    handle_events handle_event feed drain handle_line handle_words handle_fields split_words
    is_space on_lease enter_lease persist evaluate evaluate_host probe settle install derived prefix
    nexthop other_nexthop cache_of collect note set_state is_usable is_global_or_ula strcmp_eq get
    Hosts.put
routed = refl

some_ne : {o : Option Text} {t : Text} → o ≡ some t → o ≢ none
some_ne a b = cc

main-IsLeased_example : Holds address last_manager.hosts
main-IsLeased_example =
    main-IsLeased small_library (small_kernel true) via (small_kernel-IsRouting true) (λ m ip h. cc)
      some_rounds machine (λ ip. refl) ((λ s ip there. there), tt) address (some_ne routed)
