-- ===== src/Router/Serve/Leases.antt =====
-- The return routes and the leases while the daemon runs (router/debian/usr/local/sbin/v4gwrd.py `serve`,
-- `main`).
use v4_with_v6_nh.Common.{
  ℕ, ◌≡◌, ◌≢◌, refl, ap, ◌∙◌, Option-cases, true, false, Option, none, some, List, [], ◌∷◌, ◌++◌,
  ◌||◌, ◌==◌, All, arith, inl, inr, Bool-cases,
}
use v4_with_v6_nh.Common.Loop.{while_running-keeps}
use v4_with_v6_nh.Common.Text.{codes, strcmp_eq}
use v4_with_v6_nh.Router.Hosts.{Text}
use v4_with_v6_nh.Router.Hosts.Laws.{Holds}
use v4_with_v6_nh.Router.NextHop.{Library}
use v4_with_v6_nh.Router.Manager.{Kernel, Manager, reconcile_all}
use v4_with_v6_nh.Router.Manager.Stray.{IsRouting, Deletable, IsLeased}
use v4_with_v6_nh.Router.Manager.Leased.{
  reconcile_all-IsLeased, on_lease-IsLeased, on_release-IsLeased,
}
use v4_with_v6_nh.Router.Fifo.{words, handle_fields, handle_words, handle_line, Reader, drain, feed}
use v4_with_v6_nh.Router.Serve.{
  Event, of_wakeup, of_fifo, of_monitor, Round, restore_host, restore_words, restore_lines, restore,
  Process, is_running, handle_event, handle_events, handle_poll, serve, start, main,
}

module _ {K : Type 0} (lib : Library) (kernel : Kernel K) (via : Text → K → Option Text)
    (laws : IsRouting kernel via) (free : Deletable kernel via) where
  Leased : Manager K → Type 0
  Leased m = IsLeased lib kernel via laws m

  handle_fields-IsLeased :
      (action iface mac ip4 : Text) (m : Manager K)
      → Leased m
      → Leased (handle_fields lib kernel action iface mac ip4 m)
  unfolding handle_fields Leased
  handle_fields-IsLeased action iface mac ip4 m leased =
      elim (Bool-cases (strcmp_eq action (codes "add") || strcmp_eq action (codes "old"))) [
        | inl lease ↦ rw lease (on_lease-IsLeased lib kernel via laws free iface mac ip4 m leased)
        | inr other ↦ rw other (elim (Bool-cases (strcmp_eq action (codes "del"))) [
          | inl release ↦ rw release (on_release-IsLeased lib kernel via laws free mac ip4 m leased)
          | inr unknown ↦ rw unknown leased
        ])
      ]

  handle_words-IsLeased :
      (ws : List Text) (m : Manager K) → Leased m → Leased (handle_words lib kernel ws m)
  unfolding handle_words
  handle_words-IsLeased (action ∷ iface ∷ mac ∷ ip4 ∷ ws) m leased =
      handle_fields-IsLeased action iface (lib.lower mac) ip4 m leased
  handle_words-IsLeased [] m leased = leased
  handle_words-IsLeased (a ∷ []) m leased = leased
  handle_words-IsLeased (a ∷ b ∷ []) m leased = leased
  handle_words-IsLeased (a ∷ b ∷ c ∷ []) m leased = leased

  drain-IsLeased :
      (line s : List ℕ) (m : Manager K) → Leased m → Leased (drain lib kernel line s m).manager
  unfolding drain handle_line
  drain-IsLeased line [] m leased = leased
  drain-IsLeased line (c ∷ s) m leased = elim (Bool-cases (c == 10)) [
    | inl end ↦
        rw end (drain-IsLeased [] s _ (handle_words-IsLeased (words (lib.decode line)) m leased))
    | inr on ↦ rw on (drain-IsLeased (line ++ (c ∷ [])) s m leased)
  ]

  reconciled-IsLeased : (m : Manager K) → Leased m → Leased (reconcile_all lib kernel m)
  unfolding Leased
  reconciled-IsLeased m leased = reconcile_all-IsLeased lib kernel via laws free m leased

  handle_event-IsLeased :
      (e : Event) (r : Reader lib kernel)
      → Leased r.manager
      → Leased (handle_event lib kernel e r).manager
  unfolding handle_event feed
  handle_event-IsLeased of_wakeup r leased = leased
  handle_event-IsLeased (of_fifo none) r leased = leased
  handle_event-IsLeased (of_fifo (some chunk)) r leased =
      drain-IsLeased [] (r.buf ++ chunk) r.manager leased
  handle_event-IsLeased (of_monitor false) r leased = leased
  handle_event-IsLeased (of_monitor true) r leased = reconciled-IsLeased r.manager leased

  handle_events-IsLeased :
      (es : List Event) (r : Reader lib kernel)
      → Leased r.manager
      → Leased (handle_events lib kernel es r).manager
  unfolding handle_events
  handle_events-IsLeased [] r leased = leased
  handle_events-IsLeased (e ∷ es) r leased =
      handle_events-IsLeased es (handle_event lib kernel e r) (handle_event-IsLeased e r leased)

  handle_poll-IsLeased :
      (es : List Event) (r : Reader lib kernel)
      → Leased r.manager
      → Leased (handle_poll lib kernel es r).manager
  unfolding handle_poll
  handle_poll-IsLeased [] r leased = reconciled-IsLeased r.manager leased
  handle_poll-IsLeased (e ∷ es) r leased = handle_events-IsLeased (e ∷ es) r leased

  -- The rest of the system makes no route of the daemon's.
  abbrev IsGentle : Round K → Type 0
  IsGentle r = (os : K) (ip : Text) → via ip (r.change os) ≢ none → via ip os ≢ none

  serve-IsLeased :
      (r : Round K) (p : Process lib kernel)
      → IsGentle r
      → Leased p.reader.manager
      → Leased (serve lib kernel r p).reader.manager
  unfolding serve Leased
  serve-IsLeased r p gentle leased =
      handle_poll-IsLeased r.events _
        (λ ip there. leased ip (gentle (p.reader.manager).os ip there))

  restore_words-os :
      (live : Option (List Text)) (ws : List Text) (m : Manager K)
      → (restore_words lib kernel live ws m).os ≡ m.os
  unfolding restore_host
  restore_words-os live (mac ∷ iface ∷ ip4 ∷ []) m = ground arith
  restore_words-os live [] m = refl
  restore_words-os live (a ∷ []) m = refl
  restore_words-os live (a ∷ b ∷ []) m = refl
  restore_words-os live (a ∷ b ∷ c ∷ d ∷ ws) m = refl

  restore_lines-os :
      (live : Option (List Text)) (lines : List Text) (m : Manager K)
      → (restore_lines lib kernel live lines m).os ≡ m.os
  unfolding restore_lines
  restore_lines-os live [] m = refl
  restore_lines-os live (line ∷ lines) m =
      restore_lines-os live lines _ ∙ restore_words-os live (words line) m

  restore-os : (m : Manager K) → (restore lib kernel m).os ≡ m.os
  unfolding restore
  restore-os m = elim (Option-cases (kernel.read_state m.os)) [
    | inl absent ↦ ground (arith, absent)
    | inr (lines, there) ↦ ground (arith, there, restore_lines-os (kernel.read_leases m.os) lines m)
  ]

  start-IsLeased :
      (os : K) → ((ip : Text) → via ip os ≡ none) → Leased (start lib kernel os).manager
  unfolding start Leased
  start-IsLeased os bare = reconciled-IsLeased _ (λ ip there.
      absurd (there (ap (via ip) (restore-os (record { hosts = []; os = os })) ∙ bare ip)))

  -- Where the kernel has no return route at the start and refuses to delete one only where there is none,
  -- and the rest of the system makes none, every address to which there is a return route, after any
  -- rounds of the loop, is the address of a host in the table, whatever dnsmasq has written and whichever
  -- of the messages that replace a route the kernel has refused.
  pub main-IsLeased :
      (rs : List (Round K)) (os : K)
      → ((ip : Text) → via ip os ≡ none)
      → All (λ r. (s : K) (ip : Text) → via ip (r.change s) ≢ none → via ip s ≢ none) rs
      → (ip : Text) → via ip (main lib kernel rs os).reader.manager.os ≢ none
      → Holds ip (main lib kernel rs os).reader.manager.hosts
  unfolding main Leased
  main-IsLeased rs os bare gentle ip there =
      while_running-keeps (is_running lib kernel) (serve lib kernel) (λ p. Leased p.reader.manager)
        IsGentle serve-IsLeased rs _ gentle (start-IsLeased os bare) ip there
