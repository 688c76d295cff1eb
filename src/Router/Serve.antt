-- ===== src/Router/Serve.antt =====
-- The program (router/debian/usr/local/sbin/v4gwrd.py `restore`, `_live_leases`, `serve`, `main`): the
-- table of the last run, and the loop over `poll`.
pub mod Leases
use v4_with_v6_nh.Common.{
  ℕ, ◌+◌, Bool, true, false, not, ◌&&◌, ◌||◌, Option, none, some, List, [], ◌∷◌, if◌then◌else◌,
}
use v4_with_v6_nh.Common.Loop.{while_running}
use v4_with_v6_nh.Common.Text.{strcmp_eq}
use v4_with_v6_nh.Router.Hosts.{Text, put}
use v4_with_v6_nh.Router.NextHop.{Library}
use v4_with_v6_nh.Router.Manager.{Kernel, Manager, gua_probe_delay, reconcile_all}
use v4_with_v6_nh.Router.Fifo.{words, Reader, feed}

-- What `poll` tells of: the wakeup pipe; the FIFO, with what is read from it, `none` for an OSError; the
-- monitor, and whether no signal has come by then.
pub data Event : Type 0 where
  of_wakeup : Event
  of_fifo : Option (List ℕ) → Event
  of_monitor : Bool → Event

-- What the system has become when `poll` ends, its events, none for a timeout, and whether a signal comes
-- in the round.
pub record Round (K : Type 0) : Type 0 where
  pub change : K → K
  pub events : List Event
  pub stopped : Bool

module _ {K : Type 0} (lib : Library) (kernel : Kernel K) where
  -- The pair of a row of the leases of dnsmasq.
  abbrev pub lease_of : List Text → Option (Text × Text)
  lease_of (expiry ∷ mac ∷ ip4 ∷ ws) = some (lib.lower mac, ip4)
  lease_of _ = none

  unfoldable pub is_live : Text → Text → List Text → Bool
  is_live mac ip4 [] = false
  is_live mac ip4 (row ∷ rows) =
      elim (lease_of (words row)) [
        | none ↦ false
        | some (m, i) ↦ strcmp_eq m mac && strcmp_eq i ip4
      ]
      || is_live mac ip4 rows

  -- `live is not None and (mac, ip4) not in live`
  abbrev pub is_expired : Text → Text → Option (List Text) → Bool
  is_expired mac ip4 none = false
  is_expired mac ip4 (some rows) = not (is_live mac ip4 rows)

  unfoldable pub restore_host : Option (List Text) → Text → Text → Text → Manager K → Manager K
  restore_host live mac iface ip4 m = if is_expired mac ip4 live then m else record m {
    hosts =
        put mac
          (record {
            iface = iface;
            ip4 = ip4;
            nh = none;
            probe_at = some (kernel.monotonic m.os + gua_probe_delay);
          })
          m.hosts;
  }

  abbrev pub restore_words : Option (List Text) → List Text → Manager K → Manager K
  restore_words live (mac ∷ iface ∷ ip4 ∷ []) m = restore_host live (lib.lower mac) iface ip4 m
  restore_words live _ m = m

  unfoldable pub restore_lines : Option (List Text) → List Text → Manager K → Manager K
  restore_lines live [] m = m
  restore_lines live (line ∷ lines) m = restore_lines live lines (restore_words live (words line) m)

  unfoldable pub restore : Manager K → Manager K
  restore m = elim (kernel.read_state m.os) [
    | none ↦ m
    | some lines ↦ restore_lines (kernel.read_leases m.os) lines m
  ]

  pub record Process : Type 0 where
    pub reader : Reader lib kernel
    pub running : Bool

  abbrev pub is_running : Process → Bool
  is_running p = p.running

  abbrev pub with_reconciled : Reader lib kernel → Reader lib kernel
  with_reconciled r = record r { manager = reconcile_all lib kernel r.manager }

  unfoldable pub handle_event : Event → Reader lib kernel → Reader lib kernel
  handle_event of_wakeup r = r
  handle_event (of_fifo none) r = r
  handle_event (of_fifo (some chunk)) r = feed lib kernel chunk r
  handle_event (of_monitor false) r = r
  handle_event (of_monitor true) r = with_reconciled r

  unfoldable pub handle_events : List Event → Reader lib kernel → Reader lib kernel
  handle_events [] r = r
  handle_events (e ∷ es) r = handle_events es (handle_event e r)

  unfoldable pub handle_poll : List Event → Reader lib kernel → Reader lib kernel
  handle_poll [] r = with_reconciled r
  handle_poll (e ∷ es) r = handle_events (e ∷ es) r

  unfoldable pub serve : Round K → Process → Process
  serve r p =
      let now = p.reader in
      let later = record now {
        manager = record (now.manager) { os = r.change (now.manager).os };
      } in
      record { reader = handle_poll r.events later; running = not r.stopped }

  -- `main` up to `serve`, and `serve`.
  unfoldable pub start : K → Reader lib kernel
  start os = record {
    buf = [];
    manager = reconcile_all lib kernel (restore (record { hosts = []; os = os }));
  }

  unfoldable pub main : List (Round K) → K → Process
  main rs os = while_running is_running serve rs (record { reader = start os; running = true })
