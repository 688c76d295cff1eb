-- ===== src/Linux/Daemon/Laws.antt =====
-- What the daemon relies on of the kernel (rtnetlink(7)), and its operations by their cases
-- (host/v4gwd.py `install`, `withdraw`, `reconcile`), with RTA_VIA.
use v4_with_v6_nh.Common.{
  ℕ, ◌≡◌, ◌≢◌, ap, true, false, not, ◌&&◌, Option, none, some, List, [], ◌∷◌, if◌then◌else◌, arith,
  ◌∙◌, inl, inr, Bool-cases,
}
use v4_with_v6_nh.Common.Text.Laws.{strcmp_eq→}
use v4_with_v6_nh.Linux.Routes.{
  Text, Route, rt_proto, same_index, same_text, is_usable, sentinel_present,
}
use v4_with_v6_nh.Linux.Select.{select_router}
use v4_with_v6_nh.Linux.Daemon.{
  Kernel, Config, World, head_of, active, nud, kick_nud, noted_via, install_route, install,
  withdraw_route, withdraw, withdraw_active, router_of, follow, manage, forgotten, resolve_index,
  reconcile_resolved, reconcile,
}

-- The routes that are not the daemon's.
abbrev pub foreign : List Route → List Route
foreign [] = []
foreign (r ∷ rs) =
    let rest = foreign rs in if same_index r.proto (some rt_proto) then rest else r ∷ rest

-- `via i os` is the gateway of the daemon's route at the interface with index `i`.
pub record IsRouting {K : Type 0} (kernel : Kernel K) (c : Config) (via : ℕ → K → Option Text)
    : Type 0 where
  pub replaces :
      (i : ℕ) (os : K) (gw : Text)
      → (kernel.replace_route os (some i) c.metric gw).0 ≡ true
      → via i (kernel.replace_route os (some i) c.metric gw).1 ≡ some gw
  pub refuses :
      (i : ℕ) (os : K) (gw : Text)
      → (kernel.replace_route os (some i) c.metric gw).0 ≡ false
      → via i (kernel.replace_route os (some i) c.metric gw).1 ≡ via i os
  pub deletes :
      (i : ℕ) (os : K)
      → (kernel.del_route os (some i) c.metric).0 ≡ true
      → via i (kernel.del_route os (some i) c.metric).1 ≡ none
  pub delete_refuses :
      (i : ℕ) (os : K)
      → (kernel.del_route os (some i) c.metric).0 ≡ false
      → via i (kernel.del_route os (some i) c.metric).1 ≡ via i os
  pub solicits :
      (i : ℕ) (os : K) (name gw : Text) → via i (kernel.send_datagram os name gw) ≡ via i os
  pub others_replace :
      (i j : ℕ) (os : K) (gw : Text)
      → i ≢ j
      → via j (kernel.replace_route os (some i) c.metric gw).1 ≡ via j os
  pub others_delete :
      (i j : ℕ) (os : K) → i ≢ j → via j (kernel.del_route os (some i) c.metric).1 ≡ via j os

-- A delete is refused only where the daemon has no route, as with ESRCH.
abbrev pub Deletable : {K : Type 0} → Kernel K → Config → (via : ℕ → K → Option Text) → Type 0
Deletable {K} kernel c via =
    (i : ℕ) (os : K) → (kernel.del_route os (some i) c.metric).0 ≡ false → via i os ≡ none

pub deleted :
    {K : Type 0} (kernel : Kernel K) (c : Config) (via : ℕ → K → Option Text)
    → IsRouting kernel c via
    → Deletable kernel c via
    → (i : ℕ) (os : K) → via i (kernel.del_route os (some i) c.metric).1 ≡ none
deleted kernel c via laws free i os = elim (Bool-cases (kernel.del_route os (some i) c.metric).0) [
  | inl ok ↦ laws.deletes i os ok
  | inr refused ↦ laws.delete_refuses i os refused ∙ free i os refused
]

pub same_text-some : (t : Option Text) (gw : Text) → same_text t (some gw) ≡ true → t ≡ some gw
same_text-some none gw e = cc
same_text-some (some t) gw e = ap some (strcmp_eq→ t gw e)

-- Where the daemon's route should point.
module _ {K : Type 0} (kernel : Kernel K) (c : Config) where
  unfoldable pub target : ℕ → K → Option Text
  target i os =
      if c.require_sentinel && not (sentinel_present c.sentinel (some i) (kernel.routes4 os))
      then none
      else select_router (nud kernel c (some i) os) (some i) (kernel.routes6 os)

  abbrev pub with_index : ℕ → World K → World K
  with_index i w = record w { iface = record (w.iface) { index = some i } }

  resolved :
      (i : ℕ) (w : World K)
      → head_of (kernel.link_lookup w.os w.iface.name) ≡ some i
      → resolve_index kernel c w ≡ with_index i w
  unfolding resolve_index
  resolved i w found = ap (λ x. record w { iface = record (w.iface) { index = x } }) found

  pub reconcile-manage :
      (i : ℕ) (w : World K)
      → head_of (kernel.link_lookup w.os w.iface.name) ≡ some i
      → reconcile kernel c w ≡ manage kernel c (with_index i w)
  unfolding reconcile
  reconcile-manage i w found = ap (reconcile_resolved kernel c) (resolved i w found)

  -- An interface that is gone.
  pub reconcile-gone :
      (w : World K)
      → head_of (kernel.link_lookup w.os w.iface.name) ≡ none
      → reconcile kernel c w
        ≡ forgotten kernel c (record w { iface = record (w.iface) { index = none } })
  unfolding reconcile resolve_index
  reconcile-gone w gone =
      ap (λ x. reconcile_resolved kernel c (record w { iface = record (w.iface) { index = x } }))
        gone

  pub manage-none :
      (i : ℕ) (w : World K)
      → target i w.os ≡ none
      → manage kernel c (with_index i w) ≡ withdraw_active kernel c (with_index i w)
  unfolding manage target router_of
  manage-none i w out = ground arith

  pub manage-some :
      (i : ℕ) (w : World K) (gw : Text)
      → target i w.os ≡ some gw
      → manage kernel c (with_index i w) ≡ follow kernel c gw (with_index i w)
  unfolding manage target router_of
  manage-some i w gw to = ground arith

  pub withdraw_active-off : (w : World K) → active w.iface ≡ false → withdraw_active kernel c w ≡ w
  unfolding withdraw_active
  withdraw_active-off w off = ground arith

  pub withdraw_active-route :
      (w : World K)
      → c.static_arp ≡ false
      → active w.iface ≡ true
      → withdraw_active kernel c w ≡ record {
        iface = record (w.iface) { installed_via = none };
        os = (kernel.del_route w.os w.iface.index c.metric).1;
      }
  unfolding withdraw_active withdraw withdraw_route
  withdraw_active-route w native on = ground arith

  -- An install does nothing, with the gateway noted, or goes by the answer of the kernel.
  pub install-same :
      (gw : Text) (w : World K)
      → c.static_arp ≡ false
      → same_text w.iface.installed_via (some gw) ≡ true
      → install kernel c gw w ≡ w
  unfolding install install_route
  install-same gw w native same = ground arith

  pub install-route :
      (gw : Text) (w : World K)
      → c.static_arp ≡ false
      → same_text w.iface.installed_via (some gw) ≡ false
      → install kernel c gw w
        ≡ noted_via kernel c gw w.iface (kernel.replace_route w.os w.iface.index c.metric gw)
  unfolding install install_route
  install-route gw w native differs = ground arith

  pub follow-usable :
      (gw : Text) (w : World K)
      → is_usable (nud kernel c w.iface.index w.os gw) ≡ true
      → follow kernel c gw w ≡ install kernel c gw w
  unfolding follow
  follow-usable gw w ok = ground arith

  pub follow-kicks :
      (gw : Text) (w : World K)
      → is_usable (nud kernel c w.iface.index w.os gw) ≡ false
      → follow kernel c gw w ≡ install kernel c gw (kick_nud kernel c gw w)
  unfolding follow
  follow-kicks gw w out = ground arith
