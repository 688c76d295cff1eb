-- ===== src/Linux/Run/Clear/Leaves.antt =====
-- The routes of the daemon with RTA_VIA that it does not know of (host/v4gwd.py `refresh`, `reconcile`): all
-- the interfaces.
use mathlib.Core.Path.{subst, ap₂}
use v4_with_v6_nh.Common.{
  ℕ, ◌≡◌, ◌≢◌, refl, sym, ap, ◌∙◌, false, Option, none, List, [], ◌∷◌, All, All-map, All-append,
  Any-All, inl, inr, Bool-cases,
}
use v4_with_v6_nh.Linux.Routes.{Text}
use v4_with_v6_nh.Linux.Daemon.{
  Kernel, Config, Interface, new_interface, World, withdraw_active, reconcile,
}
use v4_with_v6_nh.Linux.Daemon.Laws.{IsRouting, Deletable}
use v4_with_v6_nh.Linux.Run.{has_name, add_new, add_names, Host, for_all}
use v4_with_v6_nh.Linux.Run.Names.{
  names, IsAbsent, IsDistinct, has_name-IsAbsent, has_name-Any, names-IsDistinct, names-IsAbsent,
}
use v4_with_v6_nh.Linux.Run.Clear.{IsNaming, IsKnown, IsKept, reconcile-IsKept, withdraw_known}

module _ {K : Type 0} (kernel : Kernel K) (c : Config) (via : ℕ → K → Option Text)
    (laws : IsRouting kernel c via) (free : Deletable kernel c via) (index_of : Text → ℕ)
    (naming : IsNaming kernel via index_of) (native : c.static_arp ≡ false) where
  unfoldable pub Known : World K → Type 0
  Known w = IsKnown kernel c via laws free index_of naming native w

  Kept : World K → World K → Type 0
  Kept w w' = IsKept kernel c via laws free index_of naming native w w'

  unfoldable pub AllKnown : K → List Interface → Type 0
  AllKnown os fs = All (λ f. Known (record { iface = f; os = os })) fs

  -- What is known stays so when only routes of one other interface change.
  moved :
      (n : Text) (os os' : K)
      → ((j : ℕ) → index_of n ≢ j → via j os' ≡ via j os)
      → (fs : List Interface) → IsAbsent n (names fs)
      → AllKnown os fs
      → AllKnown os' fs
  unfolding AllKnown Known
  moved n os os' others [] a k = tt
  moved n os os' others (f ∷ fs) a k = (
    record {
      none_stray =
          λ e. others _ (λ same. naming.distinct f.name n a.0 (sym same)) ∙ k.0.none_stray e;
      no_mac = k.0.no_mac;
      indexed = k.0.indexed;
    },
    moved n os os' others fs a.1 k.1,
  )

  module _ (each : World K → World K) (P : Interface → Type 0)
      (kept : (w : World K) → Known w → Kept w (each w))
      (makes : (w : World K) → Known w → P (each w).iface) where
    -- After a pass through the interfaces.
    record IsSwept (fs : List Interface) (os : K) (h : Host K) : Type 0 where
      same_names : names h.ifaces ≡ names fs
      known : AllKnown h.os h.ifaces
      made : All P h.ifaces
      others : (j : ℕ) → All (λ m. index_of m ≢ j) (names fs) → via j h.os ≡ via j os

    for_all-IsSwept :
        (fs : List Interface) (os : K)
        → IsDistinct (names fs)
        → AllKnown os fs
        → IsSwept fs os (for_all each fs os)
    unfolding for_all AllKnown Known Kept
    for_all-IsSwept [] os d k = record {
      same_names = refl;
      known = tt;
      made = tt;
      others = λ j a. refl;
    }
    for_all-IsSwept (f ∷ fs) os d k =
        let w : World K = record { iface = f; os = os } in
        let s = kept w k.0 in
        let rest =
          for_all-IsSwept fs (each w).os d.1 (moved f.name os (each w).os s.others fs d.0 k.1) in
        record {
          same_names = ap₂ (λ n ns. n ∷ ns) s.named rest.same_names;
          known = (
            record {
              none_stray = λ e.
                  rest.others _ (
                    All-map (names fs)
                      (λ m ne same. naming.distinct m f.name ne (same ∙ ap index_of s.named)) d.0)
                  ∙ s.known.none_stray e;
              no_mac = s.known.no_mac;
              indexed = s.known.indexed;
            },
            rest.known,
          );
          made = (makes w k.0, rest.made);
          others = λ j a. rest.others j a.1 ∙ s.others j a.0;
        }

  -- The interfaces of the daemon have different names, each knows its route, and there is none elsewhere.
  pub record IsTracked (h : Host K) : Type 0 where
    pub distinct : IsDistinct (names h.ifaces)
    pub known : AllKnown h.os h.ifaces
    pub fresh : (n : Text) → IsAbsent n (names h.ifaces) → via (index_of n) h.os ≡ none

  swept-IsTracked :
      (each : World K → World K) (P : Interface → Type 0)
      (kept : (w : World K) → Known w → Kept w (each w))
      (makes : (w : World K) → Known w → P (each w).iface) (h : Host K)
      → IsTracked h
      → IsTracked (for_all each h.ifaces h.os) × All P (for_all each h.ifaces h.os).ifaces
  swept-IsTracked each P kept makes h t =
      let s = for_all-IsSwept each P kept makes h.ifaces h.os t.distinct t.known in
      (
        record {
          distinct = subst IsDistinct (sym s.same_names) t.distinct;
          known = s.known;
          fresh = λ n a.
              let absent = subst (IsAbsent n) s.same_names a in
              s.others _
                (All-map (names h.ifaces) (λ m ne same. naming.distinct m n ne same) absent)
              ∙ t.fresh n absent;
        },
        s.made,
      )

  new-Known :
      (n : Text) (h : Host K)
      → IsAbsent n (names h.ifaces)
      → ((m : Text) → IsAbsent m (names h.ifaces) → via (index_of m) h.os ≡ none)
      → Known (record { iface = new_interface n; os = h.os })
  unfolding Known
  new-Known n h absent fresh = record {
    none_stray = λ e. fresh n absent;
    no_mac = refl;
    indexed = λ e. absurd (e refl);
  }

  add_new-IsTracked :
      (n : Text) (h : Host K) → IsTracked h → IsTracked (record h { ifaces = add_new n h.ifaces })
  unfolding AllKnown Known
  add_new-IsTracked n h t = elim (Bool-cases (has_name n h.ifaces)) [
    | inl old ↦ rw old t
    | inr new ↦
        let absent = has_name-IsAbsent n h.ifaces new in
        rw new (record {
          distinct = names-IsDistinct h.ifaces (new_interface n) t.distinct absent;
          known = All-append _ h.ifaces _ t.known (new-Known n h absent t.fresh, tt);
          fresh = λ m a. t.fresh m (names-IsAbsent m h.ifaces (new_interface n) a);
        })
  ]

  pub add_names-IsTracked :
      (ns : List Text) (h : Host K)
      → IsTracked h
      → IsTracked (record h { ifaces = add_names ns h.ifaces })
  unfolding add_names
  add_names-IsTracked [] h t = t
  add_names-IsTracked (n ∷ ns) h t =
      add_names-IsTracked ns (record h { ifaces = add_new n h.ifaces }) (add_new-IsTracked n h t)

  pub reconciled-IsTracked :
      (h : Host K) → IsTracked h → IsTracked (for_all (reconcile kernel c) h.ifaces h.os)
  unfolding Known Kept
  reconciled-IsTracked h t =
      (swept-IsTracked (reconcile kernel c) (λ f. Unit)
        (reconcile-IsKept kernel c via laws free index_of naming native) (λ w k. tt) h t).0

  -- The interface of a name that the daemon manages, and any other, have no route after the withdrawal.
  pub withdrawn-none :
      (h : Host K) (n : Text)
      → IsTracked h
      → via (index_of n) (for_all (withdraw_active kernel c) h.ifaces h.os).os ≡ none
  unfolding Known Kept AllKnown
  withdrawn-none h n t =
      let h' = for_all (withdraw_active kernel c) h.ifaces h.os in
      let (t', off) =
        swept-IsTracked (withdraw_active kernel c) (λ f. f.installed_via ≡ none)
          (λ w k. (withdraw_known kernel c via laws free index_of naming native w k).0)
          (λ w k. (withdraw_known kernel c via laws free index_of naming native w k).1) h t in
      elim (Bool-cases (has_name n h'.ifaces)) [
        | inl there ↦
            let known = All-both _ _ h'.ifaces t'.known off in
            let (f, same, (k, out)) = Any-All (has_name-Any n h'.ifaces there) known in
            subst (λ m. via (index_of m) h'.os ≡ none) same (k.none_stray out)
        | inr away ↦ t'.fresh n (has_name-IsAbsent n h'.ifaces away)
      ]
    where
      All-both :
          (P Q : Interface → Type 0) (fs : List Interface)
          → All P fs
          → All Q fs
          → All (λ f. P f × Q f) fs
      All-both P Q [] a b = tt
      All-both P Q (f ∷ fs) a b = ((a.0, b.0), All-both P Q fs a.1 b.1)
