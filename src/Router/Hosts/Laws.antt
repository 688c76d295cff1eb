-- ===== src/Router/Hosts/Laws.antt =====
-- The table of hosts as a map (router/debian/usr/local/sbin/v4gwrd.py `Manager.hosts`).
use v4_with_v6_nh.Common.Text.Laws.{strcmp_eq-ne, strcmp_eq→}
use v4_with_v6_nh.Common.{
  sym, ◌∙◌, ◌≡◌, ◌≢◌, refl, some, List, [], ◌∷◌, arith, Any, here, there, inl, inr, Bool-cases,
}
use v4_with_v6_nh.Common.Text.{strcmp_eq}
use v4_with_v6_nh.Common.Text.Laws.{strcmp_eq_refl}
use v4_with_v6_nh.Router.Hosts.{Text, Host, Entry, get, put, pop}

pub get-put : (mac : Text) (h : Host) (es : List Entry) → get mac (put mac h es) ≡ some h
unfolding get put
get-put mac h [] = ground (arith, strcmp_eq_refl mac)
get-put mac h (e ∷ es) = ground (arith, get-put mac h es)

pub get-put_other :
    (mac x : Text) (h : Host) (es : List Entry) → mac ≢ x → get x (put mac h es) ≡ get x es
unfolding get put
get-put_other mac x h [] ne = ground (arith, strcmp_eq-ne mac x ne)
get-put_other mac x h (e ∷ es) ne = elim (Bool-cases (strcmp_eq e.mac mac)) [
  | inl same ↦
      let away = strcmp_eq-ne e.mac x (λ at. ne (sym (strcmp_eq→ e.mac mac same) ∙ at)) in
      ground (arith, same, away)
  | inr differs ↦ ground (arith, differs, get-put_other mac x h es ne)
]

-- An entry in which a host has the address.
abbrev pub Holds : Text → List Entry → Type 0
Holds ip es = Any (λ e. e.host.ip4 ≡ ip) es

-- A write keeps an address in the table, if that of the host it replaces is kept or is another.
pub put-Holds :
    (mac ip : Text) (h' : Host) (es : List Entry)
    → ((h : Host) → get mac es ≡ some h → h.ip4 ≡ ip → h'.ip4 ≡ ip)
    → Holds ip es
    → Holds ip (put mac h' es)
unfolding get put
put-Holds mac ip h' [] keep a = elim a [ ]
put-Holds mac ip h' (e ∷ es) keep (here p) = elim (Bool-cases (strcmp_eq e.mac mac)) [
  | inl same ↦ rw same (here (keep e.host (ground (arith, same)) p))
  | inr differs ↦ rw differs (here p)
]
put-Holds mac ip h' (e ∷ es) keep (there a) = elim (Bool-cases (strcmp_eq e.mac mac)) [
  | inl same ↦ rw same (there a)
  | inr differs ↦
      rw differs (there (put-Holds mac ip h' es (λ h g. keep h (ground (arith, g, differs))) a))
]

-- The address of the host that is written is there.
pub put-here : (mac : Text) (h : Host) (es : List Entry) → Holds h.ip4 (put mac h es)
unfolding put
put-here mac h [] = here refl
put-here mac h (e ∷ es) = elim (Bool-cases (strcmp_eq e.mac mac)) [
  | inl same ↦ rw same (here refl)
  | inr differs ↦ rw differs (there (put-here mac h es))
]

pub get-Holds : (mac : Text) (es : List Entry) (h : Host) → get mac es ≡ some h → Holds h.ip4 es
unfolding get
get-Holds mac [] h e = cc
get-Holds mac (x ∷ es) h e = elim (Bool-cases (strcmp_eq x.mac mac)) [
  | inl same ↦ here (ground (arith, e, same))
  | inr differs ↦ there (get-Holds mac es h (ground (arith, e, differs)))
]

-- A removal keeps every other address.
pub pop-Holds :
    (mac ip : Text) (es : List Entry)
    → ((h : Host) → get mac es ≡ some h → h.ip4 ≢ ip)
    → Holds ip es
    → Holds ip (pop mac es)
unfolding get pop
pop-Holds mac ip [] other a = elim a [ ]
pop-Holds mac ip (e ∷ es) other (here p) = elim (Bool-cases (strcmp_eq e.mac mac)) [
  | inl same ↦ absurd (other e.host (ground (arith, same)) p)
  | inr differs ↦ rw differs (here p)
]
pop-Holds mac ip (e ∷ es) other (there a) = elim (Bool-cases (strcmp_eq e.mac mac)) [
  | inl same ↦ rw same a
  | inr differs ↦
      rw differs (there (pop-Holds mac ip es (λ h g. other h (ground (arith, g, differs))) a))
]
