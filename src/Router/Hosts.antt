-- ===== src/Router/Hosts.antt =====
-- The table of hosts (router/debian/usr/local/sbin/v4gwrd.py `Manager.hosts`): a dictionary as a list of
-- its entries, in the order in which they have come.
pub mod Laws
use v4_with_v6_nh.Common.{ℕ, Bool, not, Option, none, some, List, [], ◌∷◌, if◌then◌else◌}
use v4_with_v6_nh.Common.Text.{strcmp_eq}

abbrev pub Text : Type 0
Text = List ℕ

-- `probe_at` is a time.
pub record Host : Type 0 where
  pub iface : Text
  pub ip4 : Text
  pub nh : Option Text
  pub probe_at : Option ℕ

pub record Entry : Type 0 where
  pub mac : Text
  pub host : Host

-- `hosts.get(mac)`
unfoldable pub get : Text → List Entry → Option Host
get mac [] = none
get mac (e ∷ es) = if strcmp_eq e.mac mac then some e.host else get mac es

-- `hosts[mac] = h`: in place, or at the end.
unfoldable pub put : Text → Host → List Entry → List Entry
put mac h [] = record { mac = mac; host = h } ∷ []
put mac h (e ∷ es) =
    let rest = put mac h es in
    if strcmp_eq e.mac mac then record { mac = e.mac; host = h } ∷ es else e ∷ rest

-- `hosts.pop(mac, None)`
unfoldable pub pop : Text → List Entry → List Entry
pop mac [] = []
pop mac (e ∷ es) = let rest = pop mac es in if strcmp_eq e.mac mac then es else e ∷ rest
