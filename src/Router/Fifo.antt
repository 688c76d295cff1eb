-- ===== src/Router/Fifo.antt =====
-- The events that dnsmasq writes (router/debian/usr/local/sbin/v4gwrd.py `handle_line`, `serve`): the
-- bytes of the FIFO, cut into lines.
pub mod Chunks
use v4_with_v6_nh.Common.{
  ℕ, Bool, true, false, not, ◌&&◌, ◌||◌, Option, none, some, List, [], ◌∷◌, ◌++◌, ◌==◌, leb,
  if◌then◌else◌,
}
use v4_with_v6_nh.Common.Text.{codes, strcmp_eq}
use v4_with_v6_nh.Router.Hosts.{Text}
use v4_with_v6_nh.Router.NextHop.{Library}
use v4_with_v6_nh.Router.Manager.{Kernel, Manager, on_lease, on_release}

-- `str.isspace` on one code point.
unfoldable pub is_space : ℕ → Bool
is_space c =
    c == 32
    || (leb 9 c && leb c 13)
    || (leb 28 c && leb c 31)
    || (c == 133 || c == 160)
    || (c == 5760 || (leb 8192 c && leb c 8202))
    || (c == 8232 || c == 8233)
    || (c == 8239 || (c == 8287 || c == 12288))

abbrev word_then : Text → List Text → List Text
word_then [] ws = ws
word_then (c ∷ s) ws = (c ∷ s) ∷ ws

-- `split()`, from the beginning of a word on.
unfoldable pub split_words : Text → Text → List Text
split_words word [] = word_then word []
split_words word (c ∷ s) =
    let after = split_words [] s in
    let on = split_words (word ++ (c ∷ [])) s in if is_space c then word_then word after else on

abbrev pub words : Text → List Text
words line = split_words [] line

module _ {K : Type 0} (lib : Library) (kernel : Kernel K) where
  open lib use {lower, decode}

  -- The first four fields of a line.
  unfoldable pub handle_fields : Text → Text → Text → Text → Manager K → Manager K
  handle_fields action iface mac ip4 m =
      if strcmp_eq action (codes "add") || strcmp_eq action (codes "old")
      then on_lease lib kernel iface mac ip4 m
      else if strcmp_eq action (codes "del")
      then on_release lib kernel mac ip4 m
      else m

  unfoldable pub handle_words : List Text → Manager K → Manager K
  handle_words (action ∷ iface ∷ mac ∷ ip4 ∷ ws) m = handle_fields action iface (lower mac) ip4 m
  handle_words _ m = m

  unfoldable pub handle_line : Text → Manager K → Manager K
  handle_line line m = handle_words (words line) m

  -- The bytes that have come after the last newline, and the manager.
  pub record Reader : Type 0 where
    pub buf : List ℕ
    pub manager : Manager K

  -- `while b"\n" in buf`, from the beginning of a line on.
  unfoldable pub drain : List ℕ → List ℕ → Manager K → Reader
  drain line [] m = record { buf = line; manager = m }
  drain line (c ∷ s) m =
      let next = drain [] s (handle_line (decode line) m) in
      let on = drain (line ++ (c ∷ [])) s m in if c == 10 then next else on

  -- What is read from the FIFO.
  unfoldable pub feed : List ℕ → Reader → Reader
  feed chunk r = drain [] (r.buf ++ chunk) r.manager

  unfoldable pub feed_all : List (List ℕ) → Reader → Reader
  feed_all [] r = r
  feed_all (chunk ∷ chunks) r = feed_all chunks (feed chunk r)
