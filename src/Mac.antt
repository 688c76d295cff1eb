-- ===== src/Mac.antt =====
-- A MAC address, `uint8_t mac[6]`, and its text forms: `mac_str` of host/macos/v4gwd-arp.c and of
-- host/windows/v4gwd.c, `mac_str_reg` of the latter, and the `sscanf` calls that read them back.
pub mod RoundTrip
use v4_with_v6_nh.Common.{
  ◌>>=◌, ℕ, zero, suc, ◌+◌, ◌-◌, ◌*◌, ◌/◌, ◌%◌, Bool, true, false, ◌&&◌, ◌||◌, Option, none, some,
  List, [], ◌∷◌, ltb, leb, ◌==◌, if◌then◌else◌, get_or,
}
use v4_with_v6_nh.Common.Text.{memcmp_eq}
use v4_with_v6_nh.Common.Text.Numbers.{skip_space}

pub record Mac : Type 0 where
  pub b0 : ℕ
  pub b1 : ℕ
  pub b2 : ℕ
  pub b3 : ℕ
  pub b4 : ℕ
  pub b5 : ℕ

abbrev pub bytes : Mac → List ℕ
bytes m = m.b0 ∷ m.b1 ∷ m.b2 ∷ m.b3 ∷ m.b4 ∷ m.b5 ∷ []

-- `memcpy(mac, p, 6)`
unfoldable pub copy_mac : List ℕ → Mac
copy_mac p = record {
  b0 = get_or p 0 0;
  b1 = get_or p 1 0;
  b2 = get_or p 2 0;
  b3 = get_or p 3 0;
  b4 = get_or p 4 0;
  b5 = get_or p 5 0;
}

-- `memcmp(a, b, 6) == 0`
unfoldable pub mac_eq : Mac → Mac → Bool
mac_eq a b = memcmp_eq (bytes a) (bytes b)

-- The digits of `%x` and `%X`, with the code of the letter that stands for ten.
unfoldable pub hex_digit : ℕ → ℕ → ℕ
hex_digit ten d = if ltb d 10 then 48 + d else ten + (d - 10)

-- "%02x" of a byte, before `rest`.
abbrev pub hex2 : ℕ → ℕ → List ℕ → List ℕ
hex2 ten b rest = hex_digit ten (b / 16) ∷ hex_digit ten (b % 16) ∷ rest

-- Six bytes with a separator between them, before `rest`.
abbrev pub print_mac : ℕ → ℕ → Mac → List ℕ → List ℕ
print_mac ten sep m rest = hex2 ten m.b0 (
    sep
    ∷ hex2 ten m.b1 (
        sep ∷ hex2 ten m.b2 (sep ∷ hex2 ten m.b3 (sep ∷ hex2 ten m.b4 (sep ∷ hex2 ten m.b5 rest)))))

-- "%02x:%02x:%02x:%02x:%02x:%02x"
unfoldable pub mac_str : Mac → List ℕ
mac_str m = print_mac b'a' b':' m []

-- "%02X-%02X-%02X-%02X-%02X-%02X"
unfoldable pub mac_str_reg : Mac → List ℕ
mac_str_reg m = print_mac b'A' b'-' m []

-- A hexadecimal digit of either case.
unfoldable pub hex_val : ℕ → Option ℕ
hex_val c =
    if leb b'0' c && leb c b'9'
    then some (c - b'0')
    else if leb b'a' c && leb c b'f'
    then some (c - b'a' + 10)
    else if leb b'A' c && leb c b'F'
    then some (c - b'A' + 10)
    else none

-- The digits at the front, and what is behind them.
unfoldable pub hex_digits : ℕ → List ℕ → ℕ × List ℕ
hex_digits acc [] = (acc, [])
hex_digits acc (c ∷ s) = elim (hex_val c) [
  | none ↦ (acc, c ∷ s)
  | some d ↦ hex_digits (acc * 16 + d) s
]

-- At least one digit.
unfoldable pub hex_number : List ℕ → Option (ℕ × List ℕ)
hex_number [] = none
hex_number (c ∷ s) = elim (hex_val c) [ none ↦ none | some d ↦ some (hex_digits d s) ]

-- A prefix "0x" before a digit is passed over.
unfoldable pub hex_prefixed : List ℕ → Option (ℕ × List ℕ)
hex_prefixed (z ∷ x ∷ c ∷ s) =
    if z == b'0' && (x == b'x' || x == b'X')
    then elim (hex_val c) [ none ↦ hex_number (z ∷ x ∷ c ∷ s) | some d ↦ hex_number (c ∷ s) ]
    else hex_number (z ∷ x ∷ c ∷ s)
hex_prefixed s = hex_number s

-- A conversion `%x` of `scanf` into an unsigned number of `size` values (256 for `%hhx`): white space,
-- a sign, the number.
abbrev pub scan_signed : ℕ → List ℕ → Option (ℕ × List ℕ)
scan_signed size [] = none
scan_signed size (c ∷ s) =
    if c == b'-'
    then elim (hex_prefixed s) [ none ↦ none | some (n, r) ↦ some ((size - n % size) % size, r) ]
    else if c == b'+'
    then elim (hex_prefixed s) [ none ↦ none | some (n, r) ↦ some (n % size, r) ]
    else elim (hex_prefixed (c ∷ s)) [ none ↦ none | some (n, r) ↦ some (n % size, r) ]

unfoldable pub scan_hex : ℕ → List ℕ → Option (ℕ × List ℕ)
scan_hex size s = scan_signed size (skip_space s)

-- The literal character between two conversions.
unfoldable pub scan_char : ℕ → List ℕ → Option (List ℕ)
scan_char sep [] = none
scan_char sep (c ∷ s) = if c == sep then some s else none

-- `sscanf(line, "%hhx:%hhx:%hhx:%hhx:%hhx:%hhx", ...) == 6`, and with another separator and size.
unfoldable pub scan_mac : ℕ → ℕ → List ℕ → Option Mac
scan_mac size sep s = do
  (b0, s) ← scan_hex size s
  s ← scan_char sep s
  (b1, s) ← scan_hex size s
  s ← scan_char sep s
  (b2, s) ← scan_hex size s
  s ← scan_char sep s
  (b3, s) ← scan_hex size s
  s ← scan_char sep s
  (b4, s) ← scan_hex size s
  s ← scan_char sep s
  (b5, s) ← scan_hex size s
  some (record { b0 = b0; b1 = b1; b2 = b2; b3 = b3; b4 = b4; b5 = b5 })
