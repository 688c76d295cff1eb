-- ===== src/Mac/RoundTrip.antt =====
-- A printed MAC address is read back, in both formats: `mac_str` by "%hhx:...", `mac_str_reg` by
-- "%x-...".
use v4_with_v6_nh.Common.{
  ℕ, ◌+◌, ◌*◌, ◌/◌, ◌%◌, ◌<◌, ◌≡◌, ◌≢◌, refl, ◌∙◌, ap, true, false, none, some, List, [], ◌∷◌,
  arith, ◌⊎◌, inl, inr, All,
}
use v4_with_v6_nh.Common.Text.Laws.{memcmp_eq_iff, memcmp_eq_refl, IsBytes}
use v4_with_v6_nh.Common.Text.Numbers.{is_space, skip_space}
use v4_with_v6_nh.Mac.{
  Mac, bytes, mac_eq, hex_digit, hex2, print_mac, mac_str, mac_str_reg, hex_val, hex_digits,
  hex_number, hex_prefixed, scan_hex, scan_char, scan_mac,
}

-- Six bytes.
abbrev pub IsMac : Mac → Type 0
IsMac m = IsBytes (bytes m)

pub mac_eq→ : (a b : Mac) → mac_eq a b ≡ true → a ≡ b
unfolding mac_eq
mac_eq→ a b h = let e = memcmp_eq_iff (bytes a) (bytes b) refl h in ground (arith, e)

pub mac_eq_refl : (a : Mac) → mac_eq a a ≡ true
unfolding mac_eq
mac_eq_refl a = memcmp_eq_refl (bytes a)

-- The letter for ten of a format.
abbrev pub IsTen : ℕ → Type 0
IsTen ten = (ten ≡ b'a') ⊎ (ten ≡ b'A')

record IsHex (c d : ℕ) : Type 0 where
  digit : hex_val c ≡ some d
  no_space : is_space c ≡ false
  no_minus : c ≢ b'-'
  no_plus : c ≢ b'+'
  no_x : (c ≢ b'x') × (c ≢ b'X')
  no_newline : (c ≢ 0) × (c ≢ 10)

hex_digit-IsHex : (ten d : ℕ) → IsTen ten → d < 16 → IsHex (hex_digit ten d) d
unfolding hex_digit hex_val
hex_digit-IsHex ten d t h = ground arith

-- What stands behind a number is no digit of it.
abbrev pub Stops : List ℕ → Type 0
Stops [] = Unit
Stops (c ∷ s) = hex_val c ≡ none

hex_digits-two :
    (l d e : ℕ) (rest : List ℕ)
    → hex_val l ≡ some e
    → Stops rest
    → hex_digits d (l ∷ rest) ≡ (d * 16 + e, rest)
unfolding hex_digits
hex_digits-two l d e [] hl st = ground arith
hex_digits-two l d e (c ∷ rest) hl st = ground arith

hex_number-two :
    (h l d e : ℕ) (rest : List ℕ)
    → hex_val h ≡ some d
    → hex_val l ≡ some e
    → Stops rest
    → hex_number (h ∷ l ∷ rest) ≡ some (d * 16 + e, rest)
unfolding hex_number
hex_number-two h l d e rest hh hl st = ground (arith, hex_digits-two l d e rest hl st)

hex_prefixed-two :
    (h l : ℕ) (rest : List ℕ)
    → (l ≢ b'x') × (l ≢ b'X')
    → hex_prefixed (h ∷ l ∷ rest) ≡ hex_number (h ∷ l ∷ rest)
unfolding hex_prefixed
hex_prefixed-two h l [] no_x = refl
hex_prefixed-two h l (c ∷ rest) no_x = ground arith

skip_space-stop : (h : ℕ) (s : List ℕ) → is_space h ≡ false → skip_space (h ∷ s) ≡ h ∷ s
unfolding skip_space
skip_space-stop h s e = ground arith

scan_two :
    (size h l d e : ℕ) (rest : List ℕ)
    → IsHex h d
    → IsHex l e
    → Stops rest
    → scan_hex size (h ∷ l ∷ rest) ≡ some ((d * 16 + e) % size, rest)
unfolding scan_hex
scan_two size h l d e rest a b st = rw (skip_space-stop h (l ∷ rest) a.no_space) (
    ground
      (arith, hex_prefixed-two h l rest b.no_x, hex_number-two h l d e rest a.digit b.digit st))

-- The sizes of `%hhx` and of `%x`.
abbrev pub IsSize : ℕ → Type 0
IsSize size = (size ≡ 256) ⊎ (size ≡ 4294967296)

scan_hex2 :
    (size ten b : ℕ) (rest : List ℕ)
    → IsSize size
    → IsTen ten
    → b < 256
    → Stops rest
    → scan_hex size (hex2 ten b rest) ≡ some (b, rest)
scan_hex2 size ten b rest sz t h st =
    scan_two size _ _ (b / 16) (b % 16) rest (hex_digit-IsHex ten (b / 16) t (omega arith))
      (hex_digit-IsHex ten (b % 16) t (omega arith)) st
    ∙ ap (λ n. some (n, rest)) (whole sz)
  where
    whole : IsSize size → (b / 16 * 16 + b % 16) % size ≡ b
    whole (inl e) = rw e (omega arith)
    whole (inr e) = rw e (omega arith)

scan_char-same : (sep : ℕ) (s : List ℕ) → scan_char sep (sep ∷ s) ≡ some s
unfolding scan_char
scan_char-same sep s = ground arith

-- Six printed bytes are read back, whatever text follows that does not begin with a digit.
scan_mac-print_mac :
    (size ten sep : ℕ) (m : Mac) (rest : List ℕ)
    → IsSize size
    → IsTen ten
    → hex_val sep ≡ none
    → IsMac m
    → Stops rest
    → scan_mac size sep (print_mac ten sep m rest) ≡ some m
unfolding scan_mac
scan_mac-print_mac size ten sep m rest sz t no_digit h st = rw (
  scan_hex2 size ten m.b0 _ sz t h.0 no_digit,
  scan_char-same sep _,
  scan_hex2 size ten m.b1 _ sz t h.1.0 no_digit,
  scan_char-same sep _,
  scan_hex2 size ten m.b2 _ sz t h.1.1.0 no_digit,
  scan_char-same sep _,
  scan_hex2 size ten m.b3 _ sz t h.1.1.1.0 no_digit,
  scan_char-same sep _,
  scan_hex2 size ten m.b4 _ sz t h.1.1.1.1.0 no_digit,
  scan_char-same sep _,
  scan_hex2 size ten m.b5 _ sz t h.1.1.1.1.1.0 st,
)

-- "%hhx:..." reads back what `mac_str` has printed, before a newline as at the end of the text.
pub scan-mac_str : (m : Mac) → IsMac m → scan_mac 256 b':' (mac_str m) ≡ some m
unfolding mac_str hex_val
scan-mac_str m h = scan_mac-print_mac 256 b'a' b':' m [] (inl refl) (inl refl) refl h tt

pub scan-mac_line :
    (m : Mac) → IsMac m → scan_mac 256 b':' (print_mac b'a' b':' m (10 ∷ [])) ≡ some m
unfolding hex_val
scan-mac_line m h = scan_mac-print_mac 256 b'a' b':' m (10 ∷ []) (inl refl) (inl refl) refl h refl

-- "%x-..." reads back what `mac_str_reg` has printed.
pub scan-mac_str_reg : (m : Mac) → IsMac m → scan_mac 4294967296 b'-' (mac_str_reg m) ≡ some m
unfolding mac_str_reg hex_val
scan-mac_str_reg m h = scan_mac-print_mac 4294967296 b'A' b'-' m [] (inr refl) (inr refl) refl h tt

high : (b : ℕ) → b < 256 → hex_digit b'a' (b / 16) ≢ 10
high b h = (hex_digit-IsHex b'a' (b / 16) (inl refl) (omega arith)).no_newline.1

low : (b : ℕ) → b < 256 → hex_digit b'a' (b % 16) ≢ 10
low b h = (hex_digit-IsHex b'a' (b % 16) (inl refl) (omega arith)).no_newline.1

-- The text holds no newline.
pub mac_str-no_newline : (m : Mac) → IsMac m → All (λ c. c ≢ 10) (mac_str m)
unfolding mac_str
mac_str-no_newline m h = (
  high m.b0 h.0,
  (
    low m.b0 h.0,
    (
      colon,
      (
        high m.b1 h.1.0,
        (
          low m.b1 h.1.0,
          (
            colon,
            (
              high m.b2 h.1.1.0,
              (
                low m.b2 h.1.1.0,
                (
                  colon,
                  (
                    high m.b3 h.1.1.1.0,
                    (
                      low m.b3 h.1.1.1.0,
                      (
                        colon,
                        (
                          high m.b4 h.1.1.1.1.0,
                          (
                            low m.b4 h.1.1.1.1.0,
                            (colon, (high m.b5 h.1.1.1.1.1.0, (low m.b5 h.1.1.1.1.1.0, tt))),
                          ),
                        ),
                      ),
                    ),
                  ),
                ),
              ),
            ),
          ),
        ),
      ),
    ),
  ),
)
  where
    colon : ◌≢◌ {A = ℕ} b':' 10
    colon e = omega arith
