-- ===== src/NodeId/Parsing.antt =====
-- src/meshprovision/nodeid.py, the parsers: what they return on the printed forms, and the range of
-- every id that they return.
use native.Mathlib.Omega.{arith}
use meshprovision.Common.{
  ◌↔◌, ℕ, suc, ◌+◌, ◌-◌, ◌^◌, ◌≤◌, ◌<◌, ◌≡◌, ◌⊎◌, refl, ◌∙◌, ap, sym, subst, true, false, not, List,
  [], ◌∷◌, map, ltb, le→leb, ◌==◌, length, all, is_empty, ok,
}
use meshprovision.Common.Int.{ℤ, pos, negsuc}
use meshprovision.Common.Digits.{of_digits}
use meshprovision.Common.Text.{
  Text, codes, is_space, is_ascii, is_digit, all_digits, lower, strip, strip_id, starts_with,
}
use meshprovision.NodeId.{
  NodeId, IsValid, Raw, str, node, int, bool, other, node_id_max, make, hex, display, decimal,
  hex_value, is_hex, has_0x, drop_bang, drop_0x, hex_token, decimal_token, parse_token, from_int,
  from_hex, from_decimal, from_display, parse, key_derived_id,
}
use meshprovision.NodeId.Printing.{
  all-weaken, is_hex-not-is_space, is_hex-ascii, is_digit-is_hex, lower-hex, all-is_hex-hex,
  length-hex, of_digits-hex, of_digits-hex_value-lt, is_empty-decimal, all-is_digit-decimal,
  of_digits-decimal, length-decimal-le, length-decimal-gt,
}

make_valid : (n : ℕ) → n ≤ node_id_max → make (pos n) ≡ ok (record { num = n })
unfolding make
make_valid n h = rw (le→leb n node_id_max h)

-- Plain hex text: no white space, no `!`, no `0x`, nothing that `lower` changes.
module _ (s : Text) (a : all is_hex s ≡ true) where
  strip-hex : strip s ≡ s
  strip-hex = strip_id s (all-weaken is_hex (λ c. not (is_space c)) is_hex-not-is_space s a)

  ascii-hex : is_ascii s ≡ true
  ascii-hex = all-weaken is_hex (λ c. ltb c 128) is_hex-ascii s a

no_bang : (s : Text) → all is_hex s ≡ true → starts_with (codes "!") s ≡ false
unfolding starts_with
no_bang [] a = refl
no_bang (c ∷ s) a = ground arith

no_0x : (s : Text) → all is_hex s ≡ true → has_0x s ≡ false
no_0x [] a = refl
no_0x (c ∷ []) a = ground arith
no_0x (c ∷ d ∷ s) a = ground arith

-- A hex text of one to eight characters is read as its number.
from_hex-of_hex :
    (s : Text)
    → all is_hex s ≡ true
    → is_empty s ≡ false
    → length s ≤ 8
    → from_hex s ≡ make (pos (of_digits 16 0 (map hex_value s)))
unfolding from_hex
from_hex-of_hex s a e l =
    rw (strip-hex s a, no_bang s a, no_0x s a, lower-hex s a, ascii-hex s a, e, a) (ground arith)

strip-bang : (s : Text) → all is_hex s ≡ true → strip (b'!' ∷ s) ≡ b'!' ∷ s
unfolding is_space
strip-bang s a =
    strip_id (b'!' ∷ s) (all-weaken is_hex (λ c. not (is_space c)) is_hex-not-is_space s a)

-- The display form of a hex text is read as the text is.
from_display-of_hex : (s : Text) → all is_hex s ≡ true → from_display (b'!' ∷ s) ≡ from_hex s
unfolding from_display from_hex starts_with
from_display-of_hex s a =
    rw (strip-bang s a) (rw (strip-bang s a, strip-hex s a) (rw (no_bang s a) refl))

not_empty : (s : Text) → length s ≡ 8 → is_empty s ≡ false
not_empty [] l = absurd (omega arith)
not_empty (c ∷ s) l = refl

parse-of_hex : (s : Text) → all is_hex s ≡ true → length s ≡ 8 → parse (str s) ≡ from_hex s
unfolding parse
parse-of_hex s a l =
    rw (strip-hex s a, no_bang s a, no_0x s a, lower-hex s a, a, not_empty s l, l) refl

-- A text of eight lowercase hex characters, all of them digits or not, is read by `parse` as hexadecimal.
parse_eight :
    (s : Text)
    → all is_hex s ≡ true
    → length s ≡ 8
    → parse (str s) ≡ ok (record { num = of_digits 16 0 (map hex_value s) })
parse_eight s a l =
    let below =
      subst (λ k. of_digits 16 0 (map hex_value s) < 16 ^ k) l (of_digits-hex_value-lt s a) in
    parse-of_hex s a l
    ∙ from_hex-of_hex s a (not_empty s l) (omega arith)
    ∙ make_valid (of_digits 16 0 (map hex_value s)) (omega arith)

module _ (n : NodeId) (v : IsValid n) where
  open_hex : from_hex (hex n) ≡ ok n
  open_hex =
      let l = length-hex n v in
      from_hex-of_hex (hex n) (all-is_hex-hex n) (not_empty (hex n) l) (omega arith)
      ∙ ap (λ k. make (pos k)) (of_digits-hex n)
      ∙ make_valid n.num v

  open_display : from_display (display n) ≡ ok n
  unfolding display
  open_display = from_display-of_hex (hex n) (all-is_hex-hex n) ∙ open_hex

  -- Printing an id of the 32-bit range and reading the text back gives the id, for the bare and for
  -- the display form, by the exact parser and by the heuristic one.
  pub round_trip :
      (from_hex (hex n) ≡ ok n)
      × (from_display (display n) ≡ ok n)
      × (parse (str (hex n)) ≡ ok n)
      × (parse (str (display n)) ≡ ok n)
  unfolding display parse starts_with
  round_trip = (
    open_hex,
    open_display,
    parse-of_hex (hex n) (all-is_hex-hex n) (length-hex n v) ∙ open_hex,
    rw (strip-bang (hex n) (all-is_hex-hex n)) open_display,
  )

all_digits_of : (s : Text) → is_empty s ≡ false → all is_digit s ≡ true → all_digits s ≡ true
all_digits_of [] e a = cc
all_digits_of (c ∷ s) e a = a

module _ (s : Text) (a : all is_digit s ≡ true) where
  hex_of_digits : all is_hex s ≡ true
  hex_of_digits = all-weaken is_digit is_hex is_digit-is_hex s a

  from_decimal-of_digits :
      is_empty s ≡ false
      → of_digits 10 0 (map (λ c. c - 48) s) ≤ node_id_max
      → from_decimal (str s) ≡ make (pos (of_digits 10 0 (map (λ c. c - 48) s)))
  unfolding from_decimal
  from_decimal-of_digits e small =
      rw
        (
          strip-hex s hex_of_digits,
          e,
          ascii-hex s hex_of_digits,
          all_digits_of s e a,
          le→leb (of_digits 10 0 (map (λ c. c - 48) s)) node_id_max small,
        )
        refl

  parse-of_digits :
      is_empty s ≡ false → (length s == 8) ≡ false → parse (str s) ≡ from_decimal (str s)
  unfolding parse
  parse-of_digits e l =
      rw
        (
          strip-hex s hex_of_digits,
          no_bang s hex_of_digits,
          no_0x s hex_of_digits,
          e,
          l,
          ascii-hex s hex_of_digits,
          all_digits_of s e a,
        )
        refl

-- The decimal form of an id of the 32-bit range is read back as the id by `from_decimal`.
from_decimal-decimal : (n : NodeId) → IsValid n → from_decimal (str (decimal n)) ≡ ok n
from_decimal-decimal n v =
    from_decimal-of_digits (decimal n) (all-is_digit-decimal n) (is_empty-decimal n)
      (rw (of_digits-decimal n) v)
    ∙ ap (λ k. make (pos k)) (of_digits-decimal n)
    ∙ make_valid n.num v

-- The decimal form of an id of the 32-bit range that is below 10^7, or 10^8 or more, is read back as
-- the id by `parse`.
parse-decimal :
    (n : NodeId) → IsValid n → (n.num < 10 ^ 7) ⊎ (10 ^ 8 ≤ n.num) → parse (str (decimal n)) ≡ ok n
parse-decimal n v h =
    parse-of_digits (decimal n) (all-is_digit-decimal n) (is_empty-decimal n)
      (ground (arith, length-decimal-le n, length-decimal-gt n))
    ∙ from_decimal-decimal n v

from_int-IsValid : (i : ℤ) (n : NodeId) → from_int i ≡ ok n → IsValid n
unfolding from_int
from_int-IsValid (pos k) n e = ground arith
from_int-IsValid (negsuc k) n e = ground arith

hex_token-IsValid : (s : Text) (n : NodeId) → hex_token s ≡ ok n → IsValid n
unfolding hex_token
hex_token-IsValid s n e = ground arith

from_hex-IsValid : (s : Text) (n : NodeId) → from_hex s ≡ ok n → IsValid n
from_hex-IsValid s n e =
    unfold from_hex in hex_token-IsValid (lower (drop_0x (drop_bang (strip s)))) n e

from_display-IsValid : (s : Text) (n : NodeId) → from_display s ≡ ok n → IsValid n
unfolding from_display
from_display-IsValid s n e = ground (arith, from_hex-IsValid (strip s) n)

decimal_token-IsValid : (s : Text) (n : NodeId) → decimal_token s ≡ ok n → IsValid n
unfolding decimal_token
decimal_token-IsValid s n e = ground arith

from_decimal-IsValid : (s : Text) (n : NodeId) → from_decimal (str s) ≡ ok n → IsValid n
from_decimal-IsValid s n e = unfold from_decimal in decimal_token-IsValid (strip s) n e

parse_token-IsValid : (s : Text) (n : NodeId) → parse_token s ≡ ok n → IsValid n
unfolding parse_token
parse_token-IsValid s n e =
    ground (arith, from_display-IsValid s n, from_hex-IsValid s n, from_decimal-IsValid s n)

-- Whatever `parse` is handed, an id that it returns lies in the 32-bit range, if an id that it was
-- handed did.
parse-IsValid :
    (raw : Raw) (n : NodeId)
    → ((m : NodeId) → raw ≡ node m → IsValid m)
    → parse raw ≡ ok n
    → IsValid n
unfolding parse
parse-IsValid (node m) n h e = ground (arith, h m refl)
parse-IsValid (int i) n h e = from_int-IsValid i n e
parse-IsValid (bool b) n h e = cc
parse-IsValid (str s) n h e = parse_token-IsValid (strip s) n e
parse-IsValid other n h e = cc

-- An int and the id that it is read as: a negative one is a signed 32-bit word, and its id is
-- congruent to it modulo 2^32.
abbrev pub IsWord : ℤ → NodeId → Type 0
IsWord (pos k) n = (k < 2 ^ 32) × (n.num ≡ k)
IsWord (negsuc k) n = (k < 2 ^ 31) × (n.num + suc k ≡ 2 ^ 32)

num_injective : (m n : NodeId) → m.num ≡ n.num → m ≡ n
num_injective m n h = ap (λ (k : ℕ). record { num = k }) h

-- An int is read as an id exactly when it fits an unsigned or a signed 32-bit word, and the id is
-- then the int, or the int plus 2^32 when it is negative.
from_int-eq_ok_iff : (i : ℤ) (n : NodeId) → (from_int i ≡ ok n) ↔ IsWord i n
unfolding from_int
from_int-eq_ok_iff (pos k) n = (
  λ e. (ground arith, ground arith),
  λ (small, e). ground (arith, num_injective (record { num = k }) n (omega arith)),
)
from_int-eq_ok_iff (negsuc k) n = (
  λ e. (ground arith, ground arith),
  λ (small, e). ground (arith, num_injective (record { num = 2 ^ 32 - (k + 1) }) n (omega arith)),
)

-- A key has an id exactly when it is 32 bytes long, and the id is its checksum, when the checksum
-- is a 32-bit number.
key_derived_id-eq_ok_iff :
    (crc32 : List ℕ → ℕ) (key : List ℕ) (n : NodeId)
    → ((k : List ℕ) → crc32 k < 2 ^ 32)
    → (key_derived_id crc32 key ≡ ok n) ↔ ((length key ≡ 32) × (n.num ≡ crc32 key))
unfolding key_derived_id
key_derived_id-eq_ok_iff crc32 key n bound = (
  λ e. (ground arith, ground arith),
  λ (l, e). ground (arith, bound key, num_injective (record { num = crc32 key }) n (sym e)),
)
