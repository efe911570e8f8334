-- ===== src/Firmware.antt =====
-- src/meshprovision/firmware.py: firmware version texts, and the versions from which firmware
-- behaves differently. Digits are the ASCII ones.
pub mod Versions
mod Tests
use native.Mathlib.Omega.{arith}
use meshprovision.Common.{
  ℕ, ◌-◌, Bool, true, false, ◌&&◌, ◌||◌, Option, none, some, List, [], ◌∷◌, map, is_empty, ltb, leb,
  ◌==◌, if◌then◌else◌,
}
use meshprovision.Common.Text.{Text, is_digit, lstrip}
use meshprovision.Common.Digits.{of_digits}

pub record Version : Type 0 where
  pub major : ℕ
  pub minor : ℕ
  pub patch : ℕ

-- `\d+` after what was read: the digits in front, and the rest.
unfoldable pub span_digits : Text → List ℕ × Text
span_digits [] = ([], [])
span_digits (c ∷ s) =
    let rest = span_digits s in if is_digit c then (c ∷ rest.0, rest.1) else ([], c ∷ s)

-- `(\d+)`, as the number that `int` makes of it, and the rest.
unfoldable pub number : Text → Option (ℕ × Text)
unfolding span_digits
number s =
    let parts = span_digits s in
    if is_empty parts.0 then none else some (of_digits 10 0 (map (λ c. c - 48) parts.0), parts.1)

-- `\.`
unfoldable pub dot : Text → Option Text
dot [] = none
dot (c ∷ s) = if c == b'.' then some s else none

-- `v?`
unfoldable pub drop_v : Text → Text
drop_v [] = []
drop_v (c ∷ s) = if c == b'v' then s else c ∷ s

infixl 5 ◌>>=◌
abbrev pub ◌>>=◌ : {A B : Type 0} → Option A → (A → Option B) → Option B
none >>= f = none
some a >>= f = f a

unfoldable pub parse_firmware_version : Text → Option Version
unfolding drop_v number dot
parse_firmware_version raw = do
  major ← number (drop_v (lstrip raw))
  after_major ← dot major.1
  minor ← number after_major
  after_minor ← dot minor.1
  patch ← number after_minor
  some (record { major = major.0; minor = minor.0; patch = patch.0 })

-- `a >= b` of version tuples.
unfoldable pub at_least : Version → Version → Bool
at_least a b =
    ltb b.major a.major
    || (a.major == b.major && (ltb b.minor a.minor || (a.minor == b.minor && leb b.patch a.patch)))

abbrev pub key_derived_id_min_firmware : Version
key_derived_id_min_firmware = record { major = 2; minor = 8; patch = 0 }

unfoldable pub derives_node_id_from_key : Text → Bool
unfolding parse_firmware_version at_least
derives_node_id_from_key raw = elim (parse_firmware_version raw) [
  | none ↦ false
  | some parsed ↦ at_least parsed key_derived_id_min_firmware
]
