-- ===== src/Firmware/Versions.antt =====
-- src/meshprovision/firmware.py. Firmware versions as devices report them, printed and read back.
use native.Mathlib.Omega.{arith}
use meshprovision.Common.{
  ℕ, ◌≡◌, refl, Bool, true, false, ◌&&◌, ◌||◌, some, [], ◌∷◌, ◌++◌, is_empty, all, ltb, leb, ◌==◌,
  if◌then◌else◌, &&_parts,
}
use meshprovision.Common.Text.{Text, is_digit, is_space, lstrip}
use meshprovision.NodeId.{decimal}
use meshprovision.NodeId.Printing.{is_empty-decimal, all-is_digit-decimal, of_digits-decimal}
use meshprovision.Firmware.{
  Version, span_digits, number, dot, drop_v, parse_firmware_version, at_least,
  derives_node_id_from_key, ◌>>=◌,
}

abbrev pub digits : ℕ → Text
digits n = decimal (record { num = n })

abbrev pub starts_with_digit : Text → Bool
starts_with_digit [] = false
starts_with_digit (c ∷ s) = is_digit c

span_digits-append :
    (ds s : Text)
    → all is_digit ds ≡ true
    → starts_with_digit s ≡ false
    → span_digits (ds ++ s) ≡ (ds, s)
unfolding span_digits
span_digits-append [] [] a h = refl
span_digits-append [] (c ∷ s) a h = rw h refl
span_digits-append (d ∷ ds) s a h =
    let parts = &&_parts (is_digit d) (all is_digit ds) a in
    rw (parts.0, span_digits-append ds s parts.1 h) refl

number-digits :
    (n : ℕ) (s : Text) → starts_with_digit s ≡ false → number (digits n ++ s) ≡ some (n, s)
unfolding number
number-digits n s h =
    rw
      (
        span_digits-append (digits n) s (all-is_digit-decimal (record { num = n })) h,
        is_empty-decimal (record { num = n }),
        of_digits-decimal (record { num = n }),
      )
      refl

abbrev from_patch : Version → Text → Text
from_patch v s = b'.' ∷ (digits v.patch ++ s)

abbrev from_minor : Version → Text → Text
from_minor v s = b'.' ∷ (digits v.minor ++ from_patch v s)

-- `X.Y.Z` of a version, and what follows it.
abbrev pub dotted : Version → Text → Text
dotted v s = digits v.major ++ from_minor v s

abbrev pub with_v : Bool → Text → Text
with_v has_v s = if has_v then b'v' ∷ s else s

-- What may stand in front of the version: white space, and a `v`.
abbrev pub prefixed : Text → Bool → Text → Text
prefixed spaces has_v s = spaces ++ with_v has_v s

lstrip-append :
    (spaces s : Text) → all is_space spaces ≡ true → lstrip s ≡ s → lstrip (spaces ++ s) ≡ s
lstrip-append [] s a h = h
lstrip-append (c ∷ spaces) s a h =
    let parts = &&_parts (is_space c) (all is_space spaces) a in
    rw parts.0 (lstrip-append spaces s parts.1 h)

digit_not_space : (c : ℕ) → is_digit c ≡ true → is_space c ≡ false
unfolding is_space
digit_not_space c h = ground arith

lstrip-with_v :
    (s : Text) (has_v : Bool)
    → starts_with_digit s ≡ true
    → lstrip (with_v has_v s) ≡ with_v has_v s
lstrip-with_v s true h = unfold is_space in refl
lstrip-with_v [] false h = refl
lstrip-with_v (c ∷ s) false h = rw (digit_not_space c h) refl

drop_v-with_v : (s : Text) (has_v : Bool) → starts_with_digit s ≡ true → drop_v (with_v has_v s) ≡ s
unfolding drop_v
drop_v-with_v s true h = refl
drop_v-with_v [] false h = refl
drop_v-with_v (c ∷ s) false h = ground arith

starts_with_digit-append :
    (ds s : Text)
    → is_empty ds ≡ false
    → all is_digit ds ≡ true
    → starts_with_digit (ds ++ s) ≡ true
starts_with_digit-append [] s e a = cc
starts_with_digit-append (d ∷ ds) s e a = (&&_parts (is_digit d) (all is_digit ds) a).0

starts_with_digit-digits : (n : ℕ) (s : Text) → starts_with_digit (digits n ++ s) ≡ true
starts_with_digit-digits n s =
    starts_with_digit-append (digits n) s (is_empty-decimal (record { num = n }))
      (all-is_digit-decimal (record { num = n }))

parse_dotted :
    (v : Version) (rest : Text)
    → starts_with_digit rest ≡ false
    → (do
      major ← number (dotted v rest)
      after_major ← dot major.1
      minor ← number after_major
      after_minor ← dot minor.1
      patch ← number after_minor
      some (record { major = major.0; minor = minor.0; patch = patch.0 }))
      ≡ some v
unfolding dot
parse_dotted v rest h =
    rw
      (
        number-digits v.major (from_minor v rest) refl,
        number-digits v.minor (from_patch v rest) refl,
        number-digits v.patch rest h,
      )
      refl

-- A version text that a device reports, with white space or a `v` in front and anything but a digit
-- behind, is read as its three numbers, and it counts as deriving ids from keys exactly from 2.8.0.
parse_firmware_version-dotted :
    (v : Version) (spaces : Text) (has_v : Bool) (rest : Text)
    → all is_space spaces ≡ true
    → starts_with_digit rest ≡ false
    → (parse_firmware_version (prefixed spaces has_v (dotted v rest)) ≡ some v)
      × (derives_node_id_from_key (prefixed spaces has_v (dotted v rest))
          ≡ (ltb 2 v.major || (v.major == 2 && leb 8 v.minor)))
unfolding parse_firmware_version derives_node_id_from_key at_least
parse_firmware_version-dotted v spaces has_v rest a h =
    let first = starts_with_digit-digits v.major (from_minor v rest) in
    let e : parse_firmware_version (prefixed spaces has_v (dotted v rest)) ≡ some v =
      rw
        (
          lstrip-append spaces (with_v has_v (dotted v rest)) a
              (lstrip-with_v (dotted v rest) has_v first),
          drop_v-with_v (dotted v rest) has_v first,
        )
        (parse_dotted v rest h) in
    (e, rw (e, derives_node_id_from_key) (ground arith))
