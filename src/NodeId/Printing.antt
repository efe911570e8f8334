-- ===== src/NodeId/Printing.antt =====
-- src/meshprovision/nodeid.py, the printed forms: their characters, their widths and the numbers
-- that they stand for.
use native.Mathlib.Omega.{arith}
use native.Mathlib.Decide.{dec_lt}
use native.Mathlib.Nat.{pow-le-pow_right, zero-add}
use meshprovision.Common.{
  ℕ, suc, ◌+◌, ◌-◌, ◌/◌, ◌%◌, zero, ◌^◌, ◌≤◌, ◌<◌, ◌≡◌, refl, ◌∙◌, ap, Bool, true, false, not, List,
  [], ◌∷◌, map, ltb, length, is_empty, replicate, all, length-append, length-replicate, all-append,
  all-replicate, &&_parts,
}
use meshprovision.Common.Digits.{
  of_digits, to_digits, of_digits-to_digits, to_digits-lt, length-to_digits, of_digits-zeros,
  of_digits-lt,
}
use meshprovision.Common.Text.{Text, is_space, is_digit, lower, lower_char}
use meshprovision.NodeId.{NodeId, IsValid, hex, decimal, pad, hex_char, hex_value, is_hex}

module _ (f : ℕ → ℕ) (p q : ℕ → Bool) where
  -- A test that every digit's character passes.
  all-map :
      ((d : ℕ) → p d ≡ true → q (f d) ≡ true)
      → (ds : List ℕ) → all p ds ≡ true
      → all q (map f ds) ≡ true
  all-map h [] a = refl
  all-map h (d ∷ ds) a =
      let parts = &&_parts (p d) (all p ds) a in rw (h d parts.0, all-map h ds parts.1)

module _ (f g : ℕ → ℕ) (p : ℕ → Bool) where
  -- Reading back what was printed digit by digit.
  map-inverse :
      ((d : ℕ) → p d ≡ true → g (f d) ≡ d) → (ds : List ℕ) → all p ds ≡ true → map g (map f ds) ≡ ds
  map-inverse h [] a = refl
  map-inverse h (d ∷ ds) a =
      let parts = &&_parts (p d) (all p ds) a in cc (h d parts.0, map-inverse h ds parts.1)

length-map : (f : ℕ → ℕ) (xs : List ℕ) → length (map f xs) ≡ length xs
length-map f [] = refl
length-map f (x ∷ xs) = ap suc (length-map f xs)

-- A test of characters that is weaker than another.
pub all-weaken :
    (p q : ℕ → Bool)
    → ((c : ℕ) → p c ≡ true → q c ≡ true)
    → (s : Text) → all p s ≡ true
    → all q s ≡ true
all-weaken p q h [] a = refl
all-weaken p q h (c ∷ s) a =
    let parts = &&_parts (p c) (all p s) a in rw (h c parts.0, all-weaken p q h s parts.1)

pub is_hex-not-is_space : (c : ℕ) → is_hex c ≡ true → not (is_space c) ≡ true
unfolding is_space
is_hex-not-is_space c h = ground arith

pub is_hex-ascii : (c : ℕ) → is_hex c ≡ true → ltb c 128 ≡ true
is_hex-ascii c h = ground arith

pub is_digit-is_hex : (c : ℕ) → is_digit c ≡ true → is_hex c ≡ true
is_digit-is_hex c h = ground arith

lower_char-is_hex : (c : ℕ) → is_hex c ≡ true → lower_char c ≡ c
lower_char-is_hex c h = ground arith

pub lower-hex : (s : Text) → all is_hex s ≡ true → lower s ≡ s
unfolding lower
lower-hex [] a = refl
lower-hex (c ∷ s) a =
    let parts = &&_parts (is_hex c) (all is_hex s) a in
    cc (lower_char-is_hex c parts.0, lower-hex s parts.1)

hex_digits : NodeId → List ℕ
unfolding pad
hex_digits n = pad 8 (to_digits 16 (suc n.num) n.num [])

hex_digits-lt : (n : NodeId) → all (λ d. ltb d 16) (hex_digits n) ≡ true
unfolding hex_digits
hex_digits-lt n =
    let ds = to_digits 16 (suc n.num) n.num [] in
    rw (
      all-append (λ d. ltb d 16) (replicate (8 - length ds) 0) ds,
      all-replicate (λ d. ltb d 16) (8 - length ds) 0 refl,
      to_digits-lt 16 (omega arith) (suc n.num) n.num [] (omega arith) refl,
    )

pub all-is_hex-hex : (n : NodeId) → all is_hex (hex n) ≡ true
unfolding hex hex_digits
all-is_hex-hex n =
    all-map hex_char (λ d. ltb d 16) is_hex (λ d h. ground arith) (hex_digits n) (hex_digits-lt n)

pub length-hex : (n : NodeId) → IsValid n → length (hex n) ≡ 8
unfolding hex hex_digits
length-hex n v =
    let ds = to_digits 16 (suc n.num) n.num [] in
    let short =
      length-to_digits 16 (omega arith) 7 (suc n.num) n.num [] (omega arith) (omega arith) in
    length-map hex_char (hex_digits n)
    ∙ length-append (replicate (8 - length ds) 0) ds
    ∙ omega (arith, length-replicate {A = ℕ} (8 - length ds) 0)

pub of_digits-hex : (n : NodeId) → of_digits 16 0 (map hex_value (hex n)) ≡ n.num
unfolding hex hex_digits
of_digits-hex n =
    ap (of_digits 16 0) (
      map-inverse hex_char hex_value (λ d. ltb d 16) (λ d h. ground arith) (hex_digits n)
        (hex_digits-lt n))
    ∙ of_digits-zeros 16 _ _
    ∙ of_digits-to_digits 16 (omega arith) (suc n.num) n.num []
    ∙ unfold of_digits in refl

decimal_digits-lt : (n : NodeId) → all (λ d. ltb d 10) (to_digits 10 (suc n.num) n.num []) ≡ true
decimal_digits-lt n = to_digits-lt 10 (omega arith) (suc n.num) n.num [] (omega arith) refl

is_empty-to_digits : (b f n : ℕ) (acc : List ℕ) → is_empty (to_digits b f n acc) ≡ false
unfolding to_digits
is_empty-to_digits b zero n acc = refl
is_empty-to_digits b (suc f) n acc = ground (arith, is_empty-to_digits b f (n / b) (n % b ∷ acc))

is_empty-map : (f : ℕ → ℕ) (xs : List ℕ) → is_empty (map f xs) ≡ is_empty xs
is_empty-map f [] = refl
is_empty-map f (x ∷ xs) = refl

pub is_empty-decimal : (n : NodeId) → is_empty (decimal n) ≡ false
unfolding decimal
is_empty-decimal n =
    is_empty-map (λ d. d + 48) (to_digits 10 (suc n.num) n.num [])
    ∙ is_empty-to_digits 10 (suc n.num) n.num []

pub hex_value-lt : (c : ℕ) → is_hex c ≡ true → ltb (hex_value c) 16 ≡ true
hex_value-lt c h = ground arith

-- A hex text stands for a number below the power of 16 for its length.
pub of_digits-hex_value-lt :
    (s : Text) → all is_hex s ≡ true → of_digits 16 0 (map hex_value s) < 16 ^ length s
of_digits-hex_value-lt s a = rw (← length-map hex_value s) (
    rw zero-add at (
      of_digits-lt 16 0 (map hex_value s) 0 (omega arith)
        (all-map hex_value is_hex (λ d. ltb d 16) hex_value-lt s a)))

pub all-is_digit-decimal : (n : NodeId) → all is_digit (decimal n) ≡ true
unfolding decimal
all-is_digit-decimal n =
    all-map (λ d. d + 48) (λ d. ltb d 10) is_digit (λ d h. ground arith)
      (to_digits 10 (suc n.num) n.num []) (decimal_digits-lt n)

pub of_digits-decimal : (n : NodeId) → of_digits 10 0 (map (λ c. c - 48) (decimal n)) ≡ n.num
unfolding decimal
of_digits-decimal n =
    ap (of_digits 10 0) (
      map-inverse (λ d. d + 48) (λ c. c - 48) (λ d. ltb d 10) (λ d h. omega arith) _
        (decimal_digits-lt n))
    ∙ of_digits-to_digits 10 (omega arith) (suc n.num) n.num []
    ∙ unfold of_digits in refl

pub length-decimal-le : (n : NodeId) → n.num < 10 ^ 7 → length (decimal n) ≤ 7
unfolding decimal
length-decimal-le n h =
    let short = length-to_digits 10 (omega arith) 6 (suc n.num) n.num [] h (omega arith) in
    omega (arith, length-map (λ d. d + 48) (to_digits 10 (suc n.num) n.num []))

-- The decimal form of a number of nine digits or more is not eight characters long.
pub length-decimal-gt : (n : NodeId) → 10 ^ 8 ≤ n.num → 8 < length (decimal n)
unfolding decimal of_digits
length-decimal-gt n h = elim (dec_lt 8 (length (decimal n))) [
  | yes l ↦ l
  | no l ↦
      let ds = to_digits 10 (suc n.num) n.num [] in
      let below : of_digits 10 0 ds < 10 ^ (0 + length ds) =
        of_digits-lt 10 0 ds 0 (omega arith) (decimal_digits-lt n) in
      let size : of_digits 10 0 ds ≡ n.num =
        of_digits-to_digits 10 (omega arith) (suc n.num) n.num [] in
      let short : length ds ≤ 8 = omega (arith, length-map (λ d. d + 48) ds) in
      let bound : 10 ^ (0 + length ds) ≤ 10 ^ 8 =
        pow-le-pow_right {n = 10} (omega arith) {i = 0 + length ds} {j = 8} (omega arith) in
      absurd (omega arith)
]
