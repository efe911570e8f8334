-- ===== src/NamePattern/Digits.antt =====
-- src/meshprovision/name_pattern.py, `render` and `parse_index`, taken together.
use native.Mathlib.Omega.{arith}
use native.Mathlib.Nat.{
  pow-suc, pow-zero, add-zero, mod-lt, div-lt_iff_lt-mul, div-add-mod', mul-add-div_right,
  mul-add-mod_self_right, div-eq_of_lt, mod-eq_of_lt,
}
use mathlib.Core.List.{append-nil}
use meshprovision.Common.{
  ℕ, zero, suc, ◌+◌, ◌*◌, ◌/◌, ◌%◌, ◌^◌, ◌<◌, ◌≡◌, refl, ◌∙◌, ap, true, Option, none, some, List,
  [], ◌∷◌, ◌++◌, map, ltb, length, all, ok, Option-cases, &&_parts, lt→ltb, ltb→lt, inl, inr,
}
use meshprovision.Common.Digits.{of_digits, of_digits-lt}
use meshprovision.Common.Text.{Text}
use meshprovision.Common.Equality.{mem, distinct, ℕ_eq}
use meshprovision.NamePattern.{
  PatternSpec, slot_count, capacity, digits_of, char_at, interleave, render_digits, render,
  strip_prefix, find, take_digit, trailing, parse_digits, parse_index,
}

-- The digits of a fixed number of slots.
module _ (b : ℕ) where
  below_quotient : (k r : ℕ) → r < b ^ suc k → (0 < b) × (r / b < b ^ k)
  below_quotient k r h =
      let h' : r < b ^ k * b = rw pow-suc at h in
      let some_base : 0 < b = grind arith in
      (some_base, (div-lt_iff_lt-mul {k = b} {x = r} {y = b ^ k} some_base).1 h')

  pub of_digits-digits_of :
      (k r : ℕ) (acc : List ℕ) → r < b ^ k → of_digits b 0 (digits_of b k r acc) ≡ of_digits b r acc
  unfolding digits_of of_digits
  of_digits-digits_of zero r acc h =
      ap (λ v. of_digits b v acc) (let h' : r < 1 = rw pow-zero at h in omega arith)
  of_digits-digits_of (suc k) r acc h =
      of_digits-digits_of k (r / b) (r % b ∷ acc) (below_quotient k r h).1
      ∙ ap (λ v. of_digits b v acc) (div-add-mod' r b)

  pub digits_of-lt :
      (k r : ℕ) (acc : List ℕ)
      → r < b ^ k
      → all (λ d. ltb d b) acc ≡ true
      → all (λ d. ltb d b) (digits_of b k r acc) ≡ true
  unfolding digits_of
  digits_of-lt zero r acc h a = a
  digits_of-lt (suc k) r acc h a =
      let parts = below_quotient k r h in
      digits_of-lt k (r / b) (r % b ∷ acc) parts.1 (rw (lt→ltb (r % b) b (mod-lt r parts.0)) a)

  pub length-digits_of : (k r : ℕ) (acc : List ℕ) → length (digits_of b k r acc) ≡ k + length acc
  unfolding digits_of
  length-digits_of zero r acc = omega arith
  length-digits_of (suc k) r acc = omega (arith, length-digits_of k (r / b) (r % b ∷ acc))

  pub digits_of-of_digits :
      (ds : List ℕ) (k v : ℕ) (acc : List ℕ)
      → all (λ d. ltb d b) ds ≡ true
      → digits_of b (k + length ds) (of_digits b v ds) acc ≡ digits_of b k v (ds ++ acc)
  unfolding digits_of of_digits
  digits_of-of_digits [] k v acc a = rw add-zero refl
  digits_of-of_digits (d ∷ ds) k v acc a =
      let parts = &&_parts (ltb d b) (all (λ d. ltb d b) ds) a in
      let lt = ltb→lt d b parts.0 in
      let quotient : (v * b + d) / b ≡ v =
        mul-add-div_right (omega arith) v d ∙ omega (arith, div-eq_of_lt lt) in
      let remainder : (v * b + d) % b ≡ d = mul-add-mod_self_right v b d ∙ mod-eq_of_lt lt in
      let count : k + length (d ∷ ds) ≡ suc k + length ds = omega arith in
      rw count (digits_of-of_digits ds (suc k) (v * b + d) acc parts.1 ∙ cc (quotient, remainder))

-- Characters and digits of an alphabet.
pub char_at-find : (al : Text) (c d : ℕ) → find c al ≡ some d → (char_at al d ≡ c) × (d < length al)
unfolding find
char_at-find [] c d h = cc
char_at-find (a ∷ al) c zero h = ground arith
char_at-find (a ∷ al) c (suc d) h = ground (arith, char_at-find al c d)

mem-char_at : (al : Text) (d : ℕ) → d < length al → mem (char_at al d) al ≡ true
mem-char_at [] d h = absurd (omega arith)
mem-char_at (a ∷ al) zero h = ground arith
mem-char_at (a ∷ al) (suc d) h = ground (arith, mem-char_at al d)

pub find-char_at :
    (al : Text) (d : ℕ) → distinct al ≡ true → d < length al → find (char_at al d) al ≡ some d
unfolding find
find-char_at [] d u h = absurd (omega arith)
find-char_at (a ∷ al) zero u h = ground arith
find-char_at (a ∷ al) (suc d) u h = ground (arith, find-char_at al d, mem-char_at al d)

strip_prefix-append : (l s : Text) → strip_prefix l (l ++ s) ≡ some s
unfolding strip_prefix
strip_prefix-append [] s = refl
strip_prefix-append (c ∷ l) s = ground (arith, strip_prefix-append l s)

strip_prefix_inv : (l t s : Text) → strip_prefix l t ≡ some s → t ≡ l ++ s
unfolding strip_prefix
strip_prefix_inv [] t s h = ground arith
strip_prefix_inv (c ∷ l) [] s h = cc
strip_prefix_inv (c ∷ l) (d ∷ t) s h = ground (arith, strip_prefix_inv l t s)

trailing_inv : (o : Option Text) (ds : List ℕ) → trailing o ≡ some ds → o ≡ some []
unfolding trailing
trailing_inv none ds h = cc
trailing_inv (some []) ds h = refl
trailing_inv (some (c ∷ s)) ds h = cc

take_digit_inv :
    (al : Text) (o : Option Text) (d : ℕ) (rest : Text)
    → take_digit al o ≡ some (d, rest)
    → (o ≡ some (char_at al d ∷ rest)) × (d < length al)
unfolding take_digit
take_digit_inv al none d rest h = cc
take_digit_inv al (some []) d rest h = cc
take_digit_inv al (some (c ∷ s)) d rest h = ground (arith, char_at-find al c d)

module _ (al : Text) where
  pub parse_digits-interleave :
      (ls : List Text) (ds : List ℕ)
      → distinct al ≡ true
      → suc (length ds) ≡ length ls
      → all (λ d. ltb d (length al)) ds ≡ true
      → parse_digits al ls (interleave ls (map (char_at al) ds)) ≡ some ds
  unfolding parse_digits interleave take_digit trailing
  parse_digits-interleave [] ds u n a = absurd (omega arith)
  parse_digits-interleave (l ∷ []) [] u n a = ground (arith, strip_prefix-append l [], append-nil l)
  parse_digits-interleave (l ∷ []) (d ∷ ds) u n a = absurd (omega arith)
  parse_digits-interleave (l ∷ l' ∷ ls) [] u n a = absurd (omega arith)
  parse_digits-interleave (l ∷ l' ∷ ls) (d ∷ ds) u n a =
      let parts = &&_parts (ltb d (length al)) (all (λ d. ltb d (length al)) ds) a in
      ground (
        arith,
        strip_prefix-append l (char_at al d ∷ interleave (l' ∷ ls) (map (char_at al) ds)),
        find-char_at al d u (ltb→lt d (length al) parts.0),
        parse_digits-interleave (l' ∷ ls) ds u (omega arith) parts.1,
      )

  pub parse_digits_inv :
      (ls : List Text) (name : Text) (ds : List ℕ)
      → parse_digits al ls name ≡ some ds
      → (name ≡ interleave ls (map (char_at al) ds))
        × (suc (length ds) ≡ length ls)
        × (all (λ d. ltb d (length al)) ds ≡ true)
  unfolding parse_digits interleave take_digit trailing
  parse_digits_inv [] name ds h = cc
  parse_digits_inv (l ∷ []) name [] h =
      let e = strip_prefix_inv l name [] (trailing_inv (strip_prefix l name) [] h) in
      (e ∙ append-nil l, refl, refl)
  parse_digits_inv (l ∷ []) name (d ∷ ds) h = ground arith
  parse_digits_inv (l ∷ l' ∷ ls) name [] h = ground arith
  parse_digits_inv (l ∷ l' ∷ ls) name (d ∷ ds) h =
      let read = take_digit al (strip_prefix l name) in
      elim (Option-cases read) [
        | inl e ↦ absurd (ground (arith, e))
        | inr ((x, rest), e) ↦ elim (Option-cases (parse_digits al (l' ∷ ls) rest)) [
          | inl e' ↦ absurd (ground (arith, e, e'))
          | inr (xs, e') ↦
              let fact = take_digit_inv al (strip_prefix l name) x rest e in
              let shape = strip_prefix_inv l name (char_at al x ∷ rest) fact.0 in
              let ih = parse_digits_inv (l' ∷ ls) rest xs e' in
              let same : (x ≡ d) × (xs ≡ ds) = ground (arith, e, e') in
              (
                cc (shape, ih.0, same.0, same.1),
                omega (arith, ih.1, ap (λ (zs : List ℕ). length zs) same.1),
                rw (← same.0, ← same.1, lt→ltb x (length al) fact.1) ih.2,
              )
        ]
      ]

module _ (spec : PatternSpec) where
  parse_index-of_digits :
      (name : Text) (ds : List ℕ)
      → parse_digits spec.alphabet spec.literals name ≡ some ds
      → parse_index spec name ≡ some (of_digits (length spec.alphabet) 0 ds)
  unfolding parse_index
  parse_index-of_digits name ds e = rw (e, parse_index) refl

  -- A rendered name is parsed back to its index, when the alphabet's characters differ and there is
  -- a literal.
  pub parse_index-render :
      (index : ℕ) (name : Text)
      → distinct spec.alphabet ≡ true
      → 0 < length spec.literals
      → render spec index ≡ ok name
      → parse_index spec name ≡ some index
  unfolding parse_index render
  parse_index-render index name u n h =
      let b = length spec.alphabet in
      let ds = digits_of b (slot_count spec) index [] in
      let below : index < b ^ slot_count spec = ground arith in
      let shape : render_digits spec ds ≡ name = ground arith in
      let count : suc (length ds) ≡ length spec.literals =
        omega (arith, length-digits_of b (slot_count spec) index []) in
      let read =
        parse_digits-interleave spec.alphabet spec.literals ds u count
          (digits_of-lt b (slot_count spec) index [] below refl) in
      let value = of_digits-digits_of b (slot_count spec) index [] below in
      parse_index-of_digits name ds (unfold render_digits in rw (← shape) read)
      ∙ ap some (value ∙ unfold of_digits in refl)

  -- A name that is parsed to an index is the name that is rendered for it, and the index is below
  -- the capacity.
  pub render-parse_index :
      (name : Text) (index : ℕ)
      → parse_index spec name ≡ some index
      → (render spec index ≡ ok name) × (index < capacity spec)
  unfolding parse_index render
  render-parse_index name index h =
      elim (Option-cases (parse_digits spec.alphabet spec.literals name)) [
        | inl e ↦ absurd (ground (arith, e))
        | inr (ds, e) ↦
            let b = length spec.alphabet in
            let fact = parse_digits_inv spec.alphabet spec.literals name ds e in
            let value : of_digits b 0 ds ≡ index = ground (arith, e) in
            let count : slot_count spec ≡ 0 + length ds = omega (arith, fact.1) in
            let below = of_digits-lt b 0 ds 0 (rw pow-zero (omega arith)) fact.2 in
            let small : index < b ^ slot_count spec = rw (count, ← value) below in
            let back : digits_of b (slot_count spec) index [] ≡ ds =
              rw (count, ← value)
                (digits_of-of_digits b ds 0 0 [] fact.2 ∙ unfold digits_of in append-nil ds) in
            (ground (arith, back, fact.0, small), small)
      ]
