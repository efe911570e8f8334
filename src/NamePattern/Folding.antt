-- ===== src/NamePattern/Folding.antt =====
-- src/meshprovision/name_pattern.py, `_validate_alphabet`: what it makes sure of. Names are
-- compared by their case folds, so the characters' folds must differ too.
use native.Mathlib.Omega.{arith}
use native.Mathlib.Decide.{dec_lt}
use mathlib.Core.List.{append_cancel_left, append_assoc}
use meshprovision.Common.{
  ℕ, zero, suc, ◌^◌, ◌<◌, ◌≡◌, ◌≢◌, refl, ◌∙◌, ap, sym, Bool, true, false, not, List, [], ◌∷◌, ◌++◌,
  map, ltb, ltb→lt, ◌==◌ as nat_eq, length, all, any, ok, &&_parts, Bool-cases, inl, inr,
}
use meshprovision.Common.Text.{Text, text_eq_iff}
use meshprovision.Common.Digits.{of_digits}
use meshprovision.Common.Equality.{◌==◌, ℕ_eq, Text_eq, mem, distinct}
use meshprovision.NamePattern.{
  PatternSpec, has_duplicate, first_with, has_fold_pair, casefold, validate_alphabet, char_at,
  interleave, digits_of, slot_count, render, render_digits,
}
use meshprovision.NamePattern.Digits.{of_digits-digits_of, digits_of-lt, length-digits_of}

mem_seen :
    (seen s : Text) (c : ℕ) → has_duplicate seen s ≡ false → mem c seen ≡ true → mem c s ≡ false
unfolding has_duplicate
mem_seen seen [] c h m = refl
mem_seen seen (x ∷ s) c h m = ground (arith, mem_seen (x ∷ seen) s c)

distinct_of : (seen s : Text) → has_duplicate seen s ≡ false → distinct s ≡ true
unfolding has_duplicate
distinct_of seen [] h = refl
distinct_of seen (x ∷ s) h = ground (arith, distinct_of (x ∷ seen) s, mem_seen (x ∷ seen) s x)

-- The first character with a fold stays first when more are recorded.
first_with-append :
    (f : Text) (c d : ℕ) (known more : List (Text × ℕ))
    → ((e : ℕ) → first_with f e known ≡ c)
    → first_with f d (known ++ more) ≡ c
unfolding first_with
first_with-append f c d [] more h = absurd (omega (arith, h 0, h 1))
first_with-append f c d ((g, x) ∷ known) more h = elim (Bool-cases (g == f)) [
  | inl e ↦ ground (arith, e, h 0)
  | inr e ↦ rw e (first_with-append f c d known more (λ i. ground (arith, e, h i)))
]

first_with-record :
    (f : Text) (c d : ℕ) (known : List (Text × ℕ))
    → first_with f c known ≡ c
    → first_with f d (known ++ (f, c) ∷ []) ≡ c
unfolding first_with
first_with-record f c d [] h = ground (arith, text_eq_iff f f)
first_with-record f c d ((g, x) ∷ known) h = ground (arith, first_with-record f c d known)

module _ (fold : ℕ → Text) where
  later_fold :
      (known : List (Text × ℕ)) (s f : Text) (c j : ℕ)
      → has_fold_pair fold known s ≡ false
      → ((e : ℕ) → first_with f e known ≡ c)
      → j < length s
      → fold (char_at s j) ≡ f
      → char_at s j ≡ c
  unfolding has_fold_pair
  later_fold known [] f c j h k l e = absurd (omega arith)
  later_fold known (x ∷ s) f c zero h k l e =
      let first : first_with (fold x) x known ≡ c = rw e (k x) in ground (arith, first)
  later_fold known (x ∷ s) f c (suc j) h k l e =
      later_fold (known ++ (fold x, x) ∷ []) s f c j (ground arith)
        (λ d. first_with-append f c d known ((fold x, x) ∷ []) k) (omega arith) e

  same_fold :
      (known : List (Text × ℕ)) (s : Text) (i j : ℕ)
      → has_fold_pair fold known s ≡ false
      → i < j
      → j < length s
      → fold (char_at s j) ≡ fold (char_at s i)
      → char_at s j ≡ char_at s i
  unfolding has_fold_pair
  same_fold known [] i j h lt l e = absurd (omega arith)
  same_fold known (x ∷ s) i zero h lt l e = absurd (omega arith)
  same_fold known (x ∷ s) zero (suc j) h lt l e =
      let first : first_with (fold x) x known ≡ x = ground arith in
      later_fold (known ++ (fold x, x) ∷ []) s (fold x) x j (ground arith)
        (λ d. first_with-record (fold x) x d known first) (omega arith) e
  same_fold known (x ∷ s) (suc i) (suc j) h lt l e =
      same_fold (known ++ (fold x, x) ∷ []) s i j (ground arith) (omega arith) (omega arith) e

mem-char_at : (s : Text) (j : ℕ) → j < length s → mem (char_at s j) s ≡ true
mem-char_at [] j h = absurd (omega arith)
mem-char_at (a ∷ s) zero h = ground arith
mem-char_at (a ∷ s) (suc j) h = ground (arith, mem-char_at s j)

distinct-char_at :
    (s : Text) (i j : ℕ) → distinct s ≡ true → i < j → j < length s → char_at s j ≢ char_at s i
distinct-char_at [] i j u lt l e = absurd (omega arith)
distinct-char_at (a ∷ s) i zero u lt l e = absurd (omega arith)
distinct-char_at (a ∷ s) zero (suc j) u lt l e = ground (arith, mem-char_at s j)
distinct-char_at (a ∷ s) (suc i) (suc j) u lt l e =
    distinct-char_at s i j (ground arith) (omega arith) (omega arith) e

all_of_not-any :
    (p : ℕ → Bool) (s : Text) (i : ℕ)
    → any (λ c. not (p c)) s ≡ false
    → i < length s
    → p (char_at s i) ≡ true
all_of_not-any p [] i h l = absurd (omega arith)
all_of_not-any p (c ∷ s) zero h l = ground arith
all_of_not-any p (c ∷ s) (suc i) h l = ground (arith, all_of_not-any p s i)

-- What an accepted alphabet promises.
record IsAccepted (fold : ℕ → Text) (alphabet : Text) : Type 0 where
  pub nonempty : 0 < length alphabet
  pub unique : distinct alphabet ≡ true
  pub single : (i : ℕ) → i < length alphabet → length (fold (char_at alphabet i)) ≡ 1
  pub unpaired :
      (i j : ℕ)
      → i < j
      → j < length alphabet
      → fold (char_at alphabet j) ≢ fold (char_at alphabet i)

module _ (fold : ℕ → Text) where
  validate_alphabet-IsAccepted :
      (alphabet : Text) → validate_alphabet fold alphabet ≡ ok tt → IsAccepted fold alphabet
  unfolding validate_alphabet
  validate_alphabet-IsAccepted [] h = cc
  validate_alphabet-IsAccepted (c ∷ s) h =
      let al : Text = c ∷ s in
      let duplicates : has_duplicate [] al ≡ false = ground arith in
      let lengths : any (λ d. not (nat_eq (length (fold d)) 1)) al ≡ false = ground arith in
      let pairs : has_fold_pair fold [] al ≡ false = ground arith in
      let unique = distinct_of [] al duplicates in
      record {
        nonempty = omega arith;
        unique = unique;
        single = λ i l.
            let e = all_of_not-any (λ d. nat_eq (length (fold d)) 1) al i lengths l in
            ground (arith, e);
        unpaired = λ i j lt l e.
            distinct-char_at al i j unique lt l (same_fold fold [] al i j pairs lt l e);
      }

split_single : (p q a b : Text) → length p ≡ 1 → length q ≡ 1 → p ++ a ≡ q ++ b → (p ≡ q) × (a ≡ b)
split_single [] q a b hp hq e = absurd (omega arith)
split_single (x ∷ y ∷ p) q a b hp hq e = absurd (omega arith)
split_single (x ∷ []) [] a b hp hq e = absurd (omega arith)
split_single (x ∷ []) (y ∷ z ∷ q) a b hp hq e = absurd (omega arith)
split_single (x ∷ []) (y ∷ []) a b hp hq e = ground arith

module _ (fold : ℕ → Text) (al : Text) (h : IsAccepted fold al) where
  fold_injective :
      (i j : ℕ) → i < length al → j < length al → fold (char_at al i) ≡ fold (char_at al j) → i ≡ j
  fold_injective i j hi hj e = elim (dec_lt i j) [
    | yes lt ↦ absurd (h.unpaired i j lt hj (sym e))
    | no ge ↦ elim (dec_lt j i) [ yes lt ↦ absurd (h.unpaired j i lt hi e) | no le ↦ omega arith ]
  ]

  casefold-append : (s t : Text) → casefold fold (s ++ t) ≡ casefold fold s ++ casefold fold t
  unfolding casefold
  casefold-append [] t = refl
  casefold-append (c ∷ s) t = rw (casefold-append s t) (sym (append_assoc (fold c) _ _))

  -- The digits can be told from the folded name.
  casefold_injective :
      (ls : List Text) (ds es : List ℕ)
      → suc (length ds) ≡ length ls
      → suc (length es) ≡ length ls
      → all (λ d. ltb d (length al)) ds ≡ true
      → all (λ d. ltb d (length al)) es ≡ true
      → casefold fold (interleave ls (map (char_at al) ds))
        ≡ casefold fold (interleave ls (map (char_at al) es))
      → ds ≡ es
  unfolding interleave
  casefold_injective ls [] [] hd he ad ae e = refl
  casefold_injective ls [] (y ∷ es) hd he ad ae e = absurd (omega arith)
  casefold_injective ls (x ∷ ds) [] hd he ad ae e = absurd (omega arith)
  casefold_injective [] (x ∷ ds) (y ∷ es) hd he ad ae e = absurd (omega arith)
  casefold_injective (l ∷ ls) (x ∷ ds) (y ∷ es) hd he ad ae e =
      let px = &&_parts (ltb x (length al)) (all (λ d. ltb d (length al)) ds) ad in
      let py = &&_parts (ltb y (length al)) (all (λ d. ltb d (length al)) es) ae in
      let lx = ltb→lt x (length al) px.0 in
      let ly = ltb→lt y (length al) py.0 in
      let tail_x = interleave ls (map (char_at al) ds) in
      let tail_y = interleave ls (map (char_at al) es) in
      let split =
        sym (casefold-append l (char_at al x ∷ tail_x))
        ∙ e
        ∙ casefold-append l (char_at al y ∷ tail_y) in
      let rest : fold (char_at al x) ++ casefold fold tail_x
          ≡ fold (char_at al y) ++ casefold fold tail_y =
        unfold casefold in
        append_cancel_left (casefold fold l) (casefold fold (char_at al x ∷ tail_x))
          (casefold fold (char_at al y ∷ tail_y)) split in
      let (same, tails) =
        split_single (fold (char_at al x)) (fold (char_at al y)) (casefold fold tail_x)
          (casefold fold tail_y) (h.single x lx) (h.single y ly) rest in
      cc (
        fold_injective x y lx ly same,
        casefold_injective ls ds es (omega arith) (omega arith) px.1 py.1 tails,
      )

-- With an accepted alphabet and a literal at least, two indices whose names have one case fold are
-- one index.
pub render-casefold_injective :
    (fold : ℕ → Text) (spec : PatternSpec) (i j : ℕ) (a b : Text)
    → validate_alphabet fold spec.alphabet ≡ ok tt
    → 0 < length spec.literals
    → render spec i ≡ ok a
    → render spec j ≡ ok b
    → casefold fold a ≡ casefold fold b
    → i ≡ j
unfolding render
render-casefold_injective fold spec i j a b v n hi hj e =
    let al = spec.alphabet in
    let k = slot_count spec in
    let ds = digits_of (length al) k i [] in
    let es = digits_of (length al) k j [] in
    let below_i : i < length al ^ k = ground arith in
    let below_j : j < length al ^ k = ground arith in
    let shape_i : render_digits spec ds ≡ a = ground arith in
    let shape_j : render_digits spec es ≡ b = ground arith in
    let same : ds ≡ es =
      casefold_injective fold al (validate_alphabet-IsAccepted fold al v) spec.literals ds es
        (omega (arith, length-digits_of (length al) k i []))
        (omega (arith, length-digits_of (length al) k j []))
        (digits_of-lt (length al) k i [] below_i refl)
        (digits_of-lt (length al) k j [] below_j refl)
        (unfold render_digits in rw (shape_i, shape_j) e) in
    unfold of_digits in
    sym (of_digits-digits_of (length al) k i [] below_i)
    ∙ ap (of_digits (length al) 0) same
    ∙ of_digits-digits_of (length al) k j [] below_j

-- An accepted alphabet has no character twice.
validate_alphabet-distinct :
    (fold : ℕ → Text) (alphabet : Text)
    → validate_alphabet fold alphabet ≡ ok tt
    → distinct alphabet ≡ true
validate_alphabet-distinct fold alphabet v = (validate_alphabet-IsAccepted fold alphabet v).unique
