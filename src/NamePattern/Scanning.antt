-- ===== src/NamePattern/Scanning.antt =====
-- src/meshprovision/name_pattern.py, the loop of `PatternSpec.compile` against the printing of
-- literals as a pattern.
use native.Mathlib.Omega.{arith}
use mathlib.Core.List.{append-nil, append_assoc}
use meshprovision.Common.{
  ℕ, zero, suc, ◌≤◌, ◌≡◌, ◌↔◌, refl, ◌∙◌, ap, sym, subst, List, [], ◌∷◌, ◌++◌, drop, ◌==◌ as nat_eq,
  if◌then◌else◌, length, Result, ok, length-append,
}
use meshprovision.Common.Text.{Text, codes}
use meshprovision.NamePattern.{
  NameError, Token, open_brace, close_brace, slot, bad_open, bad_close, plain, next_token, scan,
}

-- A literal character as it is written in a pattern.
abbrev escape_char : ℕ → Text
escape_char c = if nat_eq c b'{' then codes "{{" else if nat_eq c b'}' then codes "}}" else c ∷ []

abbrev escape : Text → Text
escape [] = []
escape (c ∷ s) = escape_char c ++ escape s

-- The pattern with given literals: the literals, escaped, with `{n}` between them.
abbrev pub unparse : List Text → Text
unparse [] = []
unparse (l ∷ []) = escape l
unparse (l ∷ l' ∷ ls) = escape l ++ (codes "{n}" ++ unparse (l' ∷ ls))

-- One escaped character is one round.
scan-escape_char :
    (fuel c : ℕ) (rest literal : Text) (literals : List Text)
    → scan (suc fuel) (escape_char c ++ rest) literal literals
      ≡ scan fuel rest (literal ++ c ∷ []) literals
unfolding scan next_token
scan-escape_char fuel c rest literal literals = ground arith

scan-slot :
    (fuel : ℕ) (rest literal : Text) (literals : List Text)
    → scan (suc fuel) (codes "{n}" ++ rest) literal literals
      ≡ scan fuel rest [] (literals ++ literal ∷ [])
unfolding scan next_token
scan-slot fuel rest literal literals = refl

pub scan-end :
    (fuel : ℕ) (literal : Text) (literals : List Text)
    → scan fuel [] literal literals ≡ ok (literals ++ literal ∷ [])
unfolding scan
scan-end zero literal literals = refl
scan-end (suc fuel) literal literals = refl

length-escape_char : (c : ℕ) → 1 ≤ length (escape_char c)
length-escape_char c = ground arith

-- The rounds that an escaped literal takes are at most its characters.
scan-escape :
    (l rest literal : Text) (literals : List Text) (fuel : ℕ) (r : Result NameError (List Text))
    → length (escape l ++ rest) ≤ fuel
    → ((f : ℕ) → length rest ≤ f → scan f rest (literal ++ l) literals ≡ r)
    → scan fuel (escape l ++ rest) literal literals ≡ r
scan-escape [] rest literal literals fuel r h k = rw append-nil at (k fuel h)
scan-escape (c ∷ l) rest literal literals zero r h k = absurd (
    omega (
      arith,
      length-append (escape_char c ++ escape l) rest,
      length-append (escape_char c) (escape l),
      length-escape_char c,
    ))
scan-escape (c ∷ l) rest literal literals (suc fuel) r h k = rw append_assoc (
    scan-escape_char fuel c (escape l ++ rest) literal literals
    ∙ scan-escape l rest (literal ++ c ∷ []) literals fuel r
        (omega (
          arith,
          length-append (escape_char c ++ escape l) rest,
          length-append (escape l) rest,
          length-append (escape_char c) (escape l),
          length-escape_char c,
        ))
        (λ f hf. rw append_assoc (k f hf)))

slot_then :
    (f : ℕ) (rest literal : Text) (literals : List Text) (r : Result NameError (List Text))
    → length (codes "{n}" ++ rest) ≤ f
    → ((g : ℕ) → length rest ≤ g → scan g rest [] (literals ++ literal ∷ []) ≡ r)
    → scan f (codes "{n}" ++ rest) literal literals ≡ r
slot_then zero rest literal literals r h k = absurd (omega arith)
slot_then (suc f) rest literal literals r h k =
    scan-slot f rest literal literals ∙ k f (omega arith)

scan-unparse :
    (l : Text) (ls : List Text) (literal : Text) (literals : List Text) (fuel : ℕ)
    → length (unparse (l ∷ ls)) ≤ fuel
    → scan fuel (unparse (l ∷ ls)) literal literals ≡ ok (literals ++ (literal ++ l) ∷ ls)
scan-unparse l [] literal literals fuel h =
    subst
      (λ (s : Text).
        length s ≤ fuel → scan fuel s literal literals ≡ ok (literals ++ (literal ++ l) ∷ []))
      (append-nil (escape l))
      (λ h'.
        scan-escape l [] literal literals fuel (ok (literals ++ (literal ++ l) ∷ [])) h'
          (λ f _. scan-end f (literal ++ l) literals))
      h
scan-unparse l (l' ∷ ls) literal literals fuel h =
    scan-escape l (codes "{n}" ++ unparse (l' ∷ ls)) literal literals fuel
      (ok (literals ++ (literal ++ l) ∷ l' ∷ ls)) h
      (λ f hf.
        slot_then f (unparse (l' ∷ ls)) (literal ++ l) literals
          (ok (literals ++ (literal ++ l) ∷ l' ∷ ls)) hf
          (λ g hg.
            scan-unparse l' ls [] (literals ++ (literal ++ l) ∷ []) g hg
            ∙ ap ok (append_assoc literals ((literal ++ l) ∷ []) (l' ∷ ls))))

-- What a token says of the text that it stands at.
token_text :
    (c : ℕ) (s : Text)
    → (next_token c s ≡ open_brace → c ∷ s ≡ escape_char b'{' ++ drop 1 s)
      × (next_token c s ≡ close_brace → c ∷ s ≡ escape_char b'}' ++ drop 1 s)
      × (next_token c s ≡ slot → c ∷ s ≡ codes "{n}" ++ drop 2 s)
      × ((d : ℕ) → next_token c s ≡ plain d → (d ≡ c) × (c ∷ s ≡ escape_char d ++ s))
unfolding next_token
token_text c [] = (λ h. ground arith, λ h. ground arith, λ h. ground arith, λ d h. ground arith)
token_text c (d ∷ []) =
    (λ h. ground arith, λ h. ground arith, λ h. ground arith, λ d' h. ground arith)
token_text c (d ∷ e ∷ s) =
    (λ h. ground arith, λ h. ground arith, λ h. ground arith, λ d' h. ground arith)

unparse-escape_char :
    (c : ℕ) (l : Text) (ls : List Text) → unparse ((c ∷ l) ∷ ls) ≡ escape_char c ++ unparse (l ∷ ls)
unparse-escape_char c l [] = refl
unparse-escape_char c l (l' ∷ ls) = append_assoc (escape_char c) (escape l) _

-- The literals that a text adds to those read so far.
abbrev pub Reads : Text → List Text → Text → List Text → Type 0
Reads literal literals s ls =
    (l : Text) × (ls' : List Text) × (ls ≡ literals ++ (literal ++ l) ∷ ls')
    × (s ≡ unparse (l ∷ ls'))

Reads-char :
    (d : ℕ) (t s literal : Text) (literals ls : List Text)
    → t ≡ escape_char d ++ s
    → Reads (literal ++ d ∷ []) literals s ls
    → Reads literal literals t ls
Reads-char d t s literal literals ls e (l, ls', p, q) = (
  d ∷ l,
  ls',
  p ∙ ap (λ x. literals ++ x ∷ ls') (append_assoc literal (d ∷ []) l),
  e ∙ ap (λ x. escape_char d ++ x) q ∙ sym (unparse-escape_char d l ls'),
)

Reads-slot :
    (t s literal : Text) (literals ls : List Text)
    → t ≡ codes "{n}" ++ s
    → Reads [] (literals ++ literal ∷ []) s ls
    → Reads literal literals t ls
Reads-slot t s literal literals ls e (l, ls', p, q) = (
  [],
  l ∷ ls',
  p
      ∙ append_assoc literals (literal ∷ []) (l ∷ ls')
      ∙ ap (λ x. literals ++ x ∷ l ∷ ls') (sym (append-nil literal)),
  e ∙ ap (λ x. codes "{n}" ++ x) q,
)

module _ (fuel c : ℕ) (s literal : Text) (literals ls : List Text) where
  Reads-round :
      (t : Token)
      → next_token c s ≡ t
      → ((s' lit : Text) (lits : List Text) → scan fuel s' lit lits ≡ ok ls → Reads lit lits s' ls)
      → scan (suc fuel) (c ∷ s) literal literals ≡ ok ls
      → Reads literal literals (c ∷ s) ls
  unfolding scan
  Reads-round open_brace e ih h =
      Reads-char b'{' (c ∷ s) (drop 1 s) literal literals ls ((token_text c s).0 e)
        (ih (drop 1 s) (literal ++ b'{' ∷ []) literals (rw (e, scan) at h))
  Reads-round close_brace e ih h =
      Reads-char b'}' (c ∷ s) (drop 1 s) literal literals ls ((token_text c s).1 e)
        (ih (drop 1 s) (literal ++ b'}' ∷ []) literals (rw (e, scan) at h))
  Reads-round slot e ih h =
      Reads-slot (c ∷ s) (drop 2 s) literal literals ls ((token_text c s).2 e)
        (ih (drop 2 s) [] (literals ++ literal ∷ []) (rw (e, scan) at h))
  Reads-round bad_open e ih h = absurd (ground (arith, e))
  Reads-round bad_close e ih h = absurd (ground (arith, e))
  Reads-round (plain d) e ih h =
      let (same, shape) = (token_text c s).3 d e in
      Reads-char d (c ∷ s) s literal literals ls shape
        (ih s (literal ++ d ∷ []) literals (rw (e, scan) at h))

pub scan-Reads :
    (fuel : ℕ) (s literal : Text) (literals ls : List Text)
    → scan fuel s literal literals ≡ ok ls
    → Reads literal literals s ls
scan-Reads fuel [] literal literals ls h =
    ([], [], cc (h, scan-end fuel literal literals, append-nil literal), refl)
scan-Reads zero (c ∷ s) literal literals ls h = unfold scan in cc
scan-Reads (suc fuel) (c ∷ s) literal literals ls h =
    Reads-round fuel c s literal literals ls (next_token c s) refl
      (λ s' lit lits k. scan-Reads fuel s' lit lits ls k) h

-- A pattern is scanned to exactly the literals that it is the print of, braces doubled and `{n}`
-- between them.
pub scan_iff :
    (pattern : Text) (l : Text) (ls : List Text)
    → (scan (length pattern) pattern [] [] ≡ ok (l ∷ ls)) ↔ (pattern ≡ unparse (l ∷ ls))
scan_iff pattern l ls = (
  λ h. let (l', ls', p, q) = scan-Reads (length pattern) pattern [] [] (l ∷ ls) h in cc,
  λ e. rw e (scan-unparse l ls [] [] (length (unparse (l ∷ ls))) (omega arith)),
)
