-- ===== src/NamePattern/Compile.antt =====
-- src/meshprovision/name_pattern.py, `PatternSpec.compile` as a whole, and the fuel of its loop.
use native.Mathlib.Omega.{arith}
use meshprovision.Common.{
  ℕ, zero, suc, ◌≤◌, ◌<◌, ◌≡◌, ◌≢◌, ◌↔◌, refl, ◌∙◌, ap, List, [], ◌∷◌, ◌++◌, drop, length, ok, err,
  length-drop, >>=-eq_ok, List-cases, inl, inr,
}
use meshprovision.Common.Text.{Text}
use meshprovision.NamePattern.{
  out_of_fuel, Token, open_brace, close_brace, slot, bad_open, bad_close, plain, next_token, scan,
  PatternSpec, compile, compile_literals, validate_alphabet,
}
use meshprovision.NamePattern.Scanning.{unparse, scan-Reads, scan-end, scan_iff}

-- A round leaves less text, and so enough fuel.
module _ (fuel c : ℕ) (s literal : Text) (literals : List Text) where
  round-ne-out_of_fuel :
      (t : Token)
      → next_token c s ≡ t
      → ((s' lit : Text) (lits : List Text)
          → length s' ≤ length s
          → scan fuel s' lit lits ≢ err out_of_fuel)
      → scan (suc fuel) (c ∷ s) literal literals ≢ err out_of_fuel
  unfolding scan
  round-ne-out_of_fuel open_brace e ih h =
      ih (drop 1 s) (literal ++ b'{' ∷ []) literals (omega (arith, length-drop 1 s))
        (rw (e, scan) at h)
  round-ne-out_of_fuel close_brace e ih h =
      ih (drop 1 s) (literal ++ b'}' ∷ []) literals (omega (arith, length-drop 1 s))
        (rw (e, scan) at h)
  round-ne-out_of_fuel slot e ih h =
      ih (drop 2 s) [] (literals ++ literal ∷ []) (omega (arith, length-drop 2 s))
        (rw (e, scan) at h)
  round-ne-out_of_fuel bad_open e ih h = ground (arith, e)
  round-ne-out_of_fuel bad_close e ih h = ground (arith, e)
  round-ne-out_of_fuel (plain d) e ih h =
      ih s (literal ++ d ∷ []) literals (omega arith) (rw (e, scan) at h)

scan-ne-out_of_fuel :
    (fuel : ℕ) (s literal : Text) (literals : List Text)
    → length s ≤ fuel
    → scan fuel s literal literals ≢ err out_of_fuel
scan-ne-out_of_fuel fuel [] literal literals h e = cc (e, scan-end fuel literal literals)
scan-ne-out_of_fuel zero (c ∷ s) literal literals h e = absurd (omega arith)
scan-ne-out_of_fuel (suc fuel) (c ∷ s) literal literals h e =
    round-ne-out_of_fuel fuel c s literal literals (next_token c s) refl
      (λ s' lit lits k. scan-ne-out_of_fuel fuel s' lit lits (omega arith)) e

-- What the specification of `compile` says of its result.
abbrev pub Compiled : Text → Text → Text → PatternSpec → Type 0
Compiled pattern alphabet field spec =
    (pattern ≢ [])
    × (0 < length spec.literals)
    × (pattern ≡ unparse spec.literals)
    × (spec.pattern ≡ pattern)
    × (spec.alphabet ≡ alphabet)
    × (spec.field ≡ field)

compile_literals-Compiled :
    (pattern alphabet field : Text) (spec : PatternSpec)
    → compile_literals pattern alphabet field ≡ ok spec
    → Compiled pattern alphabet field spec
unfolding compile_literals
compile_literals-Compiled [] alphabet field spec h = cc
compile_literals-Compiled (c ∷ s) alphabet field spec h =
    let (ls, scanned, built) =
      >>=-eq_ok (scan (length (c ∷ s)) (c ∷ s) [] [])
        (λ ls. ok (record { pattern = c ∷ s; alphabet = alphabet; literals = ls; field = field }))
        h in
    let (l, ls', p, q) = scan-Reads (length (c ∷ s)) (c ∷ s) [] [] ls scanned in
    let same : spec.literals ≡ l ∷ ls' = cc in
    (λ e. cc, rw same (omega arith), rw same q, cc, cc, cc)

Compiled-compile_literals :
    (pattern alphabet field : Text) (spec : PatternSpec)
    → Compiled pattern alphabet field spec
    → compile_literals pattern alphabet field ≡ ok spec
unfolding compile_literals
Compiled-compile_literals [] alphabet field spec h = absurd (h.0 refl)
Compiled-compile_literals (c ∷ s) alphabet field spec (_, some_literal, p, a, b, d) =
    elim (List-cases spec.literals) [
      | inl e ↦ absurd (omega (arith, ap (λ (x : List Text). length x) e))
      | inr (l, ls, e) ↦
          let scanned = (scan_iff (c ∷ s) l ls).1 (p ∙ ap unparse e) in
          ground (arith, scanned, e, a, b, d)
    ]

module _ (fold : ℕ → Text) (pattern alphabet field : Text) where
  -- With an accepted alphabet, a pattern compiles to a spec exactly when it is not empty, the spec
  -- keeps the pattern, the alphabet and the field, and the pattern is the print of the spec's
  -- literals, one at least, with braces doubled and `{n}` between them.
  pub compile_iff :
      (spec : PatternSpec)
      → validate_alphabet fold alphabet ≡ ok tt
      → (compile fold pattern alphabet field ≡ ok spec) ↔ Compiled pattern alphabet field spec
  unfolding compile
  compile_iff spec v = (
    λ h. compile_literals-Compiled pattern alphabet field spec (rw v at h),
    λ h. rw v (Compiled-compile_literals pattern alphabet field spec h),
  )

  -- The loop ends by itself: the fuel that the model gives it is never used up.
  pub compile_literals-ne-out_of_fuel : compile_literals pattern alphabet field ≢ err out_of_fuel
  unfolding compile_literals
  compile_literals-ne-out_of_fuel e =
      ground (arith, e, scan-ne-out_of_fuel (length pattern) pattern [] [])
