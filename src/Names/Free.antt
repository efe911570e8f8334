-- ===== src/Names/Free.antt =====
-- src/meshprovision/db/nodes.py, `find_next_free_name`: the name that it returns, and when it
-- refuses.
use native.Mathlib.Omega.{arith}
use native.Mathlib.Decide.{dec_lt}
use meshprovision.Common.{
  ℕ, zero, suc, ◌+◌, ◌-◌, ◌≤◌, ◌<◌, ◌≡◌, ◌⊎◌, inl, inr, refl, ◌∙◌, sym, true, false, List, [], leb,
  keep, length, ok, err, leb→le, Bool-cases,
}
use meshprovision.Common.Text.{Text}
use meshprovision.Common.Equality.{Text_eq, mem}
use meshprovision.NamePattern.{
  NameError, exhausted, PatternSpec, capacity, render, render_digits, digits_of, slot_count,
  casefold, ensure_capacity_available,
}
use meshprovision.Names.{first_free, find_next_free_name, folded, has_index}

-- The name of an index below the capacity.
abbrev pub name_at : PatternSpec → ℕ → Text
name_at spec i = render_digits spec (digits_of (length spec.alphabet) (slot_count spec) i [])

pub render-name_at :
    (spec : PatternSpec) (i : ℕ) → i < capacity spec → render spec i ≡ ok (name_at spec i)
unfolding render
render-name_at spec i h = ground arith

module _ (fold : ℕ → Text) (spec : PatternSpec) where
  -- The name of an index is in use, compared without regard to case.
  abbrev pub IsTaken : List Text → ℕ → Type 0
  IsTaken taken i = mem (casefold fold (name_at spec i)) taken ≡ true

  step_taken :
      (taken : List Text) (rounds i : ℕ)
      → i < capacity spec
      → IsTaken taken i
      → first_free fold spec taken (suc rounds) i ≡ first_free fold spec taken rounds (i + 1)
  unfolding first_free
  step_taken taken rounds i h old = rw (render-name_at spec i h) (rw old refl)

  step_free :
      (taken : List Text) (rounds i : ℕ)
      → i < capacity spec
      → mem (casefold fold (name_at spec i)) taken ≡ false
      → first_free fold spec taken (suc rounds) i ≡ ok (i, name_at spec i)
  unfolding first_free
  step_free taken rounds i h new = rw (render-name_at spec i h) (rw new refl)

  -- What holds at the first index and behind it holds from the first index on.
  IsTaken-from :
      (taken : List Text) (start end : ℕ)
      → IsTaken taken start
      → ((j : ℕ) → start + 1 ≤ j → j < end → IsTaken taken j)
      → (j : ℕ) → start ≤ j
      → j < end
      → IsTaken taken j
  IsTaken-from taken start end here later j lo hi = elim (dec_lt start j) [
    | yes lt ↦ later j (omega arith) hi
    | no ge ↦ let same : j ≡ start = omega arith in rw same here
  ]

  first_free-ok :
      (taken : List Text) (rounds start i : ℕ) (name : Text)
      → rounds ≤ capacity spec - start
      → first_free fold spec taken rounds start ≡ ok (i, name)
      → (start ≤ i)
        × (i < start + rounds)
        × (name ≡ name_at spec i)
        × (mem (casefold fold name) taken ≡ false)
        × ((j : ℕ) → start ≤ j → j < i → IsTaken taken j)
  first_free-ok taken zero start i name h e = unfold first_free in cc
  first_free-ok taken (suc rounds) start i name h e =
      elim (Bool-cases (mem (casefold fold (name_at spec start)) taken)) [
        | inl old ↦
            let step = step_taken taken rounds start (omega arith) old in
            let later =
              first_free-ok taken rounds (start + 1) i name (omega arith) (sym step ∙ e) in
            (
              omega (arith, later.0),
              omega (arith, later.1),
              later.2,
              later.3,
              IsTaken-from taken start i old later.4,
            )
        | inr new ↦
            let found = sym (step_free taken rounds start (omega arith) new) ∙ e in
            let same : (start ≡ i) × (name_at spec start ≡ name) = ground (arith, found) in
            (
              omega (arith, same.0),
              omega (arith, same.0),
              rw (← same.0) (sym same.1),
              rw (← same.1) new,
              λ j lo hi. absurd (omega (arith, same.0)),
            )
      ]

  first_free-err :
      (taken : List Text) (rounds start : ℕ) (x : NameError)
      → rounds ≤ capacity spec - start
      → first_free fold spec taken rounds start ≡ err x
      → (x ≡ exhausted (capacity spec))
        × ((j : ℕ) → start ≤ j → j < start + rounds → IsTaken taken j)
  first_free-err taken zero start x h e = unfold first_free in (cc, λ j lo hi. absurd (omega arith))
  first_free-err taken (suc rounds) start x h e =
      elim (Bool-cases (mem (casefold fold (name_at spec start)) taken)) [
        | inl old ↦
            let step = step_taken taken rounds start (omega arith) old in
            let later = first_free-err taken rounds (start + 1) x (omega arith) (sym step ∙ e) in
            (
              later.0,
              IsTaken-from taken start (start + suc rounds) old
                  (λ j lo hi. later.1 j lo (omega arith)),
            )
        | inr new ↦ absurd (cc (sym (step_free taken rounds start (omega arith) new) ∙ e))
      ]

  -- The name that is found is rendered from an index in range, no used name has its case fold, and
  -- every index before it, from the start, is in use.
  pub find_next_free_name-first :
      (used : List Text) (start i : ℕ) (name : Text)
      → find_next_free_name fold spec used start ≡ ok (i, name)
      → (start ≤ i)
        × (i < capacity spec)
        × (render spec i ≡ ok name)
        × (mem (casefold fold name) (folded fold used) ≡ false)
        × ((j : ℕ) → start ≤ j → j < i → IsTaken (folded fold used) j)
  unfolding find_next_free_name ensure_capacity_available
  find_next_free_name-first used start i name e =
      elim (Bool-cases (leb (capacity spec) (length (keep (has_index spec) used)))) [
        | inl full ↦ absurd (cc (rw full at e))
        | inr room ↦
            let found =
              first_free-ok (folded fold used) (capacity spec - start) start i name (omega arith)
                (rw room at e) in
            let below : i < capacity spec = omega (arith, found.0, found.1) in
            (found.0, below, rw found.2 (render-name_at spec i below), found.3, found.4)
      ]

  -- The only error is that the namespace is exhausted: as many used names follow the pattern as it
  -- has names, or every index from the start is in use.
  find_next_free_name-exhausted :
      (used : List Text) (start : ℕ) (x : NameError)
      → find_next_free_name fold spec used start ≡ err x
      → (x ≡ exhausted (capacity spec))
        × ((capacity spec ≤ length (keep (has_index spec) used))
            ⊎ ((j : ℕ) → start ≤ j → j < capacity spec → IsTaken (folded fold used) j))
  unfolding find_next_free_name ensure_capacity_available
  find_next_free_name-exhausted used start x e =
      elim (Bool-cases (leb (capacity spec) (length (keep (has_index spec) used)))) [
        | inl full ↦ (cc (rw full at e), inl (leb→le _ _ full))
        | inr room ↦
            let none_free =
              first_free-err (folded fold used) (capacity spec - start) start x (omega arith)
                (rw room at e) in
            (none_free.0, inr (λ j lo hi. none_free.1 j lo (omega arith)))
      ]
