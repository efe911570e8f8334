-- ===== src/Names.antt =====
-- src/meshprovision/db/nodes.py (find_next_free_name, used_short_names, used_long_names,
-- next_free_name) and src/meshprovision/provisioning/pipeline.py (allocate_names): the choice of a
-- free name for a node.
pub mod Free
mod Allocate
mod Tests
use meshprovision.Common.{
  ℕ, zero, suc, ◌+◌, ◌-◌, Bool, true, false, not, ◌&&◌, Option, none, some, List, [], ◌∷◌, map,
  keep, is_empty, length, if◌then◌else◌, Result, ok, err, ◌>>=◌, ◌>>◌,
}
use meshprovision.Common.Text.{Text}
use meshprovision.Common.Equality.{Text_eq, mem}
use meshprovision.NamePattern.{
  NameError, exhausted, PatternSpec, capacity, render, parse_index, casefold,
  ensure_capacity_available,
}

-- The fields of a node's row that naming reads.
pub record NodeNames : Type 0 where
  pub short_name : Text
  pub long_name : Text
  pub is_archived : Bool

-- `frozenset(names)`
unfoldable pub set_of : List Text → List Text
set_of [] = []
set_of (x ∷ xs) = let rest = set_of xs in if mem x rest then rest else x ∷ rest

unfoldable pub used_short_names : List NodeNames → List Text
used_short_names nodes =
    set_of
      (map (λ n. n.short_name) (keep (λ n. not (is_empty n.short_name) && not n.is_archived) nodes))

unfoldable pub used_long_names : List NodeNames → List Text
used_long_names nodes =
    set_of
      (map (λ n. n.long_name) (keep (λ n. not (is_empty n.long_name) && not n.is_archived) nodes))

unfoldable pub has_index : PatternSpec → Text → Bool
has_index spec name = elim (parse_index spec name) [ none ↦ false | some i ↦ true ]

-- `str.casefold` of one character is a parameter, as in the patterns.
module _ (fold : ℕ → Text) where
  -- `{name.casefold() for name in used if name}`, for membership tests.
  unfoldable pub folded : List Text → List Text
  folded used = map (casefold fold) (keep (λ s. not (is_empty s)) used)

  -- `for index in range(start, spec.capacity)`, with the rounds that are left.
  unfoldable pub first_free : PatternSpec → List Text → ℕ → ℕ → Result NameError (ℕ × Text)
  first_free spec taken zero index = err (exhausted (capacity spec))
  first_free spec taken (suc rounds) index =
      let rest = first_free spec taken rounds (index + 1) in
      render spec index >>= λ name.
      if mem (casefold fold name) taken then rest else ok (index, name)

  unfoldable pub find_next_free_name : PatternSpec → List Text → ℕ → Result NameError (ℕ × Text)
  find_next_free_name spec used start = do
    let taken = folded used
    let in_namespace = length (keep (has_index spec) used)
    ensure_capacity_available spec in_namespace
    first_free spec taken (capacity spec - start) start

  -- The long name that goes with the index of the short one, if there is one and it is free.
  unfoldable pub long_for :
      PatternSpec → List NodeNames → Result NameError Text → Result NameError Text
  long_for long_spec nodes (err e) = do
    found ← find_next_free_name long_spec (used_long_names nodes) 0
    ok (found.1)
  long_for long_spec nodes (ok long) =
      if mem (casefold fold long) (map (casefold fold) (used_long_names nodes))
      then (do found ← find_next_free_name long_spec (used_long_names nodes) 0; ok (found.1))
      else ok long

  unfoldable pub fresh_names :
      List NodeNames → PatternSpec → PatternSpec → Result NameError (Option Text × Option Text)
  fresh_names nodes short_spec long_spec = do
    found ← find_next_free_name short_spec (used_short_names nodes) 0
    long ← long_for long_spec nodes (render long_spec found.0)
    ok (some found.1, some long)

  unfoldable pub allocate_names :
      List NodeNames
      → PatternSpec
      → PatternSpec
      → Option NodeNames
      → Bool
      → Result NameError (Option Text × Option Text)
  allocate_names nodes short_spec long_spec none rename = fresh_names nodes short_spec long_spec
  allocate_names nodes short_spec long_spec (some existing) rename =
      if not rename
      then ok (none, none)
      else if has_index short_spec existing.short_name && has_index long_spec existing.long_name
      then ok (some existing.short_name, some existing.long_name)
      else fresh_names nodes short_spec long_spec
