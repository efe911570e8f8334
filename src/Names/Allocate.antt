-- ===== src/Names/Allocate.antt =====
-- src/meshprovision/provisioning/pipeline.py, `allocate_names`: what the pair of names that it
-- returns is, in each case.
use native.Mathlib.Omega.{arith}
use meshprovision.Common.{
  ℕ, ◌≡◌, ◌∙◌, ap, [], ◌∷◌, ◌>>=◌, keep, all, is_empty, ◌⊎◌, inl, inr, refl, Bool, true, false, not,
  ◌&&◌, Option, none, some, List, map, Result, ok, err, &&_parts, Bool-cases, Result-cases,
  >>=-eq_ok, ◌<◌,
}
use meshprovision.Common.Text.{Text}
use meshprovision.Common.Equality.{Text_eq, mem}
use meshprovision.NamePattern.{NameError, PatternSpec, capacity, render, casefold}
use meshprovision.Names.{
  NodeNames, set_of, used_short_names, used_long_names, has_index, folded, find_next_free_name,
  long_for, fresh_names, allocate_names,
}
use meshprovision.Names.Free.{find_next_free_name-first}

module _ (fold : ℕ → Text) where
  -- A name of a pattern that no active node has, compared without regard to case.
  abbrev pub IsFresh : PatternSpec → List Text → Text → Type 0
  IsFresh spec used name =
      (i : ℕ) × (i < capacity spec)
      × (render spec i ≡ ok name)
      × (mem (casefold fold name) (folded fold used) ≡ false)

  find-IsFresh :
      (spec : PatternSpec) (used : List Text) (i : ℕ) (name : Text)
      → find_next_free_name fold spec used 0 ≡ ok (i, name)
      → IsFresh spec used name
  find-IsFresh spec used i name e =
      let fact = find_next_free_name-first fold spec used 0 i name e in (i, fact.1, fact.2, fact.3)

render-lt : (spec : PatternSpec) (i : ℕ) (name : Text) → render spec i ≡ ok name → i < capacity spec
unfolding render
render-lt spec i name e = ground arith

abbrev filled : Text → Bool
filled s = not (is_empty s)

keep-all : (p : Text → Bool) (xs : List Text) → all p xs ≡ true → keep p xs ≡ xs
keep-all p [] h = refl
keep-all p (x ∷ xs) h = ground (arith, keep-all p xs)

all-set_of : (p : Text → Bool) (xs : List Text) → all p xs ≡ true → all p (set_of xs) ≡ true
unfolding set_of
all-set_of p [] h = refl
all-set_of p (x ∷ xs) h = ground (arith, all-set_of p xs)

all-long_names :
    (nodes : List NodeNames)
    → all filled
        (map (λ n. n.long_name) (keep (λ n. not (is_empty n.long_name) && not n.is_archived) nodes))
      ≡ true
all-long_names [] = refl
all-long_names (n ∷ nodes) = ground (arith, all-long_names nodes)

module _ (fold : ℕ → Text) (nodes : List NodeNames) (short_spec long_spec : PatternSpec) where
  folded-long_names :
      folded fold (used_long_names nodes) ≡ map (casefold fold) (used_long_names nodes)
  unfolding folded used_long_names
  folded-long_names =
      ap (map (casefold fold))
        (keep-all filled (set_of _) (all-set_of filled _ (all-long_names nodes)))

  refound-IsFresh :
      (r : Result NameError (ℕ × Text)) (long : Text)
      → r ≡ find_next_free_name fold long_spec (used_long_names nodes) 0
      → (r >>= λ found. ok found.1) ≡ ok long
      → IsFresh fold long_spec (used_long_names nodes) long
  refound-IsFresh (ok (i, name)) long e h =
      find-IsFresh fold long_spec (used_long_names nodes) i long (cc)
  refound-IsFresh (err x) long e h = cc

  long_for-IsFresh :
      (i : ℕ) (long : Text)
      → long_for fold long_spec nodes (render long_spec i) ≡ ok long
      → IsFresh fold long_spec (used_long_names nodes) long
  unfolding long_for
  long_for-IsFresh i long e = elim (Result-cases (render long_spec i)) [
    | inr (x, failed) ↦
        refound-IsFresh (find_next_free_name fold long_spec (used_long_names nodes) 0) long refl
          (rw failed at e)
    | inl (name, rendered) ↦
        elim (Bool-cases (mem (casefold fold name) (map (casefold fold) (used_long_names nodes)))) [
          | inl old ↦
              refound-IsFresh (find_next_free_name fold long_spec (used_long_names nodes) 0) long
                refl (rw (rendered, old) at e)
          | inr new ↦
              let done : ◌≡◌ {A = Result NameError Text} (ok name) (ok long) =
                rw (rendered, new) at e in
              let same : name ≡ long = cc in
              (
                i,
                render-lt long_spec i name rendered,
                rendered ∙ ap ok same,
                rw (folded-long_names, ← same) new,
              )
        ]
  ]

  -- The pair of names for a node that has none yet.
  fresh_names-IsFresh :
      (s l : Option Text)
      → fresh_names fold nodes short_spec long_spec ≡ ok (s, l)
      → (short : Text) × (long : Text) × (s ≡ some short)
        × (l ≡ some long)
        × IsFresh fold short_spec (used_short_names nodes) short
        × IsFresh fold long_spec (used_long_names nodes) long
  unfolding fresh_names
  fresh_names-IsFresh s l e =
      let ((i, short), found, rest) =
        >>=-eq_ok (find_next_free_name fold short_spec (used_short_names nodes) 0) _ e in
      let (long, chosen, built) =
        >>=-eq_ok (long_for fold long_spec nodes (render long_spec i)) _ rest in
      (
        short,
        long,
        cc built,
        cc built,
        find-IsFresh fold short_spec (used_short_names nodes) i short found,
        long_for-IsFresh i long chosen,
      )

  -- When `allocate_names` succeeds, it returns no names when a known node is not to be renamed; the
  -- node's own names when it is to be renamed and both follow their patterns; and otherwise, for a new
  -- node or one to be renamed of whose names one does not follow its pattern, a name of each pattern
  -- that no active node has, compared without regard to case.
  pub allocate_names-cases :
      (existing : Option NodeNames) (rename : Bool) (s l : Option Text)
      → allocate_names fold nodes short_spec long_spec existing rename ≡ ok (s, l)
      → ((e : NodeNames) × (existing ≡ some e) × (rename ≡ false) × (s ≡ none) × (l ≡ none))
        ⊎ (((e : NodeNames) × (existing ≡ some e)
              × (rename ≡ true)
              × (s ≡ some e.short_name)
              × (l ≡ some e.long_name)
              × (has_index short_spec e.short_name ≡ true)
              × (has_index long_spec e.long_name ≡ true))
            ⊎ (((existing ≡ none)
                  ⊎ ((e : NodeNames) × (existing ≡ some e)
                      × (rename ≡ true)
                      × ((has_index short_spec e.short_name && has_index long_spec e.long_name)
                          ≡ false)))
                × (short : Text) × (long : Text) × (s ≡ some short)
                × (l ≡ some long)
                × IsFresh fold short_spec (used_short_names nodes) short
                × IsFresh fold long_spec (used_long_names nodes) long))
  unfolding allocate_names
  allocate_names-cases none rename s l h =
      let (short, long, is_short, is_long, short_free, long_free) = fresh_names-IsFresh s l h in
      inr (inr (inl refl, short, long, is_short, is_long, short_free, long_free))
  allocate_names-cases (some e) false s l h = inl (e, refl, refl, cc, cc)
  allocate_names-cases (some e) true s l h =
      elim (Bool-cases (has_index short_spec e.short_name && has_index long_spec e.long_name)) [
        | inl both ↦
            let parts =
              &&_parts (has_index short_spec e.short_name) (has_index long_spec e.long_name) both in
            let kept : ◌≡◌ {A = Result NameError (Option Text × Option Text)}
                (ok (some e.short_name, some e.long_name)) (ok (s, l)) =
              rw both at h in
            inr (inl (e, refl, refl, cc kept, cc kept, parts.0, parts.1))
        | inr other ↦
            let (short, long, is_short, is_long, short_free, long_free) =
              fresh_names-IsFresh s l (rw other at h) in
            inr (
              inr
                (inr (e, refl, refl, other), short, long, is_short, is_long, short_free, long_free))
      ]
