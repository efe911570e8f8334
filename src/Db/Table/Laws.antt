-- ===== src/Db/Table/Laws.antt =====
-- src/meshprovision/db/nodes.py and keys.py: a repository's table against the map from keys to rows
-- that it stands for.
use native.Mathlib.Omega.{arith}
use meshprovision.Common.{
  ◌≡◌, refl, ◌∙◌, sym, Bool, true, false, not, ◌&&◌, ◌||◌, none, some, List, [], ◌∷◌, ◌++◌, map,
  length, length-keep, ◌==◌ as nat_eq, if◌then◌else◌, Bool-cases, inl, inr,
}
use meshprovision.Common.Text.{Text, text_eq_iff}
use meshprovision.Common.Equality.{◌==◌, Text_eq, mem, distinct}
use meshprovision.Common.Sorting.{insert, sort}
use meshprovision.Db.Table.{find, replaced, upserted, removed, upsert, delete}

module _ {R : Type 0} (key : R → Text) where
  -- No two rows have one key.
  abbrev pub IsTable : List R → Type 0
  IsTable rows = distinct (map key rows) ≡ true

  module _ (le : R → R → Bool) where
    keys-insert :
        (k : Text) (r : R) (rows : List R)
        → mem k (map key (insert le r rows)) ≡ (k == key r || mem k (map key rows))
    unfolding insert
    keys-insert k r [] = refl
    keys-insert k r (x ∷ rows) = ground (arith, keys-insert k r rows)

    pub keys-sort :
        (k : Text) (rows : List R) → mem k (map key (sort le rows)) ≡ mem k (map key rows)
    unfolding sort
    keys-sort k [] = refl
    keys-sort k (r ∷ rows) = keys-insert k r (sort le rows) ∙ ground (arith, keys-sort k rows)

    insert-IsTable : (r : R) (rows : List R) → IsTable (r ∷ rows) → IsTable (insert le r rows)
    unfolding insert
    insert-IsTable r [] h = h
    insert-IsTable r (x ∷ rows) h = ground (
      arith,
      insert-IsTable r rows,
      keys-insert (key x) r rows,
      text_eq_iff (key x) (key r),
      text_eq_iff (key r) (key x),
    )

    pub sort-IsTable : (rows : List R) → IsTable rows → IsTable (sort le rows)
    unfolding sort
    sort-IsTable [] h = h
    sort-IsTable (r ∷ rows) h =
        insert-IsTable r (sort le rows) (ground (arith, sort-IsTable rows, keys-sort (key r) rows))

    find-insert :
        (k : Text) (r : R) (rows : List R)
        → mem (key r) (map key rows) ≡ false
        → find key k (insert le r rows) ≡ find key k (r ∷ rows)
    unfolding insert find
    find-insert k r [] h = refl
    find-insert k r (x ∷ rows) h = ground (
      arith,
      find-insert k r rows,
      text_eq_iff (key x) k,
      text_eq_iff (key r) k,
      text_eq_iff (key r) (key x),
    )

    pub find-sort :
        (k : Text) (rows : List R) → IsTable rows → find key k (sort le rows) ≡ find key k rows
    unfolding sort find
    find-sort k [] h = refl
    find-sort k (r ∷ rows) h =
        find-insert k r (sort le rows) (ground (arith, keys-sort (key r) rows))
        ∙ ground (arith, find-sort k rows)

  -- Replacing rows keeps the keys.
  keys-replaced :
      (k : Text) (new : R) (rows : List R)
      → mem k (map key (replaced key new rows)) ≡ mem k (map key rows)
  unfolding replaced
  keys-replaced k new [] = refl
  keys-replaced k new (r ∷ rows) =
      ground (arith, keys-replaced k new rows, text_eq_iff (key r) (key new))

  replaced-IsTable : (new : R) (rows : List R) → IsTable rows → IsTable (replaced key new rows)
  unfolding replaced
  replaced-IsTable new [] h = h
  replaced-IsTable new (r ∷ rows) h = ground (
    arith,
    replaced-IsTable new rows,
    keys-replaced (key r) new rows,
    keys-replaced (key new) new rows,
    text_eq_iff (key r) (key new),
  )

  keys-append :
      (k : Text) (new : R) (rows : List R)
      → mem k (map key (rows ++ new ∷ [])) ≡ (mem k (map key rows) || k == key new)
  keys-append k new [] = ground arith
  keys-append k new (r ∷ rows) = ground (arith, keys-append k new rows)

  append-IsTable :
      (new : R) (rows : List R)
      → IsTable rows
      → mem (key new) (map key rows) ≡ false
      → IsTable (rows ++ new ∷ [])
  append-IsTable new [] h m = refl
  append-IsTable new (r ∷ rows) h m = ground (
    arith,
    append-IsTable new rows,
    keys-append (key r) new rows,
    text_eq_iff (key new) (key r),
    text_eq_iff (key r) (key new),
  )

  pub find-none : (k : Text) (rows : List R) → mem k (map key rows) ≡ false → find key k rows ≡ none
  unfolding find
  find-none k [] h = refl
  find-none k (r ∷ rows) h =
      ground (arith, find-none k rows, text_eq_iff (key r) k, text_eq_iff k (key r))

  find-append :
      (k : Text) (new : R) (rows : List R)
      → find key k (rows ++ new ∷ []) ≡ elim (find key k rows) [
        | none ↦ if key new == k then some new else none
        | some r ↦ some r
      ]
  unfolding find
  find-append k new [] = refl
  find-append k new (r ∷ rows) = ground (arith, find-append k new rows)

  find-replaced :
      (k : Text) (new : R) (rows : List R)
      → find key k (replaced key new rows)
        ≡ (if key new == k && mem k (map key rows) then some new else find key k rows)
  unfolding find replaced
  find-replaced k new [] = ground arith
  find-replaced k new (r ∷ rows) = ground (
    arith,
    find-replaced k new rows,
    text_eq_iff (key r) (key new),
    text_eq_iff (key r) k,
    text_eq_iff k (key r),
    text_eq_iff (key new) k,
    text_eq_iff (key r) (key r),
  )

  pub upserted-IsTable : (new : R) (rows : List R) → IsTable rows → IsTable (upserted key new rows)
  unfolding upserted
  upserted-IsTable new rows h = ground (
    arith,
    replaced-IsTable new rows,
    keys-replaced (key new) new rows,
    append-IsTable new (replaced key new rows),
  )

  pub find-upserted :
      (k : Text) (new : R) (rows : List R)
      → find key k (upserted key new rows) ≡ (if key new == k then some new else find key k rows)
  unfolding upserted
  find-upserted k new rows = elim (Bool-cases (mem (key new) (map key rows))) [
    | inl old ↦ rw old (find-replaced k new rows ∙ ground (arith, text_eq_iff (key new) k))
    | inr fresh ↦ rw fresh (
        find-append k new (replaced key new rows)
        ∙ ground (arith, find-replaced k new rows, text_eq_iff (key new) k, find-none k rows))
  ]

  keys-removed :
      (k j : Text) (rows : List R)
      → mem j (map key (removed key k rows)) ≡ (mem j (map key rows) && not (j == k))
  unfolding removed
  keys-removed k j [] = refl
  keys-removed k j (r ∷ rows) =
      ground (
        arith,
        keys-removed k j rows,
        text_eq_iff (key r) k,
        text_eq_iff j (key r),
        text_eq_iff j k,
      )

  removed-IsTable : (k : Text) (rows : List R) → IsTable rows → IsTable (removed key k rows)
  unfolding removed
  removed-IsTable k [] h = refl
  removed-IsTable k (r ∷ rows) h =
      ground (arith, removed-IsTable k rows, keys-removed k (key r) rows)

  pub find-removed :
      (k j : Text) (rows : List R)
      → find key j (removed key k rows) ≡ (if j == k then none else find key j rows)
  unfolding find removed
  find-removed k j [] = ground arith
  find-removed k j (r ∷ rows) =
      ground (
        arith,
        find-removed k j rows,
        text_eq_iff (key r) k,
        text_eq_iff (key r) j,
        text_eq_iff j k,
      )

  -- When nothing was removed, no row has the key.
  removed-same :
      (k : Text) (rows : List R)
      → length (removed key k rows) ≡ length rows
      → mem k (map key rows) ≡ false
  unfolding removed
  removed-same k [] h = refl
  removed-same k (r ∷ rows) h = ground (
    arith,
    removed-same k rows,
    length-keep (λ r. not (key r == k)) rows,
    text_eq_iff (key r) k,
    text_eq_iff k (key r),
  )

  removed_absent :
      (k : Text) (rows : List R)
      → mem k (map key rows) ≡ false
      → length (removed key k rows) ≡ length rows
  unfolding removed
  removed_absent k [] h = refl
  removed_absent k (r ∷ rows) h =
      ground (arith, removed_absent k rows, text_eq_iff (key r) k, text_eq_iff k (key r))

  module _ (le : R → R → Bool) (rows : List R) (h : IsTable rows) where
    -- Rows with different keys keep different keys when one is written, and the table then stands
    -- for the map in which the written row's key leads to that row and every other key to what it
    -- led to before.
    pub upsert-refines :
        (new : R)
        → IsTable (upsert key le new rows)
          × ((k : Text)
              → find key k (upsert key le new rows)
                ≡ (if key new == k then some new else find key k rows))
    unfolding upsert
    upsert-refines new =
        let table = upserted-IsTable new rows h in
        (
          sort-IsTable le (upserted key new rows) table,
          λ k. find-sort le k (upserted key new rows) table ∙ find-upserted k new rows,
        )

    -- Rows with different keys keep different keys when one is deleted, the table then stands for the
    -- map in which that key leads to nothing and every other key to what it led to before, and the
    -- answer is whether the key led to a row.
    pub delete-refines :
        (k : Text)
        → IsTable (delete key le k rows).1
          × ((j : Text)
              → find key j (delete key le k rows).1 ≡ (if j == k then none else find key j rows))
          × ((delete key le k rows).0 ≡ mem k (map key rows))
    unfolding delete
    delete-refines k = elim (Bool-cases (nat_eq (length (removed key k rows)) (length rows))) [
      | inl same ↦
          let absent = removed-same k rows (ground arith) in
          rw same
            ((h, λ j. ground (arith, absent, text_eq_iff j k, find-none k rows absent), sym absent))
      | inr fewer ↦
          let table = removed-IsTable k rows h in
          rw fewer (
            (
              sort-IsTable le (removed key k rows) table,
              λ j. find-sort le j (removed key k rows) table ∙ find-removed k j rows,
              ground (arith, removed_absent k rows),
            ))
    ]
