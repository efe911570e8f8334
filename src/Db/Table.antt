-- ===== src/Db/Table.antt =====
-- A sheet's rows as a table by primary key, as both repositories keep it: the first row with a key is
-- found, a row is replaced in place or appended, and the rows are sorted after every change.
pub mod Laws
use meshprovision.Common.{
  Bool, true, false, not, Option, none, some, List, [], ◌∷◌, ◌++◌, map, keep, length,
  ◌==◌ as nat_eq, if◌then◌else◌,
}
use meshprovision.Common.Text.{Text}
use meshprovision.Common.Equality.{◌==◌, Text_eq, mem}
use meshprovision.Common.Sorting.{sort}

module _ {R : Type 0} (key : R → Text) where
  unfoldable pub find : Text → List R → Option R
  find k [] = none
  find k (r ∷ rows) = let rest = find k rows in if key r == k then some r else rest

  -- The loop of `upsert`: every row with the key is replaced, in place.
  unfoldable pub replaced : R → List R → List R
  replaced new [] = []
  replaced new (r ∷ rows) =
      let rest = replaced new rows in if key r == key new then new ∷ rest else r ∷ rest

  unfoldable pub upserted : R → List R → List R
  unfolding replaced
  upserted new rows =
      if mem (key new) (map key rows) then replaced new rows else replaced new rows ++ new ∷ []

  unfoldable pub removed : Text → List R → List R
  removed k rows = keep (λ r. not (key r == k)) rows

  -- The table is sorted by `OdsDatabase.replace`.
  module _ (le : R → R → Bool) where
    unfoldable pub upsert : R → List R → List R
    unfolding upserted
    upsert new rows = sort le (upserted new rows)

    -- `False` and no change when no row has the key.
    unfoldable pub delete : Text → List R → Bool × List R
    unfolding removed
    delete k rows =
        let filtered = removed k rows in
        if nat_eq (length filtered) (length rows) then (false, rows) else (true, sort le filtered)
