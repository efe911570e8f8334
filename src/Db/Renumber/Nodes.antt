-- ===== src/Db/Renumber/Nodes.antt =====
-- src/meshprovision/db/renumber.py, the rows of `renumber_rows`: the Nodes sheet as a map, before and
-- after.
use native.Mathlib.Omega.{arith}
use meshprovision.Common.{
  ℕ, ◌≡◌, refl, ◌∙◌, true, false, Option, none, some, List, [], ◌∷◌, if◌then◌else◌, Bool-cases,
  Option-cases, inl, inr, &&_parts,
}
use meshprovision.Common.Text.{Text, text_eq_iff}
use meshprovision.Common.Equality.{◌==◌, Text_eq}
use meshprovision.Plan.AdminKeys.{texts_eq}
use meshprovision.Db.{NodeRecord, touched}
use meshprovision.Db.Sorting.{node_le}
use meshprovision.Db.Table.{find}
use meshprovision.Db.Table.Laws.{IsTable, upsert-refines, find-none}
use meshprovision.Db.Renumber.{node_key, renamed, upsert_node, rename_refs}

pub texts_eq_iff : (xs ys : List Text) → (texts_eq xs ys ≡ true) → xs ≡ ys
unfolding texts_eq
texts_eq_iff [] [] h = refl
texts_eq_iff [] (y ∷ ys) h = cc
texts_eq_iff (x ∷ xs) [] h = cc
texts_eq_iff (x ∷ xs) (y ∷ ys) h =
    let parts = &&_parts (x == y) (texts_eq xs ys) h in
    cc ((text_eq_iff x y).0 parts.0, texts_eq_iff xs ys parts.1)

-- A row with the references renamed, written only if one of them was.
abbrev pub renamed_row : ℕ → Text → Text → NodeRecord → NodeRecord
renamed_row now old new row =
    let refs = renamed old new row.authorized_admin_keys in
    if texts_eq refs row.authorized_admin_keys
    then row
    else touched now (record row { authorized_admin_keys = refs })

-- A row of the loop's list comes out renamed, and any other key leads where it did.
abbrev pub or_renamed : ℕ → Text → Text → Option NodeRecord → Option NodeRecord → Option NodeRecord
or_renamed now old new none was = was
or_renamed now old new (some row) was = some (renamed_row now old new row)

module _ (fold : ℕ → Text) (now : ℕ) (old new : Text) where
  touched-key : (row : NodeRecord) → (touched now row).node_id ≡ row.node_id
  unfolding touched
  touched-key row = refl

  pub upsert_node-lem :
      (row : NodeRecord) (rows : List NodeRecord)
      → IsTable node_key rows
      → IsTable node_key (upsert_node fold now row rows)
        × ((k : Text)
            → find node_key k (upsert_node fold now row rows)
              ≡ (if row.node_id == k then some (touched now row) else find node_key k rows))
  unfolding upsert_node
  upsert_node-lem row rows h =
      let laws = upsert-refines node_key (node_le fold) rows h (touched now row) in
      (laws.0, λ k. laws.1 k ∙ rw (touched-key row) refl)

  -- The rows after one turn of the loop.
  abbrev turned : NodeRecord → List NodeRecord → List NodeRecord
  turned other rows =
      let refs = renamed old new other.authorized_admin_keys in
      if texts_eq refs other.authorized_admin_keys
      then rows
      else upsert_node fold now (record other { authorized_admin_keys = refs }) rows

  turned-lem :
      (other : NodeRecord) (rows : List NodeRecord)
      → IsTable node_key rows
      → find node_key other.node_id rows ≡ some other
      → IsTable node_key (turned other rows)
        × ((k : Text)
            → find node_key k (turned other rows) ≡ (
                if other.node_id == k
                then some (renamed_row now old new other)
                else find node_key k rows))
  turned-lem other rows h there =
      let refs = renamed old new other.authorized_admin_keys in
      elim (Bool-cases (texts_eq refs other.authorized_admin_keys)) [
        | inl same ↦ rw same ((h, λ k. ground (arith, text_eq_iff other.node_id k, there)))
        | inr changed ↦
            rw changed (upsert_node-lem (record other { authorized_admin_keys = refs }) rows h)
      ]

  module _ (other : NodeRecord) (others : List NodeRecord) where
    find_first : find node_key other.node_id (other ∷ others) ≡ some other
    unfolding find
    find_first = ground (arith, text_eq_iff other.node_id other.node_id)

    module _ (t : IsTable node_key (other ∷ others)) where
      rest-IsTable : IsTable node_key others
      rest-IsTable = ground arith

      apart_key :
          (k : Text) (r : NodeRecord)
          → find node_key k others ≡ some r
          → (other.node_id == k) ≡ false
      apart_key k r e = ground (arith, text_eq_iff other.node_id k, find-none node_key k others)

      find_later :
          (k : Text) (r : NodeRecord)
          → find node_key k others ≡ some r
          → find node_key k (other ∷ others) ≡ some r
      unfolding find
      find_later k r e = rw (apart_key k r e) e

      one_turn :
          (after rows : List NodeRecord) (k : Text)
          → find node_key k after ≡ (
              if other.node_id == k
              then some (renamed_row now old new other)
              else find node_key k rows)
          → or_renamed now old new (find node_key k others) (find node_key k after)
            ≡ or_renamed now old new (find node_key k (other ∷ others)) (find node_key k rows)
      unfolding find
      one_turn after rows k h = elim (Option-cases (find node_key k others)) [
        | inl absent ↦ elim (Bool-cases (other.node_id == k)) [
          | inl here ↦ rw (absent, here) (h ∙ rw here refl)
          | inr apart ↦ rw (absent, apart) (h ∙ rw apart refl)
        ]
        | inr (r, e) ↦ rw (e, apart_key k r e) refl
      ]

  pub rename_refs-lem :
      (others rows : List NodeRecord)
      → IsTable node_key others
      → IsTable node_key rows
      → ((k : Text) (r : NodeRecord)
          → find node_key k others ≡ some r
          → find node_key k rows ≡ some r)
      → IsTable node_key (rename_refs fold now old new others rows)
        × ((k : Text)
            → find node_key k (rename_refs fold now old new others rows)
              ≡ or_renamed now old new (find node_key k others) (find node_key k rows))
  unfolding rename_refs
  rename_refs-lem [] rows t h sub = (h, λ k. rw (find-none node_key k [] refl) refl)
  rename_refs-lem (other ∷ others) rows t h sub =
      let turn = turned-lem other rows h (sub other.node_id other (find_first other others)) in
      let ih =
        rename_refs-lem others (turned other rows) (rest-IsTable other others t) turn.0 (λ k r e.
          turn.1 k
          ∙ rw (apart_key other others t k r e) (sub k r (find_later other others t k r e))) in
      (ih.0, λ k. ih.1 k ∙ one_turn other others t (turned other rows) rows k (turn.1 k))
