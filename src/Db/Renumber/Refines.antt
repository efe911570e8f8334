-- ===== src/Db/Renumber/Refines.antt =====
-- src/meshprovision/db/renumber.py, `renumber_rows` as a whole, against the maps the two sheets stand for.
use native.Mathlib.Omega.{arith}
use meshprovision.Common.{
  ℕ, ◌≡◌, refl, ◌∙◌, ap, sym, subst, true, false, Option, none, some, List, if◌then◌else◌, ok,
}
use meshprovision.Common.Text.{Text, text_eq, text_eq_iff}
use meshprovision.Common.Equality.{Text_eq, mem}
use meshprovision.NodeId.{NodeId, hex, IsValid}
use meshprovision.Db.{KeyType, KeyRecord, NodeRecord, ref_for, touched}
use meshprovision.Db.Table.{find, delete}
use meshprovision.Db.Table.Laws.{IsTable, delete-refines}
use meshprovision.Db.Sorting.{node_le}
use meshprovision.Db.Renumber.{
  Database, node_key, key_key, key_types, move_keys, check_new_id, moved_row, upsert_node,
  rename_refs, renumber_rows, get_node, renumber_note,
}
use meshprovision.Db.Renumber.Keys.{refile, move_keys-lem}
use meshprovision.Db.Renumber.Nodes.{or_renamed, upsert_node-lem, rename_refs-lem}
use meshprovision.Db.Renumber.References.{
  hex_apart, hex_same_length, renamed_row_fixed, renamed_row-refs, renamed-apart, check_new_id-free,
}

-- What the Nodes sheet's map becomes: the moved row under the new id, nothing under the old id, and
-- every other row with its references renamed.
module _ (now : ℕ) (old new : Text) (moved : NodeRecord) where
  abbrev pub NodesMoved : (before after : Text → Option NodeRecord) → Type 0
  NodesMoved before after =
      (after new ≡ some moved)
      × (after old ≡ none)
      × ((k : Text)
          → text_eq new k ≡ false
          → text_eq k old ≡ false
          → after k ≡ or_renamed now old new (before k) none)

-- No row refers to a reference of the old id.
abbrev pub NoneStale : Text → (Text → Option NodeRecord) → Type 0
NoneStale old after =
    (k : Text) (r : NodeRecord)
    → after k ≡ some r
    → (b : KeyType) → mem (ref_for old b) r.authorized_admin_keys ≡ false

-- What the Keys sheet's map becomes: a key of the old id is under the new id's reference, the old id's
-- references lead to nothing, and every other reference leads where it did.
module _ (old new : Text) where
  abbrev pub KeysMoved : (before after : Text → Option KeyRecord) → Type 0
  KeysMoved before after =
      ((b : KeyType) → after (ref_for new b) ≡ refile new b (before (ref_for old b)))
      × ((b : KeyType) → after (ref_for old b) ≡ none)
      × ((k : Text)
          → ((b : KeyType) → text_eq (ref_for new b) k ≡ false)
          → ((b : KeyType) → text_eq k (ref_for old b) ≡ false)
          → after k ≡ before k)

some_eq : {x y : NodeRecord} → some x ≡ some y → x ≡ y
some_eq h = cc

or_self :
    (now : ℕ) (old new : Text) (x : Option NodeRecord)
    → or_renamed now old new x x ≡ or_renamed now old new x none
or_self now old new none = refl
or_self now old new (some r) = refl

module _ (fold : ℕ → Text) (day : ℕ → Text) (now : ℕ) (old new : NodeId) (vo : IsValid old)
    (vn : IsValid new) (apart : text_eq (hex old) (hex new) ≡ false) (rows : List NodeRecord)
    (h : IsTable node_key rows) (row : NodeRecord) where
  abbrev o : Text
  o = hex old

  abbrev n : Text
  n = hex new

  abbrev kept : List NodeRecord
  kept = (delete node_key (node_le fold) o rows).1

  abbrev moving : NodeRecord
  moving = moved_row (renumber_note day old now) old new row

  abbrev nodes : List NodeRecord
  nodes = upsert_node fold now moving kept

  moving-key : moving.node_id ≡ n
  unfolding moved_row
  moving-key = refl

  moving-refs : (b : KeyType) → mem (ref_for o b) (touched now moving).authorized_admin_keys ≡ false
  unfolding moved_row touched
  moving-refs b =
      renamed-apart o n (hex_same_length old new vo vn) apart b row.authorized_admin_keys

  self : (k : Text) → text_eq k k ≡ true
  self k = (text_eq_iff k k).1 refl

  new_not_old : text_eq n o ≡ false
  new_not_old = ground (arith, text_eq_iff o n, text_eq_iff n o, apart)

  nodes-lem :
      IsTable node_key nodes
      × ((k : Text)
          → find node_key k nodes ≡ (
              if text_eq n k
              then some (touched now moving)
              else if text_eq k o
              then none
              else find node_key k rows))
  nodes-lem =
      let fewer = delete-refines node_key (node_le fold) rows h o in
      let added = upsert_node-lem fold now o n moving kept fewer.0 in
      (added.0, λ k. added.1 k ∙ rw (moving-key, fewer.1 k) refl)

  stale :
      (x : Option NodeRecord) (r : NodeRecord)
      → or_renamed now o n x none ≡ some r
      → (b : KeyType) → mem (ref_for o b) r.authorized_admin_keys ≡ false
  stale none r h b = cc
  stale (some x) r h b =
      let same = hex_same_length old new vo vn in
      let refs = renamed_row-refs o n same apart now x in
      subst (λ (y : NodeRecord). mem (ref_for o b) y.authorized_admin_keys ≡ false) (some_eq h)
        (rw refs (renamed-apart o n same apart b x.authorized_admin_keys))

  pub nodes_moved :
      IsTable node_key (rename_refs fold now o n nodes nodes)
      × NodesMoved now o n
          (touched now moving)
          (λ k. find node_key k rows)
          (λ k. find node_key k (rename_refs fold now o n nodes nodes))
      × NoneStale o (λ k. find node_key k (rename_refs fold now o n nodes nodes))
  nodes_moved =
      let after = rename_refs-lem fold now o n nodes nodes nodes-lem.0 nodes-lem.0 (λ k r e. e) in
      let at : (k : Text)
          → find node_key k (rename_refs fold now o n nodes nodes)
            ≡ or_renamed now o n (find node_key k nodes) none =
        λ k. after.1 k ∙ or_self now o n (find node_key k nodes) in
      let row_at : (k : Text)
          → find node_key k nodes ≡ (
              if text_eq n k
              then some (touched now moving)
              else if text_eq k o
              then none
              else find node_key k rows) =
        nodes-lem.1 in
      (
        after.0,
        (
          at n
              ∙ rw (row_at n, self n)
                  (ap some (
                    renamed_row_fixed o n (hex_same_length old new vo vn) apart now
                      (touched now moving) moving-refs)),
          at o ∙ rw (row_at o, self o) (rw new_not_old refl),
          λ k not_new not_old. at k ∙ rw (row_at k, not_new, not_old) refl,
        ),
        λ k r e b. stale (find node_key k nodes) r (sym (at k) ∙ e) b,
      )

-- With valid ids of which the new one passes its check, and two sheets without duplicates, moving a
-- row that is there succeeds; both sheets stay without duplicates and stand for the moved maps, and no
-- row refers to a reference of the old id.
pub renumber_rows-refines :
    (fold : ℕ → Text) (day : ℕ → Text) (now : ℕ) (old new : NodeId) (db : Database)
    (row : NodeRecord)
    → IsValid old
    → IsValid new
    → IsTable node_key db.nodes
    → IsTable key_key db.keys
    → check_new_id db old new ≡ ok tt
    → find node_key (hex old) db.nodes ≡ some row
    → (after : Database) × (renumber_rows fold day db old new now ≡ ok after)
      × IsTable node_key after.nodes
      × IsTable key_key after.keys
      × NodesMoved now
          (hex old)
          (hex new)
          (touched now (moved_row (renumber_note day old now) old new row))
          (λ k. find node_key k db.nodes)
          (λ k. find node_key k after.nodes)
      × NoneStale (hex old) (λ k. find node_key k after.nodes)
      × KeysMoved (hex old) (hex new) (λ k. find key_key k db.keys) (λ k. find key_key k after.keys)
unfolding get_node renumber_rows
renumber_rows-refines fold day now old new db row vo vn nodes_h keys_h checked there =
    let free = check_new_id-free db old new checked in
    let apart = hex_apart old new vo vn free.0 in
    let get_row : get_node old db.nodes ≡ ok row = rw (there, get_node) refl in
    let moved = nodes_moved fold day now old new vo vn apart db.nodes nodes_h row in
    let keys =
      move_keys-lem fold (hex old) (hex new) (hex_same_length old new vo vn) apart db.keys keys_h
        free.2 in
    (
      record {
        nodes =
            rename_refs fold now (hex old) (hex new)
              (nodes fold day now old new vo vn apart db.nodes nodes_h row)
              (nodes fold day now old new vo vn apart db.nodes nodes_h row);
        keys = move_keys fold (hex old) (hex new) key_types db.keys;
      },
      rw (get_row, renumber_rows) refl,
      moved.0,
      keys.0,
      moved.1,
      moved.2,
      (keys.1, keys.2, keys.3),
    )
