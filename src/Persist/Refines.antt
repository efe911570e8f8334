-- ===== src/Persist/Refines.antt =====
-- src/meshprovision/provisioning/persist.py, `persist_result`, against the maps the two sheets stand for.
use meshprovision.Common.{
  ℕ, ◌≡◌, refl, ◌∙◌, sym, subst, Bool, true, false, not, ◌&&◌, Option, none, some, List,
  if◌then◌else◌, Result, ok,
}
use meshprovision.Common.Text.{Text}
use meshprovision.Common.Equality.{◌==◌, Text_eq}
use meshprovision.NodeId.{NodeId}
use meshprovision.Apply.{ApplyOutcome, may_update_database}
use meshprovision.Db.{
  admin_public, admin_private, KeyOrigin, KeyRecord, NodeRecord, ref_for, touched,
}
use meshprovision.Db.Table.{find, upsert}
use meshprovision.Db.Table.Laws.{IsTable, upsert-refines}
use meshprovision.Db.Sorting.{key_le}
use meshprovision.Db.Renumber.{Database, node_key, key_key}
use meshprovision.Db.Renumber.Nodes.{upsert_node-lem}
use meshprovision.Run.{KeyPair}
use meshprovision.Run.Record.{or_else}
use meshprovision.Run.ApplyPlan.{is_none}
use meshprovision.Persist.{
  PersistError, from_material, record_keypair, record_row, persist_when, persist_result,
}

-- What the Nodes sheet's map gives at a key: the row of an outcome that may be recorded, with its
-- timestamps, under its id; else what it gave.
abbrev pub node_after : Bool → Option NodeRecord → ℕ → Text → Option NodeRecord → Option NodeRecord
node_after false row now k before = before
node_after true none now k before = before
node_after true (some row) now k before =
    if row.node_id == k then some (touched now row) else before

module _ (fold : ℕ → Text) (day : ℕ → Text) (crc32 : List ℕ → ℕ) (material : KeyRecord → List ℕ)
    (encode_key : List ℕ → Text) (keypair : Option KeyPair) (origin : Option KeyOrigin)
    (now : Option ℕ) (clock : ℕ) where
  -- What the Keys sheet's map gives at a reference after a pair was recorded for an owner.
  abbrev pub pair_after : Option KeyPair → Text → Text → Option KeyRecord → Option KeyRecord
  pair_after none owner k before = before
  pair_after (some pair) owner k before =
      if ref_for owner admin_private == k
      then some (
          from_material fold day crc32 material encode_key owner admin_private pair.private origin
            now)
      else if ref_for owner admin_public == k
      then some (
          from_material fold day crc32 material encode_key owner admin_public pair.public origin
            now)
      else before

  abbrev pub key_after : Bool → Option NodeRecord → Text → Option KeyRecord → Option KeyRecord
  key_after false row k before = before
  key_after true none k before = before
  key_after true (some row) k before = pair_after keypair row.node_id k before

  record_keypair-pair_after :
      (pair : Option KeyPair) (owner : Text) (rows : List KeyRecord)
      → IsTable key_key rows
      → let after = record_keypair fold day crc32 material encode_key owner pair origin now rows in
        IsTable key_key after
        × ((k : Text) → find key_key k after ≡ pair_after pair owner k (find key_key k rows))
  unfolding record_keypair from_material
  record_keypair-pair_after none owner rows h = (h, λ k. refl)
  record_keypair-pair_after (some pair) owner rows h =
      let public =
        from_material fold day crc32 material encode_key owner admin_public pair.public origin
          now in
      let private =
        from_material fold day crc32 material encode_key owner admin_private pair.private origin
          now in
      let first = upsert-refines key_key (key_le fold) rows h public in
      let second =
        upsert-refines key_key (key_le fold) (upsert key_key (key_le fold) public rows) first.0
          private in
      (second.0, λ k. second.1 k ∙ rw (first.1 k) refl)

  module _ (db : Database) (nodes_h : IsTable node_key db.nodes)
      (keys_h : IsTable key_key db.keys) where
    abbrev Recorded : Bool → Option NodeRecord → Result PersistError (Bool × Database) → Type 0
    Recorded may row answer =
        (after : Database) × (answer ≡ ok (may && not (is_none row), after))
        × IsTable node_key after.nodes
        × IsTable key_key after.keys
        × ((k : Text)
            → find node_key k after.nodes
              ≡ node_after may row (or_else now clock) k (find node_key k db.nodes))
        × ((k : Text) → find key_key k after.keys ≡ key_after may row k (find key_key k db.keys))

    persist_when-Recorded :
        (may : Bool) (row : Option NodeRecord)
        → Recorded may row (
            persist_when fold day crc32 material encode_key may row none db keypair origin now clock
              true)
    unfolding persist_when record_row
    persist_when-Recorded false row = (db, refl, nodes_h, keys_h, λ k. refl, λ k. refl)
    persist_when-Recorded true none = (db, refl, nodes_h, keys_h, λ k. refl, λ k. refl)
    persist_when-Recorded true (some row) =
        let nodes =
          upsert_node-lem fold (or_else now clock) row.node_id row.node_id row db.nodes nodes_h in
        let keys = record_keypair-pair_after keypair row.node_id db.keys keys_h in
        (
          record_row fold day crc32 material encode_key keypair origin now clock row db,
          refl,
          nodes.0,
          keys.0,
          nodes.1,
          keys.1,
        )

    -- Recording an outcome without a move, with a save that succeeds, succeeds: it answers whether the
    -- outcome may update the database and carries a row, both sheets stay without duplicates, and they
    -- stand for the old maps with only that row and the pair's two keys changed.
    pub persist_result-refines :
        (outcome : ApplyOutcome)
        → outcome.previous_node_id ≡ none
        → (after : Database) × (persist_result fold day crc32 material encode_key outcome db keypair
              origin now clock true
            ≡ ok (may_update_database outcome && not (is_none outcome.row), after))
          × IsTable node_key after.nodes
          × IsTable key_key after.keys
          × ((k : Text)
              → find node_key k after.nodes
                ≡ node_after
                    (may_update_database outcome)
                    outcome.row
                    (or_else now clock)
                    k
                    (find node_key k db.nodes))
          × ((k : Text)
              → find key_key k after.keys
                ≡ key_after (may_update_database outcome) outcome.row k (find key_key k db.keys))
    unfolding persist_result
    persist_result-refines outcome same =
        subst
          (λ (previous : Option NodeId). Recorded (may_update_database outcome) outcome.row (
            persist_when fold day crc32 material encode_key (may_update_database outcome)
              outcome.row previous db keypair origin now clock true))
          (sym same) (persist_when-Recorded (may_update_database outcome) outcome.row)
