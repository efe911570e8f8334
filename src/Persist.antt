-- ===== src/Persist.antt =====
-- src/meshprovision/provisioning/persist.py: an apply outcome is recorded in the two sheets. The clock,
-- base64 and the date of a note are parameters, and whether the save succeeds.
pub mod Refines
mod Tests
use meshprovision.Common.{
  ℕ, Bool, true, false, not, ◌&&◌, Option, none, some, List, [], ◌∷◌, if◌then◌else◌, Result, ok,
  err, ◌>>=◌, ◌>>◌,
}
use meshprovision.Common.Text.{Text, codes}
use meshprovision.NodeId.{NodeId, NodeIdError, hex, str, from_hex}
use meshprovision.Apply.{ApplyOutcome, may_update_database}
use meshprovision.Db.{
  KeyType, admin_public, admin_private, KeyOrigin, KeyRecord, NodeRecord, ref_for,
}
use meshprovision.Db.Table.{find, upsert}
use meshprovision.Db.Sorting.{node_le, key_le}
use meshprovision.Db.Renumber.{
  Database, RenumberError, node_key, key_key, get_node, check_new_id, check_renumber, append_note,
  renumber_note, renumber_rows, upsert_node,
}
use meshprovision.Run.{KeyPair}
use meshprovision.Run.Record.{or_else}

-- RenumberRefusedError, a row's id that is not one, and AtomicWriteError.
pub data PersistError : Type 0 where
  renumber_refused : RenumberError → PersistError
  bad_node_id : NodeIdError → PersistError
  save_failed : PersistError

abbrev pub lift_renumber {ℓ} : {A : Type ℓ} → Result RenumberError A → Result PersistError A
lift_renumber (ok a) = ok a
lift_renumber (err e) = err (renumber_refused e)

-- `record.node`
abbrev pub node_of_row : NodeRecord → Result PersistError NodeId
node_of_row row = elim (from_hex row.node_id) [ ok n ↦ ok n | err e ↦ err (bad_node_id e) ]

module _ (fold : ℕ → Text) (day : ℕ → Text) (crc32 : List ℕ → ℕ) (material : KeyRecord → List ℕ)
    (encode_key : List ℕ → Text) where
  unfoldable pub from_material : Text → KeyType → List ℕ → Option KeyOrigin → Option ℕ → KeyRecord
  from_material owner key_type raw origin created_ts = record {
    key_ref = ref_for owner key_type;
    owner_node_id = owner;
    key_type = key_type;
    key_value = encode_key raw;
    created_ts = created_ts;
    origin = origin;
  }

  -- The row under the id that the node now has, and the sheets with the move made.
  unfoldable pub follow_renumber :
      NodeId → NodeRecord → Database → ℕ → Result PersistError (NodeRecord × Database)
  follow_renumber old row db now = do
    new ← node_of_row row
    elim (find node_key (hex old) db.nodes) [
      | none ↦ do
        lift_renumber (check_new_id db old new)
        ok (record row { notes = append_note row.notes (renumber_note day old now) }, db)
      | some was ↦ do
        lift_renumber (check_renumber crc32 material db old new none false true)
        moved ← lift_renumber (renumber_rows fold day db old new now)
        there ← lift_renumber (get_node new moved.nodes)
        ok (record row { notes = there.notes }, moved)
    ]

  -- Both rows of a pair, when there is one.
  unfoldable pub record_keypair :
      Text → Option KeyPair → Option KeyOrigin → Option ℕ → List KeyRecord → List KeyRecord
  unfolding from_material
  record_keypair owner none origin now rows = rows
  record_keypair owner (some pair) origin now rows =
      upsert key_key (key_le fold) (from_material owner admin_private pair.private origin now) (
        upsert key_key (key_le fold) (from_material owner admin_public pair.public origin now) rows)

  unfoldable pub record_row :
      Option KeyPair → Option KeyOrigin → Option ℕ → ℕ → NodeRecord → Database → Database
  unfolding record_keypair or_else
  record_row keypair origin now clock row db = record {
    nodes = upsert_node fold (or_else now clock) row db.nodes;
    keys = record_keypair row.node_id keypair origin now db.keys;
  }

  -- The save writes both sheets, or raises and leaves the file as it was.
  unfoldable pub save : Bool → Database → Result PersistError (Bool × Database)
  save true db = ok (true, db)
  save false db = err save_failed

  unfoldable pub persist_row :
      Option NodeId
      → Option KeyPair
      → Option KeyOrigin
      → Option ℕ
      → ℕ
      → Bool
      → NodeRecord
      → Database
      → Result PersistError (Bool × Database)
  unfolding follow_renumber record_row save
  persist_row none keypair origin now clock saves row db =
      save saves (record_row keypair origin now clock row db)
  persist_row (some old) keypair origin now clock saves row db = do
    moved ← follow_renumber old row db (or_else now clock)
    save saves (record_row keypair origin now clock moved.0 moved.1)

  -- The gate: only a certain outcome that carries a row is recorded.
  unfoldable pub persist_when :
      Bool
      → Option NodeRecord
      → Option NodeId
      → Database
      → Option KeyPair
      → Option KeyOrigin
      → Option ℕ
      → ℕ
      → Bool
      → Result PersistError (Bool × Database)
  unfolding persist_row
  persist_when false row previous db keypair origin now clock saves = ok (false, db)
  persist_when true none previous db keypair origin now clock saves = ok (false, db)
  persist_when true (some row) previous db keypair origin now clock saves =
      persist_row previous keypair origin now clock saves row db

  -- What is answered, and the sheets as they are then saved.
  unfoldable pub persist_result :
      ApplyOutcome
      → Database
      → Option KeyPair
      → Option KeyOrigin
      → Option ℕ
      → ℕ
      → Bool
      → Result PersistError (Bool × Database)
  unfolding persist_when
  persist_result outcome db keypair origin now clock saves =
      persist_when (may_update_database outcome) outcome.row outcome.previous_node_id db keypair
        origin now clock saves
