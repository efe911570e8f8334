-- ===== src/Persist/Tests.antt =====
-- A node's certain outcome is recorded, with its pair of keys, in a sheet that has another node.
use meshprovision.Common.{ℕ, ◌≡◌, refl, true, false, not, ◌&&◌, none, some, List, [], ◌∷◌, ok}
use meshprovision.Common.Text.{Text, codes}
use meshprovision.Apply.{ApplyOutcome, may_update_database}
use meshprovision.Db.{generated, KeyRecord, NodeRecord}
use meshprovision.Db.Table.{find}
use meshprovision.Db.Table.Laws.{IsTable}
use meshprovision.Db.Renumber.{Database, node_key, key_key}
use meshprovision.Run.{KeyPair}
use meshprovision.Run.Record.{new_row, or_else}
use meshprovision.Run.ApplyPlan.{is_none}
use meshprovision.Persist.{persist_result}
use meshprovision.Persist.Refines.{node_after, key_after, persist_result-refines}

abbrev row_of : Text → NodeRecord
row_of node_id = new_row (codes "CLIENT") (codes "EU_868") node_id

abbrev sheets : Database
sheets = record { nodes = row_of (codes "00000007") ∷ []; keys = [] }

abbrev pair : KeyPair
pair = record { private = 1 ∷ []; public = 2 ∷ [] }

abbrev certain_outcome : ApplyOutcome
certain_outcome = record {
  node_id = record { num = 48879 };
  results = [];
  dry_run = false;
  verified = true;
  public_key_fingerprint = none;
  row = some (row_of (codes "0000beef"));
  security_attempted = true;
  previous_node_id = none;
}

abbrev same_case : ℕ → Text
same_case c = c ∷ []

abbrev day : ℕ → Text
day t = codes "2026-01-01"

abbrev checksum : List ℕ → ℕ
checksum bytes = 0

abbrev key_bytes : KeyRecord → List ℕ
key_bytes row = []

abbrev in_base64 : List ℕ → Text
in_base64 bytes = codes "k"

persist_result-refines_example :
    (after : Database) × (persist_result same_case day checksum key_bytes in_base64 certain_outcome
        sheets
        (some pair)
        (some generated)
        none
        5
        true
      ≡ ok (may_update_database certain_outcome && not (is_none certain_outcome.row), after))
    × IsTable node_key after.nodes
    × IsTable key_key after.keys
    × ((k : Text)
        → find node_key k after.nodes
          ≡ node_after
              (may_update_database certain_outcome)
              certain_outcome.row
              (or_else none 5)
              k
              (find node_key k sheets.nodes))
    × ((k : Text)
        → find key_key k after.keys
          ≡ key_after same_case day checksum key_bytes in_base64
              (some pair)
              (some generated)
              none
              5
              (may_update_database certain_outcome)
              certain_outcome.row
              k
              (find key_key k sheets.keys))
persist_result-refines_example =
    persist_result-refines same_case day checksum key_bytes in_base64 (some pair) (some generated)
      none 5 sheets refl refl certain_outcome refl
