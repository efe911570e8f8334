-- ===== src/Db/Tests.antt =====
-- Two nodes, of which one moves from the id 0000beef to the id 00012fd1 with its key.
use native.Mathlib.Omega.{arith}
use meshprovision.Common.{
  ℕ, ◌≡◌, refl, true, false, none, some, List, [], ◌∷◌, ◌⊎◌, map, if◌then◌else◌, ok, replicate,
}
use meshprovision.Common.Text.{Text, codes}
use meshprovision.Common.Equality.{◌==◌, Text_eq, mem}
use meshprovision.Common.Digits.{to_digits}
use meshprovision.Common.Sorting.{sort}
use meshprovision.NodeId.{NodeId, hex, is_reserved_id, key_derived_id}
use meshprovision.Db.{
  admin_public, KeyRecord, generated, template_managed, NodeRecord, ref_for, is_archived, touched,
}
use meshprovision.Db.Table.{find, upsert, delete}
use meshprovision.Db.Table.Laws.{IsTable, upsert-refines, delete-refines}
use meshprovision.Db.Sorting.{node_le}
use meshprovision.Db.Renumber.{
  Database, node_key, key_key, check_new_id, check_renumber, moved_row, renumber_note,
  renumber_rows,
}
use meshprovision.Db.Renumber.Refines.{NodesMoved, KeysMoved, NoneStale, renumber_rows-refines}
use meshprovision.Db.Renumber.Proof.{Proven, check_renumber-ok}

abbrev old_id : NodeId
old_id = record { num = 48879 }

abbrev new_id : NodeId
new_id = record { num = 77777 }

abbrev row_of : Text → Text → List Text → NodeRecord
row_of node_id name refs = record {
  node_id = node_id;
  short_name = name;
  long_name = name;
  hw_model = codes "TBEAM";
  firmware_version = codes "2.8.0";
  first_added_ts = some 1;
  last_updated_ts = some 2;
  authorized_admin_keys = refs;
  notes = [];
  role = codes "CLIENT";
  region = codes "EU_868";
  ble_pin = none;
  management = template_managed;
  unregistered_admin_keys = [];
  archived_at = none;
}

abbrev own_key : KeyRecord
own_key = record {
  key_ref = codes "0000beef_pub";
  owner_node_id = codes "0000beef";
  key_type = admin_public;
  key_value = codes "k";
  created_ts = some 1;
  origin = some generated;
}

abbrev relay : NodeRecord
relay = row_of (codes "0000beef") (codes "relay2") []

abbrev base : NodeRecord
base = row_of (codes "00000007") (codes "relay10") (codes "0000beef_pub" ∷ [])

abbrev db : Database
db = record { nodes = base ∷ relay ∷ []; keys = own_key ∷ [] }

abbrev same_case : ℕ → Text
same_case c = c ∷ []

abbrev day : ℕ → Text
day t = codes "2026-01-01"

abbrev checksum : List ℕ → ℕ
checksum bytes = 77777

abbrev key_bytes : KeyRecord → List ℕ
key_bytes row = replicate 32 1

upsert-refines_example :
    IsTable node_key (upsert node_key (node_le same_case) relay (base ∷ relay ∷ []))
    × ((k : Text)
        → find node_key k (upsert node_key (node_le same_case) relay (base ∷ relay ∷ []))
          ≡ (if node_key relay == k then some relay else find node_key k (base ∷ relay ∷ [])))
upsert-refines_example = upsert-refines node_key (node_le same_case) (base ∷ relay ∷ []) refl relay

delete-refines_example :
    IsTable node_key (delete node_key (node_le same_case) (codes "0000beef") (base ∷ relay ∷ [])).1
    × ((j : Text)
        → find node_key j
            (delete node_key (node_le same_case) (codes "0000beef") (base ∷ relay ∷ [])).1
          ≡ (if j == codes "0000beef" then none else find node_key j (base ∷ relay ∷ [])))
    × ((delete node_key (node_le same_case) (codes "0000beef") (base ∷ relay ∷ [])).0
        ≡ mem (codes "0000beef") (map node_key (base ∷ relay ∷ [])))
delete-refines_example =
    delete-refines node_key (node_le same_case) (base ∷ relay ∷ []) refl (codes "0000beef")

renumber_rows-refines_example :
    (after : Database) × (renumber_rows same_case day db old_id new_id 5 ≡ ok after)
    × IsTable node_key after.nodes
    × IsTable key_key after.keys
    × NodesMoved 5
        (hex old_id)
        (hex new_id)
        (touched 5 (moved_row (renumber_note day old_id 5) old_id new_id relay))
        (λ k. find node_key k db.nodes)
        (λ k. find node_key k after.nodes)
    × NoneStale (hex old_id) (λ k. find node_key k after.nodes)
    × KeysMoved
        (hex old_id)
        (hex new_id)
        (λ k. find key_key k db.keys)
        (λ k. find key_key k after.keys)
unfolding check_new_id find hex is_reserved_id to_digits ref_for
renumber_rows-refines_example =
    renumber_rows-refines same_case day 5 old_id new_id db relay (omega arith) (omega arith) refl
      refl refl refl

check_renumber-ok_example :
    (row : NodeRecord) × (find node_key (hex old_id) db.nodes ≡ some row)
    × (is_archived row ≡ false)
    × (check_new_id db old_id new_id ≡ ok tt)
    × (false ≡ false)
    × ((false ≡ true) ⊎ Proven checksum key_bytes db old_id new_id none)
unfolding check_renumber find hex to_digits is_archived is_reserved_id ref_for sort key_derived_id
check_renumber-ok_example =
    check_renumber-ok checksum key_bytes db old_id new_id none false false refl
