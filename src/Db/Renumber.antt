-- ===== src/Db/Renumber.antt =====
-- src/meshprovision/db/renumber.py: a node whose id changed gets its row, its keys and the references
-- to them under the new id. A row's `material` and the date of the note are parameters.
pub mod Keys
pub mod Nodes
pub mod References
pub mod Refines
pub mod Proof
use meshprovision.Common.{
  ℕ, Bool, true, false, not, ◌&&◌, ◌||◌, Option, none, some, List, [], ◌∷◌, ◌++◌, map, keep,
  is_empty, ◌==◌ as nat_eq, if◌then◌else◌, Result, ok, err, ◌>>=◌, ◌>>◌,
}
use meshprovision.Common.Text.{Text, codes, text_eq}
use meshprovision.Common.Equality.{◌==◌, Text_eq, mem}
use meshprovision.Common.Sorting.{sort, lex_le}
use meshprovision.NodeId.{
  NodeId, NodeIdError, str, hex, display, try_parse, key_derived_id, is_reserved_id,
}
use meshprovision.Plan.AdminKeys.{texts_eq}
use meshprovision.Db.{
  KeyType, admin_public, admin_private, channel_psk, KeyRecord, NodeRecord, ref_for, is_archived,
  touched,
}
use meshprovision.Db.Table.{find, upsert, delete}
use meshprovision.Db.Sorting.{node_le, key_le}

-- RenumberRefusedError by its check, NodeNotFoundError, and the error of a key with no id.
pub data RenumberError : Type 0 where
  node_not_found archived same_id reserved row_exists pending_exists : RenumberError
  no_recorded_key not_derived : RenumberError
  stray_keys shared_key : List Text → RenumberError
  no_derived_id : NodeIdError → RenumberError

-- The two sheets.
pub record Database : Type 0 where
  pub nodes : List NodeRecord
  pub keys : List KeyRecord

abbrev pub node_key : NodeRecord → Text
node_key row = row.node_id

abbrev pub key_key : KeyRecord → Text
key_key row = row.key_ref

abbrev pub is_some {ℓ} : {A : Type ℓ} → Option A → Bool
is_some none = false
is_some (some a) = true

-- `for key_type in KeyType`
abbrev pub key_types : List KeyType
key_types = admin_public ∷ admin_private ∷ channel_psk ∷ []

unfoldable pub own_refs : NodeId → List Text
own_refs node = map (ref_for (hex node)) key_types

unfoldable pub get_node : NodeId → List NodeRecord → Result RenumberError NodeRecord
get_node node rows = elim (find node_key (hex node) rows) [
  | none ↦ err node_not_found
  | some row ↦ ok row
]

unfoldable pub check_new_id : Database → NodeId → NodeId → Result RenumberError (Unit {0})
unfolding own_refs
check_new_id db old new =
    let stray = keep (λ ref. is_some (find key_key ref db.keys)) (own_refs new) in
    if nat_eq new.num old.num
    then err same_id
    else if is_reserved_id new
    then err reserved
    else if is_some (find node_key (hex new) db.nodes)
    then err row_exists
    else if not (is_empty stray)
    then err (stray_keys stray)
    else ok tt

unfoldable pub is_canonical_node_owner : Text → Bool
is_canonical_node_owner owner = elim (try_parse (str owner)) [
  | none ↦ false
  | some parsed ↦ text_eq (hex parsed) owner
]

abbrev pub is_public : KeyRecord → Bool
is_public row = elim row.key_type [
  | admin_public ↦ true
  | admin_private ↦ false
  | channel_psk ↦ false
]

module _ (crc32 : List ℕ → ℕ) (material : KeyRecord → List ℕ) where
  -- The owners of the other rows that hold the key.
  unfoldable pub sharing : List KeyRecord → NodeId → List ℕ → List Text
  unfolding is_canonical_node_owner
  sharing rows old key = sort lex_le (
      map (λ row. row.owner_node_id)
        (keep
          (λ row.
            is_public row
            && not (row.owner_node_id == hex old)
            && is_canonical_node_owner row.owner_node_id
            && text_eq (material row) key)
          rows))

  -- `key_derived_id(public) == new`
  unfoldable pub derives : List ℕ → NodeId → Result RenumberError Bool
  derives key new = elim (key_derived_id crc32 key) [
    | ok derived ↦ ok (nat_eq derived.num new.num)
    | err e ↦ err (no_derived_id e)
  ]

  unfoldable pub check_stored : Database → NodeId → NodeId → Result RenumberError (Unit {0})
  unfolding sharing derives
  check_stored db old new = elim (find key_key (ref_for (hex old) admin_public) db.keys) [
    | none ↦ err no_recorded_key
    | some stored ↦
        let shared = sharing db.keys old (material stored) in
        if not (is_empty shared)
        then err (shared_key shared)
        else derives (material stored) new >>= λ same. if same then ok tt else err not_derived
  ]

  unfoldable pub check_proof :
      Database → NodeId → NodeId → Option (List ℕ) → Result RenumberError (Unit {0})
  unfolding check_stored
  check_proof db old new none = check_stored db old new
  check_proof db old new (some pending_public) = do
    same ← derives pending_public new
    if same then ok tt else check_stored db old new

  unfoldable pub check_renumber :
      Database → NodeId → NodeId → Option (List ℕ) → Bool → Bool → Result RenumberError (Unit {0})
  unfolding get_node check_new_id check_proof
  check_renumber db old new pending_public new_has_pending force = do
    row ← get_node old db.nodes
    if is_archived row then err archived else ok tt
    check_new_id db old new
    if new_has_pending then err pending_exists else ok tt
    if force then ok tt else check_proof db old new pending_public

-- The day, as `strftime("%Y-%m-%d")` writes it, is a parameter.
unfoldable pub renumber_note : (ℕ → Text) → NodeId → ℕ → Text
renumber_note day old until =
    codes "node id was "
    ++ (display old ++ (codes " until " ++ (day until ++ codes " (firmware 2.8 key-derived id)")))

unfoldable pub append_note : Text → Text → Text
append_note notes note = if is_empty notes then note else notes ++ (codes "; " ++ note)

-- A key row filed under another owner.
unfoldable pub refiled : Text → KeyType → KeyRecord → KeyRecord
refiled owner key_type row = record {
  key_ref = ref_for owner key_type;
  owner_node_id = owner;
  key_type = key_type;
  key_value = row.key_value;
  created_ts = row.created_ts;
  origin = row.origin;
}

-- `renames.get(ref, ref)` for the own refs of two ids.
unfoldable pub rename : Text → Text → List KeyType → Text → Text
rename old new [] ref = ref
rename old new (key_type ∷ types) ref =
    let rest = rename old new types ref in
    if ref_for old key_type == ref then ref_for new key_type else rest

unfoldable pub renamed : Text → Text → List Text → List Text
unfolding rename
renamed old new refs = map (rename old new key_types) refs

-- The moved row, with the note on the id that it had.
unfoldable pub moved_row : Text → NodeId → NodeId → NodeRecord → NodeRecord
unfolding append_note renamed
moved_row note old new row = record row {
  node_id = hex new;
  notes = append_note row.notes note;
  authorized_admin_keys = renamed (hex old) (hex new) row.authorized_admin_keys;
}

module _ (fold : ℕ → Text) where
  unfoldable pub move_key : Text → Text → KeyType → List KeyRecord → List KeyRecord
  unfolding refiled
  move_key old new key_type rows = elim (find key_key (ref_for old key_type) rows) [
    | none ↦ rows
    | some row ↦
        upsert key_key (key_le fold) (refiled new key_type row)
          (delete key_key (key_le fold) row.key_ref rows).1
  ]

  -- The loop over the key types.
  unfoldable pub move_keys : Text → Text → List KeyType → List KeyRecord → List KeyRecord
  unfolding move_key
  move_keys old new [] rows = rows
  move_keys old new (key_type ∷ types) rows =
      move_keys old new types (move_key old new key_type rows)

  unfoldable pub upsert_node : ℕ → NodeRecord → List NodeRecord → List NodeRecord
  upsert_node now row rows = upsert node_key (node_le fold) (touched now row) rows

  -- The loop over the rows that may refer to the moved keys.
  unfoldable pub rename_refs : ℕ → Text → Text → List NodeRecord → List NodeRecord → List NodeRecord
  unfolding upsert_node renamed
  rename_refs now old new [] rows = rows
  rename_refs now old new (other ∷ others) rows =
      let refs = renamed old new other.authorized_admin_keys in
      rename_refs now old new others (
        if texts_eq refs other.authorized_admin_keys
        then rows
        else upsert_node now (record other { authorized_admin_keys = refs }) rows)

  unfoldable pub renumber_rows :
      (ℕ → Text) → Database → NodeId → NodeId → ℕ → Result RenumberError Database
  unfolding get_node move_keys rename_refs moved_row renumber_note
  renumber_rows day db old new now = do
    row ← get_node old db.nodes
    let kept = (delete node_key (node_le fold) (hex old) db.nodes).1
    let nodes = upsert_node now (moved_row (renumber_note day old now) old new row) kept
    ok (record {
      nodes = rename_refs now (hex old) (hex new) nodes nodes;
      keys = move_keys (hex old) (hex new) key_types db.keys;
    })
