-- ===== src/Db.antt =====
-- src/meshprovision/db: the rows of the Keys and Nodes sheets, and the repositories over them. A row is
-- its record; a timestamp is a number of microseconds.
pub mod Table
pub mod Sorting
pub mod Renumber
mod Tests
use meshprovision.Common.{
  ℕ, Bool, true, false, Option, none, some, List, [], ◌∷◌, ◌++◌, if◌then◌else◌,
}
use meshprovision.Common.Text.{Text, codes}

pub data KeyType : Type 0 where
  admin_public admin_private channel_psk : KeyType

pub data KeyOrigin : Type 0 where
  generated captured imported : KeyOrigin

pub record KeyRecord : Type 0 where
  pub key_ref : Text
  pub owner_node_id : Text
  pub key_type : KeyType
  pub key_value : Text
  pub created_ts : Option ℕ
  pub origin : Option KeyOrigin

pub data ManagementMode : Type 0 where
  template_managed observed : ManagementMode

-- The columns that the modelled code reads or writes.
pub record NodeRecord : Type 0 where
  pub node_id : Text
  pub short_name : Text
  pub long_name : Text
  pub hw_model : Text
  pub firmware_version : Text
  pub first_added_ts : Option ℕ
  pub last_updated_ts : Option ℕ
  pub authorized_admin_keys : List Text
  pub notes : Text
  pub role : Text
  pub region : Text
  pub ble_pin : Option Text
  pub management : ManagementMode
  pub unregistered_admin_keys : List Text
  pub archived_at : Option ℕ

abbrev pub suffix_of : KeyType → Text
suffix_of admin_public = codes "_pub"
suffix_of admin_private = codes "_priv"
suffix_of channel_psk = codes "_psk"

unfoldable pub ref_for : Text → KeyType → Text
ref_for owner key_type = owner ++ suffix_of key_type

unfoldable pub is_archived : NodeRecord → Bool
is_archived row = elim row.archived_at [ none ↦ false | some t ↦ true ]

unfoldable pub touched : ℕ → NodeRecord → NodeRecord
touched now row =
    let first : ℕ = elim row.first_added_ts [ none ↦ now | some t ↦ t ] in
    record row { last_updated_ts = some now; first_added_ts = some first }
