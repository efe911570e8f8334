-- ===== src/Session.antt =====
-- src/meshprovision/db/ods.py, `OdsDatabase`, and ods_write.py, `write_database`: a session over the
-- database's file. The format of the file, the hash and the order of the rows are parameters.
pub mod Saved
mod Tests
use meshprovision.Common.{
  ℕ, Bool, true, false, not, ◌&&◌, Option, none, some, List, [], ◌∷◌, ◌==◌ as nat_eq, if◌then◌else◌,
  Result, ok, err, ◌>>=◌,
}
use meshprovision.Common.Text.{Text}
use meshprovision.Common.Equality.{◌==◌, Text_eq}
use meshprovision.Files.{File, Disk, Call, Written, perform_all, write_bytes_atomic}

-- What `stat` tells a file apart by.
pub record Identity : Type 0 where
  pub device : ℕ
  pub inode : ℕ
  pub mtime : ℕ
  pub size : ℕ

unfoldable pub same_identity : Identity → Identity → Bool
same_identity a b =
    nat_eq a.device b.device
    && (nat_eq a.inode b.inode && (nat_eq a.mtime b.mtime && nat_eq a.size b.size))

-- The files, and the identity of the one under the database's name.
pub record World : Type 0 where
  pub disk : Disk
  pub identity : Identity

pub data Sheet : Type 0 where
  nodes_sheet keys_sheet : Sheet
  unknown_sheet : Text → Sheet

pub record Sheets (R : Type 0) : Type 0 where
  pub nodes : List R
  pub keys : List R

-- `parse_database` with its error, `build_document` and its writing, and the canonical order.
pub record Format (R E : Type 0) : Type 0 where
  pub parse : Text → Result E (Sheets R)
  pub serialize : Sheets R → Text
  pub sorted_rows : Sheet → List R → List R
  pub sha256 : Text → Text

-- The disk's identity and hash as this session last read or wrote them.
pub record Session (R : Type 0) : Type 0 where
  pub loaded : Bool
  pub is_dirty : Bool
  pub rows : Sheets R
  pub seen : Option (Identity × Text)

pub data SessionError (E : Type 0) : Type 0 where
  unreadable concurrent_modification : SessionError E
  invalid would_not_load : E → SessionError E
  write_failed : Call → SessionError E
  no_sheet : Text → SessionError E

abbrev pub content_in : Option File → Option Text
content_in none = none
content_in (some f) = some f.content

abbrev pub content_of : World → Option Text
content_of w = content_in w.disk.target

module _ {R E : Type 0} (format : Format R E) where
  abbrev pub fresh_session : Session R
  fresh_session = record {
    loaded = false;
    is_dirty = false;
    rows = record { nodes = []; keys = [] };
    seen = none;
  }

  abbrev pub loaded_from : Identity → Text → Sheets R → Session R
  loaded_from identity content rows = record {
    loaded = true;
    is_dirty = false;
    rows = rows;
    seen = some (identity, format.sha256 content);
  }

  abbrev pub read_and_parse : Identity → Option Text → Result (SessionError E) (Session R)
  read_and_parse identity none = err unreadable
  read_and_parse identity (some content) = elim (format.parse content) [
    | ok rows ↦ ok (loaded_from identity content rows)
    | err e ↦ err (invalid e)
  ]

  -- The known-good copy, which a load and a save refresh beside the database, is left out.
  unfoldable pub load : Bool → World → Session R → Result (SessionError E) (Session R)
  load force w s = if s.loaded && not force then ok s else read_and_parse w.identity (content_of w)

  abbrev pub with_rows : Sheet → List R → Session R → Result (SessionError E) (Session R)
  with_rows nodes_sheet rows s = ok (record s {
    is_dirty = true;
    rows = record { nodes = format.sorted_rows nodes_sheet rows; keys = s.rows.keys };
  })
  with_rows keys_sheet rows s = ok (record s {
    is_dirty = true;
    rows = record { nodes = s.rows.nodes; keys = format.sorted_rows keys_sheet rows };
  })
  with_rows (unknown_sheet name) rows s = err (no_sheet name)

  unfoldable pub replace : Sheet → List R → World → Session R → Result (SessionError E) (Session R)
  unfolding load
  replace sheet rows w s = load false w s >>= with_rows sheet rows

  -- `_check_not_concurrently_modified`: whether it lets the save proceed.
  abbrev pub is_as_seen : Identity → Option Text → Identity × Text → Bool
  is_as_seen identity none seen = false
  is_as_seen identity (some content) (known, hash) =
      if same_identity identity known then true else format.sha256 content == hash

  abbrev pub unless_changed : Identity → Option Text → Option (Identity × Text) → Bool
  unless_changed identity found none = true
  unless_changed identity found (some seen) = is_as_seen identity found seen

  unfoldable pub unmodified : World → Session R → Bool
  unfolding same_identity
  unmodified w s = unless_changed w.identity (content_of w) s.seen

  -- `write_database` after its check, with the temporary file's identity.
  module _ (fails : Call → Bool) (torn : Text) (retention : ℕ) (left : List File → List File)
      (identity : Identity) where
    abbrev pub after_write :
        World → Session R → Text → Written → World × Result (SessionError E) (Session R)
    after_write w s content (steps, err e) =
        (record { disk = perform_all steps w.disk; identity = w.identity }, err (write_failed e))
    after_write w s content (steps, ok done) = (
      record { disk = perform_all steps w.disk; identity = identity },
      ok (record s { is_dirty = false; seen = some (identity, format.sha256 content) }),
    )

    -- `_check_loads`, before anything is written.
    abbrev pub write_checked :
        World → Session R → Text → Result E (Sheets R) → World × Result (SessionError E) (Session R)
    write_checked w s content (err e) = (w, err (would_not_load e))
    write_checked w s content (ok rows) =
        after_write w s content
          (write_bytes_atomic fails torn retention left content true w.disk.target)

    -- `save`, which checks the world `checked` and then writes in the world `w`: the check does not hold the
    -- file, so that another writer may act between them.
    unfoldable pub save : World → World → Session R → World × Result (SessionError E) (Session R)
    unfolding unmodified perform_all write_bytes_atomic
    save checked w s =
        let content = format.serialize s.rows in
        if not s.is_dirty
        then (w, ok s)
        else if not (unmodified checked s)
        then (w, err concurrent_modification)
        else write_checked w s content (format.parse content)
