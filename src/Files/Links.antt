-- ===== src/Files/Links.antt =====
-- src/meshprovision/db/fs_primitives.py, `link_no_clobber`, and db/backups.py, `_claim_backup_path`: how
-- a finished copy is given a name in its directory.
use meshprovision.Common.{
  ℕ, zero, suc, Bool, Option, none, some, List, [], ◌∷◌, if◌then◌else◌, Result, ok, err,
}
use meshprovision.Common.Text.{Text}
use meshprovision.Common.Equality.{Text_eq}
use meshprovision.Db.Table.{find, removed}

-- A name of the directory, with the content of its file.
pub record Entry : Type 0 where
  pub name : Text
  pub content : Text

abbrev pub entry_name : Entry → Text
entry_name e = e.name

-- `FileExistsError`, or another `OSError`.
pub data LinkError : Type 0 where
  exists failed : LinkError

-- `os.link` on this file system, apart from a name that is taken.
pub data Linking : Type 0 where
  links unsupported refuses : Linking

-- Which of the other calls succeed: the unlink of the source, the exclusive open, the replacement, and the
-- removal of the placeholder.
pub record LinkCalls : Type 0 where
  pub link : Linking
  pub unlinks : Bool
  pub opens : Bool
  pub replaces : Bool
  pub removes : Bool

abbrev pub Linked : Type 0
Linked = List Entry × Result LinkError (Unit {0})

module _ (calls : LinkCalls) (source destination : Text) (dir : List Entry) where
  abbrev pub named : Text → List Entry
  named content = record { name = destination; content = content } ∷ dir

  abbrev pub after_link : Text → Linked
  after_link content =
      if calls.unlinks
      then (removed entry_name source (named content), ok tt)
      else (named content, err failed)

  -- The replacement takes the placeholder's name.
  abbrev pub after_open : Text → Linked
  after_open content =
      if calls.replaces
      then (removed entry_name source (named content), ok tt)
      else ((if calls.removes then dir else named []), err failed)

  abbrev pub give_name : Linking → Option Entry → Text → Linked
  give_name refuses taken content = (dir, err failed)
  give_name links (some e) content = (dir, err exists)
  give_name links none content = after_link content
  give_name unsupported (some e) content = (dir, err exists)
  give_name unsupported none content = if calls.opens then after_open content else (dir, err failed)

  -- A source that is missing is another `OSError`.
  abbrev pub link_from : Option Entry → Linked
  link_from none = (dir, err failed)
  link_from (some e) = give_name calls.link (find entry_name destination dir) e.content

  unfoldable pub link_no_clobber : Linked
  unfolding find removed
  link_no_clobber = link_from (find entry_name source dir)

-- A claim: the directory, and the name or the error, or none when the fuel is spent.
abbrev pub Claim : Type 0
Claim = List Entry × Option (Result LinkError Text)

abbrev pub after_attempt : Text → Linked → Claim → Claim
after_attempt taken (left, ok done) next = (left, some (ok taken))
after_attempt taken (left, err exists) next = next
after_attempt taken (left, err failed) next = (left, some (err failed))

-- `_claim_backup_path`: `names` counts the candidates, the base name first.
unfoldable pub claim_backup_path : LinkCalls → Text → (ℕ → Text) → ℕ → ℕ → List Entry → Claim
unfolding link_no_clobber
claim_backup_path calls source names zero counter dir = (dir, none)
claim_backup_path calls source names (suc fuel) counter dir =
    let tried = link_no_clobber calls source (names counter) dir in
    after_attempt (names counter) tried
      (claim_backup_path calls source names fuel (suc counter) tried.0)
