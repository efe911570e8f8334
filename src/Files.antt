-- ===== src/Files.antt =====
-- src/meshprovision/db/atomic_writer.py, fs_primitives.py and backups.py: a file is replaced whole, after
-- a backup, by way of a temporary file. The operating system's calls fail where `fails` says so.
pub mod Replaced
pub mod Links
pub mod Claims
mod Tests
use meshprovision.Common.{
  ℕ, zero, suc, drop, Bool, true, false, not, ◌&&◌, Option, none, some, List, [], ◌∷◌, ◌++◌, take,
  if◌then◌else◌, Result, ok, err,
}
use meshprovision.Common.Text.{Text}

-- A file's content, and whether the disk holds it.
pub record File : Type 0 where
  pub content : Text
  pub flushed : Bool

-- `settled` is what the directory names the target on the disk; `target` is what a reader sees. The
-- backups are the newest first, and `settled_backups` are those that their directory names on the disk.
pub record Disk : Type 0 where
  pub target : Option File
  pub settled : Option File
  pub temp : Option File
  pub backups : List File
  pub settled_backups : List File
  pub backup_temp : Option File

-- What a call does to the files. Pruning is given by the retention, and by what it leaves of the backups
-- that it is to delete, as an unlink may fail and a failed pruning is only logged.
pub data Step : Type 0 where
  create_temp flush_temp copy_backup flush_backup claim_backup replace_target flush_dir : Step
  flush_backup_dir : Step
  unlink_temp unlink_backup_temp : Step
  write_temp copy_partly : Text → Step
  prune : ℕ → (List File → List File) → Step

abbrev pub flush : Option File → Option File
flush none = none
flush (some f) = some (record { content = f.content; flushed = true })

abbrev copy : Option File → Option File
copy none = none
copy (some f) = some (record { content = f.content; flushed = false })

abbrev claim : Option File → List File → List File
claim none backups = backups
claim (some f) backups = f ∷ backups

abbrev pub unflushed : Text → Option File
unflushed content = some (record { content = content; flushed = false })

-- `prune_backups` with the new backup, the first, as `keep`: it stays with the `retention - 1` newest others,
-- and without a retention all stay.
abbrev pub pruned : ℕ → (List File → List File) → List File → List File
pruned zero left backups = backups
pruned (suc others) left [] = []
pruned (suc others) left (new ∷ older) = new ∷ (take others older ++ left (drop others older))

unfoldable pub perform : Step → Disk → Disk
perform create_temp d = record d { temp = unflushed [] }
perform (write_temp content) d = record d { temp = unflushed content }
perform flush_temp d = record d { temp = flush d.temp }
perform copy_backup d = record d { backup_temp = copy d.target }
perform (copy_partly content) d = record d { backup_temp = unflushed content }
perform flush_backup d = record d { backup_temp = flush d.backup_temp }
perform claim_backup d = record d { backups = claim d.backup_temp d.backups; backup_temp = none }
perform (prune retention left) d = record d { backups = pruned retention left d.backups }
perform replace_target d = record d { target = d.temp; temp = none }
perform flush_backup_dir d = record d { settled_backups = d.backups }
perform flush_dir d = record d { settled = d.target }
perform unlink_temp d = record d { temp = none }
perform unlink_backup_temp d = record d { backup_temp = none }

unfoldable pub perform_all : List Step → Disk → Disk
unfolding perform
perform_all [] d = d
perform_all (s ∷ steps) d = perform_all steps (perform s d)

-- The calls that can fail. `raising` is an exception of the caller's block, or of what it writes with.
pub data Call : Type 0 where
  resolving making_dir creating_temp raising flushing_temp making_backup_dir copying flushing_copy :
      Call
  claiming measuring replacing flushing_dir flushing_backup_dir unlinking unlinking_copy : Call

abbrev pub Written : Type 0
Written = List Step × Result Call (Unit {0})

-- A call of straight-line code: what it does, and what it leaves behind when it raises.
pub record Op : Type 0 where
  pub call : Call
  pub does : List Step
  pub leaves : List Step

abbrev pub op : Call → List Step → Op
op call does = record { call = call; does = does; leaves = [] }

abbrev pub enter : Written → Written → Written
enter (steps, ok done) rest = (steps ++ rest.0, rest.1)
enter (steps, err e) rest = (steps, err e)

abbrev pub opening_ops : List Op
opening_ops = op resolving [] ∷ op making_dir [] ∷ op creating_temp (create_temp ∷ []) ∷ []

module _ (fails : Call → Bool) where
  -- `fsync_dir` never raises.
  abbrev pub finish : Written → Written
  finish (steps, ok done) = (steps ++ (if fails flushing_dir then [] else flush_dir ∷ []), ok done)
  finish (steps, err e) = (steps ++ (if fails unlinking then [] else unlink_temp ∷ []), err e)

  unfoldable pub run_ops : List Op → Written
  run_ops [] = ([], ok tt)
  run_ops (o ∷ ops) =
      let rest = run_ops ops in
      if fails o.call then (o.leaves, err o.call) else (o.does ++ rest.0, rest.1)

  -- `contextlib.suppress(OSError)` around an unlink.
  abbrev pub unlinks : Call → Step → List Step
  unlinks call s = if fails call then [] else s ∷ []

  -- What a call that raised half-way has written.
  module _ (torn : Text) (retention : ℕ) (left : List File → List File) where
    -- `create_backup`, of a target that exists. The sync of its directory never raises. The change
    -- of modes and the removal of stale temporary files, whose failures are only logged, are left out.
    unfoldable pub create_backup : List Op
    create_backup =
        op making_backup_dir []
        ∷ record {
          call = copying;
          does = copy_backup ∷ [];
          leaves = copy_partly torn ∷ unlinks unlinking_copy unlink_backup_temp;
        }
        ∷ record {
          call = flushing_copy;
          does = flush_backup ∷ [];
          leaves = unlinks unlinking_copy unlink_backup_temp;
        }
        ∷ record {
          call = claiming;
          does = claim_backup ∷ (if fails flushing_backup_dir then [] else flush_backup_dir ∷ []);
          leaves = unlinks unlinking_copy unlink_backup_temp;
        }
        ∷ op measuring (prune retention left ∷ [])
        ∷ []

    abbrev pub backup_ops : Bool → Option File → List Op
    backup_ops false target = []
    backup_ops true none = []
    backup_ops true (some f) = create_backup

    -- The block's end: the `try` of `atomic_write`, in which `write_bytes` writes `data` and the rest runs.
    unfoldable pub guarded_ops : Text → Bool → Option File → List Op
    unfolding create_backup
    guarded_ops content backup target =
        record { call = raising; does = write_temp content ∷ []; leaves = write_temp torn ∷ [] }
        ∷ op flushing_temp (flush_temp ∷ [])
        ∷ (backup_ops backup target ++ op replacing (replace_target ∷ []) ∷ [])

    -- `write_bytes_atomic`: `atomic_write` around a block that writes the whole content.
    unfoldable pub write_bytes_atomic : Text → Bool → Option File → Written
    unfolding run_ops guarded_ops
    write_bytes_atomic content backup target =
        enter (run_ops opening_ops) (finish (run_ops (guarded_ops content backup target)))

abbrev pub read_file : (Text → Text) → Option File → Option Text
read_file tear none = none
read_file tear (some f) = some (if f.flushed then f.content else tear f.content)

-- What a reader finds under the target's name after a power cut: an unflushed file is torn, and a rename
-- that the directory was not flushed after may be lost.
unfoldable pub after_power_cut : (Text → Text) → Bool → Disk → Option Text
after_power_cut tear kept d = if kept then read_file tear d.target else read_file tear d.settled
