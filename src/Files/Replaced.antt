-- ===== src/Files/Replaced.antt =====
-- src/meshprovision/db/atomic_writer.py: what a reader finds, at any point of a write, and after it.
use native.Mathlib.Omega.{arith}
use meshprovision.Common.{
  ◌≡◌, ℕ, zero, suc, Bool, true, false, ◌&&◌, Option, none, some, List, [], ◌∷◌, ◌++◌, drop, take,
  if◌then◌else◌, ok, err, ◌⊎◌,
}
use meshprovision.Common.Text.{Text}
use meshprovision.Common.Equality.{◌==◌, Text_eq}
use meshprovision.Files.{
  File, Disk, Step, create_temp, flush_temp, copy_backup, flush_backup, claim_backup,
  replace_target, flush_dir, flush_backup_dir, unlink_temp, unlink_backup_temp, write_temp,
  copy_partly, prune, perform_all, Call, run_ops, create_backup, guarded_ops, write_bytes_atomic,
  Op, unlinking,
}

-- What the temporary file holds, as far as the steps tell.
data Phase : Type 0 where
  partial written flushed : Phase

abbrev pub whole : Text → Option File
whole content = some (record { content = content; flushed = true })

-- What was there before: nothing, or a file that the disk holds.
abbrev pub before : Option Text → Option File
before none = none
before (some content) = whole content

module _ (new : Text) where
  next : Phase → Step → Phase
  next p create_temp = partial
  next p (write_temp c) = if c == new then written else partial
  next partial flush_temp = partial
  next written flush_temp = flushed
  next flushed flush_temp = flushed
  next p replace_target = partial
  next p unlink_temp = partial
  next p copy_backup = p
  next p flush_backup = p
  next p claim_backup = p
  next p flush_dir = p
  next p flush_backup_dir = p
  next p unlink_backup_temp = p
  next p (copy_partly c) = p
  next p (prune retention left) = p

  -- The target is replaced only by the new content, written and flushed.
  allowed : Phase → Step → Bool
  allowed partial replace_target = false
  allowed written replace_target = false
  allowed flushed replace_target = true
  allowed p create_temp = true
  allowed p (write_temp c) = true
  allowed p flush_temp = true
  allowed p unlink_temp = true
  allowed p copy_backup = true
  allowed p flush_backup = true
  allowed p claim_backup = true
  allowed p flush_dir = true
  allowed p flush_backup_dir = true
  allowed p unlink_backup_temp = true
  allowed p (copy_partly c) = true
  allowed p (prune retention left) = true

  after : Phase → List Step → Phase
  after p [] = p
  after p (s ∷ steps) = after (next p s) steps

  is_safe : Phase → List Step → Bool
  is_safe p [] = true
  is_safe p (s ∷ steps) = allowed p s && is_safe (next p s) steps

  are_safe : Phase → List Op → Bool
  are_safe p [] = true
  are_safe p (o ∷ ops) = is_safe p o.leaves && (is_safe p o.does && are_safe (after p o.does) ops)

  -- The temporary file in a phase.
  Holds : Phase → Option File → Type 0
  Holds partial temp = Unit
  Holds written temp = temp ≡ some (record { content = new; flushed = false })
  Holds flushed temp = temp ≡ whole new

  IsOld : Option File → Option File → Type 0
  IsOld old file = (file ≡ old) ⊎ (file ≡ whole new)

  -- Both what is seen and what is on the disk are the old file or the new one.
  IsWhole : Option File → Disk → Type 0
  IsWhole old d = IsOld old d.target × IsOld old d.settled

-- A disk without temporary files.
abbrev pub holding : Option Text → List File → Disk
holding old backups = record {
  target = before old;
  settled = before old;
  temp = none;
  backups = backups;
  settled_backups = backups;
  backup_temp = none;
}

-- What pruning leaves of the older backups: all, without a retention; otherwise the newest that the
-- retention spares, and those of the rest that it does not delete.
abbrev pub older_left : ℕ → (List File → List File) → List File → List File
older_left zero left backups = backups
older_left (suc others) left backups = take others backups ++ left (drop others backups)

-- The backups after a write: the old file, and then what pruning leaves of the others.
abbrev pub backed_up : ℕ → (List File → List File) → Bool → Option Text → List File → List File
backed_up retention left backup none backups = backups
backed_up retention left false (some content) backups = backups
backed_up retention left true (some content) backups =
    record { content = content; flushed = true } ∷ older_left retention left backups

-- The outcome of a write that runs to its end. After a success the target holds the new content, no
-- temporary file of it is left, and, if a backup was asked for, the file that was there, if any, is the
-- newest of the backups; of the older ones, with a retention, the newest `retention - 1` are kept, and
-- of the rest those that pruning does not delete. After a failure the target is as before, and its temporary
-- file is gone unless removing it fails too.
pub write_bytes_atomic-outcome :
    (fails : Call → Bool) (torn : Text) (retention : ℕ) (left : List File → List File) (new : Text)
    (backup : Bool) (old : Option Text) (backups : List File)
    → let d = holding old backups in
      let run = write_bytes_atomic fails torn retention left new backup d.target in
      let final = perform_all run.0 d in
      ((run.1 ≡ ok tt)
        × (final.target ≡ whole new)
        × (final.temp ≡ none)
        × (final.backups ≡ backed_up retention left backup old backups))
      ⊎ ((e : Call) × (run.1 ≡ err e)
          × (final.target ≡ before old)
          × ((final.temp ≡ none) ⊎ (fails unlinking ≡ true)))
unfolding write_bytes_atomic run_ops guarded_ops create_backup perform_all
write_bytes_atomic-outcome fails torn retention left new false none backups = ground arith
write_bytes_atomic-outcome fails torn retention left new false (some content) backups = ground arith
write_bytes_atomic-outcome fails torn retention left new true none backups = ground arith
write_bytes_atomic-outcome fails torn retention left new true (some content) backups = ground arith
