-- ===== src/Backups.antt =====
-- src/meshprovision/db/backups.py: the time that a new backup is named after, and the pruning of
-- old ones, over the listing of a directory, newest backup first.
pub mod Pruning
mod Tests
use native.Mathlib.Omega.{arith}
use meshprovision.Common.{
  ℕ, ◌+◌, ◌-◌, Bool, true, false, not, ◌&&◌, Option, none, some, List, [], ◌∷◌, ◌++◌, map, keep,
  drop, ltb, ◌==◌ as nat_eq, if◌then◌else◌, Result, ok, err,
}
use meshprovision.Common.Text.{Text}
use meshprovision.Common.Equality.{◌==◌, Text_eq, mem}

-- A backup, its time as a number of microseconds.
pub record BackupInfo : Type 0 where
  pub path : Text
  pub created_at : ℕ

abbrev pub name_timestamp_step : ℕ
name_timestamp_step = 1

-- `existing` is the listing; the warning about a clock that is behind is only logged.
unfoldable pub monotonic_backup_time : List BackupInfo → ℕ → ℕ
monotonic_backup_time [] now = now
monotonic_backup_time (newest ∷ older) now =
    if ltb newest.created_at now then now else newest.created_at + name_timestamp_step

-- What removing a file does: it goes, it was gone already, or the system refuses.
pub data Unlink : Type 0 where
  unlinked missing refused : Unlink

-- The files of the directory without a path.
unfoldable pub without : Text → List Text → List Text
without p files = keep (λ q. not (q == p)) files

-- AtomicWriteError, with the path.
pub data PruneError : Type 0 where
  prune_failed : Text → PruneError

-- The loop over the backups to remove: the files that are left, and what is returned or raised.
unfoldable pub prune_loop :
    (Text → Unlink) → List Text → List Text → List Text → List Text × Result PruneError (List Text)
unfolding without
prune_loop unlink files [] removed = (files, ok removed)
prune_loop unlink files (p ∷ ps) removed = elim (unlink p) [
  | unlinked ↦ prune_loop unlink (without p files) ps (removed ++ p ∷ [])
  | missing ↦ prune_loop unlink (without p files) ps removed
  | refused ↦ (files, err (prune_failed p))
]

-- The backups to remove: those beyond the newest ones, among which a listed backup to keep counts.
unfoldable pub doomed : ℕ → Option Text → List Text → List Text
doomed retention none backups = drop retention backups
doomed retention (some kept) backups =
    if mem kept backups
    then drop (retention - 1) (keep (λ p. not (p == kept)) backups)
    else drop retention backups

-- The files of the directory are those of the listing. A retention that is not positive is 0.
unfoldable pub prune_backups :
    (Text → Unlink) → List Text → ℕ → Option Text → List Text × Result PruneError (List Text)
unfolding prune_loop doomed
prune_backups unlink backups retention kept =
    if nat_eq retention 0
    then (backups, ok [])
    else prune_loop unlink backups (doomed retention kept backups) []
