-- ===== src/Files/Tests.antt =====
-- A write whose replacement fails, a power cut in another, and a backup whose first name is taken.
use meshprovision.Common.{
  ◌≡◌, ◌⊎◌, refl, ℕ, zero, suc, ◌++◌, Bool, true, false, none, some, List, [], ◌∷◌, ok, err,
}
use meshprovision.Common.Text.{Text, codes}
use meshprovision.Common.Digits.{to_digits}
use meshprovision.Files.{File, Call, replacing, perform_all, write_bytes_atomic}
use meshprovision.Files.Replaced.{before, whole, holding, backed_up, write_bytes_atomic-outcome}
use meshprovision.Files.Links.{Entry, LinkCalls, unsupported, claim_backup_path}
use meshprovision.Files.Claims.{IsClaim, claim_backup_path-IsClaim}

abbrev old_text : Text
old_text = codes "old"

abbrev new_text : Text
new_text = codes "new"

abbrev kept_all : List File → List File
kept_all backups = backups

abbrev no_failure : Call → Bool
no_failure call = false

abbrev replacing_fails : Call → Bool
replacing_fails replacing = true
replacing_fails call = false

write_bytes_atomic-outcome_example :
    let d = holding (some old_text) [] in
    let run = write_bytes_atomic replacing_fails [] 10 kept_all new_text true d.target in
    let final = perform_all run.0 d in
    ((run.1 ≡ ok tt)
      × (final.target ≡ whole new_text)
      × (final.temp ≡ none)
      × (final.backups ≡ backed_up 10 kept_all true (some old_text) []))
    ⊎ ((e : Call) × (run.1 ≡ err e)
        × (final.target ≡ before (some old_text))
        × ((final.temp ≡ none) ⊎ (false ≡ true)))
write_bytes_atomic-outcome_example =
    write_bytes_atomic-outcome replacing_fails [] 10 kept_all new_text true (some old_text) []

-- A backup was made although the replacement failed, and the target is as before.
backed_up_first :
    perform_all
      (write_bytes_atomic replacing_fails [] 10 kept_all new_text true (whole old_text)).0
      (holding (some old_text) [])
    ≡ record {
      target = whole old_text;
      settled = whole old_text;
      temp = none;
      backups = record { content = old_text; flushed = true } ∷ [];
      settled_backups = record { content = old_text; flushed = true } ∷ [];
      backup_temp = none;
    }
unfolding perform_all write_bytes_atomic
backed_up_first = refl

-- A file system without hard links.
abbrev calls : LinkCalls
calls = record { link = unsupported; unlinks = true; opens = true; replaces = true; removes = true }

abbrev names : ℕ → Text
names zero = codes "db.ods"
names (suc n) = codes "db-" ++ to_digits 10 (suc (suc n)) (suc n) [] ++ codes ".ods"

abbrev directory : List Entry
directory =
    record { name = codes ".tmp"; content = new_text }
    ∷ record { name = codes "db.ods"; content = old_text }
    ∷ []

claim_backup_path-IsClaim_example :
    let claim = claim_backup_path calls (codes ".tmp") names 3 0 directory in
    IsClaim calls (codes ".tmp") names 3 0 directory claim.0 claim.1
claim_backup_path-IsClaim_example =
    claim_backup_path-IsClaim calls (codes ".tmp") names 3 0 directory

second_name : (claim_backup_path calls (codes ".tmp") names 3 0 directory).1 ≡ some (ok (names 1))
unfolding claim_backup_path
second_name = refl
