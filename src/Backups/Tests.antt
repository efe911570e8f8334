-- ===== src/Backups/Tests.antt =====
-- Three backups at concrete times and paths, of which two may stay.
use native.Mathlib.Omega.{arith}
use meshprovision.Common.{ℕ, ◌≤◌, ◌≡◌, ◌≢◌, refl, true, some, List, [], ◌∷◌, length}
use meshprovision.Common.Text.{Text, codes}
use meshprovision.Common.Equality.{mem, Text_eq}
use meshprovision.Backups.{BackupInfo, Unlink, unlinked, refused, prune_backups}
use meshprovision.Backups.Pruning.{prune_backups-survivors, prune_backups-spares, spared}

abbrev backup : ℕ → BackupInfo
backup time = record { path = codes "b"; created_at = time }

abbrev three : List Text
three = codes "c" ∷ codes "b" ∷ codes "a" ∷ []

abbrev all_go : Text → Unlink
all_go p = unlinked

all_go-ne-refused : (p : Text) → all_go p ≢ refused
all_go-ne-refused p = λ e. cc

prune_backups-survivors_example :
    ((q : Text)
      → mem q (prune_backups all_go three 2 (some (codes "a"))).0
        ≡ mem q (spared 2 (some (codes "a")) three))
    × (length (spared 2 (some (codes "a")) three) ≤ 2)
prune_backups-survivors_example =
    prune_backups-survivors three refl all_go 2 (some (codes "a")) (omega arith) all_go-ne-refused

prune_backups-spares_example :
    mem (codes "a") (prune_backups (λ p. refused) three 2 (some (codes "a"))).0 ≡ true
prune_backups-spares_example =
    prune_backups-spares three refl (λ p. refused) 2 (some (codes "a")) (codes "a") refl
