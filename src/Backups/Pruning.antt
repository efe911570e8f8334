-- ===== src/Backups/Pruning.antt =====
-- src/meshprovision/db/backups.py: which backups a pruning leaves, and how the time of a new
-- backup compares with those of the listed ones.
use native.Mathlib.Omega.{arith}
use meshprovision.Common.{
  ℕ, zero, suc, ◌-◌, ◌≤◌, ◌<◌, ◌≡◌, ◌≢◌, refl, ◌∙◌, true, false, not, ◌&&◌, Option, none, some,
  List, [], ◌∷◌, ◌++◌, keep, drop, take, length, length-take, all, ltb, leb, ◌==◌ as nat_eq,
  if◌then◌else◌, Bool-cases, ◌⊎◌, inl, inr,
}
use meshprovision.Common.Text.{Text, text_eq_iff}
use meshprovision.Common.Equality.{◌==◌, Text_eq, mem, distinct}
use meshprovision.Backups.{
  BackupInfo, monotonic_backup_time, Unlink, unlinked, missing, refused, without, prune_loop,
  doomed, prune_backups,
}

-- A listing is in order when no backup is newer than the one before it.
abbrev pub NewestFirst : List BackupInfo → Type 0
NewestFirst [] = Unit
NewestFirst (b ∷ rest) = (all (λ c. leb c.created_at b.created_at) rest ≡ true) × NewestFirst rest

all-weaken :
    (bound time : ℕ) (bs : List BackupInfo)
    → bound < time
    → all (λ c. leb c.created_at bound) bs ≡ true
    → all (λ c. ltb c.created_at time) bs ≡ true
all-weaken bound time [] lt h = refl
all-weaken bound time (b ∷ bs) lt h = ground (arith, all-weaken bound time bs lt)

-- A new backup is named after a time that is later than every backup's of the listing, and the clock's
-- own time when that is so already.
monotonic_backup_time-newest :
    (existing : List BackupInfo) (now : ℕ)
    → NewestFirst existing
    → (all (λ b. ltb b.created_at (monotonic_backup_time existing now)) existing ≡ true)
      × (now ≤ monotonic_backup_time existing now)
unfolding monotonic_backup_time
monotonic_backup_time-newest [] now h = (refl, omega arith)
monotonic_backup_time-newest (b ∷ bs) now (h, _) = (
  ground (
    arith,
    all-weaken b.created_at now bs,
    all-weaken b.created_at (monotonic_backup_time (b ∷ bs) now) bs,
  ),
  ground arith,
)

mem-without :
    (p q : Text) (files : List Text) → mem q (without p files) ≡ (mem q files && not (q == p))
unfolding without
mem-without p q [] = refl
mem-without p q (f ∷ files) =
    ground (arith, mem-without p q files, text_eq_iff q f, text_eq_iff q p, text_eq_iff f p)

Unlink-cases : (u : Unlink) → (u ≡ unlinked) ⊎ ((u ≡ missing) ⊎ (u ≡ refused))
Unlink-cases unlinked = inl refl
Unlink-cases missing = inr (inl refl)
Unlink-cases refused = inr (inr refl)

prune_step-spares :
    (unlink : Text → Unlink) (files : List Text) (p : Text) (ps removed : List Text) (q : Text)
    (u : Unlink)
    → unlink p ≡ u
    → mem q (p ∷ ps) ≡ false
    → ((files' removed' : List Text)
        → mem q (prune_loop unlink files' ps removed').0 ≡ mem q files')
    → mem q (prune_loop unlink files (p ∷ ps) removed).0 ≡ mem q files
unfolding prune_loop
prune_step-spares unlink files p ps removed q unlinked e h ih =
    rw (e, prune_loop)
      (ih (without p files) (removed ++ p ∷ []) ∙ mem-without p q files ∙ ground arith)
prune_step-spares unlink files p ps removed q missing e h ih =
    rw (e, prune_loop) (ih (without p files) removed ∙ mem-without p q files ∙ ground arith)
prune_step-spares unlink files p ps removed q refused e h ih = rw (e, prune_loop) refl

prune_step-removes :
    (unlink : Text → Unlink) (files : List Text) (p : Text) (ps removed : List Text) (q : Text)
    (u : Unlink)
    → unlink p ≡ u
    → u ≢ refused
    → ((files' removed' : List Text)
        → mem q (prune_loop unlink files' ps removed').0 ≡ (mem q files' && not (mem q ps)))
    → mem q (prune_loop unlink files (p ∷ ps) removed).0 ≡ (mem q files && not (mem q (p ∷ ps)))
unfolding prune_loop
prune_step-removes unlink files p ps removed q unlinked e h ih =
    rw (e, prune_loop)
      (ih (without p files) (removed ++ p ∷ []) ∙ ground (arith, mem-without p q files))
prune_step-removes unlink files p ps removed q missing e h ih =
    rw (e, prune_loop) (ih (without p files) removed ∙ ground (arith, mem-without p q files))
prune_step-removes unlink files p ps removed q refused e h ih = absurd (h refl)

-- A file that is not to be removed stays, whatever happens to the others.
prune_loop-spares :
    (unlink : Text → Unlink) (files ps removed : List Text) (q : Text)
    → mem q ps ≡ false
    → mem q (prune_loop unlink files ps removed).0 ≡ mem q files
prune_loop-spares unlink files [] removed q h = unfold prune_loop in refl
prune_loop-spares unlink files (p ∷ ps) removed q h =
    prune_step-spares unlink files p ps removed q (unlink p) refl h
      (λ files' removed'. prune_loop-spares unlink files' ps removed' q (ground arith))

-- When no removal is refused, the files to remove are gone.
prune_loop-removes :
    (unlink : Text → Unlink) (files ps removed : List Text) (q : Text)
    → ((p : Text) → unlink p ≢ refused)
    → mem q (prune_loop unlink files ps removed).0 ≡ (mem q files && not (mem q ps))
prune_loop-removes unlink files [] removed q h = unfold prune_loop in ground arith
prune_loop-removes unlink files (p ∷ ps) removed q h =
    prune_step-removes unlink files p ps removed q (unlink p) refl (h p)
      (λ files' removed'. prune_loop-removes unlink files' ps removed' q h)

mem-take-drop :
    (n : ℕ) (q : Text) (xs : List Text)
    → distinct xs ≡ true
    → mem q (drop n xs) ≡ (mem q xs && not (mem q (take n xs)))
mem-take-drop zero q xs h = ground arith
mem-take-drop (suc n) q [] h = refl
mem-take-drop (suc n) q (x ∷ xs) h =
    let ih = mem-take-drop n q xs (ground arith) in ground (arith, ih, text_eq_iff q x)

mem-others :
    (kept q : Text) (xs : List Text)
    → mem q (keep (λ p. not (p == kept)) xs) ≡ (mem q xs && not (q == kept))
mem-others kept q [] = refl
mem-others kept q (x ∷ xs) =
    ground (arith, mem-others kept q xs, text_eq_iff q x, text_eq_iff q kept, text_eq_iff x kept)

distinct-others :
    (kept : Text) (xs : List Text)
    → distinct xs ≡ true
    → distinct (keep (λ p. not (p == kept)) xs) ≡ true
distinct-others kept [] h = refl
distinct-others kept (x ∷ xs) h =
    let ih = distinct-others kept xs (ground arith) in ground (arith, ih, mem-others kept x xs)

mem-take : (n : ℕ) (q : Text) (xs : List Text) → mem q (take n xs) ≡ (mem q (take n xs) && mem q xs)
mem-take zero q xs = refl
mem-take (suc n) q [] = refl
mem-take (suc n) q (x ∷ xs) = ground (arith, mem-take n q xs)

-- The newest backups, with the one to keep among them if it is listed.
abbrev pub spared : ℕ → Option Text → List Text → List Text
spared retention none backups = take retention backups
spared retention (some kept) backups =
    if mem kept backups
    then kept ∷ take (retention - 1) (keep (λ p. not (p == kept)) backups)
    else take retention backups

module _ (backups : List Text) (h : distinct backups ≡ true) where
  mem-doomed :
      (retention : ℕ) (kept : Option Text) (q : Text)
      → mem q (doomed retention kept backups)
        ≡ (mem q backups && not (mem q (spared retention kept backups)))
  unfolding doomed
  mem-doomed retention none q = mem-take-drop retention q backups h
  mem-doomed retention (some kept) q = elim (Bool-cases (mem kept backups)) [
    | inl listed ↦
        let rest = keep (λ p. not (p == kept)) backups in
        rw (listed, doomed)
          (mem-take-drop (retention - 1) q rest (distinct-others kept backups h)
            ∙ ground (arith, mem-others kept q backups))
    | inr unlisted ↦ rw (unlisted, doomed) (mem-take-drop retention q backups h)
  ]

  mem-spared :
      (retention : ℕ) (kept : Option Text) (q : Text)
      → mem q (spared retention kept backups)
        ≡ (mem q (spared retention kept backups) && mem q backups)
  mem-spared retention none q = mem-take retention q backups
  mem-spared retention (some kept) q = elim (Bool-cases (mem kept backups)) [
    | inl listed ↦
        let rest = keep (λ p. not (p == kept)) backups in
        rw listed (
          ground
            (arith, mem-take (retention - 1) q rest, mem-others kept q backups, text_eq_iff q kept))
    | inr unlisted ↦ rw unlisted (mem-take retention q backups)
  ]

  length-spared :
      (retention : ℕ) (kept : Option Text)
      → 0 < retention
      → length (spared retention kept backups) ≤ retention
  length-spared retention none pos = omega (arith, length-take retention backups)
  length-spared retention (some kept) pos = ground (
    arith,
    length-take retention backups,
    length-take (retention - 1) (keep (λ p. not (p == kept)) backups),
  )

  -- When the listed paths differ, the retention is positive and no removal is refused, a pruning
  -- leaves exactly the newest backups, with a listed backup to keep counted among them, at most as
  -- many as the retention.
  pub prune_backups-survivors :
      (unlink : Text → Unlink) (retention : ℕ) (kept : Option Text)
      → 0 < retention
      → ((p : Text) → unlink p ≢ refused)
      → ((q : Text)
          → mem q (prune_backups unlink backups retention kept).0
            ≡ mem q (spared retention kept backups))
        × (length (spared retention kept backups) ≤ retention)
  unfolding prune_backups
  prune_backups-survivors unlink retention kept pos none_refused = (
    λ q.
        let positive : nat_eq retention 0 ≡ false = ground arith in
        rw positive (
          prune_loop-removes unlink backups (doomed retention kept backups) [] q none_refused
          ∙ ground (arith, mem-doomed retention kept q, mem-spared retention kept q)),
    length-spared retention kept pos,
  )

  -- Whatever the removals do, refusals and concurrent removals of other files included, a pruning
  -- leaves the newest backups, and a listed backup to keep, when the listed paths differ.
  pub prune_backups-spares :
      (unlink : Text → Unlink) (retention : ℕ) (kept : Option Text) (q : Text)
      → mem q (spared retention kept backups) ≡ true
      → mem q (prune_backups unlink backups retention kept).0 ≡ true
  unfolding prune_backups
  prune_backups-spares unlink retention kept q spare =
      let listed : mem q backups ≡ true = ground (arith, mem-spared retention kept q) in
      elim (Bool-cases (nat_eq retention 0)) [
        | inl all ↦ rw all listed
        | inr some_go ↦ rw some_go (
            prune_loop-spares unlink backups (doomed retention kept backups) [] q
              (ground (arith, mem-doomed retention kept q))
            ∙ listed)
      ]
