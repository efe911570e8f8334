-- ===== src/Files/Claims.antt =====
-- src/meshprovision/db/backups.py and fs_primitives.py: the name that a finished backup takes.
use native.Mathlib.Omega.{arith}
use meshprovision.Common.{
  ◌≡◌, ◌≢◌, Bool, false, ◌&&◌, refl, ◌∙◌, sym, ap, subst, ℕ, zero, suc, ◌+◌, ◌<◌, Option, none,
  some, List, if◌then◌else◌, Result, ok, err, ◌⊎◌, inl, inr,
}
use meshprovision.Common.Text.{Text}
use meshprovision.Common.Equality.{◌==◌, Text_eq}
use meshprovision.Db.Table.{find, removed}
use meshprovision.Db.Table.Laws.{find-removed}
use meshprovision.Files.Links.{
  Entry, entry_name, LinkError, exists, failed, LinkCalls, Linked, Linking, links, unsupported,
  refuses, named, link_no_clobber, Claim, after_attempt, claim_backup_path,
}

module _ (calls : LinkCalls) (source : Text) where
  -- Whether the calls that give the source a free name all succeed.
  abbrev finishes : Linking → Bool
  finishes links = calls.unlinks
  finishes unsupported = calls.opens && calls.replaces
  finishes refuses = false

  -- A call fails, otherwise than on a taken name: there is no source, hard links are refused, or the name
  -- is free and the calls that give it do not all succeed.
  abbrev pub CannotTake : Text → List Entry → Type 0
  CannotTake destination dir =
      (find entry_name source dir ≡ none)
      ⊎ ((calls.link ≡ refuses)
          ⊎ ((find entry_name destination dir ≡ none) × (finishes calls.link ≡ false)))

  -- How giving a name ends: the source has moved to a name that was free, or the name was taken and
  -- nothing happened, or a call failed otherwise.
  Ends : Text → List Entry → Linked → Type 0
  Ends destination dir run =
      ((run.1 ≡ ok tt)
        × (find entry_name destination dir ≡ none)
        × (e : Entry) × (find entry_name source dir ≡ some e)
        × (run.0 ≡ removed entry_name source (named calls source destination dir e.content)))
      ⊎ (((run.1 ≡ err exists)
            × (run.0 ≡ dir)
            × (e : Entry) × (find entry_name destination dir ≡ some e))
          ⊎ ((run.1 ≡ err failed) × CannotTake destination dir))

  link_no_clobber-Ends :
      (destination : Text) (dir : List Entry)
      → Ends destination dir (link_no_clobber calls source destination dir)
  unfolding Ends link_no_clobber
  link_no_clobber-Ends destination dir = ground arith

  -- The directory after a backup has taken a name: the backup's content under it, the temporary name
  -- gone, and every other file as it was.
  abbrev pub Moved : Text → List Entry → List Entry → Type 0
  Moved taken dir left =
      (find entry_name taken dir ≡ none)
      × (e : Entry) × (find entry_name source dir ≡ some e)
      × ((n : Text)
          → find entry_name n left ≡ (
              if n == source
              then none
              else if taken == n
              then some (record { name = taken; content = e.content })
              else find entry_name n dir))

  -- How the search ends that begins at a counter: with a name, all the names before it being taken; with an
  -- error, all the names before the last one tried being taken and that one failing otherwise; or, when the names tried were all taken, with none.
  abbrev pub IsClaim :
      (ℕ → Text) → ℕ → ℕ → List Entry → List Entry → Option (Result LinkError Text) → Type 0
  IsClaim names fuel counter dir left none =
      (left ≡ dir) × ((j : ℕ) → j < fuel → find entry_name (names (counter + j)) dir ≢ none)
  IsClaim names fuel counter dir left (some (err e)) =
      (e ≡ failed)
      × (k : ℕ) × (k < fuel)
      × ((j : ℕ) → j < k → find entry_name (names (counter + j)) dir ≢ none)
      × CannotTake (names (counter + k)) dir
  IsClaim names fuel counter dir left (some (ok taken)) =
      (k : ℕ) × (k < fuel)
      × (taken ≡ names (counter + k))
      × ((j : ℕ) → j < k → find entry_name (names (counter + j)) dir ≢ none)
      × Moved taken dir left

  link-Moved :
      (taken : Text) (dir : List Entry) (e : Entry)
      → find entry_name taken dir ≡ none
      → find entry_name source dir ≡ some e
      → Moved taken dir (removed entry_name source (named calls source taken dir e.content))
  unfolding find
  link-Moved taken dir e free held = (
    free,
    e,
    held,
    λ n. find-removed entry_name source n (named calls source taken dir e.content),
  )

  taken_from :
      (names : ℕ → Text) (bound counter : ℕ) (dir : List Entry) (e : Entry)
      → find entry_name (names counter) dir ≡ some e
      → ((j : ℕ) → j < bound → find entry_name (names (suc counter + j)) dir ≢ none)
      → (j : ℕ) → j < suc bound
      → find entry_name (names (counter + j)) dir ≢ none
  taken_from names bound counter dir e taken later zero h free =
      let here : names (counter + 0) ≡ names counter = ap names (omega arith) in
      cc (here, taken, free)
  taken_from names bound counter dir e taken later (suc j) h free =
      let shift : names (counter + suc j) ≡ names (suc counter + j) = ap names (omega arith) in
      later j (omega arith) (ap (λ n. find entry_name n dir) (sym shift) ∙ free)

  -- The search started one name earlier.
  later-IsClaim :
      (names : ℕ → Text) (fuel counter : ℕ) (dir left : List Entry)
      (outcome : Option (Result LinkError Text)) (e : Entry)
      → find entry_name (names counter) dir ≡ some e
      → IsClaim names fuel (suc counter) dir left outcome
      → IsClaim names (suc fuel) counter dir left outcome
  later-IsClaim names fuel counter dir left none e taken h =
      (h.0, taken_from names fuel counter dir e taken h.1)
  later-IsClaim names fuel counter dir left (some (err x)) e taken
        (same, k, bound, before, cannot) =
      (
        same,
        suc k,
        omega arith,
        taken_from names k counter dir e taken before,
        subst (λ (i : ℕ). CannotTake (names i) dir) (omega arith) cannot,
      )
  later-IsClaim names fuel counter dir left (some (ok name)) e taken
        (k, bound, same, before, moved) =
      (
        suc k,
        omega arith,
        same ∙ ap names (omega arith),
        taken_from names k counter dir e taken before,
        moved,
      )

  attempt-IsClaim :
      (names : ℕ → Text) (fuel counter : ℕ) (dir : List Entry) (run : Linked) (next : Claim)
      → Ends (names counter) dir run
      → IsClaim names fuel (suc counter) run.0 next.0 next.1
      → let claim = after_attempt (names counter) run next in
        IsClaim names (suc fuel) counter dir claim.0 claim.1
  unfolding Ends
  attempt-IsClaim names fuel counter dir (left, ok done) next (inl (fine, free, e, held, same)) h =
      (
        0,
        omega arith,
        ap names (omega arith),
        λ j k. absurd (omega arith),
        subst (λ (l : List Entry). Moved (names counter) dir l) (sym same)
            (link-Moved (names counter) dir e free held),
      )
  attempt-IsClaim names fuel counter dir (left, ok done) next (inr (inl (wrong, same, e, held))) h =
      cc
  attempt-IsClaim names fuel counter dir (left, ok done) next (inr (inr (wrong, cannot))) h = cc
  attempt-IsClaim names fuel counter dir (left, err exists) next (inl (wrong, free, e, held, same))
        h =
      cc
  attempt-IsClaim names fuel counter dir (left, err exists) next (inr (inl (taken, same, e, held)))
        h =
      later-IsClaim names fuel counter dir next.0 next.1 e held
        (subst (λ (l : List Entry). IsClaim names fuel (suc counter) l next.0 next.1) same h)
  attempt-IsClaim names fuel counter dir (left, err exists) next (inr (inr (wrong, cannot))) h = cc
  attempt-IsClaim names fuel counter dir (left, err failed) next (inl (wrong, free, e, held, same))
        h =
      cc
  attempt-IsClaim names fuel counter dir (left, err failed) next (inr (inl (wrong, same, e, held)))
        h =
      cc
  attempt-IsClaim names fuel counter dir (left, err failed) next (inr (inr (same, cannot))) h = (
    refl,
    0,
    omega arith,
    λ j k. absurd (omega arith),
    subst (λ (i : ℕ). CannotTake (names i) dir) (omega arith) cannot,
  )

  -- The search for a finished backup's name ends in one of three ways. It takes the first of the
  -- candidate names that is free, under which the backup's content is then found; the temporary name is
  -- gone, and no file under any other name is lost or changed. Or it fails, at a candidate before which
  -- all are taken: the source is missing, hard links are refused, or the candidate is free and the calls
  -- that give it do not all succeed. Or all the candidates tried are taken, and nothing has changed.
  pub claim_backup_path-IsClaim :
      (names : ℕ → Text) (fuel counter : ℕ) (dir : List Entry)
      → let claim = claim_backup_path calls source names fuel counter dir in
        IsClaim names fuel counter dir claim.0 claim.1
  unfolding claim_backup_path
  claim_backup_path-IsClaim names zero counter dir = (refl, λ j h. absurd (omega arith))
  claim_backup_path-IsClaim names (suc fuel) counter dir =
      let tried = link_no_clobber calls source (names counter) dir in
      attempt-IsClaim names fuel counter dir tried
        (claim_backup_path calls source names fuel (suc counter) tried.0)
        (link_no_clobber-Ends (names counter) dir)
        (claim_backup_path-IsClaim names fuel (suc counter) tried.0)
