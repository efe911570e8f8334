-- ===== src/Session/Saved.antt =====
-- src/meshprovision/db/ods.py: what a save replaces, and what it leaves.
use native.Mathlib.Omega.{arith}
use meshprovision.Common.{
  ℕ, ◌≡◌, refl, ◌∙◌, sym, ap, subst, Bool, true, false, Option, none, some, List, [], ◌∷◌, Result,
  ok, err, ◌>>=◌, >>=-eq_ok, Bool-cases, ◌⊎◌, inl, inr,
}
use meshprovision.Common.Text.{Text}
use meshprovision.Common.Equality.{Text_eq, eq_iff}
use meshprovision.Files.{File, Disk, Call, unlinking, Written, perform_all, write_bytes_atomic}
use meshprovision.Files.Replaced.{before, whole, holding, backed_up, write_bytes_atomic-outcome}
use meshprovision.Session.{
  Identity, same_identity, World, Sheet, nodes_sheet, keys_sheet, unknown_sheet, Sheets, Format,
  Session, SessionError, concurrent_modification, would_not_load, write_failed, content_in,
  content_of, fresh_session, loaded_from, read_and_parse, load, replace, is_as_seen, unless_changed,
  unmodified, after_write, write_checked, save,
}

module _ {R E : Type 0} (format : Format R E) where
  -- Edits of the session's rows, each at its own time.
  unfoldable pub edit :
      List (World × Sheet × List R) → Session R → Result (SessionError E) (Session R)
  unfolding replace
  edit [] s = ok s
  edit ((w, sheet, rows) ∷ edits) s = replace format sheet rows w s >>= edit edits

  replace-seen :
      (sheet : Sheet) (rows : List R) (w : World) (s s' : Session R)
      → s.loaded ≡ true
      → replace format sheet rows w s ≡ ok s'
      → (s'.loaded ≡ true) × (s'.seen ≡ s.seen)
  unfolding replace load
  replace-seen nodes_sheet rows w s s' l h = ground arith
  replace-seen keys_sheet rows w s s' l h = ground arith
  replace-seen (unknown_sheet name) rows w s s' l h = ground arith

  edit-seen :
      (edits : List (World × Sheet × List R)) (s s' : Session R)
      → s.loaded ≡ true
      → edit edits s ≡ ok s'
      → s'.seen ≡ s.seen
  unfolding edit
  edit-seen [] s s' l h = ground arith
  edit-seen ((w, sheet, rows) ∷ edits) s s' l h =
      let parts = >>=-eq_ok (replace format sheet rows w s) (edit edits) h in
      let first = replace-seen sheet rows w s parts.0 l parts.1 in
      edit-seen edits parts.0 s' first.0 parts.2 ∙ first.1

  read_and_parse-seen :
      (identity : Identity) (found : Option Text) (s' : Session R)
      → read_and_parse format identity found ≡ ok s'
      → (content : Text) × (found ≡ some content)
        × (s'.loaded ≡ true)
        × (s'.seen ≡ some (identity, format.sha256 content))
  read_and_parse-seen identity none s' h = cc
  read_and_parse-seen identity (some content) s' h =
      (content, refl, ground (arith, h), ground (arith, h))

  load_forced :
      (w : World) (s : Session R)
      → load format true w s ≡ read_and_parse format w.identity (content_of w)
  unfolding load
  load_forced w s = ground arith

  load-seen :
      (w : World) (s s' : Session R)
      → load format true w s ≡ ok s'
      → (content : Text) × (content_of w ≡ some content)
        × (s'.loaded ≡ true)
        × (s'.seen ≡ some (w.identity, format.sha256 content))
  load-seen w s s' h = read_and_parse-seen w.identity (content_of w) s' (sym (load_forced w s) ∙ h)

  -- A check that passes: the file's identity or its hash is the one seen.
  is_as_seen-content :
      (identity known : Identity) (found : Option Text) (content : Text)
      → is_as_seen format identity found (known, format.sha256 content) ≡ true
      → (same_identity identity known ≡ true → found ≡ some content)
      → ((other : Text) → format.sha256 other ≡ format.sha256 content → other ≡ content)
      → found ≡ some content
  is_as_seen-content identity known none content h honest distinct_hash = cc
  is_as_seen-content identity known (some other) content h honest distinct_hash =
      elim (Bool-cases (same_identity identity known)) [
        | inl e ↦ honest e
        | inr e ↦ ap some (
            distinct_hash other
              ((eq_iff (format.sha256 other) (format.sha256 content)).0 (ground (arith, h, e))))
      ]

  module _ (fails : Call → Bool) (torn : Text) (retention : ℕ) (left : List File → List File)
      (identity : Identity) where
    save-unmodified :
        (checked w : World) (s s' : Session R)
        → s.is_dirty ≡ true
        → (save format fails torn retention left identity checked w s).1 ≡ ok s'
        → unmodified format checked s ≡ true
    unfolding save
    save-unmodified checked w s s' d h = elim (Bool-cases (unmodified format checked s)) [
      | inl e ↦ e
      | inr e ↦ ground (arith, d, h, e)
    ]

    -- A save of changed rows that succeeds replaces no content but the one that its session had loaded,
    -- whatever happened to the file between the load and the save's check. The hypotheses are that
    -- nobody changes the content between that check and the replacement, which the check does not
    -- exclude; that at the check a file of the same device, inode, time and size as the loaded one has
    -- the loaded content; and that no other content has its hash.
    pub save-no_lost_edit :
        (w w' written : World) (s s' s'' : Session R) (edits : List (World × Sheet × List R))
        → load format true w (fresh_session format) ≡ ok s
        → edit edits s ≡ ok s'
        → s'.is_dirty ≡ true
        → (save format fails torn retention left identity w' written s').1 ≡ ok s''
        → content_of written ≡ content_of w'
        → (same_identity w'.identity w.identity ≡ true → content_of w' ≡ content_of w)
        → ((a b : Text) → content_of w ≡ some b → format.sha256 a ≡ format.sha256 b → a ≡ b)
        → content_of written ≡ content_of w
    unfolding unmodified
    save-no_lost_edit w w' written s s' s'' edits l e d h alone honest distinct_hash =
        let read = load-seen w (fresh_session format) s l in
        let seen = edit-seen edits s s' read.2 e ∙ read.3 in
        let passed = save-unmodified w' written s' s'' d h in
        alone
        ∙ is_as_seen-content w'.identity w.identity (content_of w') read.0
            (subst
              (λ (o : Option (Identity × Text)).
                unless_changed format w'.identity (content_of w') o ≡ true)
              seen passed)
            (λ same. honest same ∙ read.1) (λ other same. distinct_hash other read.0 read.1 same)
        ∙ sym read.1

    Outcome :
        Option Text → List File → Session R → World × Result (SessionError E) (Session R) → Type 0
    Outcome old backups s run =
        ((s' : Session R) × (run.1 ≡ ok s')
          × (content_of run.0 ≡ some (format.serialize s.rows))
          × (s'.is_dirty ≡ false)
          × (unmodified format run.0 s' ≡ true)
          × (run.0.disk.backups ≡ backed_up retention left true old backups)
          × ((again : Session R) × (load format true run.0 (fresh_session format) ≡ ok again)))
        ⊎ ((e : SessionError E) × (run.1 ≡ err e) × (run.0.disk.target ≡ before old))

    same_identity_self : (i : Identity) → same_identity i i ≡ true
    unfolding same_identity
    same_identity_self i = ground arith

    read_saved :
        (w : World) (content : Text) (rows : Sheets R)
        → content_of w ≡ some content
        → format.parse content ≡ ok rows
        → (again : Session R) × (load format true w (fresh_session format) ≡ ok again)
    read_saved w content rows found parsed = (
      loaded_from format w.identity content rows,
      load_forced w (fresh_session format)
          ∙ ap (read_and_parse format w.identity) found
          ∙ rw (parsed, read_and_parse) refl,
    )

    after_write-Outcome :
        (old : Option Text) (backups : List File) (w : World) (s : Session R) (rows : Sheets R)
        (run : Written)
        → format.parse (format.serialize s.rows) ≡ ok rows
        → ((run.1 ≡ ok tt)
            × ((perform_all run.0 w.disk).target ≡ whole (format.serialize s.rows))
            × ((perform_all run.0 w.disk).temp ≡ none)
            × ((perform_all run.0 w.disk).backups ≡ backed_up retention left true old backups))
          ⊎ ((e : Call) × (run.1 ≡ err e)
              × ((perform_all run.0 w.disk).target ≡ before old)
              × (((perform_all run.0 w.disk).temp ≡ none) ⊎ (fails unlinking ≡ true)))
        → Outcome old backups s (
            after_write format fails torn retention left identity w s (format.serialize s.rows) run)
    unfolding Outcome unmodified
    after_write-Outcome old backups w s rows (steps, ok done) parsed
          (inl (fine, target, temp, kept)) =
        let w' : World = record { disk = perform_all steps w.disk; identity = identity } in
        let content = format.serialize s.rows in
        let found : content_in (perform_all steps w.disk).target ≡ some content =
          ap content_in target in
        inl (
          record s { is_dirty = false; seen = some (identity, format.sha256 content) },
          refl,
          found,
          refl,
          ap (λ o. is_as_seen format identity o (identity, format.sha256 content)) found
              ∙ rw (same_identity_self identity) refl,
          kept,
          read_saved w' content rows found parsed,
        )
    after_write-Outcome old backups w s rows (steps, ok done) parsed (inr (e, bad, target, temp)) =
        cc
    after_write-Outcome old backups w s rows (steps, err e) parsed (inl (bad, target, temp, kept)) =
        cc
    after_write-Outcome old backups w s rows (steps, err e) parsed (inr (e', same, target, temp)) =
        inr (write_failed e, refl, target)

    write_checked-Outcome :
        (old : Option Text) (backups : List File) (w : World) (s : Session R)
        (parsed : Result E (Sheets R))
        → w.disk ≡ holding old backups
        → format.parse (format.serialize s.rows) ≡ parsed
        → Outcome old backups s (
            write_checked format fails torn retention left identity w s
              (format.serialize s.rows)
              parsed)
    unfolding Outcome
    write_checked-Outcome old backups w s (err e) disk parsed =
        inr (would_not_load e, refl, ap (λ d. d.target) disk)
    write_checked-Outcome old backups w s (ok rows) disk parsed =
        after_write-Outcome old backups w s rows
          (write_bytes_atomic fails torn retention left (format.serialize s.rows) true
            w.disk.target)
          parsed
          (subst
            (λ (d : Disk).
              let run =
                write_bytes_atomic fails torn retention left (format.serialize s.rows) true
                  d.target in
              ((run.1 ≡ ok tt)
                × ((perform_all run.0 d).target ≡ whole (format.serialize s.rows))
                × ((perform_all run.0 d).temp ≡ none)
                × ((perform_all run.0 d).backups ≡ backed_up retention left true old backups))
              ⊎ ((e : Call) × (run.1 ≡ err e)
                  × ((perform_all run.0 d).target ≡ before old)
                  × (((perform_all run.0 d).temp ≡ none) ⊎ (fails unlinking ≡ true))))
            (sym disk)
            (write_bytes_atomic-outcome fails torn retention left (format.serialize s.rows) true old
              backups))

    -- On a disk that holds the file and no temporary files, a save of changed rows either succeeds or
    -- raises, whatever the file was when it was checked. After a success the file holds the rows'
    -- serialization, which loads; the session is clean, and a further save of it is not refused as a
    -- concurrent edit; and the file that the write found, if any, is the newest backup, which pruning
    -- never deletes: of the older backups it leaves all without a retention, and with one the newest
    -- `retention - 1` and those of the rest that it does not delete. When the save raises, the file is
    -- as it was.
    pub save-outcome :
        (old : Option Text) (backups : List File) (checked w : World) (s : Session R)
        → w.disk ≡ holding old backups
        → s.is_dirty ≡ true
        → let run = save format fails torn retention left identity checked w s in
          ((s' : Session R) × (run.1 ≡ ok s')
            × (content_of run.0 ≡ some (format.serialize s.rows))
            × (s'.is_dirty ≡ false)
            × (unmodified format run.0 s' ≡ true)
            × (run.0.disk.backups ≡ backed_up retention left true old backups)
            × ((again : Session R) × (load format true run.0 (fresh_session format) ≡ ok again)))
          ⊎ ((e : SessionError E) × (run.1 ≡ err e) × (run.0.disk.target ≡ before old))
    unfolding save Outcome
    save-outcome old backups checked w s disk d = elim (Bool-cases (unmodified format checked s)) [
      | inl e ↦ rw d (
          rw e (
            write_checked-Outcome old backups w s (format.parse (format.serialize s.rows)) disk
              refl))
      | inr e ↦ rw d (rw e (inr (concurrent_modification, refl, ap (λ x. x.target) disk)))
    ]
