-- ===== src/Run/ApplyPlan.antt =====
-- src/meshprovision/provisioning/apply.py, `apply_plan` and `_verify_after_apply`.
use meshprovision.Common.{
  ℕ, Bool, true, false, not, ◌&&◌, ◌||◌, Option, none, some, List, [], ◌∷◌, ◌++◌, map, keep, any,
  if◌then◌else◌, ◌==◌ as nat_eq, Result, ok, err,
}
use meshprovision.Common.Text.{Text, codes}
use meshprovision.Common.Equality.{◌==◌, Text_eq, mem}
use meshprovision.NodeId.{NodeId, hex}
use meshprovision.Db.{NodeRecord}
use meshprovision.Apply.{skipped, WriteResult, ApplyOutcome, outcome_ok, uncertain}
use meshprovision.Run.{
  same_name, SectionChange, ChangePlan, no_changes, nothing_to_do, section_of, KeyPair, LiveConfig,
}
use meshprovision.Run.Record.{to_record, or_else}
use meshprovision.Run.Readback.{DeviceKey, verify_plan, listed}
use meshprovision.Run.Device.{
  RefreshFailure, Device, Call, began, committed, refreshed, asked_node_id, asked_config,
}
use meshprovision.Run.Execution.{
  ApplyError, fresh_keypair_missing, result, verify_failed, backend_error_detail, skip_unwritten,
  confirmed_name, Pass, run_name_phase, write_in_order, unconfirmed_after_failed_commit, stopped,
  identity_mismatch, proven_renumber, possible_node_renumber,
}

-- What the run takes from libraries and from the field values: `values_equal` and `str` of a value, a
-- key's fingerprint, base64, the CRC-32, and the defaults of a new row.
pub record Outside (V : Type 0) : Type 0 where
  pub same : V → V → Bool
  pub text_of : V → Text
  pub fingerprint : List ℕ → Text
  pub decode_key : Text → Result Text (List ℕ)
  pub crc32 : List ℕ → ℕ
  pub default_role : Text
  pub default_region : Text

abbrev pub is_none {ℓ} : {A : Type ℓ} → Option A → Bool
is_none none = true
is_none (some a) = false

abbrev pub names_of : {V : Type 0} → List (SectionChange V) → List Text
names_of sections = map (λ s. s.section) sections

abbrev pub id_eq : NodeId → NodeId → Bool
id_eq a b = nat_eq a.num b.num

-- `outcome` with calls made before it.
abbrev pub after : List Call → ApplyOutcome × List Call → ApplyOutcome × List Call
after calls rest = (rest.0, calls ++ rest.1)

-- The row of an outcome that is certain, and the fingerprint of the key.
unfoldable pub with_row : ApplyOutcome → Option Text → NodeRecord → ApplyOutcome
unfolding uncertain outcome_ok
with_row outcome fingerprint row =
    if uncertain outcome || not (outcome_ok outcome)
    then outcome
    else record outcome { public_key_fingerprint = fingerprint; row = some row }

module _ {V : Type 0} (outside : Outside V) (device : Device V) (plan : ChangePlan V)
    (reads_back : Bool) (keypair : Option KeyPair) where
  unfoldable pub fingerprint_of : Option KeyPair → Option Text
  fingerprint_of none = none
  fingerprint_of (some pair) = some (outside.fingerprint pair.public)

  -- The outcome of a device that was read back and is the plan's, by its id or by a proof.
  unfoldable pub verified_outcome : List WriteResult → Bool → LiveConfig V → Bool → ApplyOutcome
  unfolding stopped to_record confirmed_name fingerprint_of with_row
  verified_outcome results security_attempted live_after renumbered =
      let base = stopped plan results security_attempted in
      let outcome =
        if renumbered
        then record base { node_id = live_after.node_id; previous_node_id = some plan.node_id }
        else base in
      let row =
        to_record outside.text_of outside.default_role outside.default_region plan
          (confirmed_name (codes "short_name") results)
          (confirmed_name (codes "long_name") results) in
      with_row outcome (fingerprint_of keypair)
        (if renumbered then record row { node_id = hex live_after.node_id } else row)

  -- What is decided once the device is read back.
  unfoldable pub judged : List WriteResult → List Text → LiveConfig V → DeviceKey → ApplyOutcome
  unfolding stopped proven_renumber possible_node_renumber identity_mismatch verify_plan
      verified_outcome or_else
  judged prior attempted live_after device_pub =
      let security_attempted = mem (codes "security") attempted in
      let other = not (id_eq live_after.node_id plan.node_id) in
      let renumbered = other && proven_renumber outside.crc32 plan live_after keypair in
      if other && not renumbered
      then stopped plan
          (prior
            ++ or_else (possible_node_renumber outside.crc32 plan live_after keypair)
                (identity_mismatch plan live_after.node_id)
              ∷ [])
          security_attempted
      else verified_outcome
          (prior
            ++ verify_plan outside.same outside.text_of outside.fingerprint outside.decode_key plan
                live_after keypair device_pub attempted reads_back)
          security_attempted live_after renumbered

  -- `_verify_after_apply`, by what the refresh and the read-back give.
  unfoldable pub verify_with :
      Option RefreshFailure
      → Result Text (LiveConfig V × DeviceKey)
      → List WriteResult
      → List Text
      → ApplyOutcome × List Call
  unfolding stopped backend_error_detail judged
  verify_with (some exc) answer prior attempted = (
    stopped plan
        (prior
          ++ verify_failed
              (codes "Could not reconnect to verify the writes: " ++ backend_error_detail exc)
            ∷ [])
        (mem (codes "security") attempted),
    refreshed (some exc) ∷ [],
  )
  verify_with none (err exc) prior attempted = (
    stopped plan
        (prior
          ++ verify_failed
              (codes "Reconnected, but could not read back the device state to verify: " ++ exc)
            ∷ [])
        (mem (codes "security") attempted),
    refreshed none ∷ asked_config ∷ [],
  )
  verify_with none (ok live) prior attempted =
      (judged prior attempted live.0 live.1, refreshed none ∷ asked_config ∷ [])

  unfoldable pub verify_after_apply : List WriteResult → List Text → ApplyOutcome × List Call
  unfolding verify_with
  verify_after_apply prior attempted =
      verify_with device.refresh_to_verify device.read_back prior attempted

  -- The sections that a reconnecting session holds back, in write order.
  unfoldable pub deferred_changes : List (SectionChange V)
  unfolding section_of
  deferred_changes =
      elim (section_of (codes "default_channel") plan.sections) [ none ↦ [] | some s ↦ s ∷ [] ]
      ++ elim (section_of (codes "security") plan.sections) [ none ↦ [] | some s ↦ s ∷ [] ]

  abbrev pub give_up : List WriteResult → WriteResult → Text → ApplyOutcome
  give_up results failure reason =
      stopped plan (results ++ (failure ∷ skip_unwritten (names_of deferred_changes) reason)) false

  -- The device answered after the commit as the node `got`.
  unfoldable pub write_deferred : List WriteResult → List Text → NodeId → ApplyOutcome × List Call
  unfolding stopped skip_unwritten deferred_changes identity_mismatch write_in_order
      verify_after_apply
  write_deferred results attempted got =
      let pass = write_in_order device deferred_changes none in
      let rest = verify_after_apply (results ++ pass.results) (attempted ++ pass.attempted) in
      if not (id_eq got plan.node_id)
      then (
        give_up results (identity_mismatch plan got)
            (codes "stopped after reconnecting to a different node"),
        [],
      )
      else after pass.calls rest

  -- The reconnect after the commit, by what the refresh and the read of the node's id give.
  unfoldable pub reconnect_with :
      Option RefreshFailure
      → Result Text NodeId
      → List WriteResult
      → List Text
      → ApplyOutcome × List Call
  unfolding stopped skip_unwritten deferred_changes backend_error_detail write_deferred
  reconnect_with (some exc) answer results attempted = (
    give_up results
        (verify_failed (
          codes "Could not reconnect after committing settings to continue the plan: "
          ++ (backend_error_detail exc ++ codes "; stopped")))
        (codes "stopped because the device could not be reconnected after committing settings"),
    refreshed (some exc) ∷ [],
  )
  reconnect_with none (err exc) results attempted = (
    give_up results
        (verify_failed (
          codes "reconnected, but could not confirm the node's identity before continuing: "
          ++ (exc ++ codes "; stopped")))
        (codes "stopped because the node's identity could not be confirmed after reconnecting"),
    refreshed none ∷ asked_node_id (err exc) ∷ [],
  )
  reconnect_with none (ok got) results attempted =
      after (refreshed none ∷ asked_node_id (ok got) ∷ []) (write_deferred results attempted got)

  unfoldable pub after_commit :
      Bool → List WriteResult → List Text → Option Text → ApplyOutcome × List Call
  unfolding skip_unwritten deferred_changes verify_after_apply reconnect_with
  after_commit false results attempted stop = verify_after_apply results attempted
  after_commit true results attempted none =
      reconnect_with device.refresh_after_commit device.node_id_after_commit results attempted
  after_commit true results attempted (some reason) =
      verify_after_apply
        (results ++ skip_unwritten (names_of deferred_changes) (codes "stopped because " ++ reason))
        attempted

  abbrev pub others : List (SectionChange V)
  others =
      keep (λ s. not (s.section == codes "security" || s.section == codes "default_channel"))
        plan.sections

  unfoldable pub needs_transaction : Bool
  unfolding same_name no_changes
  needs_transaction = not (same_name plan.name_change) || any (λ s. not (no_changes s)) others

  unfoldable pub defer_security : Bool
  unfolding needs_transaction section_of
  defer_security =
      needs_transaction && not (is_none (section_of (codes "security") plan.sections)) && reads_back

  -- The owner phase and the sections that are not held back, and the reason that stopped them.
  unfoldable pub body : Pass
  unfolding run_name_phase write_in_order defer_security
  body =
      let phase = run_name_phase device plan in
      let stop = if is_none phase.0 then none else some (codes "the owner (name) write failed") in
      let pass = write_in_order device (if defer_security then others else plan.sections) stop in
      record pass { results = listed phase.0 ++ pass.results; calls = phase.1 ++ pass.calls }

  unfoldable pub commit_failed : Text → Pass → ApplyOutcome
  unfolding stopped unconfirmed_after_failed_commit skip_unwritten deferred_changes defer_security
  commit_failed exc pass =
      let failure = verify_failed (codes "Could not commit the settings transaction: " ++ exc) in
      let results = pass.results ++ failure ∷ [] in
      stopped plan
        (results
          ++ (unconfirmed_after_failed_commit plan results pass.attempted
              ++ skip_unwritten (if defer_security then names_of deferred_changes else [])
                  (codes "stopped because the settings transaction could not be committed")))
        (mem (codes "security") pass.attempted)

  -- The commit, by what it gives, and the rest of the run.
  unfoldable pub commit_with :
      Option Text → Pass → ApplyOutcome × List Call → ApplyOutcome × List Call
  unfolding commit_failed
  commit_with (some exc) pass rest =
      (commit_failed exc pass, pass.calls ++ committed (some exc) ∷ [])
  commit_with none pass rest = after (pass.calls ++ committed none ∷ []) rest

  -- From the owner phase on.
  unfoldable pub write_and_verify : ApplyOutcome × List Call
  unfolding body commit_with after_commit defer_security
  write_and_verify =
      let pass = body in
      let rest = after_commit defer_security pass.results pass.attempted pass.stop_reason in
      if needs_transaction then commit_with device.commits pass rest else after pass.calls rest

  unfoldable pub owner_part : List Text
  owner_part = if same_name plan.name_change then [] else codes "owner" ∷ []

  -- The begin of the transaction, by what it gives, and the rest of the run.
  unfoldable pub begin_with : Option Text → ApplyOutcome × List Call → ApplyOutcome × List Call
  unfolding stopped skip_unwritten owner_part
  begin_with (some exc) rest = (
    stopped plan
        (verify_failed (codes "Could not begin a settings transaction: " ++ exc)
          ∷ skip_unwritten (owner_part ++ names_of plan.sections)
              (codes "could not begin a settings transaction"))
        false,
    began (some exc) ∷ [],
  )
  begin_with none rest = after (began none ∷ []) rest

  unfoldable pub run : ApplyOutcome × List Call
  unfolding write_and_verify begin_with needs_transaction
  run = if needs_transaction then begin_with device.begins write_and_verify else write_and_verify

  -- An outcome without a verification.
  abbrev pub unverified : List WriteResult → Bool → Option NodeRecord → ApplyOutcome
  unverified results dry_run row = record {
    node_id = plan.node_id;
    results = results;
    dry_run = dry_run;
    verified = false;
    public_key_fingerprint = none;
    row = row;
    security_attempted = false;
    previous_node_id = none;
  }

  -- The outcome and the calls, or the exception raised before any call.
  unfoldable pub apply_plan : Bool → Result ApplyError (ApplyOutcome × List Call)
  unfolding nothing_to_do to_record run owner_part
  apply_plan dry_run =
      let written = run in
      if plan.key_plan.regenerate && is_none keypair
      then err fresh_keypair_missing
      else if nothing_to_do plan
      then ok (
        unverified [] dry_run (
            if dry_run
            then none
            else some (
                to_record outside.text_of outside.default_role outside.default_region plan none
                  none)),
        [],
      )
      else if dry_run
      then ok (
        unverified
            (map (λ s. result s skipped (codes "dry run")) (owner_part ++ names_of plan.sections))
            true none,
        [],
      )
      else ok written
