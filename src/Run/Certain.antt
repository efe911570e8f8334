-- ===== src/Run/Certain.antt =====
-- src/meshprovision/provisioning/apply.py, `apply_plan`: which outcomes carry a row for the database.
use native.Mathlib.Omega.{arith}
use meshprovision.Common.{
  ℕ, ◌≡◌, refl, subst, Bool, true, false, not, ◌&&◌, Option, none, some, List, [], ◌++◌, all, any,
  if◌then◌else◌, Bool-cases, inl, inr, Result, ok, err,
}
use meshprovision.Common.Text.{Text, codes}
use meshprovision.Common.Equality.{mem, Text_eq}
use meshprovision.Db.{NodeRecord}
use meshprovision.Apply.{
  WriteResult, ApplyOutcome, outcome_ok, uncertain, may_update_database, is_doubtful, write_ok,
}
use meshprovision.Apply.Outcome.{any-is_doubtful}
use meshprovision.Run.{ChangePlan, KeyPair, LiveConfig, nothing_to_do}
use meshprovision.Run.Record.{or_else}
use meshprovision.Run.Readback.{DeviceKey, verify_plan}
use meshprovision.Run.Device.{Device, Call}
use meshprovision.Run.Execution.{
  holds_our_new_key, proven_renumber, possible_node_renumber, identity_mismatch, stopped,
  ApplyError, fresh_keypair_missing,
}
use meshprovision.Run.Outcomes.{run_holds, doubt_in_middle}
use meshprovision.Run.ApplyPlan.{
  Outside, id_eq, is_none, with_row, verified_outcome, judged, run, apply_plan, unverified,
}

-- The outcome carries a row exactly when the database may be updated.
abbrev pub IsCertain : ApplyOutcome → Type 0
IsCertain o = may_update_database o ≡ not (is_none o.row)

with_row-IsCertain :
    (o : ApplyOutcome) (fingerprint : Option Text) (row : NodeRecord)
    → o.row ≡ none
    → o.dry_run ≡ false
    → IsCertain (with_row o fingerprint row)
unfolding with_row may_update_database uncertain outcome_ok
with_row-IsCertain o fingerprint row no_row real =
    let same = any-is_doubtful o.results in
    elim (Bool-cases (all write_ok o.results)) [
      | inl fine ↦ rw (same, fine, real) (rw (same, fine) refl)
      | inr doubt ↦ rw (same, doubt, real, no_row) (rw (same, doubt) refl)
    ]

-- What is said of a device with another id.
other_device-is_doubtful :
    {V : Type 0} (crc32 : List ℕ → ℕ) (plan : ChangePlan V) (live_after : LiveConfig V)
    (keypair : Option KeyPair)
    → is_doubtful (
        or_else
          (possible_node_renumber crc32 plan live_after keypair)
          (identity_mismatch plan live_after.node_id))
      ≡ true
unfolding is_doubtful or_else possible_node_renumber identity_mismatch
other_device-is_doubtful crc32 plan live_after none = refl
other_device-is_doubtful crc32 plan live_after (some keypair) =
    elim (Bool-cases (holds_our_new_key plan live_after (some keypair))) [
      | inl ours ↦ rw (ours, possible_node_renumber) refl
      | inr other ↦ rw (other, possible_node_renumber) refl
    ]

either_outcome :
    (c : Bool) (a b : ApplyOutcome) → IsCertain a → IsCertain b → IsCertain (if c then a else b)
either_outcome true a b p q = p
either_outcome false a b p q = q

module _ {V : Type 0} (outside : Outside V) (device : Device V) (plan : ChangePlan V)
    (reads_back : Bool) (keypair : Option KeyPair) where
  stopped-IsCertain :
      (results : List WriteResult) (security_attempted : Bool)
      → any is_doubtful results ≡ true
      → IsCertain (stopped plan results security_attempted)
  unfolding stopped may_update_database uncertain
  stopped-IsCertain results security_attempted h = rw h refl

  verified_outcome-IsCertain :
      (results : List WriteResult) (security_attempted : Bool) (live_after : LiveConfig V)
      (renumbered : Bool)
      → IsCertain (
          verified_outcome outside device plan reads_back keypair results security_attempted
            live_after renumbered)
  unfolding verified_outcome stopped
  verified_outcome-IsCertain results security_attempted live_after true =
      with_row-IsCertain _ _ _ refl refl
  verified_outcome-IsCertain results security_attempted live_after false =
      with_row-IsCertain _ _ _ refl refl

  judged-IsCertain :
      (prior : List WriteResult) (attempted : List Text) (live_after : LiveConfig V)
      (device_pub : DeviceKey)
      → IsCertain
          (judged outside device plan reads_back keypair prior attempted live_after device_pub)
  unfolding judged
  judged-IsCertain prior attempted live_after device_pub =
      either_outcome _ _ _
        (stopped-IsCertain _ _ (
          doubt_in_middle prior _ []
            (other_device-is_doubtful outside.crc32 plan live_after keypair)))
        (verified_outcome-IsCertain
          (prior
            ++ verify_plan outside.same outside.text_of outside.fingerprint outside.decode_key plan
                live_after keypair device_pub attempted reads_back)
          (mem (codes "security") attempted) live_after
          (not (id_eq live_after.node_id plan.node_id)
            && proven_renumber outside.crc32 plan live_after keypair))

  run-IsCertain : IsCertain (run outside device plan reads_back keypair).0
  run-IsCertain =
      run_holds outside device plan reads_back keypair IsCertain stopped-IsCertain
        (λ prior attempted live h. judged-IsCertain prior attempted live.0 live.1)

  written_nothing-IsCertain :
      (dry_run : Bool) (row : NodeRecord)
      → IsCertain (
          unverified outside device plan reads_back keypair [] dry_run
            (if dry_run then none else some row))
  unfolding may_update_database uncertain outcome_ok
  written_nothing-IsCertain true row = refl
  written_nothing-IsCertain false row = refl

  dry_run-IsCertain :
      (results : List WriteResult)
      → IsCertain (unverified outside device plan reads_back keypair results true none)
  unfolding may_update_database uncertain outcome_ok
  dry_run-IsCertain results = ground arith

ok_eq :
    {a b : ApplyOutcome × List Call}
    → Path (Result ApplyError (ApplyOutcome × List Call)) (ok a) (ok b)
    → a ≡ b
ok_eq h = cc

chosen :
    (missing nothing dry_run : Bool) (a b c r : ApplyOutcome × List Call)
    → IsCertain a.0
    → IsCertain b.0
    → IsCertain c.0
    → (if missing
        then err fresh_keypair_missing
        else if nothing
        then ok a
        else if dry_run
        then ok b
        else ok c)
      ≡ ok r
    → IsCertain r.0
chosen true nothing dry_run a b c r p q s h = cc
chosen false true dry_run a b c r p q s h =
    subst (λ (x : ApplyOutcome × List Call). IsCertain x.0) (ok_eq h) p
chosen false false true a b c r p q s h =
    subst (λ (x : ApplyOutcome × List Call). IsCertain x.0) (ok_eq h) q
chosen false false false a b c r p q s h =
    subst (λ (x : ApplyOutcome × List Call). IsCertain x.0) (ok_eq h) s

-- Whatever the device answers, an outcome carries a row for the database exactly when its verdict is
-- that the database may be updated.
pub apply_plan-row_iff :
    {V : Type 0} (outside : Outside V) (device : Device V) (plan : ChangePlan V) (reads_back : Bool)
    (keypair : Option KeyPair) (dry_run : Bool) (r : ApplyOutcome × List Call)
    → apply_plan outside device plan reads_back keypair dry_run ≡ ok r
    → may_update_database r.0 ≡ not (is_none r.0.row)
unfolding apply_plan
apply_plan-row_iff outside device plan reads_back keypair dry_run r h =
    chosen (plan.key_plan.regenerate && is_none keypair) (nothing_to_do plan) dry_run _ _ _ r
      (written_nothing-IsCertain outside device plan reads_back keypair dry_run _)
      (dry_run-IsCertain outside device plan reads_back keypair _)
      (run-IsCertain outside device plan reads_back keypair) h
