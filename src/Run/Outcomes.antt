-- ===== src/Run/Outcomes.antt =====
-- src/meshprovision/provisioning/apply.py, `apply_plan`: a property of outcomes that holds where a run
-- stops, and where it judges what it read back, holds however the run goes.
use native.Mathlib.Omega.{arith}
use meshprovision.Common.{
  ◌≡◌, refl, sym, Bool, true, false, not, Option, none, some, List, [], ◌∷◌, ◌++◌, any,
  if◌then◌else◌, Result, ok, err,
}
use meshprovision.Common.Text.{Text, codes}
use meshprovision.Common.Equality.{Text_eq}
use meshprovision.NodeId.{NodeId}
use meshprovision.Apply.{WriteResult, ApplyOutcome, is_doubtful}
use meshprovision.Run.{ChangePlan, KeyPair, LiveConfig}
use meshprovision.Run.Readback.{DeviceKey}
use meshprovision.Run.Device.{RefreshFailure, Device, Call}
use meshprovision.Run.Execution.{verify_failed, identity_mismatch, stopped, write_in_order, Pass}
use meshprovision.Run.ApplyPlan.{
  Outside, id_eq, after, judged, verify_after_apply, write_deferred, after_commit, commit_failed,
  write_and_verify, verify_with, reconnect_with, commit_with, begin_with, deferred_changes, give_up,
  run, defer_security, needs_transaction, body,
}

pub doubt_in_middle :
    (before : List WriteResult) (r : WriteResult) (after : List WriteResult)
    → is_doubtful r ≡ true
    → any is_doubtful (before ++ r ∷ after) ≡ true
doubt_in_middle [] r after h = rw h refl
doubt_in_middle (x ∷ before) r after h = rw (doubt_in_middle before r after h) (ground arith)

any_left :
    (xs ys : List WriteResult) → any is_doubtful xs ≡ true → any is_doubtful (xs ++ ys) ≡ true
any_left [] ys h = cc
any_left (x ∷ xs) ys h = ground (arith, any_left xs ys)

pub verify_failed-is_doubtful : (message : Text) → is_doubtful (verify_failed message) ≡ true
unfolding is_doubtful
verify_failed-is_doubtful message = refl

module _ {V : Type 0} (outside : Outside V) (device : Device V) (plan : ChangePlan V)
    (reads_back : Bool) (keypair : Option KeyPair) (P : ApplyOutcome → Type 0)
    (stopped_holds : (results : List WriteResult) (security_attempted : Bool)
      → any is_doubtful results ≡ true
      → P (stopped plan results security_attempted))
    (judged_holds : (prior : List WriteResult) (attempted : List Text)
        (live : LiveConfig V × DeviceKey)
      → device.read_back ≡ ok live
      → P (judged outside device plan reads_back keypair prior attempted live.0 live.1)) where
  either_run :
      (c : Bool) (a b : ApplyOutcome × List Call) → P a.0 → P b.0 → P (if c then a else b).0
  either_run true a b p q = p
  either_run false a b p q = q

  failed_holds :
      (before after : List WriteResult) (message : Text) (security_attempted : Bool)
      → P (stopped plan (before ++ verify_failed message ∷ after) security_attempted)
  failed_holds before after message security_attempted =
      stopped_holds (before ++ verify_failed message ∷ after) security_attempted
        (doubt_in_middle before (verify_failed message) after (verify_failed-is_doubtful message))

  verify_with_holds :
      (back : Option RefreshFailure) (answer : Result Text (LiveConfig V × DeviceKey))
      (prior : List WriteResult) (attempted : List Text)
      → answer ≡ device.read_back
      → P (verify_with outside device plan reads_back keypair back answer prior attempted).0
  unfolding verify_with
  verify_with_holds (some exc) answer prior attempted h = failed_holds prior [] _ _
  verify_with_holds none (err exc) prior attempted h = failed_holds prior [] _ _
  verify_with_holds none (ok live) prior attempted h = judged_holds prior attempted live (sym h)

  verify_after_apply_holds :
      (prior : List WriteResult) (attempted : List Text)
      → P (verify_after_apply outside device plan reads_back keypair prior attempted).0
  unfolding verify_after_apply
  verify_after_apply_holds prior attempted =
      verify_with_holds device.refresh_to_verify device.read_back prior attempted refl

  write_deferred_holds :
      (results : List WriteResult) (attempted : List Text) (got : NodeId)
      → P (write_deferred outside device plan reads_back keypair results attempted got).0
  unfolding write_deferred identity_mismatch
  write_deferred_holds results attempted got =
      let deferred = deferred_changes outside device plan reads_back keypair in
      let pass = write_in_order device deferred none in
      let rest =
        verify_after_apply outside device plan reads_back keypair (results ++ pass.results)
          (attempted ++ pass.attempted) in
      either_run (not (id_eq got plan.node_id))
        (
          give_up outside device plan reads_back keypair results (identity_mismatch plan got)
              (codes "stopped after reconnecting to a different node"),
          [],
        )
        (after pass.calls rest) (failed_holds results _ _ false)
        (verify_after_apply_holds (results ++ pass.results) (attempted ++ pass.attempted))

  reconnect_with_holds :
      (back : Option RefreshFailure) (answer : Result Text NodeId) (results : List WriteResult)
      (attempted : List Text)
      → P (reconnect_with outside device plan reads_back keypair back answer results attempted).0
  unfolding reconnect_with
  reconnect_with_holds (some exc) answer results attempted = failed_holds results _ _ false
  reconnect_with_holds none (err exc) results attempted = failed_holds results _ _ false
  reconnect_with_holds none (ok got) results attempted = write_deferred_holds results attempted got

  after_commit_holds :
      (defer : Bool) (results : List WriteResult) (attempted : List Text) (stop : Option Text)
      → P (after_commit outside device plan reads_back keypair defer results attempted stop).0
  unfolding after_commit
  after_commit_holds false results attempted stop = verify_after_apply_holds results attempted
  after_commit_holds true results attempted none =
      reconnect_with_holds device.refresh_after_commit device.node_id_after_commit results attempted
  after_commit_holds true results attempted (some reason) = verify_after_apply_holds _ attempted

  commit_with_holds :
      (answer : Option Text) (pass : Pass) (rest : ApplyOutcome × List Call)
      → P rest.0
      → P (commit_with outside device plan reads_back keypair answer pass rest).0
  unfolding commit_with commit_failed
  commit_with_holds none pass rest h = h
  commit_with_holds (some exc) pass rest h = stopped_holds _ _ (
      any_left
        (pass.results
          ++ verify_failed (codes "Could not commit the settings transaction: " ++ exc) ∷ [])
        _ (doubt_in_middle pass.results _ [] (verify_failed-is_doubtful _)))

  write_and_verify_holds : P (write_and_verify outside device plan reads_back keypair).0
  unfolding write_and_verify
  write_and_verify_holds =
      let pass = body outside device plan reads_back keypair in
      let defer = defer_security outside device plan reads_back keypair in
      let rest =
        after_commit outside device plan reads_back keypair defer pass.results pass.attempted
          pass.stop_reason in
      let certain = after_commit_holds defer pass.results pass.attempted pass.stop_reason in
      either_run (needs_transaction outside device plan reads_back keypair)
        (commit_with outside device plan reads_back keypair device.commits pass rest)
        (after pass.calls rest) (commit_with_holds device.commits pass rest certain) certain

  begin_with_holds :
      (answer : Option Text) (rest : ApplyOutcome × List Call)
      → P rest.0
      → P (begin_with outside device plan reads_back keypair answer rest).0
  unfolding begin_with
  begin_with_holds none rest h = h
  begin_with_holds (some exc) rest h = failed_holds [] _ _ false

  pub run_holds : P (run outside device plan reads_back keypair).0
  unfolding run
  run_holds =
      let rest = write_and_verify outside device plan reads_back keypair in
      either_run (needs_transaction outside device plan reads_back keypair)
        (begin_with outside device plan reads_back keypair device.begins rest) rest
        (begin_with_holds device.begins rest write_and_verify_holds) write_and_verify_holds
