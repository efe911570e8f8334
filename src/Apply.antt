-- ===== src/Apply.antt =====
-- src/meshprovision/provisioning/apply_session.py: the outcome of an apply run, and the session
-- that reconnects to a device between its writes.
pub mod Outcome
pub mod Reconnecting
mod Tests
use native.Mathlib.Omega.{arith}
use meshprovision.Common.{
  ℕ, zero, suc, ◌+◌, ◌*◌, Bool, true, false, not, ◌&&◌, ◌||◌, Option, none, some, List, [], ◌∷◌,
  ◌++◌, keep, all, any, ltb, if◌then◌else◌, Result, ok, err,
}
use meshprovision.Common.Text.{Text}
use meshprovision.NodeId.{NodeId}
use meshprovision.Db.{NodeRecord}

pub data WriteStatus : Type 0 where
  confirmed unconfirmed failed skipped : WriteStatus

pub record WriteResult : Type 0 where
  pub section : Text
  pub status : WriteStatus
  pub message : Text
  pub field : Option Text
  pub expected : Option Text
  pub actual : Option Text

-- `ok` of a write result.
unfoldable pub write_ok : WriteResult → Bool
write_ok r = elim r.status [
  | confirmed ↦ true
  | unconfirmed ↦ false
  | failed ↦ false
  | skipped ↦ true
]

-- The status is UNCONFIRMED or FAILED.
unfoldable pub is_doubtful : WriteResult → Bool
is_doubtful r = elim r.status [
  | confirmed ↦ false
  | unconfirmed ↦ true
  | failed ↦ true
  | skipped ↦ false
]

-- `row` is the field `record`.
pub record ApplyOutcome : Type 0 where
  pub node_id : NodeId
  pub results : List WriteResult
  pub dry_run : Bool
  pub verified : Bool
  pub public_key_fingerprint : Option Text
  pub row : Option NodeRecord
  pub security_attempted : Bool
  pub previous_node_id : Option NodeId

-- `ok` of an outcome.
unfoldable pub outcome_ok : ApplyOutcome → Bool
outcome_ok o = all write_ok o.results

unfoldable pub uncertain : ApplyOutcome → Bool
uncertain o = any is_doubtful o.results

unfoldable pub may_update_database : ApplyOutcome → Bool
unfolding uncertain outcome_ok
may_update_database o = not (uncertain o) && outcome_ok o && not o.dry_run

-- `ExitCode.OK` is 0, `ExitCode.PROVISIONING` is 5.
unfoldable pub exit_code : ApplyOutcome → ℕ
exit_code o = if outcome_ok o then 0 else 5

unfoldable pub failures : ApplyOutcome → List WriteResult
failures o = keep (λ r. not (write_ok r)) o.results

-- What a session does to the world, in order.
pub data Event (I : Type 0) : Type 0 where
  closed : I → Event I
  slept : ℕ → Event I

-- The exceptions of a backend: `ConnectionFailedError`, or another `ConnectionBackendError`.
pub data BackendError : Type 0 where
  connection_failed other_backend_error : Text → BackendError

pub data RefreshError : Type 0 where
  last_error : BackendError → RefreshError
  assertion_failed : RefreshError

-- `last_error` as it is kept: always a ConnectionFailedError.
unfoldable pub as_connection_failed : BackendError → BackendError
as_connection_failed (connection_failed message) = connection_failed message
as_connection_failed (other_backend_error message) = connection_failed message

pub record Session (I : Type 0) : Type 0 where
  pub iface : Option I
  pub settle_seconds : ℕ
  pub attempts : ℕ

abbrev pub reconnect_backoff : ℕ
reconnect_backoff = 2

-- The backend: what its n-th connection attempt of this refresh gives.
module _ {I : Type 0} (connect : ℕ → Result BackendError I) where
  -- The `for attempt in range(…)` loop with `remaining` rounds left, and the raise after it.
  unfoldable pub retry : ℕ → ℕ → ℕ → Option BackendError → Result RefreshError I × List (Event I)
  retry attempts zero attempt none = (err assertion_failed, [])
  retry attempts zero attempt (some e) = (err (last_error e), [])
  retry attempts (suc remaining) attempt last = elim (connect attempt) [
    | ok iface ↦ (ok iface, [])
    | err e ↦
        let rest = retry attempts remaining (attempt + 1) (some (as_connection_failed e)) in
        (
          rest.0,
          if ltb attempt attempts then slept (reconnect_backoff * attempt) ∷ rest.1 else rest.1,
        )
  ]

  unfoldable pub iface_after : Result RefreshError I → Option I
  iface_after (ok iface) = some iface
  iface_after (err e) = none

  -- The session afterwards, what is returned or raised, and the events.
  unfoldable pub refresh : Session I → Session I × (Result RefreshError I × List (Event I))
  unfolding retry iface_after
  refresh session =
      let tried = retry session.attempts session.attempts 1 none in
      (
        record {
          iface = iface_after tried.0;
          settle_seconds = session.settle_seconds;
          attempts = session.attempts;
        },
        (
          tried.0,
          elim session.iface [ none ↦ [] | some old ↦ closed old ∷ [] ]
              ++ (slept session.settle_seconds ∷ tried.1),
        ),
      )
