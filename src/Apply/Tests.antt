-- ===== src/Apply/Tests.antt =====
-- An apply outcome and a refresh at concrete values.
use native.Mathlib.Omega.{arith}
use meshprovision.Common.{
  ℕ, zero, suc, ◌≤◌, ◌<◌, ◌≡◌, refl, true, false, none, some, [], ◌∷◌, ◌++◌, Result, ok, err,
}
use meshprovision.Common.Text.{codes}
use meshprovision.Apply.{
  WriteStatus, confirmed, unconfirmed, WriteResult, ApplyOutcome, BackendError, connection_failed,
  other_backend_error, Session, refresh,
}
use meshprovision.Apply.Reconnecting.{refresh-ok, with_iface, opening, pauses}

abbrev written : WriteStatus → WriteResult
written status = record {
  section = codes "security";
  status = status;
  message = [];
  field = none;
  expected = none;
  actual = none;
}

abbrev half_written : ApplyOutcome
half_written = record {
  node_id = record { num = 48879 };
  results = written confirmed ∷ written unconfirmed ∷ [];
  dry_run = false;
  verified = true;
  public_key_fingerprint = none;
  row = none;
  security_attempted = true;
  previous_node_id = none;
}

-- The device comes back at the third attempt; an interface is a number.
abbrev third_time : ℕ → Result BackendError ℕ
third_time zero = err (connection_failed [])
third_time (suc zero) = err (connection_failed [])
third_time (suc (suc zero)) = err (other_backend_error [])
third_time (suc (suc (suc n))) = ok n

abbrev never : ℕ → Result BackendError ℕ
never n = err (other_backend_error [])

abbrev session : Session ℕ
session = record { iface = some 9; settle_seconds = 5; attempts = 3 }

two_failures : (j : ℕ) → 1 ≤ j → j < 3 → (e : BackendError) × (third_time j ≡ err e)
two_failures zero lo hi = absurd (omega arith)
two_failures (suc zero) lo hi = (connection_failed [], refl)
two_failures (suc (suc zero)) lo hi = (other_backend_error [], refl)
two_failures (suc (suc (suc j))) lo hi = absurd (omega arith)

refresh-ok_example : refresh third_time session ≡ (
  with_iface third_time session (some 0),
  (ok 0, opening third_time session ++ pauses third_time 1 2),
)
refresh-ok_example = refresh-ok third_time session 2 0 (omega arith) two_failures refl
