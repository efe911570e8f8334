-- ===== src/Apply/Outcome.antt =====
-- src/meshprovision/provisioning/apply_session.py. When an apply run's outcome allows the database
-- to record it.
use native.Mathlib.Omega.{arith}
use meshprovision.Common.{◌≡◌, ◌↔◌, refl, true, false, not, List, [], ◌∷◌, keep, all, any, is_empty}
use meshprovision.Apply.{
  WriteResult, confirmed, unconfirmed, failed, skipped, write_ok, is_doubtful, ApplyOutcome,
  outcome_ok, uncertain, may_update_database, exit_code, failures,
}

is_doubtful-not : (r : WriteResult) → is_doubtful r ≡ not (write_ok r)
unfolding is_doubtful write_ok
is_doubtful-not r =
    elim r.status
      as (λ s.
        (elim s [ confirmed ↦ false | unconfirmed ↦ true | failed ↦ true | skipped ↦ false ])
        ≡ not
            (elim s [ confirmed ↦ true | unconfirmed ↦ false | failed ↦ false | skipped ↦ true ])) [
              | confirmed ↦ refl
              | unconfirmed ↦ refl
              | failed ↦ refl
              | skipped ↦ refl
            ]

pub any-is_doubtful : (rs : List WriteResult) → any is_doubtful rs ≡ not (all write_ok rs)
any-is_doubtful [] = refl
any-is_doubtful (r ∷ rs) = ground (arith, is_doubtful-not r, any-is_doubtful rs)

is_empty-failures :
    (rs : List WriteResult) → is_empty (keep (λ r. not (write_ok r)) rs) ≡ all write_ok rs
is_empty-failures [] = refl
is_empty-failures (r ∷ rs) = ground (arith, is_empty-failures rs)

-- An outcome is uncertain exactly when it is not ok, exactly when it lists failures, and exactly
-- when the command's exit code is not 0; the database may be updated exactly when the run was real
-- and its exit code is 0.
may_update_database_iff :
    (o : ApplyOutcome)
    → (uncertain o ≡ not (outcome_ok o))
      × (is_empty (failures o) ≡ outcome_ok o)
      × ((exit_code o ≡ 0) ↔ (outcome_ok o ≡ true))
      × ((may_update_database o ≡ true) ↔ ((exit_code o ≡ 0) × (o.dry_run ≡ false)))
unfolding uncertain outcome_ok failures exit_code may_update_database
may_update_database_iff o =
    let doubt = any-is_doubtful o.results in
    (doubt, is_empty-failures o.results, ground arith, ground (arith, doubt))
