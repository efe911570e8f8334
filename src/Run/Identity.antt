-- ===== src/Run/Identity.antt =====
-- src/meshprovision/provisioning/apply.py, `_verify_after_apply`: whose row an outcome carries.
use meshprovision.Common.{
  ◌≡◌, ◌≢◌, refl, Bool, true, false, not, ◌&&◌, ◌||◌, Option, none, some, List, if◌then◌else◌,
  Bool-cases, ◌⊎◌, inl, inr, ok,
}
use meshprovision.Common.Text.{Text}
use meshprovision.NodeId.{NodeId}
use meshprovision.Db.{NodeRecord}
use meshprovision.Apply.{WriteResult, ApplyOutcome, uncertain, outcome_ok}
use meshprovision.Run.{ChangePlan, KeyPair, LiveConfig}
use meshprovision.Run.Readback.{DeviceKey}
use meshprovision.Run.Device.{Device}
use meshprovision.Run.Execution.{stopped, proven_renumber}
use meshprovision.Run.Outcomes.{run_holds}
use meshprovision.Run.ApplyPlan.{Outside, is_none, id_eq, with_row, verified_outcome, judged, run}

module _ {V : Type 0} (outside : Outside V) (device : Device V) (plan : ChangePlan V)
    (keypair : Option KeyPair) where
  -- The outcome is of the plan's own id, or of the id that the node's new key gave it.
  abbrev pub IsSameNode : ApplyOutcome → NodeId → Bool → Type 0
  IsSameNode o live_id proven =
      ((id_eq live_id plan.node_id ≡ true)
        × (o.node_id ≡ plan.node_id)
        × (o.previous_node_id ≡ none))
      ⊎ ((proven ≡ true) × (o.node_id ≡ live_id) × (o.previous_node_id ≡ some plan.node_id))

  abbrev pub IsIdentified : ApplyOutcome → Type 0
  IsIdentified o =
      is_none o.row ≡ false
      → (live : LiveConfig V × DeviceKey) × (device.read_back ≡ ok live)
        × IsSameNode o live.0.node_id (proven_renumber outside.crc32 plan live.0 keypair)

with_row-node_id :
    (o : ApplyOutcome) (fingerprint : Option Text) (row : NodeRecord)
    → ((with_row o fingerprint row).node_id ≡ o.node_id)
      × ((with_row o fingerprint row).previous_node_id ≡ o.previous_node_id)
unfolding with_row
with_row-node_id o fingerprint row = elim (Bool-cases (uncertain o || not (outcome_ok o))) [
  | inl doubt ↦ rw doubt ((refl, refl))
  | inr certain ↦ rw certain ((refl, refl))
]

module _ {V : Type 0} (outside : Outside V) (device : Device V) (plan : ChangePlan V)
    (reads_back : Bool) (keypair : Option KeyPair) where
  verified_outcome-node_id :
      (results : List WriteResult) (security_attempted : Bool) (live_after : LiveConfig V)
      → (let same =
            verified_outcome outside device plan reads_back keypair results security_attempted
              live_after false in
          (same.node_id ≡ plan.node_id) × (same.previous_node_id ≡ none))
        × (let moved =
              verified_outcome outside device plan reads_back keypair results security_attempted
                live_after true in
            (moved.node_id ≡ live_after.node_id) × (moved.previous_node_id ≡ some plan.node_id))
  unfolding verified_outcome stopped
  verified_outcome-node_id results security_attempted live_after =
      (with_row-node_id _ _ _, with_row-node_id _ _ _)

  judged_identity :
      (c proven : Bool) (live_after : LiveConfig V) (prior results : List WriteResult) (sa : Bool)
      → id_eq live_after.node_id plan.node_id ≡ c
      → let o =
          if not c && not (not c && proven)
          then stopped plan prior sa
          else verified_outcome outside device plan reads_back keypair results sa live_after
              (not c && proven) in
        is_none o.row ≡ false → IsSameNode outside device plan keypair o live_after.node_id proven
  unfolding stopped
  judged_identity true proven live_after prior results sa e h = inl (
      (
        e,
        (verified_outcome-node_id results sa live_after).0.0,
        (verified_outcome-node_id results sa live_after).0.1,
      ))
  judged_identity false true live_after prior results sa e h = inr (
      (
        refl,
        (verified_outcome-node_id results sa live_after).1.0,
        (verified_outcome-node_id results sa live_after).1.1,
      ))
  judged_identity false false live_after prior results sa e h = cc

  no_row : (results : List WriteResult) (sa : Bool) → is_none (stopped plan results sa).row ≢ false
  unfolding stopped
  no_row results sa h = cc

  -- A run whose outcome carries a row has read the device back; the device has the plan's id, or is
  -- proven to be the same node under the id that its new key gives it, and the outcome says which.
  pub run-row_identity :
      let o = (run outside device plan reads_back keypair).0 in
      is_none o.row ≡ false
      → (live : LiveConfig V × DeviceKey) × (device.read_back ≡ ok live)
        × IsSameNode outside device plan keypair o live.0.node_id
            (proven_renumber outside.crc32 plan live.0 keypair)
  unfolding judged
  run-row_identity =
      run_holds outside device plan reads_back keypair (IsIdentified outside device plan keypair)
        (λ results sa doubt h. absurd (no_row results sa h))
        (λ prior attempted live e h. (
          live,
          e,
          judged_identity (id_eq live.0.node_id plan.node_id)
              (proven_renumber outside.crc32 plan live.0 keypair) live.0 _ _ _ refl h,
        ))
