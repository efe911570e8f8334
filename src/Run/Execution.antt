-- ===== src/Run/Execution.antt =====
-- src/meshprovision/provisioning/apply.py: a plan is written to a device and verified. The pauses and
-- the `on_reconnect` callback before a refresh are left out of the calls.
use meshprovision.Common.{
  ℕ, Bool, true, false, not, ◌&&◌, Option, none, some, List, [], ◌∷◌, ◌++◌, map, keep, is_empty,
  if◌then◌else◌, ◌==◌ as nat_eq, ok, err,
}
use meshprovision.Common.Text.{Text, codes}
use meshprovision.Common.Equality.{◌==◌, Text_eq, mem}
use meshprovision.NodeId.{NodeId, display, key_derived_id}
use meshprovision.Apply.{WriteStatus, unconfirmed, failed, skipped, WriteResult, ApplyOutcome}
use meshprovision.Run.{same_name, SectionChange, ChangePlan, KeyPair, LiveConfig}
use meshprovision.Run.Device.{
  OwnerCall, Sent, owner_set, owner_exited, owner_failed, sent, refused_before, write_failed,
  RefreshFailure, Device, Call, named, wrote,
}

-- PlanConflictError, of a plan that needs a keypair and is given none.
pub data ApplyError : Type 0 where
  fresh_keypair_missing : ApplyError

abbrev pub result : Text → WriteStatus → Text → WriteResult
result section status message = record {
  section = section;
  status = status;
  message = message;
  field = none;
  expected = none;
  actual = none;
}

abbrev pub verify_failed : Text → WriteResult
verify_failed message = result (codes "<verify>") failed message

unfoldable pub backend_error_detail : RefreshFailure → Text
backend_error_detail e = elim e.hint [
  | none ↦ e.message
  | some hint ↦
      if is_empty hint then e.message else e.message ++ (codes " (hint: " ++ (hint ++ codes ")"))
]

unfoldable pub skip_unwritten : List Text → Text → List WriteResult
skip_unwritten sections reason =
    map (λ s. result s skipped (codes "not written: " ++ reason)) sections

-- What the first result of the owner's field that says what the device holds says.
unfoldable pub confirmed_name : Text → List WriteResult → Option Text
confirmed_name field [] = none
confirmed_name field (r ∷ results) =
    let rest = confirmed_name field results in
    elim r.field [
      | none ↦ rest
      | some f ↦ elim r.actual [
        | none ↦ rest
        | some actual ↦ if r.section == codes "owner" && f == field then some actual else rest
      ]
    ]

-- What a pass over sections leaves: its results, the sections that were sent, why it stopped, and its calls.
pub record Pass : Type 0 where
  pub results : List WriteResult
  pub attempted : List Text
  pub stop_reason : Option Text
  pub calls : List Call

-- What the write of a section adds to the pass over the rest, which goes on or stops for a reason. A
-- section that is refused is recorded as a call, though it sent nothing.
unfoldable pub add_answer : Text → Sent → Pass → (Text → Pass) → Pass
add_answer section sent rest stopped_rest = record rest {
  attempted = section ∷ rest.attempted;
  calls = wrote section sent ∷ rest.calls;
}
add_answer section (refused_before exc) rest stopped_rest =
    let skipped_rest = stopped_rest (section ++ codes " could not be written") in
    record skipped_rest {
      results = result section failed (codes "not written: " ++ exc) ∷ skipped_rest.results;
      calls = wrote section (refused_before exc) ∷ skipped_rest.calls;
    }
add_answer section (write_failed exc) rest stopped_rest =
    let skipped_rest = stopped_rest (codes "the " ++ (section ++ codes " write failed")) in
    record {
      results =
          result section failed (exc ++ codes " (the device may or may not have applied it)")
          ∷ skipped_rest.results;
      attempted = section ∷ skipped_rest.attempted;
      stop_reason = skipped_rest.stop_reason;
      calls = wrote section (write_failed exc) ∷ skipped_rest.calls;
    }

unfoldable pub name_answer : OwnerCall → Option WriteResult × List Call
name_answer owner_set = (none, named owner_set ∷ [])
name_answer owner_exited = (
  some (
      result (codes "owner") failed
        (codes "Failed to set owner: the device library refused an empty or whitespace-only name")),
  named owner_exited ∷ [],
)
name_answer (owner_failed exc) = (
  some (result (codes "owner") failed (codes "Failed to set owner: " ++ exc)),
  named (owner_failed exc) ∷ [],
)

module _ {V : Type 0} (device : Device V) where
  -- The failure of the owner phase, if any, and its calls.
  unfoldable pub run_name_phase : ChangePlan V → Option WriteResult × List Call
  unfolding name_answer
  run_name_phase plan = if same_name plan.name_change then (none, []) else name_answer device.owner

  unfoldable pub write_in_order : List (SectionChange V) → Option Text → Pass
  unfolding skip_unwritten add_answer
  write_in_order [] stop = record { results = []; attempted = []; stop_reason = stop; calls = [] }
  write_in_order (s ∷ changes) (some reason) =
      let rest = write_in_order changes (some reason) in
      record rest {
        results =
            skip_unwritten (s.section ∷ []) (codes "stopped because " ++ reason) ++ rest.results;
      }
  write_in_order (s ∷ changes) none =
      add_answer s.section (device.write s.section) (write_in_order changes none)
        (λ reason. write_in_order changes (some reason))

module _ {V : Type 0} where
  unfoldable pub unconfirmed_after_failed_commit :
      ChangePlan V → List WriteResult → List Text → List WriteResult
  unconfirmed_after_failed_commit plan results attempted =
      let written = (if same_name plan.name_change then [] else codes "owner" ∷ []) ++ attempted in
      map
        (λ s. result s unconfirmed (
          if s == codes "default_channel"
          then codes "sent outside the settings transaction; not verified because the commit failed"
          else codes
              "sent inside the settings transaction, but the commit failed; the device may or may not have saved it"))
        (keep (λ s. not (mem s (map (λ r. r.section) results))) written)

  unfoldable pub stopped : ChangePlan V → List WriteResult → Bool → ApplyOutcome
  stopped plan results security_attempted = record {
    node_id = plan.node_id;
    results = results;
    dry_run = false;
    verified = true;
    public_key_fingerprint = none;
    row = none;
    security_attempted = security_attempted;
    previous_node_id = none;
  }

  unfoldable pub identity_mismatch : ChangePlan V → NodeId → WriteResult
  identity_mismatch plan got = verify_failed (
      codes "reconnected to a different node ("
      ++ (display got
          ++ (codes ") than this plan was built for ("
              ++ (display plan.node_id ++ codes "); stopped"))))

  unfoldable pub holds_our_new_key : ChangePlan V → LiveConfig V → Option KeyPair → Bool
  holds_our_new_key plan live_after none = false
  holds_our_new_key plan live_after (some keypair) = elim live_after.private_key [
    | none ↦ false
    | some private_key ↦ plan.key_plan.regenerate && private_key == keypair.private
  ]

module _ (crc32 : List ℕ → ℕ) where
  -- `key_derived_id` of a pair's public key, which has the right length.
  unfoldable pub derived_id_is : KeyPair → NodeId → Bool
  derived_id_is keypair node = elim (key_derived_id crc32 keypair.public) [
    | err e ↦ false
    | ok derived ↦ nat_eq node.num derived.num
  ]

  unfoldable pub derived_display : KeyPair → Text
  derived_display keypair = elim (key_derived_id crc32 keypair.public) [
    | err e ↦ []
    | ok derived ↦ display derived
  ]

  module _ {V : Type 0} where
    unfoldable pub proven_renumber : ChangePlan V → LiveConfig V → Option KeyPair → Bool
    unfolding holds_our_new_key derived_id_is
    proven_renumber plan live_after none = false
    proven_renumber plan live_after (some keypair) =
        holds_our_new_key plan live_after (some keypair) && derived_id_is keypair live_after.node_id

    unfoldable pub possible_node_renumber :
        ChangePlan V → LiveConfig V → Option KeyPair → Option WriteResult
    unfolding holds_our_new_key derived_display
    possible_node_renumber plan live_after none = none
    possible_node_renumber plan live_after (some keypair) =
        if not (holds_our_new_key plan live_after (some keypair))
        then none
        else some (
            verify_failed (
              codes "the device now reports node "
              ++ (display live_after.node_id
                  ++ (codes
                        " but holds the keypair this run generated. Its node number appears to have changed, but not to "
                      ++ (derived_display keypair
                          ++ codes
                              ", the id firmware 2.8+ derives from that key; stopped; the database was NOT updated")))))
