-- ===== src/Run/Ordering.antt =====
-- src/meshprovision/provisioning/apply.py, `apply_plan`: the order of a run's calls, as a state machine.
pub mod Runs
use native.Mathlib.Omega.{arith}
use meshprovision.Common.{
  ℕ, ◌≡◌, refl, ◌∙◌, ap, sym, subst, Bool, true, false, not, ◌&&◌, ◌||◌, Option, none, some, List,
  [], ◌∷◌, ◌++◌, all, keep, if◌then◌else◌, Bool-cases, Option-cases, ◌⊎◌, inl, inr, Result, ok, err,
}
use meshprovision.Common.Text.{Text, codes}
use meshprovision.Common.Equality.{◌==◌, Text_eq}
use meshprovision.NodeId.{NodeId}
use meshprovision.Apply.{ApplyOutcome, WriteResult}
use meshprovision.Run.{SectionChange, ChangePlan, KeyPair, LiveConfig, same_name, section_of}
use meshprovision.Run.Readback.{DeviceKey}
use meshprovision.Run.Device.{
  OwnerCall, owner_set, owner_exited, owner_failed, Sent, sent, refused_before, write_failed,
  RefreshFailure, Device, Call, began, named, wrote, committed, refreshed, asked_node_id,
  asked_config,
}
use meshprovision.Run.Execution.{Pass, name_answer, add_answer, write_in_order, run_name_phase}
use meshprovision.Run.ApplyPlan.{
  Outside, id_eq, is_none, after, verify_with, verify_after_apply, write_deferred, reconnect_with,
  after_commit, commit_with, begin_with, needs_transaction, defer_security, deferred_changes,
  others, body, write_and_verify, run,
}

-- Where a run stands: before its transaction, outside any, in one, in one after a failure or a refusal,
-- after the commit, back on the device, known to be on the right one, not writing any more, on the device
-- to verify, or done.
pub data Phase : Type 0 where
  unbegun outside_transaction in_transaction stopping closed back identified ended verifying done :
      Phase

-- The sections that a deferring run holds back.
abbrev pub is_deferred : Text → Bool
is_deferred s = s == codes "security" || s == codes "default_channel"

-- What may be called next, and where it leads, when security is deferred or not. The device that is
-- asked for its id must give the plan's before anything more is written. A run
-- that needs a transaction does nothing before it begins.
abbrev pub next : Bool → NodeId → Phase → Call → Option Phase
next defer node unbegun (began none) = some in_transaction
next defer node unbegun (began (some exc)) = some done
next defer node outside_transaction (wrote s sent) =
    if defer then none else some outside_transaction
next defer node outside_transaction (wrote s (refused_before exc)) =
    if defer then none else some ended
next defer node outside_transaction (wrote s (write_failed exc)) =
    if defer then none else some ended
next defer node outside_transaction (refreshed none) = if defer then none else some verifying
next defer node outside_transaction (refreshed (some exc)) = if defer then none else some done
next defer node in_transaction (named owner_set) = some in_transaction
next defer node in_transaction (named owner_exited) = some stopping
next defer node in_transaction (named (owner_failed exc)) = some stopping
next defer node in_transaction (wrote s sent) =
    if defer && is_deferred s then none else some in_transaction
next defer node in_transaction (wrote s (refused_before exc)) =
    if defer && is_deferred s then none else some stopping
next defer node in_transaction (wrote s (write_failed exc)) =
    if defer && is_deferred s then none else some stopping
next defer node in_transaction (committed none) = some closed
next defer node in_transaction (committed (some exc)) = some done
next defer node stopping (committed none) = some ended
next defer node stopping (committed (some exc)) = some done
next defer node closed (refreshed none) = some back
next defer node closed (refreshed (some exc)) = some done
next defer node back (asked_node_id (ok got)) =
    if id_eq got node then some identified else some done
next defer node back (asked_node_id (err exc)) = some done
next defer node back asked_config = some done
next defer node identified (wrote s sent) = some identified
next defer node identified (wrote s (refused_before exc)) = some ended
next defer node identified (wrote s (write_failed exc)) = some ended
next defer node identified (refreshed none) = some verifying
next defer node identified (refreshed (some exc)) = some done
next defer node ended (refreshed none) = some verifying
next defer node ended (refreshed (some exc)) = some done
next defer node verifying asked_config = some done
next defer node _ _ = none

abbrev pub follow : Bool → NodeId → Option Phase → List Call → Option Phase
follow defer node none calls = none
follow defer node (some p) [] = some p
follow defer node (some p) (c ∷ calls) = follow defer node (next defer node p c) calls

-- The calls are in order, and the run is over after them.
abbrev pub IsOrdered : Bool → NodeId → Phase → List Call → Type 0
IsOrdered defer node p calls = follow defer node (some p) calls ≡ some done

module _ (defer : Bool) (node : NodeId) where
  pub follow-append :
      (r : Option Phase) (xs ys : List Call)
      → follow defer node r (xs ++ ys) ≡ follow defer node (follow defer node r xs) ys
  follow-append none xs ys = refl
  follow-append (some p) [] ys = refl
  follow-append (some p) (x ∷ xs) ys = follow-append (next defer node p x) xs ys

  step :
      (p q : Phase) (c : Call) (calls : List Call)
      → next defer node p c ≡ some q
      → follow defer node (some p) (c ∷ calls) ≡ follow defer node (some q) calls
  step p q c calls h = ap (λ r. follow defer node r calls) h

  pub step-IsOrdered :
      (p q : Phase) (c : Call) (calls : List Call)
      → next defer node p c ≡ some q
      → IsOrdered defer node q calls
      → IsOrdered defer node p (c ∷ calls)
  step-IsOrdered p q c calls h rest = step p q c calls h ∙ rest

  pub append-IsOrdered :
      (p q : Phase) (xs ys : List Call)
      → follow defer node (some p) xs ≡ some q
      → IsOrdered defer node q ys
      → IsOrdered defer node p (xs ++ ys)
  append-IsOrdered p q xs ys h rest = follow-append (some p) xs ys ∙ rw h rest

module _ {V : Type 0} (device : Device V) (defer : Bool) (node : NodeId) where
  pub write_in_order-stopped :
      (changes : List (SectionChange V)) (reason : Text)
      → ((write_in_order device changes (some reason)).calls ≡ [])
        × (is_none (write_in_order device changes (some reason)).stop_reason ≡ false)
  unfolding write_in_order
  write_in_order-stopped [] reason = (refl, refl)
  write_in_order-stopped (s ∷ changes) reason = write_in_order-stopped changes reason

  -- A phase `p` in which the sections may be written, and the phase `q` after a failure or a refusal.
  module _ (p q : Phase) where
    abbrev pub Writable : List (SectionChange V) → Type 0
    Writable [] = Unit {0}
    Writable (s ∷ changes) =
        (next defer node p (wrote s.section sent) ≡ some p)
        × ((exc : Text) → next defer node p (wrote s.section (write_failed exc)) ≡ some q)
        × ((exc : Text) → next defer node p (wrote s.section (refused_before exc)) ≡ some q)
        × Writable changes

    -- Where a pass leads: it stays, or it failed and has a reason to stop.
    abbrev pub Led : Pass → Type 0
    Led pass =
        (follow defer node (some p) pass.calls ≡ some p)
        ⊎ ((follow defer node (some p) pass.calls ≡ some q) × (is_none pass.stop_reason ≡ false))

    add_answer-Led :
        (section : Text) (answer : Sent) (rest : Pass) (stopped_rest : Text → Pass)
        → (next defer node p (wrote section sent) ≡ some p)
        → ((exc : Text) → next defer node p (wrote section (write_failed exc)) ≡ some q)
        → ((exc : Text) → next defer node p (wrote section (refused_before exc)) ≡ some q)
        → Led rest
        → ((reason : Text)
            → ((stopped_rest reason).calls ≡ [])
              × (is_none (stopped_rest reason).stop_reason ≡ false))
        → Led (add_answer section answer rest stopped_rest)
    unfolding add_answer
    add_answer-Led section sent rest stopped_rest w f r led stops =
        let on = step defer node p p (wrote section sent) rest.calls w in
        elim led [ inl h ↦ inl (on ∙ h) | inr h ↦ inr ((on ∙ h.0, h.1)) ]
    add_answer-Led section (refused_before exc) rest stopped_rest w f r led stops =
        let stop = stops (section ++ codes " could not be written") in
        inr (
          (
            step defer node p q (wrote section (refused_before exc)) _ (r exc) ∙ rw stop.0 refl,
            stop.1,
          ))
    add_answer-Led section (write_failed exc) rest stopped_rest w f r led stops =
        let stop = stops (codes "the " ++ (section ++ codes " write failed")) in
        inr (
          (
            step defer node p q (wrote section (write_failed exc)) _ (f exc) ∙ rw stop.0 refl,
            stop.1,
          ))

    pub write_in_order-Led :
        (changes : List (SectionChange V))
        → Writable changes
        → Led (write_in_order device changes none)
    unfolding write_in_order
    write_in_order-Led [] w = inl refl
    write_in_order-Led (s ∷ changes) w =
        add_answer-Led s.section (device.write s.section) (write_in_order device changes none)
          (λ reason. write_in_order device changes (some reason)) w.0 w.1 w.2
          (write_in_order-Led changes w.3) (write_in_order-stopped changes)
