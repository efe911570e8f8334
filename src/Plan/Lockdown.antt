-- ===== src/Plan/Lockdown.antt =====
-- src/meshprovision/provisioning/plan_security.py, `evaluate_lockdown`: whether a plan may put the
-- device under managed mode, where only the authorized admins can change it.
use native.Mathlib.Omega.{arith}
use meshprovision.Common.{
  ◌≡◌, ◌↔◌, inl, inr, refl, Bool, true, false, not, ◌&&◌, ◌||◌, List, [], ◌∷◌, map, keep, all, any,
  is_empty, if◌then◌else◌, Result, ok, err, Result-cases,
}
use meshprovision.Common.Text.{Text}
use meshprovision.Plan.{Key, PlanInputs, ResolvedAdminKey}

pub data LockdownReason : Type 0 where
  template_opt_out authorized already_locked allow_lockdown_not_set : LockdownReason

-- The `gates` mapping, one field for each of its keys.
pub record Gates : Type 0 where
  pub has_admin_keys : Bool
  pub has_private_counterpart : Bool
  pub audit_clean : Bool
  pub explicit_intent : Bool

pub record LockdownDecision : Type 0 where
  pub enable : Bool
  pub reason : LockdownReason
  pub gates : Gates

-- LockdownRefusedError: its reason label, with the refs that its message names.
pub data LockdownRefused : Type 0 where
  weak_admin_key private_key_mismatch : List Text → LockdownRefused
  no_admin_keys no_private_counterpart : LockdownRefused

abbrev gates_of : Bool → Bool → Bool → Bool → Gates
gates_of admins private audit intent = record {
  has_admin_keys = admins;
  has_private_counterpart = private;
  audit_clean = audit;
  explicit_intent = intent;
}

abbrev decision : Bool → LockdownReason → Gates → LockdownDecision
decision enable reason gates = record { enable = enable; reason = reason; gates = gates }

-- The refs of the admin keys whose audit failed.
unfoldable pub weak_refs : List ResolvedAdminKey → List Text
weak_refs keys = map (λ k. k.key_ref) (keep (λ k. not k.audit_ok) keys)

-- The refs of the admin keys whose private counterpart derives another public key.
unfoldable pub mismatched : List ResolvedAdminKey → List Text
mismatched keys = map (λ k. k.key_ref) (keep (λ k. k.private_mismatch) keys)

-- After the gates that refuse: the operator's explicit intent, or a device already locked.
unfoldable pub decide_intent : PlanInputs → LockdownDecision
decide_intent inputs =
    let gates = gates_of true true true inputs.allow_lockdown in
    if not inputs.allow_lockdown
    then if inputs.live.is_managed
      then decision true already_locked gates
      else decision false allow_lockdown_not_set gates
    else decision true authorized gates

unfoldable pub evaluate_lockdown : PlanInputs → List Key → Result LockdownRefused LockdownDecision
unfolding weak_refs mismatched decide_intent
evaluate_lockdown inputs desired_admin_keys =
    if not inputs.template.is_managed
    then ok (
        decision false template_opt_out (
          gates_of (not (is_empty desired_admin_keys)) (any (λ k. k.has_private) inputs.admin_keys)
            (all (λ k. k.audit_ok) inputs.admin_keys) inputs.allow_lockdown))
    else if not (is_empty (weak_refs inputs.admin_keys))
    then err (weak_admin_key (weak_refs inputs.admin_keys))
    else if is_empty desired_admin_keys
    then err no_admin_keys
    else if not (is_empty (mismatched inputs.admin_keys))
    then err (private_key_mismatch (mismatched inputs.admin_keys))
    else if not (any (λ k. k.has_private) inputs.admin_keys)
    then err no_private_counterpart
    else ok (decide_intent inputs)

-- No key is selected exactly when every key fails the test.
is_empty-keep_lem :
    (bad good : ResolvedAdminKey → Bool) (keys : List ResolvedAdminKey)
    → ((k : ResolvedAdminKey) → good k ≡ not (bad k))
    → is_empty (map (λ k. k.key_ref) (keep bad keys)) ≡ all good keys
is_empty-keep_lem bad good [] h = refl
is_empty-keep_lem bad good (k ∷ keys) h = ground (arith, h k, is_empty-keep_lem bad good keys h)

-- Every authorized key passed its audit and matches its private counterpart, one private
-- counterpart is on hand, and there is a key.
abbrev pub keys_are_safe : PlanInputs → List Key → Bool
keys_are_safe inputs desired =
    all (λ k. k.audit_ok) inputs.admin_keys
    && not (is_empty desired)
    && all (λ k. not k.private_mismatch) inputs.admin_keys
    && any (λ k. k.has_private) inputs.admin_keys

weak_refs_lem :
    (keys : List ResolvedAdminKey) → is_empty (weak_refs keys) ≡ all (λ k. k.audit_ok) keys
unfolding weak_refs
weak_refs_lem keys =
    is_empty-keep_lem (λ k. not k.audit_ok) (λ k. k.audit_ok) keys (λ k. ground arith)

mismatched_lem :
    (keys : List ResolvedAdminKey)
    → is_empty (mismatched keys) ≡ all (λ k. not k.private_mismatch) keys
unfolding mismatched
mismatched_lem keys =
    is_empty-keep_lem (λ k. k.private_mismatch) (λ k. not k.private_mismatch) keys (λ k. refl)

-- Managed mode ends up enabled exactly when the template asks for it, the authorized keys are safe
-- (all audited clean, at least one, no mismatched private counterpart, one counterpart on hand),
-- and the operator allowed it or the device is already managed.
pub evaluate_lockdown-enable_iff :
    (inputs : PlanInputs) (desired : List Key)
    → ((d : LockdownDecision) × (evaluate_lockdown inputs desired ≡ ok d) × (d.enable ≡ true)) ↔ (
        (inputs.template.is_managed
          && keys_are_safe inputs desired
          && (inputs.allow_lockdown || inputs.live.is_managed))
        ≡ true)
unfolding evaluate_lockdown decide_intent
evaluate_lockdown-enable_iff inputs desired = (
  λ (d, h, e). ground (arith, weak_refs_lem inputs.admin_keys, mismatched_lem inputs.admin_keys),
  λ h. (
    decide_intent inputs,
    ground (arith, weak_refs_lem inputs.admin_keys, mismatched_lem inputs.admin_keys),
    ground (arith),
  ),
)

-- A lockdown is refused exactly when the template asks for it and the authorized keys are not safe.
pub evaluate_lockdown-refused_iff :
    (inputs : PlanInputs) (desired : List Key)
    → ((x : LockdownRefused) × (evaluate_lockdown inputs desired ≡ err x))
      ↔ ((inputs.template.is_managed && not (keys_are_safe inputs desired)) ≡ true)
unfolding evaluate_lockdown
evaluate_lockdown-refused_iff inputs desired = (
  λ (x, h). ground (arith, weak_refs_lem inputs.admin_keys, mismatched_lem inputs.admin_keys),
  λ h. elim (Result-cases (evaluate_lockdown inputs desired)) [
    | inl (d, e) ↦
        absurd (ground (arith, weak_refs_lem inputs.admin_keys, mismatched_lem inputs.admin_keys))
    | inr refusal ↦ refusal
  ],
)
