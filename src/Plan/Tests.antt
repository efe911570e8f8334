-- ===== src/Plan/Tests.antt =====
-- A plan at concrete inputs: a device with one live key, and a template that names one admin.
use meshprovision.Common.{
  ◌≡◌, ◌↔◌, ◌⊎◌, refl, true, false, not, ◌&&◌, ◌||◌, none, some, [], ◌∷◌, keep, any, is_empty,
  replicate, ok, err,
}
use meshprovision.Common.Text.{codes}
use meshprovision.Common.Equality.{◌==◌, Text_eq, ℕ_eq, mem, distinct}
use meshprovision.Common.Sorting.{count}
use meshprovision.Plan.{
  Key, provisioned, LiveSecurity, ResolvedAdminKey, Template, PlanInputs, is_real, has_public_key,
  has_private_key,
}
use meshprovision.Plan.AdminKeys.{plan_admin_key_material, plan_named}
use meshprovision.Plan.AdminKeys.Laws.{
  desired-authorized, live_keys-accounted, change_admin_keys_iff, may_authorize, Removals,
}
use meshprovision.Plan.Keypair.{
  RotationRefused, plan_node_keypair, choose_keypair, must_regenerate, key_is_news,
  plan_node_keypair-refused_iff, compare_with_db, key_eq, is_factory,
}
use meshprovision.Plan.Lockdown.{
  LockdownDecision, LockdownRefused, evaluate_lockdown, keys_are_safe, decide_intent,
  evaluate_lockdown-enable_iff, evaluate_lockdown-refused_iff,
}
use meshprovision.Plan.Section.{is_managed, security_changes, live_value, wanted, write}
use meshprovision.Plan.Section.Written.{write-security_changes}

abbrev node_key : Key
node_key = replicate 32 1

abbrev admin_key : Key
admin_key = replicate 32 2

abbrev live : LiveSecurity
live = record {
  public_key = some node_key;
  private_key = some (replicate 32 3);
  admin_keys = node_key ∷ [];
  is_managed = false;
  admin_channel_enabled = true;
  serial_enabled = some true;
  debug_log_api_enabled = none;
  packet_signature_policy = none;
}

abbrev admin : ResolvedAdminKey
admin = record {
  ref = codes "ADMIN1";
  key_ref = codes "ADMIN1_pub";
  public = admin_key;
  has_private = true;
  audit_ok = true;
  fingerprint = [];
  audit_summary = [];
  private_mismatch = false;
  audit_overridable = false;
}

abbrev template : Template
template = record {
  admin_nodes = codes "ADMIN1" ∷ [];
  is_managed = true;
  serial_enabled = some false;
  debug_log_api_enabled = none;
  packet_signature_policy = some (codes "COMPATIBLE");
}

abbrev inputs : PlanInputs
inputs = record {
  live = live;
  firmware_version = codes "2.8.1";
  template = template;
  state = provisioned;
  admin_keys = admin ∷ [];
  rejected_admin_keys = [];
  removed_admin_key_refs = [];
  node_key_compromised = false;
  node_key_reason = [];
  db_public_key = some node_key;
  force_regenerate_key = false;
  allow_lockdown = true;
  allow_weak_admin_key = false;
  node_key_admin_refs = [];
  pending_keypair_recovered = false;
}

planned : plan_admin_key_material inputs ≡ ok (plan_named inputs)
unfolding plan_admin_key_material
planned = refl

desired-authorized_example :
    ((is_empty template.admin_nodes ≡ true)
      × ((plan_named inputs).desired
          ≡ keep (λ k. not (mem k inputs.rejected_admin_keys)) live.admin_keys))
    ⊎ ((is_empty template.admin_nodes ≡ false)
        × (distinct (plan_named inputs).desired ≡ true)
        × ((k : Key)
            → mem k (plan_named inputs).desired
              ≡ any (λ a. may_authorize inputs a && k == a.public) inputs.admin_keys))
desired-authorized_example = desired-authorized inputs (plan_named inputs) planned

live_keys-accounted_example : Removals inputs (plan_named inputs) 0 node_key
live_keys-accounted_example = live_keys-accounted inputs (plan_named inputs) 0 node_key planned refl

change_admin_keys_iff_example :
    ((plan_named inputs).change_admin_keys ≡ false)
    ↔ ((k : Key) → count k (plan_named inputs).desired ≡ count k live.admin_keys)
change_admin_keys_iff_example = change_admin_keys_iff inputs (plan_named inputs) planned

key_kept : plan_node_keypair inputs ≡ ok (choose_keypair inputs)
unfolding plan_node_keypair choose_keypair is_factory has_public_key has_private_key is_real
    compare_with_db key_eq
key_kept = refl

plan_node_keypair-refused_iff_example :
    ((x : RotationRefused) × (plan_node_keypair inputs ≡ err x)) ↔ (
      ((must_regenerate inputs || key_is_news inputs) ≡ true)
      × (is_empty inputs.node_key_admin_refs ≡ false))
plan_node_keypair-refused_iff_example = plan_node_keypair-refused_iff inputs

evaluate_lockdown-enable_iff_example :
    ((d : LockdownDecision) × (evaluate_lockdown inputs (admin_key ∷ []) ≡ ok d)
      × (d.enable ≡ true))
    ↔ ((template.is_managed
          && keys_are_safe inputs (admin_key ∷ [])
          && (inputs.allow_lockdown || live.is_managed))
        ≡ true)
evaluate_lockdown-enable_iff_example = evaluate_lockdown-enable_iff inputs (admin_key ∷ [])

evaluate_lockdown-refused_iff_example :
    ((x : LockdownRefused) × (evaluate_lockdown inputs [] ≡ err x))
    ↔ ((template.is_managed && not (keys_are_safe inputs [])) ≡ true)
evaluate_lockdown-refused_iff_example = evaluate_lockdown-refused_iff inputs []

write-security_changes_example :
    write (security_changes inputs (decide_intent inputs)) (live_value live) is_managed
    ≡ wanted inputs (decide_intent inputs) is_managed
write-security_changes_example = write-security_changes inputs (decide_intent inputs) is_managed
