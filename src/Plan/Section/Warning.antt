-- ===== src/Plan/Section/Warning.antt =====
-- src/meshprovision/provisioning/plan_security.py. When a plan warns that the firmware lacks
-- `packet_signature_policy`.
use native.Mathlib.Omega.{arith}
use meshprovision.Common.{
  ◌≡◌, ◌≢◌, ◌↔◌, inl, inr, refl, sym, ap, ◌∙◌, true, false, not, ◌||◌, Option, none, some,
  Bool-cases,
}
use meshprovision.Common.Text.{Text}
use meshprovision.Plan.{PlanInputs}
use meshprovision.Plan.Lockdown.{LockdownDecision}
use meshprovision.Plan.Section.{
  Value, name, packet_signature_policy, values_equal, values_equal_iff, name_of,
  firmware_supports_packet_signature_policy, security_changes, live_value, or_live_policy, write,
  packet_signature_policy_skipped,
}
use meshprovision.Plan.Section.Written.{write-security_changes}

-- The policy field misses the template's value exactly when the firmware lacks it and the live value
-- is another one.
missed :
    (firmware p : Text) (current : Option Text)
    → (not (
          values_equal (name_of current) (name p)
          || firmware_supports_packet_signature_policy firmware)
        ≡ true)
      ↔ (or_live_policy firmware (some p) current ≢ name p)
missed firmware p current = elim (Bool-cases (firmware_supports_packet_signature_policy firmware)) [
  | inl supported ↦ rw supported (λ h e. ground arith, λ ne. absurd (ne refl))
  | inr lacking ↦ rw lacking (
    λ h e. ground (arith, values_equal_iff (name_of current) (name p)),
    λ ne. elim (Bool-cases (values_equal (name_of current) (name p))) [
      | inl same ↦ absurd (ne ((values_equal_iff (name_of current) (name p)).0 same))
      | inr other ↦ rw other refl
    ],
  )
]

-- The warning for a template's policy, and the value `left` that the section leaves.
warned :
    (firmware : Text) (current desired : Option Text) (left : Value)
    → left ≡ or_live_policy firmware desired current
    → (elim desired [
      | none ↦ false
      | some p ↦ not (
          values_equal (name_of current) (name p)
          || firmware_supports_packet_signature_policy firmware)
    ]
        ≡ true)
      ↔ ((p : Text) × (desired ≡ some p) × (left ≢ name p))
warned firmware current none left e = (λ h. absurd (cc h), λ (p, given, ne). absurd (cc given))
warned firmware current (some p) left e = (
  λ h. (p, refl, λ same. (missed firmware p current).0 h (sym e ∙ same)),
  λ (q, given, ne).
      (missed firmware p current).1
        (λ same. let asked : p ≡ q = cc in ne (e ∙ same ∙ ap name asked)),
)

-- The warning is given exactly when the template sets the policy and the planned section, once it is
-- written, leaves the device's policy at another value.
packet_signature_policy_skipped_iff :
    (inputs : PlanInputs) (lockdown : LockdownDecision)
    → (packet_signature_policy_skipped inputs ≡ true) ↔ (
        (p : Text) × (inputs.template.packet_signature_policy ≡ some p)
        × (write (security_changes inputs lockdown) (live_value inputs.live) packet_signature_policy
            ≢ name p))
unfolding packet_signature_policy_skipped
packet_signature_policy_skipped_iff inputs lockdown =
    warned inputs.firmware_version inputs.live.packet_signature_policy
      inputs.template.packet_signature_policy
      (write (security_changes inputs lockdown) (live_value inputs.live) packet_signature_policy)
      (write-security_changes inputs lockdown packet_signature_policy)
