-- ===== src/Plan.antt =====
-- src/meshprovision/provisioning/plan_types.py, plan_admin_keys.py and detect_types.py: the inputs
-- of a change plan that its key and security parts read, and the outcomes that these parts give.
pub mod AdminKeys
pub mod Keypair
pub mod Lockdown
pub mod Section
mod Tests
use meshprovision.Common.{
  ℕ, Bool, true, false, not, ◌&&◌, Option, none, some, List, [], length, any, ◌==◌ as nat_eq,
  if◌then◌else◌,
}
use meshprovision.Common.Text.{Text}

-- `bytes` of a key.
abbrev pub Key : Type 0
Key = Text

abbrev pub max_admin_keys : ℕ
max_admin_keys = 3

pub data NodeState : Type 0 where
  factory provisioned foreign : NodeState

-- `config.security` as it was read from the device. Secret bytes are plain bytes here.
pub record LiveSecurity : Type 0 where
  pub public_key : Option Key
  pub private_key : Option Key
  pub admin_keys : List Key
  pub is_managed : Bool
  pub admin_channel_enabled : Bool
  pub serial_enabled : Option Bool
  pub debug_log_api_enabled : Option Bool
  pub packet_signature_policy : Option Text

-- 32 bytes that are not all zero.
unfoldable pub is_real : Option Key → Bool
is_real none = false
is_real (some k) = if not (nat_eq (length k) 32) then false else any (λ b. not (nat_eq b 0)) k

unfoldable pub has_public_key : LiveSecurity → Bool
unfolding is_real
has_public_key s = is_real s.public_key

unfoldable pub has_private_key : LiveSecurity → Bool
unfolding is_real
has_private_key s = is_real s.private_key

unfoldable pub real_public_key : LiveSecurity → Option Key
unfolding has_public_key
real_public_key s = if has_public_key s then s.public_key else none

unfoldable pub real_private_key : LiveSecurity → Option Key
unfolding has_private_key
real_private_key s = if has_private_key s then s.private_key else none

-- An admin key that the template names, with the verdict of its audit.
pub record ResolvedAdminKey : Type 0 where
  pub ref : Text
  pub key_ref : Text
  pub public : Key
  pub has_private : Bool
  pub audit_ok : Bool
  pub fingerprint : Text
  pub audit_summary : Text
  pub private_mismatch : Bool
  pub audit_overridable : Bool

-- The template's `security` section and its list of admin refs.
pub record Template : Type 0 where
  pub admin_nodes : List Text
  pub is_managed : Bool
  pub serial_enabled : Option Bool
  pub debug_log_api_enabled : Option Bool
  pub packet_signature_policy : Option Text

-- `live` is `live.security`, and `firmware_version` is `live.firmware_version`, of the live state.
pub record PlanInputs : Type 0 where
  pub live : LiveSecurity
  pub firmware_version : Text
  pub template : Template
  pub state : NodeState
  pub admin_keys : List ResolvedAdminKey
  pub rejected_admin_keys : List Key
  pub removed_admin_key_refs : List Text
  pub node_key_compromised : Bool
  pub node_key_reason : Text
  pub db_public_key : Option Key
  pub force_regenerate_key : Bool
  pub allow_lockdown : Bool
  pub allow_weak_admin_key : Bool
  pub node_key_admin_refs : List Text
  pub pending_keypair_recovered : Bool

-- A warning, with what its message names. Live keys are named by their slot, `live-admin[i]`.
pub data PlanWarning : Type 0 where
  duplicate_admin_key_ref : Text → ResolvedAdminKey → PlanWarning
  resolved_admin_key_forced resolved_admin_key_rejected : ResolvedAdminKey → PlanWarning
  resolved_admin_key_unusable : ResolvedAdminKey → PlanWarning
  live_admin_key_revoked live_admin_key_rejected : ℕ → PlanWarning
  pending_key_recovered device_key_differs_from_db : PlanWarning
