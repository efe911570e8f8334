-- ===== src/Run/Device.antt =====
-- src/meshprovision/provisioning/apply.py: the device and its session, by what each call of a run gives,
-- and the calls that a run makes. An exception is its text, with its hint where the run prints it.
use meshprovision.Common.{Option, Result}
use meshprovision.Common.Text.{Text}
use meshprovision.NodeId.{NodeId}
use meshprovision.Run.{LiveConfig}
use meshprovision.Run.Readback.{DeviceKey}

-- `setOwner`: it returns, exits with SystemExit, or raises.
pub data OwnerCall : Type 0 where
  owner_set owner_exited : OwnerCall
  owner_failed : Text → OwnerCall

-- `write_section` or `write_default_channel`: sent; refused before anything was sent, with
-- PlanConflictError or EnumMappingError; or failed with another ProvisioningError.
pub data Sent : Type 0 where
  sent : Sent
  refused_before write_failed : Text → Sent

-- ConnectionBackendError: its text and its hint.
pub record RefreshFailure : Type 0 where
  pub message : Text
  pub hint : Option Text

-- A run refreshes the session at most twice: after the commit, and to verify.
pub record Device (V : Type 0) : Type 0 where
  pub begins : Option Text
  pub owner : OwnerCall
  pub write : Text → Sent
  pub commits : Option Text
  pub refresh_after_commit : Option RefreshFailure
  pub node_id_after_commit : Result Text NodeId
  pub refresh_to_verify : Option RefreshFailure
  pub read_back : Result Text (LiveConfig V × DeviceKey)

-- The calls with what they gave, in order; a refused section is a call that sent nothing.
pub data Call : Type 0 where
  began : Option Text → Call
  named : OwnerCall → Call
  wrote : Text → Sent → Call
  committed : Option Text → Call
  refreshed : Option RefreshFailure → Call
  asked_node_id : Result Text NodeId → Call
  asked_config : Call
