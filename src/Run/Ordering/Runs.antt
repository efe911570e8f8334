-- ===== src/Run/Ordering/Runs.antt =====
-- src/meshprovision/provisioning/apply.py, `apply_plan`: the order of the calls of a whole run.
use meshprovision.Common.{◌≡◌, Bool, true, false, Option, none, some, List, ◌⊎◌}
use meshprovision.Common.Text.{Text}
use meshprovision.Common.Equality.{Text_eq}
use meshprovision.NodeId.{NodeId}
use meshprovision.Apply.{ApplyOutcome, WriteResult}
use meshprovision.Run.{ChangePlan, KeyPair}
use meshprovision.Run.Device.{RefreshFailure, Device, Call, refreshed, asked_config}
use meshprovision.Run.Execution.{Pass}
use meshprovision.Run.ApplyPlan.{Outside, is_none, after_commit, defer_security, body}
use meshprovision.Run.Ordering.{Phase, in_transaction, stopping, done, next, follow, IsOrdered}

module _ {V : Type 0} (outside : Outside V) (device : Device V) (plan : ChangePlan V)
    (reads_back : Bool) (keypair : Option KeyPair) where
  abbrev defer : Bool
  defer = defer_security outside device plan reads_back keypair

  abbrev Ordered : Phase → List Call → Type 0
  Ordered p calls = IsOrdered defer plan.node_id p calls

  -- A phase in which the run may refresh in order to verify.
  abbrev MayVerify : Phase → Type 0
  MayVerify p =
      ((e : RefreshFailure) → next defer plan.node_id p (refreshed (some e)) ≡ some done)
      × ((r : Phase) × (next defer plan.node_id p (refreshed none) ≡ some r)
          × (next defer plan.node_id r asked_config ≡ some done))

  -- The owner phase is done, or failed.
  abbrev NameLed : Option WriteResult × List Call → Type 0
  NameLed phase =
      ((is_none phase.0 ≡ true)
        × (follow defer plan.node_id (some in_transaction) phase.1 ≡ some in_transaction))
      ⊎ ((is_none phase.0 ≡ false)
          × (follow defer plan.node_id (some in_transaction) phase.1 ≡ some stopping))

  abbrev ran : Pass
  ran = body outside device plan reads_back keypair

  abbrev rest_of : ApplyOutcome × List Call
  rest_of =
      after_commit outside device plan reads_back keypair defer ran.results ran.attempted
        ran.stop_reason
