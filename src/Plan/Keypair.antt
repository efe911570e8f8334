-- ===== src/Plan/Keypair.antt =====
-- src/meshprovision/provisioning/plan_security.py, `plan_node_keypair`: whether a plan generates a
-- new keypair, records the device's own, or leaves the database's alone.
use native.Mathlib.Omega.{arith}
use meshprovision.Common.{
  ◌≡◌, ◌↔◌, ◌⊎◌, Bool, true, false, not, ◌&&◌, ◌||◌, Option, none, some, List, [], ◌∷◌, is_empty,
  if◌then◌else◌, Result, ok, err,
}
use meshprovision.Common.Text.{Text, codes, text_eq}
use meshprovision.Plan.{
  Key, NodeState, factory, provisioned, foreign, PlanInputs, PlanWarning, pending_key_recovered,
  device_key_differs_from_db, has_public_key, has_private_key,
}

-- The tuple that the function returns.
pub record KeypairPlan : Type 0 where
  pub regenerate : Bool
  pub reason : Text
  pub adopt : Bool
  pub warnings : List PlanWarning

-- AdminKeyRotationRefusedError: its reason label and the refs that the key backs.
pub data RotationRefused : Type 0 where
  refused : Text → List Text → RotationRefused

unfoldable pub is_factory : NodeState → Bool
is_factory factory = true
is_factory provisioned = false
is_factory foreign = false

-- `a == b` of optional keys, as in `inputs.db_public_key != live_sec.public_key`.
unfoldable pub key_eq : Key → Option Key → Bool
key_eq k none = false
key_eq k (some j) = text_eq k j

abbrev plan_of : Bool → Text → Bool → List PlanWarning → KeypairPlan
plan_of regenerate reason adopt warnings = record {
  regenerate = regenerate;
  reason = reason;
  adopt = adopt;
  warnings = warnings;
}

-- The last branches: the device's key is kept, and compared with the database's.
unfoldable pub compare_with_db : Option Key → Option Key → KeypairPlan
unfolding key_eq
compare_with_db none live_key = plan_of false [] true []
compare_with_db (some db_key) live_key =
    if not (key_eq db_key live_key)
    then plan_of false [] true (device_key_differs_from_db ∷ [])
    else plan_of false [] false []

unfoldable pub choose_keypair : PlanInputs → KeypairPlan
unfolding is_factory compare_with_db
choose_keypair inputs =
    if inputs.force_regenerate_key
    then plan_of true (codes "forced") false []
    else if is_factory inputs.state
    then plan_of true (codes "factory_key_presumed_compromised") false []
    else if not (has_public_key inputs.live) || not (has_private_key inputs.live)
    then plan_of true (codes "missing_key_material") false []
    else if inputs.node_key_compromised
    then plan_of true
        (if is_empty inputs.node_key_reason then codes "weak_key_audit" else inputs.node_key_reason)
        false []
    else if inputs.pending_keypair_recovered
    then plan_of false (codes "pending_key_recovered") true (pending_key_recovered ∷ [])
    else compare_with_db inputs.db_public_key inputs.live.public_key

unfoldable pub is_first_capture : PlanInputs → KeypairPlan → Bool
is_first_capture inputs plan =
    plan.adopt
    && elim inputs.db_public_key [ none ↦ true | some k ↦ false ]
    && not inputs.pending_keypair_recovered

unfoldable pub plan_node_keypair : PlanInputs → Result RotationRefused KeypairPlan
unfolding is_first_capture
plan_node_keypair inputs =
    let plan = choose_keypair inputs in
    if (plan.regenerate || plan.adopt) && not (is_empty inputs.node_key_admin_refs)
    then err (
        refused
          (if is_first_capture inputs plan
            then codes "capture"
            else if is_empty plan.reason
            then codes "adopt"
            else plan.reason)
          inputs.node_key_admin_refs)
    else ok plan

-- Why a new keypair is generated.
abbrev pub must_regenerate : PlanInputs → Bool
must_regenerate inputs =
    inputs.force_regenerate_key
    || is_factory inputs.state
    || not (has_public_key inputs.live)
    || not (has_private_key inputs.live)
    || inputs.node_key_compromised

-- A key that the database does not hold, or that was recovered from an interrupted run.
abbrev pub key_is_news : PlanInputs → Bool
key_is_news inputs =
    inputs.pending_keypair_recovered
    || elim inputs.db_public_key [ none ↦ true | some k ↦ not (key_eq k inputs.live.public_key) ]

choose_keypair-flags :
    (inputs : PlanInputs)
    → ((choose_keypair inputs).regenerate ≡ must_regenerate inputs)
      × ((choose_keypair inputs).adopt ≡ (not (must_regenerate inputs) && key_is_news inputs))
unfolding choose_keypair
choose_keypair-flags inputs = ground arith

-- A plan that is made generates a keypair exactly when it was forced, the node is fresh from the
-- factory, or key material is missing or compromised; it records the device's key exactly when it
-- generates none and the key is news to the database; and it does neither unless the node's key backs
-- no authorized admin key.
plan_node_keypair-eq_ok :
    (inputs : PlanInputs) (plan : KeypairPlan)
    → plan_node_keypair inputs ≡ ok plan
    → (plan.regenerate ≡ must_regenerate inputs)
      × (plan.adopt ≡ (not (must_regenerate inputs) && key_is_news inputs))
      × (((plan.regenerate ≡ false) × (plan.adopt ≡ false))
          ⊎ (is_empty inputs.node_key_admin_refs ≡ true))
unfolding plan_node_keypair
plan_node_keypair-eq_ok inputs plan h = ground (arith, choose_keypair-flags inputs)

-- A plan is refused exactly when it would generate a keypair or record the device's key, and the
-- node's key backs an authorized admin key.
pub plan_node_keypair-refused_iff :
    (inputs : PlanInputs)
    → ((x : RotationRefused) × (plan_node_keypair inputs ≡ err x)) ↔ (
        ((must_regenerate inputs || key_is_news inputs) ≡ true)
        × (is_empty inputs.node_key_admin_refs ≡ false))
unfolding plan_node_keypair
plan_node_keypair-refused_iff inputs = (
  λ (x, h). ground (arith, choose_keypair-flags inputs),
  λ h.
      let plan = choose_keypair inputs in
      (
        refused
            (if is_first_capture inputs plan
              then codes "capture"
              else if is_empty plan.reason
              then codes "adopt"
              else plan.reason)
            inputs.node_key_admin_refs,
        ground (arith, choose_keypair-flags inputs),
      ),
)
