-- ===== src/Status/Thresholds.antt =====
-- src/meshprovision/status/cadence.py. The thresholds after which a silent node counts as stale
-- and as offline, and the interval they are computed from.
use native.Mathlib.Omega.{arith}
use meshprovision.Common.{ℕ, ◌+◌, ◌*◌, ◌≤◌, Option, none, some}
use meshprovision.Common.Text.{Text}
use meshprovision.Status.{
  quarter, availability_thresholds, capped, role_interval, template_interval, resolve_cadence,
  CadenceHint, hours, from_override, from_learned, from_configured,
}

-- The rounded quarter is within half a microsecond of a quarter.
quarter-bounds : (n : ℕ) → (4 * quarter n ≤ n + 2) × (n ≤ 4 * quarter n + 2)
unfolding quarter
quarter-bounds n = (ground arith, ground arith)

quarter_mono : (m n : ℕ) → m ≤ n → quarter m ≤ quarter n
unfolding quarter
quarter_mono m n h = ground arith

-- With the stale floor no higher than the offline floor, a silent node is stale no later than it is
-- offline, and stale no earlier than its floor and two missed intervals, offline no earlier than its
-- floor and five.
pub availability_thresholds-ordered :
    (interval stale_floor offline_floor : ℕ)
    → stale_floor ≤ offline_floor
    → let t = availability_thresholds interval stale_floor offline_floor in
      (t.0 ≤ t.1)
      × (stale_floor ≤ t.0)
      × (2 * interval ≤ t.0)
      × (offline_floor ≤ t.1)
      × (5 * interval ≤ t.1)
unfolding availability_thresholds
availability_thresholds-ordered interval stale_floor offline_floor h =
    (omega arith, omega arith, omega arith, omega arith, omega arith)

-- A longer interval brings neither threshold forward.
availability_thresholds_mono :
    (i j stale_floor offline_floor : ℕ)
    → i ≤ j
    → ((availability_thresholds i stale_floor offline_floor).0
        ≤ (availability_thresholds j stale_floor offline_floor).0)
      × ((availability_thresholds i stale_floor offline_floor).1
          ≤ (availability_thresholds j stale_floor offline_floor).1)
unfolding availability_thresholds
availability_thresholds_mono i j stale_floor offline_floor h =
    (omega (arith, quarter_mono i j h), omega (arith, quarter_mono i j h))

role_interval-bounds :
    (role : Option Text) → (hours 3 ≤ role_interval role) × (role_interval role ≤ hours 48)
unfolding role_interval
role_interval-bounds role = (ground arith, ground arith)

-- The interval of a template lies between one hour and 48, whatever the template says.
template_interval-bounds :
    (node_info_seconds : Option ℕ) (role : Option Text)
    → (hours 1 ≤ template_interval node_info_seconds role)
      × (template_interval node_info_seconds role ≤ hours 48)
unfolding template_interval capped
template_interval-bounds none role =
    (omega (arith, role_interval-bounds role), omega (arith, role_interval-bounds role))
template_interval-bounds (some n) role =
    (ground (arith, role_interval-bounds role), ground (arith, role_interval-bounds role))

capped-le : (n : ℕ) → capped n ≤ hours 48
unfolding capped
capped-le n = omega arith

from_configured-le :
    (configured : Option ℕ) (role : Option Text)
    → (from_configured configured role).interval ≤ hours 48
unfolding from_configured
from_configured-le none role = (role_interval-bounds role).1
from_configured-le (some n) role = capped-le n

from_learned-le :
    (learned configured : Option ℕ) (role : Option Text)
    → (from_learned learned configured role).interval ≤ hours 48
unfolding from_learned
from_learned-le none configured role = from_configured-le configured role
from_learned-le (some n) configured role = capped-le n

from_override-le :
    (given : Option ℕ) (hint : CadenceHint) (role : Option Text)
    → (from_override given hint role).interval ≤ hours 48
unfolding from_override
from_override-le none hint role = from_learned-le hint.learned hint.configured role
from_override-le (some n) hint role = capped-le n

-- The expected interval is at most 48 hours, and with an offline floor of at most 252 hours, the
-- offline threshold that it gives is at most 252 hours.
resolve_cadence-le :
    (hint : CadenceHint) (role : Option Text) (stale_floor offline_floor : ℕ)
    → offline_floor ≤ hours 252
    → ((resolve_cadence hint role).interval ≤ hours 48)
      × ((availability_thresholds (resolve_cadence hint role).interval stale_floor offline_floor).1
          ≤ hours 252)
unfolding resolve_cadence availability_thresholds
resolve_cadence-le hint role stale_floor offline_floor h =
    let le = from_override-le hint.override hint role in
    let interval = (from_override hint.override hint role).interval in
    (le, omega (arith, le, quarter-bounds interval))
