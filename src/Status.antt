-- ===== src/Status.antt =====
-- src/meshprovision/status/cadence.py: how long a healthy node may be silent. A `timedelta` is its
-- number of microseconds; none is negative.
pub mod Thresholds
mod Tests
use native.Mathlib.Omega.{arith}
use meshprovision.Common.{
  ℕ, zero, suc, ◌+◌, ◌*◌, ◌/◌, ◌%◌, ◌∷◌, [], List, Bool, true, false, ◌||◌, Option, none, some, ltb,
  ◌==◌, min, max, if◌then◌else◌,
}
use meshprovision.Common.Text.{Text, codes, text_eq}

abbrev pub seconds : ℕ → ℕ
seconds n = n * 1000000

abbrev pub hours : ℕ → ℕ
hours n = seconds (n * 3600)

abbrev pub node_info_default : ℕ
node_info_default = hours 3

abbrev pub node_info_min : ℕ
node_info_min = hours 1

abbrev pub tak_node_info : ℕ
tak_node_info = hours 24

abbrev pub max_expected_interval : ℕ
max_expected_interval = hours 48

abbrev pub stale_missed : ℕ
stale_missed = 2

abbrev pub offline_missed : ℕ
offline_missed = 5

unfoldable pub capped : ℕ → ℕ
capped interval = min interval max_expected_interval

unfoldable pub is_silent : Option Text → Bool
is_silent none = false
is_silent (some role) = text_eq role (codes "CLIENT_HIDDEN") || text_eq role (codes "REPEATER")

unfoldable pub is_tak : Option Text → Bool
is_tak none = false
is_tak (some role) = text_eq role (codes "TAK") || text_eq role (codes "TAK_TRACKER")

unfoldable pub role_interval : Option Text → ℕ
role_interval role =
    if is_silent role
    then max_expected_interval
    else if is_tak role
    then tak_node_info
    else node_info_default

-- `not node_info_seconds` holds of `None` and of 0.
unfoldable pub template_interval : Option ℕ → Option Text → ℕ
unfolding capped role_interval
template_interval none role = role_interval role
template_interval (some node_info_seconds) role =
    if node_info_seconds == 0 || is_silent role
    then role_interval role
    else capped (max (seconds node_info_seconds) node_info_min)

pub data CadenceSource : Type 0 where
  override history template role_default : CadenceSource

pub record Cadence : Type 0 where
  pub interval : ℕ
  pub source : CadenceSource

pub record CadenceHint : Type 0 where
  pub override : Option ℕ
  pub learned : Option ℕ
  pub configured : Option ℕ

abbrev cadence : ℕ → CadenceSource → Cadence
cadence interval source = record { interval = interval; source = source }

unfoldable pub from_configured : Option ℕ → Option Text → Cadence
from_configured none role = cadence (role_interval role) role_default
from_configured (some interval) role = cadence (capped interval) template

unfoldable pub from_learned : Option ℕ → Option ℕ → Option Text → Cadence
unfolding from_configured
from_learned none configured role = from_configured configured role
from_learned (some interval) configured role = cadence (capped interval) history

unfoldable pub from_override : Option ℕ → CadenceHint → Option Text → Cadence
unfolding from_learned
from_override none hint role = from_learned hint.learned hint.configured role
from_override (some interval) hint role = cadence (capped interval) override

unfoldable pub resolve_cadence : CadenceHint → Option Text → Cadence
unfolding from_override
resolve_cadence hint role = from_override hint.override hint role

-- `interval * 0.25`: the quarter, rounded to the nearest microsecond, halves to the even one.
unfoldable pub quarter : ℕ → ℕ
quarter n =
    let q = n / 4 in let r = n % 4 in if ltb r 2 then q else if r == 2 then q + q % 2 else q + 1

unfoldable pub availability_thresholds : ℕ → ℕ → ℕ → ℕ × ℕ
unfolding quarter
availability_thresholds interval stale_floor offline_floor =
    let grace = quarter interval in
    (
      max stale_floor (interval * stale_missed + grace),
      max offline_floor (interval * offline_missed + grace),
    )
