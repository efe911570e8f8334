-- ===== src/Status/Tests.antt =====
-- Intervals and thresholds at concrete values.
use native.Mathlib.Omega.{arith}
use meshprovision.Common.{◌*◌, ◌≤◌, none, some}
use meshprovision.Status.{hours, availability_thresholds, CadenceHint}
use meshprovision.Status.Thresholds.{availability_thresholds-ordered}

availability_thresholds-ordered_example :
    ((availability_thresholds (hours 3) (hours 2) (hours 24)).0
      ≤ (availability_thresholds (hours 3) (hours 2) (hours 24)).1)
    × (hours 2 ≤ (availability_thresholds (hours 3) (hours 2) (hours 24)).0)
    × (2 * hours 3 ≤ (availability_thresholds (hours 3) (hours 2) (hours 24)).0)
    × (hours 24 ≤ (availability_thresholds (hours 3) (hours 2) (hours 24)).1)
    × (5 * hours 3 ≤ (availability_thresholds (hours 3) (hours 2) (hours 24)).1)
availability_thresholds-ordered_example =
    availability_thresholds-ordered (hours 3) (hours 2) (hours 24) (omega arith)

abbrev hint : CadenceHint
hint = record { override = none; learned = some (hours 72); configured = some (hours 3) }
