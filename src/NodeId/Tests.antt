-- ===== src/NodeId/Tests.antt =====
-- Node ids at concrete values.
use native.Mathlib.Omega.{arith}
use meshprovision.Common.{ℕ, ◌≡◌, refl, ok}
use meshprovision.Common.Int.{negsuc}
use meshprovision.NodeId.{NodeId, str, hex, display, from_hex, from_display, from_int, parse}
use meshprovision.NodeId.Parsing.{round_trip}

abbrev node_of : ℕ → NodeId
node_of n = record { num = n }

round_trip_example :
    (from_hex (hex (node_of 48879)) ≡ ok (node_of 48879))
    × (from_display (display (node_of 48879)) ≡ ok (node_of 48879))
    × (parse (str (hex (node_of 48879))) ≡ ok (node_of 48879))
    × (parse (str (display (node_of 48879))) ≡ ok (node_of 48879))
round_trip_example = round_trip (node_of 48879) (omega arith)

minus_one : from_int (negsuc 0) ≡ ok (node_of 4294967295)
unfolding from_int
minus_one = refl
