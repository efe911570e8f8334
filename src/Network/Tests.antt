-- ===== src/Network/Tests.antt =====
-- A refresh that brings one hour again and one that is new, out of order.
use meshprovision.Common.{
  ltb, leb, if◌then◌else◌, ◌&&◌, none, ◌≡◌, refl, ℕ, ◌+◌, true, none, List, [], ◌∷◌, map,
}
use meshprovision.Common.Text.{Text, codes}
use meshprovision.Common.Equality.{Text_eq, distinct}
use meshprovision.Common.Sorting.{Ordered, lex_le}
use meshprovision.Network.{RegionHour, merge, prune, traffic_at}
use meshprovision.Network.Merging.{or_else, last_at}
use meshprovision.Network.Sorted.{earlier, merge-map, merge-merge}
use meshprovision.Network.Pruned.{prune-merge}
use meshprovision.Network.Counts.{
  Count, count_key, by_key, sum_maps, value_at, total_of, sum_maps-total,
}

abbrev bucket : ℕ → ℕ → RegionHour ℕ
bucket hour traffic = record { hour = hour; traffic = traffic }

abbrev stored : List (RegionHour ℕ)
stored = bucket 3600 1 ∷ bucket 7200 2 ∷ []

abbrev fresh : List (RegionHour ℕ)
fresh = bucket 7200 5 ∷ bucket 0 4 ∷ []

merged : merge stored fresh ≡ bucket 0 4 ∷ bucket 3600 1 ∷ bucket 7200 5 ∷ []
unfolding merge
merged = refl

merge-map_example :
    Ordered earlier (merge stored fresh)
    × ((h : ℕ) → traffic_at h (merge stored fresh) ≡ or_else (last_at h fresh) (last_at h stored))
merge-map_example = merge-map stored fresh

merge-merge_example : merge (merge stored fresh) fresh ≡ merge stored fresh
merge-merge_example = merge-merge stored fresh

prune-merge_example :
    (traffic_at 3600 (prune 2595600 (merge stored fresh)) ≡ (
      if ltb 3600 7200 && leb 3600 2595900
      then or_else (last_at 3600 fresh) (last_at 3600 stored)
      else none))
    × (prune 2595600 (merge stored fresh) ≡ merge (prune 2595600 stored) (prune 2595600 fresh))
prune-merge_example = prune-merge 2595600 stored fresh 1

-- The hour 0 is outside the retention.
old_hour_is_pruned : prune 2595600 (merge stored fresh) ≡ bucket 3600 1 ∷ bucket 7200 5 ∷ []
unfolding prune merge
old_hour_is_pruned = refl

abbrev count : Text → ℕ → Count ℕ
count key value = record { key = key; value = value }

abbrev packets : List (List (Count ℕ))
packets = (count (codes "b") 1 ∷ count (codes "a") 2 ∷ []) ∷ (count (codes "b") 3 ∷ []) ∷ []

summed : sum_maps (λ a b. a + b) packets ≡ count (codes "a") 2 ∷ count (codes "b") 4 ∷ []
unfolding sum_maps lex_le
summed = refl

sum_maps-total_example :
    (distinct (map count_key (sum_maps (λ a b. a + b) packets)) ≡ true)
    × Ordered by_key (sum_maps (λ a b. a + b) packets)
    × ((k : Text)
        → value_at k (sum_maps (λ a b. a + b) packets) ≡ total_of (λ a b. a + b) k packets none)
sum_maps-total_example = sum_maps-total (λ a b. a + b) packets
