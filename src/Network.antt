-- ===== src/Network.antt =====
-- src/meshprovision/network/buckets.py: the stored hours of a region's traffic, and how a refresh is
-- merged into them. What an hour's traffic holds is a parameter; a time is a number of whole seconds.
pub mod Merging
pub mod Sorted
pub mod Pruned
pub mod Counts
mod Tests
use meshprovision.Common.{
  ℕ, ◌+◌, ◌-◌, ◌*◌, ◌/◌, Bool, true, false, not, ◌&&◌, Option, none, some, List, [], ◌∷◌, ◌++◌, map,
  keep, leb, ◌==◌ as nat_eq, if◌then◌else◌,
}
use meshprovision.Common.Sorting.{sort}

pub record RegionHour (T : Type 0) : Type 0 where
  pub hour : ℕ
  pub traffic : T

module _ {T : Type 0} where
  -- The dict from hours to buckets, in insertion order: an hour that is there keeps its place.
  unfoldable pub hour_in : ℕ → List (RegionHour T) → Bool
  hour_in hour [] = false
  hour_in hour (b ∷ hours) = if nat_eq b.hour hour then true else hour_in hour hours

  unfoldable pub replaced_hour : RegionHour T → List (RegionHour T) → List (RegionHour T)
  replaced_hour new [] = []
  replaced_hour new (b ∷ hours) =
      let rest = replaced_hour new hours in if nat_eq b.hour new.hour then new ∷ rest else b ∷ rest

  unfoldable pub set_hour : RegionHour T → List (RegionHour T) → List (RegionHour T)
  unfolding hour_in replaced_hour
  set_hour new hours = if hour_in new.hour hours then replaced_hour new hours else hours ++ new ∷ []

  unfoldable pub update : List (RegionHour T) → List (RegionHour T) → List (RegionHour T)
  unfolding set_hour
  update [] hours = hours
  update (b ∷ more) hours = update more (set_hour b hours)

  abbrev pub by_hour : RegionHour T → RegionHour T → Bool
  by_hour a b = leb a.hour b.hour

  unfoldable pub merge : List (RegionHour T) → List (RegionHour T) → List (RegionHour T)
  unfolding update sort
  merge old new = sort by_hour (update new (update old []))

  -- `hours[hour]`
  unfoldable pub traffic_at : ℕ → List (RegionHour T) → Option T
  traffic_at hour [] = none
  traffic_at hour (b ∷ hours) =
      let rest = traffic_at hour hours in if nat_eq b.hour hour then some b.traffic else rest

abbrev pub hour_seconds : ℕ
hour_seconds = 3600

abbrev pub network_retention_seconds : ℕ
network_retention_seconds = 2592000

abbrev pub future_skew_seconds : ℕ
future_skew_seconds = 300

unfoldable pub floor_hour : ℕ → ℕ
floor_hour epoch = epoch / hour_seconds * hour_seconds

-- A retention before the epoch's start keeps every hour, as every hour is at least 0.
unfoldable pub is_kept : ℕ → ℕ → Bool
unfolding floor_hour
is_kept now hour =
    leb (floor_hour (now - network_retention_seconds)) hour
    && leb hour (floor_hour (now + future_skew_seconds))

unfoldable pub prune : {T : Type 0} → ℕ → List (RegionHour T) → List (RegionHour T)
unfolding is_kept
prune now hours = keep (λ b. is_kept now b.hour) hours
