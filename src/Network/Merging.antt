-- ===== src/Network/Merging.antt =====
-- src/meshprovision/network/buckets.py, `merge`: merging as a map from hours to traffic.
use native.Mathlib.Omega.{arith}
use meshprovision.Common.{
  ◌≡◌, refl, ◌∙◌, ℕ, Bool, true, false, not, ◌&&◌, Option, none, some, List, [], ◌∷◌, ◌++◌,
  ◌==◌ as nat_eq, if◌then◌else◌,
}
use meshprovision.Network.{RegionHour, hour_in, replaced_hour, set_hour, update, traffic_at}

module _ {T : Type 0} where
  -- No hour has two buckets.
  unfoldable pub distinct_hours : List (RegionHour T) → Bool
  distinct_hours [] = true
  distinct_hours (b ∷ hours) = not (hour_in b.hour hours) && distinct_hours hours

  -- The bucket that came last for an hour, or else what there was.
  abbrev pub or_else : Option T → Option T → Option T
  or_else none before = before
  or_else (some t) before = some t

  unfoldable pub last_at : ℕ → List (RegionHour T) → Option T
  last_at hour [] = none
  last_at hour (b ∷ hours) =
      or_else (last_at hour hours) (if nat_eq b.hour hour then some b.traffic else none)

  hour_in-replaced :
      (h : ℕ) (new : RegionHour T) (hours : List (RegionHour T))
      → hour_in h (replaced_hour new hours) ≡ hour_in h hours
  unfolding hour_in replaced_hour
  hour_in-replaced h new [] = refl
  hour_in-replaced h new (b ∷ hours) = ground (arith, hour_in-replaced h new hours)

  hour_in-append :
      (h : ℕ) (new : RegionHour T) (hours : List (RegionHour T))
      → hour_in h (hours ++ new ∷ []) ≡ (if nat_eq new.hour h then true else hour_in h hours)
  unfolding hour_in
  hour_in-append h new [] = refl
  hour_in-append h new (b ∷ hours) = ground (arith, hour_in-append h new hours)

  replaced-distinct :
      (new : RegionHour T) (hours : List (RegionHour T))
      → distinct_hours hours ≡ true
      → distinct_hours (replaced_hour new hours) ≡ true
  unfolding distinct_hours replaced_hour
  replaced-distinct new [] h = refl
  replaced-distinct new (b ∷ hours) h = ground (
    arith,
    replaced-distinct new hours,
    hour_in-replaced b.hour new hours,
    hour_in-replaced new.hour new hours,
  )

  append-distinct :
      (new : RegionHour T) (hours : List (RegionHour T))
      → distinct_hours hours ≡ true
      → hour_in new.hour hours ≡ false
      → distinct_hours (hours ++ new ∷ []) ≡ true
  unfolding distinct_hours hour_in
  append-distinct new [] h k = refl
  append-distinct new (b ∷ hours) h k =
      ground (arith, append-distinct new hours, hour_in-append b.hour new hours)

  set_hour-distinct :
      (new : RegionHour T) (hours : List (RegionHour T))
      → distinct_hours hours ≡ true
      → distinct_hours (set_hour new hours) ≡ true
  unfolding set_hour
  set_hour-distinct new hours h =
      ground (arith, replaced-distinct new hours h, append-distinct new hours h)

  traffic_at-replaced :
      (h : ℕ) (new : RegionHour T) (hours : List (RegionHour T))
      → traffic_at h (replaced_hour new hours)
        ≡ (if nat_eq new.hour h && hour_in h hours then some new.traffic else traffic_at h hours)
  unfolding traffic_at replaced_hour hour_in
  traffic_at-replaced h new [] = ground arith
  traffic_at-replaced h new (b ∷ hours) = ground (arith, traffic_at-replaced h new hours)

  traffic_at-append :
      (h : ℕ) (new : RegionHour T) (hours : List (RegionHour T))
      → hour_in new.hour hours ≡ false
      → traffic_at h (hours ++ new ∷ [])
        ≡ (if nat_eq new.hour h then some new.traffic else traffic_at h hours)
  unfolding traffic_at hour_in
  traffic_at-append h new [] k = refl
  traffic_at-append h new (b ∷ hours) k = ground (arith, traffic_at-append h new hours)

  traffic_at-set_hour :
      (h : ℕ) (new : RegionHour T) (hours : List (RegionHour T))
      → traffic_at h (set_hour new hours)
        ≡ (if nat_eq new.hour h then some new.traffic else traffic_at h hours)
  unfolding set_hour
  traffic_at-set_hour h new hours =
      ground (arith, traffic_at-replaced h new hours, traffic_at-append h new hours)

  pub update-distinct :
      (more hours : List (RegionHour T))
      → distinct_hours hours ≡ true
      → distinct_hours (update more hours) ≡ true
  unfolding update
  update-distinct [] hours h = h
  update-distinct (b ∷ more) hours h =
      update-distinct more (set_hour b hours) (set_hour-distinct b hours h)

  pub traffic_at-update :
      (h : ℕ) (more hours : List (RegionHour T))
      → traffic_at h (update more hours) ≡ or_else (last_at h more) (traffic_at h hours)
  unfolding update last_at
  traffic_at-update h [] hours = refl
  traffic_at-update h (b ∷ more) hours =
      traffic_at-update h more (set_hour b hours) ∙ ground (arith, traffic_at-set_hour h b hours)
