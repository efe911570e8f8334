-- ===== src/Network/Sorted.antt =====
-- src/meshprovision/network/buckets.py, `merge`: the merged hours, in their order.
use native.Mathlib.Omega.{arith}
use meshprovision.Common.{
  ◌≡◌, refl, ◌∙◌, sym, ap, ℕ, ◌≤◌, Bool, true, false, not, Option, none, some, List, [], ◌∷◌, all,
  ltb, ◌==◌ as nat_eq, if◌then◌else◌, &&_parts,
}
use meshprovision.Common.Sorting.{insert, sort, Ordered, IsTotal, sort-Ordered}
use meshprovision.Network.{RegionHour, hour_in, update, by_hour, merge, traffic_at}
use meshprovision.Network.Merging.{
  distinct_hours, or_else, last_at, update-distinct, traffic_at-update,
}

-- Each hour comes before the next.
abbrev pub earlier : {T : Type 0} → RegionHour T → RegionHour T → Bool
earlier a b = ltb a.hour b.hour

module _ {T : Type 0} where
  hour_in-insert :
      (h : ℕ) (b : RegionHour T) (hours : List (RegionHour T))
      → hour_in h (insert by_hour b hours) ≡ (if nat_eq b.hour h then true else hour_in h hours)
  unfolding hour_in insert
  hour_in-insert h b [] = refl
  hour_in-insert h b (c ∷ hours) = ground (arith, hour_in-insert h b hours)

  hour_in-sort :
      (h : ℕ) (hours : List (RegionHour T)) → hour_in h (sort by_hour hours) ≡ hour_in h hours
  unfolding hour_in sort
  hour_in-sort h [] = refl
  hour_in-sort h (b ∷ hours) =
      hour_in-insert h b (sort by_hour hours) ∙ ground (arith, hour_in-sort h hours)

  insert-distinct :
      (b : RegionHour T) (hours : List (RegionHour T))
      → distinct_hours hours ≡ true
      → hour_in b.hour hours ≡ false
      → distinct_hours (insert by_hour b hours) ≡ true
  unfolding distinct_hours insert hour_in
  insert-distinct b [] h k = refl
  insert-distinct b (c ∷ hours) h k =
      ground (arith, insert-distinct b hours, hour_in-insert c.hour b hours)

  sort-distinct :
      (hours : List (RegionHour T))
      → distinct_hours hours ≡ true
      → distinct_hours (sort by_hour hours) ≡ true
  unfolding distinct_hours sort
  sort-distinct [] h = refl
  sort-distinct (b ∷ hours) h = ground (
    arith,
    sort-distinct hours,
    insert-distinct b (sort by_hour hours),
    hour_in-sort b.hour hours,
  )

  traffic_at-insert :
      (h : ℕ) (b : RegionHour T) (hours : List (RegionHour T))
      → hour_in b.hour hours ≡ false
      → traffic_at h (insert by_hour b hours) ≡ traffic_at h (b ∷ hours)
  unfolding traffic_at insert hour_in
  traffic_at-insert h b [] k = refl
  traffic_at-insert h b (c ∷ hours) k = ground (arith, traffic_at-insert h b hours)

  traffic_at-sort :
      (h : ℕ) (hours : List (RegionHour T))
      → distinct_hours hours ≡ true
      → traffic_at h (sort by_hour hours) ≡ traffic_at h hours
  unfolding traffic_at sort distinct_hours
  traffic_at-sort h [] k = refl
  traffic_at-sort h (b ∷ hours) k =
      traffic_at-insert h b (sort by_hour hours) (ground (arith, hour_in-sort b.hour hours))
      ∙ ground (arith, traffic_at-sort h hours)

  by_hour-IsTotal : IsTotal (by_hour {T = T})
  by_hour-IsTotal = record { total = λ a b h. ground arith; trans = λ a b c h k. ground arith }

  all-earlier :
      (b : RegionHour T) (hours : List (RegionHour T))
      → all (by_hour b) hours ≡ true
      → hour_in b.hour hours ≡ false
      → all (earlier b) hours ≡ true
  unfolding hour_in
  all-earlier b [] h k = refl
  all-earlier b (c ∷ hours) h k = ground (arith, all-earlier b hours)

  strictly-Ordered :
      (hours : List (RegionHour T))
      → Ordered by_hour hours
      → distinct_hours hours ≡ true
      → Ordered earlier hours
  unfolding distinct_hours
  strictly-Ordered [] h k = tt
  strictly-Ordered (b ∷ hours) h k =
      let parts = &&_parts (not (hour_in b.hour hours)) (distinct_hours hours) k in
      (all-earlier b hours h.0 (ground (arith, parts.0)), strictly-Ordered hours h.1 parts.1)

  traffic_at-none :
      (h : ℕ) (b : RegionHour T) (hours : List (RegionHour T))
      → h ≤ b.hour
      → all (earlier b) hours ≡ true
      → traffic_at h hours ≡ none
  unfolding traffic_at
  traffic_at-none h b [] k l = refl
  traffic_at-none h b (c ∷ hours) k l = ground (arith, traffic_at-none h b hours)

  pub or_else-none : (o : Option T) → or_else o none ≡ o
  or_else-none none = refl
  or_else-none (some t) = refl

  or_else_again : (o p : Option T) → or_else o (or_else o p) ≡ or_else o p
  or_else_again none p = refl
  or_else_again (some t) p = refl

  same_bucket : (a b : RegionHour T) → a.hour ≡ b.hour → a.traffic ≡ b.traffic → a ≡ b
  same_bucket a b h k = cc

  -- Hours in order are determined by their map.
  pub Ordered-unique :
      (xs ys : List (RegionHour T))
      → Ordered earlier xs
      → Ordered earlier ys
      → ((h : ℕ) → traffic_at h xs ≡ traffic_at h ys)
      → xs ≡ ys
  unfolding traffic_at
  Ordered-unique [] [] hx hy c = refl
  Ordered-unique [] (y ∷ ys) hx hy c = absurd (ground (arith, c y.hour))
  Ordered-unique (x ∷ xs) [] hx hy c = absurd (ground (arith, c x.hour))
  Ordered-unique (x ∷ xs) (y ∷ ys) hx hy c =
      let hours : x.hour ≡ y.hour = ground (
        arith,
        c x.hour,
        c y.hour,
        traffic_at-none x.hour y ys,
        traffic_at-none y.hour x xs,
        hx.0,
        hy.0,
      ) in
      let traffics : x.traffic ≡ y.traffic = ground (arith, c x.hour, hours) in
      let rest : xs ≡ ys = Ordered-unique xs ys hx.1 hy.1 (λ h.
        ground (arith, c h, hours, traffic_at-none h x xs, traffic_at-none h y ys, hx.0, hy.0)) in
      cc (same_bucket x y hours traffics, rest)

  -- Merging leaves the hours in order, each once, and gives each hour the bucket that the refresh has for
  -- it, or else the one that was stored; where a side lists an hour twice, its last bucket counts.
  pub merge-map :
      (old new : List (RegionHour T))
      → Ordered earlier (merge old new)
        × ((h : ℕ) → traffic_at h (merge old new) ≡ or_else (last_at h new) (last_at h old))
  unfolding merge distinct_hours traffic_at
  merge-map old new =
      let stored = update-distinct old [] refl in
      let both = update-distinct new (update old []) stored in
      (
        strictly-Ordered (merge old new)
            (sort-Ordered by_hour by_hour-IsTotal (update new (update old [])))
            (sort-distinct (update new (update old [])) both),
        λ h.
            traffic_at-sort h (update new (update old [])) both
            ∙ traffic_at-update h new (update old [])
            ∙ ap (or_else (last_at h new))
                (traffic_at-update h old [] ∙ or_else-none (last_at h old)),
      )

  traffic_at-absent :
      (h : ℕ) (hours : List (RegionHour T)) → hour_in h hours ≡ false → traffic_at h hours ≡ none
  unfolding traffic_at hour_in
  traffic_at-absent h [] k = refl
  traffic_at-absent h (b ∷ hours) k = ground (arith, traffic_at-absent h hours)

  merge-distinct : (old new : List (RegionHour T)) → distinct_hours (merge old new) ≡ true
  unfolding merge distinct_hours
  merge-distinct old new =
      sort-distinct (update new (update old []))
        (update-distinct new (update old []) (update-distinct old [] refl))

  last_at-distinct :
      (h : ℕ) (hours : List (RegionHour T))
      → distinct_hours hours ≡ true
      → last_at h hours ≡ traffic_at h hours
  unfolding last_at traffic_at distinct_hours hour_in
  last_at-distinct h [] k = refl
  last_at-distinct h (b ∷ hours) k =
      ground
        (arith, last_at-distinct h hours, traffic_at-absent h hours, or_else-none (last_at h hours))

  -- Merging the same refresh twice gives the same hours as merging it once.
  pub merge-merge : (old new : List (RegionHour T)) → merge (merge old new) new ≡ merge old new
  merge-merge old new =
      let once = merge-map old new in
      let twice = merge-map (merge old new) new in
      Ordered-unique (merge (merge old new) new) (merge old new) twice.0 once.0 (λ h.
        twice.1 h
        ∙ ap (or_else (last_at h new))
            (last_at-distinct h (merge old new) (merge-distinct old new) ∙ once.1 h)
        ∙ or_else_again (last_at h new) (last_at h old)
        ∙ sym (once.1 h))
