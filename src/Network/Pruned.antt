-- ===== src/Network/Pruned.antt =====
-- src/meshprovision/network/buckets.py, `prune`: the retention, against merging.
use native.Mathlib.Omega.{arith}
use meshprovision.Common.{
  ◌*◌, ◌-◌, ◌+◌, ◌&&◌, ltb, leb, ◌≡◌, refl, ◌∙◌, sym, ap, ℕ, true, Option, none, some, List, [],
  ◌∷◌, all, ◌==◌ as nat_eq, if◌then◌else◌, Bool-cases, inl, inr,
}
use meshprovision.Common.Sorting.{Ordered}
use meshprovision.Network.{RegionHour, merge, traffic_at, is_kept, floor_hour, prune}
use meshprovision.Network.Merging.{or_else, last_at}
use meshprovision.Network.Sorted.{earlier, or_else-none, Ordered-unique, merge-map}

-- An hour is kept when it ends after the retention's start and has begun by now, five minutes allowed
-- for a clock that is ahead.
is_kept-hour :
    (now k : ℕ)
    → is_kept now (k * 3600) ≡ (ltb (now - 2592000) (k * 3600 + 3600) && leb (k * 3600) (now + 300))
unfolding is_kept floor_hour
is_kept-hour now k = ground (arith)

module _ {T : Type 0} (now : ℕ) where
  within : ℕ → Option T → Option T
  within h o = if is_kept now h then o else none

  within-or_else :
      (h : ℕ) (o p : Option T) → within h (or_else o p) ≡ or_else (within h o) (within h p)
  unfolding within
  within-or_else h o p = elim (Bool-cases (is_kept now h)) [ inl e ↦ rw e refl | inr e ↦ rw e refl ]

  hour_eq : (b : RegionHour T) (h : ℕ) → nat_eq b.hour h ≡ true → b.hour ≡ h
  hour_eq b h e = ground arith

  all-prune :
      (b : RegionHour T) (hours : List (RegionHour T))
      → all (earlier b) hours ≡ true
      → all (earlier b) (prune now hours) ≡ true
  unfolding prune
  all-prune b [] h = refl
  all-prune b (c ∷ hours) h = ground (arith, all-prune b hours)

  prune-Ordered :
      (hours : List (RegionHour T)) → Ordered earlier hours → Ordered earlier (prune now hours)
  unfolding prune
  prune-Ordered [] h = tt
  prune-Ordered (b ∷ hours) h = elim (Bool-cases (is_kept now b.hour)) [
    | inl e ↦ rw e ((all-prune b hours h.0, prune-Ordered hours h.1))
    | inr e ↦ rw e (prune-Ordered hours h.1)
  ]

  traffic_at-prune :
      (h : ℕ) (hours : List (RegionHour T))
      → traffic_at h (prune now hours) ≡ within h (traffic_at h hours)
  unfolding prune traffic_at within
  traffic_at-prune h [] = ground arith
  traffic_at-prune h (b ∷ hours) = elim (Bool-cases (nat_eq b.hour h)) [
    | inl e ↦ ground (arith, traffic_at-prune h hours, e, ap (is_kept now) (hour_eq b h e))
    | inr e ↦ ground (arith, traffic_at-prune h hours, e)
  ]

  last_at-prune :
      (h : ℕ) (hours : List (RegionHour T))
      → last_at h (prune now hours) ≡ within h (last_at h hours)
  unfolding prune last_at within
  last_at-prune h [] = ground arith
  last_at-prune h (b ∷ hours) = elim (Bool-cases (nat_eq b.hour h)) [
    | inl e ↦ ground (
      arith,
      last_at-prune h hours,
      e,
      ap (is_kept now) (hour_eq b h e),
      or_else-none (last_at h (prune now hours)),
      or_else-none (within h (last_at h hours)),
      within-or_else h (last_at h hours) (some b.traffic),
    )
    | inr e ↦ ground (
      arith,
      last_at-prune h hours,
      e,
      or_else-none (last_at h (prune now hours)),
      or_else-none (last_at h hours),
    )
  ]

  merged_or_pruned :
      (old new : List (RegionHour T))
      → prune now (merge old new) ≡ merge (prune now old) (prune now new)
  merged_or_pruned old new =
      let whole = merge-map old new in
      let parts = merge-map (prune now old) (prune now new) in
      Ordered-unique (prune now (merge old new)) (merge (prune now old) (prune now new))
        (prune-Ordered (merge old new) whole.0) parts.0
        (λ h.
          traffic_at-prune h (merge old new)
          ∙ ap (within h) (whole.1 h)
          ∙ within-or_else h (last_at h new) (last_at h old)
          ∙ sym (parts.1 h ∙ cc (last_at-prune h new, last_at-prune h old)))

  -- After a prune of the merged hours, an hour that ends in the last 30 days and has begun by now, with
  -- five minutes for a clock that is ahead, has its last traffic in the new hours, or else in the
  -- old ones, and any other hour has none; and pruning both lists before the merge gives the same
  -- stored hours.
  pub prune-merge :
      (old new : List (RegionHour T)) (k : ℕ)
      → (traffic_at (k * 3600) (prune now (merge old new)) ≡ (
          if ltb (now - 2592000) (k * 3600 + 3600) && leb (k * 3600) (now + 300)
          then or_else (last_at (k * 3600) new) (last_at (k * 3600) old)
          else none))
        × (prune now (merge old new) ≡ merge (prune now old) (prune now new))
  unfolding within
  prune-merge old new k = (
    traffic_at-prune (k * 3600) (merge old new)
        ∙ ap (within (k * 3600)) ((merge-map old new).1 (k * 3600))
        ∙ rw (is_kept-hour now k) refl,
    merged_or_pruned old new,
  )
