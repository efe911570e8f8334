-- ===== src/Plan/AdminKeys/Slots.antt =====
-- src/meshprovision/provisioning/plan_admin_keys.py, the live slots: the index lists of the plan,
-- told by the key that stands at an index.
use native.Mathlib.Omega.{arith}
use meshprovision.Common.{
  ℕ, zero, suc, ◌+◌, ◌<◌, ◌≡◌, refl, ◌∙◌, ap, sym, Bool, false, not, ◌&&◌, some, List, [], ◌∷◌, map,
  keep, get_elem?, Bool-cases, inl, inr,
}
use meshprovision.Common.Equality.{Text_eq, ℕ_eq, mem}
use meshprovision.Plan.{Key, PlanInputs}
use meshprovision.Plan.AdminKeys.{
  enumerate, indices, dropped_indices, kept_keys, revoked_indices, removed_indices, key_at,
}

module _ (p : ℕ → Key → Bool) where
  abbrev indices_from : ℕ → List Key → List ℕ
  indices_from n keys =
      map (λ (entry : ℕ × Key). entry.0)
        (keep (λ (entry : ℕ × Key). p entry.0 entry.1) (enumerate n keys))

  mem-indices_below : (n j : ℕ) (keys : List Key) → j < n → mem j (indices_from n keys) ≡ false
  unfolding enumerate
  mem-indices_below n j [] h = refl
  mem-indices_below n j (k ∷ keys) h = ground (arith, mem-indices_below (n + 1) j keys)

  mem-indices_from :
      (n i : ℕ) (keys : List Key) (k : Key)
      → get_elem? keys i ≡ some k
      → mem (n + i) (indices_from n keys) ≡ p (n + i) k
  unfolding enumerate
  mem-indices_from n i [] k h = cc
  mem-indices_from n zero (x ∷ keys) k h =
      let here : n + 0 ≡ n = omega arith in
      rw here (ground (arith, mem-indices_below (n + 1) n keys))
  mem-indices_from n (suc i) (x ∷ keys) k h =
      let there : n + suc i ≡ n + 1 + i = omega arith in
      rw there (ground (arith, mem-indices_from (n + 1) i keys k))

  pub mem-indices :
      (i : ℕ) (keys : List Key) (k : Key)
      → get_elem? keys i ≡ some k
      → mem i (indices p keys) ≡ p i k
  unfolding indices
  mem-indices i keys k h = ground (arith, mem-indices_from 0 i keys k)

kept_from :
    (q : ℕ → Bool) (p : Key → Bool) (n : ℕ) (keys : List Key)
    → ((i : ℕ) (k : Key) → get_elem? keys i ≡ some k → q (n + i) ≡ p k)
    → map (λ (entry : ℕ × Key). entry.1) (keep (λ (entry : ℕ × Key). q entry.0) (enumerate n keys))
      ≡ keep p keys
unfolding enumerate
kept_from q p n [] h = refl
kept_from q p n (k ∷ keys) h =
    let first : n + 0 ≡ n = omega arith in
    let here : q n ≡ p k = ap q (sym first) ∙ h 0 k refl in
    let rest =
      kept_from q p (n + 1) keys
        (λ i x e. let shift : n + 1 + i ≡ n + suc i = omega arith in ap q shift ∙ h (suc i) x e) in
    elim (Bool-cases (p k)) [
      | inl pass ↦ rw (here, pass) (ap (λ ks. k ∷ ks) rest)
      | inr fail ↦ rw (here, fail) rest
    ]

key_at-get_elem? :
    (keys : List Key) (i : ℕ) (k : Key) → get_elem? keys i ≡ some k → key_at keys i ≡ k
unfolding key_at
key_at-get_elem? [] i k h = cc
key_at-get_elem? (x ∷ keys) zero k h = ground arith
key_at-get_elem? (x ∷ keys) (suc i) k h = key_at-get_elem? keys i k h

mem-keep : (p : ℕ → Bool) (i : ℕ) (xs : List ℕ) → mem i (keep p xs) ≡ (mem i xs && p i)
mem-keep p i [] = refl
mem-keep p i (x ∷ xs) = ground (arith, mem-keep p i xs)

module _ (inputs : PlanInputs) where
  mem-dropped :
      (i : ℕ) (k : Key)
      → get_elem? inputs.live.admin_keys i ≡ some k
      → mem i (dropped_indices inputs) ≡ mem k inputs.rejected_admin_keys
  unfolding dropped_indices
  mem-dropped i k h =
      mem-indices (λ i k. mem k inputs.rejected_admin_keys) i inputs.live.admin_keys k h

  pub kept_keys-eq_keep :
      kept_keys inputs ≡ keep (λ k. not (mem k inputs.rejected_admin_keys)) inputs.live.admin_keys
  unfolding kept_keys
  kept_keys-eq_keep =
      kept_from (λ i. not (mem i (dropped_indices inputs)))
        (λ k. not (mem k inputs.rejected_admin_keys)) 0 inputs.live.admin_keys
        (λ i k h. ap not (ground (arith, mem-dropped i k h)))

  module _ (desired : List Key) (i : ℕ) (k : Key)
      (at : get_elem? inputs.live.admin_keys i ≡ some k) where
    pub mem-revoked :
        mem i (revoked_indices inputs desired)
        ≡ (not (mem k inputs.rejected_admin_keys) && not (mem k desired))
    unfolding revoked_indices
    mem-revoked =
        mem-indices (λ i k. not (mem i (dropped_indices inputs)) && not (mem k desired)) i
          inputs.live.admin_keys k at
        ∙ rw (mem-dropped i k at) refl

    pub mem-removed :
        mem i (removed_indices inputs desired)
        ≡ (mem k inputs.rejected_admin_keys && not (mem k desired))
    unfolding removed_indices
    mem-removed =
        mem-keep (λ i. not (mem (key_at inputs.live.admin_keys i) desired)) i
          (dropped_indices inputs)
        ∙ rw (mem-dropped i k at, key_at-get_elem? inputs.live.admin_keys i k at) refl
