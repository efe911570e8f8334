-- ===== src/Plan/AdminKeys/Distinct.antt =====
-- src/meshprovision/provisioning/plan_admin_keys.py, `_distinct_admin_keys`: each key once.
use native.Mathlib.Omega.{arith}
use meshprovision.Common.{
  ◌≡◌, inl, inr, refl, ◌∙◌, ap, true, false, ◌||◌, none, some, List, [], ◌∷◌, ◌++◌, map,
  if◌then◌else◌, Option-cases,
}
use meshprovision.Common.Text.{Text, text_eq, text_eq_iff}
use meshprovision.Common.Equality.{Text_eq, mem, distinct}
use meshprovision.Plan.{Key, ResolvedAdminKey, PlanWarning, duplicate_admin_key_ref}
use meshprovision.Plan.AdminKeys.{ref_of, distinct_loop, distinct_admin_keys}

pub mem-append : (k : Key) (xs ys : List Key) → mem k (xs ++ ys) ≡ (mem k xs || mem k ys)
mem-append k [] ys = refl
mem-append k (x ∷ xs) ys = ground (arith, mem-append k xs ys)

distinct-snoc :
    (k : Key) (xs : List Key)
    → distinct xs ≡ true
    → mem k xs ≡ false
    → distinct (xs ++ k ∷ []) ≡ true
distinct-snoc k [] u m = refl
distinct-snoc k (x ∷ xs) u m =
    ground (arith, distinct-snoc k xs, mem-append x xs (k ∷ []), text_eq_iff k x, text_eq_iff x k)

abbrev keys_of : List (Key × Text) → List Key
keys_of known = map (λ (entry : Key × Text). entry.0) known

ref_of-none :
    (k : Key) (known : List (Key × Text)) → ref_of k known ≡ none → mem k (keys_of known) ≡ false
unfolding ref_of
ref_of-none k [] h = refl
ref_of-none k ((j, r) ∷ known) h =
    ground (arith, ref_of-none k known, text_eq_iff k j, text_eq_iff j k)

ref_of-some :
    (k : Key) (known : List (Key × Text)) (r : Text)
    → ref_of k known ≡ some r
    → mem k (keys_of known) ≡ true
unfolding ref_of
ref_of-some k [] r h = cc
ref_of-some k ((j, x) ∷ known) r h =
    ground (arith, ref_of-some k known r, text_eq_iff k j, text_eq_iff j k)

keys_of-append : (xs ys : List (Key × Text)) → keys_of (xs ++ ys) ≡ keys_of xs ++ keys_of ys
keys_of-append [] ys = refl
keys_of-append (x ∷ xs) ys = ap (λ ks. x.0 ∷ ks) (keys_of-append xs ys)

-- One round of the loop on a new key, and on a key that is there already.
module _ (known : List (Key × Text)) (ws : List PlanWarning) (key : ResolvedAdminKey)
    (keys : List ResolvedAdminKey) where
  round_new :
      ref_of key.public known ≡ none
      → distinct_loop known ws (key ∷ keys)
        ≡ distinct_loop (known ++ (key.public, key.ref) ∷ []) ws keys
  unfolding distinct_loop
  round_new e = rw (e, distinct_loop) refl

  round_known :
      (r : Text)
      → ref_of key.public known ≡ some r
      → distinct_loop known ws (key ∷ keys)
        ≡ distinct_loop known
            (if text_eq r key.ref then ws else ws ++ duplicate_admin_key_ref r key ∷ [])
            keys
  unfolding distinct_loop
  round_known r e = rw (e, distinct_loop) refl

abbrev pub publics : List ResolvedAdminKey → List Key
publics keys = map (λ (k : ResolvedAdminKey). k.public) keys

loop-mem :
    (known : List (Key × Text)) (ws : List PlanWarning) (keys : List ResolvedAdminKey)
    → distinct (keys_of known) ≡ true
    → (distinct (distinct_loop known ws keys).0 ≡ true)
      × ((k : Key)
          → mem k (distinct_loop known ws keys).0 ≡ (mem k (keys_of known) || mem k (publics keys)))
loop-mem known ws [] u = unfold distinct_loop in (u, λ k. ground arith)
loop-mem known ws (key ∷ keys) u = elim (Option-cases (ref_of key.public known)) [
  | inl new ↦
      let fresh = ref_of-none key.public known new in
      let shape = keys_of-append known ((key.public, key.ref) ∷ []) in
      let ih =
        loop-mem (known ++ (key.public, key.ref) ∷ []) ws keys
          (rw shape (distinct-snoc key.public (keys_of known) u fresh)) in
      rw (round_new known ws key keys new) (
        (
          ih.0,
          λ k. ih.1 k ∙ rw (shape, mem-append k (keys_of known) (key.public ∷ [])) (ground arith),
        ))
  | inr (r, old) ↦
      let there = ref_of-some key.public known r old in
      let ih =
        loop-mem known (if text_eq r key.ref then ws else ws ++ duplicate_admin_key_ref r key ∷ [])
          keys u in
      rw (round_known known ws key keys r old)
        ((ih.0, λ k. ih.1 k ∙ ground (arith, there, text_eq_iff k key.public)))
]

-- Every key of the list, once.
pub distinct_admin_keys-mem :
    (keys : List ResolvedAdminKey)
    → (distinct (distinct_admin_keys keys).0 ≡ true)
      × ((k : Key) → mem k (distinct_admin_keys keys).0 ≡ mem k (publics keys))
distinct_admin_keys-mem keys = unfold distinct_admin_keys in loop-mem [] [] keys refl
