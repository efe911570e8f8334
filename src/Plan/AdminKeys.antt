-- ===== src/Plan/AdminKeys.antt =====
-- src/meshprovision/provisioning/plan_admin_keys.py: which admin keys a plan writes, which live
-- ones it removes, and what it warns of.
mod Distinct
mod Slots
pub mod Laws
use meshprovision.Common.{
  ℕ, zero, suc, ◌+◌, Bool, true, false, not, ◌&&◌, ◌||◌, Option, none, some, List, [], ◌∷◌, ◌++◌,
  map, keep, length, ltb, is_empty, if◌then◌else◌, Result, ok, err,
}
use meshprovision.Common.Text.{Text, text_eq}
use meshprovision.Common.Equality.{◌==◌, Text_eq, ℕ_eq, mem}
use meshprovision.Common.Sorting.{sort, lex_le}
use meshprovision.Plan.{
  Key, PlanInputs, ResolvedAdminKey, PlanWarning, duplicate_admin_key_ref,
  resolved_admin_key_forced, resolved_admin_key_rejected, resolved_admin_key_unusable,
  live_admin_key_revoked, live_admin_key_rejected, max_admin_keys,
}

pub record AdminKeyPlan : Type 0 where
  pub desired : List Key
  pub desired_refs : List Text
  pub change_admin_keys : Bool
  pub removed : List ℕ
  pub revoked : List ℕ
  pub removed_refs : List Text
  pub rejected_refs : List Text
  pub warnings : List PlanWarning

-- AdminKeyCapacityError, with the count.
pub data CapacityError : Type 0 where
  too_many : ℕ → CapacityError

-- `first_ref.get(key)` of the dict of keys, in insertion order, with the ref that each came with.
unfoldable pub ref_of : Key → List (Key × Text) → Option Text
ref_of k [] = none
ref_of k ((j, r) ∷ known) = if j == k then some r else ref_of k known

-- The loop of `_distinct_admin_keys`.
unfoldable pub distinct_loop :
    List (Key × Text) → List PlanWarning → List ResolvedAdminKey → List Key × List PlanWarning
distinct_loop known warnings [] = (map (λ (entry : Key × Text). entry.0) known, warnings)
distinct_loop known warnings (key ∷ keys) = elim (ref_of key.public known) [
  | none ↦ distinct_loop (known ++ (key.public, key.ref) ∷ []) warnings keys
  | some first ↦
      distinct_loop known
        (if text_eq first key.ref
          then warnings
          else warnings ++ duplicate_admin_key_ref first key ∷ [])
        keys
]

unfoldable pub distinct_admin_keys : List ResolvedAdminKey → List Key × List PlanWarning
unfolding distinct_loop
distinct_admin_keys authorized = distinct_loop [] [] authorized

-- `enumerate(keys)`, from a first index.
unfoldable pub enumerate : ℕ → List Key → List (ℕ × Key)
enumerate i [] = []
enumerate i (k ∷ ks) = (i, k) ∷ enumerate (i + 1) ks

-- `[i for i, k in enumerate(keys) if p(i, k)]`
unfoldable pub indices : (ℕ → Key → Bool) → List Key → List ℕ
unfolding enumerate
indices p keys =
    map (λ (entry : ℕ × Key). entry.0)
      (keep (λ (entry : ℕ × Key). p entry.0 entry.1) (enumerate 0 keys))

unfoldable pub dropped_indices : PlanInputs → List ℕ
dropped_indices inputs = indices (λ i k. mem k inputs.rejected_admin_keys) inputs.live.admin_keys

-- The live keys that the audit did not reject.
unfoldable pub kept_keys : PlanInputs → List Key
kept_keys inputs =
    map (λ (entry : ℕ × Key). entry.1)
      (keep (λ (entry : ℕ × Key). not (mem entry.0 (dropped_indices inputs)))
        (enumerate 0 inputs.live.admin_keys))

abbrev pub is_weak : ResolvedAdminKey → Bool
is_weak k = not k.audit_ok

unfoldable pub authorized_keys : PlanInputs → List ResolvedAdminKey
authorized_keys inputs =
    if inputs.allow_weak_admin_key
    then keep (λ k. k.audit_ok || k.audit_overridable) inputs.admin_keys
    else keep (λ k. k.audit_ok) inputs.admin_keys

unfoldable pub rejected_keys : PlanInputs → List ResolvedAdminKey
rejected_keys inputs =
    let weak = keep is_weak inputs.admin_keys in
    if inputs.allow_weak_admin_key then keep (λ k. not k.audit_overridable) weak else weak

unfoldable pub audit_warnings : PlanInputs → List PlanWarning
audit_warnings inputs =
    let weak = keep is_weak inputs.admin_keys in
    if inputs.allow_weak_admin_key
    then map resolved_admin_key_forced (keep (λ k. k.audit_overridable) weak)
      ++ map resolved_admin_key_unusable (keep (λ k. not k.audit_overridable) weak)
    else map resolved_admin_key_rejected weak

unfoldable pub revoked_indices : PlanInputs → List Key → List ℕ
revoked_indices inputs desired =
    indices (λ i k. not (mem i (dropped_indices inputs)) && not (mem k desired))
      inputs.live.admin_keys

-- `live_keys[i]`; every index that is used is in range.
unfoldable pub key_at : List Key → ℕ → Key
key_at [] i = []
key_at (k ∷ ks) zero = k
key_at (k ∷ ks) (suc i) = key_at ks i

unfoldable pub removed_indices : PlanInputs → List Key → List ℕ
removed_indices inputs desired =
    keep (λ i. not (mem (key_at inputs.live.admin_keys i) desired)) (dropped_indices inputs)

-- `==` on tuples of keys.
unfoldable pub texts_eq : List Key → List Key → Bool
texts_eq [] [] = true
texts_eq [] (y ∷ ys) = false
texts_eq (x ∷ xs) [] = false
texts_eq (x ∷ xs) (y ∷ ys) = x == y && texts_eq xs ys

-- The plan for a desired set, with the removals that every branch reports first.
unfoldable pub finish :
    PlanInputs → List Key → List Text → List ℕ → List Text → List PlanWarning → AdminKeyPlan
finish inputs desired desired_refs revoked rejected_refs warnings =
    let removed = removed_indices inputs desired in
    record {
      desired = desired;
      desired_refs = desired_refs;
      change_admin_keys = not (texts_eq (sort lex_le desired) (sort lex_le inputs.live.admin_keys));
      removed = removed;
      revoked = revoked;
      removed_refs = inputs.removed_admin_key_refs;
      rejected_refs = rejected_refs;
      warnings = map live_admin_key_rejected removed ++ warnings;
    }

-- The plan of a template that names admins.
unfoldable pub plan_named : PlanInputs → AdminKeyPlan
unfolding finish
plan_named inputs =
    let desired = (distinct_admin_keys (authorized_keys inputs)).0 in
    let revoked = revoked_indices inputs desired in
    finish inputs desired (map (λ k. k.key_ref) (authorized_keys inputs)) revoked
      (map (λ k. k.key_ref) (rejected_keys inputs))
      (audit_warnings inputs
        ++ (distinct_admin_keys (authorized_keys inputs)).1
        ++ map live_admin_key_revoked revoked)

unfoldable pub plan_admin_key_material : PlanInputs → Result CapacityError AdminKeyPlan
plan_admin_key_material inputs =
    if is_empty inputs.template.admin_nodes
    then ok (finish inputs (kept_keys inputs) [] [] [] [])
    else if ltb max_admin_keys (length inputs.admin_keys)
    then err (too_many (length inputs.admin_keys))
    else ok (plan_named inputs)
