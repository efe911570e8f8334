-- ===== src/Plan/AdminKeys/Laws.antt =====
-- src/meshprovision/provisioning/plan_admin_keys.py, `plan_admin_key_material`: what the plan
-- authorizes, what it removes, and when it writes.
use native.Mathlib.Omega.{arith}
use meshprovision.Common.{
  ℕ, suc, ◌<◌, ◌≡◌, ◌↔◌, ◌⊎◌, inl, inr, refl, ◌∙◌, ap, sym, subst, Bool, true, false, not, ◌&&◌,
  ◌||◌, some, List, [], ◌∷◌, any, keep, get_elem?, length, is_empty, ok, err, Bool-cases,
}
use meshprovision.Common.Text.{text_eq_iff}
use meshprovision.Common.Equality.{◌==◌, Text_eq, ℕ_eq, mem, distinct}
use meshprovision.Common.Sorting.{sort, lex_le, lex_IsTotal, lex_antisymm, count, sort-eq_iff}
use meshprovision.Plan.{Key, PlanInputs, ResolvedAdminKey}
use meshprovision.Plan.AdminKeys.{
  AdminKeyPlan, too_many, texts_eq, finish, kept_keys, authorized_keys, distinct_admin_keys,
  plan_admin_key_material, plan_named,
}
use meshprovision.Plan.AdminKeys.Slots.{kept_keys-eq_keep, mem-revoked, mem-removed}
use meshprovision.Plan.AdminKeys.Distinct.{distinct_admin_keys-mem, publics}

texts_eq_iff : (xs ys : List Key) → (texts_eq xs ys ≡ true) ↔ (xs ≡ ys)
unfolding texts_eq
texts_eq_iff [] [] = ground arith
texts_eq_iff [] (y ∷ ys) = ground arith
texts_eq_iff (x ∷ xs) [] = ground arith
texts_eq_iff (x ∷ xs) (y ∷ ys) = ground (arith, texts_eq_iff xs ys, text_eq_iff x y)

-- Whether a template's key may be authorized.
abbrev pub may_authorize : PlanInputs → ResolvedAdminKey → Bool
may_authorize inputs a = a.audit_ok || (inputs.allow_weak_admin_key && a.audit_overridable)

mem-publics-keep :
    (p : ResolvedAdminKey → Bool) (k : Key) (keys : List ResolvedAdminKey)
    → mem k (publics (keep p keys)) ≡ any (λ a. p a && k == a.public) keys
mem-publics-keep p k [] = refl
mem-publics-keep p k (a ∷ keys) = ground (arith, mem-publics-keep p k keys)

any-ext :
    (p q : ResolvedAdminKey → Bool) (keys : List ResolvedAdminKey)
    → ((a : ResolvedAdminKey) → p a ≡ q a)
    → any p keys ≡ any q keys
any-ext p q [] h = refl
any-ext p q (a ∷ keys) h = rw (h a, any-ext p q keys h) refl

mem-keep-not :
    (xs : List Key) (k : Key) (keys : List Key)
    → mem k (keep (λ j. not (mem j xs)) keys) ≡ (mem k keys && not (mem k xs))
mem-keep-not xs k [] = refl
mem-keep-not xs k (j ∷ keys) = ground (arith, mem-keep-not xs k keys, text_eq_iff k j)

mem_of_get_elem? :
    (keys : List Key) (i : ℕ) (k : Key) → get_elem? keys i ≡ some k → mem k keys ≡ true
mem_of_get_elem? [] i k h = cc
mem_of_get_elem? (x ∷ keys) ℕ.zero k h = ground (arith, text_eq_iff k x)
mem_of_get_elem? (x ∷ keys) (suc i) k h = ground (arith, mem_of_get_elem? keys i k)

module _ (inputs : PlanInputs) where
  abbrev pub Removals : AdminKeyPlan → ℕ → Key → Type 0
  Removals plan i k =
      (mem i plan.removed ≡ (mem k inputs.rejected_admin_keys && not (mem k plan.desired)))
      × (mem i plan.revoked ≡ (not (mem k inputs.rejected_admin_keys) && not (mem k plan.desired)))

  mem-authorized :
      (k : Key)
      → mem k (publics (authorized_keys inputs))
        ≡ any (λ a. may_authorize inputs a && k == a.public) inputs.admin_keys
  unfolding authorized_keys
  mem-authorized k = elim (Bool-cases inputs.allow_weak_admin_key) [
    | inl weak ↦ rw weak (mem-publics-keep _ k inputs.admin_keys)
    | inr strict ↦ rw strict (
        mem-publics-keep _ k inputs.admin_keys
        ∙ any-ext (λ a. a.audit_ok && k == a.public)
            (λ a. (a.audit_ok || (false && a.audit_overridable)) && k == a.public) inputs.admin_keys
            (λ a. ground arith))
  ]

  -- The two branches that return a plan.
  plan_cases :
      (plan : AdminKeyPlan)
      → plan_admin_key_material inputs ≡ ok plan
      → ((is_empty inputs.template.admin_nodes ≡ true)
          × (finish inputs (kept_keys inputs) [] [] [] [] ≡ plan))
        ⊎ ((is_empty inputs.template.admin_nodes ≡ false) × (plan_named inputs ≡ plan))
  unfolding plan_admin_key_material
  plan_cases plan h = ground arith

  -- A template that names admins authorizes, each once, exactly the keys of those entries whose
  -- audit passed, or failed in a way that the operator may override and has overridden; a template
  -- that names none keeps exactly the live keys that the audit did not reject, in their slots'
  -- order.
  pub desired-authorized :
      (plan : AdminKeyPlan)
      → plan_admin_key_material inputs ≡ ok plan
      → ((is_empty inputs.template.admin_nodes ≡ true)
          × (plan.desired
              ≡ keep (λ k. not (mem k inputs.rejected_admin_keys)) inputs.live.admin_keys))
        ⊎ ((is_empty inputs.template.admin_nodes ≡ false)
            × (distinct plan.desired ≡ true)
            × ((k : Key)
                → mem k plan.desired
                  ≡ any (λ a. may_authorize inputs a && k == a.public) inputs.admin_keys))
  unfolding plan_named
  desired-authorized plan h = elim (plan_cases plan h) [
    | inl (unnamed, e) ↦
        inl (unnamed, ap (λ (p : AdminKeyPlan). p.desired) (sym e) ∙ kept_keys-eq_keep inputs)
    | inr (named, e) ↦
        let facts = distinct_admin_keys-mem (authorized_keys inputs) in
        inr (
          (
            named,
            subst (λ (p : AdminKeyPlan). distinct p.desired ≡ true) e facts.0,
            λ k. ap (λ (p : AdminKeyPlan). mem k p.desired) (sym e) ∙ facts.1 k ∙ mem-authorized k,
          ))
  ]

  -- A live key's slot is listed as removed exactly when the audit rejected the key and the plan does
  -- not keep it, and as revoked exactly when the audit did not reject it and the plan does not keep
  -- it.
  pub live_keys-accounted :
      (plan : AdminKeyPlan) (i : ℕ) (k : Key)
      → plan_admin_key_material inputs ≡ ok plan
      → get_elem? inputs.live.admin_keys i ≡ some k
      → Removals plan i k
  unfolding plan_named
  live_keys-accounted plan i k h at = elim (plan_cases plan h) [
    | inl (unnamed, e) ↦
        subst (λ (p : AdminKeyPlan). Removals p i k) e
          ((
            mem-removed inputs (kept_keys inputs) i k at,
            rw (kept_keys-eq_keep inputs) (
                ground (
                  arith,
                  mem-keep-not inputs.rejected_admin_keys k inputs.live.admin_keys,
                  mem_of_get_elem? inputs.live.admin_keys i k at,
                )),
          ))
    | inr (named, e) ↦
        let desired = (distinct_admin_keys (authorized_keys inputs)).0 in
        subst (λ (p : AdminKeyPlan). Removals p i k) e
          ((mem-removed inputs desired i k at, mem-revoked inputs desired i k at))
  ]

  abbrev Changes : AdminKeyPlan → Type 0
  Changes plan =
      (plan.change_admin_keys ≡ false)
      ↔ ((k : Key) → count k plan.desired ≡ count k inputs.live.admin_keys)

  Changes-of :
      (plan : AdminKeyPlan)
      → plan.change_admin_keys
        ≡ not (texts_eq (sort lex_le plan.desired) (sort lex_le inputs.live.admin_keys))
      → Changes plan
  Changes-of plan e =
      let live = inputs.live.admin_keys in
      let same = texts_eq_iff (sort lex_le plan.desired) (sort lex_le live) in
      let counts = sort-eq_iff lex_le lex_IsTotal lex_antisymm plan.desired live in
      (λ h. counts.0 (same.0 (ground arith)), λ c. e ∙ ap not (same.1 (counts.1 c)))

  -- A plan leaves the device's admin keys alone exactly when it wants every key as often as the
  -- device has it.
  pub change_admin_keys_iff :
      (plan : AdminKeyPlan)
      → plan_admin_key_material inputs ≡ ok plan
      → (plan.change_admin_keys ≡ false)
        ↔ ((k : Key) → count k plan.desired ≡ count k inputs.live.admin_keys)
  unfolding plan_named
  change_admin_keys_iff plan h = elim (plan_cases plan h) [
    | inl (unnamed, e) ↦
        unfold finish in
        subst Changes e (Changes-of (finish inputs (kept_keys inputs) [] [] [] []) refl)
    | inr (named, e) ↦ subst Changes e (Changes-of (plan_named inputs) refl)
  ]

  -- The plan is refused exactly when the template names admins and more of them resolved than the
  -- firmware has slots.
  capacity_iff :
      (n : ℕ)
      → (plan_admin_key_material inputs ≡ err (too_many n)) ↔ (
          (is_empty inputs.template.admin_nodes ≡ false)
          × (3 < length inputs.admin_keys)
          × (n ≡ length inputs.admin_keys))
  unfolding plan_admin_key_material
  capacity_iff n =
      (λ h. (ground arith, ground arith, ground arith), λ (named, many, e). ground arith)
