-- ===== src/Run/Confirmed.antt =====
-- src/meshprovision/provisioning/readback.py, `verify_plan`: what a verification without a doubt says of
-- the device.
use native.Mathlib.Omega.{arith}
use meshprovision.Common.{
  ℕ, ◌≡◌, refl, ◌∙◌, ap, subst, Bool, true, false, not, ◌||◌, Option, none, some, List, [], ◌∷◌,
  ◌++◌, map, any, all, if◌then◌else◌, Bool-cases, inl, inr, Result,
}
use meshprovision.Common.Text.{Text, codes, text_eq_iff}
use meshprovision.Common.Equality.{Text_eq, mem}
use meshprovision.Common.Sorting.{sort, lex_le}
use meshprovision.Plan.AdminKeys.{texts_eq}
use meshprovision.Apply.{WriteResult, is_doubtful}
use meshprovision.Db.Renumber.Nodes.{texts_eq_iff}
use meshprovision.Run.{SectionChange, FieldChange, ChangePlan, KeyPair, LiveConfig}
use meshprovision.Run.Readback.{
  DeviceKey, listed, holds, key_mismatch, actual_value, verify_field, verify_sections,
  verify_key_material, verify_admin_keys, verify_owner, verify_plan,
}

any-append :
    (xs ys : List WriteResult)
    → any is_doubtful (xs ++ ys) ≡ (any is_doubtful xs || any is_doubtful ys)
any-append [] ys = refl
any-append (x ∷ xs) ys = ground (arith, any-append xs ys)

holds-eq : (held : Option (List ℕ)) (key : List ℕ) → holds held key ≡ true → held ≡ some key
holds-eq none key h = cc
holds-eq (some k) key h = ap some ((text_eq_iff k key).0 h)

when :
    (c : Bool) (r : Option WriteResult)
    → c ≡ true
    → any is_doubtful (listed (if c then r else none)) ≡ false
    → any is_doubtful (listed r) ≡ false
when true r c h = h
when false r c h = cc

none_doubtful :
    (c d e f : List WriteResult)
    → any is_doubtful (c ++ (d ++ (e ++ f))) ≡ false
    → (any is_doubtful d ≡ false) × (any is_doubtful e ≡ false) × (any is_doubtful f ≡ false)
none_doubtful c d e f h =
    ground (arith, any-append c (d ++ (e ++ f)), any-append d (e ++ f), any-append e f)

module _ {V : Type 0} (same : V → V → Bool) (text_of : V → Text) (fingerprint : List ℕ → Text)
    (decode_key : Text → Result Text (List ℕ)) (live : LiveConfig V) where
  -- The device now holds the value that the plan intends, in each field of the sections that were sent.
  abbrev pub all_taken : List Text → List (SectionChange V) → Bool
  all_taken attempted sections =
      all
        (λ s.
          not (mem s.section attempted)
          || all
              (λ c.
                same (actual_value same text_of fingerprint decode_key live s.section c.field)
                  c.desired)
              s.changes)
        sections

  verify_field-taken :
      (section : Text) (c : FieldChange V)
      → is_doubtful (verify_field same text_of fingerprint decode_key live section c)
        ≡ not
            (same (actual_value same text_of fingerprint decode_key live section c.field) c.desired)
  unfolding verify_field is_doubtful
  verify_field-taken section c =
      elim (Bool-cases
        (same (actual_value same text_of fingerprint decode_key live section c.field) c.desired)) [
          | inl taken ↦ rw taken refl
          | inr other ↦ rw other refl
        ]

  fields-taken :
      (section : Text) (changes : List (FieldChange V))
      → any is_doubtful
          (map (verify_field same text_of fingerprint decode_key live section) changes)
        ≡ not (
            all
              (λ c.
                same
                  (actual_value same text_of fingerprint decode_key live section c.field)
                  c.desired)
              changes)
  fields-taken section [] = refl
  fields-taken section (c ∷ changes) =
      ground (arith, verify_field-taken section c, fields-taken section changes)

  sections-taken :
      (attempted : List Text) (sections : List (SectionChange V))
      → any is_doubtful
          (verify_sections same text_of fingerprint decode_key live attempted sections)
        ≡ not (all_taken attempted sections)
  unfolding verify_sections
  sections-taken attempted [] = refl
  sections-taken attempted (s ∷ sections) = elim (Bool-cases (mem s.section attempted)) [
    | inr unsent ↦ rw unsent (sections-taken attempted sections)
    | inl sent ↦ rw sent (
        any-append (map (verify_field same text_of fingerprint decode_key live s.section) s.changes)
          (verify_sections same text_of fingerprint decode_key live attempted sections)
        ∙ rw (fields-taken s.section s.changes, sections-taken attempted sections) (ground arith))
  ]

  admin_keys-taken :
      (plan : ChangePlan V)
      → plan.key_plan.change_admin_keys ≡ true
      → any is_doubtful (listed (verify_admin_keys same text_of fingerprint decode_key plan live))
        ≡ false
      → sort lex_le plan.key_plan.desired_admin_keys ≡ sort lex_le live.admin_keys
  unfolding verify_admin_keys is_doubtful
  admin_keys-taken plan changed h =
      elim (Bool-cases
        (texts_eq (sort lex_le plan.key_plan.desired_admin_keys) (sort lex_le live.admin_keys))) [
          | inl equal ↦
              texts_eq_iff (sort lex_le plan.key_plan.desired_admin_keys)
                (sort lex_le live.admin_keys) equal
          | inr differ ↦
              let doubt : any is_doubtful
                    (listed (verify_admin_keys same text_of fingerprint decode_key plan live))
                  ≡ true =
                rw (changed, differ, verify_admin_keys) refl in
              cc
        ]

  key-taken :
      (plan : ChangePlan V) (pair : KeyPair) (view : DeviceKey)
      → (plan.key_plan.regenerate || plan.key_plan.adopt_device_key) ≡ true
      → any is_doubtful (
          listed
            (verify_key_material same text_of fingerprint decode_key plan live (some pair) view))
        ≡ false
      → live.public_key ≡ some pair.public
  unfolding verify_key_material key_mismatch is_doubtful
  key-taken plan pair view planned h = elim (Bool-cases (holds live.public_key pair.public)) [
    | inl taken ↦ holds-eq live.public_key pair.public taken
    | inr other ↦
        let doubt : any is_doubtful (
              listed (
                verify_key_material same text_of fingerprint decode_key plan live (some pair) view))
            ≡ true =
          rw (planned, other, verify_key_material) refl in
        cc
  ]

  -- A verification without a doubt says that every field of every section that was sent has the value that
  -- the plan intends; that, when `security` was sent and the plan changes the admin keys, the device
  -- holds exactly the plan's, in any order; and that a key which the plan generates and sent, or adopts,
  -- is the device's public key.
  pub verify_plan-taken :
      (plan : ChangePlan V) (keypair : Option KeyPair) (view : DeviceKey) (attempted : List Text)
      (read_back : Bool)
      → any is_doubtful (
          verify_plan same text_of fingerprint decode_key plan live keypair view attempted
            read_back)
        ≡ false
      → (all_taken attempted plan.sections ≡ true)
        × (mem (codes "security") attempted ≡ true
            → plan.key_plan.change_admin_keys ≡ true
            → sort lex_le plan.key_plan.desired_admin_keys ≡ sort lex_le live.admin_keys)
        × ((pair : KeyPair)
            → keypair ≡ some pair
            → (plan.key_plan.regenerate || plan.key_plan.adopt_device_key) ≡ true
            → (mem (codes "security") attempted || not plan.key_plan.regenerate) ≡ true
            → live.public_key ≡ some pair.public)
  unfolding verify_plan
  verify_plan-taken plan keypair view attempted read_back h =
      let sent = mem (codes "security") attempted in
      let material =
        verify_key_material same text_of fingerprint decode_key plan live keypair view in
      let admin = verify_admin_keys same text_of fingerprint decode_key plan live in
      let clear =
        none_doubtful (verify_owner same text_of fingerprint decode_key plan live read_back)
          (verify_sections same text_of fingerprint decode_key live attempted plan.sections)
          (listed (if sent || not plan.key_plan.regenerate then material else none))
          (listed (if sent then admin else none)) h in
      (
        ground (arith, clear.0, sections-taken attempted plan.sections),
        λ was_sent changed. admin_keys-taken plan changed (when sent admin was_sent clear.2),
        λ pair e planned checked. key-taken plan pair view planned (
            subst
              (λ (k : Option KeyPair).
                any is_doubtful (
                  listed (verify_key_material same text_of fingerprint decode_key plan live k view))
                ≡ false)
              e (when (sent || not plan.key_plan.regenerate) material checked clear.1)),
      )
