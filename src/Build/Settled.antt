-- ===== src/Build/Settled.antt =====
-- src/meshprovision/provisioning/plan.py: a plan built again, from a device that reads as the first
-- plan has set it.
use native.Mathlib.Omega.{arith}
use meshprovision.Common.{
  ◌≡◌, refl, subst, ℕ, Bool, true, false, not, ◌||◌, Option, none, some, List, [], ◌∷◌, ◌++◌, map,
  all, ltb, if◌then◌else◌, &&_parts, Bool-cases, inl, inr,
}
use meshprovision.Common.Text.{Text, text_eq_iff}
use meshprovision.Common.Equality.{◌==◌, Text_eq, mem, distinct}
use meshprovision.Db.Table.{find}
use meshprovision.Run.{FieldChange, SectionChange}
use meshprovision.Build.{Values, Setting}
use meshprovision.Build.Sections.{section_key, listed_section, diff_fields}
use meshprovision.Build.Ranks.{section_rank, within, Ranked}

-- The value that a plan's changes set a field to.
unfoldable pub set_value : {V : Type 0} → List (FieldChange V) → Text → Option V
set_value [] f = none
set_value (c ∷ changes) f =
    let rest = set_value changes f in if c.field == f then some c.desired else rest

-- The fields of a section of the template, which are the keys of a dict.
abbrev pub fields_of : {V : Type 0} → List (Setting V) → List Text
fields_of settings = map (λ s. s.field) settings

module _ {V : Type 0} (values : Values V) where
  -- A field reads as it was set, or else as before.
  abbrev pub Settles : Option V → V → V → Type 0
  Settles none before after = before ≡ after
  Settles (some v) before after = values.same after v ≡ true

  set_value-none :
      (read : Text → V) (secret : Text → Bool) (settings : List (Setting V)) (f : Text)
      → mem f (fields_of settings) ≡ false
      → set_value (diff_fields values read secret settings) f ≡ none
  unfolding set_value diff_fields
  set_value-none read secret [] f h = refl
  set_value-none read secret (s ∷ settings) f h =
      ground
        (arith, set_value-none read secret settings f, text_eq_iff s.field f, text_eq_iff f s.field)

  -- The value set by the diff, field by field.
  set_value-head :
      (read : Text → V) (secret : Text → Bool) (s : Setting V) (settings : List (Setting V))
      → mem s.field (fields_of settings) ≡ false
      → set_value (diff_fields values read secret (s ∷ settings)) s.field
        ≡ (if values.same (read s.field) s.desired then none else some s.desired)
  unfolding set_value diff_fields
  set_value-head read secret s settings h =
      ground (arith, set_value-none read secret settings s.field h, text_eq_iff s.field s.field)

  set_value-rest :
      (read : Text → V) (secret : Text → Bool) (s : Setting V) (settings : List (Setting V))
      (f : Text)
      → (s.field == f) ≡ false
      → set_value (diff_fields values read secret (s ∷ settings)) f
        ≡ set_value (diff_fields values read secret settings) f
  unfolding set_value diff_fields
  set_value-rest read secret s settings f h = ground arith

  same_after :
      (before after desired : V)
      → Settles (if values.same before desired then none else some desired) before after
      → values.same after desired ≡ true
  same_after before after desired h = elim (Bool-cases (values.same before desired)) [
    | inl e ↦
        let kept : before ≡ after =
          subst (λ (c : Bool). Settles (if c then none else some desired) before after) e h in
        subst (λ (v : V). values.same v desired ≡ true) kept e
    | inr e ↦ subst (λ (c : Bool). Settles (if c then none else some desired) before after) e h
  ]

  pub diff_fields-settled :
      (before after : Text → V) (secret : Text → Bool) (settings : List (Setting V))
      → distinct (fields_of settings) ≡ true
      → ((f : Text)
          → mem f (fields_of settings) ≡ true
          → Settles (set_value (diff_fields values before secret settings) f) (before f) (after f))
      → diff_fields values after secret settings ≡ []
  unfolding diff_fields
  diff_fields-settled before after secret [] d h = refl
  diff_fields-settled before after secret (s ∷ settings) d h =
      let names =
        &&_parts (not (mem s.field (fields_of settings))) (distinct (fields_of settings)) d in
      let apart : mem s.field (fields_of settings) ≡ false = ground (arith, names.0) in
      let here : values.same (after s.field) s.desired ≡ true =
        same_after (before s.field) (after s.field) s.desired (
          subst (λ (o : Option V). Settles o (before s.field) (after s.field))
            (set_value-head before secret s settings apart)
            (h s.field (ground (arith, text_eq_iff s.field s.field)))) in
      let rest : diff_fields values after secret settings ≡ [] =
        diff_fields-settled before after secret settings names.1 (λ f m.
          subst (λ (o : Option V). Settles o (before f) (after f))
            (set_value-rest before secret s settings f
              (ground (arith, m, apart, text_eq_iff s.field f)))
            (h f (ground (arith, m)))) in
      ground (arith, here, rest)

module _ {V : Type 0} where
  unfoldable pub value_in : Option (SectionChange V) → Text → Option V
  unfolding set_value
  value_in none f = none
  value_in (some s) f = set_value s.changes f

  -- What a plan sets a field of a section to.
  unfoldable pub planned_value : List (SectionChange V) → Text → Text → Option V
  unfolding find set_value
  planned_value sections n f = value_in (find section_key n sections) f

  pub find-append-none :
      (n : Text) (xs ys : List (SectionChange V))
      → find section_key n ys ≡ none
      → find section_key n (xs ++ ys) ≡ find section_key n xs
  unfolding find
  find-append-none n [] ys h = h
  find-append-none n (x ∷ xs) ys h = ground (arith, find-append-none n xs ys h)

  pub find-none-append :
      (n : Text) (xs ys : List (SectionChange V))
      → find section_key n xs ≡ none
      → find section_key n (xs ++ ys) ≡ find section_key n ys
  unfolding find
  find-none-append n [] ys h = refl
  find-none-append n (x ∷ xs) ys h = ground (arith, find-none-append n xs ys)

  pub find-Ranked-none :
      (low high : ℕ) (n : Text) (sections : List (SectionChange V))
      → Ranked low high sections
      → (ltb (section_rank n) low || ltb high (section_rank n)) ≡ true
      → find section_key n sections ≡ none
  unfolding find Ranked
  find-Ranked-none low high n [] h k = refl
  find-Ranked-none low high n (s ∷ sections) h k =
      let parts = &&_parts (within low high s) (all (within low high) sections) h.1 in
      ground (
        arith,
        find-Ranked-none low high n sections (h.0.1, parts.1) k,
        text_eq_iff s.section n,
        parts.0,
      )

  pub planned_value-listed :
      (n f : Text) (changes : List (FieldChange V))
      → planned_value (listed_section n changes) n f ≡ set_value changes f
  unfolding planned_value value_in find set_value
  planned_value-listed n f [] = refl
  planned_value-listed n f (c ∷ changes) = ground (arith, text_eq_iff n n)
