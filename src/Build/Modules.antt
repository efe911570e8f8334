-- ===== src/Build/Modules.antt =====
-- src/meshprovision/provisioning/plan.py, `SECTION_ORDER`: the module sections, sorted by name.
use native.Mathlib.Omega.{arith}
use meshprovision.Common.{
  ◌≡◌, refl, ◌∙◌, ap, Bool, true, false, not, ◌&&◌, List, [], ◌∷◌, ◌++◌, map, all, &&_parts,
}
use meshprovision.Common.Text.{Text, text_eq_iff}
use meshprovision.Common.Equality.{Text_eq, mem, distinct}
use meshprovision.Common.Sorting.{insert, sort, Ordered, IsTotal, lex_IsTotal, sort-Ordered}
use meshprovision.Db.Table.{replaced, upserted}
use meshprovision.Db.Table.Laws.{IsTable, sort-IsTable, upserted-IsTable}
use meshprovision.Run.{FieldChange, SectionChange}
use meshprovision.Build.Sections.{section_key, by_name, listed_section, assign}
use meshprovision.Build.Ranks.{written_before, within, Ranked, is_module}

module _ {V : Type 0} where
  -- Module sections: of distinct names, none of which stands in `SECTION_ORDER`.
  unfoldable pub all_modules : List (SectionChange V) → Bool
  all_modules sections = all is_module (map section_key sections)

  all_modules-insert :
      (s : SectionChange V) (sections : List (SectionChange V))
      → all_modules (insert by_name s sections) ≡ (is_module s.section && all_modules sections)
  unfolding all_modules insert
  all_modules-insert s [] = refl
  all_modules-insert s (t ∷ sections) = ground (arith, all_modules-insert s sections)

  all_modules-sort :
      (sections : List (SectionChange V))
      → all_modules (sort by_name sections) ≡ all_modules sections
  unfolding sort all_modules
  all_modules-sort [] = refl
  all_modules-sort (s ∷ sections) =
      all_modules-insert s (sort by_name sections)
      ∙ ap (λ b. is_module s.section && b) (all_modules-sort sections)

  all_modules-replaced :
      (s : SectionChange V) (sections : List (SectionChange V))
      → all_modules (replaced section_key s sections) ≡ all_modules sections
  unfolding all_modules replaced
  all_modules-replaced s [] = refl
  all_modules-replaced s (t ∷ sections) =
      ground (arith, all_modules-replaced s sections, text_eq_iff t.section s.section)

  pub all_modules-append :
      (sections more : List (SectionChange V))
      → all_modules (sections ++ more) ≡ (all_modules sections && all_modules more)
  unfolding all_modules
  all_modules-append [] more = refl
  all_modules-append (t ∷ sections) more = ground (arith, all_modules-append sections more)

  -- What `ordered` is sorted from.
  unfoldable pub IsModules : List (SectionChange V) → Type 0
  IsModules sections = IsTable section_key sections × (all_modules sections ≡ true)

  upserted-IsModules :
      (s : SectionChange V) (sections : List (SectionChange V))
      → is_module s.section ≡ true
      → IsModules sections
      → IsModules (upserted section_key s sections)
  unfolding IsModules all_modules upserted
  upserted-IsModules s sections h k = (
    upserted-IsTable section_key s sections k.0,
    ground (
      arith,
      h,
      k.1,
      all_modules-replaced s sections,
      all_modules-append (replaced section_key s sections) (s ∷ []),
    ),
  )

  pub assign-IsModules :
      (more table : List (SectionChange V))
      → all_modules more ≡ true
      → IsModules table
      → IsModules (assign more table)
  unfolding assign all_modules
  assign-IsModules [] table h k = k
  assign-IsModules (s ∷ more) table h k =
      let parts = &&_parts (is_module s.section) (all_modules more) h in
      assign-IsModules more (upserted section_key s table) parts.1
        (upserted-IsModules s table parts.0 k)

  pub listed_section-IsModules :
      (section : Text) (changes : List (FieldChange V))
      → is_module section ≡ true
      → all_modules (listed_section section changes) ≡ true
  unfolding all_modules
  listed_section-IsModules section [] h = refl
  listed_section-IsModules section (c ∷ changes) h = ground arith

  all_before_sorted :
      (s : SectionChange V) (sections : List (SectionChange V))
      → is_module s.section ≡ true
      → all_modules sections ≡ true
      → mem s.section (map section_key sections) ≡ false
      → all (by_name s) sections ≡ true
      → all (written_before s) sections ≡ true
  unfolding is_module all_modules
  all_before_sorted s [] h k m l = refl
  all_before_sorted s (t ∷ sections) h k m l = ground (arith, all_before_sorted s sections)

  within_modules :
      (sections : List (SectionChange V))
      → all_modules sections ≡ true
      → all (within 5 5) sections ≡ true
  unfolding is_module all_modules
  within_modules [] h = refl
  within_modules (s ∷ sections) h = ground (arith, within_modules sections)

  sorted-Ordered :
      (sections : List (SectionChange V))
      → Ordered by_name sections
      → IsModules sections
      → Ordered written_before sections
  unfolding IsModules all_modules
  sorted-Ordered [] h k = tt
  sorted-Ordered (s ∷ sections) h k =
      let modules = &&_parts (is_module s.section) (all_modules sections) k.1 in
      let names =
        &&_parts (not (mem s.section (map section_key sections)))
          (distinct (map section_key sections)) k.0 in
      (
        all_before_sorted s sections modules.0 modules.1 (ground (arith, names.0)) h.0,
        sorted-Ordered sections h.1 (names.1, modules.1),
      )

  by_name-IsTotal : IsTotal (by_name {V = V})
  by_name-IsTotal = record {
    total = λ a b. lex_IsTotal.total a.section b.section;
    trans = λ a b c. lex_IsTotal.trans a.section b.section c.section;
  }

  pub sort-Ranked :
      (sections : List (SectionChange V)) → IsModules sections → Ranked 5 5 (sort by_name sections)
  unfolding Ranked IsModules
  sort-Ranked sections h =
      let modules = all_modules-sort sections ∙ h.1 in
      (
        sorted-Ordered (sort by_name sections) (sort-Ordered by_name by_name-IsTotal sections)
            (sort-IsTable section_key by_name sections h.0, modules),
        within_modules (sort by_name sections) modules,
      )
