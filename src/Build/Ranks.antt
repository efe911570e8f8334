-- ===== src/Build/Ranks.antt =====
-- src/meshprovision/provisioning/plan.py, `SECTION_ORDER`: a section's position, and lists of sections in that order.
use native.Mathlib.Omega.{arith}
use meshprovision.Common.{
  ◌≡◌, refl, ◌∙◌, ◌≤◌, ℕ, suc, Bool, true, not, ◌&&◌, ◌||◌, List, [], ◌∷◌, ◌++◌, all, all-append,
  ltb, leb, ◌==◌ as nat_eq, if◌then◌else◌, &&_parts,
}
use meshprovision.Common.Text.{Text, codes}
use meshprovision.Common.Equality.{◌==◌, Text_eq}
use meshprovision.Common.Sorting.{Ordered, lex_le}
use meshprovision.Run.{FieldChange, SectionChange}
use meshprovision.Build.{module_sections}
use meshprovision.Build.Sections.{listed_section}

-- A section's position in `SECTION_ORDER`, in which the modules stand before the default channel.
unfoldable pub section_rank : Text → ℕ
section_rank section =
    if section == codes "device"
    then 0
    else if section == codes "position"
    then 1
    else if section == codes "power"
    then 2
    else if section == codes "lora"
    then 3
    else if section == codes "bluetooth"
    then 4
    else if section == codes "default_channel"
    then 6
    else if section == codes "security"
    then 7
    else 5

abbrev pub rank_of : {V : Type 0} → SectionChange V → ℕ
rank_of s = section_rank s.section

-- Two modules stand in the order of their names.
abbrev pub written_before : {V : Type 0} → SectionChange V → SectionChange V → Bool
written_before a b =
    ltb (rank_of a) (rank_of b)
    || nat_eq (rank_of a) (rank_of b)
      && (lex_le a.section b.section && not (a.section == b.section))

abbrev pub within : {V : Type 0} → ℕ → ℕ → SectionChange V → Bool
within low high s = leb low (rank_of s) && leb (rank_of s) high

-- In order, and of ranks between two bounds.
unfoldable pub Ranked : {V : Type 0} → ℕ → ℕ → List (SectionChange V) → Type 0
Ranked low high sections = Ordered written_before sections × (all (within low high) sections ≡ true)

unfoldable pub is_module : Text → Bool
unfolding section_rank
is_module section = nat_eq (section_rank section) 5

pub modules_rank : all is_module module_sections ≡ true
unfolding is_module section_rank
modules_rank = refl

module _ {V : Type 0} where
  all_before :
      (mid high : ℕ) (a : SectionChange V) (ys : List (SectionChange V))
      → rank_of a ≤ mid
      → all (within (suc mid) high) ys ≡ true
      → all (written_before a) ys ≡ true
  all_before mid high a [] h k = refl
  all_before mid high a (y ∷ ys) h k = ground (arith, all_before mid high a ys h)

  pub within_wider :
      (low mid high top : ℕ) (ys : List (SectionChange V))
      → low ≤ mid
      → high ≤ top
      → all (within mid high) ys ≡ true
      → all (within low top) ys ≡ true
  within_wider low mid high top [] h k l = refl
  within_wider low mid high top (y ∷ ys) h k l =
      ground (arith, within_wider low mid high top ys h k)

  append-Ordered :
      (low mid high : ℕ) (xs ys : List (SectionChange V))
      → Ranked low mid xs
      → Ranked (suc mid) high ys
      → Ordered written_before (xs ++ ys)
  unfolding Ranked
  append-Ordered low mid high [] ys hx hy = hy.0
  append-Ordered low mid high (x ∷ xs) ys hx hy =
      let here = &&_parts (within low mid x) (all (within low mid) xs) hx.1 in
      (
        all-append (written_before x) xs ys
            ∙ ground (arith, hx.0.0, all_before mid high x ys (ground (arith, here.0)) hy.1),
        append-Ordered low mid high xs ys (hx.0.1, here.1) hy,
      )

  pub append-Ranked :
      (low mid high : ℕ) (xs ys : List (SectionChange V))
      → low ≤ suc mid
      → mid ≤ high
      → Ranked low mid xs
      → Ranked (suc mid) high ys
      → Ranked low high (xs ++ ys)
  unfolding Ranked
  append-Ranked low mid high xs ys h k hx hy = (
    append-Ordered low mid high xs ys hx hy,
    all-append (within low high) xs ys
        ∙ ground (
          arith,
          within_wider low low mid high xs (omega arith) k hx.1,
          within_wider low (suc mid) high high ys h (omega arith) hy.1,
        ),
  )

  pub listed_section-Ranked :
      (section : Text) (changes : List (FieldChange V))
      → Ranked (section_rank section) (section_rank section) (listed_section section changes)
  unfolding Ranked
  listed_section-Ranked section [] = (tt, refl)
  listed_section-Ranked section (c ∷ changes) = ((refl, tt), ground arith)
