-- ===== src/Names/Tests.antt =====
-- Naming at concrete values: one active node that has the first of two short names.
use meshprovision.Common.{
  Option, ◌&&◌, ℕ, ◌≤◌, ◌<◌, ◌≡◌, ◌⊎◌, refl, true, false, none, some, [], ◌∷◌, ◌++◌, ok, err,
}
use meshprovision.Common.Text.{Text, codes}
use meshprovision.Common.Digits.{of_digits}
use meshprovision.Common.Equality.{mem, Text_eq}
use meshprovision.NamePattern.{
  PatternSpec, exhausted, capacity, render, casefold, interleave, digits_of, find, take_digit,
  strip_prefix, trailing, parse_index, ensure_capacity_available,
}
use meshprovision.Names.{
  NodeNames, find_next_free_name, allocate_names, folded, has_index, used_short_names,
  used_long_names, set_of, first_free, fresh_names, long_for,
}
use meshprovision.Names.Free.{find_next_free_name-first, IsTaken}
use meshprovision.Names.Allocate.{allocate_names-cases, IsFresh}

abbrev no_fold : ℕ → Text
no_fold c = c ∷ []

abbrev names_after : Text → PatternSpec
names_after prefix = record {
  pattern = prefix ++ codes "{n}";
  alphabet = codes "ab";
  literals = prefix ∷ [] ∷ [];
  field = codes "name";
}

abbrev short_names : PatternSpec
short_names = names_after (codes "n")

abbrev long_names : PatternSpec
long_names = names_after (codes "Node ")

abbrev first_node : NodeNames
first_node = record { short_name = codes "na"; long_name = codes "Node a"; is_archived = false }

second_is_free : find_next_free_name no_fold short_names (codes "na" ∷ []) 0 ≡ ok (1, codes "nb")
unfolding find_next_free_name folded first_free ensure_capacity_available capacity has_index
    parse_index render interleave digits_of find take_digit strip_prefix trailing of_digits casefold
second_is_free = refl

none_is_free :
    find_next_free_name no_fold short_names (codes "na" ∷ codes "nb" ∷ []) 0 ≡ err (exhausted 2)
unfolding find_next_free_name folded first_free ensure_capacity_available capacity has_index
    parse_index render interleave digits_of find take_digit strip_prefix trailing of_digits casefold
none_is_free = refl

find_next_free_name-first_example :
    (0 ≤ 1)
    × (1 < capacity short_names)
    × (render short_names 1 ≡ ok (codes "nb"))
    × (mem (casefold no_fold (codes "nb")) (folded no_fold (codes "na" ∷ [])) ≡ false)
    × ((j : ℕ) → 0 ≤ j → j < 1 → IsTaken no_fold short_names (folded no_fold (codes "na" ∷ [])) j)
find_next_free_name-first_example =
    find_next_free_name-first no_fold short_names (codes "na" ∷ []) 0 1 (codes "nb") second_is_free

second_node_named :
    allocate_names no_fold (first_node ∷ []) short_names long_names none false
    ≡ ok (some (codes "nb"), some (codes "Node b"))
unfolding allocate_names fresh_names long_for used_short_names used_long_names set_of
    find_next_free_name folded first_free ensure_capacity_available capacity has_index parse_index
    render interleave digits_of find take_digit strip_prefix trailing of_digits casefold
second_node_named = refl

allocate_names-cases_example :
    ((e : NodeNames) × (none ≡ some e)
      × (false ≡ false)
      × (some (codes "nb") ≡ none)
      × (some (codes "Node b") ≡ none))
    ⊎ (((e : NodeNames) × (none ≡ some e)
          × (false ≡ true)
          × (some (codes "nb") ≡ some e.short_name)
          × (some (codes "Node b") ≡ some e.long_name)
          × (has_index short_names e.short_name ≡ true)
          × (has_index long_names e.long_name ≡ true))
        ⊎ (((◌≡◌ {A = Option NodeNames} none none)
              ⊎ ((e : NodeNames) × (none ≡ some e)
                  × (false ≡ true)
                  × ((has_index short_names e.short_name && has_index long_names e.long_name)
                      ≡ false)))
            × (short : Text) × (long : Text) × (some (codes "nb") ≡ some short)
            × (some (codes "Node b") ≡ some long)
            × IsFresh no_fold short_names (used_short_names (first_node ∷ [])) short
            × IsFresh no_fold long_names (used_long_names (first_node ∷ [])) long))
allocate_names-cases_example =
    allocate_names-cases no_fold (first_node ∷ []) short_names long_names none false
      (some (codes "nb")) (some (codes "Node b")) second_node_named
