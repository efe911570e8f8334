-- ===== src/Network/Counts.antt =====
-- src/meshprovision/network/buckets.py, `_sum`: counts added up key by key. Adding two values is a
-- parameter, since the sums of signal strengths are floats, whose addition depends on the order.
use native.Mathlib.Omega.{arith}
use meshprovision.Common.{
  ◌≡◌, refl, ◌∙◌, ap, Bool, true, Option, none, some, List, [], ◌∷◌, map, if◌then◌else◌,
}
use meshprovision.Common.Text.{Text, text_eq_iff}
use meshprovision.Common.Equality.{◌==◌, Text_eq, distinct}
use meshprovision.Common.Sorting.{sort, Ordered, IsTotal, sort-Ordered, lex_le, lex_IsTotal}
use meshprovision.Db.Table.{find, upserted}
use meshprovision.Db.Table.Laws.{IsTable, find-sort, sort-IsTable, find-upserted, upserted-IsTable}

-- An item of a mapping.
pub record Count (V : Type 0) : Type 0 where
  pub key : Text
  pub value : V

module _ {V : Type 0} where
  abbrev pub count_key : Count V → Text
  count_key c = c.key

  abbrev pub by_key : Count V → Count V → Bool
  by_key a b = lex_le a.key b.key

  abbrev pub value_of : Option (Count V) → Option V
  value_of none = none
  value_of (some c) = some c.value

  -- `counts.get(key)`
  unfoldable pub value_at : Text → List (Count V) → Option V
  unfolding find
  value_at k counts = value_of (find count_key k counts)

module _ {V : Type 0} (add : V → V → V) where
  abbrev pub plus : Option V → V → V
  plus none v = v
  plus (some total) v = add total v

  -- `total[key] = add(total[key], value) if key in total else value`
  unfoldable pub add_count : Count V → List (Count V) → List (Count V)
  unfolding upserted value_at
  add_count c total =
      upserted count_key (record { key = c.key; value = plus (value_at c.key total) c.value }) total

  unfoldable pub add_counts : List (Count V) → List (Count V) → List (Count V)
  unfolding add_count
  add_counts [] total = total
  add_counts (c ∷ counts) total = add_counts counts (add_count c total)

  unfoldable pub add_maps : List (List (Count V)) → List (Count V) → List (Count V)
  unfolding add_counts
  add_maps [] total = total
  add_maps (counts ∷ maps) total = add_maps maps (add_counts counts total)

  unfoldable pub sum_maps : List (List (Count V)) → List (Count V)
  unfolding add_maps sort
  sum_maps maps = sort by_key (add_maps maps [])

  -- The values of one key added up, in their order.
  abbrev pub total_in : Text → List (Count V) → Option V → Option V
  total_in k [] total = total
  total_in k (c ∷ counts) total =
      total_in k counts (if c.key == k then some (plus total c.value) else total)

  abbrev pub total_of : Text → List (List (Count V)) → Option V → Option V
  total_of k [] total = total
  total_of k (counts ∷ maps) total = total_of k maps (total_in k counts total)

  add_count-value :
      (k : Text) (c : Count V) (total : List (Count V))
      → value_at k (add_count c total)
        ≡ (if c.key == k then some (plus (value_at k total) c.value) else value_at k total)
  unfolding add_count value_at
  add_count-value k c total = ground (
    arith,
    find-upserted count_key k (record { key = c.key; value = plus (value_at c.key total) c.value })
        total,
    text_eq_iff c.key k,
  )

  add_counts-value :
      (k : Text) (counts total : List (Count V))
      → value_at k (add_counts counts total) ≡ total_in k counts (value_at k total)
  unfolding add_counts
  add_counts-value k [] total = refl
  add_counts-value k (c ∷ counts) total =
      add_counts-value k counts (add_count c total)
      ∙ ap (total_in k counts) (add_count-value k c total)

  add_maps-value :
      (k : Text) (maps : List (List (Count V))) (total : List (Count V))
      → value_at k (add_maps maps total) ≡ total_of k maps (value_at k total)
  unfolding add_maps
  add_maps-value k [] total = refl
  add_maps-value k (counts ∷ maps) total =
      add_maps-value k maps (add_counts counts total)
      ∙ ap (total_of k maps) (add_counts-value k counts total)

  add_counts-IsTable :
      (counts total : List (Count V))
      → IsTable count_key total
      → IsTable count_key (add_counts counts total)
  unfolding add_counts add_count
  add_counts-IsTable [] total h = h
  add_counts-IsTable (c ∷ counts) total h =
      add_counts-IsTable counts (add_count c total) (upserted-IsTable count_key _ total h)

  add_maps-IsTable :
      (maps : List (List (Count V))) (total : List (Count V))
      → IsTable count_key total
      → IsTable count_key (add_maps maps total)
  unfolding add_maps
  add_maps-IsTable [] total h = h
  add_maps-IsTable (counts ∷ maps) total h =
      add_maps-IsTable maps (add_counts counts total) (add_counts-IsTable counts total h)

  by_key-IsTotal : IsTotal (by_key {V = V})
  by_key-IsTotal = record {
    total = λ a b. lex_IsTotal.total a.key b.key;
    trans = λ a b c. lex_IsTotal.trans a.key b.key c.key;
  }

  -- Adding up mappings gives every key its values added in the order of the mappings, each key once and
  -- the keys in order.
  pub sum_maps-total :
      (maps : List (List (Count V)))
      → (distinct (map count_key (sum_maps maps)) ≡ true)
        × Ordered by_key (sum_maps maps)
        × ((k : Text) → value_at k (sum_maps maps) ≡ total_of k maps none)
  unfolding sum_maps value_at
  sum_maps-total maps =
      let table = add_maps-IsTable maps [] refl in
      (
        sort-IsTable count_key by_key (add_maps maps []) table,
        sort-Ordered by_key by_key-IsTotal (add_maps maps []),
        λ k.
            ap value_of (find-sort count_key by_key k (add_maps maps []) table)
            ∙ add_maps-value k maps [],
      )
