-- ===== src/Common/Sorting.antt =====
-- Python's `sorted`, which is stable, as insertion sort by a Boolean order, and what decides when
-- two sorted lists are equal.
use native.Mathlib.Omega.{arith}
use Prim.Native.Nat.{ℕ, suc, ◌<◌}
use mathlib.Core.Path.{◌≡◌, refl, ◌∙◌, ap, sym}
use mathlib.Core.Logic.{◌↔◌, inl, inr}
use mathlib.Core.Bool.{Bool, true, false}
use mathlib.Core.List.{List, [], ◌∷◌}
use meshprovision.Common.Tests.{ltb, if◌then◌else◌, Bool-cases, &&_parts}
use meshprovision.Common.Lists.{all}
use meshprovision.Common.Text.{Text}
use meshprovision.Common.Equality.{eq_iff, Eq, ◌==◌, mem, Text_eq}

module _ {ℓ} {A : Type ℓ} (le : A → A → Bool) where
  unfoldable pub insert : A → List A → List A
  insert a [] = a ∷ []
  insert a (x ∷ xs) = let rest = insert a xs in if le a x then a ∷ x ∷ xs else x ∷ rest

  unfoldable pub sort : List A → List A
  unfolding insert
  sort [] = []
  sort (x ∷ xs) = insert x (sort xs)

  -- Every item is below all that follow it.
  abbrev pub Ordered : List A → Type 0
  Ordered [] = Unit
  Ordered (x ∷ xs) = (all (le x) xs ≡ true) × Ordered xs

module _ {ℓ} {A : Type ℓ} ⦃e : Eq A⦄ where
  -- How often an item occurs.
  abbrev pub count : A → List A → ℕ
  count a [] = 0
  count a (x ∷ xs) = let rest = count a xs in if a == x then suc rest else rest

  pub mem-count : (a : A) (xs : List A) → (mem a xs ≡ true) ↔ (0 < count a xs)
  mem-count a [] = ground arith
  mem-count a (x ∷ xs) = ground (arith, mem-count a xs)

  pub count-insert :
      (le : A → A → Bool) (a x : A) (xs : List A)
      → count a (insert le x xs) ≡ (if a == x then suc (count a xs) else count a xs)
  unfolding insert
  count-insert le a x [] = refl
  count-insert le a x (y ∷ xs) = ground (arith, count-insert le a x xs)

  pub count-sort : (le : A → A → Bool) (a : A) (xs : List A) → count a (sort le xs) ≡ count a xs
  unfolding sort
  count-sort le a [] = refl
  count-sort le a (x ∷ xs) = ground (arith, count-insert le a x (sort le xs), count-sort le a xs)

-- The laws of a total order given as a test.
pub record IsTotal {ℓ} {A : Type ℓ} (le : A → A → Bool) : Type ℓ where
  pub total : (a b : A) → le a b ≡ false → le b a ≡ true
  pub trans : (a b c : A) → le a b ≡ true → le b c ≡ true → le a c ≡ true

module _ {ℓ} {A : Type ℓ} (le : A → A → Bool) (o : IsTotal le) where
  all-le_trans :
      (a x : A) (xs : List A) → le a x ≡ true → all (le x) xs ≡ true → all (le a) xs ≡ true
  all-le_trans a x [] h k = refl
  all-le_trans a x (y ∷ xs) h k =
      let parts = &&_parts (le x y) (all (le x) xs) k in
      ground (arith, o.trans a x y h parts.0, all-le_trans a x xs h parts.1)

  all-insert :
      (x a : A) (xs : List A)
      → le x a ≡ true
      → all (le x) xs ≡ true
      → all (le x) (insert le a xs) ≡ true
  unfolding insert
  all-insert x a [] h k = ground arith
  all-insert x a (y ∷ xs) h k = ground (arith, all-insert x a xs)

  pub insert-Ordered : (a : A) (xs : List A) → Ordered le xs → Ordered le (insert le a xs)
  unfolding insert
  insert-Ordered a [] h = (refl, tt)
  insert-Ordered a (x ∷ xs) h = elim (Bool-cases (le a x)) [
    | inl below ↦ rw below ((rw below (all-le_trans a x xs below h.0), h))
    | inr above ↦ rw above ((all-insert x a xs (o.total a x above) h.0, insert-Ordered a xs h.1))
  ]

  pub sort-Ordered : (xs : List A) → Ordered le (sort le xs)
  unfolding sort
  sort-Ordered [] = tt
  sort-Ordered (x ∷ xs) = insert-Ordered x (sort le xs) (sort-Ordered xs)

  le_of_mem :
      ⦃e : Eq A⦄ (x a : A) (xs : List A) → all (le x) xs ≡ true → mem a xs ≡ true → le x a ≡ true
  le_of_mem ⦃e⦄ x a [] h m = cc
  le_of_mem ⦃e⦄ x a (y ∷ xs) h m = ground (arith, le_of_mem x a xs, eq_iff a y)

  -- Two ordered lists with the same items, as often, are equal.
  pub Ordered-unique :
      ⦃e : Eq A⦄
      → ((a b : A) → le a b ≡ true → le b a ≡ true → a ≡ b)
      → (xs ys : List A) → Ordered le xs
      → Ordered le ys
      → ((a : A) → count a xs ≡ count a ys)
      → xs ≡ ys
  Ordered-unique ⦃e⦄ antisym [] [] hx hy c = refl
  Ordered-unique ⦃e⦄ antisym [] (y ∷ ys) hx hy c = absurd (ground (arith, c y, eq_iff y y))
  Ordered-unique ⦃e⦄ antisym (x ∷ xs) [] hx hy c = absurd (ground (arith, c x, eq_iff x x))
  Ordered-unique ⦃e⦄ antisym (x ∷ xs) (y ∷ ys) hx hy c =
      let same : x ≡ y = elim (Bool-cases (x == y)) [
        | inl eq ↦ (eq_iff x y).0 eq
        | inr ne ↦
            let x_in : mem x ys ≡ true = (mem-count x ys).1 (ground (arith, c x, ne, eq_iff x x)) in
            let y_in : mem y xs ≡ true =
              (mem-count y xs).1 (ground (arith, c y, ne, eq_iff y y, eq_iff x y, eq_iff y x)) in
            antisym x y (le_of_mem x y xs hx.0 y_in) (le_of_mem y x ys hy.0 x_in)
      ] in
      cc (same, Ordered-unique antisym xs ys hx.1 hy.1 (λ a. ground (arith, c a, same)))

  pub sort-eq_iff :
      ⦃e : Eq A⦄
      → ((a b : A) → le a b ≡ true → le b a ≡ true → a ≡ b)
      → (xs ys : List A) → (sort le xs ≡ sort le ys) ↔ ((a : A) → count a xs ≡ count a ys)
  sort-eq_iff antisym xs ys = (
    λ h a. sym (count-sort le a xs) ∙ ap (count a) h ∙ count-sort le a ys,
    λ c.
        Ordered-unique antisym (sort le xs) (sort le ys) (sort-Ordered xs) (sort-Ordered ys)
          (λ a. count-sort le a xs ∙ c a ∙ sym (count-sort le a ys)),
  )

-- Python's order on `bytes` and `str`: lexicographic.
unfoldable pub lex_le : Text → Text → Bool
lex_le [] t = true
lex_le (x ∷ s) [] = false
lex_le (x ∷ s) (y ∷ t) =
    let rest = lex_le s t in if ltb x y then true else if ltb y x then false else rest

lex_total : (s t : Text) → lex_le s t ≡ false → lex_le t s ≡ true
unfolding lex_le
lex_total [] t h = cc
lex_total (x ∷ s) [] h = refl
lex_total (x ∷ s) (y ∷ t) h = ground (arith, lex_total s t)

lex_trans : (s t u : Text) → lex_le s t ≡ true → lex_le t u ≡ true → lex_le s u ≡ true
unfolding lex_le
lex_trans [] t u h k = refl
lex_trans (x ∷ s) [] u h k = cc
lex_trans (x ∷ s) (y ∷ t) [] h k = cc
lex_trans (x ∷ s) (y ∷ t) (z ∷ u) h k = ground (arith, lex_trans s t u)

pub lex_antisymm : (s t : Text) → lex_le s t ≡ true → lex_le t s ≡ true → s ≡ t
unfolding lex_le
lex_antisymm [] [] h k = refl
lex_antisymm [] (y ∷ t) h k = cc
lex_antisymm (x ∷ s) [] h k = cc
lex_antisymm (x ∷ s) (y ∷ t) h k = ground (arith, lex_antisymm s t)

pub lex_IsTotal : IsTotal lex_le
lex_IsTotal = record { total = lex_total; trans = lex_trans }
