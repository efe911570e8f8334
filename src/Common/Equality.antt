-- ===== src/Common/Equality.antt =====
-- Python's `==` on keys, as an interface, and membership by it.
use Prim.Native.Nat.{ℕ}
use mathlib.Core.Path.{◌≡◌, refl, subst}
use mathlib.Core.Logic.{◌↔◌}
use mathlib.Core.Bool.{Bool, true, false, not, ◌&&◌, ◌||◌}
use mathlib.Core.List.{List, [], ◌∷◌}
use meshprovision.Common.Tests.{◌==◌ as nat_eq, ==_iff}
use meshprovision.Common.Text.{Text, text_eq, text_eq_iff}

-- A Boolean test that accepts every value with itself, and only with itself.
pub record Eq {ℓ} (A : Type ℓ) : Type ℓ where
  pub same : A → A → Bool
  pub same_self : (a : A) → same a a ≡ true
  pub same_sound : {a b : A} → same a b ≡ true → a ≡ b

instance abbrev pub Text_eq : Eq Text
Text_eq = record {
  same = text_eq;
  same_self = λ s. (text_eq_iff s s).1 refl;
  same_sound = λ {a} {b} h. (text_eq_iff a b).0 h;
}

instance abbrev pub ℕ_eq : Eq ℕ
ℕ_eq = record {
  same = nat_eq;
  same_self = λ n. (==_iff n n).1 refl;
  same_sound = λ {a} {b} h. (==_iff a b).0 h;
}

module _ {ℓ} {A : Type ℓ} ⦃e : Eq A⦄ where
  infix 50 ◌==◌
  abbrev pub ◌==◌ : A → A → Bool
  a == b = e.same a b

  -- No item occurs twice; and `a in xs`.
  abbrev pub mem : A → List A → Bool
  mem a [] = false
  mem a (x ∷ xs) = a == x || mem a xs

  abbrev pub distinct : List A → Bool
  distinct [] = true
  distinct (x ∷ xs) = not (mem x xs) && distinct xs

  pub eq_refl : (a : A) → (a == a) ≡ true
  eq_refl a = e.same_self a

  pub eq_iff : (a b : A) → ((a == b) ≡ true) ↔ (a ≡ b)
  eq_iff a b =
      (λ h. e.same_sound h, λ (p : a ≡ b). subst (λ (x : A). (a == x) ≡ true) p (e.same_self a))
