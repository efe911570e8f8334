-- ===== src/Common/Digits.antt =====
-- Positional notation: the digits of a number in a base, and the number of a list of digits.
-- Both are generic over the base, for hexadecimal, decimal and name suffixes.
use Prim.Native.Nat.{ℕ, zero, suc, ◌+◌, ◌*◌, ◌/◌, ◌%◌, ◌^◌, ◌≤◌, ◌<◌}
use mathlib.Core.Path.{◌≡◌, refl, ◌∙◌, ap, subst}
use mathlib.Core.Logic.{inl, inr}
use mathlib.Core.Bool.{true, false}
use mathlib.Core.List.{List, [], ◌∷◌, ◌++◌}
use native.Mathlib.Omega.{arith}
use native.Mathlib.Nat.{
  pow-suc, pow-zero, one-mul, add-zero, mod-lt, div-lt_self, div-lt_iff_lt-mul, div-add-mod',
}
use meshprovision.Common.Tests.{ltb, if◌then◌else◌, Bool-cases, ltb→lt, lt→ltb, &&_parts}
use meshprovision.Common.Lists.{length, replicate, all}

-- Most significant digit first, as `int(s, base)` reads.
unfoldable pub of_digits : ℕ → ℕ → List ℕ → ℕ
of_digits b acc [] = acc
of_digits b acc (d ∷ ds) = of_digits b (acc * b + d) ds

-- Digits of `n` in front of `acc`, with fuel; the shortest form, `0` for zero.
unfoldable pub to_digits : ℕ → ℕ → ℕ → List ℕ → List ℕ
to_digits b zero n acc = n ∷ acc
to_digits b (suc f) n acc =
    let more = to_digits b f (n / b) (n % b ∷ acc) in if ltb n b then n ∷ acc else more

of_digits_one : (b n : ℕ) (acc : List ℕ) → of_digits b 0 (n ∷ acc) ≡ of_digits b n acc
unfolding of_digits
of_digits_one b n acc = ap (λ v. of_digits b v acc) (omega arith)

-- The lemmas hold for every base above one.
module _ (b : ℕ) (two : 2 ≤ b) where
  pub of_digits-to_digits :
      (f n : ℕ) (acc : List ℕ) → of_digits b 0 (to_digits b f n acc) ≡ of_digits b n acc
  unfolding to_digits
  of_digits-to_digits zero n acc = of_digits_one b n acc
  of_digits-to_digits (suc f) n acc = elim (Bool-cases (ltb n b)) [
    | inl small ↦ rw small (of_digits_one b n acc)
    | inr big ↦ rw big (
        of_digits-to_digits f (n / b) (n % b ∷ acc)
        ∙ unfold of_digits in ap (λ v. of_digits b v acc) (div-add-mod' n b))
  ]

  div_falls : (n f : ℕ) → n < suc f → ltb n b ≡ false → n / b < f
  div_falls n f h big = let lt = div-lt_self {n = n} {k = b} (ground arith) two in omega arith

  pub to_digits-lt :
      (f n : ℕ) (acc : List ℕ)
      → n < f
      → all (λ d. ltb d b) acc ≡ true
      → all (λ d. ltb d b) (to_digits b f n acc) ≡ true
  unfolding to_digits
  to_digits-lt zero n acc h k = absurd (omega arith)
  to_digits-lt (suc f) n acc h k = elim (Bool-cases (ltb n b)) [
    | inl small ↦ rw small (ground arith)
    | inr big ↦ rw big (
        to_digits-lt f (n / b) (n % b ∷ acc) (div_falls n f h big)
          (rw (lt→ltb (n % b) b (mod-lt n (omega arith))) k))
  ]

  pub length-to_digits :
      (k f n : ℕ) (acc : List ℕ)
      → n < b ^ suc k
      → n < f
      → length (to_digits b f n acc) ≤ suc k + length acc
  unfolding to_digits
  length-to_digits k zero n acc h m = absurd (omega arith)
  length-to_digits zero (suc f) n acc h m =
      rw (lt→ltb n b (rw (pow-suc, pow-zero, one-mul) at h)) (omega arith)
  length-to_digits (suc k) (suc f) n acc h m = elim (Bool-cases (ltb n b)) [
    | inl small ↦ rw small (omega arith)
    | inr big ↦
        let lt =
          (div-lt_iff_lt-mul {k = b} {x = n} {y = b ^ suc k} (omega arith)).1 (rw pow-suc at h) in
        let ih = length-to_digits k f (n / b) (n % b ∷ acc) lt (div_falls n f m big) in
        rw big (omega arith)
  ]

pub of_digits-zeros :
    (b n : ℕ) (ds : List ℕ) → of_digits b 0 (replicate n 0 ++ ds) ≡ of_digits b 0 ds
of_digits-zeros b zero ds = refl
of_digits-zeros b (suc n) ds = of_digits_one b 0 (replicate n 0 ++ ds) ∙ of_digits-zeros b n ds

digit_step : (acc b d p : ℕ) → acc < p → d < b → acc * b + d < p * b
digit_step acc b d p h k = grind arith

-- The number of a list of digits is below the power of the base for its length.
pub of_digits-lt :
    (b acc : ℕ) (ds : List ℕ) (k : ℕ)
    → acc < b ^ k
    → all (λ d. ltb d b) ds ≡ true
    → of_digits b acc ds < b ^ (k + length ds)
unfolding of_digits
of_digits-lt b acc [] k h a = rw add-zero h
of_digits-lt b acc (d ∷ ds) k h a =
    let parts = &&_parts (ltb d b) (all (λ d. ltb d b) ds) a in
    subst (λ e. of_digits b (acc * b + d) ds < b ^ e) (omega arith)
      (of_digits-lt b (acc * b + d) ds (suc k)
        (rw pow-suc (digit_step acc b d (b ^ k) h (ltb→lt d b parts.0))) parts.1)
