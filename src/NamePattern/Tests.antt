-- ===== src/NamePattern/Tests.antt =====
-- Name patterns at concrete values: the pattern `n{n}` over the alphabet `ab`.
use native.Mathlib.Omega.{arith}
use meshprovision.Common.{ℕ, ◌<◌, ◌≡◌, ◌≢◌, ◌↔◌, refl, some, [], ◌∷◌, ok, err}
use meshprovision.Common.Text.{Text, codes, is_space}
use meshprovision.Common.Digits.{of_digits}
use meshprovision.Common.Equality.{ℕ_eq}
use meshprovision.NamePattern.{
  PatternSpec, out_of_fuel, capacity, render, parse_index, validate_alphabet, compile_literals,
  compile, digits_of, interleave, find, has_duplicate, has_fold_pair, first_with, take_digit,
  strip_prefix, trailing,
}
use meshprovision.NamePattern.Digits.{parse_index-render, render-parse_index}
use meshprovision.NamePattern.Compile.{compile_iff, compile_literals-ne-out_of_fuel, Compiled}
use meshprovision.NamePattern.Folding.{render-casefold_injective}

-- A fold that leaves every character as it is.
abbrev no_fold : ℕ → Text
no_fold c = c ∷ []

abbrev two_names : PatternSpec
two_names = record {
  pattern = codes "n{n}";
  alphabet = codes "ab";
  literals = codes "n" ∷ [] ∷ [];
  field = codes "short_name";
}

second_name : render two_names 1 ≡ ok (codes "nb")
unfolding render interleave digits_of
second_name = refl

ab_is_accepted : validate_alphabet no_fold (codes "ab") ≡ ok tt
unfolding validate_alphabet has_duplicate is_space has_fold_pair first_with
ab_is_accepted = refl

parse_index-render_example : parse_index two_names (codes "nb") ≡ some 1
parse_index-render_example =
    parse_index-render two_names 1 (codes "nb") refl (omega arith) second_name

read_second : parse_index two_names (codes "nb") ≡ some 1
unfolding parse_index take_digit strip_prefix find trailing of_digits
read_second = refl

render-parse_index_example : (render two_names 1 ≡ ok (codes "nb")) × (1 < capacity two_names)
render-parse_index_example = render-parse_index two_names (codes "nb") 1 read_second

compile_iff_example :
    (compile no_fold (codes "n{n}") (codes "ab") (codes "short_name") ≡ ok two_names)
    ↔ Compiled (codes "n{n}") (codes "ab") (codes "short_name") two_names
compile_iff_example =
    compile_iff no_fold (codes "n{n}") (codes "ab") (codes "short_name") two_names ab_is_accepted

compile_literals-ne-out_of_fuel_example :
    compile_literals (codes "n{n}") (codes "ab") (codes "short_name") ≢ err out_of_fuel
compile_literals-ne-out_of_fuel_example =
    compile_literals-ne-out_of_fuel no_fold (codes "n{n}") (codes "ab") (codes "short_name")

render-casefold_injective_example : ◌≡◌ {A = ℕ} 1 1
render-casefold_injective_example =
    render-casefold_injective no_fold two_names 1 1 (codes "nb") (codes "nb") ab_is_accepted
      (omega arith) second_name second_name refl
