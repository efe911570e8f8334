-- ===== src/Db/Sorting.antt =====
-- src/meshprovision/db/sorting.py: the order of the rows of each sheet. Digits are the ASCII ones.
use meshprovision.Common.{
  ℕ, ◌-◌, Bool, true, false, ◌&&◌, ◌||◌, List, [], ◌∷◌, ◌++◌, map, take, is_empty, ltb, ◌==◌,
  if◌then◌else◌,
}
use meshprovision.Common.Text.{Text, codes, text_eq, is_digit}
use meshprovision.Common.Digits.{of_digits}
use meshprovision.Common.Sorting.{lex_le}
use meshprovision.NamePattern.{casefold}
use meshprovision.Db.{KeyType, admin_public, admin_private, channel_psk, KeyRecord, NodeRecord}

-- A triple `(is_number, text, number)`.
pub data Chunk : Type 0 where
  text : Text → Chunk
  number : ℕ → Chunk

abbrev pub max_digit_run_digits : ℕ
max_digit_run_digits = 100

-- `int(part[:100])`
abbrev number_of : Text → Chunk
number_of ds = number (of_digits 10 0 (map (λ c. c - 48) (take max_digit_run_digits ds)))

-- `re.split(r"(\d+)", value)`, in a run of text or of digits; the first and last chunks are texts.
unfoldable mutual
  pub text_run : Text → Text → List Chunk
  text_run acc [] = text acc ∷ []
  text_run acc (c ∷ s) =
      let digits = digit_run (c ∷ []) s in
      let more = text_run (acc ++ c ∷ []) s in if is_digit c then text acc ∷ digits else more

  pub digit_run : Text → Text → List Chunk
  digit_run ds [] = number_of ds ∷ text [] ∷ []
  digit_run ds (c ∷ s) =
      let more = digit_run (ds ++ c ∷ []) s in
      let rest = text_run (c ∷ []) s in if is_digit c then more else number_of ds ∷ rest

-- `a < b` and `a == b` of chunks: a text comes before a number.
unfoldable pub chunk_lt : Chunk → Chunk → Bool
chunk_lt (text a) (text b) = if text_eq a b then false else lex_le a b
chunk_lt (text a) (number n) = true
chunk_lt (number n) (text b) = false
chunk_lt (number m) (number n) = ltb m n

unfoldable pub chunk_eq : Chunk → Chunk → Bool
chunk_eq (text a) (text b) = text_eq a b
chunk_eq (text a) (number n) = false
chunk_eq (number n) (text b) = false
chunk_eq (number m) (number n) = m == n

unfoldable pub chunks_le : List Chunk → List Chunk → Bool
unfolding chunk_lt chunk_eq
chunks_le [] b = true
chunks_le (x ∷ a) [] = false
chunks_le (x ∷ a) (y ∷ b) = let rest = chunks_le a b in chunk_lt x y || (chunk_eq x y && rest)

unfoldable pub chunks_eq : List Chunk → List Chunk → Bool
unfolding chunk_eq
chunks_eq [] [] = true
chunks_eq [] (y ∷ b) = false
chunks_eq (x ∷ a) [] = false
chunks_eq (x ∷ a) (y ∷ b) = chunk_eq x y && chunks_eq a b

-- `key_type.value`
unfoldable pub key_type_value : KeyType → Text
key_type_value admin_public = codes "admin_public"
key_type_value admin_private = codes "admin_private"
key_type_value channel_psk = codes "channel_psk"

module _ (fold : ℕ → Text) where
  unfoldable pub natural_key : Text → List Chunk
  unfolding text_run
  natural_key value = text_run [] (casefold fold value)

  -- `<=` of the keys of two rows of the Nodes sheet.
  unfoldable pub node_le : NodeRecord → NodeRecord → Bool
  unfolding natural_key
  node_le a b =
      let name_of : NodeRecord → Text =
        λ r. if is_empty r.long_name then r.short_name else r.long_name in
      let m = natural_key (name_of a) in
      let n = natural_key (name_of b) in
      if chunks_eq m n then lex_le a.node_id b.node_id else chunks_le m n

  -- `<=` of the keys of two rows of the Keys sheet.
  unfoldable pub key_le : KeyRecord → KeyRecord → Bool
  unfolding natural_key key_type_value
  key_le a b =
      let m = natural_key a.key_ref in
      let n = natural_key b.key_ref in
      if chunks_eq m n
      then (if text_eq a.owner_node_id b.owner_node_id
          then lex_le (key_type_value a.key_type) (key_type_value b.key_type)
          else lex_le a.owner_node_id b.owner_node_id)
      else chunks_le m n
