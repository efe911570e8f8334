-- ===== src/NodeId.antt =====
-- src/meshprovision/nodeid.py: the canonical node id, its printed forms and its parsers. The module
-- functions key_derived_id, is_reserved_id and relay_byte stand here too.
pub mod Printing
pub mod Parsing
mod Tests
use meshprovision.Common.{
  ℕ, suc, ◌+◌, ◌-◌, ◌%◌, ◌^◌, ◌≤◌, Bool, not, ◌&&◌, ◌||◌, Option, List, [], ◌∷◌, ◌++◌, map, ltb,
  leb, ◌==◌, if◌then◌else◌, length, drop, take, replicate, all, is_empty, Result, ok, err,
  to_option,
}
use meshprovision.Common.Int.{ℤ, pos, negsuc}
use meshprovision.Common.Digits.{of_digits, to_digits}
use meshprovision.Common.Text.{
  Text, codes, strip, starts_with, is_ascii, lower, all_digits, text_eq,
}

abbrev pub node_id_max : ℕ
node_id_max = 0xFFFFFFFF

abbrev pub node_id_hex_width : ℕ
node_id_hex_width = 8

abbrev pub broadcast_node_num : ℕ
broadcast_node_num = node_id_max

abbrev pub reserved_node_nums_below : ℕ
reserved_node_nums_below = 4

abbrev pub key_derived_id_key_bytes : ℕ
key_derived_id_key_bytes = 32

-- NodeIdError, by the check that raises it.
pub data NodeIdError : Type 0 where
  wrong_type out_of_range invalid_hex invalid_decimal not_display empty_text unclassified :
      NodeIdError
  wrong_key_length : ℕ → NodeIdError

pub record NodeId : Type 0 where
  pub num : ℕ

-- What `parse` may be handed: a `NodeId`, an int, a bool, a str, or a value of any other type.
pub data Raw : Type 0 where
  node : NodeId → Raw
  int : ℤ → Raw
  bool : Bool → Raw
  str : Text → Raw
  other : Raw

-- `NodeId(num)`: the constructor with its `__post_init__` check.
unfoldable pub make : ℤ → Result NodeIdError NodeId
make (pos n) = if leb n node_id_max then ok (record { num = n }) else err out_of_range
make (negsuc n) = err out_of_range

abbrev pub hex_char : ℕ → ℕ
hex_char d = if ltb d 10 then d + 48 else d + 87

-- The digit that a lower-case hex character stands for.
abbrev pub hex_value : ℕ → ℕ
hex_value c = if leb c b'9' then c - 48 else c - 87

abbrev pub is_hex : ℕ → Bool
is_hex c = (leb b'0' c && leb c b'9') || (leb b'a' c && leb c b'f')

-- `str.rjust(width, "0")` on a list of digits.
pad : ℕ → List ℕ → List ℕ
pad width ds = replicate (width - length ds) 0 ++ ds

-- `f"{num:08x}"`
unfoldable pub hex : NodeId → Text
unfolding pad
hex n = map hex_char (pad node_id_hex_width (to_digits 16 (suc n.num) n.num []))

unfoldable pub display : NodeId → Text
display n = b'!' ∷ hex n

-- `str(num)`
unfoldable pub decimal : NodeId → Text
decimal n = map (λ d. d + 48) (to_digits 10 (suc n.num) n.num [])

-- `value & NODE_ID_MAX` of -(n + 1) is 2^32 - (n + 1), for n below 2^31.
unfoldable pub from_int : ℤ → Result NodeIdError NodeId
unfolding make
from_int (negsuc n) = if ltb n (2 ^ 31) then make (pos (2 ^ 32 - (n + 1))) else err out_of_range
from_int (pos n) = if leb n node_id_max then make (pos n) else err out_of_range

drop_bang : Text → Text
drop_bang s = if starts_with (codes "!") s then drop 1 s else s

abbrev pub has_0x : Text → Bool
has_0x s = text_eq (take 2 s) (codes "0x") || text_eq (take 2 s) (codes "0X")

drop_0x : Text → Text
drop_0x s = if has_0x s then drop 2 s else s

hex_token : Text → Result NodeIdError NodeId
unfolding make
hex_token token =
    if is_empty token || not (is_ascii token) || ltb node_id_hex_width (length token)
    then err invalid_hex
    else if not (all is_hex token)
    then err invalid_hex
    else make (pos (of_digits 16 0 (map hex_value token)))

unfoldable pub from_hex : Text → Result NodeIdError NodeId
unfolding hex_token drop_bang drop_0x
from_hex value = hex_token (lower (drop_0x (drop_bang (strip value))))

decimal_token : Text → Result NodeIdError NodeId
unfolding make
decimal_token token =
    if is_empty token || not (is_ascii token) || not (all_digits token)
    then err invalid_decimal
    else let num = of_digits 10 0 (map (λ c. c - 48) token) in
      if not (leb num node_id_max) then err out_of_range else make (pos num)

unfoldable pub from_decimal : Raw → Result NodeIdError NodeId
unfolding decimal_token
from_decimal (bool b) = err wrong_type
from_decimal (int i) = from_int i
from_decimal (str s) = decimal_token (strip s)
from_decimal (node n) = err wrong_type
from_decimal other = err wrong_type

unfoldable pub from_display : Text → Result NodeIdError NodeId
from_display value =
    let token = strip value in
    if not (starts_with (codes "!") token) then err not_display else from_hex token

-- The classification of a stripped text in `parse`.
parse_token : Text → Result NodeIdError NodeId
parse_token token =
    if is_empty token
    then err empty_text
    else if starts_with (codes "!") token
    then from_display token
    else if has_0x token
    then from_hex token
    else if length token == node_id_hex_width && all is_hex (lower token)
    then from_hex token
    else if is_ascii token && all_digits token
    then from_decimal (str token)
    else if leb 1 (length token) && ltb (length token) node_id_hex_width && all is_hex (lower token)
    then from_hex token
    else err unclassified

unfoldable pub parse : Raw → Result NodeIdError NodeId
unfolding parse_token
parse (node n) = ok n
parse (bool b) = err wrong_type
parse (int i) = from_int i
parse (str s) = parse_token (strip s)
parse other = err wrong_type

unfoldable pub try_parse : Raw → Option NodeId
try_parse raw = to_option (parse raw)

-- The CRC-32 is zlib's, a parameter of the model.
unfoldable pub key_derived_id : (List ℕ → ℕ) → List ℕ → Result NodeIdError NodeId
unfolding make
key_derived_id crc32 public_key =
    if not (length public_key == key_derived_id_key_bytes)
    then err (wrong_key_length (length public_key))
    else make (pos (crc32 public_key))

unfoldable pub is_reserved_id : NodeId → Bool
is_reserved_id n = ltb n.num reserved_node_nums_below || n.num == broadcast_node_num

-- `& 0xFF` keeps the lowest 8 bits.
unfoldable pub relay_byte : NodeId → ℕ
relay_byte n = n.num % 2 ^ 8

-- The range that `__post_init__` enforces.
abbrev pub IsValid : NodeId → Type 0
IsValid n = n.num ≤ node_id_max
