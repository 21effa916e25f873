-- ===== src/Config.antt =====
-- cpp/src/config.cpp and cpp/include/rapidsmpf/config.hpp: options that are given as text and parsed
-- once, and the binary form in which they are sent to other processes. A text is the list of its
-- bytes, and a map is the list of its entries in the order in which it is walked.
pub mod Wire
pub mod RoundTrip
use rapidsmpf.Prelude.{
  ℕ, zero, suc, ◌+◌, ◌-◌, ◌*◌, ◌/◌, ◌%◌, ◌^◌, Bool, true, false, not, ◌&&◌, ◌||◌, ltb, leb, ◌==◌,
  if◌then◌else◌, Option, none, some, List, [], ◌∷◌, ◌++◌, map, length, take, drop,
}
use rapidsmpf.Prelude.Bits.{bit_xor}
use rapidsmpf.Prelude.Bytes.{to_bytes, from_bytes}
use rapidsmpf.Prelude.Result.{Result, ok, err, ◌>>=◌, ◌>>◌, expects, invalid_argument, out_of_range}

abbrev pub Text : Type 0
Text = List ℕ

abbrev pub max_options : ℕ
max_options = 64 * 2 ^ 10

abbrev pub max_key_len : ℕ
max_key_len = 4 * 2 ^ 10

abbrev pub max_value_len : ℕ
max_value_len = 2 ^ 20

abbrev pub max_total_size : ℕ
max_total_size = 64 * 2 ^ 20

abbrev pub prelude_size : ℕ
prelude_size = 8

abbrev pub crc32_size : ℕ
crc32_size = 4

-- MAGIC, FORMAT_VERSION, FLAG_CRC_PRESENT and two reserved bytes.
abbrev pub magic : List ℕ
magic = b'R' ∷ b'M' ∷ b'P' ∷ b'F' ∷ []

abbrev pub prelude : List ℕ
prelude = magic ++ 1 ∷ 1 ∷ 0 ∷ 0 ∷ []

unfoldable pub same_text : Text → Text → Bool
same_text [] [] = true
same_text [] (b ∷ bs) = false
same_text (a ∷ ts) [] = false
same_text (a ∷ ts) (b ∷ bs) = a == b && same_text ts bs

-- std::less on strings.
unfoldable pub less_text : Text → Text → Bool
less_text ts [] = false
less_text [] (b ∷ bs) = true
less_text (a ∷ ts) (b ∷ bs) = ltb a b || (a == b && less_text ts bs)

-- The white space of operator>>, in the C locale.
unfoldable pub is_space : ℕ → Bool
is_space c = c == 32 || (leb 9 c && leb c 13)

unfoldable pub first_word : Text → Text
unfolding is_space
first_word [] = []
first_word (c ∷ cs) = let rest = first_word cs in if is_space c then [] else c ∷ rest

unfoldable pub trim : Text → Text
unfolding first_word is_space
trim [] = []
trim (c ∷ cs) = let rest = trim cs in if is_space c then rest else first_word (c ∷ cs)

unfoldable pub lower : ℕ → ℕ
lower c = if leb b'A' c && leb c b'Z' then c + 32 else c

unfoldable pub to_lower : Text → Text
unfolding lower
to_lower cs = map lower cs

-- An option: the text, and the value once it is parsed. The values are of many types.
pub record OptionValue {ℓ} (V : Type ℓ) : Type ℓ where
  pub value : Option V
  pub value_as_string : Text

abbrev pub Options {ℓ} : Type ℓ → Type ℓ
Options V = List (Text × OptionValue V)

unfoldable pub find {ℓ} : {A : Type ℓ} → Text → List (Text × A) → Option A
unfolding same_text
find k [] = none
find k ((j, a) ∷ m) = let rest = find k m in if same_text j k then some a else rest

-- std::unordered_map::emplace: nothing changes where the key is there.
unfoldable pub emplace_found {ℓ} :
    {A : Type ℓ} → Option A → Text → A → List (Text × A) → List (Text × A) × Bool
emplace_found none k a m = (m ++ (k, a) ∷ [], true)
emplace_found (some b) k a m = (m, false)

unfoldable pub emplace {ℓ} : {A : Type ℓ} → Text → A → List (Text × A) → List (Text × A) × Bool
unfolding emplace_found
emplace k a m = emplace_found (find k m) k a m

-- The constructor: keys are trimmed and lower case, and may not collide.
unfoldable pub add_option {ℓ} : {V : Type ℓ} → Options V → Text × OptionValue V → Result (Options V)
unfolding emplace
add_option opts (key, v) = do
  let added = emplace (to_lower (trim key)) v opts
  expects added.1 invalid_argument
  ok added.0

unfoldable pub add_options {ℓ} :
    {V : Type ℓ} → Options V → List (Text × OptionValue V) → Result (Options V)
unfolding add_option
add_options opts [] = ok opts
add_options opts (e ∷ es) = add_option opts e >>= λ opts'. add_options opts' es

abbrev pub from_text {ℓ} : {V : Type ℓ} → Text → OptionValue V
from_text t = record { value = none; value_as_string = t }

abbrev pub from_entry {ℓ} : {V : Type ℓ} → Text × Text → Text × OptionValue V
from_entry e = (e.0, from_text e.1)

-- from_options_as_strings
unfoldable pub create {ℓ} : {V : Type ℓ} → List (Text × Text) → Result (Options V)
unfolding add_options
create es = add_options [] (map from_entry es)

unfoldable pub insert_if_absent {ℓ} : {V : Type ℓ} → Text → Text → Options V → Options V × Bool
unfolding emplace trim to_lower
insert_if_absent key text opts = emplace (to_lower (trim key)) (from_text text) opts

-- options[key] = v for a key that is there.
unfoldable pub replace {ℓ} : {A : Type ℓ} → Text → A → List (Text × A) → List (Text × A)
unfolding same_text
replace k a [] = []
replace k a ((j, b) ∷ m) =
    let rest = replace k a m in if same_text j k then (j, a) ∷ m else (j, b) ∷ rest

-- The stored text, or the default where that is empty.
unfoldable pub effective : List (Text × Text) → Text → Text → Text
unfolding find
effective defaults key [] = elim (find key defaults) [ none ↦ [] | some d ↦ d ]
effective defaults key (c ∷ cs) = c ∷ cs

-- The value that is there, or the one that the factory makes of the text. When it throws, nothing is
-- stored.
unfoldable pub parsed {ℓ} :
    {V : Type ℓ} → List (Text × Text) → (Text → Result V) → Text → Option V → Text → Result V
unfolding effective
parsed defaults factory key (some v) text = ok v
parsed defaults factory key none text = factory (effective defaults key text)

-- std::any_cast, which fails on a value of another type.
unfoldable pub cast_value {κ} : {T : Type κ} → Option T → Result T
cast_value none = err invalid_argument
cast_value (some t) = ok t

unfoldable pub entry_or_new {ℓ} : {V : Type ℓ} → Text → Options V → Options V
unfolding emplace
entry_or_new key opts = (emplace key (from_text []) opts).0

-- options[key]
unfoldable pub option_at {ℓ} : {V : Type ℓ} → Text → Options V → OptionValue V
unfolding find
option_at key opts = elim (find key opts) [ none ↦ from_text [] | some o ↦ o ]

-- An option is parsed by the first access that asks for it, and kept. The result is the options
-- afterwards, and the value or the exception; `cast` reads a value as the type that is asked for.
unfoldable pub get {ℓ κ} :
    {V : Type ℓ} {T : Type κ}
    → List (Text × Text)
    → (Text → Result V)
    → (V → Option T)
    → Text
    → Options V
    → Options V × Result T
unfolding option_at entry_or_new parsed cast_value replace
get defaults factory cast key opts =
    let o = option_at key opts in
    elim (parsed defaults factory key o.value o.value_as_string) [
      | err e ↦ (entry_or_new key opts, err e)
      | ok v ↦
          (replace key (record o { value = some v }) (entry_or_new key opts), cast_value (cast v))
    ]

-- get_strings
unfoldable pub get_strings {ℓ} : {V : Type ℓ} → Options V → List (Text × Text)
get_strings opts = map (λ e. (e.0, e.1.value_as_string)) opts

-- crc32_compute
unfoldable pub crc_bit : ℕ → ℕ
crc_bit crc = bit_xor 32 (crc / 2) (if crc % 2 == 1 then 0xEDB88320 else 0)

unfoldable pub crc_bits : ℕ → ℕ → ℕ
unfolding crc_bit
crc_bits zero crc = crc
crc_bits (suc n) crc = crc_bits n (crc_bit crc)

unfoldable pub crc_bytes : ℕ → List ℕ → ℕ
unfolding crc_bits
crc_bytes crc [] = crc
crc_bytes crc (b ∷ bs) = crc_bytes (crc_bits 8 (bit_xor 32 crc b)) bs

unfoldable pub crc32_compute : List ℕ → ℕ
unfolding crc_bytes
crc32_compute bs = 2 ^ 32 - 1 - crc_bytes (2 ^ 32 - 1) bs

-- std::ranges::sort by key.
unfoldable pub insert_by_key : Text × Text → List (Text × Text) → List (Text × Text)
unfolding less_text
insert_by_key e [] = e ∷ []
insert_by_key e (f ∷ fs) =
    let rest = insert_by_key e fs in if less_text f.0 e.0 then f ∷ rest else e ∷ f ∷ fs

unfoldable pub sort_by_key : List (Text × Text) → List (Text × Text)
unfolding insert_by_key
sort_by_key [] = []
sort_by_key (e ∷ es) = insert_by_key e (sort_by_key es)

is_parsed : {V : Type 0} → Option V → Bool
is_parsed none = false
is_parsed (some v) = true

-- The checks of `serialize`, and the size of the data.
unfoldable pub data_size : {V : Type 0} → Options V → Result ℕ
unfolding is_parsed
data_size [] = ok 0
data_size ((key, o) ∷ opts) = do
  expects (leb (length key) max_key_len) invalid_argument
  expects (not (is_parsed o.value)) invalid_argument
  expects (leb (length o.value_as_string) max_value_len) invalid_argument
  rest ← data_size opts
  ok (length key + length o.value_as_string + rest)

unfoldable pub header_size : ℕ → ℕ
header_size count = prelude_size + (8 + count * 2 * 8)

-- The offsets of keys and values, and the keys and values.
unfoldable pub table : ℕ → List (Text × Text) → List ℕ
table offset [] = []
table offset (e ∷ es) =
    to_bytes 8 offset
    ++ (to_bytes 8 (offset + length e.0) ++ table (offset + length e.0 + length e.1) es)

unfoldable pub contents : List (Text × Text) → List ℕ
contents [] = []
contents (e ∷ es) = e.0 ++ (e.1 ++ contents es)

unfoldable pub write : List (Text × Text) → List ℕ
unfolding header_size table contents crc32_compute
write es =
    prelude
    ++ (to_bytes 8 (length es)
        ++ (table (header_size (length es)) es
            ++ (contents es ++ to_bytes 4 (crc32_compute (contents es)))))

unfoldable pub serialize : {V : Type 0} → Options V → Result (List ℕ)
unfolding data_size header_size write sort_by_key get_strings
serialize opts = do
  expects (leb (length opts) max_options) invalid_argument
  size ← data_size opts
  expects (leb (header_size (length opts) + size + crc32_size) max_total_size) invalid_argument
  ok (write (sort_by_key (get_strings opts)))

-- The bytes of a range of the buffer, and the integer in eight of them.
unfoldable pub slice : List ℕ → ℕ → ℕ → List ℕ
slice buffer offset size = take size (drop offset buffer)

unfoldable pub read_u64 : List ℕ → ℕ → ℕ
unfolding slice
read_u64 buffer offset = from_bytes (slice buffer offset 8)

unfoldable pub key_offset : List ℕ → ℕ → ℕ
unfolding read_u64
key_offset buffer i = read_u64 buffer (prelude_size + (1 + 2 * i) * 8)

unfoldable pub value_offset : List ℕ → ℕ → ℕ
unfolding read_u64
value_offset buffer i = read_u64 buffer (prelude_size + (1 + 2 * i + 1) * 8)

-- validate_crc_and_get_data_limit
unfoldable pub data_limit : List ℕ → ℕ → ℕ → Result ℕ
unfolding slice
data_limit buffer header flags =
    if flags % 2 == 1
    then (do
      expects (leb (header + crc32_size) (length buffer)) invalid_argument
      let crc_pos = length buffer - crc32_size
      let expected = from_bytes (slice buffer crc_pos 4)
      expects (expected == crc32_compute (slice buffer header (crc_pos - header))) invalid_argument
      ok crc_pos)
    else ok (length buffer)

-- The pair of an index: the offset of the next key ends its value.
unfoldable pub read_entry : List ℕ → (header limit key value next : ℕ) → Result (Text × Text)
unfolding slice
read_entry buffer header limit key value next = do
  expects (leb header key && leb header value) out_of_range
  expects (ltb key value) out_of_range
  expects (leb value next) out_of_range
  expects (ltb key limit && leb value limit) out_of_range
  expects (leb (value - key) max_key_len) invalid_argument
  expects (leb (next - value) max_value_len) invalid_argument
  expects (leb (key + (value - key)) limit && leb (value + (next - value)) limit) out_of_range
  ok (slice buffer key (value - key), slice buffer value (next - value))

unfoldable pub read_entries :
    List ℕ → (header limit count remaining i : ℕ) → List (Text × Text) → Result (List (Text × Text))
read_entries buffer header limit count zero i acc = ok acc
read_entries buffer header limit count (suc remaining) i acc =
    read_entry buffer header limit (key_offset buffer i) (value_offset buffer i)
      (if ltb (i + 1) count then key_offset buffer (i + 1) else limit)
    >>= λ e. read_entries buffer header limit count remaining (i + 1) (emplace e.0 e.1 acc).0

unfoldable pub deserialize {ℓ} : {V : Type ℓ} → List ℕ → Result (Options V)
deserialize buffer = do
  expects (leb (prelude_size + 8) (length buffer)) invalid_argument
  expects (leb (length buffer) max_total_size) invalid_argument
  expects (same_text (take 4 buffer) magic) invalid_argument
  expects (from_bytes (slice buffer 4 1) == 1) invalid_argument
  let count = read_u64 buffer prelude_size
  expects (leb count max_options) invalid_argument
  expects (leb (header_size count) (length buffer)) invalid_argument
  limit ← data_limit buffer (header_size count) (from_bytes (slice buffer 5 1))
  entries ← read_entries buffer (header_size count) limit count count 0 []
  create entries
