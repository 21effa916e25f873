-- ===== src/Coll/Chunk.antt =====
-- The messages of the collectives: `Chunk` of cpp/src/coll/utils.cpp and cpp/include/rapidsmpf/coll/utils.hpp.
-- A byte is a number below 256, a rank is not negative, and a null pointer is `none`.
pub mod Wire
use rapidsmpf.Prelude.{
  ℕ, ◌+◌, ◌-◌, ◌*◌, ◌/◌, ◌%◌, ◌^◌, Option, none, some, List, [], ◌∷◌, ◌++◌, Bool, true, false, not,
  ◌&&◌, ◌||◌, ltb, ◌==◌, if◌then◌else◌, length,
}
use rapidsmpf.Prelude.Bits.{bit_or}
use rapidsmpf.Prelude.Bytes.{to_bytes, read}
use rapidsmpf.Prelude.Result.{Result, ok, err, expects, logic_error, invalid_argument, ◌>>=◌, ◌>>◌}
use rapidsmpf.Memory.Types.{MemoryType, host, addressable_memory_types}
use rapidsmpf.Memory.Resource.{BufferResource, reserve_or_fail}
use rapidsmpf.Memory.Buffer.{Buffer, make_whole_buffer}

pub record Chunk : Type 0 where
  pub id : ℕ
  pub destination : ℕ
  pub metadata : Option (List ℕ)
  pub payload : Option Buffer
  pub data_size : ℕ

pub record PackedData : Type 0 where
  pub metadata : Option (List ℕ)
  pub payload : Option Buffer

-- The largest rank: a received chunk has no destination.
abbrev pub invalid_rank : ℕ
invalid_rank = 2 ^ 31 - 1

abbrev pub id_bits : ℕ
id_bits = 38

unfoldable pub chunk_id : ℕ → ℕ → ℕ
chunk_id sequence origin = bit_or 64 (origin * 2 ^ id_bits % 2 ^ 64) sequence

abbrev pub is_null {ℓ} : {A : Type ℓ} → Option A → Bool
is_null none = true
is_null (some a) = false

-- The public constructor of a chunk with metadata and data: both pointers are checked.
unfoldable pub new_chunk : ℕ → ℕ → Option (List ℕ) → Option Buffer → Result Chunk
new_chunk id destination (some m) (some b) = ok (record {
  id = id;
  destination = destination;
  metadata = some m;
  payload = some b;
  data_size = b.size;
})
new_chunk id destination none none = err invalid_argument
new_chunk id destination _ _ = err logic_error

unfoldable pub finish_chunk : ℕ → ℕ → Chunk
finish_chunk id destination = record {
  id = id;
  destination = destination;
  metadata = none;
  payload = none;
  data_size = 0;
}

unfoldable pub from_packed_data : ℕ → ℕ → ℕ → PackedData → Result Chunk
from_packed_data sequence origin destination packed =
    new_chunk (chunk_id sequence origin) destination packed.metadata packed.payload

unfoldable pub from_empty : ℕ → ℕ → ℕ → Chunk
from_empty sequence origin destination = finish_chunk (chunk_id sequence origin) destination

unfoldable pub is_ready : Chunk → Bool
is_ready c = c.data_size == 0 || elim c.payload [ none ↦ false | some b ↦ b.write_done ]

unfoldable pub memory_type : Chunk → MemoryType
memory_type c = elim c.payload [ none ↦ host | some b ↦ b.mem_type ]

unfoldable pub is_finish : Chunk → Bool
is_finish c = is_null c.payload && is_null c.metadata

-- The low bits of the id.
unfoldable pub sequence : Chunk → ℕ
sequence c = c.id % 2 ^ id_bits

-- The high bits of the id, as a signed 32-bit integer that is not negative.
unfoldable pub origin : Chunk → ℕ
origin c = c.id / 2 ^ id_bits

unfoldable pub metadata_bytes : Option (List ℕ) → List ℕ
metadata_bytes none = []
metadata_bytes (some m) = m

unfoldable pub metadata_size : Chunk → ℕ
unfolding metadata_bytes
metadata_size c = length (metadata_bytes c.metadata)

unfoldable pub serialize : Chunk → List ℕ
serialize c =
    if is_finish c
    then to_bytes 8 c.id
    else to_bytes 8 c.id ++ (to_bytes 8 c.data_size ++ metadata_bytes c.metadata)

-- A data message: a buffer of the recorded size is allocated.
unfoldable pub deserialize_data : ℕ → List ℕ → BufferResource → Result (BufferResource × Chunk)
deserialize_data id rest br = do
  (data_size, m) ← read 8 rest
  (br1, r) ← reserve_or_fail br data_size addressable_memory_types
  (br2, b) ← make_whole_buffer br1 r
  c ← new_chunk id invalid_rank (some m) (some b)
  ok (br2, c)

-- A vector of eight bytes is a finish message.
unfoldable pub deserialize : List ℕ → BufferResource → Result (BufferResource × Chunk)
deserialize bytes br = do
  (id, rest) ← read 8 bytes
  (if length bytes == 8 then ok (br, finish_chunk id invalid_rank) else deserialize_data id rest br)

unfoldable pub release : Chunk → Result (PackedData × Chunk)
release c = do
  expects (not (is_null c.metadata) && not (is_null c.payload)) logic_error
  ok (
    record { metadata = c.metadata; payload = c.payload },
    record c { metadata = none; payload = none },
  )

unfoldable pub release_data_buffer : Chunk → Option Buffer × Chunk
release_data_buffer c = (c.payload, record c { payload = none })

unfoldable pub attach_data_buffer : Chunk → Buffer → Result Chunk
attach_data_buffer c b = do
  expects (b.size == c.data_size) logic_error
  expects (is_null c.payload) logic_error
  ok (record c { payload = some b })
