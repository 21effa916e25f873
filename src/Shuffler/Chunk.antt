-- ===== src/Shuffler/Chunk.antt =====
-- cpp/src/shuffler/chunk.cpp and cpp/include/rapidsmpf/shuffler/chunk.hpp: the messages of a
-- shuffle and their wire format. A byte is a number below 256.
pub mod Wire
use rapidsmpf.Prelude.{
  ℕ, ◌+◌, ◌%◌, ◌^◌, Option, none, some, List, [], ◌∷◌, ◌++◌, Bool, true, false, not, ◌&&◌, ◌||◌,
  ltb, ◌==◌, if◌then◌else◌, length, drop, take,
}
use rapidsmpf.Prelude.Bytes.{to_bytes, from_bytes, read}
use rapidsmpf.Prelude.Result.{Result, ok, err, expects, logic_error, ◌>>=◌, ◌>>◌}
use rapidsmpf.Memory.Types.{MemoryType, addressable_memory_types}
use rapidsmpf.Memory.Resource.{BufferResource, reserve_or_fail}
use rapidsmpf.Memory.Buffer.{Buffer, make_whole_buffer}

-- A null pointer is `none`.
pub record Chunk : Type 0 where
  pub chunk_id : ℕ
  pub part_id : ℕ
  pub expected_num_chunks : ℕ
  pub metadata_size : ℕ
  pub data_size : ℕ
  pub metadata : Option (List ℕ)
  pub payload : Option Buffer

pub record PackedData : Type 0 where
  pub metadata : Option (List ℕ)
  pub payload : Option Buffer

abbrev pub is_some {ℓ} : {A : Type ℓ} → Option A → Bool
is_some none = false
is_some (some a) = true

unfoldable pub is_control_message : Chunk → Bool
is_control_message c = ltb 0 c.expected_num_chunks

unfoldable pub is_ready : Chunk → Bool
is_ready c = c.data_size == 0 || elim c.payload [ none ↦ false | some b ↦ b.write_done ]

-- The size of the metadata is cut to 32 bits.
unfoldable pub from_packed_data : ℕ → ℕ → PackedData → Result Chunk
from_packed_data chunk_id part_id packed = elim packed.metadata [
  | none ↦ err logic_error
  | some m ↦ elim packed.payload [
    | none ↦ err logic_error
    | some b ↦ ok (record {
      chunk_id = chunk_id;
      part_id = part_id;
      expected_num_chunks = 0;
      metadata_size = length m % 2 ^ 32;
      data_size = b.size;
      metadata = some m;
      payload = some b;
    })
  ]
]

unfoldable pub from_finished_partition : ℕ → ℕ → ℕ → Chunk
from_finished_partition chunk_id part_id expected_num_chunks = record {
  chunk_id = chunk_id;
  part_id = part_id;
  expected_num_chunks = expected_num_chunks;
  metadata_size = 0;
  data_size = 0;
  metadata = none;
  payload = none;
}

-- sizeof of the five header fields
abbrev pub metadata_message_header_size : ℕ
metadata_message_header_size = 8 + 4 + 8 + 4 + 8

unfoldable pub metadata_bytes : Option (List ℕ) → List ℕ
metadata_bytes none = []
metadata_bytes (some m) = m

cleared : Option (List ℕ) → Option (List ℕ)
cleared none = none
cleared (some m) = some []

-- The message, and the chunk with its metadata vector cleared.
unfoldable pub serialize : Chunk → List ℕ × Chunk
unfolding metadata_bytes cleared
serialize c = (
  to_bytes 8 c.chunk_id
      ++ (to_bytes 4 c.part_id
          ++ (to_bytes 8 c.expected_num_chunks
              ++ (to_bytes 4 c.metadata_size
                  ++ (to_bytes 8 c.data_size ++ metadata_bytes c.metadata)))),
  record c { metadata = cleared c.metadata },
)

-- The header and the rest of a message.
unfoldable pub read_header : List ℕ → Result (Chunk × List ℕ)
read_header msg = do
  (chunk_id, r1) ← read 8 msg
  (part_id, r2) ← read 4 r1
  (expected, r3) ← read 8 r2
  (metadata_size, r4) ← read 4 r3
  (data_size, r5) ← read 8 r4
  ok (
    record {
      chunk_id = chunk_id;
      part_id = part_id;
      expected_num_chunks = expected;
      metadata_size = metadata_size;
      data_size = data_size;
      metadata = some r5;
      payload = none;
    },
    r5,
  )

unfoldable pub validate_format : List ℕ → Bool
validate_format msg =
    let metadata_size = from_bytes (take 4 (drop 20 msg)) in
    not (ltb (length msg) metadata_message_header_size)
    && length msg == metadata_message_header_size + metadata_size

-- The buffer of a data message with none attached is allocated here; a null buffer resource is an
-- error then.
attach : Option BufferResource → Chunk → Option Buffer → Result (Option BufferResource × Chunk)
attach br c (some b) = ok (br, record c { payload = some b })
attach none c none = if c.expected_num_chunks == 0 then err logic_error else ok (none, c)
attach (some br) c none =
    if c.expected_num_chunks == 0
    then (do
      (br1, r) ← reserve_or_fail br c.data_size addressable_memory_types
      (br2, b) ← make_whole_buffer br1 r
      ok (some br2, record c { payload = some b }))
    else ok (some br, c)

unfoldable pub deserialize :
    List ℕ → Option BufferResource → Bool → Option Buffer → Result (Option BufferResource × Chunk)
unfolding attach
deserialize msg br validate payload = do
  expects (not validate || validate_format msg) logic_error
  (c, _) ← read_header msg
  attach br c payload
