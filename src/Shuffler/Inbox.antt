-- ===== src/Shuffler/Inbox.antt =====
-- The receiving side of a shuffle: `ReceivedChunks` of cpp/src/shuffler/postbox.cpp, and
-- `insert_into_received` and the chunk ids of cpp/src/shuffler/shuffler.cpp.
pub mod Count
pub mod Counter
pub mod Complete
use rapidsmpf.Prelude.{
  ℕ, ◌+◌, ◌*◌, ◌/◌, ◌^◌, Option, none, some, List, [], ◌∷◌, ◌++◌, Bool, true, false, not, ◌&&◌,
  ◌||◌, ltb, leb, ◌==◌, if◌then◌else◌,
}
use rapidsmpf.Prelude.Assoc.{find, assign, erase, contains}
use rapidsmpf.Prelude.Result.{Result, ok, err, out_of_range, logic_error, expects, ◌>>=◌, ◌>>◌}
use rapidsmpf.Memory.Types.{MemoryType, device, same_type, spill_target_memory_types}
use rapidsmpf.Memory.Resource.{BufferResource, reserve_or_fail}
use rapidsmpf.Memory.Buffer.{Buffer, move}
use rapidsmpf.Shuffler.Chunk.{Chunk, PackedData, is_control_message}
use rapidsmpf.Shuffler.Finish.{FinishCounter, move_goalpost, add_finished_chunk}

abbrev pub chunk_id_counter_bits : ℕ
chunk_id_counter_bits = 38

-- What is left has at most 26 bits, so the cast to a rank does not throw.
unfoldable pub extract_rank : ℕ → ℕ
extract_rank cid = cid / 2 ^ chunk_id_counter_bits

-- The chunks of each partition, in the order of arrival.
abbrev pub ReceivedChunks : Type 0
ReceivedChunks = List (ℕ × List Chunk)

chunks_at : Option (List Chunk) → List Chunk
chunks_at none = []
chunks_at (some cs) = cs

unfoldable pub insert : ReceivedChunks → Chunk → ReceivedChunks
unfolding chunks_at
insert box c = assign c.part_id (chunks_at (find c.part_id box) ++ c ∷ []) box

unfoldable pub is_empty : ReceivedChunks → ℕ → Bool
is_empty box pid = not (contains pid box)

-- extract_value throws std::out_of_range for a partition that is not there.
unfoldable pub extract_received : ReceivedChunks → ℕ → Result (ReceivedChunks × List Chunk)
extract_received box pid = elim (find pid box) [
  | none ↦ err out_of_range
  | some cs ↦ ok (erase pid box, cs)
]

pub record Inbox : Type 0 where
  pub finish_counter : FinishCounter
  pub received : ReceivedChunks

count : FinishCounter → ReceivedChunks → Inbox × Result (Unit {0})
count c box =
    let (c', r) = add_finished_chunk c in (record { finish_counter = c'; received = box }, r)

unfoldable pub insert_into_received : Inbox → Chunk → Inbox × Result (Unit {0})
unfolding count
insert_into_received i c =
    if is_control_message c
    then elim (move_goalpost i.finish_counter (extract_rank c.chunk_id) c.expected_num_chunks) [
      | err e ↦ (i, err e)
      | ok counter ↦ count counter i.received
    ]
    else count i.finish_counter (insert i.received c)

released : Chunk → PackedData
released c = record { metadata = c.metadata; payload = c.payload }

released_all : List Chunk → List PackedData
unfolding released
released_all [] = []
released_all (c ∷ cs) = released c ∷ released_all cs

-- Shuffler::extract: an empty partition gives no data.
unfoldable pub extract : Inbox → ℕ → Result (Inbox × List PackedData)
unfolding released_all is_empty extract_received
extract i pid = if is_empty i.received pid then ok (i, []) else (do
  (box, cs) ← extract_received i.received pid
  ok (record i { received = box }, released_all cs))

-- Chunks that `spill` moves out of device memory.
spillable : Chunk → Bool
spillable c = elim c.payload [
  | none ↦ false
  | some b ↦ not (c.data_size == 0) && same_type b.mem_type device
]

-- One chunk of the loop: the payload moves to host memory; `set_data_buffer` finds none set.
move_payload : BufferResource → Chunk → Result (BufferResource × Chunk)
move_payload br c = elim c.payload [
  | none ↦ ok (br, c)
  | some b ↦ do
    (br1, r) ← reserve_or_fail br c.data_size spill_target_memory_types
    (br2, _, moved) ← move br1 b r
    ok (br2, record c { payload = some moved })
]

-- The resource, the chunks and the bytes spilled so far; the chunks that are left once enough is
-- spilled stay as they are. A reservation that fails ends the call by an exception.
unfoldable pub spill_chunks :
    BufferResource → ℕ → ℕ → List Chunk → Result (BufferResource × ℕ × List Chunk)
unfolding spillable move_payload
spill_chunks br amount total [] = ok (br, total, [])
spill_chunks br amount total (c ∷ cs) =
    let skip = spill_chunks br amount total cs in
    if spillable c
    then (do
      (br1, c1) ← move_payload br c
      let spilled = total + c.data_size
      let rest = spill_chunks br1 amount spilled cs
      if leb amount spilled
          then ok (br1, spilled, c1 ∷ cs)
          else (do (br2, t, cs2) ← rest; ok (br2, t, c1 ∷ cs2)))
    else (do (br1, t, cs1) ← skip; ok (br1, t, c ∷ cs1))

unfoldable pub spill_partitions :
    BufferResource → ℕ → ℕ → ReceivedChunks → Result (BufferResource × ℕ × ReceivedChunks)
unfolding spill_chunks
spill_partitions br amount total [] = ok (br, total, [])
spill_partitions br amount total ((pid, cs) ∷ box) = do
  (br1, t, cs1) ← spill_chunks br amount total cs
  let rest = spill_partitions br1 amount t box
  if leb amount t
      then ok (br1, t, (pid, cs1) ∷ box)
      else (do (br2, t2, box2) ← rest; ok (br2, t2, (pid, cs1) ∷ box2))
