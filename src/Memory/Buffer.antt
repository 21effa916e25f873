-- ===== src/Memory/Buffer.antt =====
-- Buffers as the ledger of cpp/src/memory/buffer_resource.cpp sees them: a size, a memory type and
-- whether the latest write to the buffer is done. Contents and streams are not modelled, nor is
-- an upstream allocation that fails.
use rapidsmpf.Prelude.{ℕ, Bool, true, false, List, ◌∷◌, [], Option, none, some, if◌then◌else◌}
use rapidsmpf.Prelude.Int.{pos, ◌+ℤ◌, ◌-ℤ◌}
use rapidsmpf.Prelude.Result.{
  Result, ok, err, ◌>>=◌, ◌>>◌, expects, invalid_argument, reservation_error,
}
use rapidsmpf.Memory.Types.{MemoryType, disk, same_type, contains_type}
use rapidsmpf.Memory.Resource.{
  BufferResource, MemoryReservation, update, reserve, release, try_reserve,
}

pub record Buffer : Type 0 where
  pub size : ℕ
  pub mem_type : MemoryType
  pub write_done : Bool

-- Allocation and deallocation as the owned resources count them; a disk file is counted by none.
unfoldable pub count_allocation : BufferResource → MemoryType → ℕ → BufferResource
count_allocation br disk n = br
count_allocation br t n = record br { allocated = update br.allocated t (br.allocated t +ℤ pos n) }

unfoldable pub count_deallocation : BufferResource → MemoryType → ℕ → BufferResource
count_deallocation br disk n = br
count_deallocation br t n = record br {
  allocated = update br.allocated t (br.allocated t -ℤ pos n);
}

-- make_buffer(size, stream, reservation): the allocation comes first, and is undone when the
-- reservation is too small.
unfoldable pub make_buffer :
    BufferResource → ℕ → MemoryReservation → Result (BufferResource × MemoryReservation × Buffer)
unfolding count_allocation
make_buffer br size r = do
  (br', r') ← release (count_allocation br r.mem_type size) r size
  ok (br', r', record { size = size; mem_type = r.mem_type; write_done = true })

-- make_buffer(stream, reservation)
unfoldable pub make_whole_buffer :
    BufferResource → MemoryReservation → Result (BufferResource × Buffer)
make_whole_buffer br r = do (br', _, b) ← make_buffer br r.size r; ok (br', b)

-- move(buffer, reservation): a buffer of the reserved type stays as it is; else a new buffer is
-- made, the bytes are copied, and the old buffer is freed.
unfoldable pub move :
    BufferResource
    → Buffer
    → MemoryReservation
    → Result (BufferResource × MemoryReservation × Buffer)
unfolding count_deallocation
move br b r = if same_type r.mem_type b.mem_type then ok (br, r, b) else (do
  (br', r', copy) ← make_buffer br b.size r
  ok (count_deallocation br' b.mem_type b.size, r', record copy { write_done = false }))

unfoldable pub last_type : MemoryType → List MemoryType → MemoryType
last_type t [] = t
last_type t (u ∷ us) = last_type u us

unfoldable pub reverse_types : List MemoryType → List MemoryType → List MemoryType
reverse_types acc [] = acc
reverse_types acc (t ∷ ts) = reverse_types (t ∷ acc) ts

-- The fallback of `ensure_memory_type` when nothing fits: the least preferred type, overbooked.
overbook_last :
    BufferResource
    → ℕ
    → MemoryType
    → Option MemoryReservation
    → Result (BufferResource × MemoryReservation)
overbook_last br size t (some r) = ok (br, r)
overbook_last br size t none = do
  expects br.overbooking_by_default reservation_error
  (br', r, _) ← reserve br t size true
  ok (br', r)

unfoldable pub ensure_memory_type :
    BufferResource → Buffer → List MemoryType → Result (BufferResource × Buffer)
unfolding overbook_last last_type reverse_types
ensure_memory_type br b [] = err invalid_argument
ensure_memory_type br b (t ∷ ts) = if contains_type (t ∷ ts) b.mem_type then ok (br, b) else (do
  (br1, found) ← try_reserve br b.size (reverse_types [] (t ∷ ts))
  (br2, r) ← overbook_last br1 b.size (last_type t ts) found
  (br3, _, moved) ← move br2 b r
  ok (br3, moved))
