-- ===== src/Examples/CollRuns.antt =====
-- Runs of the collectives' chunks and boxes.
use rapidsmpf.Prelude.{
  ℕ, ◌+◌, ◌*◌, ◌^◌, ◌<◌, ◌≡◌, ◌≤◌, ◌↔◌, ◌⊎◌, refl, some, List, [], ◌∷◌, true, false, arith, length,
  min,
}
use rapidsmpf.Prelude.Int.{pos}
use rapidsmpf.Prelude.Result.{Result, ok, err}
use rapidsmpf.Prelude.Int.{◌-ℤ◌, ◌+ℤ◌}
use rapidsmpf.Memory.Types.{MemoryType, device, host, addressable_memory_types}
use rapidsmpf.Memory.Resource.{
  BufferResource, MemoryReservation, reserve_or_fail, try_reserve, can_reserve, reserve,
  headroom_after, memory_available, book, release, clear, cast_i64, i64, overbooking_of,
}
use rapidsmpf.Memory.Buffer.{
  Buffer, make_whole_buffer, make_buffer, move, count_allocation, count_deallocation,
}
use rapidsmpf.Coll.Chunk.{
  Chunk, chunk_id, sequence, origin, from_empty, invalid_rank, serialize, deserialize,
  metadata_bytes, is_finish, memory_type, release_data_buffer, attach_data_buffer,
}
use rapidsmpf.Coll.Chunk.Wire.{chunk_id-lexicographic, deserialize-serialize_data}
use rapidsmpf.Coll.PostBox.{
  spill, spill_loop, spill_at, spill_chunk, spillable_chunks, total_size, sort_by_size,
  sorted_insert, pick, lower_bound, after_chunk,
}
use rapidsmpf.Coll.PostBox.Fewest.{IsSublist, nothing, skip, keep}
use rapidsmpf.Coll.PostBox.Spills.{data_sizes, spill-enough, spill-fewest}

abbrev pub resource : BufferResource
resource = record {
  allocated = λ t. pos 0;
  memory_limits = λ t. pos 100;
  memory_reserved = λ t. 0;
  overbooking_by_default = false;
  has_disk = false;
  has_pinned = false;
}

abbrev pub buffer : MemoryType → ℕ → Buffer
buffer t n = record { size = n; mem_type = t; write_done = true }

-- Chunk `i` of rank 3.
abbrev pub chunk : ℕ → ℕ → Chunk
chunk i n = record {
  id = 3 * 2 ^ 38 + i;
  destination = 1;
  metadata = some (7 ∷ 9 ∷ []);
  payload = some (buffer device n);
  data_size = n;
}

chunk_id-lexicographic_example :
    (sequence (from_empty 5 3 invalid_rank) ≡ 5)
    × (origin (from_empty 5 3 invalid_rank) ≡ 3)
    × (chunk_id 5 3 < chunk_id 1 4 ↔ (3 < 4) ⊎ ((◌≡◌ {A = ℕ} 3 4) × (5 < 1)))
chunk_id-lexicographic_example =
    chunk_id-lexicographic 5 3 1 4 (omega arith) (omega arith) (omega arith) (omega arith)

abbrev reserved_of :
    Result (BufferResource × MemoryReservation) → BufferResource × MemoryReservation
reserved_of (ok r) = r
reserved_of (err e) = (resource, record { mem_type = host; size = 0 })

abbrev made_of : Result (BufferResource × Buffer) → BufferResource × Buffer
made_of (ok r) = r
made_of (err e) = (resource, buffer host 0)

abbrev pub reservation : BufferResource × MemoryReservation
reservation = reserved_of (reserve_or_fail resource 4 addressable_memory_types)

pub reserved : reserve_or_fail resource 4 addressable_memory_types ≡ ok reservation
unfolding reserve_or_fail try_reserve can_reserve reserve headroom_after memory_available ◌-ℤ◌ ◌+ℤ◌
    book
reserved = refl

abbrev pub made : BufferResource × Buffer
made = made_of (make_whole_buffer reservation.0 reservation.1)

pub buffer_made : make_whole_buffer reservation.0 reservation.1 ≡ ok made
unfolding reserve_or_fail try_reserve can_reserve reserve headroom_after memory_available ◌-ℤ◌ ◌+ℤ◌
    book make_whole_buffer make_buffer release
buffer_made = refl

pub data_message : is_finish (chunk 5 4) ≡ false
unfolding is_finish
data_message = refl

deserialize-serialize_data_example :
    (deserialize (serialize (chunk 5 4)) resource
      ≡ ok (
        made.0,
        record {
          id = 3 * 2 ^ 38 + 5;
          destination = invalid_rank;
          metadata = some (metadata_bytes (some (7 ∷ 9 ∷ [])));
          payload = some made.1;
          data_size = 4;
        },
      ))
    × (made.1.size ≡ 4)
deserialize-serialize_data_example =
    deserialize-serialize_data (chunk 5 4) resource reservation.0 made.0 reservation.1 made.1
      data_message (omega arith) (omega arith) reserved buffer_made

-- Three device chunks, of 4, 10 and 6 bytes.
abbrev box : List Chunk
box = chunk 0 4 ∷ (chunk 1 10 ∷ (chunk 2 6 ∷ []))

abbrev spilled : BufferResource × List Chunk × Result ℕ
spilled = spill resource box 12

spills : ◌≡◌ {A = BufferResource × List Chunk × Result ℕ} spilled (spilled.0, spilled.1, ok 14)
unfolding spill total_size spillable_chunks memory_type spill_loop sort_by_size sorted_insert
    after_chunk spill_at pick lower_bound spill_chunk reserve_or_fail try_reserve can_reserve
    reserve headroom_after attach_data_buffer release_data_buffer count_allocation
    count_deallocation make_buffer move book cast_i64 clear i64 memory_available overbooking_of
    release ◌+ℤ◌ ◌-ℤ◌
spills = refl

spill-enough_example :
    (min 12 (total_size (spillable_chunks 0 box)) ≤ 14)
    × (14 + total_size (spillable_chunks 0 spilled.1) ≡ total_size (spillable_chunks 0 box))
    × (data_sizes spilled.1 ≡ data_sizes box)
spill-enough_example = spill-enough resource spilled.0 box spilled.1 12 14 (omega arith) spills

two_chunks : IsSublist ((1, 10) ∷ ((2, 6) ∷ [])) (spillable_chunks 0 box)
unfolding spillable_chunks memory_type
two_chunks = skip (0, 4) (keep (1, 10) (keep (2, 6) nothing))

enough : 12 ≤ total_size ((1, 10) ∷ ((2, 6) ∷ []))
unfolding total_size
enough = omega arith

spill-fewest_example :
    ◌≤◌ 12 14
    × (14 + total_size (spillable_chunks 0 spilled.1) ≡ total_size (spillable_chunks 0 box))
    × (length (spillable_chunks 0 box) ≤ length (spillable_chunks 0 spilled.1) + 2)
spill-fewest_example =
    spill-fewest resource spilled.0 box spilled.1 12 14 ((1, 10) ∷ ((2, 6) ∷ [])) (omega arith)
      spills two_chunks enough
