-- ===== src/Coll/Chunk/Wire.antt =====
-- The ids and the wire format of the collectives' chunks, cpp/src/coll/utils.cpp.
use rapidsmpf.Prelude.{
  ℕ, ◌+◌, ◌*◌, ◌^◌, ◌<◌, ◌≡◌, ◌↔◌, ◌⊎◌, ap, ◌∙◌, refl, sym, arith, none, some, [], ◌++◌, true,
  false, ==_iff, ◌==◌, length, length-append, append-nil,
}
use rapidsmpf.Prelude.Bits.{bit_or, bit_or-disjoint}
use rapidsmpf.Prelude.Bytes.{to_bytes, read, read-to_bytes, length-to_bytes}
use rapidsmpf.Prelude.Result.{ok}
use rapidsmpf.Memory.Types.{addressable_memory_types}
use rapidsmpf.Memory.Resource.{BufferResource, MemoryReservation, reserve_or_fail}
use rapidsmpf.Memory.Resource.Search.{reserve_or_fail-size, make_whole_buffer-size}
use rapidsmpf.Memory.Buffer.{Buffer, make_whole_buffer}
use rapidsmpf.Coll.Chunk.{
  Chunk, chunk_id, sequence, origin, from_empty, finish_chunk, is_finish, serialize, deserialize,
  deserialize_data, new_chunk, invalid_rank, metadata_bytes,
}

-- A sequence number below 2 ^ 38 and a rank below 2 ^ 26: the or is a sum.
chunk_id_lem : (s o : ℕ) → s < 2 ^ 38 → o < 2 ^ 26 → chunk_id s o ≡ o * 2 ^ 38 + s
unfolding chunk_id
chunk_id_lem s o hs ho =
    ap (λ a. bit_or 64 a s) (omega arith) ∙ bit_or-disjoint 64 38 o s (omega arith) (omega arith) hs

lexicographic :
    (s o t p : ℕ)
    → s < 2 ^ 38
    → t < 2 ^ 38
    → (o * 2 ^ 38 + s < p * 2 ^ 38 + t ↔ (o < p) ⊎ ((o ≡ p) × (s < t)))
lexicographic s o t p hs ht = ground arith

-- With at most 2 ^ 26 ranks and sequence numbers below 2 ^ 38, an id gives back its sequence number
-- and its rank, and ids are ordered by rank first and by sequence number within a rank.
pub chunk_id-lexicographic :
    (s o t p : ℕ)
    → s < 2 ^ 38
    → o < 2 ^ 26
    → t < 2 ^ 38
    → p < 2 ^ 26
    → (sequence (from_empty s o invalid_rank) ≡ s)
      × (origin (from_empty s o invalid_rank) ≡ o)
      × (chunk_id s o < chunk_id t p ↔ (o < p) ⊎ ((o ≡ p) × (s < t)))
unfolding sequence origin from_empty finish_chunk
chunk_id-lexicographic s o t p hs ho ht hp =
    let a = chunk_id_lem s o hs ho in
    let b = chunk_id_lem t p ht hp in
    (omega (arith, a), omega (arith, a), rw (a, b) (lexicographic s o t p hs ht))

record_finish : (c : Chunk) → is_finish c ≡ true → (c.payload ≡ none) × (c.metadata ≡ none)
unfolding is_finish
record_finish c h = ground arith

-- A finish message is read back as a finish message with its id, and no memory is taken for it.
pub deserialize-finish :
    (c : Chunk) (br : BufferResource)
    → is_finish c ≡ true
    → c.id < 2 ^ 64
    → deserialize (serialize c) br ≡ ok (br, finish_chunk c.id invalid_rank)
unfolding serialize deserialize
deserialize-finish c br f fits =
    let l : (length (to_bytes 8 c.id) == 8) ≡ true = (==_iff _ _).1 (length-to_bytes 8 c.id) in
    let e : read 8 (to_bytes 8 c.id) ≡ ok (c.id, []) =
      ap (read 8) (sym (append-nil (to_bytes 8 c.id))) ∙ read-to_bytes 8 c.id [] fits in
    rw (f, e, l) refl

long_message : (n m : ℕ) → n ≡ 16 + m → (n == 8) ≡ false
long_message n m e = ground arith

-- A data message that is read where the memory for it is found comes back with its id, its size and
-- its metadata, for an unknown destination and with a buffer of its size.
pub deserialize-serialize_data :
    (c : Chunk) (br br1 br2 : BufferResource) (r : MemoryReservation) (b : Buffer)
    → is_finish c ≡ false
    → c.id < 2 ^ 64
    → c.data_size < 2 ^ 64
    → reserve_or_fail br c.data_size addressable_memory_types ≡ ok (br1, r)
    → make_whole_buffer br1 r ≡ ok (br2, b)
    → (deserialize (serialize c) br
        ≡ ok (
          br2,
          record {
            id = c.id;
            destination = invalid_rank;
            metadata = some (metadata_bytes c.metadata);
            payload = some b;
            data_size = c.data_size;
          },
        ))
      × (b.size ≡ c.data_size)
unfolding serialize deserialize deserialize_data new_chunk
deserialize-serialize_data c br br1 br2 r b f id_fits size_fits reserved made =
    let m = metadata_bytes c.metadata in
    let r1 = to_bytes 8 c.data_size ++ m in
    let l : (length (to_bytes 8 c.id ++ r1) == 8) ≡ false = long_message _ (length m) (
      omega (
        arith,
        length-append (to_bytes 8 c.id) r1,
        length-append (to_bytes 8 c.data_size) m,
        length-to_bytes 8 c.id,
        length-to_bytes 8 c.data_size,
      )) in
    let size : b.size ≡ c.data_size =
      (make_whole_buffer-size br1 r made).0 ∙ reserve_or_fail-size br c.data_size _ reserved in
    (
      rw
          (
            f,
            read-to_bytes 8 c.id r1 id_fits,
            l,
            read-to_bytes 8 c.data_size m size_fits,
            reserved,
            made,
            size,
          )
          refl,
      size,
    )
