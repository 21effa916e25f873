-- ===== src/Coll/AllGather.antt =====
-- `AllGather` of cpp/src/coll/allgather.cpp and cpp/include/rapidsmpf/coll/allgather.hpp. The
-- communicator is a parameter: what has arrived and which operations are complete are arguments,
-- and what is sent is a result. `wait` blocks until `can_extract` and is not modelled; an exception
-- leaves the event loop, and the state that it leaves behind is not modelled.
pub mod Loop
pub mod Gate
use rapidsmpf.Prelude.{
  ℕ, zero, suc, ◌+◌, ◌-◌, ◌%◌, ◌^◌, Option, none, some, List, [], ◌∷◌, ◌++◌, Bool, true, false, not,
  ◌&&◌, ◌||◌, ltb, ◌==◌, if◌then◌else◌, length,
}
use rapidsmpf.Prelude.Int.{ℤ, pos, negsuc, sub_ℕ}
use rapidsmpf.Prelude.Result.{Result, ok, err, expects, logic_error, undefined, ◌>>=◌, ◌>>◌}
use rapidsmpf.Memory.Types.{addressable_memory_types, contains_type, device}
use rapidsmpf.Memory.Resource.{BufferResource, memory_available}
use rapidsmpf.Memory.Buffer.{Buffer, ensure_memory_type}
use rapidsmpf.Coll.Chunk.{
  Chunk, PackedData, from_packed_data, from_empty, invalid_rank, is_ready, is_finish, sequence,
  origin, memory_type, serialize, deserialize, release_data_buffer,
}
use rapidsmpf.Coll.PostBox as PostBox
use rapidsmpf.Coll.PostBox.{extract_ready, test_some, empty}
use rapidsmpf.Coll.SparseAlltoall.{release_all}

-- The finish counters are signed, the count of insertions has 32 bits, and the goalpost has 64.
pub record AllGather : Type 0 where
  pub rank : ℕ
  pub nranks : ℕ
  pub br : BufferResource
  pub nlocal_insertions : ℕ
  pub locally_finished : Bool
  pub can_extract : Bool
  pub finish_counter : ℤ
  pub extraction_goalpost : ℕ
  pub remote_finish_counter : ℤ
  pub num_received_messages : ℕ
  pub num_expected_messages : ℕ
  pub inserted : List Chunk
  pub for_extraction : List Chunk
  pub to_receive : List Chunk
  pub sent_posted : List Chunk
  pub receive_posted : List Chunk
  pub fire_and_forget : ℕ
  pub finished_callback : Bool

-- The registrations with the progress thread and the spill manager are theirs.
unfoldable pub create : ℕ → ℕ → BufferResource → Bool → AllGather
create rank nranks br callback = record {
  rank = rank;
  nranks = nranks;
  br = br;
  nlocal_insertions = 0;
  locally_finished = false;
  can_extract = false;
  finish_counter = pos nranks;
  extraction_goalpost = 0;
  remote_finish_counter = sub_ℕ nranks 1;
  num_received_messages = 0;
  num_expected_messages = 0;
  inserted = [];
  for_extraction = [];
  to_receive = [];
  sent_posted = [];
  receive_posted = [];
  fire_and_forget = 0;
  finished_callback = callback;
}

abbrev pub decrement : ℤ → ℤ
decrement (pos zero) = negsuc zero
decrement (pos (suc n)) = pos n
decrement (negsuc n) = negsuc (suc n)

abbrev pub is_positive : ℤ → Bool
is_positive (pos n) = ltb 0 n
is_positive (negsuc n) = false

abbrev pub is_zero : ℤ → Bool
is_zero (pos n) = n == 0
is_zero (negsuc n) = false

-- AllGather::insert of a chunk
unfoldable pub insert_chunk : AllGather → Chunk → AllGather × Result (Unit {0})
insert_chunk s c =
    if s.locally_finished
    then (s, err logic_error)
    else if s.nranks == 1 || contains_type addressable_memory_types (memory_type c)
    then (record s { inserted = PostBox.insert s.inserted c }, ok tt)
    else (s, err logic_error)

-- The insertion is counted before the chunk is made and checked.
unfoldable pub insert_data : AllGather → ℕ → PackedData → AllGather × Result (Unit {0})
insert_data s sequence_number packed =
    let counted = record s { nlocal_insertions = (s.nlocal_insertions + 1) % 2 ^ 32 } in
    elim (from_packed_data sequence_number s.rank invalid_rank packed) [
      | err e ↦ (counted, err e)
      | ok c ↦ insert_chunk counted c
    ]

-- With more than one rank the data has to be addressable.
unfoldable pub insert : AllGather → ℕ → PackedData → AllGather × Result (Unit {0})
insert s sequence_number packed =
    if ltb 1 s.nranks
    then elim packed.payload [
      | none ↦ (s, err undefined)
      | some b ↦ elim (ensure_memory_type s.br b addressable_memory_types) [
        | err e ↦ (s, err e)
        | ok (br, b') ↦
            insert_data (record s { br = br }) sequence_number (record packed { payload = some b' })
      ]
    ]
    else insert_data s sequence_number packed

unfoldable pub insert_finished : AllGather → AllGather
insert_finished s = record s {
  inserted = PostBox.insert s.inserted (from_empty s.nlocal_insertions s.rank invalid_rank);
  locally_finished = true;
}

unfoldable pub mark_finish : AllGather → ℕ → AllGather
mark_finish s expected_chunks = record s {
  extraction_goalpost = (s.extraction_goalpost + expected_chunks) % 2 ^ 64;
  finish_counter = decrement s.finish_counter;
}

-- std::ranges::sort by id.
unfoldable pub id_insert : Chunk → List Chunk → List Chunk
id_insert c [] = c ∷ []
id_insert c (d ∷ ds) = if ltb d.id c.id then d ∷ id_insert c ds else c ∷ (d ∷ ds)

unfoldable pub sort_by_id : List Chunk → List Chunk
sort_by_id [] = []
sort_by_id (c ∷ cs) = id_insert c (sort_by_id cs)

-- wait_and_extract, after the wait.
unfoldable pub extract_all : AllGather → Bool → Result (AllGather × List PackedData)
extract_all s ordered = do
  let chunks = s.for_extraction
  ps ← release_all (if ordered then sort_by_id chunks else chunks)
  ok (
    record s {
      for_extraction = [];
      extraction_goalpost = (s.extraction_goalpost + (2 ^ 64 - length chunks)) % 2 ^ 64;
    },
    ps,
  )
