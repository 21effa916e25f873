-- ===== src/Examples/GatherRuns.antt =====
-- Runs of the sparse all-to-all and of the allgather.
use rapidsmpf.Prelude.{
  ℕ, ◌+◌, ◌*◌, ◌^◌, ◌<◌, ◌≡◌, ◌↔◌, refl, some, List, [], ◌∷◌, ◌++◌, true, false, arith, length,
}
use rapidsmpf.Prelude.Int.{pos}
use rapidsmpf.Prelude.Assoc.{find, assign}
use rapidsmpf.Prelude.Result.{ok}
use rapidsmpf.Memory.Types.{device}
use rapidsmpf.Coll.Chunk.{
  Chunk, PackedData, sequence, origin, invalid_rank, serialize, deserialize, metadata_bytes,
  is_finish, finish_chunk, release as release_chunk,
}
use rapidsmpf.Coll.Chunk.Wire.{deserialize-serialize_data, deserialize-finish}
use rapidsmpf.Coll.SparseAlltoall.{
  SparseAlltoall, SourceState, new_source, ready, extract, release_all,
}
use rapidsmpf.Coll.SparseAlltoall.Loop.{receive_from}
use rapidsmpf.Coll.SparseAlltoall.Order.{
  IsAscending, put, here, there, nothing as empty_arrangement, extract-in_order,
}
use rapidsmpf.Coll.SparseAlltoall.Arrival.{
  Reads, next, done, AllFrom, finishes, data_chunks, receive_from-ready,
}
use rapidsmpf.Coll.AllGather.{AllGather}
use rapidsmpf.Coll.AllGather.Loop.{Sent, receive_metadata, needs_metadata}
use rapidsmpf.Coll.AllGather.Gate.{Awaits, receive_metadata-own}
use rapidsmpf.Examples.CollRuns.{
  resource, buffer, chunk, made, reservation, reserved, buffer_made, data_message,
}

-- The messages of rank 3 at an all-to-all: its finish message comes before its one data message.
abbrev last : Chunk
last = finish_chunk (3 * 2 ^ 38 + 2) 1

finish_message : is_finish last ≡ true
unfolding is_finish finish_chunk
finish_message = refl

abbrev received_chunk : Chunk
received_chunk = record {
  id = 3 * 2 ^ 38 + 5;
  destination = invalid_rank;
  metadata = some (metadata_bytes (some (7 ∷ 9 ∷ [])));
  payload = some made.1;
  data_size = 4;
}

data_read : deserialize (serialize (chunk 5 4)) resource ≡ ok (made.0, received_chunk)
data_read =
    (deserialize-serialize_data (chunk 5 4) resource reservation.0 made.0 reservation.1 made.1
      data_message (omega arith) (omega arith) reserved buffer_made).0

last_fits : last.id < 2 ^ 64
unfolding finish_chunk
last_fits = omega arith

both_read :
    Reads resource
      (serialize last ∷ (serialize (chunk 5 4) ∷ []))
      (finish_chunk last.id invalid_rank ∷ (received_chunk ∷ []))
      made.0
both_read =
    next (deserialize-finish last resource finish_message last_fits) (next data_read (done made.0))

from_three : AllFrom 3 (finish_chunk last.id invalid_rank ∷ (received_chunk ∷ []))
unfolding origin finish_chunk
from_three = (refl, (refl, tt))

announced :
    finishes ((finish_chunk last.id invalid_rank ∷ (received_chunk ∷ [])) ++ [])
    ≡ length ((finish_chunk last.id invalid_rank ∷ (received_chunk ∷ [])) ++ []) ∷ []
unfolding finishes is_finish finish_chunk sequence
announced = refl

receive_from-ready_example :
    (s' : SourceState) × (receive_from resource 3 new_source
        (serialize last ∷ (serialize (chunk 5 4) ∷ []))
      ≡ ok (made.0, s', []))
    × ((ready s' ≡ true) ↔ (◌≡◌ {A = List Chunk} [] []))
    × (s'.incoming ≡ data_chunks (finish_chunk last.id invalid_rank ∷ (received_chunk ∷ [])))
receive_from-ready_example =
    receive_from-ready 3 resource made.0 (serialize last ∷ (serialize (chunk 5 4) ∷ []))
      (finish_chunk last.id invalid_rank ∷ (received_chunk ∷ [])) [] both_read from_three announced

-- Two chunks of rank 3 that arrived in the other order.
abbrev source : SourceState
source = record new_source { chunks = chunk 1 10 ∷ (chunk 0 4 ∷ []) }

abbrev alltoall : SparseAlltoall
alltoall = record {
  rank = 1;
  br = resource;
  next_ordinal_per_dst = [];
  locally_finished = true;
  can_extract = true;
  outgoing = [];
  receive_posted = [];
  receive_futures = 0;
  fire_and_forget = 0;
  source_states = (3, source) ∷ [];
  finished_callback = false;
}

abbrev packed : ℕ → PackedData
packed n = record { metadata = some (7 ∷ 9 ∷ []); payload = some (buffer device n) }

source_found : find 3 alltoall.source_states ≡ some source
unfolding find
source_found = refl

ascending : IsAscending (chunk 0 4 ∷ (chunk 1 10 ∷ []))
unfolding sequence
ascending = ((omega arith, tt), (tt, tt))

released : release_all (chunk 0 4 ∷ (chunk 1 10 ∷ [])) ≡ ok (packed 4 ∷ (packed 10 ∷ []))
unfolding release_all release_chunk
released = refl

extract-in_order_example :
    extract alltoall 3
    ≡ ok (
      record alltoall {
        source_states = assign 3 (record source { chunks = [] }) alltoall.source_states;
      },
      packed 4 ∷ (packed 10 ∷ []),
    )
extract-in_order_example =
    extract-in_order alltoall 3 source (chunk 0 4 ∷ (chunk 1 10 ∷ [])) (packed 4 ∷ (packed 10 ∷ []))
      source_found refl ascending
      (put (put empty_arrangement (here [])) (there (chunk 1 10) (here []))) released

-- An allgather of two ranks that waits for one finish message and one data message.
abbrev gathering : AllGather
gathering = record {
  rank = 0;
  nranks = 2;
  br = resource;
  nlocal_insertions = 0;
  locally_finished = false;
  can_extract = false;
  finish_counter = pos 2;
  extraction_goalpost = 0;
  remote_finish_counter = pos 1;
  num_received_messages = 0;
  num_expected_messages = 0;
  inserted = [];
  for_extraction = [];
  to_receive = [];
  sent_posted = [];
  receive_posted = [];
  fire_and_forget = 0;
  finished_callback = false;
}

abbrev one_insertion : Chunk
one_insertion = finish_chunk (3 * 2 ^ 38 + 1) invalid_rank

one_finish : is_finish one_insertion ≡ true
unfolding is_finish finish_chunk
one_finish = refl

one_fits : one_insertion.id < 2 ^ 64
unfolding finish_chunk
one_fits = omega arith

abbrev gathered : List Chunk
gathered = finish_chunk one_insertion.id invalid_rank ∷ (received_chunk ∷ [])

abbrev gathered_mail : List (List ℕ)
gathered_mail = serialize one_insertion ∷ (serialize (chunk 5 4) ∷ [])

gathered_read : Reads resource gathered_mail gathered made.0
gathered_read =
    next (deserialize-finish one_insertion resource one_finish one_fits)
      (next data_read (done made.0))

gathered-Awaits : Awaits gathering gathered
unfolding finishes data_chunks is_finish finish_chunk sequence
gathered-Awaits = record { misses = refl; announced = omega arith; fits = omega arith }

receive_metadata-own_example :
    (s' : AllGather) × ((out : List Sent) × ((receive_metadata gathering
            (gathered_mail ++ ((1 ∷ []) ∷ []))
          ≡ ok (s', out, (1 ∷ []) ∷ []))
        × ((needs_metadata s' ≡ false)
            × (s'.to_receive ≡ gathering.to_receive ++ data_chunks gathered))))
receive_metadata-own_example =
    receive_metadata-own gathering gathered_mail ((1 ∷ []) ∷ []) gathered made.0 gathered_read
      gathered-Awaits
