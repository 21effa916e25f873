-- ===== src/Examples/ShufflerRuns.antt =====
-- The shuffler on small inputs: two ranks, rank 0 owns the even partitions.
use rapidsmpf.Prelude.{
  ℕ, zero, suc, ◌+◌, ◌*◌, ◌^◌, ◌%◌, ◌<◌, ◌==◌, ◌≡◌, refl, Option, none, some, List, [], ◌∷◌, ◌++◌,
  true, false, arith, length,
}
use rapidsmpf.Prelude.Int.{pos, ◌-ℤ◌, ◌+ℤ◌}
use rapidsmpf.Prelude.Result.{Result, ok, err}
use rapidsmpf.Memory.Types.{MemoryType, host}
use rapidsmpf.Memory.Resource.{
  BufferResource, try_reserve, can_reserve, reserve, headroom_after, memory_available, book,
  release,
}
use rapidsmpf.Memory.Buffer.{Buffer, make_buffer, make_whole_buffer}
use rapidsmpf.Shuffler.Chunk.{
  Chunk, serialize, deserialize, validate_format, metadata_bytes, is_control_message,
  from_finished_partition,
}
use rapidsmpf.Shuffler.Chunk.Wire.{IsWire, deserialize-serialize, validate-serialize}
use rapidsmpf.Shuffler.Finish.{create, all_finished, move_goalpost, add_finished_chunk}
use rapidsmpf.Shuffler.Inbox.{extract_rank, insert_into_received}
use rapidsmpf.Shuffler.Inbox.Counter.{IsShuffle, none_left}
use rapidsmpf.Shuffler.Inbox.Complete.{finished-exactly, receive_all}
use rapidsmpf.Prelude.Bits.{bit_or}
use rapidsmpf.Shuffler.Outbox.{
  Shuffler, insert_chunk, insert_finished, get_new_cid, new_shuffler, representatives,
  allocate_receive_buffer, must_succeed,
}
use rapidsmpf.Shuffler.Outbox.Counted.{
  to_rank, is_control, announces, any_message, IsTallied, insert_chunk-IsTallied,
}
use rapidsmpf.Shuffler.Outbox.Announced.{insert_finished-announces}
use rapidsmpf.Shuffler.Outbox.Ids.{extract_rank-get_new_cid}

below_two : (P : ℕ → Type 0) → P 0 → P 1 → (r : ℕ) → r < 2 → P r
below_two P a b zero h = a
below_two P a b (suc zero) h = b
below_two P a b (suc (suc r)) h = absurd (omega arith)

abbrev resource : BufferResource
resource = record {
  memory_limits = λ t. pos 100;
  allocated = λ t. pos 0;
  has_pinned = false;
  has_disk = false;
  memory_reserved = λ t. 0;
  overbooking_by_default = true;
}

-- Chunk `n` of rank `r`, with metadata and no payload, or a control message.
abbrev chunk : ℕ → ℕ → ℕ → ℕ → Chunk
chunk r n pid expected = record {
  chunk_id = r * 2 ^ 38 + n;
  part_id = pid;
  expected_num_chunks = expected;
  metadata_size = 2;
  data_size = 0;
  metadata = some (7 ∷ 9 ∷ []);
  payload = none;
}

abbrev received : List Chunk
received = chunk 1 2 0 2 ∷ chunk 1 1 0 0 ∷ []

abbrev missing : List Chunk
missing = chunk 0 1 0 1 ∷ []

shuffle : IsShuffle 2 [] (received ++ missing)
unfolding is_control_message extract_rank
shuffle = record {
  done_from = tt;
  todo_from = (omega arith, (omega arith, (omega arith, tt)));
  one_control = below_two _ refl refl;
  honest = below_two _ refl refl;
  small = omega arith;
}

finished-exactly_example :
    let i = receive_all (record { finish_counter = create 2 1; received = [] }) received in
    (i.1 ≡ ok tt) × (all_finished i.0.finish_counter ≡ none_left missing)
finished-exactly_example = finished-exactly 2 1 [] received missing (omega arith) shuffle

abbrev owner : ℕ → ℕ
owner pid = pid % 2

abbrev sendable : ℕ → List MemoryType
sendable r = host ∷ []

abbrev sender : Shuffler
sender = record {
  rank = 0;
  nranks = 2;
  total_num_partitions = 4;
  br = resource;
  chunk_id_counter = 0;
  outbound_chunk_counter = 0 ∷ 0 ∷ [];
  to_send = [];
  inbox = record { finish_counter = create 2 2; received = [] };
  locally_finished = false;
}

sender-IsTallied : IsTallied owner sendable sender
sender-IsTallied = record { tallied = below_two _ (λ far. refl) (λ far. refl) }

insert_chunk-IsTallied_example :
    IsTallied owner sendable (insert_chunk owner sendable sender (chunk 0 1 3 0)).0
insert_chunk-IsTallied_example =
    insert_chunk-IsTallied owner sendable sender (chunk 0 1 3 0) sender-IsTallied

insert_finished_returns : (insert_finished owner sendable sender).1 ≡ ok tt
unfolding insert_finished representatives insert_chunk from_finished_partition get_new_cid
    insert_into_received is_control_message move_goalpost extract_rank bit_or create
    add_finished_chunk
insert_finished_returns = refl

insert_finished-announces_example :
    let queued = (insert_finished owner sendable sender).0.to_send in
    (to_rank owner is_control 1 queued ≡ 1)
    × (to_rank owner announces 1 queued ≡ to_rank owner any_message 1 queued)
insert_finished-announces_example =
    insert_finished-announces owner sendable sender 3 sender-IsTallied refl insert_finished_returns
      (omega arith) (omega arith) (λ e. absurd (omega arith)) refl (omega arith)

extract_rank-get_new_cid_example :
    (extract_rank (get_new_cid sender).1 ≡ 0)
    × ((get_new_cid sender).1 % 2 ^ 38 ≡ 1)
    × ((get_new_cid sender).0.chunk_id_counter ≡ 1)
extract_rank-get_new_cid_example = extract_rank-get_new_cid sender (omega arith) (omega arith)

message-IsWire : IsWire (chunk 1 2 0 2)
message-IsWire = record {
  id_fits = omega arith;
  part_fits = omega arith;
  expected_fits = omega arith;
  metadata_fits = omega arith;
  size_fits = omega arith;
}

deserialize-serialize_example :
    deserialize (serialize (chunk 1 2 0 2)).0 (some resource) false none
    ≡ ok (
      some resource,
      record (chunk 1 2 0 2) {
        metadata = some (metadata_bytes (some (7 ∷ 9 ∷ [])));
        payload = none;
      },
    )
deserialize-serialize_example =
    deserialize-serialize (chunk 1 2 0 2) (some resource) none message-IsWire
      (λ _ e. absurd (omega arith))

validate-serialize_example :
    validate_format (serialize (chunk 1 2 0 2)).0
    ≡ (length (metadata_bytes (some (7 ∷ 9 ∷ []))) == 2)
validate-serialize_example = validate-serialize (chunk 1 2 0 2) message-IsWire

abbrev shuffler_of : Result Shuffler → Shuffler
shuffler_of (ok s) = s
shuffler_of (err e) = sender

made :
    new_shuffler owner sendable 0 2 4 resource
    ≡ ok (shuffler_of (new_shuffler owner sendable 0 2 4 resource))
unfolding new_shuffler
made = refl

-- A host buffer of 120 bytes, over the limit of 100.
abbrev allocated_of : Result (BufferResource × Option Buffer) → BufferResource × Option Buffer
allocated_of (ok r) = r
allocated_of (err e) = (resource, none)

forced :
    allocate_receive_buffer resource 120 must_succeed
    ≡ ok (allocated_of (allocate_receive_buffer resource 120 must_succeed))
unfolding allocate_receive_buffer try_reserve can_reserve reserve headroom_after memory_available
    ◌-ℤ◌ ◌+ℤ◌ book make_whole_buffer make_buffer release
forced = refl
