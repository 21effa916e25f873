-- ===== src/Shuffler/Outbox.antt =====
-- The sending side of a shuffle: chunk ids, partition owners, `insert` and `insert_finished` of
-- cpp/src/shuffler/shuffler.cpp and `ChunksToSend` of cpp/src/shuffler/postbox.cpp. The owner
-- function of the user and the memory types that a peer can be sent are parameters.
pub mod Ids
pub mod Counted
pub mod Announced
pub mod Receive
use rapidsmpf.Prelude.{
  ℕ, zero, suc, ◌+◌, ◌-◌, ◌*◌, ◌/◌, ◌%◌, ◌^◌, Option, none, some, List, [], ◌∷◌, ◌++◌, Bool, true,
  false, not, ◌&&◌, ◌||◌, ltb, ◌==◌, if◌then◌else◌, get_or, set, replicate, length,
}
use rapidsmpf.Prelude.Int.{pos, ltb_ℤ}
use rapidsmpf.Prelude.Result.{
  Result, ok, err, expects, logic_error, runtime_error, undefined, ◌>>=◌, ◌>>◌,
}
use rapidsmpf.Memory.Types.{
  MemoryType, device, host, addressable_memory_types, same_type, contains_type,
  spill_target_memory_types,
}
use rapidsmpf.Memory.Resource.{
  BufferResource, MemoryReservation, memory_available, overbooking_of, reserve, try_reserve,
  reserve_or_fail,
}
use rapidsmpf.Memory.Buffer.{Buffer, move, make_whole_buffer, ensure_memory_type}
use rapidsmpf.Shuffler.Chunk.{
  Chunk, PackedData, is_control_message, is_ready, from_packed_data, from_finished_partition,
}
use rapidsmpf.Shuffler.Finish.{create}
use rapidsmpf.Shuffler.Inbox.{Inbox, chunk_id_counter_bits, insert_into_received, spill_partitions}
use rapidsmpf.Prelude.Bits.{bit_or}
use rapidsmpf.Memory.Spill.{SpillManager, spill_to_make_headroom}

-- The shuffler of one rank. `outbound_chunk_counter` is indexed by rank.
pub record Shuffler : Type 0 where
  pub rank : ℕ
  pub nranks : ℕ
  pub total_num_partitions : ℕ
  pub br : BufferResource
  pub chunk_id_counter : ℕ
  pub outbound_chunk_counter : List ℕ
  pub to_send : List Chunk
  pub inbox : Inbox
  pub locally_finished : Bool

unfoldable pub get_new_cid : Shuffler → Shuffler × ℕ
get_new_cid s =
    let lower = (s.chunk_id_counter + 1) % 2 ^ 64 in
    let upper = s.rank * 2 ^ chunk_id_counter_bits % 2 ^ 64 in
    (record s { chunk_id_counter = lower }, bit_or 64 upper lower)

-- The two owner functions of the library: the number of ranks, a partition and the number of
-- partitions, in 32-bit arithmetic.
unfoldable pub round_robin : ℕ → ℕ → ℕ → ℕ
round_robin nranks pid total = pid % nranks

unfoldable pub contiguous : ℕ → ℕ → ℕ → ℕ
contiguous nranks pid total = pid * nranks % 2 ^ 32 / total

-- ChunksToSend::extract_ready: the ready chunks in front, and those that stay.
unfoldable pub extract_ready : List Chunk → List Chunk × List Chunk
extract_ready [] = ([], [])
extract_ready (c ∷ cs) =
    let rest = extract_ready cs in if is_ready c then (c ∷ rest.0, rest.1) else ([], c ∷ cs)

-- The rest of the work after an insertion; an exception ends it.
unfoldable pub after_insert :
    Shuffler × Result (Unit {0})
    → (Shuffler → Shuffler × Result (Unit {0}))
    → Shuffler × Result (Unit {0})
after_insert (s, ok _) k = k s
after_insert (s, err e) k = (s, err e)

-- The rest of a step that may throw; an exception keeps the state that the throwing call left.
or_throw {ℓ} :
    {A : Type ℓ}
    → Shuffler
    → Result A
    → (A → Shuffler × Result (Unit {0}))
    → Shuffler × Result (Unit {0})
or_throw s (ok a) k = k a
or_throw s (err e) k = (s, err e)

-- Whether an allocation may fail: AllocationMode.
pub data AllocationMode : Type 0 where
  may_fail must_succeed : AllocationMode

-- A forced receive buffer falls back to host memory, overbooked.
unfoldable pub receive_reservation :
    BufferResource
    → ℕ
    → AllocationMode
    → Option MemoryReservation
    → Result (BufferResource × Option MemoryReservation)
receive_reservation br size mode (some r) = ok (br, some r)
receive_reservation br size may_fail none = ok (br, none)
receive_reservation br size must_succeed none = do
  expects br.overbooking_by_default runtime_error
  (br', r, _) ← reserve br host size true
  ok (br', some r)

unfoldable pub allocate_receive_buffer :
    BufferResource → ℕ → AllocationMode → Result (BufferResource × Option Buffer)
unfolding receive_reservation
allocate_receive_buffer br size mode = do
  (br1, found) ← try_reserve br size addressable_memory_types
  (br2, got) ← receive_reservation br1 size mode found
  elim got [
    | none ↦ ok (br2, none)
    | some r ↦ do (br3, b) ← make_whole_buffer br2 r; ok (br3, some b)
  ]

module _ (partition_owner : ℕ → ℕ) (sendable : ℕ → List MemoryType) where
  -- The first `n` partitions that are owned by `rank`, in order.
  unfoldable pub local_partitions : ℕ → ℕ → List ℕ
  local_partitions rank zero = []
  local_partitions rank (suc n) =
      local_partitions rank n ++ (if partition_owner n == rank then n ∷ [] else [])

  -- The constructor; the owner function must name ranks that exist.
  unfoldable pub new_shuffler : ℕ → ℕ → ℕ → BufferResource → Result Shuffler
  unfolding local_partitions
  new_shuffler rank nranks total br = do
    expects (ltb 0 total) logic_error
    ok (record {
      rank = rank;
      nranks = nranks;
      total_num_partitions = total;
      br = br;
      chunk_id_counter = 0;
      outbound_chunk_counter = replicate nranks 0;
      to_send = [];
      inbox = record {
        finish_counter = create nranks (length (local_partitions rank total));
        received = [];
      };
      locally_finished = false;
    })

  unfoldable pub may_send : Shuffler → Chunk → Bool
  may_send s c = elim c.payload [
    | none ↦ true
    | some b ↦
        partition_owner c.part_id == s.rank
        || contains_type (sendable (partition_owner c.part_id)) b.mem_type
  ]

  -- A control message is not counted.
  unfoldable pub counted : Chunk → List ℕ → List ℕ
  counted c counts =
      let dst = partition_owner c.part_id in
      if is_control_message c then counts else set counts dst ((get_or counts dst 0 + 1) % 2 ^ 64)

  -- A chunk of this rank's own partitions goes to the inbox, any other is queued.
  unfoldable pub deliver : Shuffler → Chunk → Shuffler × Result (Unit {0})
  deliver s c =
      if partition_owner c.part_id == s.rank
      then (let (inbox, r) = insert_into_received s.inbox c in (record s { inbox = inbox }, r))
      else (record s { to_send = s.to_send ++ c ∷ [] }, ok tt)

  -- Shuffler::insert(Chunk)
  unfoldable pub insert_chunk : Shuffler → Chunk → Shuffler × Result (Unit {0})
  unfolding may_send counted deliver
  insert_chunk s c =
      if may_send s c
      then deliver (record s { outbound_chunk_counter = counted c s.outbound_chunk_counter }) c
      else (s, err logic_error)

  -- The partition that stands for each rank: the last of its partitions among the first `n`, or
  -- the number of all partitions.
  unfoldable pub representatives : Shuffler → ℕ → List ℕ
  representatives s zero = replicate s.nranks s.total_num_partitions
  representatives s (suc n) = set (representatives s n) (partition_owner n) n

  unfoldable pub announce : Shuffler → ℕ → ℕ → Shuffler × Result (Unit {0})
  announce s pid count =
      let (s', cid) = get_new_cid s in
      insert_chunk s' (from_finished_partition cid pid ((count + 1) % 2 ^ 64))

  -- The loop of `insert_finished` over the ranks from `r` on.
  unfoldable pub announce_from : List ℕ → ℕ → List ℕ → Shuffler → Shuffler × Result (Unit {0})
  unfolding after_insert announce
  announce_from reps r [] s = (s, ok tt)
  announce_from reps r (n ∷ counts) s =
      let pid = get_or reps r s.total_num_partitions in
      if pid == s.total_num_partitions
      then announce_from reps (suc r) counts s
      else after_insert (announce s pid n) (announce_from reps (suc r) counts)

  unfoldable pub insert_finished : Shuffler → Shuffler × Result (Unit {0})
  unfolding announce_from after_insert
  insert_finished s =
      after_insert
        (announce_from (representatives s s.total_num_partitions) 0 s.outbound_chunk_counter s)
        (λ s'. (record s' { locally_finished = true }, ok tt))

  -- Data for another rank is moved to a memory type that can be sent.
  made_sendable : Shuffler → ℕ → PackedData → Result (BufferResource × PackedData)
  made_sendable s pid packed = elim packed.payload [
    | none ↦ ok (s.br, packed)
    | some b ↦ if partition_owner pid == s.rank then ok (s.br, packed) else (do
      (br, b') ← ensure_memory_type s.br b (sendable (partition_owner pid))
      ok (br, record packed { payload = some b' }))
  ]

  is_on_device : PackedData → Bool
  is_on_device packed = elim packed.payload [ none ↦ false | some b ↦ same_type b.mem_type device ]

  -- With no device memory left, the data of a new chunk on the device is moved to host memory.
  spilled_first : BufferResource → PackedData → Result (BufferResource × PackedData)
  spilled_first br packed = elim packed.payload [
    | none ↦ ok (br, packed)
    | some b ↦ do
      (br1, r) ← reserve_or_fail br b.size spill_target_memory_types
      (br2, _, moved) ← move br1 b r
      ok (br2, record packed { payload = some moved })
  ]

  create_chunk : Shuffler → ℕ → PackedData → Shuffler × Result Chunk
  create_chunk s pid packed = let (s', cid) = get_new_cid s in (s', from_packed_data cid pid packed)

  insert_created : Shuffler × Result Chunk → Shuffler × Result (Unit {0})
  insert_created (s, ok c) = insert_chunk s c
  insert_created (s, err e) = (s, err e)

  -- PackedData::empty dereferences both pointers.
  packed_empty : PackedData → Result Bool
  packed_empty packed = elim packed.metadata [
    | none ↦ err undefined
    | some m ↦
        if length m == 0
        then elim packed.payload [ none ↦ err undefined | some b ↦ ok (b.size == 0) ]
        else ok false
  ]

  -- What is left of an iteration once the data can be sent: data on the device is moved to host
  -- memory first where no device memory is left. The reservation comes before the chunk id.
  insert_spilled : Shuffler → ℕ → PackedData → Bool → Shuffler × Result (Unit {0})
  unfolding or_throw is_on_device spilled_first create_chunk insert_created
  insert_spilled s pid packed short =
      if short && is_on_device packed
      then or_throw s (spilled_first s.br packed)
          (λ (br, moved). insert_created (create_chunk (record s { br = br }) pid moved))
      else insert_created (create_chunk s pid packed)

  insert_one : Shuffler → ℕ → PackedData → Shuffler × Result (Unit {0})
  unfolding or_throw made_sendable packed_empty insert_spilled
  insert_one s pid packed = or_throw s (packed_empty packed) (λ skip.
      if skip
      then (s, ok tt)
      else or_throw s (made_sendable s pid packed) (λ (br, ready).
        or_throw (record s { br = br }) (memory_available br device)
          (λ headroom. insert_spilled (record s { br = br }) pid ready (ltb_ℤ headroom (pos 0)))))

  -- The loop over the given partitions, in the order in which the map gives them.
  insert_all : Shuffler → List (ℕ × PackedData) → Shuffler × Result (Unit {0})
  unfolding after_insert insert_one
  insert_all s [] = (s, ok tt)
  insert_all s ((pid, packed) ∷ rest) =
      after_insert (insert_one s pid packed) (λ s'. insert_all s' rest)

  spill_after :
      SpillManager Shuffler
      → Shuffler × Result (Unit {0})
      → (SpillManager Shuffler × Shuffler) × Result (Unit {0})
  spill_after m (s, err e) = ((m, s), err e)
  spill_after m (s, ok _) = elim (memory_available s.br device) [
    | err e ↦ ((m, s), err e)
    | ok available ↦
        let (ms, r) = spill_to_make_headroom m s (pos 0) available in (ms, (do _ ← r; ok tt))
  ]

  -- Shuffler::insert(chunks): the spill functions of the resource act on the shuffler.
  unfoldable pub insert_packed :
      SpillManager Shuffler
      → Shuffler
      → List (ℕ × PackedData)
      → (SpillManager Shuffler × Shuffler) × Result (Unit {0})
  unfolding insert_all spill_after
  insert_packed m s chunks =
      if s.locally_finished then ((m, s), err logic_error) else spill_after m (insert_all s chunks)

-- What Shuffler::spill asks for when no amount is given: the bytes of device memory that are
-- missing.
spill_need : BufferResource → Option ℕ → Result ℕ
spill_need br (some amount) = ok amount
spill_need br none = do headroom ← memory_available br device; overbooking_of headroom

-- Shuffler::spill, the spill function that the shuffler registers.
unfoldable pub spill : Shuffler → Option ℕ → Shuffler × Result ℕ
unfolding spill_need
spill s amount = elim (spill_need s.br amount) [
  | err e ↦ (s, err e)
  | ok need ↦
      if ltb 0 need
      then elim (spill_partitions s.br need 0 s.inbox.received) [
        | err e ↦ (s, err e)
        | ok (br, n, box) ↦ (record s { br = br; inbox = record s.inbox { received = box } }, ok n)
      ]
      else (s, ok 0)
]
