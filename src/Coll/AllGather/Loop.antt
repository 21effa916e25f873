-- ===== src/Coll/AllGather/Loop.antt =====
-- The event loop and the spilling of cpp/src/coll/allgather.cpp.
use rapidsmpf.Prelude.{
  ℕ, ◌+◌, ◌-◌, ◌%◌, ◌^◌, Option, none, some, List, [], ◌∷◌, ◌++◌, Bool, true, false, ◌&&◌, ◌||◌,
  ltb, ◌==◌, if◌then◌else◌, length,
}
use rapidsmpf.Prelude.Int.{neg_part}
use rapidsmpf.Prelude.Result.{Result, ok, err, ◌>>=◌}
use rapidsmpf.Memory.Types.{device}
use rapidsmpf.Memory.Resource.{memory_available}
use rapidsmpf.Memory.Buffer.{Buffer}
use rapidsmpf.Coll.Chunk.{
  Chunk, is_finish, sequence, origin, serialize, deserialize, release_data_buffer,
}
use rapidsmpf.Coll.PostBox as PostBox
use rapidsmpf.Coll.PostBox.{extract_ready, test_some, empty}
use rapidsmpf.Coll.SparseAlltoall.Loop.{ready_prefix}
use rapidsmpf.Coll.AllGather.{AllGather, mark_finish, decrement, is_positive, is_zero}

-- What goes to the next rank of the ring.
pub data Sent : Type 0 where
  sent_metadata : List ℕ → Sent
  sent_data : Option Buffer → Sent

unfoldable pub next_rank : AllGather → ℕ
next_rank s = (s.rank + 1) % s.nranks

-- One rank: the inserted chunks are ready for extraction at once.
unfoldable pub keep_local : AllGather → List Chunk → AllGather
keep_local s [] = s
keep_local s (c ∷ cs) =
    let marked = keep_local (mark_finish s (sequence c)) cs in
    let kept = keep_local (record s { for_extraction = PostBox.insert s.for_extraction c }) cs in
    if is_finish c then marked else kept

-- The metadata of a chunk is sent, and then its data.
unfoldable pub send_chunk : AllGather → Chunk → AllGather × List Sent
send_chunk s c =
    let told = record s { fire_and_forget = s.fire_and_forget + 1 } in
    let (payload, rest) = release_data_buffer c in
    if is_finish c then (mark_finish told (sequence c), sent_metadata (serialize c) ∷ []) else (
      record told { sent_posted = s.sent_posted ++ (rest ∷ []) },
      sent_metadata (serialize c) ∷ (sent_data payload ∷ []),
    )

unfoldable pub send_chunks : AllGather → List Chunk → AllGather × List Sent
send_chunks s [] = (s, [])
send_chunks s (c ∷ cs) =
    let (s1, out) = send_chunk s c in let (s2, outs) = send_chunks s1 cs in (s2, out ++ outs)

-- A chunk that arrived from the previous rank: a finish message goes on to the next rank unless
-- that is where it comes from.
unfoldable pub receive_chunk : AllGather → Chunk → AllGather × List Sent
receive_chunk s c =
    let out = if origin c == next_rank s then [] else sent_metadata (serialize c) ∷ [] in
    if is_finish c
    then (
      mark_finish
          (record s {
            remote_finish_counter = decrement s.remote_finish_counter;
            num_expected_messages = (s.num_expected_messages + sequence c) % 2 ^ 64;
            fire_and_forget = s.fire_and_forget + length out;
          })
          (sequence c),
      out,
    )
    else (
      record s {
        num_received_messages = (s.num_received_messages + 1) % 2 ^ 64;
        to_receive = s.to_receive ++ (c ∷ []);
      },
      [],
    )

-- Whether this allgather needs more metadata messages.
unfoldable pub needs_metadata : AllGather → Bool
needs_metadata s =
    is_positive s.remote_finish_counter || ltb s.num_received_messages s.num_expected_messages

-- The messages that have arrived; those that are not needed stay.
unfoldable pub receive_metadata :
    AllGather → List (List ℕ) → Result (AllGather × List Sent × List (List ℕ))
receive_metadata s [] = ok (s, [], [])
receive_metadata s (m ∷ ms) =
    if needs_metadata s
    then (do
      (br, c) ← deserialize m s.br
      let (s1, out) = receive_chunk (record s { br = br }) c
      (s2, outs, rest) ← receive_metadata s1 ms
      ok (s2, out ++ outs, rest))
    else ok (s, [], m ∷ ms)

-- A receive is posted for every chunk, also for one without data.
unfoldable pub release_buffers : List Chunk → List Chunk
release_buffers [] = []
release_buffers (c ∷ cs) = (release_data_buffer c).1 ∷ release_buffers cs

unfoldable pub post_receives : AllGather → AllGather
post_receives s =
    let (processed, rest) = ready_prefix s.to_receive in
    record s { to_receive = rest; receive_posted = s.receive_posted ++ release_buffers processed }

-- A chunk at the end of the ring is kept, any other is sent on.
unfoldable pub keep_or_forward : AllGather → List Chunk → AllGather
keep_or_forward s [] = s
keep_or_forward s (c ∷ cs) =
    let kept =
      keep_or_forward (record s { for_extraction = PostBox.insert s.for_extraction c }) cs in
    let forwarded = keep_or_forward (record s { inserted = PostBox.insert s.inserted c }) cs in
    if origin c == next_rank s then kept else forwarded

-- What arrives during a run of the loop, and what is complete.
pub record Arrivals : Type 0 where
  pub mail : List (List ℕ)
  pub received : List (ℕ × Buffer)
  pub sent : List (ℕ × Buffer)
  pub sends_done : ℕ

-- The rounds of the loop with more than one rank. There is one future for each posted chunk.
unfoldable pub communicate : AllGather → Arrivals → Result (AllGather × List Sent × List (List ℕ))
communicate s a = do
  let (rest, sendable) = extract_ready s.inserted
  let (s1, out) = send_chunks (record s { inserted = rest }) sendable
  (s2, forwards, mail) ← receive_metadata s1 a.mail
  let s3 = post_receives s2
  (posted, arrived) ← test_some s3.receive_posted (length s3.receive_posted) a.received
  let s4 = keep_or_forward (record s3 { receive_posted = posted }) arrived
  (unsent, complete) ← test_some s4.sent_posted (length s4.sent_posted) a.sent
  ok (
    record s4 {
      sent_posted = unsent;
      for_extraction = PostBox.insert_all s4.for_extraction complete;
      fire_and_forget = s4.fire_and_forget - a.sends_done;
    },
    out ++ forwards,
    mail,
  )

unfoldable pub containers_empty : AllGather → Bool
containers_empty s =
    s.fire_and_forget == 0
    && empty s.sent_posted
    && empty s.receive_posted
    && empty s.to_receive
    && empty s.inserted

unfoldable pub received_all_data : AllGather → Bool
received_all_data s =
    is_zero s.finish_counter && s.extraction_goalpost == PostBox.size s.for_extraction

unfoldable pub conclude : AllGather → AllGather × Bool
conclude s =
    if received_all_data s && containers_empty s
    then (record s { can_extract = true; finished_callback = false }, true)
    else (s, false)

unfoldable pub event_loop :
    AllGather → Arrivals → Result (AllGather × List Sent × List (List ℕ) × Bool)
event_loop s a = do
  (s1, out, mail) ←
      (if s.nranks == 1
        then ok (keep_local (record s { inserted = [] }) s.inserted, [], a.mail)
        else communicate s a)
  let (s2, done) = conclude s1
  ok (s2, out, mail, done)

-- AllGather::spill: for_extraction first, and then the inserted chunks for what is missing.
unfoldable pub spill_boxes : AllGather → ℕ → AllGather × Result ℕ
spill_boxes s need =
    let (br1, box1, first) = PostBox.spill s.br s.for_extraction need in
    let s1 = record s { br = br1; for_extraction = box1 } in
    elim first [
      | err e ↦ (s1, err e)
      | ok spilled ↦
          let (br2, box2, second) = PostBox.spill br1 s.inserted (need - spilled) in
          let s2 = record s1 { br = br2; inserted = box2 } in
          if ltb spilled need
          then elim second [ err e ↦ (s2, err e) | ok more ↦ (s2, ok (spilled + more)) ]
          else (s1, ok spilled)
    ]

-- Without an amount, the bytes of device memory that are missing.
unfoldable pub spill_need : AllGather → Option ℕ → Result ℕ
spill_need s (some amount) = ok amount
spill_need s none = do headroom ← memory_available s.br device; ok (neg_part headroom)

unfoldable pub spill : AllGather → Option ℕ → AllGather × Result ℕ
spill s amount = elim (spill_need s amount) [
  | err e ↦ (s, err e)
  | ok need ↦ if ltb 0 need then spill_boxes s need else (s, ok 0)
]
