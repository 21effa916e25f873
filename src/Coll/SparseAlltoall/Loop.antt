-- ===== src/Coll/SparseAlltoall/Loop.antt =====
-- The event loop of cpp/src/coll/sparse_alltoall.cpp. An exception leaves the loop; the state that it
-- leaves behind is not modelled.
use rapidsmpf.Prelude.{
  ℕ, ◌+◌, ◌-◌, Option, none, some, List, [], ◌∷◌, ◌++◌, Bool, true, false, not, ◌&&◌, ltb, ◌==◌,
  if◌then◌else◌, length,
}
use rapidsmpf.Prelude.Assoc.{find, assign}
use rapidsmpf.Prelude.Result.{Result, ok, expects, logic_error, ◌>>=◌, ◌>>◌}
use rapidsmpf.Memory.Resource.{BufferResource}
use rapidsmpf.Memory.Buffer.{Buffer}
use rapidsmpf.Coll.Chunk.{
  Chunk, is_ready, is_finish, sequence, origin, serialize, deserialize, release_data_buffer,
}
use rapidsmpf.Coll.PostBox.{extract_ready, test_some, empty}
use rapidsmpf.Coll.SparseAlltoall.{SparseAlltoall, SourceState, new_source, ready}

-- What goes to a rank: the metadata of a chunk, or the buffer of its data.
pub data Message : Type 0 where
  metadata_message : ℕ → List ℕ → Message
  payload_message : ℕ → Option Buffer → Message

unfoldable pub send_chunks : List Chunk → List Message
send_chunks [] = []
send_chunks (c ∷ cs) =
    let rest = send_chunks cs in
    metadata_message c.destination (serialize c)
    ∷ (if ltb 0 c.data_size then payload_message c.destination c.payload ∷ rest else rest)

unfoldable pub send_ready_messages : SparseAlltoall → SparseAlltoall × List Message
send_ready_messages s =
    let (rest, out) = extract_ready s.outgoing in
    let sent = send_chunks out in
    (record s { outgoing = rest; fire_and_forget = s.fire_and_forget + length sent }, sent)

-- A chunk that arrived from `src`.
unfoldable pub receive_chunk : ℕ → SourceState → Chunk → Result SourceState
receive_chunk src s c = do
  expects (origin c == src) logic_error
  (if is_finish c
      then (do
        expects (s.expected_count == 0) logic_error
        ok (record s { received_count = s.received_count + 1; expected_count = sequence c }))
      else ok
          (record s { received_count = s.received_count + 1; incoming = s.incoming ++ (c ∷ []) }))

-- The messages of one source that have arrived; those after the last expected one stay.
unfoldable pub receive_from :
    BufferResource
    → ℕ
    → SourceState
    → List (List ℕ)
    → Result (BufferResource × SourceState × List (List ℕ))
receive_from br src s [] = ok (br, s, [])
receive_from br src s (m ∷ ms) =
    if ready s
    then ok (br, s, m ∷ ms)
    else (do (br', c) ← deserialize m br; s' ← receive_chunk src s c; receive_from br' src s' ms)

unfoldable pub arrived : ℕ → List (ℕ × List (List ℕ)) → List (List ℕ)
arrived src mail = elim (find src mail) [ none ↦ [] | some ms ↦ ms ]

unfoldable pub receive_metadata_messages :
    BufferResource
    → List (ℕ × SourceState)
    → List (ℕ × List (List ℕ))
    → Result (BufferResource × List (ℕ × SourceState))
receive_metadata_messages br [] mail = ok (br, [])
receive_metadata_messages br ((src, s) ∷ sources) mail = do
  (br1, s', _) ← receive_from br src s (arrived src mail)
  (br2, sources') ← receive_metadata_messages br1 sources mail
  ok (br2, (src, s') ∷ sources')

-- The ready chunks at the front of a queue, and the rest.
unfoldable pub ready_prefix : List Chunk → List Chunk × List Chunk
ready_prefix [] = ([], [])
ready_prefix (c ∷ queue) =
    let (processed, rest) = ready_prefix queue in
    if is_ready c then (c ∷ processed, rest) else ([], c ∷ queue)

-- A receive is posted for a chunk with data, into the buffer of the chunk.
unfoldable pub post_receives : List Chunk → List Chunk × List Chunk
post_receives [] = ([], [])
post_receives (c ∷ cs) =
    let (whole, posted) = post_receives cs in
    if c.data_size == 0 then (c ∷ whole, posted) else (whole, (release_data_buffer c).1 ∷ posted)

unfoldable pub receive_data_messages :
    List (ℕ × SourceState) → List Chunk → List (ℕ × SourceState) × List Chunk
receive_data_messages [] posted = ([], posted)
receive_data_messages ((src, s) ∷ sources) posted =
    let (processed, rest) = ready_prefix s.incoming in
    let (whole, new) = post_receives processed in
    let (sources', posted') = receive_data_messages sources (posted ++ new) in
    ((src, record s { chunks = s.chunks ++ whole; incoming = rest }) ∷ sources', posted')

-- `source_states_[chunk->origin()]` makes a new entry for an unknown rank.
unfoldable pub complete_chunks :
    List (ℕ × SourceState) → List Chunk → Result (List (ℕ × SourceState))
complete_chunks sources [] = ok sources
complete_chunks sources (c ∷ cs) = do
  expects (not (is_finish c)) logic_error
  let state : SourceState = elim (find (origin c) sources) [ none ↦ new_source | some s ↦ s ]
  complete_chunks (assign (origin c) (record state { chunks = state.chunks ++ (c ∷ []) }) sources)
      cs

-- `complete`: the posted receives that are done.
unfoldable pub complete_data_messages : SparseAlltoall → List (ℕ × Buffer) → Result SparseAlltoall
complete_data_messages s complete = do
  (posted, out) ← test_some s.receive_posted s.receive_futures complete
  sources ← complete_chunks s.source_states out
  ok (record s {
    receive_posted = posted;
    receive_futures = s.receive_futures - length complete;
    source_states = sources;
  })

unfoldable pub all_sources : (SourceState → Bool) → List (ℕ × SourceState) → Bool
all_sources test [] = true
all_sources test ((src, s) ∷ sources) = test s && all_sources test sources

unfoldable pub containers_empty : SparseAlltoall → Bool
containers_empty s =
    empty s.outgoing
    && empty s.receive_posted
    && s.receive_futures == 0
    && s.fire_and_forget == 0
    && all_sources (λ state. empty state.incoming) s.source_states

-- What arrives during a run of the loop: metadata by source, data of posted receives, and the number
-- of sends that are done.
pub record Arrivals : Type 0 where
  pub mail : List (ℕ × List (List ℕ))
  pub complete : List (ℕ × Buffer)
  pub sends_done : ℕ

-- The end of the loop: the state, and whether the loop is done.
unfoldable pub conclude : SparseAlltoall → SparseAlltoall × Bool
conclude s =
    if s.locally_finished && all_sources ready s.source_states && containers_empty s
    then (record s { can_extract = true; finished_callback = false }, true)
    else (s, false)

unfoldable pub event_loop :
    SparseAlltoall → Arrivals → Result (SparseAlltoall × List Message × Bool)
event_loop s a = do
  let (s1, sent) = send_ready_messages s
  (br, sources) ← receive_metadata_messages s1.br s1.source_states a.mail
  let (sources', posted) = receive_data_messages sources s1.receive_posted
  let new = length posted - length s1.receive_posted
  s2 ←
      complete_data_messages
        (record s1 {
          br = br;
          source_states = sources';
          receive_posted = posted;
          receive_futures = s1.receive_futures + new;
        })
        a.complete
  let (s3, done) = conclude (record s2 { fire_and_forget = s2.fire_and_forget - a.sends_done })
  ok (s3, sent, done)
