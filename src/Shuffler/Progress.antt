-- ===== src/Shuffler/Progress.antt =====
-- `Shuffler::Progress` of cpp/src/shuffler/shuffler.cpp: one turn of the shuffler's event loop. The
-- metadata payload exchange is given to the shuffler as an interface, and so it is here. Other
-- threads act between two turns, and within a turn wherever it does not hold a lock. Statistics and
-- logging are left out.
pub mod Orderly
use rapidsmpf.Prelude.{
  ℕ, ◌≡◌, refl, Option, none, some, List, [], ◌∷◌, Bool, true, false, not, ◌&&◌, ◌==◌,
  if◌then◌else◌, arith, Bool-cases, inl, inr, ◌+◌,
}
use rapidsmpf.Prelude.Result.{
  Result, ok, err, expects, logic_error, ◌>>=◌, ◌>>◌, Result-cases, >>=-eq-ok, expects-eq-ok,
}
use rapidsmpf.Memory.Types.{MemoryType}
use rapidsmpf.Memory.Resource.{BufferResource}
use rapidsmpf.Memory.Buffer.{Buffer}
use rapidsmpf.Shuffler.Chunk.{Chunk, serialize, deserialize}
use rapidsmpf.Shuffler.Finish.{FinishCounter, all_finished}
use rapidsmpf.Shuffler.Inbox.{Inbox, insert_into_received}
use rapidsmpf.Shuffler.Outbox.{Shuffler, extract_ready}

-- A message of the exchange: the destination, the metadata and the data.
pub record Message : Type 0 where
  pub peer : ℕ
  pub metadata : List ℕ
  pub payload : Option Buffer

-- communicator::MetadataPayloadExchange; each call may throw.
pub record Exchange (M : Type 0) : Type 0 where
  pub send : M → List Message → Result M
  pub progress : M → Result M
  pub recv : M → Result (M × List Message)
  pub finish : M → Result M
  pub is_idle : M → Bool

pub record State (M : Type 0) : Type 0 where
  pub shuffler : Shuffler
  pub exchange : M
  pub active : Bool
  pub can_extract : Bool
  pub mpe_finish_called : Bool
  pub callbacks : ℕ

-- What other threads do to the shuffler and to `active_` at each point of a turn.
abbrev pub Others : Type 0
Others = ℕ → Shuffler × Bool → Shuffler × Bool

unfoldable pub between : {M : Type 0} → Others → ℕ → State M → State M
between others k t = record t {
  shuffler = (others k (t.shuffler, t.active)).0;
  active = (others k (t.shuffler, t.active)).1;
}

abbrev pub none_queued : List Chunk → Bool
none_queued [] = true
none_queued (c ∷ cs) = false

-- convert_chunks_to_messages, with the function that finds the peer: a chunk for this rank is an
-- error.
unfoldable pub convert_chunks_to_messages : (ℕ → ℕ) → ℕ → List Chunk → Result (List Message)
convert_chunks_to_messages owner rank [] = ok []
convert_chunks_to_messages owner rank (c ∷ cs) = do
  expects (not (owner c.part_id == rank)) logic_error
  ms ← convert_chunks_to_messages owner rank cs
  ok (record { peer = owner c.part_id; metadata = (serialize c).0; payload = c.payload } ∷ ms)

resource_of : Option BufferResource → BufferResource → BufferResource
resource_of none br = br
resource_of (some br) _ = br

reception : Inbox × Result (Unit {0}) → Result Inbox
reception (i, ok _) = ok i
reception (i, err e) = err e

receive_message : (ℕ → ℕ) → Shuffler → Message → Result Shuffler
unfolding resource_of reception
receive_message owner s m = do
  (br, c) ← deserialize m.metadata (some s.br) false m.payload
  expects (owner c.part_id == s.rank) logic_error
  inbox ← reception (insert_into_received s.inbox c)
  ok (record s { br = resource_of br s.br; inbox = inbox })

unfoldable pub receive_messages : (ℕ → ℕ) → Shuffler → List Message → Result Shuffler
unfolding receive_message
receive_messages owner s [] = ok s
receive_messages owner s (m ∷ ms) = do s' ← receive_message owner s m; receive_messages owner s' ms

module _ {M : Type 0} (x : Exchange M) (owner : ℕ → ℕ) where
  -- The ready chunks in front of the queue go to the exchange.
  unfoldable pub submit_outgoing : State M → Result (State M)
  submit_outgoing t =
      let (ready, rest) = extract_ready t.shuffler.to_send in
      if none_queued ready then ok t else (do
        ms ← convert_chunks_to_messages owner t.shuffler.rank ready
        m ← x.send t.exchange ms
        ok (record t { shuffler = record t.shuffler { to_send = rest }; exchange = m }))

  unfoldable pub process_communication : State M → Result (State M)
  process_communication t = do
    m ← x.progress t.exchange
    (m', ms) ← x.recv m
    s ← receive_messages owner t.shuffler ms
    ok (record t { shuffler = s; exchange = m' })

module _ {M : Type 0} (x : Exchange M) (owner : ℕ → ℕ) (others : Others) where
  -- `locally_finished_` is read before `to_send_`, and other threads may act in between.
  unfoldable pub flush : State M → Result (State M)
  unfolding between
  flush t =
      let t1 = between others 2 t in
      if not t.mpe_finish_called && t.shuffler.locally_finished && none_queued t1.shuffler.to_send
      then (do m ← x.finish t1.exchange; ok (record t1 { exchange = m; mpe_finish_called = true }))
      else ok t1

  -- Whether the containers are empty, and the state after the last read.
  unfoldable pub containers_empty : State M → State M × Bool
  unfolding between
  containers_empty t =
      let t1 = between others 3 t in (t1, x.is_idle t.exchange && none_queued t1.shuffler.to_send)

  unfoldable pub is_finished : State M → State M × Bool
  unfolding between
  is_finished t =
      let t1 = between others 4 t in
      let t2 = between others 5 t1 in
      (t2, t1.shuffler.locally_finished && all_finished t2.shuffler.inbox.finish_counter)

  -- The last part: whether the function is done, and the signal to those that wait for the data.
  unfoldable pub conclude : State M → State M × Bool
  unfolding containers_empty is_finished between
  conclude t =
      let (t1, empty) = containers_empty t in
      let (t2, finished) = is_finished t1 in
      let t3 = between others 6 t2 in
      let done = not t3.active && finished && empty in
      if not t3.can_extract && finished && empty
      then (record t3 { can_extract = true; callbacks = t3.callbacks + 1 }, done)
      else (t3, done)

  unfoldable pub turn : State M → Result (State M × Bool)
  unfolding submit_outgoing process_communication flush conclude between
  turn t = do
    t1 ← submit_outgoing x owner t
    t2 ← process_communication x owner (between others 0 t1)
    t3 ← flush (between others 1 t2)
    ok (conclude t3)
