-- ===== src/Exchange/Transfer.antt =====
-- The data transfers of tag.cpp: `setup_data_receives`, `complete_data_transfers` and `progress`.
use rapidsmpf.Prelude.{
  ℕ, suc, ◌-◌, Option, none, some, List, [], ◌∷◌, ◌++◌, Bool, true, false, not, ltb, if◌then◌else◌,
  get_elem?, set,
}
use rapidsmpf.Prelude.Assoc.{find, assign, erase, contains}
use rapidsmpf.Prelude.Result.{Result, ok, err, expects, logic_error, undefined, ◌>>=◌, ◌>>◌}
use rapidsmpf.Memory.Types.{disk}
use rapidsmpf.Memory.Resource.{BufferResource, try_reserve}
use rapidsmpf.Memory.Buffer.{Buffer, move}
use rapidsmpf.Shuffler.Outbox.{may_fail, must_succeed}
use rapidsmpf.Shuffler.Progress.{Message}
use rapidsmpf.Exchange.{TagExchange, TagMessage, Peer, AllocateBufferFn, is_awaiting_buffer}
use rapidsmpf.Exchange.Send.{no_messages}
use rapidsmpf.Exchange.Receive.{try_attach_receive_buffer, receive_metadata}

-- The message that is handed out, from the rank `src`.
abbrev pub message_from : ℕ → TagMessage → Message
message_from src m = record { peer = src; metadata = m.metadata; payload = m.payload }

-- The first message of a queue that waits for a buffer, by its place.
unfoldable pub first_awaiting : ℕ → List TagMessage → Option (ℕ × TagMessage)
first_awaiting i [] = none
first_awaiting i (m ∷ ms) = if is_awaiting_buffer m then some (i, m) else first_awaiting (suc i) ms

-- The one that arrived first; of two that arrived together, the first.
unfoldable pub older :
    Option (ℕ × ℕ × TagMessage) → Option (ℕ × ℕ × TagMessage) → Option (ℕ × ℕ × TagMessage)
older none b = b
older (some a) none = some a
older (some (r, i, m)) (some (s, j, n)) =
    if ltb n.arrival m.arrival then some (s, j, n) else some (r, i, m)

unfoldable pub at_rank : ℕ → Option (ℕ × TagMessage) → Option (ℕ × ℕ × TagMessage)
at_rank rank none = none
at_rank rank (some (i, m)) = some (rank, i, m)

-- The oldest message that waits for a buffer: its rank, its place and itself.
unfoldable pub oldest_awaiting : ℕ → List Peer → Option (ℕ × ℕ × TagMessage)
oldest_awaiting rank [] = none
oldest_awaiting rank (p ∷ peers) =
    older (at_rank rank (first_awaiting 0 p.incoming)) (oldest_awaiting (suc rank) peers)

-- try_move_to_disk
unfoldable pub try_move_to_disk : BufferResource → Buffer → Result (BufferResource × Buffer)
try_move_to_disk br b = if not br.has_disk then ok (br, b) else (do
  (br1, found) ← try_reserve br b.size (disk ∷ [])
  elim found [ none ↦ ok (br1, b) | some r ↦ do (br2, _, b') ← move br1 b r; ok (br2, b') ])

-- The end of the transfer of one message: its buffer goes to disk where its allocation was forced.
unfoldable pub arrived_buffer :
    BufferResource → TagMessage → Buffer → Result (BufferResource × Buffer)
arrived_buffer br m b = if m.forced_allocation then try_move_to_disk br b else ok (br, b)

module _ {A : Type 0} (allocate : AllocateBufferFn A) (now : ℕ) where
  -- The buffer for the oldest message: a normal allocation first, then one that must succeed.
  unfoldable pub force_attach :
      TagExchange A → Peer → TagMessage → Result (TagExchange A × Peer × TagMessage)
  force_attach x p m = do
    (x1, p1, m1, attached) ← try_attach_receive_buffer allocate now x p m may_fail
    (if attached then ok (x1, p1, m1) else (do
      (x2, p2, m2, _) ← try_attach_receive_buffer allocate now x1 p1 m1 must_succeed
      ok (x2, p2, record m2 { forced_allocation = true })))

  unfoldable pub is_stalled : TagExchange A → Bool
  is_stalled x = elim x.allocation_stall_start [
    | none ↦ false
    | some start ↦ not (ltb (now - start) x.allocation_timeout)
  ]

  -- The message at a place of a rank gets its buffer there.
  unfoldable pub force_at :
      TagExchange A → ℕ → ℕ → TagMessage → Option Peer → Result (TagExchange A)
  force_at x rank i m none = err undefined
  force_at x rank i m (some p) = do
    (x1, p1, m1) ← force_attach x p m
    ok (record x1 { peers = set x1.peers rank (record p1 { incoming = set p1.incoming i m1 }) })

  unfoldable pub force_oldest : TagExchange A → Option (ℕ × ℕ × TagMessage) → Result (TagExchange A)
  force_oldest x none = err logic_error
  force_oldest x (some (rank, i, m)) = force_at x rank i m (get_elem? x.peers rank)

  unfoldable pub force_allocation_progress_if_stalled : TagExchange A → Result (TagExchange A)
  force_allocation_progress_if_stalled x =
      if is_stalled x then force_oldest x (oldest_awaiting 0 x.peers) else ok x

  -- The receive of a message that has its buffer.
  unfoldable pub post_receive :
      TagExchange A → Peer → TagMessage → List TagMessage → Buffer → Result (TagExchange A × Peer)
  post_receive x p m ms b = do
    expects (not (contains m.message_id x.in_transit_futures)) logic_error
    ok (
      record x { in_transit_futures = assign m.message_id b x.in_transit_futures },
      record p { incoming = ms; in_transit = p.in_transit ++ (record m { payload = none } ∷ []) },
    )

  -- A receive is posted for a message that has a buffer which may be written; else the message waits.
  unfoldable pub post_or_wait :
      TagExchange A
      → Peer
      → TagMessage
      → List TagMessage
      → Bool
      → Option Buffer
      → Result (TagExchange A × Peer)
  post_or_wait x p m ms false payload = ok (x, record p { incoming = m ∷ ms })
  post_or_wait x p m ms true none = err undefined
  post_or_wait x p m ms true (some b) =
      if b.write_done then post_receive x p m ms b else ok (x, record p { incoming = m ∷ ms })

  -- A message with data at the front of a queue: at most one receive is posted.
  unfoldable pub setup_data :
      TagExchange A → Peer → TagMessage → List TagMessage → Result (TagExchange A × Peer)
  setup_data x p m ms = do
    (x1, p1, m1, attached) ←
        (if is_awaiting_buffer m
          then try_attach_receive_buffer allocate now x p m may_fail
          else ok (x, p, m, true))
    post_or_wait x1 p1 m1 ms attached m1.payload

  -- The queue of one rank in order. A message without data is complete unless an earlier one is
  -- in transit.
  unfoldable pub setup_messages :
      ℕ → TagExchange A → Peer → List TagMessage → Result (TagExchange A × Peer × List Message)
  setup_messages src x p [] = ok (x, record p { incoming = [] }, [])
  setup_messages src x p (m ∷ ms) =
      if ltb 0 m.expected_payload_size
      then (do (x', p') ← setup_data x p m ms; ok (x', p', []))
      else if no_messages p.in_transit
      then (do (x', p', out) ← setup_messages src x p ms; ok (x', p', message_from src m ∷ out))
      else ok (x, record p { incoming = m ∷ ms }, [])

  -- The loop of setup_data_receives, from the rank on that the list starts with.
  unfoldable pub setup_peers :
      ℕ → TagExchange A → List Peer → Result (TagExchange A × List Peer × List Message)
  setup_peers src x [] = ok (x, [], [])
  setup_peers src x (p ∷ peers) = do
    (x1, p1, out) ← setup_messages src x p p.incoming
    (x2, peers2, outs) ← setup_peers (suc src) x1 peers
    ok (x2, p1 ∷ peers2, out ++ outs)

  unfoldable pub setup_data_receives : TagExchange A → Result (TagExchange A × List Message)
  setup_data_receives x = do
    x1 ← force_allocation_progress_if_stalled x
    (x2, peers, out) ← setup_peers 0 x1 x1.peers
    ok (record x2 { peers = peers }, out)

module _ {A : Type 0} where
  -- The messages in transit from one rank, up to the first whose transfer is not finished.
  unfoldable pub complete_messages :
      ℕ
      → (ℕ → Bool)
      → TagExchange A
      → List TagMessage
      → Result (TagExchange A × List TagMessage × List Message)
  complete_messages src is_finished x [] = ok (x, [], [])
  complete_messages src is_finished x (m ∷ ms) =
      if is_finished m.message_id
      then elim (find m.message_id x.in_transit_futures) [
        | none ↦ err logic_error
        | some received ↦ do
          (br, b) ← arrived_buffer x.br m received
          (x', ms', out) ←
              complete_messages src is_finished
                (record x { br = br; in_transit_futures = erase m.message_id x.in_transit_futures })
                ms
          ok (x', ms', message_from src (record m { payload = some b }) ∷ out)
      ]
      else ok (x, m ∷ ms, [])

  unfoldable pub complete_peers :
      ℕ → (ℕ → Bool) → TagExchange A → List Peer → Result (TagExchange A × List Peer × List Message)
  complete_peers src is_finished x [] = ok (x, [], [])
  complete_peers src is_finished x (p ∷ peers) = do
    (x1, ms, out) ← complete_messages src is_finished x p.in_transit
    (x2, peers2, outs) ← complete_peers (suc src) is_finished x1 peers
    ok (x2, record p { in_transit = ms } ∷ peers2, out ++ outs)

  -- `is_finished`: the ids that the communicator reports as complete; none where no receive is posted.
  unfoldable pub complete_data_transfers :
      (ℕ → Bool) → TagExchange A → Result (TagExchange A × List Message)
  complete_data_transfers is_finished x =
      if no_messages x.in_transit_futures then ok (x, []) else (do
        (x', peers, out) ← complete_peers 0 is_finished x x.peers
        ok (record x' { peers = peers }, out))

  -- Returns the messages, and keeps none.
  unfoldable pub recv : TagExchange A → TagExchange A × List Message
  recv x = (record x { received_messages = [] }, x.received_messages)

-- What the communicator reports in one call of `progress`.
pub record Reports : Type 0 where
  pub now : ℕ
  pub is_finished : ℕ → Bool
  pub sends_done : ℕ

unfoldable pub progress :
    {A : Type 0}
    → AllocateBufferFn A
    → Reports
    → TagExchange A
    → List (List (List ℕ))
    → Result (TagExchange A × List (List (List ℕ)))
progress allocate reports x mails = do
  (x1, peers, mails') ← receive_metadata allocate reports.now 0 x x.peers mails
  (x2, metadata_only) ← setup_data_receives allocate reports.now (record x1 { peers = peers })
  (x3, with_data) ← complete_data_transfers reports.is_finished x2
  ok (
    record x3 {
      received_messages = x3.received_messages ++ (metadata_only ++ with_data);
      fire_and_forget = x3.fire_and_forget - reports.sends_done;
    },
    mails',
  )
