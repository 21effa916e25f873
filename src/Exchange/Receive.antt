-- ===== src/Exchange/Receive.antt =====
-- The receiving side of tag.cpp: `progress` and what it calls. The communicator is a parameter:
-- the messages that have arrived from each rank, and the ids of the receives that are complete. The
-- clock is read once in a call of `progress`. Statistics and logging are left out.
use rapidsmpf.Prelude.{
  ℕ, zero, suc, ◌+◌, ◌-◌, Option, none, some, List, [], ◌∷◌, ◌++◌, Bool, true, false, not, ◌&&◌,
  ◌||◌, ltb, leb, ◌==◌, if◌then◌else◌, length, take, drop,
}
use rapidsmpf.Prelude.Bytes.{read}
use rapidsmpf.Prelude.Result.{Result, ok, err, expects, logic_error, runtime_error, ◌>>=◌, ◌>>◌}
use rapidsmpf.Memory.Buffer.{Buffer}
use rapidsmpf.Shuffler.Outbox.{AllocationMode, may_fail, must_succeed}
use rapidsmpf.Exchange.{
  TagExchange, TagMessage, Peer, AllocateBufferFn, is_awaiting_buffer, is_null,
  termination_sentinel,
}

-- After a successful allocation the stall period starts again if messages still wait.
unfoldable pub restart : ℕ → ℕ → Option ℕ
restart now zero = none
restart now (suc n) = some now

module _ {A : Type 0} (allocate : AllocateBufferFn A) (now : ℕ) where
  -- What the allocator returned is attached to the message.
  unfoldable pub attach_buffer :
      TagExchange A
      → Peer
      → TagMessage
      → AllocationMode
      → A × Option Buffer
      → Result (TagExchange A × Peer × TagMessage × Bool)
  unfolding restart
  attach_buffer x p m may_fail (a, none) = ok (record x { allocator = a }, p, m, false)
  attach_buffer x p m must_succeed (a, none) = err runtime_error
  attach_buffer x p m mode (a, some b) = ok (
    record x {
      allocator = a;
      total_awaiting_buffer = x.total_awaiting_buffer - 1;
      allocation_stall_start = restart now (x.total_awaiting_buffer - 1);
    },
    record p { num_awaiting_buffer = p.num_awaiting_buffer - 1 },
    record m { payload = some b },
    true,
  )

  -- The last component says whether a buffer was attached.
  unfoldable pub try_attach_receive_buffer :
      TagExchange A
      → Peer
      → TagMessage
      → AllocationMode
      → Result (TagExchange A × Peer × TagMessage × Bool)
  try_attach_receive_buffer x p m mode = do
    expects (is_awaiting_buffer m) logic_error
    allocated ← allocate x.allocator m.expected_payload_size mode
    attach_buffer x p m mode allocated

  -- Only the first waiting message of a rank is tried.
  unfoldable pub try_first :
      TagExchange A → Peer → TagMessage → Result (TagExchange A × Peer × TagMessage × Bool)
  try_first x p m =
      if p.num_awaiting_buffer == 1
      then try_attach_receive_buffer x p m may_fail
      else ok (x, p, m, false)

  unfoldable pub start_stall : TagExchange A → TagMessage → TagExchange A
  start_stall x m =
      if is_awaiting_buffer m && is_null x.allocation_stall_start
      then record x { allocation_stall_start = some now }
      else x

  -- A message with data is counted as awaiting a buffer, and may get one at once.
  unfoldable pub enqueue : TagExchange A → Peer → TagMessage → Result (TagExchange A × Peer)
  enqueue x p m =
      if ltb 0 m.expected_payload_size
      then (do
        (x1, p1, m1, _) ←
            try_first (record x { total_awaiting_buffer = x.total_awaiting_buffer + 1 })
              (record p { num_awaiting_buffer = p.num_awaiting_buffer + 1 }) m
        ok (start_stall x1 m1, record p1 { incoming = p1.incoming ++ (m1 ∷ []) }))
      else ok (x, record p { incoming = p.incoming ++ (m ∷ []) })

  -- One message, read: it is a termination marker, where the loop stops, or it is queued.
  unfoldable pub receive_parsed :
      TagExchange A → Peer → List ℕ → ℕ → ℕ → Result (TagExchange A × Peer × Bool)
  receive_parsed x p metadata message_id size =
      if message_id == termination_sentinel
      then ok (x, record p { peer_expected = size; peer_terminated = true }, false)
      else (do
        (x', p') ←
            enqueue (record x { next_arrival = x.next_arrival + 1 })
              (record p { peer_received = p.peer_received + 1 })
              (record {
                metadata = metadata;
                payload = none;
                message_id = message_id;
                expected_payload_size = size;
                arrival = x.next_arrival;
                forced_allocation = false;
              })
        ok (x', p', true))

  unfoldable pub receive_one : TagExchange A → Peer → List ℕ → Result (TagExchange A × Peer × Bool)
  receive_one x p msg = do
    expects (leb 16 (length msg)) logic_error
    (message_id, rest) ← read 8 (drop (length msg - 16) msg)
    (size, _) ← read 8 rest
    receive_parsed x p (take (length msg - 16) msg) message_id size

  -- The messages that arrived from a rank; those that are not received stay.
  unfoldable pub receive_messages :
      TagExchange A → Peer → List (List ℕ) → Result (TagExchange A × Peer × List (List ℕ))
  receive_messages x p [] = ok (x, p, [])
  receive_messages x p (msg ∷ mail) = do
    (x', p', more) ← receive_one x p msg
    (if more then receive_messages x' p' mail else ok (x', p', mail))

  unfoldable pub is_done : ℕ → ℕ → Peer → Bool
  is_done self rank p =
      rank == self || (p.peer_terminated && not (ltb p.peer_received p.peer_expected))

  -- receive_metadata, from the rank on that the list starts with.
  unfoldable pub receive_metadata :
      ℕ
      → TagExchange A
      → List Peer
      → List (List (List ℕ))
      → Result (TagExchange A × List Peer × List (List (List ℕ)))
  receive_metadata rank x (p ∷ peers) (mail ∷ mails) = do
    (x1, p1, mail1) ← (if is_done x.rank rank p then ok (x, p, mail) else receive_messages x p mail)
    (x2, peers2, mails2) ← receive_metadata (suc rank) x1 peers mails
    ok (x2, p1 ∷ peers2, mail1 ∷ mails2)
  receive_metadata rank x peers mails = ok (x, peers, mails)
