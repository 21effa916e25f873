-- ===== src/Exchange/Send.antt =====
-- The sending side of tag.cpp: `send`, `finish`, `is_idle` and the trailer of a metadata message.
use rapidsmpf.Prelude.{
  ℕ, suc, ◌+◌, ◌*◌, ◌%◌, ◌^◌, Option, none, some, List, [], ◌∷◌, ◌++◌, Bool, true, false, not, ◌&&◌,
  ◌||◌, ltb, ◌==◌, if◌then◌else◌, length, get_elem?, set,
}
use rapidsmpf.Prelude.Bits.{bit_or}
use rapidsmpf.Prelude.Bytes.{to_bytes}
use rapidsmpf.Prelude.Result.{
  Result, ok, expects, logic_error, invalid_argument, undefined, ◌>>=◌, ◌>>◌,
}
use rapidsmpf.Memory.Types.{contains_type, addressable_memory_types}
use rapidsmpf.Memory.Buffer.{Buffer}
use rapidsmpf.Shuffler.Progress.{Message}
use rapidsmpf.Exchange.{TagExchange, Peer, termination_sentinel}

-- What goes to a rank: a metadata message, or the data of one.
pub data Sent : Type 0 where
  sent_metadata : ℕ → List ℕ → Sent
  sent_payload : ℕ → Option Buffer → Sent

-- sendable_memory_types is the same for every peer.
unfoldable pub is_sendable : Message → Bool
is_sendable m = elim m.payload [
  | none ↦ true
  | some b ↦ contains_type addressable_memory_types b.mem_type
]

unfoldable pub all_sendable : List Message → Bool
all_sendable [] = true
all_sendable (m ∷ ms) = is_sendable m && all_sendable ms

unfoldable pub payload_size : Message → ℕ
payload_size m = elim m.payload [ none ↦ 0 | some b ↦ b.size ]

-- [metadata][message id][payload size]
unfoldable pub combined_metadata : List ℕ → ℕ → ℕ → List ℕ
combined_metadata metadata message_id size = metadata ++ (to_bytes 8 message_id ++ to_bytes 8 size)

unfoldable pub next_id : {A : Type 0} → TagExchange A → ℕ
next_id x = bit_or 64 (x.rank * 2 ^ 32) x.next_message_id

unfoldable pub count_sent : List Peer → ℕ → List Peer
count_sent peers dst = elim (get_elem? peers dst) [
  | none ↦ peers
  | some p ↦ set peers dst (record p { messages_sent_to = p.messages_sent_to + 1 })
]

unfoldable pub messages_of : Message → ℕ → List Sent
messages_of m message_id =
    let size = payload_size m in
    let rest = if ltb 0 size then sent_payload m.peer m.payload ∷ [] else [] in
    sent_metadata m.peer (combined_metadata m.metadata message_id size) ∷ rest

-- One round of the loop of `send`; a destination that is no rank is out of bounds.
unfoldable pub send_one :
    {A : Type 0} → TagExchange A → Message → Result (TagExchange A × List Sent)
send_one x m = do
  expects (ltb m.peer (length x.peers)) undefined
  expects (not (m.peer == x.rank)) logic_error
  let out = messages_of m (next_id x)
  ok (
    record x {
      peers = count_sent x.peers m.peer;
      next_message_id = (x.next_message_id + 1) % 2 ^ 64;
      fire_and_forget = x.fire_and_forget + length out;
    },
    out,
  )

unfoldable pub send_all :
    {A : Type 0} → TagExchange A → List Message → Result (TagExchange A × List Sent)
send_all x [] = ok (x, [])
send_all x (m ∷ ms) = do (x1, out) ← send_one x m; (x2, outs) ← send_all x1 ms; ok (x2, out ++ outs)

unfoldable pub send :
    {A : Type 0} → TagExchange A → List Message → Result (TagExchange A × List Sent)
send x messages = do
  expects (not x.finished) logic_error
  expects (all_sendable messages) invalid_argument
  send_all x messages

-- A termination marker to every other rank, with the number of messages that it was sent.
unfoldable pub termination : ℕ → List ℕ
termination count = to_bytes 8 termination_sentinel ++ to_bytes 8 count

unfoldable pub terminations : ℕ → ℕ → List Peer → List Sent
terminations self rank [] = []
terminations self rank (p ∷ peers) =
    let rest = terminations self (suc rank) peers in
    if rank == self then rest else sent_metadata rank (termination p.messages_sent_to) ∷ rest

unfoldable pub finish : {A : Type 0} → TagExchange A → Result (TagExchange A × List Sent)
finish x = do
  expects (not x.finished) logic_error
  let out = terminations x.rank 0 x.peers
  ok (record x { finished = true; fire_and_forget = x.fire_and_forget + length out }, out)

unfoldable pub no_messages {ℓ} : {A : Type ℓ} → List A → Bool
no_messages [] = true
no_messages (m ∷ ms) = false

unfoldable pub queues_empty : List Peer → Bool
queues_empty [] = true
queues_empty (p ∷ peers) = no_messages p.incoming && no_messages p.in_transit && queues_empty peers

unfoldable pub peers_done : ℕ → ℕ → List Peer → Bool
peers_done self rank [] = true
peers_done self rank (p ∷ peers) =
    (rank == self || (p.peer_terminated && not (ltb p.peer_received p.peer_expected)))
    && peers_done self (suc rank) peers

unfoldable pub is_idle : {A : Type 0} → TagExchange A → Bool
is_idle x =
    let io_idle =
      x.fire_and_forget == 0 && queues_empty x.peers && no_messages x.in_transit_futures in
    if x.finished then peers_done x.rank 0 x.peers && io_idle else io_idle
