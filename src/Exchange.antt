-- ===== src/Exchange.antt =====
-- `TagMetadataPayloadExchange` of cpp/src/communicator/metadata_payload_exchange/tag.cpp and its header.
-- What the code keeps by rank, in vectors and in maps, stands here in one record a rank; a missing
-- map entry is an empty list, and the maps are walked in the order of the ranks.
pub mod Send
pub mod Receive
pub mod Transfer
pub mod Arrivals
pub mod Trailer
pub mod Batches
pub mod Fifo
pub mod Completed
pub mod Forced
pub mod Channel
pub mod Delivery
use rapidsmpf.Prelude.{
  ℕ, ◌+◌, ◌-◌, Option, none, some, List, Bool, true, false, [], ltb, ◌&&◌, ◌^◌, replicate,
}
use rapidsmpf.Memory.Resource.{BufferResource}
use rapidsmpf.Memory.Buffer.{Buffer}
use rapidsmpf.Shuffler.Outbox.{AllocationMode}
use rapidsmpf.Shuffler.Progress.{Message}
use rapidsmpf.Prelude.Result.{Result}

pub record TagMessage : Type 0 where
  pub metadata : List ℕ
  pub payload : Option Buffer
  pub message_id : ℕ
  pub expected_payload_size : ℕ
  pub arrival : ℕ
  pub forced_allocation : Bool

abbrev pub is_null {ℓ} : {A : Type ℓ} → Option A → Bool
is_null none = true
is_null (some a) = false

unfoldable pub is_awaiting_buffer : TagMessage → Bool
is_awaiting_buffer m = ltb 0 m.expected_payload_size && is_null m.payload

-- num_awaiting_buffer_, messages_sent_to_, peer_received_, peer_expected_, peer_terminated_,
-- incoming_messages_ and in_transit_messages_ of one rank.
pub record Peer : Type 0 where
  pub num_awaiting_buffer : ℕ
  pub messages_sent_to : ℕ
  pub peer_received : ℕ
  pub peer_expected : ℕ
  pub peer_terminated : Bool
  pub incoming : List TagMessage
  pub in_transit : List TagMessage

-- `A` is the state of the function that allocates receive buffers. A future of a receive is the
-- buffer that was posted, by the id of its message; the futures of sends are counted. Times are readings
-- of the clock.
pub record TagExchange (A : Type 0) : Type 0 where
  pub rank : ℕ
  pub allocator : A
  pub allocation_timeout : ℕ
  pub br : BufferResource
  pub peers : List Peer
  pub total_awaiting_buffer : ℕ
  pub allocation_stall_start : Option ℕ
  pub next_arrival : ℕ
  pub finished : Bool
  pub fire_and_forget : ℕ
  pub in_transit_futures : List (ℕ × Buffer)
  pub received_messages : List Message
  pub next_message_id : ℕ

abbrev pub AllocateBufferFn : Type 0 → Type 0
AllocateBufferFn A = A → ℕ → AllocationMode → Result (A × Option Buffer)

abbrev pub termination_sentinel : ℕ
termination_sentinel = 2 ^ 64 - 1

abbrev pub new_peer : Peer
new_peer = record {
  num_awaiting_buffer = 0;
  messages_sent_to = 0;
  peer_received = 0;
  peer_expected = 0;
  peer_terminated = false;
  incoming = [];
  in_transit = [];
}

-- The constructor; the resource is not null.
unfoldable pub create : {A : Type 0} → ℕ → ℕ → A → ℕ → BufferResource → TagExchange A
create rank nranks allocator timeout br = record {
  rank = rank;
  allocator = allocator;
  allocation_timeout = timeout;
  br = br;
  peers = replicate nranks new_peer;
  total_awaiting_buffer = 0;
  allocation_stall_start = none;
  next_arrival = 0;
  finished = false;
  fire_and_forget = 0;
  in_transit_futures = [];
  received_messages = [];
  next_message_id = 0;
}
