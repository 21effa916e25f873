-- ===== src/Examples/ExchangeRuns.antt =====
-- Runs of the metadata payload exchange between two ranks.
use rapidsmpf.Prelude.{ℕ, ◌≡◌, refl, none, some, List, [], ◌∷◌, ◌++◌, true, arith}
use rapidsmpf.Prelude.Result.{Result, ok, err}
use rapidsmpf.Memory.Types.{host, contains_type}
use rapidsmpf.Shuffler.Progress.{Message}
use rapidsmpf.Exchange.{TagExchange, AllocateBufferFn, create, is_awaiting_buffer}
use rapidsmpf.Prelude.Bits.{bit_or}
use rapidsmpf.Prelude.Bytes.{to_bytes, from_bytes, read}
use rapidsmpf.Prelude.Assoc.{find, assign, erase, contains}
use rapidsmpf.Exchange.Send.{
  Sent, send, all_sendable, is_sendable, send_all, send_one, count_sent, messages_of, payload_size,
  combined_metadata, next_id, no_messages,
}
use rapidsmpf.Exchange.Receive.{
  receive_metadata, is_done, receive_messages, receive_one, receive_parsed, enqueue, try_first,
  start_stall, try_attach_receive_buffer, attach_buffer, restart,
}
use rapidsmpf.Exchange.Transfer.{
  progress, Reports, setup_data_receives, force_allocation_progress_if_stalled, is_stalled,
  force_oldest, oldest_awaiting, first_awaiting, older, at_rank, setup_peers, setup_messages,
  setup_data, post_or_wait, post_receive, complete_data_transfers, complete_peers,
  complete_messages, arrived_buffer, recv,
}
use rapidsmpf.Exchange.Arrivals.{entries}
use rapidsmpf.Exchange.Fifo.{from}
use rapidsmpf.Exchange.Channel.{channel, progress-channel}
use rapidsmpf.Exchange.Trailer.{sent_to, mail_for, send-entries}
use rapidsmpf.Exchange.Batches.{send_batches, joined}
use rapidsmpf.Exchange.Delivery.{
  State, Event, arrives, progresses, receives, run, step, add_mail, arrived_from, delivery-in_order,
}
use rapidsmpf.Examples.CollRuns.{resource, buffer}

-- Receive buffers are in host memory.
abbrev allocate : AllocateBufferFn (Unit {0})
allocate a n mode = ok (a, some (buffer host n))

abbrev exchange : ℕ → TagExchange (Unit {0})
exchange rank = create rank 2 tt 1000 resource

-- Metadata alone, and then metadata with a payload.
abbrev messages : List Message
messages =
    record { peer = 0; metadata = 7 ∷ []; payload = none }
    ∷ (record { peer = 0; metadata = 8 ∷ (9 ∷ []); payload = some (buffer host 5) } ∷ [])

abbrev sent_of : Result (TagExchange (Unit {0}) × List Sent) → TagExchange (Unit {0}) × List Sent
sent_of (ok r) = r
sent_of (err e) = (exchange 1, [])

abbrev sent : TagExchange (Unit {0}) × List Sent
sent = sent_of (send (exchange 1) messages)

sends : send (exchange 1) messages ≡ ok sent
unfolding create send all_sendable is_sendable contains_type send_all send_one count_sent
    messages_of payload_size combined_metadata next_id bit_or to_bytes
sends = refl

send-entries_example : entries (mail_for 0 sent.1) ≡ sent_to 0 messages
unfolding create
send-entries_example =
    send-entries (exchange 1) sent.0 messages sent.1 0 (omega arith) (omega arith) sends

-- The same messages in two calls of `send`.
abbrev batches : List (List Message)
batches =
    (record { peer = 0; metadata = 7 ∷ []; payload = none } ∷ [])
    ∷ ((record { peer = 0; metadata = 8 ∷ (9 ∷ []); payload = some (buffer host 5) } ∷ []) ∷ [])

abbrev batch : TagExchange (Unit {0}) × List Sent
batch = sent_of (send_batches (exchange 1) batches)

sends_batches : send_batches (exchange 1) batches ≡ ok batch
unfolding create send_batches send all_sendable is_sendable contains_type send_all send_one
    count_sent messages_of payload_size combined_metadata next_id bit_or to_bytes
sends_batches = refl

abbrev reports : Reports
reports = record { now = 5; is_finished = λ id. true; sends_done = 0 }

abbrev mails : List (List (List ℕ))
mails = [] ∷ (mail_for 0 sent.1 ∷ [])

abbrev after_of :
    Result (TagExchange (Unit {0}) × List (List (List ℕ)))
    → TagExchange (Unit {0}) × List (List (List ℕ))
after_of (ok r) = r
after_of (err e) = (exchange 0, [])

abbrev after : TagExchange (Unit {0}) × List (List (List ℕ))
after = after_of (progress allocate reports (exchange 0) mails)

progressed : progress allocate reports (exchange 0) mails ≡ ok after
unfolding create send all_sendable is_sendable contains_type send_all send_one count_sent
    messages_of payload_size combined_metadata next_id bit_or to_bytes mail_for progress
    receive_metadata is_done receive_messages receive_one read from_bytes receive_parsed enqueue
    try_first start_stall try_attach_receive_buffer attach_buffer restart is_awaiting_buffer
    setup_data_receives force_allocation_progress_if_stalled is_stalled force_oldest oldest_awaiting
    first_awaiting older at_rank setup_peers setup_messages setup_data post_or_wait post_receive
    no_messages contains assign find erase complete_data_transfers complete_peers complete_messages
    arrived_buffer recv
progressed = refl

progress-channel_example : channel 1 after.0 after.1 ≡ channel 1 (exchange 0) mails
progress-channel_example =
    progress-channel allocate reports (exchange 0) after.0 mails after.1 1 progressed

abbrev events : List Event
events = arrives 1 (mail_for 0 sent.1) ∷ (progresses reports ∷ (receives ∷ []))

abbrev end_of : Result (State (Unit {0})) → State (Unit {0})
end_of (ok s) = s
end_of (err e) = (exchange 0, [], [])

abbrev end : State (Unit {0})
end = end_of (run allocate (exchange 0, [], []) events)

ran :
    ◌≡◌ {A = Result (State (Unit {0}))}
      (run allocate (exchange 0, [], []) events)
      (ok (end.0, end.1, end.2))
unfolding create send all_sendable is_sendable contains_type send_all send_one count_sent
    messages_of payload_size combined_metadata next_id bit_or to_bytes mail_for progress
    receive_metadata is_done receive_messages receive_one read from_bytes receive_parsed enqueue
    try_first start_stall try_attach_receive_buffer attach_buffer restart is_awaiting_buffer
    setup_data_receives force_allocation_progress_if_stalled is_stalled force_oldest oldest_awaiting
    first_awaiting older at_rank setup_peers setup_messages setup_data post_or_wait post_receive
    no_messages contains assign find erase complete_data_transfers complete_peers complete_messages
    arrived_buffer recv run step add_mail
ran = refl

all_arrived : arrived_from 1 events ++ [] ≡ mail_for 0 batch.1
unfolding create send_batches send all_sendable is_sendable contains_type send_all send_one
    count_sent messages_of payload_size combined_metadata next_id bit_or to_bytes mail_for progress
    receive_metadata is_done receive_messages receive_one read from_bytes receive_parsed enqueue
    try_first start_stall try_attach_receive_buffer attach_buffer restart is_awaiting_buffer
    setup_data_receives force_allocation_progress_if_stalled is_stalled force_oldest oldest_awaiting
    first_awaiting older at_rank setup_peers setup_messages setup_data post_or_wait post_receive
    no_messages contains assign find erase complete_data_transfers complete_peers complete_messages
    arrived_buffer recv arrived_from
all_arrived = refl

delivery-in_order_example :
    (from 1 end.2 ++ channel 1 end.0 end.1) ++ entries [] ≡ sent_to 0 (joined batches)
unfolding create
delivery-in_order_example =
    delivery-in_order allocate 0 2 1000 tt resource events end.0 end.1 end.2 1 (exchange 1) batch.0
      batches batch.1 [] ran (omega arith) (omega arith) sends_batches all_arrived
