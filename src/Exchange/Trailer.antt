-- ===== src/Exchange/Trailer.antt =====
-- The trailer of a metadata message of tag.cpp: what `send` appends, `receive_metadata` cuts off.
use rapidsmpf.Prelude.{
  ℕ, append-nil, ◌+◌, ◌-◌, ◌%◌, ◌^◌, ◌<◌, ◌≤◌, ◌≡◌, refl, ap, sym, ◌∙◌, inl, inr, List, [], ◌∷◌,
  ◌++◌, false, not, Bool-cases, ◌==◌, ltb, if◌then◌else◌, length, take, drop, length-append, arith,
}
use rapidsmpf.Prelude.Bits.{bit_or-disjoint}
use native.Mathlib.Nat.{mod-lt}
use rapidsmpf.Prelude.Bytes.{
  read, to_bytes_wrap, to_bytes, read-to_bytes, length-to_bytes, take-length-append,
  drop-length-append,
}
use rapidsmpf.Prelude.Result.{
  ok, expects, undefined, logic_error, invalid_argument, ok-Holds, Holds, >>=-Holds, >>-Holds,
}
use rapidsmpf.Shuffler.Progress.{Message}
use rapidsmpf.Exchange.{TagExchange, termination_sentinel}
use rapidsmpf.Exchange.Send.{
  Sent, send, all_sendable, sent_metadata, sent_payload, combined_metadata, payload_size,
  messages_of, next_id, send_one, send_all,
}
use rapidsmpf.Exchange.Arrivals.{entries, is_marker}
use rapidsmpf.Exchange.Arrivals.{Content, announced}

trailer_start :
    (metadata : List ℕ) (message_id size : ℕ)
    → length (combined_metadata metadata message_id size) - 16 ≡ length metadata
unfolding combined_metadata
trailer_start metadata message_id size = omega (
  arith,
  length-append metadata (to_bytes 8 message_id ++ to_bytes 8 size),
  length-append (to_bytes 8 message_id) (to_bytes 8 size),
  length-to_bytes 8 message_id,
  length-to_bytes 8 size,
)

back :
    (metadata : List ℕ) (message_id size : ℕ)
    → drop (length metadata) (combined_metadata metadata message_id size)
      ≡ to_bytes 8 message_id ++ to_bytes 8 size
unfolding combined_metadata
back metadata message_id size =
    drop-length-append metadata (to_bytes 8 message_id ++ to_bytes 8 size)

front_of :
    (metadata : List ℕ) (message_id size : ℕ)
    → take (length metadata) (combined_metadata metadata message_id size) ≡ metadata
unfolding combined_metadata
front_of metadata message_id size =
    take-length-append metadata (to_bytes 8 message_id ++ to_bytes 8 size)

not_equal : (m n : ℕ) → m < n → (m == n) ≡ false
not_equal m n lt = ground arith

not_marker :
    (metadata : List ℕ) (message_id size : ℕ)
    → message_id < termination_sentinel
    → is_marker (combined_metadata metadata message_id size) ≡ false
unfolding is_marker
not_marker metadata message_id size fits =
    let id_read = read-to_bytes 8 message_id (to_bytes 8 size) (omega (arith, fits)) in
    rw (trailer_start metadata message_id size, back metadata message_id size, id_read, is_marker)
      (not_equal message_id termination_sentinel fits)

-- The size that is read is the one that was sent, as a number of 64 bits.
read-size : (size : ℕ) → read 8 (to_bytes 8 size) ≡ ok (size % 2 ^ 64, [])
read-size size =
    ap (read 8) (sym (to_bytes_wrap 8 size) ∙ sym (append-nil (to_bytes 8 (size % 256 ^ 8))))
    ∙ read-to_bytes 8 (size % 256 ^ 8) [] (mod-lt size (omega arith))

announced-combined :
    (metadata : List ℕ) (message_id size : ℕ)
    → message_id < 2 ^ 64
    → announced (combined_metadata metadata message_id size) ≡ size % 2 ^ 64
unfolding announced
announced-combined metadata message_id size fits =
    let id_read = read-to_bytes 8 message_id (to_bytes 8 size) (omega (arith, fits)) in
    rw
      (
        trailer_start metadata message_id size,
        back metadata message_id size,
        id_read,
        read-size size,
        announced,
      )
      refl

-- A message that was sent with an id that is not the sentinel is read as its metadata, with or
-- without data.
entries-combined :
    (metadata : List ℕ) (message_id size : ℕ) (mail : List (List ℕ))
    → message_id < termination_sentinel
    → entries (combined_metadata metadata message_id size ∷ mail)
      ≡ (metadata, ltb 0 (size % 2 ^ 64)) ∷ entries mail
unfolding entries
entries-combined metadata message_id size mail fits =
    rw
      (
        not_marker metadata message_id size fits,
        trailer_start metadata message_id size,
        front_of metadata message_id size,
        announced-combined metadata message_id size (omega (arith, fits)),
      )
      refl

-- A message as it is sent: its metadata, and whether it has data. A size has 64 bits.
abbrev pub outgoing : Message → Content
outgoing m = (m.metadata, ltb 0 (payload_size m % 2 ^ 64))

-- The messages for a rank among those to send.
unfoldable pub sent_to : ℕ → List Message → List Content
sent_to dst [] = []
sent_to dst (m ∷ ms) =
    let rest = sent_to dst ms in if m.peer == dst then outgoing m ∷ rest else rest

-- The metadata messages that go to a rank.
unfoldable pub mail_for : ℕ → List Sent → List (List ℕ)
mail_for dst [] = []
mail_for dst (sent_metadata peer bytes ∷ out) =
    let rest = mail_for dst out in if peer == dst then bytes ∷ rest else rest
mail_for dst (sent_payload peer payload ∷ out) = mail_for dst out

pub mail_for-append :
    (dst : ℕ) (xs ys : List Sent) → mail_for dst (xs ++ ys) ≡ mail_for dst xs ++ mail_for dst ys
unfolding mail_for
mail_for-append dst [] ys = refl
mail_for-append dst (sent_metadata peer bytes ∷ xs) ys = elim (Bool-cases (peer == dst)) [
  | inl e ↦ rw e (ap (λ z. bytes ∷ z) (mail_for-append dst xs ys))
  | inr e ↦ rw e (mail_for-append dst xs ys)
]
mail_for-append dst (sent_payload peer payload ∷ xs) ys = mail_for-append dst xs ys

-- The ids of a rank below 2 ^ 31, for fewer than 2 ^ 32 messages.
next_id-fits :
    {A : Type 0} (x : TagExchange A)
    → x.rank < 2 ^ 31
    → x.next_message_id < 2 ^ 32
    → next_id x < termination_sentinel
unfolding next_id
next_id-fits x r n =
    omega (arith, bit_or-disjoint 64 32 x.rank x.next_message_id (omega arith) (omega arith) n)

mail_for-messages_of :
    (m : Message) (message_id dst : ℕ) (out : List Sent)
    → mail_for dst (messages_of m message_id ++ out) ≡ (
        if m.peer == dst
        then combined_metadata m.metadata message_id (payload_size m) ∷ mail_for dst out
        else mail_for dst out)
unfolding messages_of mail_for
mail_for-messages_of m message_id dst out = elim (Bool-cases (ltb 0 (payload_size m))) [
  | inl e ↦ rw e refl
  | inr e ↦ rw e refl
]

-- What a rank is sent reads as the messages for it, and each message takes an id.
abbrev pub SendsOf :
    {A : Type 0} → TagExchange A → List Message → TagExchange A × List Sent → Type 0
SendsOf x ms (x', out) =
    (x'.rank ≡ x.rank)
    × ((x'.next_message_id ≤ x.next_message_id + length ms)
        × ((dst : ℕ) → entries (mail_for dst out) ≡ sent_to dst ms))

abbrev SentOne : {A : Type 0} → TagExchange A → Message → TagExchange A × List Sent → Type 0
SentOne x m (x', out) =
    (x'.rank ≡ x.rank)
    × ((x'.next_message_id ≡ (x.next_message_id + 1) % 2 ^ 64) × (out ≡ messages_of m (next_id x)))

send_one-SentOne :
    {A : Type 0} (x : TagExchange A) (m : Message) → Holds (SentOne x m) (send_one x m)
unfolding send_one
send_one-SentOne x m =
    >>-Holds (SentOne x m) (expects (ltb m.peer (length x.peers)) undefined) _
      (>>-Holds (SentOne x m) (expects (not (m.peer == x.rank)) logic_error) _ (refl, (refl, refl)))

one_more :
    (m : Message) (ms : List Message) (message_id dst : ℕ) (out : List Sent)
    → message_id < termination_sentinel
    → entries (mail_for dst out) ≡ sent_to dst ms
    → entries (mail_for dst (messages_of m message_id ++ out)) ≡ sent_to dst (m ∷ ms)
unfolding sent_to
one_more m ms message_id dst out fits rest =
    ap entries (mail_for-messages_of m message_id dst out) ∙ (elim (Bool-cases (m.peer == dst)) [
      | inl e ↦ rw e (
          entries-combined m.metadata message_id (payload_size m) (mail_for dst out) fits
          ∙ ap (λ z. outgoing m ∷ z) rest)
      | inr e ↦ rw e rest
    ])

send_all-SendsOf :
    {A : Type 0} (x : TagExchange A) (ms : List Message)
    → x.rank < 2 ^ 31
    → x.next_message_id + length ms ≤ 2 ^ 32
    → Holds (SendsOf x ms) (send_all x ms)
unfolding send_all mail_for sent_to entries
send_all-SendsOf x [] r n = (refl, (omega arith, λ dst. refl))
send_all-SendsOf x (m ∷ ms) r n =
    >>=-Holds (SentOne x m) (SendsOf x (m ∷ ms)) (send_one x m) _ (send_one-SentOne x m)
      (λ (x1, out) (rank, (next, sent)).
        >>=-Holds (SendsOf x1 ms) (SendsOf x (m ∷ ms)) (send_all x1 ms) _
          (send_all-SendsOf x1 ms (omega (arith, rank, r)) (omega (arith, next, n)))
          (λ (x2, outs) (rank', (next', rest)). (
            rank' ∙ rank,
            (
              omega (arith, next, next', n),
              λ dst.
                  ap (λ z. entries (mail_for dst (z ++ outs))) sent
                  ∙ one_more m ms (next_id x) dst outs (next_id-fits x r (omega (arith, n)))
                      (rest dst),
            ),
          )))

pub send-SendsOf :
    {A : Type 0} (x : TagExchange A) (ms : List Message)
    → x.rank < 2 ^ 31
    → x.next_message_id + length ms ≤ 2 ^ 32
    → Holds (SendsOf x ms) (send x ms)
unfolding send
send-SendsOf x ms r n = >>-Holds (SendsOf x ms) (expects (not x.finished) logic_error) _ (
    >>-Holds (SendsOf x ms) (expects (all_sendable ms) invalid_argument) _
      (send_all-SendsOf x ms r n))

-- What a `send` that returns gives to the communicator for a rank reads, at the receiver, as the
-- messages for that rank in their order: the metadata of each, and whether data comes with it. The
-- sender's rank is below 2 ^ 31 and its ids stay below 2 ^ 32.
pub send-entries :
    {A : Type 0} (x x' : TagExchange A) (ms : List Message) (out : List Sent) (dst : ℕ)
    → x.rank < 2 ^ 31
    → x.next_message_id + length ms ≤ 2 ^ 32
    → send x ms ≡ ok (x', out)
    → entries (mail_for dst out) ≡ sent_to dst ms
send-entries x x' ms out dst r n e =
    (ok-Holds (SendsOf x ms) (send x ms) (x', out) (send-SendsOf x ms r n) e).1.1 dst
