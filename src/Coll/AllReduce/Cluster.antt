-- ===== src/Coll/AllReduce/Cluster.antt =====
-- The ranks of an allreduce together, cpp/src/coll/allreduce.cpp: each has its own state, and the
-- messages that were sent and not yet received are in the mail. A schedule says which rank takes a
-- turn, whose posted receive the communicator completes and whose send it reports as done. A rank
-- receives the messages of another in the order in which they were sent.
use rapidsmpf.Prelude.{
  ℕ, Bool, true, ltb, ◌==◌, ◌&&◌, if◌then◌else◌, Option, none, some, List, [], ◌∷◌, ◌++◌,
}
use rapidsmpf.Prelude.Result.{Result, ok, ◌>>=◌}
use rapidsmpf.Coll.AllReduce.{AllReduce, Sending, Receiving, Message, event_loop, finished}

pub data Move : Type 0 where
  -- A rank, and whether the writes to its two buffers are done.
  turn : ℕ → Bool → Bool → Move
  arrival : ℕ → Move
  departure : ℕ → Move

pub record Cluster {ℓ} (A : Type ℓ) : Type ℓ where
  pub ranks : ℕ → AllReduce A
  pub mail : List (Message A)

module _ {ℓ} {A : Type ℓ} where
  unfoldable pub update : (ℕ → AllReduce A) → ℕ → AllReduce A → ℕ → AllReduce A
  update ranks r a s = if s == r then a else ranks s

  -- The first message from one rank to another, and the other messages.
  unfoldable pub take_message : ℕ → ℕ → List (Message A) → Option A × List (Message A)
  take_message source destination [] = (none, [])
  take_message source destination (m ∷ ms) =
      let rest = take_message source destination ms in
      if m.source == source && m.destination == destination
      then (some m.content, ms)
      else (rest.0, m ∷ rest.1)

  -- What has arrived stays until the rank looks.
  unfoldable pub fill :
      ℕ → ℕ → Option A → List (Message A) → Option (Receiving A) × List (Message A)
  unfolding take_message
  fill source r (some b) mail = (some (record { source = source; arrived = some b }), mail)
  fill source r none mail =
      let taken = take_message source r mail in
      (some (record { source = source; arrived = taken.0 }), taken.1)

  unfoldable pub complete_receive :
      ℕ → Option (Receiving A) → List (Message A) → Option (Receiving A) × List (Message A)
  unfolding fill
  complete_receive r none mail = (none, mail)
  complete_receive r (some f) mail = fill f.source r f.arrived mail

  unfoldable pub complete_send : Option (Sending A) → Option (Sending A)
  complete_send none = none
  complete_send (some f) = some (record f { is_sent = true })

  unfoldable pub arrive : ℕ → Cluster A → Cluster A
  unfolding update complete_receive
  arrive r c =
      let a = c.ranks r in
      let received = complete_receive r a.recv_future c.mail in
      record { ranks = update c.ranks r (record a { recv_future = received.0 }); mail = received.1 }

  unfoldable pub depart : ℕ → Cluster A → Cluster A
  unfolding update complete_send
  depart r c =
      let a = c.ranks r in
      record c { ranks = update c.ranks r (record a { send_future = complete_send a.send_future }) }

  module _ (reduce_operator : A → A → A) where
    -- The progress thread does not call a function again that was done.
    unfoldable pub take_turn : ℕ → Bool → Bool → Cluster A → Result (Cluster A)
    unfolding update
    take_turn r out_done in_done c =
        if finished (c.ranks r)
        then ok c
        else (event_loop reduce_operator out_done in_done (c.ranks r) >>= λ e.
            ok (record { ranks = update c.ranks r e.0; mail = c.mail ++ e.1 }))

    -- A rank that is not there does nothing.
    unfoldable pub step : ℕ → Cluster A → Move → Result (Cluster A)
    unfolding take_turn arrive depart
    step nranks c (turn r out_done in_done) =
        if ltb r nranks then take_turn r out_done in_done c else ok c
    step nranks c (arrival r) = ok (if ltb r nranks then arrive r c else c)
    step nranks c (departure r) = ok (if ltb r nranks then depart r c else c)

    unfoldable pub run : ℕ → Cluster A → List Move → Result (Cluster A)
    unfolding step
    run nranks c [] = ok c
    run nranks c (m ∷ ms) = step nranks c m >>= λ c'. run nranks c' ms
