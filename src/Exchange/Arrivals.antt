-- ===== src/Exchange/Arrivals.antt =====
-- What the receiving side of tag.cpp makes of the messages of a rank: they are queued in their order.
use rapidsmpf.Prelude.{
  ℕ, zero, suc, ◌+◌, ◌-◌, ◌≡◌, refl, ap, sym, ◌∙◌, subst, inl, inr, Option, none, some, List, [],
  ◌∷◌, ◌++◌, Bool, true, false, not, ◌||◌, arith, Bool-cases, ltb, leb, ◌==◌, ◌&&◌, if◌then◌else◌,
  length, map, append-nil, append_assoc, take, drop,
}
use mathlib.Core.List.{map-append}
use rapidsmpf.Prelude.Bytes.{read}
use rapidsmpf.Prelude.Result.{
  ok, err, expects, logic_error, Holds, >>=-Holds, >>-Holds, weaken-Holds, if-Holds, then-Holds,
  Result-cases,
}
use rapidsmpf.Memory.Buffer.{Buffer}
use rapidsmpf.Shuffler.Outbox.{AllocationMode, may_fail, must_succeed}
use rapidsmpf.Exchange.{
  TagExchange, TagMessage, Peer, AllocateBufferFn, is_awaiting_buffer, is_null,
  termination_sentinel,
}
use rapidsmpf.Exchange.Receive.{
  attach_buffer, try_attach_receive_buffer, try_first, start_stall, enqueue, receive_parsed,
  receive_one, receive_messages, receive_metadata, is_done,
}

-- A message that arrived: a termination marker, or metadata before the trailer.
unfoldable pub is_marker : List ℕ → Bool
is_marker msg = elim (read 8 (drop (length msg - 16) msg)) [
  | ok (message_id, _) ↦ message_id == termination_sentinel
  | err e ↦ false
]

-- The size of the data that the trailer announces.
unfoldable pub announced : List ℕ → ℕ
announced msg = elim (read 8 (drop (length msg - 16) msg)) [
  | ok (message_id, rest) ↦ elim (read 8 rest) [ ok (size, _) ↦ size | err e ↦ 0 ]
  | err e ↦ 0
]

-- A message: its metadata, and whether data comes with it.
abbrev pub Content : Type 0
Content = List ℕ × Bool

unfoldable pub entry : List ℕ → ℕ → ℕ → List Content
entry metadata message_id size =
    if message_id == termination_sentinel then [] else (metadata, ltb 0 size) ∷ []

unfoldable pub entries : List (List ℕ) → List Content
entries [] = []
entries (msg ∷ mail) =
    let rest = entries mail in
    if is_marker msg then rest else (take (length msg - 16) msg, ltb 0 (announced msg)) ∷ rest

-- A message that is queued has data, or will have it.
abbrev pub queued : TagMessage → Content
queued m = (m.metadata, ltb 0 m.expected_payload_size || not (is_null m.payload))

-- A message whose data is in transit.
abbrev pub in_flight : TagMessage → Content
in_flight m = (m.metadata, true)

abbrev pub line : List TagMessage → List TagMessage → List Content
line ts ms = map in_flight ts ++ map queued ms

-- The messages that a rank has sent and that are not handed out, oldest first.
unfoldable pub pending : Peer → List Content
pending p = line p.in_transit p.incoming

unfoldable pub pending_at : ℕ → List Peer → List Content
pending_at k [] = []
pending_at zero (p ∷ peers) = pending p
pending_at (suc k) (p ∷ peers) = pending_at k peers

unfoldable pub mail_at : ℕ → List (List (List ℕ)) → List (List ℕ)
mail_at k [] = []
mail_at zero (mail ∷ mails) = mail
mail_at (suc k) (mail ∷ mails) = mail_at k mails

-- What the handling of one rank leaves alone in the exchange.
abbrev pub SameLog : {A : Type 0} → TagExchange A → TagExchange A → Type 0
SameLog x x' = (x'.received_messages ≡ x.received_messages) × (x'.peers ≡ x.peers)

abbrev pub SameQueues : Peer → Peer → Type 0
SameQueues p p' = (p'.incoming ≡ p.incoming) × (p'.in_transit ≡ p.in_transit)

at_each :
    (P P' : List Peer) (M M' : List (List (List ℕ))) (p p' : Peer) (m m' : List (List ℕ))
    → pending p' ++ entries m' ≡ pending p ++ entries m
    → ((k : ℕ)
        → pending_at k P' ++ entries (mail_at k M') ≡ pending_at k P ++ entries (mail_at k M))
    → (k : ℕ)
    → pending_at k (p' ∷ P') ++ entries (mail_at k (m' ∷ M'))
      ≡ pending_at k (p ∷ P) ++ entries (mail_at k (m ∷ M))
unfolding pending_at mail_at
at_each P P' M M' p p' m m' first rest zero = first
at_each P P' M M' p p' m m' first rest (suc k) = rest k

module _ {A : Type 0} (allocate : AllocateBufferFn A) (now : ℕ) where
  abbrev pub Attached :
      TagExchange A → Peer → TagMessage → TagExchange A × Peer × TagMessage × Bool → Type 0
  Attached x p m (x', p', m', b) = SameLog x x' × (SameQueues p p' × (queued m' ≡ queued m))

  attach_buffer-Attached :
      (x : TagExchange A) (p : Peer) (m : TagMessage) (mode : AllocationMode)
      (allocated : A × Option Buffer)
      → ltb 0 m.expected_payload_size ≡ true
      → Holds (Attached x p m) (attach_buffer allocate now x p m mode allocated)
  unfolding attach_buffer
  attach_buffer-Attached x p m may_fail (a, none) h = ((refl, refl), ((refl, refl), refl))
  attach_buffer-Attached x p m must_succeed (a, none) h = tt
  attach_buffer-Attached x p m may_fail (a, some b) h = ((refl, refl), ((refl, refl), rw h refl))
  attach_buffer-Attached x p m must_succeed (a, some b) h =
      ((refl, refl), ((refl, refl), rw h refl))

  awaits_data :
      (m : TagMessage) → is_awaiting_buffer m ≡ true → ltb 0 m.expected_payload_size ≡ true
  unfolding is_awaiting_buffer
  awaits_data m h = ground arith

  pub try_attach-Attached :
      (x : TagExchange A) (p : Peer) (m : TagMessage) (mode : AllocationMode)
      → Holds (Attached x p m) (try_attach_receive_buffer allocate now x p m mode)
  unfolding try_attach_receive_buffer
  try_attach-Attached x p m mode = elim (Bool-cases (is_awaiting_buffer m)) [
    | inl e ↦ rw e (
        then-Holds (Attached x p m) (allocate x.allocator m.expected_payload_size mode) _
          (λ allocated. attach_buffer-Attached x p m mode allocated (awaits_data m e)))
    | inr e ↦ rw e tt
  ]

  -- A message goes to the end of the queue of its rank.
  Queued : TagExchange A → Peer → Content → TagExchange A × Peer → Type 0
  Queued x p c (x', p') = SameLog x x' × (pending p' ≡ pending p ++ (c ∷ []))

  queue_last :
      (p p' : Peer) (m : TagMessage)
      → SameQueues p p'
      → pending (record p' { incoming = p'.incoming ++ (m ∷ []) }) ≡ pending p ++ (queued m ∷ [])
  unfolding pending
  queue_last p p' m (i, t) =
      rw (i, t)
        (ap (λ z. map in_flight p.in_transit ++ z) (map-append queued p.incoming (m ∷ []))
          ∙ sym (append_assoc (map in_flight p.in_transit) (map queued p.incoming) (queued m ∷ [])))

  try_first-Attached :
      (x : TagExchange A) (p : Peer) (m : TagMessage)
      → Holds (Attached x p m) (try_first allocate now x p m)
  unfolding try_first
  try_first-Attached x p m = elim (Bool-cases (p.num_awaiting_buffer == 1)) [
    | inl e ↦ rw e (try_attach-Attached x p m may_fail)
    | inr e ↦ rw e ((refl, refl), ((refl, refl), refl))
  ]

  start_stall-SameLog :
      (x : TagExchange A) (m : TagMessage) → SameLog x (start_stall allocate now x m)
  unfolding start_stall
  start_stall-SameLog x m =
      elim (Bool-cases (is_awaiting_buffer m && is_null x.allocation_stall_start)) [
        | inl e ↦ rw (e, start_stall) (refl, refl)
        | inr e ↦ rw (e, start_stall) (refl, refl)
      ]

  enqueue-Queued :
      (x : TagExchange A) (p : Peer) (m : TagMessage)
      → Holds (Queued x p (queued m)) (enqueue allocate now x p m)
  unfolding enqueue Queued
  enqueue-Queued x p m =
      let x1 = record x { total_awaiting_buffer = x.total_awaiting_buffer + 1 } in
      let p1 = record p { num_awaiting_buffer = p.num_awaiting_buffer + 1 } in
      if-Holds (Queued x p (queued m)) (ltb 0 m.expected_payload_size) _ _
        (λ _.
          >>=-Holds (Attached x1 p1 m) (Queued x p (queued m)) (try_first allocate now x1 p1 m) _
            (try_first-Attached x1 p1 m)
            (λ (x2, p2, m2, b) (log, (queues, same)).
              let stall = start_stall-SameLog x2 m2 in
              (
                (stall.0 ∙ log.0, stall.1 ∙ log.1),
                queue_last p p2 m2 queues ∙ ap (λ z. pending p ++ (z ∷ [])) same,
              )))
        (λ _. ((refl, refl), queue_last p p m (refl, refl)))

  abbrev Received : TagExchange A → Peer → List Content → TagExchange A × Peer × Bool → Type 0
  Received x p cs (x', p', more) = SameLog x x' × (pending p' ≡ pending p ++ cs)

  or_false : (b : Bool) → (b || not true) ≡ b
  or_false true = refl
  or_false false = refl

  receive_parsed-Queued :
      (x : TagExchange A) (p : Peer) (metadata : List ℕ) (message_id size : ℕ)
      → Holds
          (Received x p (entry metadata message_id size))
          (receive_parsed allocate now x p metadata message_id size)
  unfolding receive_parsed entry pending Queued
  receive_parsed-Queued x p metadata message_id size =
      elim (Bool-cases (message_id == termination_sentinel)) [
        | inl e ↦ rw e ((refl, refl), sym (append-nil (pending p)))
        | inr e ↦
            let x1 = record x { next_arrival = x.next_arrival + 1 } in
            let p1 = record p { peer_received = p.peer_received + 1 } in
            let m : TagMessage = record {
              metadata = metadata;
              payload = none;
              message_id = message_id;
              expected_payload_size = size;
              arrival = x.next_arrival;
              forced_allocation = false;
            } in
            rw e (
              >>=-Holds (Queued x1 p1 (queued m)) (Received x p ((metadata, ltb 0 size) ∷ []))
                (enqueue allocate now x1 p1 m) _ (enqueue-Queued x1 p1 m)
                (λ (x', p') (log, h).
                  (log, h ∙ ap (λ b. pending p ++ ((metadata, b) ∷ [])) (or_false (ltb 0 size)))))
      ]

  marker-read :
      (msg : List ℕ) (message_id : ℕ) (rest : List ℕ)
      → read 8 (drop (length msg - 16) msg) ≡ ok (message_id, rest)
      → is_marker msg ≡ (message_id == termination_sentinel)
  unfolding is_marker
  marker-read msg message_id rest e = rw (e, is_marker) refl

  announced-read :
      (msg : List ℕ) (message_id : ℕ) (rest : List ℕ) (size : ℕ) (end : List ℕ)
      → read 8 (drop (length msg - 16) msg) ≡ ok (message_id, rest)
      → read 8 rest ≡ ok (size, end)
      → announced msg ≡ size
  unfolding announced
  announced-read msg message_id rest size end e s = rw (e, s, announced) refl

  entries-read :
      (msg : List ℕ) (message_id : ℕ) (rest : List ℕ) (size : ℕ) (end : List ℕ)
      → read 8 (drop (length msg - 16) msg) ≡ ok (message_id, rest)
      → read 8 rest ≡ ok (size, end)
      → entry (take (length msg - 16) msg) message_id size ≡ entries (msg ∷ [])
  unfolding entries entry
  entries-read msg message_id rest size end e s =
      rw (marker-read msg message_id rest e, announced-read msg message_id rest size end e s) refl

  receive_one-Queued :
      (x : TagExchange A) (p : Peer) (msg : List ℕ)
      → Holds (Received x p (entries (msg ∷ []))) (receive_one allocate now x p msg)
  unfolding receive_one
  receive_one-Queued x p msg =
      let Q = Received x p (entries (msg ∷ [])) in
      let metadata = take (length msg - 16) msg in
      >>-Holds Q (expects (leb 16 (length msg)) logic_error) _
        (elim (Result-cases (read 8 (drop (length msg - 16) msg))) [
          | inl ((message_id, rest), e) ↦ rw e (elim (Result-cases (read 8 rest)) [
            | inl ((size, end), s) ↦ rw s (
                subst
                  (λ q.
                    Holds (Received x p q)
                      (receive_parsed allocate now x p metadata message_id size))
                  (entries-read msg message_id rest size end e s)
                  (receive_parsed-Queued x p metadata message_id size))
            | inr (thrown, s) ↦ rw s tt
          ])
          | inr (thrown, e) ↦ rw e tt
        ])

  abbrev Drained :
      TagExchange A → Peer → List (List ℕ) → TagExchange A × Peer × List (List ℕ) → Type 0
  Drained x p mail (x', p', rest) =
      SameLog x x' × (pending p' ++ entries rest ≡ pending p ++ entries mail)

  entries_cons :
      (msg : List ℕ) (mail : List (List ℕ))
      → entries (msg ∷ mail) ≡ entries (msg ∷ []) ++ entries mail
  unfolding entries
  entries_cons msg mail = elim (Bool-cases (is_marker msg)) [
    | inl e ↦ rw e refl
    | inr e ↦ rw e refl
  ]

  -- The loop goes on, or it stops at a termination marker.
  receive_messages-Drained :
      (x : TagExchange A) (p : Peer) (mail : List (List ℕ))
      → Holds (Drained x p mail) (receive_messages allocate now x p mail)
  unfolding receive_messages
  receive_messages-Drained x p [] = ((refl, refl), refl)
  receive_messages-Drained x p (msg ∷ mail) =
      >>=-Holds (Received x p (entries (msg ∷ []))) (Drained x p (msg ∷ mail))
        (receive_one allocate now x p msg) _ (receive_one-Queued x p msg)
        (λ (x1, p1, more) (log, queue).
          let shift : pending p1 ++ entries mail ≡ pending p ++ entries (msg ∷ mail) =
            ap (λ q. q ++ entries mail) queue
            ∙ append_assoc (pending p) (entries (msg ∷ [])) (entries mail)
            ∙ ap (λ q. pending p ++ q) (sym (entries_cons msg mail)) in
          elim (Bool-cases more) [
            | inl e ↦ rw e (
                weaken-Holds (Drained x1 p1 mail) (Drained x p (msg ∷ mail))
                  (receive_messages allocate now x1 p1 mail)
                  (λ (x2, p2, rest) (log', kept). ((log'.0 ∙ log.0, log'.1 ∙ log.1), kept ∙ shift))
                  (receive_messages-Drained x1 p1 mail))
            | inr e ↦ rw e (log, shift)
          ])

  abbrev pub AllDrained :
      TagExchange A
      → List Peer
      → List (List (List ℕ))
      → TagExchange A × List Peer × List (List (List ℕ))
      → Type 0
  AllDrained x peers mails (x', peers', mails') =
      SameLog x x'
      × ((k : ℕ)
          → pending_at k peers' ++ entries (mail_at k mails')
            ≡ pending_at k peers ++ entries (mail_at k mails))

  -- Receiving moves messages from the mail of a rank to the end of its queue, in their order.
  pub receive_metadata-AllDrained :
      (rank : ℕ) (x : TagExchange A) (peers : List Peer) (mails : List (List (List ℕ)))
      → Holds (AllDrained x peers mails) (receive_metadata allocate now rank x peers mails)
  unfolding receive_metadata pending_at mail_at
  receive_metadata-AllDrained rank x [] mails = ((refl, refl), λ k. refl)
  receive_metadata-AllDrained rank x (p ∷ peers) [] = ((refl, refl), λ k. refl)
  receive_metadata-AllDrained rank x (p ∷ peers) (mail ∷ mails) =
      >>=-Holds (Drained x p mail) (AllDrained x (p ∷ peers) (mail ∷ mails))
        (if is_done allocate now x.rank rank p
          then ok (x, p, mail)
          else receive_messages allocate now x p mail)
        _
        (elim (Bool-cases (is_done allocate now x.rank rank p)) [
          | inl e ↦ rw e ((refl, refl), refl)
          | inr e ↦ rw e (receive_messages-Drained x p mail)
        ])
        (λ (x1, p1, mail1) (log, kept).
          >>=-Holds (AllDrained x1 peers mails) (AllDrained x (p ∷ peers) (mail ∷ mails))
            (receive_metadata allocate now (suc rank) x1 peers mails) _
            (receive_metadata-AllDrained (suc rank) x1 peers mails)
            (λ (x2, peers2, mails2) (log', rest). (
              (log'.0 ∙ log.0, log'.1 ∙ log.1),
              at_each peers peers2 mails mails2 p p1 mail mail1 kept rest,
            )))
