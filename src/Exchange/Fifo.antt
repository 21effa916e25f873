-- ===== src/Exchange/Fifo.antt =====
-- The messages of each rank come out of tag.cpp in the order in which they were sent.
use rapidsmpf.Prelude.{
  ℕ, zero, suc, ◌+◌, ◌≤◌, ◌<◌, ◌≡◌, refl, ap, sym, ◌∙◌, inl, inr, Option, none, some, List, [], ◌∷◌,
  ◌++◌, Bool, true, false, Bool-cases, ltb, ◌==◌, if◌then◌else◌, map, append-nil, arith, ==_iff,
  not, ◌||◌,
}
use rapidsmpf.Prelude.Assoc.{contains}
use rapidsmpf.Prelude.Result.{
  ok, expects, logic_error, Holds, >>=-Holds, >>-Holds, weaken-Holds, if-Holds,
}
use rapidsmpf.Memory.Buffer.{Buffer}
use rapidsmpf.Shuffler.Outbox.{may_fail}
use rapidsmpf.Shuffler.Progress.{Message}
use rapidsmpf.Exchange.{
  TagExchange, TagMessage, Peer, AllocateBufferFn, is_awaiting_buffer, is_null,
}
use rapidsmpf.Exchange.Send.{no_messages}
use rapidsmpf.Exchange.Receive.{try_attach_receive_buffer}
use rapidsmpf.Exchange.Transfer.{
  post_receive, post_or_wait, setup_data, setup_messages, setup_peers,
}
use rapidsmpf.Exchange.Arrivals.{
  Content, line, queued, in_flight, pending, pending_at, SameLog, Attached, try_attach-Attached,
}

-- A message that was handed out: its metadata, and whether it has data.
abbrev pub handed : Message → Content
handed m = (m.metadata, not (is_null m.payload))

-- The messages that were handed out for a rank.
unfoldable pub from : ℕ → List Message → List Content
from src [] = []
from src (m ∷ ms) = let rest = from src ms in if m.peer == src then handed m ∷ rest else rest

pub from-append :
    (src : ℕ) (ms ns : List Message) → from src (ms ++ ns) ≡ from src ms ++ from src ns
unfolding from
from-append src [] ns = refl
from-append src (m ∷ ms) ns = elim (Bool-cases (m.peer == src)) [
  | inl e ↦ rw e (ap (λ z. handed m ∷ z) (from-append src ms ns))
  | inr e ↦ rw e (from-append src ms ns)
]

-- Messages of one rank, and of that rank or later ones.
abbrev pub AllOf : ℕ → List Message → Type 0
AllOf src [] = Unit
AllOf src (m ∷ ms) = (m.peer ≡ src) × AllOf src ms

abbrev AllAfter : ℕ → List Message → Type 0
AllAfter src [] = Unit
AllAfter src (m ∷ ms) = (src ≤ m.peer) × AllAfter src ms

from_none : (src r : ℕ) (ms : List Message) → r < src → AllAfter src ms → from r ms ≡ []
unfolding from
from_none src r [] lt all = refl
from_none src r (m ∷ ms) lt (le, all) =
    let other : (m.peer == r) ≡ false = ground (arith, le, lt) in
    rw other (from_none src r ms lt all)

of_one : (src r : ℕ) (ms : List Message) → src < r → AllOf src ms → from r ms ≡ []
unfolding from
of_one src r [] lt all = refl
of_one src r (m ∷ ms) lt (e, all) =
    let other : (m.peer == r) ≡ false = ground (arith, e, lt) in rw other (of_one src r ms lt all)

-- Messages of one rank.
unfoldable pub contents : List Message → List Content
contents ms = map handed ms

of_all : (src : ℕ) (ms : List Message) → AllOf src ms → from src ms ≡ contents ms
unfolding from contents
of_all src [] all = refl
of_all src (m ∷ ms) (e, all) =
    let same : (m.peer == src) ≡ true = (==_iff _ _).1 e in
    rw same (ap (λ z. handed m ∷ z) (of_all src ms all))

after_append :
    (src : ℕ) (ms ns : List Message)
    → AllOf src ms
    → AllAfter (suc src) ns
    → AllAfter src (ms ++ ns)
after_append src [] [] a b = tt
after_append src [] (n ∷ ns) a b = (omega (arith, b.0), after_append src [] ns tt b.1)
after_append src (m ∷ ms) ns a b = (omega (arith, a.0), after_append src ms ns a.1 b)

-- What one rank hands out is the front of its queue.
abbrev Front : ℕ → Peer → Peer → List Message → Type 0
Front src p p' out = AllOf src out × (contents out ++ pending p' ≡ pending p)

-- And so for each of the ranks from `src` on.
abbrev pub Fronts : ℕ → List Peer → List Peer → List Message → Type 0
Fronts src peers peers' out =
    AllAfter src out × ((k : ℕ) → from (src + k) out ++ pending_at k peers' ≡ pending_at k peers)

pub Fronts-cons :
    (src : ℕ) (p p' : Peer) (peers peers' : List Peer) (out outs : List Message)
    → Front src p p' out
    → Fronts (suc src) peers peers' outs
    → Fronts src (p ∷ peers) (p' ∷ peers') (out ++ outs)
unfolding pending_at
Fronts-cons src p p' peers peers' out outs (all, front) (all', fronts) =
    (after_append src out outs all all', each)
  where
    first : from (src + 0) (out ++ outs) ≡ contents out
    first =
        ap (λ r. from r (out ++ outs)) (omega arith)
        ∙ from-append src out outs
        ∙ ap (λ z. from src out ++ z) (from_none (suc src) src outs (omega arith) all')
        ∙ append-nil (from src out)
        ∙ of_all src out all

    later : (k : ℕ) → from (src + suc k) (out ++ outs) ≡ from (suc src + k) outs
    later k =
        from-append (src + suc k) out outs
        ∙ ap (λ z. z ++ from (src + suc k) outs) (of_one src (src + suc k) out (omega arith) all)
        ∙ ap (λ r. from r outs) (omega arith)

    each :
        (k : ℕ)
        → from (src + k) (out ++ outs) ++ pending_at k (p' ∷ peers') ≡ pending_at k (p ∷ peers)
    each zero = ap (λ z. z ++ pending p') first ∙ front
    each (suc k) = ap (λ z. z ++ pending_at k peers') (later k) ∙ fronts k

moved :
    (ts : List TagMessage) (m m' : TagMessage) (ms : List TagMessage)
    → in_flight m ≡ queued m'
    → line (ts ++ (m ∷ [])) ms ≡ line ts (m' ∷ ms)
moved [] m m' ms e = ap (λ z. z ∷ map queued ms) e
moved (t ∷ ts) m m' ms e = ap (λ z. in_flight t ∷ z) (moved ts m m' ms e)

no_messages-nil : (ts : List TagMessage) → no_messages ts ≡ true → ts ≡ []
unfolding no_messages
no_messages-nil [] e = refl
no_messages-nil (t ∷ ts) e = absurd (let w = e in cc)

module _ {A : Type 0} (allocate : AllocateBufferFn A) (now : ℕ) where
  abbrev Posted : TagExchange A → Peer → List TagMessage → TagExchange A × Peer → Type 0
  Posted x p ms (x', p') = SameLog x x' × (pending p' ≡ line p.in_transit ms)

  post_receive-Posted :
      (x : TagExchange A) (p : Peer) (m : TagMessage) (ms : List TagMessage) (b : Buffer)
      → (queued m).1 ≡ true
      → Holds (Posted x p (m ∷ ms)) (post_receive allocate now x p m ms b)
  unfolding post_receive pending
  post_receive-Posted x p m ms b has =
      >>-Holds (Posted x p (m ∷ ms))
        (expects (not (contains m.message_id x.in_transit_futures)) logic_error) _
        (
          (refl, refl),
          moved p.in_transit (record m { payload = none }) m ms
              (ap (λ z. (m.metadata, z)) (sym has)),
        )

  post_or_wait-Posted :
      (x : TagExchange A) (p : Peer) (m : TagMessage) (ms : List TagMessage) (attached : Bool)
      (payload : Option Buffer)
      → (queued m).1 ≡ true
      → Holds (Posted x p (m ∷ ms)) (post_or_wait allocate now x p m ms attached payload)
  unfolding post_or_wait pending
  post_or_wait-Posted x p m ms false payload has = ((refl, refl), refl)
  post_or_wait-Posted x p m ms true none has = tt
  post_or_wait-Posted x p m ms true (some b) has =
      if-Holds (Posted x p (m ∷ ms)) b.write_done _ _ (λ _. post_receive-Posted x p m ms b has)
        (λ _. ((refl, refl), refl))

  setup_data-Posted :
      (x : TagExchange A) (p : Peer) (m : TagMessage) (ms : List TagMessage)
      → (queued m).1 ≡ true
      → Holds (Posted x p (m ∷ ms)) (setup_data allocate now x p m ms)
  unfolding setup_data
  setup_data-Posted x p m ms has =
      >>=-Holds (Attached allocate now x p m) (Posted x p (m ∷ ms))
        (if is_awaiting_buffer m
          then try_attach_receive_buffer allocate now x p m may_fail
          else ok (x, p, m, true))
        _
        (elim (Bool-cases (is_awaiting_buffer m)) [
          | inl e ↦ rw e (try_attach-Attached allocate now x p m may_fail)
          | inr e ↦ rw e ((refl, refl), ((refl, refl), refl))
        ])
        (λ (x1, p1, m1, attached) (log, (queues, same)).
          weaken-Holds (Posted x1 p1 (m1 ∷ ms)) (Posted x p (m ∷ ms))
            (post_or_wait allocate now x1 p1 m1 ms attached m1.payload)
            (λ (x2, p2) (log', kept). (
              (log'.0 ∙ log.0, log'.1 ∙ log.1),
              kept
                  ∙ ap (λ ts. line ts (m1 ∷ ms)) queues.1
                  ∙ ap (λ c. map in_flight p.in_transit ++ (c ∷ map queued ms)) same,
            ))
            (post_or_wait-Posted x1 p1 m1 ms attached m1.payload (ap (λ c. c.1) same ∙ has)))

  abbrev SetUp :
      ℕ → TagExchange A → Peer → List TagMessage → TagExchange A × Peer × List Message → Type 0
  SetUp src x p ms (x', p', out) =
      SameLog x x' × (AllOf src out × (contents out ++ pending p' ≡ line p.in_transit ms))

  setup_messages-SetUp :
      (src : ℕ) (x : TagExchange A) (p : Peer) (ms : List TagMessage)
      → Holds (SetUp src x p ms) (setup_messages allocate now src x p ms)
  unfolding setup_messages pending contents
  setup_messages-SetUp src x p [] = ((refl, refl), (tt, refl))
  setup_messages-SetUp src x p (m ∷ ms) =
      if-Holds (SetUp src x p (m ∷ ms)) (ltb 0 m.expected_payload_size) _ _
        (λ has_data.
          >>=-Holds (Posted x p (m ∷ ms)) (SetUp src x p (m ∷ ms))
            (setup_data allocate now x p m ms) _ (setup_data-Posted x p m ms (rw has_data refl))
            (λ (x', p') (log, kept). (log, (tt, kept))))
        (λ no_data.
          if-Holds (SetUp src x p (m ∷ ms)) (no_messages p.in_transit) _ _
            (λ none_earlier.
              let empty = no_messages-nil p.in_transit none_earlier in
              >>=-Holds (SetUp src x p ms) (SetUp src x p (m ∷ ms))
                (setup_messages allocate now src x p ms) _ (setup_messages-SetUp src x p ms)
                (λ (x', p', out) (log, (all, kept)). (
                  log,
                  (
                    (refl, all),
                    ap (λ z. (m.metadata, not (is_null m.payload)) ∷ z)
                          (kept ∙ ap (λ ts. line ts ms) empty)
                        ∙ ap (λ b. (m.metadata, b || not (is_null m.payload)) ∷ map queued ms)
                            (sym no_data)
                        ∙ sym (ap (λ ts. line ts (m ∷ ms)) empty),
                  ),
                )))
            (λ _. ((refl, refl), (tt, refl))))

  abbrev pub OutInOrder :
      ℕ → TagExchange A → List Peer → TagExchange A × List Peer × List Message → Type 0
  OutInOrder src x peers (x', peers', out) = SameLog x x' × Fronts src peers peers' out

  pub setup_peers-Fronts :
      (src : ℕ) (x : TagExchange A) (peers : List Peer)
      → Holds (OutInOrder src x peers) (setup_peers allocate now src x peers)
  unfolding setup_peers pending_at pending from
  setup_peers-Fronts src x [] = ((refl, refl), (tt, λ k. refl))
  setup_peers-Fronts src x (p ∷ peers) =
      >>=-Holds (SetUp src x p p.incoming) (OutInOrder src x (p ∷ peers))
        (setup_messages allocate now src x p p.incoming) _ (setup_messages-SetUp src x p p.incoming)
        (λ (x1, p1, out) (log, front).
          >>=-Holds (OutInOrder (suc src) x1 peers) (OutInOrder src x (p ∷ peers))
            (setup_peers allocate now (suc src) x1 peers) _ (setup_peers-Fronts (suc src) x1 peers)
            (λ (x2, peers2, outs) (log', fronts). (
              (log'.0 ∙ log.0, log'.1 ∙ log.1),
              Fronts-cons src p p1 peers peers2 out outs front fronts,
            )))
