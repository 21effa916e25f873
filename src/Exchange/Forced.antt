-- ===== src/Exchange/Forced.antt =====
-- A forced allocation of tag.cpp gives a buffer to one message and leaves every queue in its order.
use rapidsmpf.Prelude.{
  ℕ, zero, suc, ◌+◌, ◌≡◌, refl, ap, sym, ◌∙◌, subst, ◌⊎◌, inl, inr, Option, none, some, List, [],
  ◌∷◌, ◌++◌, Bool-cases, Option-cases, some-injective, ltb, map, map-set, arith, get_elem?, set,
}
use rapidsmpf.Prelude.Result.{Holds, >>=-Holds, if-Holds}
use rapidsmpf.Shuffler.Outbox.{may_fail, must_succeed}
use rapidsmpf.Exchange.{TagExchange, TagMessage, Peer, AllocateBufferFn, is_awaiting_buffer}
use rapidsmpf.Exchange.Receive.{try_attach_receive_buffer}
use rapidsmpf.Exchange.Transfer.{
  first_awaiting, older, at_rank, oldest_awaiting, force_attach, force_at, force_oldest, is_stalled,
  force_allocation_progress_if_stalled,
}
use rapidsmpf.Exchange.Arrivals.{
  queued, in_flight, line, pending, pending_at, SameLog, SameQueues, Attached, try_attach-Attached,
}

first_awaiting-at :
    (i : ℕ) (ms : List TagMessage) (j : ℕ) (m : TagMessage)
    → first_awaiting i ms ≡ some (j, m)
    → (k : ℕ) × ((j ≡ i + k) × (get_elem? ms k ≡ some m))
unfolding first_awaiting
first_awaiting-at i [] j m e = absurd (let w = e in cc)
first_awaiting-at i (n ∷ ms) j m e = elim (Bool-cases (is_awaiting_buffer n)) [
  | inl q ↦
      let w : ◌≡◌ {A = ℕ × TagMessage} (i, n) (j, m) = some-injective (rw q at e) in
      (0, (omega (arith, ap (λ z. z.0) w), ap (λ z. some z.1) w))
  | inr q ↦
      let (k, (p, at)) = first_awaiting-at (suc i) ms j m (rw q at e) in
      (suc k, (omega (arith, p), at))
]

-- A place in the queues: a rank, a place in its incoming messages, and what stands there.
abbrev Stands : List Peer → ℕ → ℕ → TagMessage → Type 0
Stands peers r i m = (p : Peer) × ((get_elem? peers r ≡ some p) × (get_elem? p.incoming i ≡ some m))

older-cases :
    (a b : Option (ℕ × ℕ × TagMessage)) (y : ℕ × ℕ × TagMessage)
    → older a b ≡ some y
    → (a ≡ some y) ⊎ (b ≡ some y)
unfolding older
older-cases none b y e = inr e
older-cases (some a) none y e = inl e
older-cases (some (r, i, m)) (some (s, j, n)) y e = elim (Bool-cases (ltb n.arrival m.arrival)) [
  | inl q ↦ inr (rw q at e)
  | inr q ↦ inl (rw q at e)
]

at_rank-found :
    (rank : ℕ) (o : Option (ℕ × TagMessage)) (r i : ℕ) (m : TagMessage)
    → at_rank rank o ≡ some (r, i, m)
    → (r ≡ rank) × (o ≡ some (i, m))
unfolding at_rank
at_rank-found rank none r i m e = absurd (let w = e in cc)
at_rank-found rank (some (j, n)) r i m e =
    let w : ◌≡◌ {A = ℕ × ℕ × TagMessage} (rank, j, n) (r, i, m) = some-injective e in
    (ap (λ z. z.0) (sym w), ap (λ z. some (z.1, z.2)) w)

oldest_awaiting-Stands :
    (rank : ℕ) (peers : List Peer) (r i : ℕ) (m : TagMessage)
    → oldest_awaiting rank peers ≡ some (r, i, m)
    → (k : ℕ) × ((r ≡ rank + k) × Stands peers k i m)
unfolding oldest_awaiting
oldest_awaiting-Stands rank [] r i m e = absurd (let w = e in cc)
oldest_awaiting-Stands rank (p ∷ peers) r i m e =
    elim (older-cases (at_rank rank (first_awaiting 0 p.incoming)) _ _ e) [
      | inl here ↦
          let (same, found) = at_rank-found rank (first_awaiting 0 p.incoming) r i m here in
          let (k, (place, at)) = first_awaiting-at 0 p.incoming i m found in
          (
            0,
            (
              omega (arith, same),
              (p, (refl, ap (get_elem? p.incoming) (omega (arith, place)) ∙ at)),
            ),
          )
      | inr there ↦
          let (k, (at, s)) = oldest_awaiting-Stands (suc rank) peers r i m there in
          (suc k, (omega (arith, at), s))
    ]

-- A write to a rank that keeps what is pending there.
pending-set :
    (peers : List Peer) (r : ℕ) (p p' : Peer)
    → get_elem? peers r ≡ some p
    → pending p' ≡ pending p
    → (k : ℕ) → pending_at k (set peers r p') ≡ pending_at k peers
unfolding pending_at
pending-set [] r p p' at e k = refl
pending-set (q ∷ peers) zero p p' at e zero = e ∙ ap pending (sym (some-injective at))
pending-set (q ∷ peers) zero p p' at e (suc k) = refl
pending-set (q ∷ peers) (suc r) p p' at e zero = refl
pending-set (q ∷ peers) (suc r) p p' at e (suc k) = pending-set peers r p p' at e k

pending-renamed :
    (p p' : Peer) (i : ℕ) (m m' : TagMessage)
    → SameQueues p p'
    → get_elem? p.incoming i ≡ some m
    → queued m' ≡ queued m
    → pending (record p' { incoming = set p'.incoming i m' }) ≡ pending p
unfolding pending
pending-renamed p p' i m m' (inc, tra) at e =
    ap (λ ms. line p'.in_transit (set ms i m')) inc
    ∙ ap (λ ts. line ts (set p.incoming i m')) tra
    ∙ ap (λ z. map in_flight p.in_transit ++ z) (map-set queued p.incoming i m m' at e)

module _ {A : Type 0} (allocate : AllocateBufferFn A) (now : ℕ) where
  abbrev Forced : TagExchange A → Peer → TagMessage → TagExchange A × Peer × TagMessage → Type 0
  Forced x p m (x', p', m') = SameLog x x' × (SameQueues p p' × (queued m' ≡ queued m))

  force_attach-Forced :
      (x : TagExchange A) (p : Peer) (m : TagMessage)
      → Holds (Forced x p m) (force_attach allocate now x p m)
  unfolding force_attach
  force_attach-Forced x p m =
      >>=-Holds (Attached allocate now x p m) (Forced x p m)
        (try_attach_receive_buffer allocate now x p m may_fail) _
        (try_attach-Attached allocate now x p m may_fail)
        (λ (x1, p1, m1, attached) (log, (queues, same)).
          if-Holds (Forced x p m) attached _ _ (λ _. (log, (queues, same)))
            (λ _.
              >>=-Holds (Attached allocate now x1 p1 m1) (Forced x p m)
                (try_attach_receive_buffer allocate now x1 p1 m1 must_succeed) _
                (try_attach-Attached allocate now x1 p1 m1 must_succeed)
                (λ (x2, p2, m2, _) (log', (queues', same')). (
                  (log'.0 ∙ log.0, log'.1 ∙ log.1),
                  ((queues'.0 ∙ queues.0, queues'.1 ∙ queues.1), same' ∙ same),
                ))))

  -- Nothing that waits is lost, and nothing is handed out.
  abbrev pub Unmoved : TagExchange A → TagExchange A → Type 0
  Unmoved x x' =
      (x'.received_messages ≡ x.received_messages)
      × ((k : ℕ) → pending_at k x'.peers ≡ pending_at k x.peers)

  force_at-Unmoved :
      (x : TagExchange A) (r i : ℕ) (m : TagMessage) (p : Peer)
      → get_elem? x.peers r ≡ some p
      → get_elem? p.incoming i ≡ some m
      → Holds (Unmoved x) (force_at allocate now x r i m (some p))
  unfolding force_at
  force_at-Unmoved x r i m p there stands =
      >>=-Holds (Forced x p m) (Unmoved x) (force_attach allocate now x p m) _
        (force_attach-Forced x p m)
        (λ (x1, p1, m1) (log, (queues, same)).
          let p2 = record p1 { incoming = set p1.incoming i m1 } in
          (
            log.0,
            λ k.
                ap (λ peers. pending_at k (set peers r p2)) log.1
                ∙ pending-set x.peers r p p2 there (pending-renamed p p1 i m m1 queues stands same)
                    k,
          ))

  pub force-Unmoved :
      (x : TagExchange A) → Holds (Unmoved x) (force_allocation_progress_if_stalled allocate now x)
  unfolding force_allocation_progress_if_stalled force_oldest
  force-Unmoved x =
      if-Holds (Unmoved x) (is_stalled allocate now x) _ _
        (λ _. elim (Option-cases (oldest_awaiting 0 x.peers)) [
          | inl e ↦ rw e tt
          | inr ((r, i, m), e) ↦
              let (k, (at, (p, (found, stands)))) = oldest_awaiting-Stands 0 x.peers r i m e in
              let there : get_elem? x.peers r ≡ some p =
                ap (get_elem? x.peers) (omega (arith, at)) ∙ found in
              rw (e, force_oldest)
                (subst (λ o. Holds (Unmoved x) (force_at allocate now x r i m o)) (sym there)
                  (force_at-Unmoved x r i m p there stands))
        ])
        (λ _. (refl, λ k. refl))
