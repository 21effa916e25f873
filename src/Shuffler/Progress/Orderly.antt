-- ===== src/Shuffler/Progress/Orderly.antt =====
-- When a turn of `Shuffler::Progress` signals that the data can be extracted, and when it is done.
use rapidsmpf.Prelude.{
  ℕ, ◌+◌, ◌≡◌, refl, sym, ap, ◌∙◌, subst, Bool, true, false, not, ◌&&◌, if◌then◌else◌, arith,
  Bool-cases, inl, inr,
}
use rapidsmpf.Prelude.Result.{ok, >>=-eq-ok, ok-injective}
use rapidsmpf.Shuffler.Finish.{all_finished}
use rapidsmpf.Shuffler.Outbox.{Shuffler, extract_ready}
use rapidsmpf.Shuffler.Progress.{
  Exchange, State, Others, between, none_queued, convert_chunks_to_messages, receive_messages,
  submit_outgoing, process_communication, flush, conclude, containers_empty, is_finished, turn,
}

-- Other threads do not call `insert_finished` during the turn. Once it has been called, they queue
-- nothing more, nor do they take from the queue; and neither what has been received nor the end of
-- the activity is undone.
pub record LeavesFinish (others : Others) : Type 0 where
  pub finished :
      (k : ℕ) (s : Shuffler) (a : Bool) → (others k (s, a)).0.locally_finished ≡ s.locally_finished
  pub queue :
      (k : ℕ) (s : Shuffler) (a : Bool)
      → s.locally_finished ≡ true
      → none_queued (others k (s, a)).0.to_send ≡ none_queued s.to_send
  pub received :
      (k : ℕ) (s : Shuffler) (a : Bool)
      → all_finished s.inbox.finish_counter ≡ true
      → all_finished (others k (s, a)).0.inbox.finish_counter ≡ true

module _ {M : Type 0} (x : Exchange M) (owner : ℕ → ℕ) where
  -- The parts of the state that only the end of a turn changes.
  record SameSignals (t t' : State M) : Type 0 where
    pub callbacks : t'.callbacks ≡ t.callbacks
    pub can_extract : t'.can_extract ≡ t.can_extract
    pub called : t'.mpe_finish_called ≡ t.mpe_finish_called

  same_signals :
      (t t' : State M) (s : Shuffler) (m : M)
      → record t { shuffler = s; exchange = m } ≡ t'
      → SameSignals t t'
  same_signals t t' s m e = record {
    callbacks = ap (λ z. z.callbacks) (sym e);
    can_extract = ap (λ z. z.can_extract) (sym e);
    called = ap (λ z. z.mpe_finish_called) (sym e);
  }

  submit_outgoing-same : (t t1 : State M) → submit_outgoing x owner t ≡ ok t1 → SameSignals t t1
  unfolding submit_outgoing
  submit_outgoing-same t t1 e =
      elim (Bool-cases (none_queued (extract_ready t.shuffler.to_send).0)) [
        | inl q ↦
            let e' = rw (q, submit_outgoing) at e in
            same_signals t t1 t.shuffler t.exchange (ok-injective e')
        | inr q ↦
            let e' = rw (q, submit_outgoing) at e in
            let (ms, _, e1) =
              >>=-eq-ok
                (convert_chunks_to_messages owner t.shuffler.rank
                  (extract_ready t.shuffler.to_send).0)
                _ e' in
            let (m, _, e2) = >>=-eq-ok (x.send t.exchange ms) _ e1 in
            same_signals t t1 _ m (ok-injective e2)
      ]

  process_communication-same :
      (t t1 : State M) → process_communication x owner t ≡ ok t1 → SameSignals t t1
  unfolding process_communication
  process_communication-same t t1 e =
      let (m, _, e1) = >>=-eq-ok (x.progress t.exchange) _ e in
      let ((m', ms), _, e2) = >>=-eq-ok (x.recv m) _ e1 in
      let (s, _, e3) = >>=-eq-ok (receive_messages owner t.shuffler ms) _ e2 in
      same_signals t t1 _ m' (ok-injective e3)

  -- The callback has been called exactly when the data can be extracted, and by then the exchange
  -- knows that no more messages come.
  pub record IsOrderly (t : State M) : Type 0 where
    pub once : t.callbacks ≡ (if t.can_extract then 1 else 0)
    pub told : t.can_extract ≡ true → t.mpe_finish_called ≡ true

  -- Every chunk has been received, and nothing is left to send.
  abbrev pub IsComplete : State M → Type 0
  IsComplete t =
      (t.shuffler.locally_finished ≡ true)
      × (all_finished t.shuffler.inbox.finish_counter ≡ true)
      × (x.is_idle t.exchange ≡ true)
      × (none_queued t.shuffler.to_send ≡ true)

  -- What a turn that ends in `t'` and answers `done` promises.
  abbrev pub Ending : State M → Bool → Type 0
  Ending t' done =
      IsOrderly t' × (done ≡ true → (t'.active ≡ false) × IsComplete t' × (t'.can_extract ≡ true))

  all_three : (a b c : Bool) → (not a && b && c) ≡ true → (a ≡ false) × (b ≡ true) × (c ≡ true)
  all_three a b c e = ground arith

  both : (a b : Bool) → (a && b) ≡ true → (a ≡ true) × (b ≡ true)
  both a b e = ground arith

  already : (a b c : Bool) → (not a && b && c) ≡ false → b ≡ true → c ≡ true → a ≡ true
  already a b c e f g = ground arith

  first : (n : ℕ) (b : Bool) → n ≡ (if b then 1 else 0) → b ≡ false → n + 1 ≡ 1
  first n b e u = ground arith

  module _ (others : Others) (calm : LeavesFinish others) where
    same_finished :
        (k : ℕ) (t : State M)
        → (between others k t).shuffler.locally_finished ≡ t.shuffler.locally_finished
    unfolding between
    same_finished k t = calm.finished k t.shuffler t.active

    same_queue :
        (k : ℕ) (t : State M)
        → t.shuffler.locally_finished ≡ true
        → none_queued (between others k t).shuffler.to_send ≡ none_queued t.shuffler.to_send
    unfolding between
    same_queue k t h = calm.queue k t.shuffler t.active h

    still_received :
        (k : ℕ) (t : State M)
        → all_finished t.shuffler.inbox.finish_counter ≡ true
        → all_finished (between others k t).shuffler.inbox.finish_counter ≡ true
    unfolding between
    still_received k t h = calm.received k t.shuffler t.active h

    -- The state in which a turn reaches its last part.
    flushed :
        (t t' : State M)
        → flush x owner others t ≡ ok t'
        → (t'.callbacks ≡ t.callbacks)
          × (t'.can_extract ≡ t.can_extract)
          × (t.mpe_finish_called ≡ true → t'.mpe_finish_called ≡ true)
          × (t'.shuffler.locally_finished ≡ true
              → none_queued t'.shuffler.to_send ≡ true
              → t'.mpe_finish_called ≡ true)
    unfolding flush between
    flushed t t' e =
        let t1 = between others 2 t in
        elim (Bool-cases (
          not t.mpe_finish_called
          && t.shuffler.locally_finished
          && none_queued t1.shuffler.to_send)) [
            | inl c ↦
                let e' = rw (c, flush) at e in
                let (m, _, e1) = >>=-eq-ok (x.finish t1.exchange) _ e' in
                let r : record t1 { exchange = m; mpe_finish_called = true } ≡ t' =
                  ok-injective e1 in
                (
                  ap (λ z. z.callbacks) (sym r),
                  ap (λ z. z.can_extract) (sym r),
                  λ _. ap (λ z. z.mpe_finish_called) (sym r),
                  λ _ _. ap (λ z. z.mpe_finish_called) (sym r),
                )
            | inr c ↦
                let e' = rw (c, flush) at e in
                let r : t1 ≡ t' = ok-injective e' in
                (
                  ap (λ z. z.callbacks) (sym r),
                  ap (λ z. z.can_extract) (sym r),
                  λ h. ap (λ z. z.mpe_finish_called) (sym r) ∙ h,
                  λ f q.
                      ap (λ z. z.mpe_finish_called) (sym r)
                      ∙ already t.mpe_finish_called t.shuffler.locally_finished
                          (none_queued t1.shuffler.to_send) c
                          (sym (same_finished 2 t) ∙ ap (λ z. z.shuffler.locally_finished) r ∙ f)
                          (ap (λ z. none_queued z.shuffler.to_send) r ∙ q),
                )
          ]

    concluded :
        (t : State M)
        → t.callbacks ≡ (if t.can_extract then 1 else 0)
        → (t.can_extract ≡ true → t.mpe_finish_called ≡ true)
        → (t.shuffler.locally_finished ≡ true
            → none_queued t.shuffler.to_send ≡ true
            → t.mpe_finish_called ≡ true)
        → Ending (conclude x owner others t).0 (conclude x owner others t).1
    unfolding conclude containers_empty is_finished between
    concluded t once told flushed =
        let t1 = between others 3 t in
        let t2 = between others 4 t1 in
        let t3 = between others 5 t2 in
        let t4 = between others 6 t3 in
        let empty = x.is_idle t.exchange && none_queued t1.shuffler.to_send in
        let fin = t2.shuffler.locally_finished && all_finished t3.shuffler.inbox.finish_counter in
        let ended : fin ≡ true
            → (t1.shuffler.locally_finished ≡ true)
              × (t2.shuffler.locally_finished ≡ true)
              × (t3.shuffler.locally_finished ≡ true)
              × (t4.shuffler.locally_finished ≡ true) =
          λ f.
            let l2 = (both t2.shuffler.locally_finished _ f).0 in
            let l3 = same_finished 5 t2 ∙ l2 in
            (sym (same_finished 4 t1) ∙ l2, l2, l3, same_finished 6 t3 ∙ l3) in
        let calls : fin ≡ true → empty ≡ true → t.mpe_finish_called ≡ true = λ f q.
          let l = sym (same_finished 3 t) ∙ (ended f).0 in
          flushed l (sym (same_queue 3 t l) ∙ (both (x.is_idle t.exchange) _ q).1) in
        let complete : fin ≡ true → empty ≡ true → IsComplete t4 = λ f q.
          let (l1, l2, l3, l4) = ended f in
          let (idle, none_left) = both (x.is_idle t.exchange) _ q in
          (
            l4,
            still_received 6 t3 (both t2.shuffler.locally_finished _ f).1,
            idle,
            same_queue 6 t3 l3 ∙ same_queue 5 t2 l2 ∙ same_queue 4 t1 l1 ∙ none_left,
          ) in
        elim (Bool-cases (not t4.can_extract && fin && empty)) [
          | inl c ↦
              let (unset, f, q) = all_three t4.can_extract fin empty c in
              rw (c, conclude)
                (
                  record {
                    once = first t.callbacks t.can_extract once unset;
                    told = λ _. calls f q;
                  },
                  λ d. ((all_three t4.active fin empty d).0, complete f q, refl),
                )
          | inr c ↦
              rw (c, conclude)
                (
                  record { once = once; told = told },
                  λ d.
                      let (idle, f, q) = all_three t4.active fin empty d in
                      (idle, complete f q, already t4.can_extract fin empty c f q),
                )
        ]

    -- Other threads act anywhere within the turn, but for `insert_finished`, and after it has been
    -- called they neither queue chunks nor take them. A turn that returns then keeps the callback
    -- from being called twice, or before the exchange has been told that no more messages come. When it
    -- says that the shuffler is done, the shuffler is inactive and locally finished, every chunk has
    -- been received, nothing is left to send, and the data can be extracted.
    pub turn-IsOrderly :
        (t t' : State M) (done : Bool)
        → IsOrderly t
        → turn x owner others t ≡ ok (t', done)
        → IsOrderly t'
          × (done ≡ true → (t'.active ≡ false) × IsComplete t' × (t'.can_extract ≡ true))
    unfolding turn between
    turn-IsOrderly t t' done v e =
        let (t1, p1, e1) = >>=-eq-ok (submit_outgoing x owner t) _ e in
        let (t2, p2, e2) = >>=-eq-ok (process_communication x owner (between others 0 t1)) _ e1 in
        let (t3, p3, e3) = >>=-eq-ok (flush x owner others (between others 1 t2)) _ e2 in
        let a = submit_outgoing-same t t1 p1 in
        let b = process_communication-same (between others 0 t1) t2 p2 in
        let (c1, c2, c3, c4) = flushed (between others 1 t2) t3 p3 in
        let r : conclude x owner others t3 ≡ (t', done) = ok-injective e3 in
        let end =
          concluded t3
            (c1
              ∙ b.callbacks
              ∙ a.callbacks
              ∙ v.once
              ∙ ap (λ z. if z then 1 else 0) (sym (c2 ∙ b.can_extract ∙ a.can_extract)))
            (λ h.
              c3
                (b.called ∙ a.called ∙ v.told (sym a.can_extract ∙ sym b.can_extract ∙ sym c2 ∙ h)))
            c4 in
        subst (λ y. Ending y.0 y.1) r end
