-- ===== src/Coll/AllReduce/Agreement.antt =====
-- What the ranks of an allreduce hold in the end, cpp/src/coll/allreduce.cpp, whatever the order of
-- their turns and of the arrivals, and whatever the operator.
use rapidsmpf.Prelude.{
  ℕ, ◌+◌, ◌-◌, ◌*◌, ◌^◌, ◌≤◌, ◌<◌, ◌≡◌, refl, ap, sym, ◌∙◌, subst, ltb, ◌==◌, ==_iff, ltb→lt,
  if◌then◌else◌, List, [], ◌∷◌, ◌++◌, Option, none, some, arith, Bool, true, false, Bool-cases, inl,
  inr,
}
use rapidsmpf.Prelude.Bits.{bit_floor}
use rapidsmpf.Prelude.Result.{Result, ok, err, ok-injective, expects-eq-ok, ◌>>=◌}
use rapidsmpf.Memory.Types.{MemoryType, same_type}
use rapidsmpf.Coll.AllReduce.{
  AllReduce, Phase, Message, event_loop, finished, is_available, plan_of, create, first_state,
  stage_rank, start_butterfly,
}
use rapidsmpf.Coll.AllReduce.Partners.{block}
use rapidsmpf.Coll.AllReduce.Value.{combined, base, AllCarry}
use rapidsmpf.Coll.AllReduce.Stages.{
  at, plan_at, pre_starts, pre_sends, pre_receives, stage_starts, stage_exchanges, post_starts,
  post_receives, post_sends, ends, has_ended,
}
use rapidsmpf.Coll.AllReduce.Settled.{
  Settled, Evented, AllCarry-append, event_loop-Evented, complete_receive-Settled,
  complete_send-Settled, is_done, not_done,
}
use rapidsmpf.Coll.AllReduce.Cluster.{
  Cluster, Move, turn, arrival, departure, update, take_turn, step, run,
}

module _ {A : Type 0} (op : A → A → A) (x : ℕ → A) (rem stages : ℕ) (callback : Bool) (n : ℕ) where
  -- Every rank stands in one of its states, and all messages carry what they should.
  pub record Agrees (c : Cluster A) : Type 0 where
    pub ranks_settled : (r : ℕ) → r < n → Settled op x rem stages callback r (c.ranks r)
    pub mail_carries : AllCarry op x rem stages c.mail

  update-Settled :
      (ranks : ℕ → AllReduce A) (r : ℕ) (a : AllReduce A)
      → ((s : ℕ) → s < n → Settled op x rem stages callback s (ranks s))
      → Settled op x rem stages callback r a
      → (s : ℕ) → s < n
      → Settled op x rem stages callback s (update ranks r a s)
  unfolding update
  update-Settled ranks r a all h s lt = elim (Bool-cases (s == r)) [
    | inl same ↦
        rw same (subst (λ q. Settled op x rem stages callback q a) (sym ((==_iff s r).0 same)) h)
    | inr other ↦ rw other (all s lt)
  ]

  abbrev AgreesAfter : Result (Cluster A) → Type 0
  AgreesAfter (err e) = ⊥
  AgreesAfter (ok c) = Agrees c

  take_turn-Agrees :
      (r : ℕ) (od id : Bool) (c : Cluster A)
      → stages < 32
      → rem ≤ 2 ^ stages
      → r < n
      → Agrees c
      → AgreesAfter (take_turn op r od id c)
  unfolding take_turn
  take_turn-Agrees r od id c few less lt g = elim (Bool-cases (finished (c.ranks r))) [
    | inl over ↦ rw over g
    | inr running ↦ rw running (
        moved (event_loop op od id (c.ranks r)) (
          event_loop-Evented op x rem stages callback r od id (c.ranks r) few less
            (g.ranks_settled r lt) running))
  ]
    where
      moved :
          (e : Result (AllReduce A × List (Message A) × Bool))
          → Evented op x rem stages callback r e
          → AgreesAfter
              (e >>= λ e. ok (record { ranks = update c.ranks r e.0; mail = c.mail ++ e.1 }))
      moved (err e) h = h
      moved (ok e) h = record {
        ranks_settled = update-Settled c.ranks r e.0 g.ranks_settled h.0;
        mail_carries = AllCarry-append op x rem stages callback c.mail e.1 g.mail_carries h.1;
      }

  step-Agrees :
      (c : Cluster A) (m : Move)
      → stages < 32
      → rem ≤ 2 ^ stages
      → Agrees c
      → AgreesAfter (step op n c m)
  unfolding step
  step-Agrees c (turn r od id) few less g = elim (Bool-cases (ltb r n)) [
    | inl here ↦ rw here (take_turn-Agrees r od id c few less (ltb→lt r n here) g)
    | inr away ↦ rw away g
  ]
  step-Agrees c (arrival r) few less g = elim (Bool-cases (ltb r n)) [
    | inl here ↦
        let h =
          complete_receive-Settled op x rem stages callback c.mail r (c.ranks r)
            (g.ranks_settled r (ltb→lt r n here)) g.mail_carries in
        rw here (record {
          ranks_settled = update-Settled c.ranks r _ g.ranks_settled h.0;
          mail_carries = h.1;
        })
    | inr away ↦ rw away g
  ]
  step-Agrees c (departure r) few less g = elim (Bool-cases (ltb r n)) [
    | inl here ↦ rw here (record {
      ranks_settled = update-Settled c.ranks r _ g.ranks_settled (
          complete_send-Settled op x rem stages callback r (c.ranks r)
            (g.ranks_settled r (ltb→lt r n here)));
      mail_carries = g.mail_carries;
    })
    | inr away ↦ rw away g
  ]

  pub run-Agrees :
      (c : Cluster A) (ms : List Move)
      → stages < 32
      → rem ≤ 2 ^ stages
      → Agrees c
      → (c' : Cluster A) × (run op n c ms ≡ ok c') × Agrees c'
  unfolding run
  run-Agrees c [] few less g = (c, refl, g)
  run-Agrees c (m ∷ ms) few less g =
      onwards (λ d. run-Agrees d ms few less) (step op n c m) (step-Agrees c m few less g)
    where
      onwards :
          ((d : Cluster A) → Agrees d → (c' : Cluster A) × (run op n d ms ≡ ok c') × Agrees c')
          → (s : Result (Cluster A)) → AgreesAfter s
          → (c' : Cluster A) × ((s >>= λ d. run op n d ms) ≡ ok c') × Agrees c'
      onwards later (err e) h = absurd h
      onwards later (ok d) h = later d h

  unavailable : (p q : Phase) → p ≡ q → is_available q ≡ false → is_available p ≡ true → ⊥
  unavailable p q e f t = let w : true ≡ false = sym t ∙ (ap is_available e ∙ f) in cc

  -- A rank that has finished holds the reduction, and its callback, if it had one, was called once.
  pub finished-result :
      (r : ℕ) (a : AllReduce A)
      → Settled op x rem stages callback r a
      → finished a ≡ true
      → (a.out_buffer ≡ some (combined op x rem stages 0))
        × (a.callback_calls ≡ (if callback then 1 else 0))
  unfolding finished is_available
  finished-result r a (pre_starts i p low e, o) f =
      absurd (unavailable _ _ (ap (λ b. b.phase) e) refl f)
  finished-result r a (pre_sends i p sent low even e, o) f =
      absurd (unavailable _ _ (ap (λ b. b.phase) e) refl f)
  finished-result r a (pre_receives p arrived low odd h e, o) f =
      absurd (unavailable _ _ (ap (λ b. b.phase) e) refl f)
  finished-result r a (stage_starts i p k l at_most fits same e, o) f =
      absurd (unavailable _ _ (ap (λ b. b.phase) e) refl f)
  finished-result r a (stage_exchanges k l sent arrived below fits same h e, o) f =
      absurd (unavailable _ _ (ap (λ b. b.phase) e) refl f)
  finished-result r a (post_starts i b m p low h e, o) f =
      absurd (unavailable _ _ (ap (λ b. b.phase) e) refl f)
  finished-result r a (post_receives i m p arrived low even h e, o) f =
      absurd (unavailable _ _ (ap (λ b. b.phase) e) refl f)
  finished-result r a (post_sends i m p sent low odd e, o) f =
      absurd (unavailable _ _ (ap (λ b. b.phase) e) refl f)
  finished-result r a (ends i m p e, o) f = absurd (unavailable _ _ (ap (λ b. b.phase) e) refl f)
  finished-result r a (has_ended i m p e, o) f =
      (ap (λ b. b.out_buffer) e, ap (λ b. b.callback_calls) e ∙ omega arith)

  plan-at :
      (r : ℕ)
      → bit_floor 32 n ≡ 2 ^ stages
      → n ≡ 2 ^ stages + rem
      → plan_of r n ≡ plan_at op x rem stages callback r
  unfolding plan_of
  plan-at r floor sum = let left : n - 2 ^ stages ≡ rem = omega arith in rw (floor, left) refl

  first_state-Settled :
      (r : ℕ)
      → n ≡ 2 ^ stages + rem
      → r < n
      → Settled op x rem stages callback r
          (first_state (plan_at op x rem stages callback r) (x r) callback)
  unfolding first_state stage_rank combined base block is_done
  first_state-Settled r sum lt = elim (Bool-cases (ltb r (2 * rem))) [
    | inl low ↦ rw low (pre_starts (x r) 0 (ltb→lt _ _ low) refl, not_done _ refl)
    | inr high ↦
        let apart : 2 * rem ≤ r = ground arith in
        let alone : ltb (r - rem) rem ≡ false = ground arith in
        let back : r - rem + rem ≡ r = omega arith in
        rw high (
          stage_starts (x r) 0 0 (r - rem) (omega arith) (omega arith) (ground arith) (
              ap
                (λ v.
                  at op x rem stages callback r start_butterfly (some (x r)) (some v) 1 0 none none)
                (rw (alone, back) refl)),
          not_done _ refl,
        )
  ]

  -- The constructor makes a rank that stands at the start.
  pub create-Settled :
      (size : A → ℕ) (mem_type : A → MemoryType) (r : ℕ) (output : Option A) (a : AllReduce A)
      → bit_floor 32 n ≡ 2 ^ stages
      → n ≡ 2 ^ stages + rem
      → r < n
      → create size mem_type r n (some (x r)) output callback ≡ ok a
      → Settled op x rem stages callback r a
  unfolding create
  create-Settled size mem_type r none a floor sum lt e = absurd (let w = e in cc)
  create-Settled size mem_type r (some o) a floor sum lt e =
      let checked = expects-eq-ok (size (x r) == size o) _ _ e in
      let made = expects-eq-ok (same_type (mem_type (x r)) (mem_type o)) _ _ checked.1 in
      subst (Settled op x rem stages callback r) (ok-injective made.1) (
        subst (λ p. Settled op x rem stages callback r (first_state p (x r) callback))
          (sym (plan-at r floor sum)) (first_state-Settled r sum lt))
