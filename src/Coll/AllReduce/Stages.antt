-- ===== src/Coll/AllReduce/Stages.antt =====
-- Where a rank of an allreduce stands, cpp/src/coll/allreduce.cpp: in each phase, what its buffers
-- and its futures hold. Every turn of the rank leads from one of these states to another.
use rapidsmpf.Prelude.{
  ℕ, zero, suc, ◌+◌, ◌-◌, ◌*◌, ◌/◌, ◌%◌, ◌^◌, ◌≤◌, ◌<◌, ◌≡◌, ◌≢◌, refl, ap, sym, ◌∙◌, subst, ltb,
  leb, ◌==◌, leb→le, if◌then◌else◌, Option, none, some, arith, Bool, true, false, Bool-cases, inl,
  inr, ◌⊎◌,
}
use rapidsmpf.Prelude.Result.{ok, err}
use rapidsmpf.Coll.AllReduce.{
  AllReduce, Phase, Plan, Sending, Receiving, Turned, stage_rank, logical_rank_of,
  start_pre_remainder, complete_pre_remainder, start_butterfly, complete_butterfly,
  start_post_remainder, complete_post_remainder, done, result_available, pre_remainder_start,
  pre_remainder_complete, butterfly_start, butterfly_complete, post_remainder_start,
  post_remainder_complete, exchange_with, at_phase, once, stay,
}
use rapidsmpf.Coll.AllReduce.Partners.{
  flip, block, bit_xor-flip, block_half, block-flip, flip-lt, block-zero, stage_rank-ltb,
}
use rapidsmpf.Coll.AllReduce.Value.{
  combined, base, AllCarry, logical_rank_of-stage_rank, Carries-first, Carries-last, Carries-stage,
}

-- What has arrived, if anything has.
abbrev pub Arrives {ℓ} : {A : Type ℓ} → A → Option A → Type ℓ
Arrives b none = Unit
Arrives b (some b') = b' ≡ b

pow_lt : (k m : ℕ) → k < m → 2 ^ k < 2 ^ m
pow_lt zero zero h = absurd (omega arith)
pow_lt zero (suc m) h = omega (arith, pow_pos m)
  where
    pow_pos : (j : ℕ) → 0 < 2 ^ j
    pow_pos zero = omega arith
    pow_pos (suc j) = omega (arith, pow_pos j)
pow_lt (suc k) zero h = absurd (omega arith)
pow_lt (suc k) (suc m) h = omega (arith, pow_lt k m (omega arith))

lt_or_eq : (k m : ℕ) → k ≤ m → (k < m) ⊎ (k ≡ m)
lt_or_eq k m h = omega arith

all_stages : (k m : ℕ) → k ≤ m → leb (2 ^ m) (2 ^ k) ≡ true → k ≡ m
all_stages k m h over = elim (lt_or_eq k m h) [
  | inl lt ↦ absurd (omega (arith, leb→le _ _ over, pow_lt k m lt))
  | inr same ↦ same
]

more_stages : (k m : ℕ) → k ≤ m → leb (2 ^ m) (2 ^ k) ≡ false → k < m
more_stages k m h more = elim (lt_or_eq k m h) [
  | inl lt ↦ lt
  | inr same ↦ absurd (leb_self (2 ^ m) (subst (λ j. leb (2 ^ m) (2 ^ j) ≡ false) same more))
]
  where
    leb_self : (n : ℕ) → leb n n ≡ false → ⊥
    leb_self n e = ground arith

module _ {A : Type 0} (op : A → A → A) (x : ℕ → A) (rem stages : ℕ) (callback : Bool) where
  abbrev pub plan_at : ℕ → Plan
  plan_at r = record {
    rank = r;
    logical_rank = logical_rank_of r rem;
    nearest_pow2 = 2 ^ stages;
    non_pow2_remainder = rem;
  }

  -- A rank before its end.
  abbrev pub at :
      ℕ
      → Phase
      → Option A
      → Option A
      → ℕ
      → ℕ
      → Option (Sending A)
      → Option (Receiving A)
      → AllReduce A
  at r phase input output mask partner send recv = record {
    plan = plan_at r;
    in_buffer = input;
    out_buffer = output;
    phase = phase;
    active = true;
    finished_callback = callback;
    callback_calls = 0;
    stage_mask = mask;
    stage_partner = partner;
    send_future = send;
    recv_future = recv;
  }

  abbrev pub sending : A → Bool → Option (Sending A)
  sending b sent = some (record { content = b; is_sent = sent })

  abbrev pub receiving : ℕ → Option A → Option (Receiving A)
  receiving source arrived = some (record { source = source; arrived = arrived })

  abbrev pub total : A
  total = combined op x rem stages 0

  pub data Stands (r : ℕ) (a : AllReduce A) : Type 0 where
    pre_starts :
        (i : A) (p : ℕ)
        → r < 2 * rem
        → a ≡ at r start_pre_remainder (some i) (some (x r)) 1 p none none
        → Stands r a
    pre_sends :
        (i : A) (p : ℕ) (sent : Bool)
        → r < 2 * rem
        → r % 2 ≡ 0
        → a ≡ at r complete_pre_remainder (some i) none 1 p (sending (x r) sent) none
        → Stands r a
    pre_receives :
        (p : ℕ) (arrived : Option A)
        → r < 2 * rem
        → r % 2 ≡ 1
        → Arrives (x (r - 1)) arrived
        → a ≡ at r complete_pre_remainder none (some (x r)) 1 p none (receiving (r - 1) arrived)
        → Stands r a
    stage_starts :
        (i : A) (p k l : ℕ)
        → k ≤ stages
        → l < 2 ^ stages
        → r ≡ stage_rank rem l
        → a
          ≡ at r start_butterfly
              (some i)
              (some (combined op x rem k (block k l)))
              (2 ^ k)
              p
              none
              none
        → Stands r a
    stage_exchanges :
        (k l : ℕ) (sent : Bool) (arrived : Option A)
        → k < stages
        → l < 2 ^ stages
        → r ≡ stage_rank rem l
        → Arrives (combined op x rem k (block k (flip k l))) arrived
        → a
          ≡ at r complete_butterfly none none
              (2 ^ k)
              (stage_rank rem (flip k l))
              (sending (combined op x rem k (block k l)) sent)
              (receiving (stage_rank rem (flip k l)) arrived)
        → Stands r a
    post_starts :
        (i b : A) (m p : ℕ)
        → r < 2 * rem
        → (r % 2 ≡ 1 → b ≡ total)
        → a ≡ at r start_post_remainder (some i) (some b) m p none none
        → Stands r a
    post_receives :
        (i : A) (m p : ℕ) (arrived : Option A)
        → r < 2 * rem
        → r % 2 ≡ 0
        → Arrives total arrived
        → a ≡ at r complete_post_remainder (some i) none m p none (receiving (r + 1) arrived)
        → Stands r a
    post_sends :
        (i : A) (m p : ℕ) (sent : Bool)
        → r < 2 * rem
        → r % 2 ≡ 1
        → a ≡ at r complete_post_remainder (some i) none m p (sending total sent) none
        → Stands r a
    ends : (i : A) (m p : ℕ) → a ≡ at r done (some i) (some total) m p none none → Stands r a
    has_ended :
        (i : A) (m p : ℕ)
        → a ≡ record (at r result_available (some i) (some total) m p none none) {
          finished_callback = false;
          callback_calls = 0 + (if callback then 1 else 0);
        }
        → Stands r a

  -- A turn returns, and leads to such a state with messages that carry what they should.
  abbrev pub Turns : ℕ → Turned A → Type 0
  Turns r (err e) = ⊥
  Turns r (ok t) = Stands r t.0 × AllCarry op x rem stages t.1

  Turns-to :
      (r : ℕ) {a b : AllReduce A}
      → a ≡ b
      → (f : AllReduce A → Turned A) → Turns r (f b)
      → Turns r (f a)
  Turns-to r e f t = subst (λ c. Turns r (f c)) (sym e) t

  pre_starts-turn :
      (r : ℕ) (od id : Bool) (i : A) (p : ℕ)
      → r < 2 * rem
      → Turns r
          (pre_remainder_start od id (at r start_pre_remainder (some i) (some (x r)) 1 p none none))
  unfolding pre_remainder_start
  pre_starts-turn r false id i p low = (pre_starts i p low refl, tt)
  pre_starts-turn r true id i p low = elim (Bool-cases (r % 2 == 0)) [
    | inl even ↦ rw even (
      pre_sends i p false low (ground arith) refl,
      (Carries-first op x rem stages r low (ground arith), tt),
    )
    | inr odd ↦
        rw odd
          (elim id
            as (λ b. Turns r (
              once b (at r start_pre_remainder (some i) (some (x r)) 1 p none none) (
                stay (
                  at r complete_pre_remainder none (some (x r)) 1 p none
                    (receiving (r - 1) none))))) [
                      | true ↦ (pre_receives p none low (ground arith) tt refl, tt)
                      | false ↦ (pre_starts i p low refl, tt)
                    ])
  ]

  pre_sends-turn :
      (r : ℕ) (i : A) (p : ℕ) (sent : Bool)
      → r < 2 * rem
      → r % 2 ≡ 0
      → Turns r (
          pre_remainder_complete op
            (at r complete_pre_remainder (some i) none 1 p (sending (x r) sent) none))
  unfolding pre_remainder_complete
  pre_sends-turn r i p false low even = rw even (pre_sends i p false low even refl, tt)
  pre_sends-turn r i p true low even =
      rw even (post_starts i (x r) 1 p low (λ odd. absurd (omega arith)) refl, tt)

  -- The pair of the first two contributions.
  pair_value :
      (r : ℕ)
      → r < 2 * rem
      → r % 2 ≡ 1
      → op (x (r - 1)) (x r) ≡ combined op x rem 0 (block 0 (r / 2))
  unfolding combined base block
  pair_value r low odd =
      let below : ltb (r / 2) rem ≡ true = ground arith in
      let left : 2 * (r / 2) ≡ r - 1 = omega arith in
      let right : r - 1 + 1 ≡ r = omega arith in rw (below, left, right) refl

  pre_receives-turn :
      (r p : ℕ) (arrived : Option A)
      → rem ≤ 2 ^ stages
      → r < 2 * rem
      → r % 2 ≡ 1
      → Arrives (x (r - 1)) arrived
      → Turns r (
          pre_remainder_complete op
            (at r complete_pre_remainder none (some (x r)) 1 p none (receiving (r - 1) arrived)))
  unfolding pre_remainder_complete stage_rank
  pre_receives-turn r p none few low odd h = rw odd (pre_receives p none low odd tt refl, tt)
  pre_receives-turn r p (some b) few low odd h =
      rw (odd, h)
        (
          stage_starts (x (r - 1)) p 0 (r / 2) (omega arith) (omega arith) (ground arith) (
              ap (λ v. at r start_butterfly (some (x (r - 1))) (some v) 1 p none none)
                (pair_value r low odd)),
          tt,
        )

  at_end : (k l : ℕ) → k ≡ stages → l < 2 ^ stages → combined op x rem k (block k l) ≡ total
  at_end k l e fits =
      ap (λ j. combined op x rem j (block j l)) e
      ∙ ap (combined op x rem stages) (block-zero stages l fits)

  -- Both transfers of a stage begin.
  exchange-turn :
      (od id : Bool) (i : A) (k l : ℕ)
      → k < stages
      → l < 2 ^ stages
      → Turns (stage_rank rem l) (
          exchange_with od id (
            at
              (stage_rank rem l)
              start_butterfly
              (some i)
              (some (combined op x rem k (block k l)))
              (2 ^ k)
              (stage_rank rem (flip k l))
              none
              none))
  unfolding exchange_with
  exchange-turn false id i k l below fits =
      (stage_starts i (stage_rank rem (flip k l)) k l (omega arith) fits refl refl, tt)
  exchange-turn true false i k l below fits =
      (stage_starts i (stage_rank rem (flip k l)) k l (omega arith) fits refl refl, tt)
  exchange-turn true true i k l below fits = (
    stage_exchanges k l false none below fits refl tt refl,
    (Carries-stage op x rem stages k l below fits, tt),
  )

  -- The stages are over, or the next one begins.
  stages_over-turn :
      (i : A) (p k l : ℕ)
      → k ≡ stages
      → l < 2 ^ stages
      → Stands (stage_rank rem l) (
          at
            (stage_rank rem l)
            (if ltb (stage_rank rem l) (2 * rem) then start_post_remainder else done)
            (some i)
            (some (combined op x rem k (block k l)))
            (2 ^ k)
            p
            none
            none)
  stages_over-turn i p k l e fits = elim (Bool-cases (ltb (stage_rank rem l) (2 * rem))) [
    | inl low ↦ rw low (
        post_starts i (combined op x rem k (block k l)) (2 ^ k) p (ground arith)
          (λ _. at_end k l e fits) refl)
    | inr high ↦ rw high (
        ends i (2 ^ k) p (
          ap (λ v. at (stage_rank rem l) done (some i) (some v) (2 ^ k) p none none)
            (at_end k l e fits)))
  ]

  stage_starts-turn :
      (od id : Bool) (i : A) (p k l : ℕ)
      → stages < 32
      → k ≤ stages
      → l < 2 ^ stages
      → Turns (stage_rank rem l) (
          butterfly_start od id (
            at
              (stage_rank rem l)
              start_butterfly
              (some i)
              (some (combined op x rem k (block k l)))
              (2 ^ k)
              p
              none
              none))
  unfolding butterfly_start
  stage_starts-turn od id i p k l few at_most fits = elim (Bool-cases (leb (2 ^ stages) (2 ^ k))) [
    | inl over ↦ rw over (stages_over-turn i p k l (all_stages k stages at_most over) fits, tt)
    | inr more ↦ rw more (
        rw (logical_rank_of-stage_rank op x rem l) (
          rw (bit_xor-flip 32 k l (omega arith) (omega (arith, pow_lt stages 32 few))) (
            rw (logical_rank_of-stage_rank op x rem l) at
              (exchange-turn od id i k l (more_stages k stages at_most more) fits))))
  ]

  -- The halves of a block of the next stage, combined in their order.
  halves :
      (k c : ℕ)
      → (if c % 2 == 1
          then op (combined op x rem k (flip 0 c)) (combined op x rem k c)
          else op (combined op x rem k c) (combined op x rem k (flip 0 c)))
        ≡ combined op x rem (suc k) (c / 2)
  unfolding combined flip
  halves k c = elim (Bool-cases (c % 2 == 0)) [
    | inl even ↦
        let e : c % 2 ≡ 0 = ground arith in
        let l : c ≡ 2 * (c / 2) = omega arith in
        rw e (ap (λ v. op (combined op x rem k v) (combined op x rem k (v + 1))) l)
    | inr odd ↦
        let e : c % 2 ≡ 1 = ground arith in
        let l : c - 1 ≡ 2 * (c / 2) = omega arith in
        let r : c ≡ 2 * (c / 2) + 1 = omega arith in
        rw e (
          ap (λ v. op (combined op x rem k v) (combined op x rem k c)) l
          ∙ ap (λ v. op (combined op x rem k (2 * (c / 2))) (combined op x rem k v)) r)
  ]

  merged :
      (k l : ℕ) (b : A)
      → b ≡ combined op x rem k (block k (flip k l))
      → (if ltb (stage_rank rem (flip k l)) (stage_rank rem l)
          then op b (combined op x rem k (block k l))
          else op (combined op x rem k (block k l)) b)
        ≡ combined op x rem (suc k) (block (suc k) l)
  merged k l b h =
      rw (h, stage_rank-ltb rem (flip k l) l, flip-lt k l, block-flip k l, block_half k l)
        (halves k (block k l))

  stage_begins :
      (i v : A) (m p k l : ℕ)
      → k ≤ stages
      → l < 2 ^ stages
      → v ≡ combined op x rem k (block k l)
      → m ≡ 2 ^ k
      → Stands
          (stage_rank rem l)
          (at (stage_rank rem l) start_butterfly (some i) (some v) m p none none)
  stage_begins i v m p k l at_most fits e e' =
      rw (e, e') (stage_starts i p k l at_most fits refl refl)

  stage_exchanges-turn :
      (k l : ℕ) (sent : Bool) (arrived : Option A)
      → k < stages
      → l < 2 ^ stages
      → Arrives (combined op x rem k (block k (flip k l))) arrived
      → Turns (stage_rank rem l) (
          butterfly_complete op (
            at
              (stage_rank rem l)
              complete_butterfly
              none
              none
              (2 ^ k)
              (stage_rank rem (flip k l))
              (sending (combined op x rem k (block k l)) sent)
              (receiving (stage_rank rem (flip k l)) arrived)))
  unfolding butterfly_complete
  stage_exchanges-turn k l sent none below fits h =
      (stage_exchanges k l sent none below fits refl tt refl, tt)
  stage_exchanges-turn k l false (some b) below fits h =
      (stage_exchanges k l false (some b) below fits refl h refl, tt)
  stage_exchanges-turn k l true (some b) below fits h =
      (stage_begins _ _ (2 * 2 ^ k) _ (suc k) l below fits (merged k l b h) (omega arith), tt)

  post_starts-turn :
      (r : ℕ) (od : Bool) (i b : A) (m p : ℕ)
      → r < 2 * rem
      → (r % 2 ≡ 1 → b ≡ total)
      → Turns r
          (post_remainder_start od (at r start_post_remainder (some i) (some b) m p none none))
  unfolding post_remainder_start
  post_starts-turn r false i b m p low h = (post_starts i b m p low h refl, tt)
  post_starts-turn r true i b m p low h = elim (Bool-cases (r % 2 == 0)) [
    | inl even ↦ rw even (post_receives i m p none low (ground arith) tt refl, tt)
    | inr odd ↦
        let right : r % 2 ≡ 1 = ground arith in
        rw (odd, h right)
          (post_sends i m p false low right refl, (Carries-last op x rem stages r low right, tt))
  ]

  post_receives-turn :
      (r : ℕ) (i : A) (m p : ℕ) (arrived : Option A)
      → r < 2 * rem
      → r % 2 ≡ 0
      → Arrives total arrived
      → Turns r (
          post_remainder_complete
            (at r complete_post_remainder (some i) none m p none (receiving (r + 1) arrived)))
  unfolding post_remainder_complete
  post_receives-turn r i m p none low even h =
      rw even (post_receives i m p none low even tt refl, tt)
  post_receives-turn r i m p (some b) low even h = rw (even, h) (ends i m p refl, tt)

  post_sends-turn :
      (r : ℕ) (i : A) (m p : ℕ) (sent : Bool)
      → r < 2 * rem
      → r % 2 ≡ 1
      → Turns r (
          post_remainder_complete
            (at r complete_post_remainder (some i) none m p (sending total sent) none))
  unfolding post_remainder_complete
  post_sends-turn r i m p false low odd = rw odd (post_sends i m p false low odd refl, tt)
  post_sends-turn r i m p true low odd = rw odd (ends i m p refl, tt)

  -- A turn of a rank that has not ended.
  pub phase-turn :
      (r : ℕ) (od id : Bool) (a : AllReduce A)
      → stages < 32
      → rem ≤ 2 ^ stages
      → Stands r a
      → (a.phase ≢ done)
      → (a.phase ≢ result_available)
      → Turns r (at_phase op od id a.phase a)
  unfolding at_phase
  phase-turn r od id a few less (pre_starts i p low e) nd na =
      Turns-to r e (λ c. at_phase op od id c.phase c) (pre_starts-turn r od id i p low)
  phase-turn r od id a few less (pre_sends i p sent low even e) nd na =
      Turns-to r e (λ c. at_phase op od id c.phase c) (pre_sends-turn r i p sent low even)
  phase-turn r od id a few less (pre_receives p arrived low odd h e) nd na =
      Turns-to r e (λ c. at_phase op od id c.phase c) (pre_receives-turn r p arrived less low odd h)
  phase-turn r od id a few less (stage_starts i p k l at_most fits same e) nd na =
      Turns-to r e (λ c. at_phase op od id c.phase c)
        (rw same (stage_starts-turn od id i p k l few at_most fits))
  phase-turn r od id a few less (stage_exchanges k l sent arrived below fits same h e) nd na =
      Turns-to r e (λ c. at_phase op od id c.phase c)
        (rw same (stage_exchanges-turn k l sent arrived below fits h))
  phase-turn r od id a few less (post_starts i b m p low h e) nd na =
      Turns-to r e (λ c. at_phase op od id c.phase c) (post_starts-turn r od i b m p low h)
  phase-turn r od id a few less (post_receives i m p arrived low even h e) nd na =
      Turns-to r e (λ c. at_phase op od id c.phase c)
        (post_receives-turn r i m p arrived low even h)
  phase-turn r od id a few less (post_sends i m p sent low odd e) nd na =
      Turns-to r e (λ c. at_phase op od id c.phase c) (post_sends-turn r i m p sent low odd)
  phase-turn r od id a few less (ends i m p e) nd na = absurd (nd (ap (λ c. c.phase) e))
  phase-turn r od id a few less (has_ended i m p e) nd na = absurd (na (ap (λ c. c.phase) e))
