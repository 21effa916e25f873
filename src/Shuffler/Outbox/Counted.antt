-- ===== src/Shuffler/Outbox/Counted.antt =====
-- What `insert` and `insert_finished` of shuffler.cpp queue for the other ranks.
use rapidsmpf.Prelude.{
  ℕ, zero, suc, ◌+◌, ◌%◌, ◌^◌, ◌<◌, ◌≡◌, ◌≢◌, refl, sym, ap, ◌∙◌, inl, inr, List, [], ◌∷◌, ◌++◌,
  Bool, true, false, not, ◌&&◌, arith, ltb, ◌==◌, ==_iff, if◌then◌else◌, Bool-cases, get_or, set,
  replicate, length, length-set, length-replicate,
}
use rapidsmpf.Prelude.Result.{Result, ok, err, expects-eq-ok, ok-injective}
use rapidsmpf.Memory.Resource.{BufferResource}
use rapidsmpf.Memory.Types.{MemoryType}
use rapidsmpf.Shuffler.Chunk.{Chunk, from_finished_partition, is_control_message}
use rapidsmpf.Shuffler.Outbox.{
  Shuffler, get_new_cid, insert_chunk, announce, announce_from, after_insert, may_send, counted,
  deliver, new_shuffler,
}

-- The weight, by the announced number, of the queued chunks whose partition belongs to rank `q`.
abbrev pub to_rank : (ℕ → ℕ) → (ℕ → ℕ) → ℕ → List Chunk → ℕ
to_rank owner w q [] = 0
to_rank owner w q (c ∷ cs) =
    (if owner c.part_id == q then w c.expected_num_chunks else 0) + to_rank owner w q cs

-- Weights: data messages, control messages, all messages and announced messages.
abbrev pub is_data : ℕ → ℕ
is_data n = if ltb 0 n then 0 else 1

abbrev pub is_control : ℕ → ℕ
is_control n = if ltb 0 n then 1 else 0

abbrev pub any_message : ℕ → ℕ
any_message n = 1

abbrev pub announces : ℕ → ℕ
announces n = n

to_rank-snoc :
    (owner w : ℕ → ℕ) (q : ℕ) (cs : List Chunk) (c : Chunk)
    → to_rank owner w q (cs ++ c ∷ [])
      ≡ to_rank owner w q cs + (if owner c.part_id == q then w c.expected_num_chunks else 0)
to_rank-snoc owner w q [] c = omega arith
to_rank-snoc owner w q (x ∷ xs) c = omega (arith, to_rank-snoc owner w q xs c)

not_equal : (a b c : ℕ) → (a == b) ≡ true → c ≢ b → (a == c) ≡ false
not_equal a b c e h = elim (Bool-cases (a == c)) [
  | inl f ↦ absurd (h (sym ((==_iff a c).0 f) ∙ (==_iff a b).0 e))
  | inr f ↦ f
]

pub get_or-set :
    (xs : List ℕ) (i v q d : ℕ)
    → q < length xs
    → get_or (set xs i v) q d ≡ (if i == q then v else get_or xs q d)
get_or-set [] i v q d h = absurd (omega arith)
get_or-set (x ∷ xs) zero v zero d h = refl
get_or-set (x ∷ xs) zero v (suc q) d h = ground arith
get_or-set (x ∷ xs) (suc i) v zero d h = ground arith
get_or-set (x ∷ xs) (suc i) v (suc q) d h = get_or-set xs i v q d (omega arith) ∙ ground arith

module _ (owner : ℕ → ℕ) (sendable : ℕ → List MemoryType) where
  -- The counters of the other ranks tell how many data messages have been queued for them.
  pub record IsTallied (s : Shuffler) : Type 0 where
    pub tallied :
        (q : ℕ)
        → q < length s.outbound_chunk_counter
        → q ≢ s.rank
        → get_or s.outbound_chunk_counter q 0 ≡ to_rank owner is_data q s.to_send % 2 ^ 64

  n-ne-sn : (n : ℕ) → suc n ≢ n
  n-ne-sn n e = absurd (omega (arith, e))

  delivered :
      (s : Shuffler) (c : Chunk) (w : ℕ → ℕ) (q : ℕ)
      → q ≢ s.rank
      → (to_rank owner w q (deliver owner sendable s c).0.to_send
          ≡ to_rank owner w q s.to_send
            + (if owner c.part_id == q then w c.expected_num_chunks else 0))
        × ((deliver owner sendable s c).0.rank ≡ s.rank)
        × ((deliver owner sendable s c).0.total_num_partitions ≡ s.total_num_partitions)
        × ((deliver owner sendable s c).0.outbound_chunk_counter ≡ s.outbound_chunk_counter)
  unfolding deliver
  delivered s c w q h = elim (Bool-cases (owner c.part_id == s.rank)) [
    | inl e ↦
        rw (e, deliver)
          (rw (not_equal (owner c.part_id) s.rank q e h) (omega arith), refl, refl, refl)
    | inr e ↦ rw (e, deliver) (to_rank-snoc owner w q s.to_send c, refl, refl, refl)
  ]

  count_step :
      (a x y : ℕ) (b : Bool)
      → a ≡ x % 2 ^ 64
      → y ≡ x + (if b then 1 else 0)
      → (if b then (a + 1) % 2 ^ 64 else a) ≡ y % 2 ^ 64
  count_step a x y b h e = ground arith

  counted-get :
      (c : Chunk) (counts : List ℕ) (q : ℕ)
      → q < length counts
      → get_or (counted owner sendable c counts) q 0 ≡ (
          if owner c.part_id == q && not (is_control_message c)
          then (get_or counts q 0 + 1) % 2 ^ 64
          else get_or counts q 0)
  unfolding counted
  counted-get c counts q h = elim (Bool-cases (is_control_message c)) [
    | inl e ↦ rw (e, counted) (ground arith)
    | inr e ↦
        rw (e, counted)
          (get_or-set counts (owner c.part_id) _ q 0 h ∙ elim (Bool-cases (owner c.part_id == q)) [
            | inl f ↦ rw (f, (==_iff _ _).0 f) refl
            | inr f ↦ rw f refl
          ])
  ]

  length-counted :
      (c : Chunk) (counts : List ℕ) → length (counted owner sendable c counts) ≡ length counts
  unfolding counted
  length-counted c counts = elim (Bool-cases (is_control_message c)) [
    | inl e ↦ rw (e, counted) refl
    | inr e ↦ rw (e, counted) (length-set counts _ _)
  ]

  data_weight :
      (c : Chunk) (q : ℕ)
      → (if owner c.part_id == q then is_data c.expected_num_chunks else 0)
        ≡ (if owner c.part_id == q && not (is_control_message c) then 1 else 0)
  unfolding is_control_message
  data_weight c q = ground arith

  counted-IsTallied :
      (s t : Shuffler) (c : Chunk)
      → IsTallied s
      → t.outbound_chunk_counter ≡ counted owner sendable c s.outbound_chunk_counter
      → t.rank ≡ s.rank
      → ((q : ℕ)
          → q ≢ s.rank
          → to_rank owner is_data q t.to_send
            ≡ to_rank owner is_data q s.to_send
              + (if owner c.part_id == q then is_data c.expected_num_chunks else 0))
      → IsTallied t
  counted-IsTallied s t c v counts rank sent = record {
    tallied = λ q lt other.
        let far : q ≢ s.rank = λ e. other (e ∙ sym rank) in
        let lt' : q < length s.outbound_chunk_counter =
          omega (arith, ap length counts, length-counted c s.outbound_chunk_counter, lt) in
        ap (λ l. get_or l q 0) counts
        ∙ counted-get c s.outbound_chunk_counter q lt'
        ∙ count_step _ _ _ (owner c.part_id == q && not (is_control_message c))
            (v.tallied q lt' far)
            (sent q far ∙ ap (λ n. to_rank owner is_data q s.to_send + n) (data_weight c q));
  }

  -- Inserting a chunk, of either kind, for any rank, and also when it is rejected or its
  -- reception throws, keeps the tally: a data message is counted exactly when it is queued.
  pub insert_chunk-IsTallied :
      (s : Shuffler) (c : Chunk) → IsTallied s → IsTallied (insert_chunk owner sendable s c).0
  unfolding insert_chunk
  insert_chunk-IsTallied s c v = elim (Bool-cases (may_send owner sendable s c)) [
    | inr e ↦ rw (e, insert_chunk) v
    | inl e ↦
        let s1 : Shuffler = record s {
          outbound_chunk_counter = counted owner sendable c s.outbound_chunk_counter;
        } in
        let t : Shuffler = (deliver owner sendable s1 c).0 in
        rw (e, insert_chunk)
          (counted-IsTallied s t c v (delivered s1 c is_data _ (n-ne-sn s.rank)).3
            (delivered s1 c is_data _ (n-ne-sn s.rank)).1
            (λ q far. (delivered s1 c is_data q far).0))
  ]

  -- What announcing `n` messages to the owner of `pid` queues for rank `q`.
  announce-sent :
      (s : Shuffler) (pid n : ℕ) (w : ℕ → ℕ) (q : ℕ)
      → q ≢ s.rank
      → (to_rank owner w q (announce owner sendable s pid n).0.to_send
          ≡ to_rank owner w q s.to_send + (if owner pid == q then w ((n + 1) % 2 ^ 64) else 0))
        × ((announce owner sendable s pid n).0.rank ≡ s.rank)
        × ((announce owner sendable s pid n).0.total_num_partitions ≡ s.total_num_partitions)
  unfolding announce insert_chunk may_send get_new_cid from_finished_partition
  announce-sent s pid n w q h =
      let c : Chunk = from_finished_partition (get_new_cid s).1 pid ((n + 1) % 2 ^ 64) in
      let s' : Shuffler = record (get_new_cid s).0 {
        outbound_chunk_counter = counted owner sendable c s.outbound_chunk_counter;
      } in
      let (a, b, d, _) = delivered s' c w q h in (a, b, d)

  -- What the rest of the loop queues for rank `q`.
  abbrev pub loop_sends : (ℕ → ℕ) → List ℕ → ℕ → ℕ → List ℕ → ℕ → ℕ
  loop_sends w reps total r [] q = 0
  loop_sends w reps total r (n ∷ counts) q =
      (if not (get_or reps r total == total) && owner (get_or reps r total) == q
        then w ((n + 1) % 2 ^ 64)
        else 0)
      + loop_sends w reps total (suc r) counts q

  pub after_insert-ok :
      (x : Shuffler × Result (Unit {0})) (k : Shuffler → Shuffler × Result (Unit {0}))
      → (after_insert x k).1 ≡ ok tt
      → (after_insert x k ≡ k x.0) × ((k x.0).1 ≡ ok tt)
  unfolding after_insert
  after_insert-ok (s, ok u) k e = (refl, e)
  after_insert-ok (s, err x) k e = cc

  pub announce_from-sent :
      (reps : List ℕ) (r : ℕ) (counts : List ℕ) (s : Shuffler) (w : ℕ → ℕ) (q : ℕ)
      → q ≢ s.rank
      → (announce_from owner sendable reps r counts s).1 ≡ ok tt
      → to_rank owner w q (announce_from owner sendable reps r counts s).0.to_send
        ≡ to_rank owner w q s.to_send + loop_sends w reps s.total_num_partitions r counts q
  unfolding announce_from
  announce_from-sent reps r [] s w q h e = omega arith
  announce_from-sent reps r (n ∷ counts) s w q h e =
      elim (Bool-cases (get_or reps r s.total_num_partitions == s.total_num_partitions)) [
        | inl z ↦
            let e' = rw (z, announce_from) at e in
            rw (z, announce_from) (announce_from-sent reps (suc r) counts s w q h e' ∙ omega arith)
        | inr z ↦
            let pid = get_or reps r s.total_num_partitions in
            let x = announce owner sendable s pid n in
            let e' = rw (z, announce_from) at e in
            let (same, e2) =
              after_insert-ok x (announce_from owner sendable reps (suc r) counts) e' in
            let (a, b, c) = announce-sent s pid n w q h in
            rw (z, announce_from)
              (ap (λ y. to_rank owner w q y.0.to_send) same
                ∙ announce_from-sent reps (suc r) counts x.0 w q (λ f. h (f ∙ b)) e2
                ∙ ap (λ t. to_rank owner w q x.0.to_send + loop_sends w reps t (suc r) counts q) c
                ∙ omega (arith, a))
      ]

  no_messages : (n q : ℕ) → ◌≡◌ {A = ℕ} (get_or (replicate n 0) q 0) 0
  no_messages zero q = refl
  no_messages (suc n) zero = refl
  no_messages (suc n) (suc q) = no_messages n q

  -- A new shuffler has a counter for each rank, and they are tallied.
  new_shuffler-IsTallied :
      (rank nranks total : ℕ) (br : BufferResource) (s : Shuffler)
      → new_shuffler owner sendable rank nranks total br ≡ ok s
      → IsTallied s × (length s.outbound_chunk_counter ≡ nranks)
  unfolding new_shuffler
  new_shuffler-IsTallied rank nranks total br s e =
      let (_, e1) = expects-eq-ok (ltb 0 total) _ _ e in
      let e2 = ok-injective e1 in
      let counts : s.outbound_chunk_counter ≡ replicate nranks 0 =
        ap (λ z. z.outbound_chunk_counter) (sym e2) in
      let queue : s.to_send ≡ [] = ap (λ z. z.to_send) (sym e2) in
      (
        record {
          tallied = λ q _ _.
              ap (λ l. get_or l q 0) counts
              ∙ no_messages nranks q
              ∙ ap (λ l. to_rank owner is_data q l % 2 ^ 64) (sym queue);
        },
        ap length counts ∙ length-replicate nranks 0,
      )
