-- ===== src/Shuffler/Outbox/Announced.antt =====
-- The control messages that `insert_finished` of shuffler.cpp sends.
use rapidsmpf.Prelude.{
  ℕ, zero, suc, ◌+◌, ◌%◌, ◌^◌, ◌<◌, ◌≤◌, ◌≡◌, ◌≢◌, refl, sym, ap, ◌∙◌, ◌⊎◌, inl, inr, List, [], ◌∷◌,
  true, false, not, ◌&&◌, arith, ◌==◌, ==_iff, if◌then◌else◌, Bool-cases, get_or, replicate, length,
  length-set, length-replicate,
}
use rapidsmpf.Prelude.Result.{Result, ok, err}
use rapidsmpf.Memory.Types.{MemoryType}
use rapidsmpf.Shuffler.Chunk.{Chunk}
use rapidsmpf.Shuffler.Outbox.{
  Shuffler, insert_finished, announce_from, representatives, after_insert,
}
use rapidsmpf.Shuffler.Outbox.Counted.{
  to_rank, is_data, is_control, any_message, announces, get_or-set, IsTallied, loop_sends,
  after_insert-ok, announce_from-sent,
}

get_or-replicate : (n i d : ℕ) → get_or (replicate n d) i d ≡ d
get_or-replicate zero i d = refl
get_or-replicate (suc n) zero d = refl
get_or-replicate (suc n) (suc i) d = get_or-replicate n i d

not_own : (a b : ℕ) → a ≢ b → (a == b) ≡ false
not_own a b h = elim (Bool-cases (a == b)) [ inl e ↦ absurd (h ((==_iff a b).0 e)) | inr e ↦ e ]

own : (a b : ℕ) → a ≡ b → (a == b) ≡ true
own a b h = (==_iff a b).1 h

every_message :
    (owner : ℕ → ℕ) (q : ℕ) (cs : List Chunk)
    → to_rank owner any_message q cs ≡ to_rank owner is_data q cs + to_rank owner is_control q cs
every_message owner q [] = refl
every_message owner q (c ∷ cs) = ground (arith, every_message owner q cs)

nothing_announced :
    (owner : ℕ → ℕ) (q : ℕ) (cs : List Chunk)
    → to_rank owner is_control q cs ≡ 0
    → to_rank owner announces q cs ≡ 0
nothing_announced owner q [] h = refl
nothing_announced owner q (c ∷ cs) h = ground (arith, nothing_announced owner q cs)

returned :
    (x : Shuffler × Result (Unit {0})) (k : Shuffler → Shuffler × Result (Unit {0}))
    → (after_insert x k).1 ≡ ok tt
    → x.1 ≡ ok tt
unfolding after_insert
returned (s, ok tt) k e = refl
returned (s, err x) k e = cc

module _ (owner : ℕ → ℕ) (sendable : ℕ → List MemoryType) where
  length-representatives :
      (s : Shuffler) (n : ℕ) → length (representatives owner sendable s n) ≡ s.nranks
  unfolding representatives
  length-representatives s zero = length-replicate s.nranks s.total_num_partitions
  length-representatives s (suc n) =
      length-set (representatives owner sendable s n) (owner n) n ∙ length-representatives s n

  -- Below `n`, rank `q` owns nothing and has no representative, or is represented by one of its own.
  abbrev pub Represents : ℕ → ℕ → ℕ → ℕ → Type 0
  Represents rep total n q =
      ((rep ≡ total) × ((p : ℕ) → p < n → owner p ≢ q)) ⊎ ((rep < n) × (owner rep ≡ q))

  representatives-Represents :
      (s : Shuffler) (n q : ℕ)
      → q < s.nranks
      → Represents
          (get_or (representatives owner sendable s n) q s.total_num_partitions)
          s.total_num_partitions
          n
          q
  unfolding representatives
  representatives-Represents s zero q h =
      inl (get_or-replicate s.nranks q s.total_num_partitions, λ p lt. absurd (omega arith))
  representatives-Represents s (suc n) q h =
      let reps = representatives owner sendable s n in
      let g =
        get_or-set reps (owner n) n q s.total_num_partitions
          (omega (arith, length-representatives s n)) in
      elim (Bool-cases (owner n == q)) [
        | inl e ↦ inr (rw (g, e) (omega arith), rw (g, e) ((==_iff _ _).0 e))
        | inr e ↦
            rw (g, e)
              (elim (representatives-Represents s n q h) [
                | inl (z, nobody) ↦ inl (z, λ p lt. others n q nobody e p lt)
                | inr (lt, mine) ↦ inr (omega arith, mine)
              ])
      ]
    where
      others :
          (n q : ℕ)
          → ((p : ℕ) → p < n → owner p ≢ q)
          → (owner n == q) ≡ false
          → (p : ℕ) → p < suc n
          → owner p ≢ q
      others n q nobody e p lt f = elim (Bool-cases (p == n)) [
        | inl same ↦
            let e' = ap owner ((==_iff p n).0 same) in let t = own (owner n) q (sym e' ∙ f) in cc
        | inr other ↦ nobody p (below p n lt other) f
      ]
        where
          below : (p n : ℕ) → p < suc n → (p == n) ≡ false → p < n
          below p n lt other = ground arith

  abbrev pub AllRepresent : List ℕ → ℕ → Type 0
  AllRepresent reps total =
      (r : ℕ) → r < length reps → Represents (get_or reps r total) total total r

  sends_nothing :
      (w : ℕ → ℕ) (reps : List ℕ) (total r n q : ℕ)
      → Represents (get_or reps r total) total total r
      → r ≢ q
      → (if not (get_or reps r total == total) && owner (get_or reps r total) == q
          then w ((n + 1) % 2 ^ 64)
          else 0)
        ≡ 0
  sends_nothing w reps total r n q (inl (z, _)) h = rw (own (get_or reps r total) total z) refl
  sends_nothing w reps total r n q (inr (lt, mine)) h =
      rw (not_own (owner (get_or reps r total)) q (λ e. h (sym mine ∙ e))) (ground arith)

  loop_sends-above :
      (w : ℕ → ℕ) (reps : List ℕ) (total r : ℕ) (counts : List ℕ) (q : ℕ)
      → AllRepresent reps total
      → q < r
      → r + length counts ≤ length reps
      → loop_sends owner sendable w reps total r counts q ≡ 0
  loop_sends-above w reps total r [] q v h le = refl
  loop_sends-above w reps total r (n ∷ counts) q v h le =
      let a = sends_nothing w reps total r n q (v r (omega arith)) (λ e. absurd (omega arith)) in
      let b = loop_sends-above w reps total (suc r) counts q v (omega arith) (omega arith) in
      omega (arith, a, b)

  loop_sends-at :
      (w : ℕ → ℕ) (reps : List ℕ) (total r : ℕ) (counts : List ℕ) (k p : ℕ)
      → AllRepresent reps total
      → k < length counts
      → r + length counts ≤ length reps
      → p < total
      → owner p ≡ r + k
      → loop_sends owner sendable w reps total r counts (r + k)
        ≡ w ((get_or counts k 0 + 1) % 2 ^ 64)
  loop_sends-at w reps total r [] k p v h le lt mine = absurd (omega arith)
  loop_sends-at w reps total r (n ∷ counts) zero p v h le lt mine = elim (v r (omega arith)) [
    | inl (_, nobody) ↦ absurd (nobody p lt (mine ∙ omega arith))
    | inr (less, its) ↦
        let rest =
          loop_sends-above w reps total (suc r) counts (r + 0) v (omega arith) (omega arith) in
        rw
          (
            not_own (get_or reps r total) total (λ e. absurd (omega arith)),
            own (owner (get_or reps r total)) (r + 0) (its ∙ omega arith),
          )
          (omega (arith, rest))
  ]
  loop_sends-at w reps total r (n ∷ counts) (suc k) p v h le lt mine =
      let a =
        sends_nothing w reps total r n (r + suc k) (v r (omega arith))
          (λ e. absurd (omega arith)) in
      let b =
        loop_sends-at w reps total (suc r) counts k p v (omega arith) (omega arith) lt
          (mine ∙ omega arith) in
      omega (arith, a, ap (loop_sends owner sendable w reps total (suc r) counts) (eq r k), b)
    where
      eq : (r k : ℕ) → r + suc k ≡ suc r + k
      eq r k = omega arith

  -- What a call of `insert_finished` that returns has queued for the owner of partition `p`.
  finished-sent :
      (s : Shuffler) (w : ℕ → ℕ) (p : ℕ)
      → length s.outbound_chunk_counter ≡ s.nranks
      → (insert_finished owner sendable s).1 ≡ ok tt
      → p < s.total_num_partitions
      → owner p < s.nranks
      → owner p ≢ s.rank
      → to_rank owner w (owner p) (insert_finished owner sendable s).0.to_send
        ≡ to_rank owner w (owner p) s.to_send
          + w ((get_or s.outbound_chunk_counter (owner p) 0 + 1) % 2 ^ 64)
  unfolding insert_finished
  finished-sent s w p len done lt small far =
      let reps = representatives owner sendable s s.total_num_partitions in
      let x = announce_from owner sendable reps 0 s.outbound_chunk_counter s in
      let (same, _) = after_insert-ok owner sendable x _ done in
      let done' : x.1 ≡ ok tt = returned x _ done in
      let n = length-representatives s s.total_num_partitions in
      let v : AllRepresent reps s.total_num_partitions =
        λ r h. representatives-Represents s s.total_num_partitions r (omega (arith, n, h)) in
      ap (λ y. to_rank owner w (owner p) y.0.to_send) same
      ∙ announce_from-sent owner sendable reps 0 s.outbound_chunk_counter s w (owner p) far done'
      ∙ ap (λ k. to_rank owner w (owner p) s.to_send + k)
          (ap (loop_sends owner sendable w reps s.total_num_partitions 0 s.outbound_chunk_counter)
              (zero_add (owner p))
            ∙ loop_sends-at w reps s.total_num_partitions 0 s.outbound_chunk_counter (owner p) p v
                (omega (arith, len)) (omega (arith, len, n)) lt (zero_add (owner p)))
    where
      zero_add : (n : ℕ) → n ≡ 0 + n
      zero_add n = omega arith

  -- After a call of `insert_finished` that returns, every other rank that owns a partition has
  -- been sent exactly one control message by this rank, and what it announces is the number of
  -- all messages that this rank has queued for it, itself included: given that the counters are
  -- tallied, that no control message was queued before and that fewer than 2 ^ 64 - 1 messages were.
  pub insert_finished-announces :
      (s : Shuffler) (p : ℕ)
      → IsTallied owner sendable s
      → length s.outbound_chunk_counter ≡ s.nranks
      → (insert_finished owner sendable s).1 ≡ ok tt
      → p < s.total_num_partitions
      → owner p < s.nranks
      → owner p ≢ s.rank
      → to_rank owner is_control (owner p) s.to_send ≡ 0
      → to_rank owner is_data (owner p) s.to_send + 1 < 2 ^ 64
      → let queued = (insert_finished owner sendable s).0.to_send in
        (to_rank owner is_control (owner p) queued ≡ 1)
        × (to_rank owner announces (owner p) queued ≡ to_rank owner any_message (owner p) queued)
  insert_finished-announces s p v len done lt small far none_yet few =
      let sent = λ (w : ℕ → ℕ). finished-sent s w p len done lt small far in
      let count : get_or s.outbound_chunk_counter (owner p) 0
          ≡ to_rank owner is_data (owner p) s.to_send =
        v.tallied (owner p) (omega (arith, len)) far ∙ omega (arith, few) in
      let q = owner p in
      let now = s.to_send in
      let queued = (insert_finished owner sendable s).0.to_send in
      announced_of (get_or s.outbound_chunk_counter q 0) (to_rank owner is_data q now)
        (to_rank owner is_control q now) (to_rank owner announces q now)
        (to_rank owner is_data q queued) (to_rank owner is_control q queued)
        (to_rank owner announces q queued) (to_rank owner any_message q queued) count few none_yet
        (nothing_announced owner (owner p) s.to_send none_yet) (sent is_control) (sent announces)
        (sent is_data) (every_message owner (owner p) _)
    where
      announced_of :
          (count sent control announced sent' control' announced' all' : ℕ)
          → count ≡ sent
          → sent + 1 < 2 ^ 64
          → control ≡ 0
          → announced ≡ 0
          → control' ≡ control + is_control ((count + 1) % 2 ^ 64)
          → announced' ≡ announced + (count + 1) % 2 ^ 64
          → sent' ≡ sent + is_data ((count + 1) % 2 ^ 64)
          → all' ≡ sent' + control'
          → (control' ≡ 1) × (announced' ≡ all')
      announced_of c d x a d' x' a' k e0 few ex ea e1 e2 e3 e4 =
          let m : (c + 1) % 2 ^ 64 ≡ c + 1 = omega arith in (ground (arith, m), ground (arith, m))
