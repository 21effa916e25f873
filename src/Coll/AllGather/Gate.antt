-- ===== src/Coll/AllGather/Gate.antt =====
-- The metadata messages that an allgather takes, cpp/src/coll/allgather.cpp: its own and no more.
use rapidsmpf.Prelude.{
  ℕ, zero, suc, ◌+◌, ◌^◌, ◌<◌, ◌≡◌, refl, ap, sym, ◌∙◌, inl, inr, List, [], ◌∷◌, ◌++◌, true, false,
  Bool-cases, ltb, ◌||◌, arith, length, append_assoc, append-nil,
}
use rapidsmpf.Prelude.Int.{ℤ, pos}
use rapidsmpf.Prelude.Result.{ok}
use rapidsmpf.Memory.Resource.{BufferResource}
use rapidsmpf.Coll.Chunk.{Chunk, is_finish, sequence, deserialize}
use rapidsmpf.Coll.SparseAlltoall.Arrival.{Reads, done, next, finishes, data_chunks}
use rapidsmpf.Coll.AllGather.{AllGather, decrement, mark_finish}
use rapidsmpf.Coll.AllGather.Loop.{receive_metadata, receive_chunk, needs_metadata, Sent}

abbrev sum : List ℕ → ℕ
sum [] = 0
sum (n ∷ ns) = n + sum ns

-- The messages `left` are those that the allgather still has to take: as many finish messages as
-- it misses, and the data messages that all finish messages announce.
pub record Awaits (s : AllGather) (left : List Chunk) : Type 0 where
  pub misses : s.remote_finish_counter ≡ pos (length (finishes left))
  pub announced :
      s.num_expected_messages + sum (finishes left)
      ≡ s.num_received_messages + length (data_chunks left)
  pub fits : s.num_expected_messages + sum (finishes left) < 2 ^ 64

sum_none : (ns : List ℕ) → length ns ≡ 0 → sum ns ≡ 0
sum_none [] e = refl
sum_none (n ∷ ns) e = absurd (omega (arith, e))

either : (n a b : ℕ) → (n ≡ 0 → a < b) → (ltb 0 n || ltb a b) ≡ true
either zero a b h = let lt = h refl in ground (arith, lt)
either (suc n) a b h = ground arith

needs_metadata-Awaits :
    (s : AllGather) (c : Chunk) (left : List Chunk) → Awaits s (c ∷ left) → needs_metadata s ≡ true
unfolding needs_metadata finishes data_chunks
needs_metadata-Awaits s c left v = elim (Bool-cases (is_finish c)) [
  | inl e ↦ rw v.misses (
      rw e (
        either (suc (length (finishes left))) s.num_received_messages s.num_expected_messages
          (λ z. absurd (omega (arith, z)))))
  | inr e ↦
      let announced : s.num_expected_messages + sum (finishes left)
          ≡ s.num_received_messages + suc (length (data_chunks left)) =
        rw e at v.announced in
      rw v.misses (
        rw e (
          either (length (finishes left)) s.num_received_messages s.num_expected_messages
            (λ z. omega (arith, announced, sum_none (finishes left) z))))
]

-- With nothing left, nothing is needed.
nothing_needed : (s : AllGather) → Awaits s [] → needs_metadata s ≡ false
unfolding needs_metadata finishes data_chunks
nothing_needed s v =
    let same : s.num_expected_messages ≡ s.num_received_messages = omega (arith, v.announced) in
    rw (v.misses, same) (not_below s.num_received_messages)
  where
    not_below : (n : ℕ) → ltb n n ≡ false
    not_below n = ground arith

one_fewer : (z : ℤ) (n : ℕ) → z ≡ pos (suc n) → decrement z ≡ pos n
one_fewer z n e = rw e refl

received-Awaits :
    (s : AllGather) (br : BufferResource) (c : Chunk) (left : List Chunk)
    → Awaits s (c ∷ left)
    → Awaits (receive_chunk (record s { br = br }) c).0 left
unfolding receive_chunk finishes data_chunks mark_finish
received-Awaits s br c left v = elim (Bool-cases (is_finish c)) [
  | inl e ↦
      let misses : s.remote_finish_counter ≡ pos (suc (length (finishes left))) =
        rw e at v.misses in
      let announced : s.num_expected_messages + (sequence c + sum (finishes left))
          ≡ s.num_received_messages + length (data_chunks left) =
        rw e at v.announced in
      let fits : s.num_expected_messages + (sequence c + sum (finishes left)) < 2 ^ 64 =
        rw e at v.fits in
      rw (e, receive_chunk)
        (record {
          misses = one_fewer s.remote_finish_counter (length (finishes left)) misses;
          announced = omega (arith, announced, fits);
          fits = omega (arith, fits);
        })
  | inr e ↦
      let misses : s.remote_finish_counter ≡ pos (length (finishes left)) = rw e at v.misses in
      let announced : s.num_expected_messages + sum (finishes left)
          ≡ s.num_received_messages + suc (length (data_chunks left)) =
        rw e at v.announced in
      let fits : s.num_expected_messages + sum (finishes left) < 2 ^ 64 = rw e at v.fits in
      rw (e, receive_chunk)
        (record { misses = misses; announced = omega (arith, announced, fits); fits = fits })
]

received-keeps :
    (s : AllGather) (br : BufferResource) (c : Chunk) (cs : List Chunk)
    → ((receive_chunk (record s { br = br }) c).0.br ≡ br)
      × ((receive_chunk (record s { br = br }) c).0.to_receive ++ data_chunks cs
          ≡ s.to_receive ++ data_chunks (c ∷ cs))
unfolding receive_chunk data_chunks mark_finish
received-keeps s br c cs = elim (Bool-cases (is_finish c)) [
  | inl e ↦ rw (e, receive_chunk) (refl, refl)
  | inr e ↦ rw (e, receive_chunk) (refl, append_assoc s.to_receive (c ∷ []) (data_chunks cs))
]

none_queued : (cs : List Chunk) → cs ≡ cs ++ data_chunks []
unfolding data_chunks
none_queued cs = sym (append-nil cs)

stops :
    (s : AllGather) (later : List (List ℕ))
    → needs_metadata s ≡ false
    → receive_metadata s later ≡ ok (s, [], later)
unfolding receive_metadata
stops s [] e = refl
stops s (m ∷ later) e = rw e refl

taken :
    (s : AllGather) (ms later : List (List ℕ)) (cs : List Chunk) (br br' : BufferResource)
    → s.br ≡ br
    → Reads br ms cs br'
    → Awaits s cs
    → (s' : AllGather) × ((out : List Sent) × ((receive_metadata s (ms ++ later)
            ≡ ok (s', out, later))
          × ((needs_metadata s' ≡ false) × (s'.to_receive ≡ s.to_receive ++ data_chunks cs))))
unfolding receive_metadata
taken s _ later _ _ _ same (done br) v =
    let enough = nothing_needed s v in
    (s, ([], (stops s later enough, (enough, none_queued s.to_receive))))
taken s _ later _ _ _ same
      (next {br = br} {br1 = br1} {br2 = br2} {m = m} {ms = ms} {c = c} {cs = cs} e reads) v =
    let (s1, out1) = receive_chunk (record s { br = br1 }) c in
    let (home, queue) = received-keeps s br1 c cs in
    let (s', (out, (run, (enough, queued)))) =
      taken s1 ms later cs br1 br2 home reads (received-Awaits s br1 c cs v) in
    let read : deserialize m s.br ≡ ok (br1, c) = ap (deserialize m) same ∙ e in
    (
      s',
      (
        out1 ++ out,
        (rw (needs_metadata-Awaits s c cs v, read, run) refl, (enough, queued ∙ queue)),
      ),
    )

-- An allgather takes the metadata messages of its own, in whatever order the finish messages and
-- the data messages come, and leaves all that follow them in the mail, so that a later allgather may use the
-- same operation id: the data messages are queued in their order, and nothing more is needed.
pub receive_metadata-own :
    (s : AllGather) (ms later : List (List ℕ)) (cs : List Chunk) (br' : BufferResource)
    → Reads s.br ms cs br'
    → Awaits s cs
    → (s' : AllGather) × ((out : List Sent) × ((receive_metadata s (ms ++ later)
            ≡ ok (s', out, later))
          × ((needs_metadata s' ≡ false) × (s'.to_receive ≡ s.to_receive ++ data_chunks cs))))
receive_metadata-own s ms later cs br' reads v = taken s ms later cs s.br br' refl reads v
