-- ===== src/Shuffler/Inbox/Complete.antt =====
-- When `all_finished` of finish_counter.cpp holds: exactly when every chunk has been received.
use rapidsmpf.Prelude.{
  ℕ, ◌+◌, ◌%◌, ◌^◌, ◌<◌, ◌≡◌, refl, ◌∙◌, List, [], ◌∷◌, ◌++◌, arith, length, ◌==◌, ==_iff, Bool,
  true, false, lt→ltb, subst, Bool-cases, inl, inr, ltb, if◌then◌else◌, get_or, set, length-set,
}
use rapidsmpf.Prelude.Result.{Result, ok, err}
use rapidsmpf.Shuffler.Chunk.{Chunk, is_control_message}
use rapidsmpf.Shuffler.Finish.{
  FinishCounter, create, move_goalpost, add_finished_chunk, all_finished,
}
use rapidsmpf.Shuffler.Inbox.{Inbox, ReceivedChunks, extract_rank, count, insert_into_received}
use rapidsmpf.Shuffler.Inbox.Count.{total, total_from, control, announced}
use rapidsmpf.Shuffler.Inbox.Counter.{
  IsShuffle, IsShuffle-next, controls-total, announced-total, Counts, get_or-set, create-Counts,
  goal_when_reported, none_left, finished_iff, checked,
}

-- The state between `move_goalpost` and `add_finished_chunk`.
record Moved (n : ℕ) (c : FinishCounter) (x : Chunk) (done : List Chunk) : Type 0 where
  ranks : c.nranks ≡ n
  reports : c.n_ranks_with_goalpost ≡ total control (x ∷ done)
  goal : c.total_chunk_goal ≡ total announced (x ∷ done)
  finished : c.total_finished_chunks ≡ length done
  slots : length c.rank_reported ≡ n
  reported :
      (r : ℕ)
      → r < n
      → (if get_or c.rank_reported r false then 1 else 0) ≡ total_from control r (x ∷ done)

add_finished-Counts :
    (n : ℕ) (c : FinishCounter) (x : Chunk) (done todo : List Chunk)
    → IsShuffle n (x ∷ done) todo
    → Moved n c x done
    → ((add_finished_chunk c).1 ≡ ok tt) × Counts n (add_finished_chunk c).0 (x ∷ done)
unfolding add_finished_chunk
add_finished-Counts n c x done todo v m =
    let e : (c.total_finished_chunks + 1) % 2 ^ 64 ≡ length (x ∷ done) =
      omega (arith, m.finished, v.small) in
    (
      checked c.n_ranks_with_goalpost c.nranks ((c.total_finished_chunks + 1) % 2 ^ 64)
          c.total_chunk_goal
          (λ le.
            let full = controls-total n (x ∷ done) todo v in
            let all =
              goal_when_reported n (x ∷ done) todo v
                (omega (arith, full, le, m.reports, m.ranks)) in
            omega (arith, all, e, m.goal)),
      record {
        ranks = m.ranks;
        reports = m.reports;
        goal = m.goal;
        finished = e;
        slots = m.slots;
        reported = m.reported;
      },
    )

control_positive : (x : Chunk) → is_control_message x ≡ true → (x.expected_num_chunks == 0) ≡ false
unfolding is_control_message
control_positive x is = ground arith

control_one : (x : Chunk) → is_control_message x ≡ true → control x ≡ 1
control_one x is = rw is refl

data_zero : (x : Chunk) → is_control_message x ≡ false → (control x ≡ 0) × (announced x ≡ 0)
unfolding is_control_message
data_zero x is = (rw is refl, ground arith)

same_rank : (r : ℕ) → (r == r) ≡ true
same_rank r = ground arith

-- A rank whose control message is still to come has not reported.
unreported :
    (n : ℕ) (done todo : List Chunk) (x : Chunk)
    → IsShuffle n done (x ∷ todo)
    → is_control_message x ≡ true
    → total_from control (extract_rank x.chunk_id) done ≡ 0
unreported n done todo x v is =
    let r = extract_rank x.chunk_id in
    let h = rw (same_rank r) at (v.one_control r v.todo_from.0) in
    omega (arith, h, control_one x is)

reported_after :
    (n : ℕ) (xs : List Bool) (r q t : ℕ)
    → r < length xs
    → (if get_or xs q false then 1 else 0) ≡ t
    → (r ≡ q → t ≡ 0)
    → (if get_or (set xs r true) q false then 1 else 0) ≡ (if r == q then 1 else 0) + t
reported_after n xs r q t lt e z = elim (Bool-cases (r == q)) [
  | inl p ↦ rw (get_or-set xs r q lt, p) (omega (arith, z ((==_iff r q).0 p)))
  | inr p ↦ rw (get_or-set xs r q lt, p) (omega (arith, e))
]

off : (b : Bool) → ◌≡◌ {A = ℕ} (if b then 1 else 0) 0 → b ≡ false
off b e = ground arith

-- A control message passes the three checks of `move_goalpost`.
move_goalpost-Moved :
    (n : ℕ) (c : FinishCounter) (x : Chunk) (done todo : List Chunk)
    → IsShuffle n done (x ∷ todo)
    → Counts n c done
    → is_control_message x ≡ true
    → (c' : FinishCounter) × (move_goalpost c (extract_rank x.chunk_id) x.expected_num_chunks
        ≡ ok c')
      × Moved n c' x done
unfolding move_goalpost
move_goalpost-Moved n c x done todo v k is =
    let r = extract_rank x.chunk_id in
    let e1 = control_positive x is in
    let e2 : ltb r c.nranks ≡ true = lt→ltb r c.nranks (omega (arith, v.todo_from.0, k.ranks)) in
    let z = unreported n done todo x v is in
    let e3 : get_or c.rank_reported r false ≡ false =
      off (get_or c.rank_reported r false) (k.reported r v.todo_from.0 ∙ z) in
    let one_more = control_one x is in
    (
      record c {
        rank_reported = set c.rank_reported r true;
        n_ranks_with_goalpost = c.n_ranks_with_goalpost + 1;
        total_chunk_goal = (c.total_chunk_goal + x.expected_num_chunks) % 2 ^ 64;
      },
      rw (e1, e2, e3) refl,
      record {
        ranks = k.ranks;
        reports = omega (arith, k.reports, one_more);
        goal = omega (arith, k.goal, announced-total n done (x ∷ todo) v, v.small);
        finished = k.finished;
        slots = length-set c.rank_reported r true ∙ k.slots;
        reported = λ q lt. rw one_more (
            reported_after n c.rank_reported r q (total_from control q done)
              (omega (arith, v.todo_from.0, k.slots)) (k.reported q lt)
              (λ p. subst (λ j. total_from control j done ≡ 0) p z));
      },
    )

data-Moved :
    (n : ℕ) (c : FinishCounter) (x : Chunk) (done : List Chunk)
    → Counts n c done
    → is_control_message x ≡ false
    → Moved n c x done
data-Moved n c x done k is =
    let (z, a) = data_zero x is in
    record {
      ranks = k.ranks;
      reports = omega (arith, k.reports, z);
      goal = omega (arith, k.goal, a);
      finished = k.finished;
      slots = k.slots;
      reported = λ q lt. rw z (k.reported q lt ∙ ground arith);
    }

-- Each chunk of a shuffle is received without an error, whatever the order of arrival.
insert-Counts :
    (n : ℕ) (i : Inbox) (x : Chunk) (done todo : List Chunk)
    → IsShuffle n done (x ∷ todo)
    → Counts n i.finish_counter done
    → ((insert_into_received i x).1 ≡ ok tt)
      × Counts n (insert_into_received i x).0.finish_counter (x ∷ done)
unfolding insert_into_received count
insert-Counts n i x done todo v k =
    let v' = IsShuffle-next n done todo x v in
    elim (Bool-cases (is_control_message x)) [
      | inl is ↦
          let (c', e, m) = move_goalpost-Moved n i.finish_counter x done todo v k is in
          rw (is, insert_into_received)
            (rw (e, insert_into_received) (add_finished-Counts n c' x done todo v' m))
      | inr is ↦
          rw (is, insert_into_received)
            (add_finished-Counts n i.finish_counter x done todo v'
              (data-Moved n i.finish_counter x done k is))
    ]

-- Reception of several chunks; an exception ends it.
unfoldable pub receive_all : Inbox → List Chunk → Inbox × Result (Unit {0})
receive_all i [] = (i, ok tt)
receive_all i (x ∷ xs) =
    let (i', r) = insert_into_received i x in
    let rest = receive_all i' xs in elim r [ err e ↦ (i', err e) | ok _ ↦ rest ]

receive_all-Counts :
    (n : ℕ) (i : Inbox) (xs done todo : List Chunk)
    → IsShuffle n done (xs ++ todo)
    → Counts n i.finish_counter done
    → ((receive_all i xs).1 ≡ ok tt)
      × (all_finished (receive_all i xs).0.finish_counter ≡ none_left todo)
unfolding receive_all
receive_all-Counts n i [] done todo v k = (refl, finished_iff n i.finish_counter done todo v k)
receive_all-Counts n i (x ∷ xs) done todo v k =
    let (e, k') = insert-Counts n i x done (xs ++ todo) v k in
    rw (e, receive_all)
      (receive_all-Counts n (insert_into_received i x).0 xs (x ∷ done) todo
        (IsShuffle-next n done (xs ++ todo) x v) k')

-- A rank that owns partitions receives the chunks of a shuffle, in any order, in which each rank
-- sends it one control message that announces all its messages: no reception throws, and after
-- each of them the counter reports that all is finished exactly when no chunk is missing.
pub finished-exactly :
    (nranks n_local : ℕ) (box : ReceivedChunks) (xs todo : List Chunk)
    → 0 < n_local
    → IsShuffle nranks [] (xs ++ todo)
    → let i = receive_all (record { finish_counter = create nranks n_local; received = box }) xs in
      (i.1 ≡ ok tt) × (all_finished i.0.finish_counter ≡ none_left todo)
finished-exactly nranks n_local box xs todo h v =
    receive_all-Counts nranks _ xs [] todo v (create-Counts nranks n_local h)
