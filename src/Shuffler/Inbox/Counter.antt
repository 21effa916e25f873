-- ===== src/Shuffler/Inbox/Counter.antt =====
-- What the counter of finish_counter.cpp knows of a shuffle, and when it says that all has been received.
use rapidsmpf.Prelude.{
  ℕ, zero, suc, ◌+◌, ◌^◌, ◌<◌, ◌≤◌, ◌≡◌, refl, sym, ◌∙◌, List, [], ◌∷◌, arith, length, ◌==◌, ==_iff,
  Bool, true, false, ◌&&◌, ◌||◌, Bool-cases, inl, inr, ltb, leb, if◌then◌else◌, get_or, set,
  replicate, length-replicate,
}
use rapidsmpf.Prelude.Result.{ok, expects, logic_error}
use rapidsmpf.Shuffler.Chunk.{Chunk}
use rapidsmpf.Shuffler.Finish.{FinishCounter, create, all_finished}
use rapidsmpf.Shuffler.Inbox.Count.{
  total, total_from, AllFrom, total-by-rank, one, control, announced, total-one, announced-zero,
  sum_to-ext, sum_to-add, sum_to-one,
}

-- The chunks that were received, latest first, and those that are still to come: every rank sends
-- one control message, which announces all its messages, itself included.
pub record IsShuffle (nranks : ℕ) (done todo : List Chunk) : Type 0 where
  pub done_from : AllFrom nranks done
  pub todo_from : AllFrom nranks todo
  pub one_control : (r : ℕ) → r < nranks → total_from control r done + total_from control r todo ≡ 1
  pub honest :
      (r : ℕ)
      → r < nranks
      → total_from announced r done + total_from announced r todo
        ≡ total_from one r done + total_from one r todo
  pub small : length done + length todo < 2 ^ 64

pub IsShuffle-next :
    (n : ℕ) (done todo : List Chunk) (c : Chunk)
    → IsShuffle n done (c ∷ todo)
    → IsShuffle n (c ∷ done) todo
IsShuffle-next n done todo c v = record {
  done_from = (v.todo_from.0, v.done_from);
  todo_from = v.todo_from.1;
  one_control = λ r h. omega (arith, v.one_control r h);
  honest = λ r h. omega (arith, v.honest r h);
  small = omega (arith, v.small);
}

pub controls-total :
    (n : ℕ) (done todo : List Chunk)
    → IsShuffle n done todo
    → total control done + total control todo ≡ n
controls-total n done todo v = omega (
  arith,
  total-by-rank control n done v.done_from,
  total-by-rank control n todo v.todo_from,
  sum_to-add n (λ r. total_from control r done) (λ r. total_from control r todo),
  sum_to-ext n _ (λ r. 1) v.one_control,
  sum_to-one n,
)

pub announced-total :
    (n : ℕ) (done todo : List Chunk)
    → IsShuffle n done todo
    → total announced done + total announced todo ≡ length done + length todo
announced-total n done todo v = omega (
  arith,
  total-by-rank announced n done v.done_from,
  total-by-rank announced n todo v.todo_from,
  total-by-rank one n done v.done_from,
  total-by-rank one n todo v.todo_from,
  sum_to-add n (λ r. total_from announced r done) (λ r. total_from announced r todo),
  sum_to-add n (λ r. total_from one r done) (λ r. total_from one r todo),
  sum_to-ext n _ _ v.honest,
  total-one done,
  total-one todo,
)

-- What the counter knows of the chunks received so far.
pub record Counts (n : ℕ) (c : FinishCounter) (done : List Chunk) : Type 0 where
  pub ranks : c.nranks ≡ n
  pub reports : c.n_ranks_with_goalpost ≡ total control done
  pub goal : c.total_chunk_goal ≡ total announced done
  pub finished : c.total_finished_chunks ≡ length done
  pub slots : length c.rank_reported ≡ n
  pub reported :
      (r : ℕ)
      → r < n
      → (if get_or c.rank_reported r false then 1 else 0) ≡ total_from control r done

pub get_or-set :
    (xs : List Bool) (i j : ℕ)
    → i < length xs
    → get_or (set xs i true) j false ≡ (if i == j then true else get_or xs j false)
get_or-set [] i j h = absurd (omega arith)
get_or-set (x ∷ xs) zero zero h = refl
get_or-set (x ∷ xs) zero (suc j) h = ground arith
get_or-set (x ∷ xs) (suc i) zero h = ground arith
get_or-set (x ∷ xs) (suc i) (suc j) h = get_or-set xs i j (omega arith) ∙ ground arith

pub get_or-replicate : (n i : ℕ) → get_or (replicate n false) i false ≡ false
get_or-replicate zero i = refl
get_or-replicate (suc n) zero = refl
get_or-replicate (suc n) (suc i) = get_or-replicate n i

pub create-Counts : (n k : ℕ) → 0 < k → Counts n (create n k) []
unfolding create
create-Counts n k h =
    let e : ltb 0 k ≡ true = ground arith in
    rw (e, create)
      (record {
        ranks = refl;
        reports = refl;
        goal = refl;
        finished = refl;
        slots = length-replicate n false;
        reported = λ r lt. rw (get_or-replicate n r) refl;
      })

-- Once every rank has reported, the goal is the number of all chunks.
pub goal_when_reported :
    (n : ℕ) (done todo : List Chunk)
    → IsShuffle n done todo
    → total control done ≡ n
    → total announced done ≡ length done + length todo
goal_when_reported n done todo v e = omega (
  arith,
  controls-total n done todo v,
  announced-total n done todo v,
  announced-zero todo (omega (arith, controls-total n done todo v)),
)

-- After any part of a shuffle, the counter says that all is finished exactly when nothing is left.
abbrev pub none_left : List Chunk → Bool
none_left [] = true
none_left (c ∷ cs) = false

pub both_equal : (a n f g : ℕ) → a ≡ n → f ≡ g → (a == n && f == g) ≡ true
both_equal a n f g e h = ground arith

pub not_both : (a n f g : ℕ) → (a ≡ n → f < g) → (a == n && f == g) ≡ false
not_both a n f g h = elim (Bool-cases (a == n)) [
  | inl e ↦ let lt = h ((==_iff a n).0 e) in rw e (below f g lt)
  | inr e ↦ rw e refl
]
  where
    below : (f g : ℕ) → f < g → (f == g) ≡ false
    below f g lt = ground arith

pub finished_iff :
    (n : ℕ) (c : FinishCounter) (done todo : List Chunk)
    → IsShuffle n done todo
    → Counts n c done
    → all_finished c ≡ none_left todo
unfolding all_finished
finished_iff n c done [] v k =
    both_equal c.n_ranks_with_goalpost c.nranks c.total_finished_chunks c.total_chunk_goal
      (omega (arith, controls-total n done [] v, k.reports, k.ranks))
      (omega (arith, announced-total n done [] v, k.finished, k.goal))
finished_iff n c done (x ∷ todo) v k =
    not_both c.n_ranks_with_goalpost c.nranks c.total_finished_chunks c.total_chunk_goal (λ e.
      let all = goal_when_reported n done (x ∷ todo) v (sym k.reports ∙ e ∙ k.ranks) in
      omega (arith, all, k.finished, k.goal))

pub checked : (a n f g : ℕ) → (n ≤ a → f ≤ g) → expects (ltb a n || leb f g) logic_error ≡ ok tt
checked a n f g h = elim (Bool-cases (ltb a n)) [
  | inl e ↦ rw e refl
  | inr e ↦ rw e (rw (within f g (h (not_lt a n e))) refl)
]
  where
    not_lt : (a n : ℕ) → ltb a n ≡ false → n ≤ a
    not_lt a n e = ground arith

    within : (f g : ℕ) → f ≤ g → leb f g ≡ true
    within f g lt = ground arith
