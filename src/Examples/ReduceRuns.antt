-- ===== src/Examples/ReduceRuns.antt =====
-- An allreduce of three ranks: rank 0 gives its contribution to rank 1, ranks 1 and 2 exchange, and
-- rank 1 sends the result back. The contributions are lists and the operator joins them.
use rapidsmpf.Prelude.{
  ℕ, zero, suc, ◌<◌, ◌≡◌, refl, Option, some, List, [], ◌∷◌, ◌++◌, arith, append_assoc, length,
  true,
}
use rapidsmpf.Prelude.Result.{Result, ok, err}
use rapidsmpf.Prelude.Bits.{bit_floor, bit_xor}
use rapidsmpf.Memory.Types.{MemoryType, host}
use rapidsmpf.Coll.AllReduce.{
  create, first_state, plan_of, finished, event_loop, logical_rank_of, stage_rank,
}
use rapidsmpf.Coll.AllReduce.Cluster.{Cluster, Move, turn, arrival, departure, run}
use rapidsmpf.Coll.AllReduce.InOrder.{finished-agree, run-returns, finished-in_order, reduce_from}

abbrev join : List ℕ → List ℕ → List ℕ
join a b = a ++ b

abbrev contribution : ℕ → List ℕ
contribution r = r ∷ []

abbrev on_host : List ℕ → MemoryType
on_host l = host

abbrev spare : ℕ → Option (List ℕ)
spare r = some (9 ∷ [])

abbrev three : Cluster (List ℕ)
three = record { ranks = λ r. first_state (plan_of r 3) (contribution r) true; mail = [] }

abbrev round : List Move
round =
    turn 0 true true
    ∷ arrival 0
    ∷ departure 0
    ∷ turn 1 true true
    ∷ arrival 1
    ∷ departure 1
    ∷ turn 2 true true
    ∷ arrival 2
    ∷ departure 2
    ∷ []

-- The same moves, with the last rank first.
abbrev backward : List Move
backward =
    arrival 2
    ∷ departure 2
    ∷ turn 2 true true
    ∷ arrival 1
    ∷ departure 1
    ∷ turn 1 true true
    ∷ arrival 0
    ∷ departure 0
    ∷ turn 0 true true
    ∷ []

abbrev rounds : ℕ → List Move → List Move
rounds zero ms = []
rounds (suc k) ms = ms ++ rounds k ms

created_three :
    (r : ℕ)
    → r < 3
    → create length on_host r 3 (some (contribution r)) (spare r) true ≡ ok (three.ranks r)
unfolding create
created_three r lt = refl

-- What a run returns, from the theorem that it returns something.
abbrev forward_run : List Move
forward_run = rounds 9 round

abbrev backward_run : List Move
backward_run = rounds 9 backward

value_or : Cluster (List ℕ) → Result (Cluster (List ℕ)) → Cluster (List ℕ)
value_or d (err e) = d
value_or d (ok c) = c

abbrev after_run : List Move → Cluster (List ℕ)
after_run ms = value_or three (run join 3 three ms)

forward_returns : run join 3 three forward_run ≡ ok (after_run forward_run)
unfolding value_or run finished first_state plan_of bit_floor event_loop logical_rank_of stage_rank
    bit_xor
forward_returns = refl

backward_returns : run join 3 three backward_run ≡ ok (after_run backward_run)
unfolding value_or run finished first_state plan_of bit_floor event_loop logical_rank_of stage_rank
    bit_xor
backward_returns = refl

forward_finished : finished ((after_run forward_run).ranks 0) ≡ true
unfolding value_or run finished first_state plan_of bit_floor event_loop logical_rank_of stage_rank
    bit_xor
forward_finished = refl

backward_finished : finished ((after_run backward_run).ranks 2) ≡ true
unfolding value_or run finished first_state plan_of bit_floor event_loop logical_rank_of stage_rank
    bit_xor
backward_finished = refl

finished-agree_example :
    ((after_run forward_run).ranks 0).out_buffer ≡ ((after_run backward_run).ranks 2).out_buffer
finished-agree_example =
    finished-agree join contribution true 3 (omega arith) (omega arith) length on_host spare three
      created_three refl forward_run backward_run (after_run forward_run) (after_run backward_run) 0
      2 forward_returns backward_returns (omega arith) (omega arith) forward_finished
      backward_finished

finished-in_order_example :
    (((after_run forward_run).ranks 0).out_buffer ≡ some (reduce_from join contribution 0 2))
    × (((after_run forward_run).ranks 0).callback_calls ≡ 1)
finished-in_order_example =
    finished-in_order join contribution true 3 (omega arith) (omega arith) length on_host spare
      three created_three refl append_assoc forward_run (after_run forward_run) 0 forward_returns
      (omega arith) forward_finished

run-returns_example : (c : Cluster (List ℕ)) × (run join 3 three backward_run ≡ ok c)
run-returns_example =
    run-returns join contribution true 3 (omega arith) (omega arith) length on_host spare three
      created_three refl backward_run

joined : reduce_from join contribution 0 2 ≡ 0 ∷ 1 ∷ 2 ∷ []
unfolding reduce_from
joined = refl
