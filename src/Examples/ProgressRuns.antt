-- ===== src/Examples/ProgressRuns.antt =====
-- One turn of the shuffler's event loop, with an exchange that only counts its calls.
use rapidsmpf.Prelude.{ℕ, ◌==◌, ◌||◌, suc, ◌%◌, ◌≡◌, refl, [], ◌∷◌, Bool, true, false}
use rapidsmpf.Prelude.Int.{pos}
use rapidsmpf.Prelude.Result.{Result, ok, err}
use rapidsmpf.Shuffler.Finish.{create, all_finished}
use rapidsmpf.Shuffler.Outbox.{Shuffler, extract_ready}
use rapidsmpf.Shuffler.Progress.{Exchange, State, Others, turn, receive_messages}
use rapidsmpf.Shuffler.Progress.Orderly.{IsOrderly, IsComplete, LeavesFinish, turn-IsOrderly}

abbrev quiet : Exchange ℕ
quiet = record {
  send = λ n ms. ok (suc n);
  progress = λ n. ok (suc n);
  recv = λ n. ok (suc n, []);
  finish = λ n. ok (suc n);
  is_idle = λ n. true;
}

abbrev owner : ℕ → ℕ
owner pid = pid % 2

-- Rank 1 owns no partition.
abbrev idle_state : State ℕ
idle_state = record {
  shuffler = record {
    rank = 1;
    nranks = 2;
    total_num_partitions = 1;
    br = record {
      memory_limits = λ t. pos 100;
      allocated = λ t. pos 0;
      has_pinned = false;
      has_disk = false;
      memory_reserved = λ t. 0;
      overbooking_by_default = true;
    };
    chunk_id_counter = 0;
    outbound_chunk_counter = 0 ∷ 0 ∷ [];
    to_send = [];
    inbox = record { finish_counter = create 2 0; received = [] };
    locally_finished = true;
  };
  exchange = 0;
  active = true;
  can_extract = false;
  mpe_finish_called = false;
  callbacks = 0;
}

idle_state-IsOrderly : IsOrderly quiet owner idle_state
idle_state-IsOrderly = record { once = refl; told = λ e. cc }

abbrev turned : Result (State ℕ × Bool) → State ℕ × Bool
turned (ok r) = r
turned (err e) = (idle_state, false)

-- Another thread shuts the shuffler down.
abbrev shuts_down : Others
shuts_down k (s, a) = (s, false)

shuts_down-LeavesFinish : LeavesFinish shuts_down
shuts_down-LeavesFinish = record {
  finished = λ k s a. refl;
  queue = λ k s a h. refl;
  received = λ k s a h. h;
}

abbrev next : State ℕ
next = (turned (turn quiet owner shuts_down idle_state)).0

takes_turn : turn quiet owner shuts_down idle_state ≡ ok (next, true)
unfolding turn extract_ready create all_finished receive_messages
takes_turn = refl

turn-IsOrderly_example :
    IsOrderly quiet owner next
    × (true ≡ true
        → (next.active ≡ false) × IsComplete quiet owner next × (next.can_extract ≡ true))
turn-IsOrderly_example =
    turn-IsOrderly quiet owner shuts_down shuts_down-LeavesFinish idle_state next true
      idle_state-IsOrderly takes_turn

-- Another thread sets `locally_finished_`, as `insert_finished` does, after the containers were looked
-- at.
finishes_at : ℕ → Shuffler → Shuffler
finishes_at k s = record s { locally_finished = k == 4 || s.locally_finished }

finishes_late : Others
unfolding finishes_at
finishes_late k (s, a) = (finishes_at k s, a)

abbrev unfinished_state : State ℕ
unfinished_state = record idle_state {
  shuffler = record idle_state.shuffler { locally_finished = false };
}

abbrev raced : State ℕ
raced = (turned (turn quiet owner finishes_late unfinished_state)).0

-- The callback comes in that turn, and the exchange has not been told.
race : (raced.callbacks ≡ 1) × (raced.mpe_finish_called ≡ false)
unfolding finishes_late turn extract_ready create all_finished receive_messages
race = (refl, refl)
