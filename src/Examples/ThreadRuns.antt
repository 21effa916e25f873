-- ===== src/Examples/ThreadRuns.antt =====
-- The threads on small inputs.
use rapidsmpf.Prelude.{
  ℕ, suc, ◌+◌, ◌≡◌, ◌≢◌, ◌≤◌, refl, ◌⊎◌, none, some, List, [], ◌∷◌, true, false, not, ◌&&◌,
}
use rapidsmpf.Prelude.Result.{ok}
use rapidsmpf.Prelude.Assoc.{find}
use rapidsmpf.Thread
use rapidsmpf.Thread.Safety.{run-paused, stop-ends, turns}
use rapidsmpf.Progress.{
  FunctionState, ProgressThread, ProgressState, done, poll_removal, erase_function, is_empty,
}
use rapidsmpf.Progress.Removal.{poll_removal-removes}

abbrev begun : List Thread.Move
begun =
    Thread.resumes ∷ Thread.turn ∷ Thread.turn ∷ Thread.turn ∷ Thread.pauses ∷ Thread.turn
    ∷ Thread.turn ∷ Thread.turn ∷ Thread.turn ∷ []

abbrev later : List Thread.Move
later = Thread.turn ∷ Thread.stops ∷ Thread.turn ∷ Thread.turn ∷ Thread.turn ∷ Thread.turn ∷ []

is_paused : (Thread.run Thread.start begun).state ≡ Thread.paused
unfolding Thread.run
is_paused = refl

run-paused_example :
    (Thread.run (Thread.run Thread.start begun) later).calls ≡ (Thread.run Thread.start begun).calls
run-paused_example = run-paused begun later is_paused tt

stop-ends_example :
    let l = (Thread.stop (Thread.run Thread.start begun)).0 in
    ((Thread.run l later).calls ≤ l.calls + 1)
    × (4 ≤ turns later → (Thread.run l later).state ≡ Thread.stopped)
stop-ends_example = stop-ends begun later

abbrev count_up : ℕ → ℕ × ProgressState
count_up n = (suc n, done)

abbrev finished : FunctionState ℕ
finished = record { function = count_up; is_done = true }

abbrev two_functions : ProgressThread ℕ
two_functions = record {
  address = 16;
  active = true;
  next_function_id = 2;
  functions = (0, finished) ∷ (1, finished) ∷ [];
  thread = Thread.start;
}

removed : poll_removal two_functions 1 ≡ ok (some (erase_function two_functions 1))
unfolding poll_removal find
removed = refl

poll_removal-removes_example :
    ((true ≡ false)
      ⊎ ((f : FunctionState ℕ) × (find 1 two_functions.functions ≡ some f) × (f.is_done ≡ true)))
    × (find 1 (erase_function two_functions 1).functions ≡ none)
    × ((j : ℕ)
        → 1 ≢ j
        → find j (erase_function two_functions 1).functions ≡ find j two_functions.functions)
    × ((erase_function two_functions 1).active
        ≡ (true && not (is_empty (erase_function two_functions 1).functions)))
poll_removal-removes_example =
    poll_removal-removes two_functions (erase_function two_functions 1) 1 removed
