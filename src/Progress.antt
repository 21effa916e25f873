-- ===== src/Progress.antt =====
-- cpp/src/progress_thread.cpp: functions that one thread calls in turn until they are done. A
-- function acts on a world `W` that belongs to those who register it. A wait on the condition
-- variable is a test that the waiting thread makes again when it is notified.
pub mod Removal
use rapidsmpf.Prelude.{
  ℕ, ◌+◌, ◌%◌, ◌^◌, Option, none, some, List, [], ◌∷◌, Bool, true, false, not, ◌||◌, ◌==◌,
  if◌then◌else◌,
}
use rapidsmpf.Prelude.Result.{Result, ok, err, expects, logic_error, out_of_range, ◌>>=◌, ◌>>◌}
use rapidsmpf.Prelude.Assoc.{find, assign, erase, contains}
use rapidsmpf.Thread

pub data ProgressState : Type 0 where
  in_progress done : ProgressState

-- The address 0 is that of no thread.
pub record FunctionId : Type 0 where
  pub thread_address : ℕ
  pub function_index : ℕ

pub record FunctionState (W : Type 0) : Type 0 where
  pub function : W → W × ProgressState
  pub is_done : Bool

pub record ProgressThread (W : Type 0) : Type 0 where
  pub address : ℕ
  pub active : Bool
  pub next_function_id : ℕ
  pub functions : List (ℕ × FunctionState W)
  pub thread : Thread.Loop

abbrev pub is_empty {ℓ} : {A : Type ℓ} → List A → Bool
is_empty [] = true
is_empty (x ∷ xs) = false

is_done_state : ProgressState → Bool
is_done_state in_progress = false
is_done_state done = true

module _ {W : Type 0} where
  -- FunctionState::operator(): a function that is done is not called.
  unfoldable pub call : W → FunctionState W → W × FunctionState W
  unfolding is_done_state
  call w f =
      if f.is_done
      then (w, f)
      else (let (w', s) = f.function w in (w', record f { is_done = is_done_state s }))

  unfoldable pub call_all : W → List (ℕ × FunctionState W) → W × List (ℕ × FunctionState W)
  unfolding call
  call_all w [] = (w, [])
  call_all w ((id, f) ∷ fs) =
      let (w1, f') = call w f in let (w2, fs') = call_all w1 fs in (w2, (id, f') ∷ fs')

  unfoldable pub event_loop : ProgressThread W → W → ProgressThread W × W
  unfolding call_all
  event_loop t w = let (w', fs) = call_all w t.functions in (record t { functions = fs }, w')

  unfoldable pub add_function :
      ProgressThread W → (W → W × ProgressState) → ProgressThread W × FunctionId
  add_function t f = (
    record t {
      next_function_id = (t.next_function_id + 1) % 2 ^ 64;
      functions =
          if contains t.next_function_id t.functions
          then t.functions
          else assign t.next_function_id (record { function = f; is_done = false }) t.functions;
      thread = (Thread.resume t.thread).0;
      active = true;
    },
    record { thread_address = t.address; function_index = t.next_function_id },
  )

  -- The guards of `remove_function`.
  unfoldable pub check_registered : ProgressThread W → FunctionId → Result (Unit {0})
  check_registered t id = do
    expects (not (id.thread_address == 0)) logic_error
    expects (id.thread_address == t.address) logic_error
    expects (contains id.function_index t.functions) logic_error

  -- The test of the wait: the lookup throws when another thread has erased the function meanwhile.
  unfoldable pub may_remove : ProgressThread W → ℕ → Result Bool
  may_remove t index =
      if not t.active
      then ok true
      else elim (find index t.functions) [ none ↦ err out_of_range | some f ↦ ok f.is_done ]

  unfoldable pub erase_function : ProgressThread W → ℕ → ProgressThread W
  erase_function t index =
      let left = erase index t.functions in
      if is_empty left
      then record t { functions = left; thread = Thread.pause_nb t.thread; active = false }
      else record t { functions = left }

  -- The removal once it is notified: `none` while it has to wait on.
  unfoldable pub poll_removal : ProgressThread W → ℕ → Result (Option (ProgressThread W))
  unfolding may_remove erase_function
  poll_removal t index = do
    ready ← may_remove t index
    ok (if ready then some (erase_function t index) else none)

  unfoldable pub remove_function :
      ProgressThread W → FunctionId → Result (Option (ProgressThread W))
  unfolding check_registered poll_removal
  remove_function t id = do _ ← check_registered t id; poll_removal t id.function_index

  -- `pause` of the thread loop also waits until the thread is paused.
  unfoldable pub pause : ProgressThread W → ProgressThread W
  pause t = record t { thread = Thread.pause_nb t.thread; active = false }

  unfoldable pub resume : ProgressThread W → ProgressThread W
  resume t = record t { thread = (Thread.resume t.thread).0; active = true }

  unfoldable pub is_running : ProgressThread W → Bool
  is_running t = t.active
