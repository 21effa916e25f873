-- ===== src/Thread.antt =====
-- cpp/src/pausable_thread_loop.cpp: a thread that calls a function in a loop, and can be paused,
-- resumed and stopped by other threads. Each atomic operation on the shared state is one step, and
-- a schedule is a list of steps; a spurious failure of a weak compare-exchange only retries.
pub mod Safety
use rapidsmpf.Prelude.{ℕ, suc, ◌+◌, List, [], ◌∷◌, Bool, true, false}

pub data State : Type 0 where
  stopped stopping paused pausing running : State

-- Where the loop thread stands: at the wait, at the two compare-exchanges, at the call, or returned.
pub data Place : Type 0 where
  waiting try_pause try_stop calling exited : Place

-- `calls` counts the completed calls of the function.
pub record Loop : Type 0 where
  pub state : State
  pub place : Place
  pub calls : ℕ

abbrev pub start : Loop
start = record { state = paused; place = waiting; calls = 0 }

unfoldable pub is_running : State → Bool
is_running paused = false
is_running stopped = false
is_running _ = true

-- state_.wait(State::Paused) returns once the state is another.
woken : State → Place
woken paused = waiting
woken _ = try_pause

advance : Place → State → Loop → Loop
unfolding woken
advance waiting s l = record l { place = woken s }
advance try_pause pausing l = record l { state = paused; place = waiting }
advance try_pause s l = record l { place = try_stop }
advance try_stop stopping l = record l { state = stopped; place = exited }
advance try_stop s l = record l { place = calling }
advance calling s l = record l { place = waiting; calls = suc l.calls }
advance exited s l = l

unfoldable pub loop_step : Loop → Loop
unfolding advance
loop_step l = advance l.place l.state l

paused_by : State → State
paused_by running = pausing
paused_by s = s

resumed : State → State
resumed paused = running
resumed pausing = running
resumed s = s

stopped_by : State → State
stopped_by running = stopping
stopped_by pausing = stopping
stopped_by paused = stopping
stopped_by s = s

unfoldable pub pause_nb : Loop → Loop
unfolding paused_by
pause_nb l = record l { state = paused_by l.state }

-- The state after the compare-exchange loop, and what the call returns.
can_resume : State → Bool
can_resume paused = true
can_resume pausing = true
can_resume _ = false

unfoldable pub resume : Loop → Loop × Bool
unfolding resumed can_resume
resume l = (record l { state = resumed l.state }, can_resume l.state)

can_stop : State → Bool
can_stop running = true
can_stop pausing = true
can_stop paused = true
can_stop _ = false

-- The request of `stop`; the join that follows waits for `exited`.
unfoldable pub stop : Loop → Loop × Bool
unfolding stopped_by can_stop
stop l = (record l { state = stopped_by l.state }, can_stop l.state)

pub data Move : Type 0 where
  turn pauses resumes stops : Move

unfoldable pub step : Loop → Move → Loop
unfolding loop_step pause_nb resume stop
step l turn = loop_step l
step l pauses = pause_nb l
step l resumes = (resume l).0
step l stops = (stop l).0

unfoldable pub run : Loop → List Move → Loop
unfolding step
run l [] = l
run l (m ∷ ms) = run (step l m) ms
