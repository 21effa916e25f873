-- ===== src/Thread/Safety.antt =====
-- What pausing and stopping a PausableThreadLoop guarantee, under every schedule.
use rapidsmpf.Prelude.{ℕ, suc, ◌+◌, ◌-◌, ◌≤◌, ◌≡◌, ◌∙◌, ◌≢◌, refl, List, [], ◌∷◌, arith}
use rapidsmpf.Thread.{
  State, Place, Loop, Move, stopped, stopping, paused, pausing, running, waiting, try_pause,
  try_stop, calling, exited, turn, pauses, resumes, stops, start, step, run, loop_step, stop,
}

-- The pairs of a state and a place that can occur: a paused thread waits, and a stopped one has
-- returned.
abbrev pub Fits : State → Place → Type 0
Fits paused waiting = Unit
Fits paused _ = ⊥
Fits stopped exited = Unit
Fits stopped _ = ⊥
Fits _ exited = ⊥
Fits _ _ = Unit

turn-Fits :
    (s : State) (p : Place) (n : ℕ)
    → Fits s p
    → let l = loop_step (record { state = s; place = p; calls = n }) in Fits l.state l.place
unfolding loop_step
turn-Fits s p n v = ground arith

-- Every step of any thread keeps the state and the place of the loop thread in one of those pairs.
pub step-Fits :
    (l : Loop) (m : Move) → Fits l.state l.place → Fits (step l m).state (step l m).place
unfolding step
step-Fits l turn v = turn-Fits l.state l.place l.calls v
step-Fits l pauses v = ground arith
step-Fits l resumes v = ground arith
step-Fits l stops v = ground arith

-- Who may change the state, and how: the transition matrix of the header.
abbrev pub Allowed : Move → State → State → Type 0
Allowed turn pausing paused = Unit
Allowed turn stopping stopped = Unit
Allowed pauses running pausing = Unit
Allowed resumes paused running = Unit
Allowed resumes pausing running = Unit
Allowed stops running stopping = Unit
Allowed stops pausing stopping = Unit
Allowed stops paused stopping = Unit
Allowed _ s s' = s ≡ s'

turn-Allowed :
    (s : State) (p : Place) (n : ℕ)
    → Allowed turn s (loop_step (record { state = s; place = p; calls = n })).state
unfolding loop_step
turn-Allowed s p n = ground arith

-- Each operation of the thread loop, and the turns of the loop itself, change the state only along
-- the transition matrix of the header.
step-Allowed : (l : Loop) (m : Move) → Allowed m l.state (step l m).state
unfolding step
step-Allowed l turn = turn-Allowed l.state l.place l.calls
step-Allowed l pauses = ground arith
step-Allowed l resumes = ground arith
step-Allowed l stops = ground arith

-- Neither running nor about to call: without a `resume` no call can follow.
abbrev pub Quiet : State → Place → Type 0
Quiet paused waiting = Unit
Quiet stopping calling = ⊥
Quiet stopping exited = ⊥
Quiet stopping _ = Unit
Quiet stopped exited = Unit
Quiet _ _ = ⊥

abbrev pub NoResume : List Move → Type 0
NoResume [] = Unit
NoResume (resumes ∷ ms) = ⊥
NoResume (m ∷ ms) = NoResume ms

step-Quiet :
    (s : State) (p : Place) (n : ℕ) (m : Move)
    → Quiet s p
    → m ≢ resumes
    → let l = step (record { state = s; place = p; calls = n }) m in
      Quiet l.state l.place × (l.calls ≡ n)
unfolding step
step-Quiet s p n turn v h = ground arith
step-Quiet s p n pauses v h = ground arith
step-Quiet s p n resumes v h = absurd (h refl)
step-Quiet s p n stops v h = ground arith

run-Quiet :
    (l : Loop) (ms : List Move) → Quiet l.state l.place → NoResume ms → (run l ms).calls ≡ l.calls
unfolding run
run-Quiet l [] v h = refl
run-Quiet l (turn ∷ ms) v h =
    let (q, e) = step-Quiet l.state l.place l.calls turn v (λ x. cc) in
    run-Quiet (step l turn) ms q h ∙ e
run-Quiet l (pauses ∷ ms) v h =
    let (q, e) = step-Quiet l.state l.place l.calls pauses v (λ x. cc) in
    run-Quiet (step l pauses) ms q h ∙ e
run-Quiet l (resumes ∷ ms) v h = absurd h
run-Quiet l (stops ∷ ms) v h =
    let (q, e) = step-Quiet l.state l.place l.calls stops v (λ x. cc) in
    run-Quiet (step l stops) ms q h ∙ e

run-Fits :
    (l : Loop) (ms : List Move) → Fits l.state l.place → Fits (run l ms).state (run l ms).place
unfolding run
run-Fits l [] v = v
run-Fits l (m ∷ ms) v = run-Fits (step l m) ms (step-Fits l m v)

Fits-Quiet : (s : State) (p : Place) → Fits s p → s ≡ paused → Quiet s p
Fits-Quiet s p v e = ground arith

-- After any schedule from the start that leaves the thread paused, the function is not called
-- again as long as nobody resumes it, also if it is stopped meanwhile.
pub run-paused :
    (before after : List Move)
    → (run start before).state ≡ paused
    → NoResume after
    → (run (run start before) after).calls ≡ (run start before).calls
run-paused before after e h =
    run-Quiet (run start before) after (Fits-Quiet _ _ (run-Fits start before tt) e) h

-- Turns of the loop thread that lead from a place to the return, once a stop is requested.
abbrev pub distance : Place → ℕ
distance calling = 4
distance waiting = 3
distance try_pause = 2
distance try_stop = 1
distance exited = 0

abbrev pub turns : List Move → ℕ
turns [] = 0
turns (turn ∷ ms) = suc (turns ms)
turns (m ∷ ms) = turns ms

abbrev pub pending : Place → ℕ
pending calling = 1
pending _ = 0

abbrev pub Doomed : State → Place → Type 0
Doomed stopping exited = ⊥
Doomed stopping p = Unit
Doomed stopped exited = Unit
Doomed _ _ = ⊥

loop_step-Doomed :
    (s : State) (p : Place) (n : ℕ)
    → Doomed s p
    → let l = loop_step (record { state = s; place = p; calls = n }) in
      Doomed l.state l.place
      × (distance l.place ≡ distance p - 1)
      × (l.calls + pending l.place ≤ n + pending p)
unfolding loop_step
loop_step-Doomed s p n v = (ground arith, ground arith, ground arith)

step-Doomed :
    (s : State) (p : Place) (n : ℕ) (m : Move)
    → Doomed s p
    → let l = step (record { state = s; place = p; calls = n }) m in
      Doomed l.state l.place
      × (distance l.place ≡ distance p - turns (m ∷ []))
      × (l.calls + pending l.place ≤ n + pending p)
unfolding step
step-Doomed s p n turn v = loop_step-Doomed s p n v
step-Doomed s p n pauses v = (ground arith, omega arith, omega arith)
step-Doomed s p n resumes v = (ground arith, omega arith, omega arith)
step-Doomed s p n stops v = (ground arith, omega arith, omega arith)

turns-cons : (m : Move) (ms : List Move) → turns (m ∷ ms) ≡ turns (m ∷ []) + turns ms
turns-cons turn ms = omega arith
turns-cons pauses ms = omega arith
turns-cons resumes ms = omega arith
turns-cons stops ms = omega arith

run-Doomed :
    (l : Loop) (ms : List Move)
    → Doomed l.state l.place
    → Doomed (run l ms).state (run l ms).place
      × (distance (run l ms).place ≡ distance l.place - turns ms)
      × ((run l ms).calls + pending (run l ms).place ≤ l.calls + pending l.place)
unfolding run
run-Doomed l [] v = (v, omega arith, omega arith)
run-Doomed l (m ∷ ms) v =
    let (d, e, c) = step-Doomed l.state l.place l.calls m v in
    let (d', e', c') = run-Doomed (step l m) ms d in
    (d', omega (arith, turns-cons m ms, e, e'), omega (arith, c, c'))

returned_of_zero : (s : State) (p : Place) → Doomed s p → distance p ≡ 0 → s ≡ stopped
returned_of_zero s p v e = ground arith

stop-Doomed : (l : Loop) → Fits l.state l.place → Doomed (stop l).0.state (stop l).0.place
unfolding stop
stop-Doomed l v = ground arith

pending-le : (p : Place) → pending p ≤ 1
pending-le p = ground arith

distance-le : (p : Place) → distance p ≤ 4
distance-le p = ground arith

-- After `stop`, whatever other threads do, at most one more call of the function is made, and once
-- the loop thread has had four turns it has returned, so the join ends.
pub stop-ends :
    (before after : List Move)
    → let l = (stop (run start before)).0 in
      ((run l after).calls ≤ l.calls + 1) × (4 ≤ turns after → (run l after).state ≡ stopped)
stop-ends before after =
    let l = (stop (run start before)).0 in
    let v = stop-Doomed (run start before) (run-Fits start before tt) in
    let (d, e, c) = run-Doomed l after v in
    (
      omega (arith, c, pending-le l.place),
      λ h. returned_of_zero _ _ d (omega (arith, e, distance-le l.place, h)),
    )
