-- ===== src/Streaming/Reserve/System.antt =====
-- Callers, the periodic task and a shutdown of memory_reserve_or_wait.cpp in any order.
use rapidsmpf.Prelude.{
  ℕ, ◌+◌, ◌%◌, ◌^◌, ◌≡◌, ◌<◌, refl, sym, subst, Bool, true, false, ◌&&◌, ◌==◌, if◌then◌else◌,
  Option, none, some, List, [], ◌∷◌, ◌++◌, arith,
}
use rapidsmpf.Prelude.Int.{ℤ}
use rapidsmpf.Prelude.Result.{Result, ok, ◌>>=◌, Holds, then-Holds, weaken-Holds}
use rapidsmpf.Memory.Resource.{BufferResource, MemoryReservation, reserve}
use rapidsmpf.Streaming.Reserve.{
  Request, ReserveOrWait, Window, Pass, Passed, Answer, Asked, reserved, waits, reserve_or_wait,
  extract, extract_request, grant, admit, admit_first, force, force_first, pass, after_timeout,
  check_timeout, has_pending, is_pending, window_at, clamped_available, eligible_requests,
  min_element,
}
use rapidsmpf.Streaming.Reserve.Count.{count, count-All}
use rapidsmpf.Streaming.Reserve.Choice.{All, min_element-All, eligible_requests-All}

-- What anyone can do next. A caller comes with the resource as it is, and the times of its
-- submission and of the start of a task for it.
pub data Act : Type 0 where
  asks : BufferResource → ℕ → ℤ → ℕ → ℕ → Act
  looks : Act
  passes : Pass → Act
  shuts_down : Act

-- `checked` holds when the task has seen a pending request at the top of its loop.
pub record System : Type 0 where
  pub manager : ReserveOrWait
  pub window : Window
  pub checked : Bool
  pub answered : List Request
  pub cancelled : List Request

unfoldable pub asked : System → ℕ → Asked → System
asked s begun (reserved r) = s
asked s begun (waits m started) =
    if started
    then record s { manager = m; window = window_at begun; checked = false }
    else record s { manager = m }

unfoldable pub answered_with : Option Answer → List Request → List Request
answered_with none rs = rs
answered_with (some a) rs = a.request ∷ rs

unfoldable pub look : System → System
look s =
    if s.manager.periodic_task_running
    then (if has_pending s.manager then record s { checked = true } else record s {
      manager = record s.manager { periodic_task_running = false };
      checked = false;
    })
    else s

unfoldable pub after_pass : System → Passed → System
unfolding answered_with
after_pass s q = record s {
  manager = q.manager;
  window = q.window;
  checked = false;
  answered = answered_with q.answer s.answered;
}

-- The pending requests are taken out and their queues shut down, so that their callers fail.
unfoldable pub shutdown : System → System
shutdown s = record s {
  manager = record s.manager { reservation_requests = [] };
  cancelled = s.manager.reservation_requests ++ s.cancelled;
}

unfoldable pub step : System → Act → Result System
unfolding asked look after_pass shutdown
step s (asks br size delta now begun) =
    reserve_or_wait s.manager br size delta now >>= λ a. ok (asked s begun a)
step s looks = ok (look s)
step s (passes p) =
    if s.manager.periodic_task_running && s.checked
    then (pass s.manager s.window p >>= λ q. ok (after_pass s q))
    else ok s
step s shuts_down = ok (shutdown s)

unfoldable pub run : System → List Act → Result System
unfolding step
run s [] = ok s
run s (a ∷ acts) = step s a >>= λ s'. run s' acts

-- What a pass does to the queue: nothing, or it takes out a request that was there and answers it.
pub data Moved (m : ReserveOrWait) (q : Passed) : Type 0 where
  nothing :
      q.answer ≡ none
      → q.manager.reservation_requests ≡ m.reservation_requests
      → q.manager.sequence_counter ≡ m.sequence_counter
      → (has_pending m ≡ true → q.manager.periodic_task_running ≡ m.periodic_task_running)
      → Moved m q
  taken :
      (a : Answer)
      → q.answer ≡ some a
      → 0 < count a.request.sequence_number m.reservation_requests
      → q.manager.reservation_requests ≡ extract a.request.sequence_number m.reservation_requests
      → q.manager.sequence_counter ≡ m.sequence_counter
      → q.manager.periodic_task_running ≡ m.periodic_task_running
      → Moved m q

abbrev There : ReserveOrWait → Request → Type 0
There m r = 0 < count r.sequence_number m.reservation_requests

All-There : (m : ReserveOrWait) → All (There m) m.reservation_requests
All-There m = count-All m.reservation_requests m.reservation_requests (λ n. omega arith)

grant-Moved :
    (m : ReserveOrWait) (w : Window) (p : Pass) (r : Request)
    → There m r
    → Holds (Moved m) (grant m w p r)
unfolding grant extract_request
grant-Moved m w p r here =
    then-Holds (Moved m) (reserve p.reserving m.mem_type r.size false) _
      (λ b. by_size b (b.1.size == 0))
  where
    by_size :
        (b : BufferResource × MemoryReservation × ℕ) (none_left : Bool)
        → Moved m (
            if none_left then record { manager = m; window = w; answer = none } else record {
              manager = extract_request m r;
              window = record w {
                last_reservation_success = p.later;
                spill_stalled = false;
                recheck_after_spill = false;
                extended_at = none;
              };
              answer = some (record { request = r; reservation = b.1 });
            })
    by_size b true = nothing refl refl refl (λ _. refl)
    by_size b false = taken (record { request = r; reservation = b.1 }) refl here refl refl refl

admit_first-Moved :
    (m : ReserveOrWait) (w : Window) (p : Pass) (rs : List Request)
    → All (There m) rs
    → Holds (Moved m) (admit_first m w p rs)
unfolding admit_first
admit_first-Moved m w p [] h = nothing refl refl refl (λ _. refl)
admit_first-Moved m w p (r ∷ rs) h =
    grant-Moved m w p (min_element r rs) (min_element-All (There m) r rs h.0 h.1)

force_first-Moved :
    (m : ReserveOrWait) (p : Pass) (rs : List Request)
    → rs ≡ m.reservation_requests
    → All (There m) rs
    → Holds (Moved m) (force_first m p rs)
unfolding force_first extract_request has_pending
force_first-Moved m p [] e h =
    nothing refl refl refl
      (λ pending. let k = subst (λ rs. is_pending rs ≡ true) (sym e) pending in absurd (cc))
force_first-Moved m p (r ∷ rs) e h =
    let chosen = min_element r (eligible_requests r.size rs) in
    let here =
      min_element-All (There m) r (eligible_requests r.size rs) h.0
        (eligible_requests-All (There m) r.size rs h.1) in
    then-Holds (Moved m) (reserve p.reserving m.mem_type chosen.size false) _
      (λ b. taken (record { request = chosen; reservation = b.1 }) refl here refl refl refl)

after_timeout-Moved :
    (m : ReserveOrWait) (p : Pass) (o : Option Window) → Holds (Moved m) (after_timeout m p o)
unfolding after_timeout admit force
after_timeout-Moved m p none = force_first-Moved m p m.reservation_requests refl (All-There m)
after_timeout-Moved m p (some w) =
    then-Holds (Moved m) (clamped_available m.mem_type p.available) _ (λ n.
      admit_first-Moved m w p (eligible_requests n m.reservation_requests)
        (eligible_requests-All (There m) n m.reservation_requests (All-There m)))

pub pass-Moved : (m : ReserveOrWait) (w : Window) (p : Pass) → Holds (Moved m) (pass m w p)
unfolding pass has_pending
pass-Moved m w p = then-Holds (Moved m) (check_timeout m.mem_type m.timeout w p) _ (λ o.
    weaken-Holds (Moved _) (Moved m) (after_timeout _ p o) counted (after_timeout-Moved _ p o))
  where
    counted :
        (q : Passed)
        → Moved
            (record m {
              periodic_memory_check_counter = (m.periodic_memory_check_counter + 1) % 2 ^ 64;
            })
            q
        → Moved m q
    counted q (nothing a b c d) = nothing a b c d
    counted q (taken a b c d e f) = taken a b c d e f
