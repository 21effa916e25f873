-- ===== src/Streaming/Reserve.antt =====
-- cpp/src/streaming/core/memory_reserve_or_wait.cpp: requests for memory that wait until it is
-- there, and the periodic task that admits them, or forces one through after the timeout.
-- The buffer resource may change at any time, so each call that reads it is given the resource as
-- it is then. Times are numbers of ticks of a clock that does not go back. The statistics, and the
-- coroutines' queues but for what is pushed into them, are left out.
pub mod Choice
pub mod Deadline
pub mod Admission
pub mod Count
pub mod System
pub mod Once
use rapidsmpf.Prelude.{
  ℕ, ◌+◌, ◌*◌, ◌%◌, ◌^◌, Bool, true, false, not, ◌&&◌, ◌||◌, ltb, leb, ◌==◌, if◌then◌else◌, Option,
  none, some, List, [], ◌∷◌,
}
use rapidsmpf.Prelude.Int.{ℤ, pos, pos_part, ltb_ℤ, max_ℤ}
use rapidsmpf.Prelude.Result.{
  Result, ok, err, ◌>>=◌, ◌>>◌, expects, reservation_error, runtime_error,
}
use rapidsmpf.Memory.Types.{MemoryType, device, same_type}
use rapidsmpf.Memory.Resource.{
  BufferResource, MemoryReservation, reserve, memory_available_for_reservation,
}

abbrev pub spill_wait_cap_factor : ℕ
spill_wait_cap_factor = 10

-- The queue of a request is known by the number of the request.
pub record Request : Type 0 where
  pub size : ℕ
  pub net_memory_delta : ℤ
  pub sequence_number : ℕ
  pub submitted_at : ℕ

-- `reservation_requests` is the ordered set, `periodic_memory_check_counter` counts the passes.
pub record ReserveOrWait : Type 0 where
  pub mem_type : MemoryType
  pub timeout : ℕ
  pub sequence_counter : ℕ
  pub reservation_requests : List Request
  pub periodic_memory_check_counter : ℕ
  pub periodic_task_running : Bool

-- The local variables of the periodic task.
pub record Window : Type 0 where
  pub last_reservation_success : ℕ
  pub extended_at : Option ℕ
  pub recheck_after_spill : Bool
  pub spill_stalled : Bool
  pub extend_generation : ℕ
  pub extend_available : ℤ

-- What one pass of the task sees: the time, the spill manager, and the resource at its three reads
-- and the time after them.
pub record Pass : Type 0 where
  pub now : ℕ
  pub spill_generation : ℕ
  pub spilling_now : Bool
  pub judged : BufferResource
  pub available : BufferResource
  pub reserving : BufferResource
  pub later : ℕ

-- Request::operator<: by size, then by sequence number.
unfoldable pub before : Request → Request → Bool
before a b = ltb a.size b.size || (a.size == b.size && ltb a.sequence_number b.sequence_number)

-- std::set::insert, which leaves out what compares equal to an element.
unfoldable pub insert : Request → List Request → List Request
unfolding before
insert a [] = a ∷ []
insert a (b ∷ bs) =
    let rest = insert a bs in
    if before a b then a ∷ b ∷ bs else if before b a then b ∷ rest else b ∷ bs

-- The part of `reserve_or_wait` that submits a request: whether a task is to be started.
unfoldable pub submit : ReserveOrWait → ℕ → ℤ → ℕ → ReserveOrWait × Bool
unfolding insert
submit m size delta now = (
  record m {
    reservation_requests =
        insert
          (record {
            size = size;
            net_memory_delta = delta;
            sequence_number = m.sequence_counter;
            submitted_at = now;
          })
          m.reservation_requests;
    sequence_counter = (m.sequence_counter + 1) % 2 ^ 64;
    periodic_task_running = true;
  },
  not m.periodic_task_running,
)

-- Either memory is there at once, or the request waits.
pub data Asked : Type 0 where
  reserved : MemoryReservation → Asked
  waits : ReserveOrWait → Bool → Asked

unfoldable pub reserve_or_wait : ReserveOrWait → BufferResource → ℕ → ℤ → ℕ → Result Asked
unfolding submit
reserve_or_wait m br size delta now = do
  (br', r, _) ← reserve br m.mem_type size false
  ok (
      if r.size == size
      then reserved r
      else waits (submit m size delta now).0 (submit m size delta now).1)

-- What the two callers make of the reservation that the wait ends with, if it is not cancelled.
unfoldable pub popped : Option MemoryReservation → Result MemoryReservation
popped none = err runtime_error
popped (some r) = ok r

unfoldable pub or_overbook :
    MemoryType → BufferResource → ℕ → MemoryReservation → Result (MemoryReservation × ℕ)
or_overbook t br size r =
    if ltb r.size size then (reserve br t size true >>= λ b. ok (b.1, b.2)) else ok (r, 0)

unfoldable pub or_fail : ℕ → MemoryReservation → Result MemoryReservation
or_fail size r = do expects (r.size == size) reservation_error; ok r

-- reserve_memory, after the wait: the policy is an argument, or the default of the options.
unfoldable pub reserve_memory :
    MemoryType
    → BufferResource
    → ℕ
    → Option Bool
    → Bool
    → Option MemoryReservation
    → Result MemoryReservation
unfolding popped or_overbook or_fail
reserve_memory t br size policy default answer = popped answer >>= λ r.
    if elim policy [ none ↦ default | some allow ↦ allow ]
    then (or_overbook t br size r >>= λ b. ok b.0)
    else or_fail size r

-- The start of a wait window.
unfoldable pub window_at : ℕ → Window
window_at now = record {
  last_reservation_success = now;
  extended_at = none;
  recheck_after_spill = false;
  spill_stalled = false;
  extend_generation = 0;
  extend_available = pos 0;
}

-- A spill that has completed during the extension must have freed memory.
unfoldable pub judge_spill : MemoryType → Window → Pass → Result Window
judge_spill t w p = memory_available_for_reservation p.judged t >>= λ available. ok (record w {
  spill_stalled = not (ltb_ℤ w.extend_available available);
  extend_generation = p.spill_generation;
  extend_available = available;
})

unfoldable pub is_extended : Option ℕ → Bool
is_extended none = false
is_extended (some at) = true

unfoldable pub judge_progress : MemoryType → Window → Pass → Result Window
unfolding judge_spill is_extended
judge_progress t w p =
    if is_extended w.extended_at
      && (not w.spill_stalled && not (p.spill_generation == w.extend_generation))
    then judge_spill t w p
    else ok w

unfoldable pub keeps_waiting : MemoryType → ℕ → Window → Pass → Bool
keeps_waiting t timeout w p =
    same_type t device
    && not w.spill_stalled
    && leb p.now (w.last_reservation_success + (1 + spill_wait_cap_factor) * timeout)
    && p.spilling_now

-- The extension begins, if it has not.
unfoldable pub extend : MemoryType → Window → Pass → Result Window
unfolding is_extended
extend t w p =
    if is_extended w.extended_at
    then ok (record w { recheck_after_spill = true })
    else (memory_available_for_reservation p.judged t >>= λ available. ok (record w {
      recheck_after_spill = true;
      extended_at = some p.now;
      extend_generation = p.spill_generation;
      extend_available = available;
    }))

-- Past the timeout: `none` ends the wait, otherwise there is another admission.
unfoldable pub past_timeout : MemoryType → ℕ → Window → Pass → Result (Option Window)
unfolding judge_progress keeps_waiting extend
past_timeout t timeout w p = judge_progress t w p >>= λ w'.
    if keeps_waiting t timeout w' p
    then (extend t w' p >>= λ w''. ok (some w''))
    else ok
        (if w'.recheck_after_spill then some (record w' { recheck_after_spill = false }) else none)

unfoldable pub check_timeout : MemoryType → ℕ → Window → Pass → Result (Option Window)
unfolding past_timeout
check_timeout t timeout w p =
    if ltb (w.last_reservation_success + timeout) p.now
    then past_timeout t timeout w p
    else ok (some w)

-- The requests of at most some size: the set is sorted by size.
unfoldable pub eligible_requests : ℕ → List Request → List Request
eligible_requests max_size [] = []
eligible_requests max_size (r ∷ rs) =
    let rest = eligible_requests max_size rs in if leb r.size max_size then r ∷ rest else []

-- std::ranges::min_element by net_memory_delta: the first of the smallest.
unfoldable pub min_element : Request → List Request → Request
min_element best [] = best
min_element best (r ∷ rs) =
    min_element (if ltb_ℤ r.net_memory_delta best.net_memory_delta then r else best) rs

-- std::set::extract
unfoldable pub extract : ℕ → List Request → List Request
extract n [] = []
extract n (r ∷ rs) = if r.sequence_number == n then rs else r ∷ extract n rs

unfoldable pub extract_request : ReserveOrWait → Request → ReserveOrWait
unfolding extract
extract_request m r = record m {
  reservation_requests = extract r.sequence_number m.reservation_requests;
}

-- What a pass does: the reservation that it pushes, and to which request.
pub record Answer : Type 0 where
  pub request : Request
  pub reservation : MemoryReservation

pub record Passed : Type 0 where
  pub manager : ReserveOrWait
  pub window : Window
  pub answer : Option Answer

abbrev passed : ReserveOrWait → Window → Option Answer → Passed
passed m w a = record { manager = m; window = w; answer = a }

-- A request that fits gets its memory, if it is still there.
unfoldable pub grant : ReserveOrWait → Window → Pass → Request → Result Passed
unfolding extract_request
grant m w p r = reserve p.reserving m.mem_type r.size false >>= λ b. ok (
    if b.1.size == 0
    then passed m w none
    else passed (extract_request m r)
        (record w {
          last_reservation_success = p.later;
          spill_stalled = false;
          recheck_after_spill = false;
          extended_at = none;
        })
        (some (record { request = r; reservation = b.1 })))

unfoldable pub admit_first : ReserveOrWait → Window → Pass → List Request → Result Passed
unfolding grant min_element
admit_first m w p [] = ok (passed m w none)
admit_first m w p (r ∷ rs) = grant m w p (min_element r rs)

-- memory_available
unfoldable pub clamped_available : MemoryType → BufferResource → Result ℕ
clamped_available t br =
    memory_available_for_reservation br t >>= λ a. ok (pos_part (max_ℤ a (pos 0)))

unfoldable pub admit : ReserveOrWait → Window → Pass → Result Passed
unfolding admit_first eligible_requests clamped_available
admit m w p = clamped_available m.mem_type p.available >>= λ max_size.
    admit_first m w p (eligible_requests max_size m.reservation_requests)

-- Forced progress, or the end of the task where nothing is pending: among the smallest requests, the one with the smallest delta, whether or not
-- there is memory for it.
unfoldable pub force_first : ReserveOrWait → Pass → List Request → Result Passed
unfolding min_element eligible_requests extract_request
force_first m p [] =
    ok (passed (record m { periodic_task_running = false }) (window_at p.later) none)
force_first m p (r ∷ rs) =
    let chosen = min_element r (eligible_requests r.size rs) in
    reserve p.reserving m.mem_type chosen.size false >>= λ b. ok (
      passed (extract_request m chosen) (window_at p.later)
        (some (record { request = chosen; reservation = b.1 })))

unfoldable pub force : ReserveOrWait → Pass → Result Passed
unfolding force_first window_at
force m p = force_first m p m.reservation_requests

-- The check at the top of the loop: with nothing pending the task ends.
unfoldable pub is_pending : List Request → Bool
is_pending [] = false
is_pending (r ∷ rs) = true

unfoldable pub has_pending : ReserveOrWait → Bool
unfolding is_pending
has_pending m = is_pending m.reservation_requests

unfoldable pub after_timeout : ReserveOrWait → Pass → Option Window → Result Passed
unfolding admit force
after_timeout m p (some w) = admit m w p
after_timeout m p none = force m p

-- One pass below that check.
unfoldable pub pass : ReserveOrWait → Window → Pass → Result Passed
unfolding check_timeout after_timeout
pass m w p =
    let counted = record m {
      periodic_memory_check_counter = (m.periodic_memory_check_counter + 1) % 2 ^ 64;
    } in
    check_timeout m.mem_type m.timeout w p >>= λ waits. after_timeout counted p waits
