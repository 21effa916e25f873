-- ===== src/Examples/ReserveRuns.antt =====
-- Three requests for device memory, of which two fit: the one with the smaller delta goes first.
use rapidsmpf.Prelude.{
  ℕ, ◌≤◌, ◌≡◌, refl, none, some, List, [], ◌∷◌, arith, ◌⊎◌, inl, true, false, leb,
}
use rapidsmpf.Prelude.Int.{ℤ, pos, negsuc, ◌+ℤ◌, ◌-ℤ◌, max_ℤ}
use rapidsmpf.Prelude.Result.{Result, ok, err}
use rapidsmpf.Memory.Types.{device}
use rapidsmpf.Memory.Resource.{
  BufferResource, MemoryReservation, reserve, memory_available_for_reservation, book,
  headroom_after, memory_available,
}
use rapidsmpf.Streaming.Reserve.{
  Request, ReserveOrWait, Pass, Passed, Answer, window_at, admit, force, pass, clamped_available,
  extract_request, has_pending, before, reserve_or_wait, reserve_memory,
}
use rapidsmpf.Streaming.Reserve.Choice.{All, IsSorted, ahead}
use rapidsmpf.Streaming.Reserve.Admission.{admit-first, force-first, reserve_memory-full}
use rapidsmpf.Streaming.Reserve.Deadline.{pass-ends_wait, Answers}
use rapidsmpf.Streaming.Reserve.System.{Act, System, asks, looks, passes, shuts_down, run}
use rapidsmpf.Streaming.Reserve.Once.{run-accounts, start, AccountsFor}

abbrev memory_of : ℕ → BufferResource
memory_of n = record {
  memory_limits = λ t. pos n;
  allocated = λ t. pos 0;
  has_pinned = false;
  has_disk = false;
  memory_reserved = λ t. 0;
  overbooking_by_default = false;
}

abbrev request : ℕ → ℤ → ℕ → Request
request size delta n = record {
  size = size;
  net_memory_delta = delta;
  sequence_number = n;
  submitted_at = 0;
}

abbrev waiting : ReserveOrWait
waiting = record {
  mem_type = device;
  timeout = 5;
  sequence_counter = 3;
  reservation_requests =
      request 30 (pos 5) 0 ∷ request 60 (negsuc 0) 1 ∷ request 200 (negsuc 7) 2 ∷ [];
  periodic_memory_check_counter = 0;
  periodic_task_running = true;
}

abbrev pass_at : ℕ → ℕ → Pass
pass_at now room = record {
  now = now;
  spill_generation = 0;
  spilling_now = true;
  judged = memory_of room;
  available = memory_of room;
  reserving = memory_of room;
  later = now;
}

passed_or : Passed → Result Passed → Passed
passed_or q (err e) = q
passed_or q (ok p) = p

abbrev untouched : Passed
untouched = record { manager = waiting; window = window_at 0; answer = none }

abbrev admitted : Passed
admitted = passed_or untouched (admit waiting (window_at 0) (pass_at 1 100))

abbrev forced : Passed
forced = passed_or untouched (force waiting (pass_at 60 10))

abbrev late : Passed
late = passed_or untouched (pass waiting (window_at 0) (pass_at 60 10))

abbrev later_still : Passed
later_still = passed_or untouched (pass waiting late.window (pass_at 61 10))

abbrev answer_of : ℕ → ℤ → ℕ → ℕ → Answer
answer_of size delta n got = record {
  request = request size delta n;
  reservation = record { mem_type = device; size = got };
}

room : clamped_available device (memory_of 100) ≡ ok 100
unfolding clamped_available memory_available_for_reservation memory_available ◌-ℤ◌ max_ℤ
room = refl

admits : admit waiting (window_at 0) (pass_at 1 100) ≡ ok admitted
unfolding admit passed_or memory_available_for_reservation memory_available ◌-ℤ◌ max_ℤ reserve
    headroom_after ◌+ℤ◌ book
admits = refl

admits_second : admitted.answer ≡ some (answer_of 60 (negsuc 0) 1 60)
unfolding admit passed_or memory_available_for_reservation memory_available ◌-ℤ◌ max_ℤ reserve
    headroom_after ◌+ℤ◌ book
admits_second = refl

waiting-IsSorted : IsSorted waiting.reservation_requests
unfolding before
waiting-IsSorted = ((refl, (refl, tt)), ((refl, tt), (tt, tt)))

admit-first_example :
    (60 ≤ 100)
    × All
        (λ r. leb r.size 100 ≡ true → ahead r (request 60 (negsuc 0) 1) ≡ false)
        waiting.reservation_requests
    × ◌≡◌ {A = ℕ} 60 60
    × (admitted.manager ≡ extract_request waiting (request 60 (negsuc 0) 1))
admit-first_example =
    admit-first waiting (window_at 0) (pass_at 1 100) admitted (answer_of 60 (negsuc 0) 1 60) 100
      waiting-IsSorted room admits admits_second

forces : force waiting (pass_at 60 10) ≡ ok forced
unfolding force passed_or memory_available_for_reservation memory_available ◌-ℤ◌ max_ℤ reserve
    headroom_after ◌+ℤ◌ book
forces = refl

forces_smallest : forced.answer ≡ some (answer_of 30 (pos 5) 0 0)
unfolding force passed_or memory_available_for_reservation memory_available ◌-ℤ◌ max_ℤ reserve
    headroom_after ◌+ℤ◌ book
forces_smallest = refl

force-first_example :
    All (λ r. 30 ≤ r.size) waiting.reservation_requests
    × All (λ r. r.size ≡ 30 → ahead r (request 30 (pos 5) 0) ≡ false) waiting.reservation_requests
    × (forced.manager ≡ extract_request waiting (request 30 (pos 5) 0))
force-first_example =
    force-first waiting (pass_at 60 10) forced (answer_of 30 (pos 5) 0 0) waiting-IsSorted forces
      forces_smallest

waits_on : has_pending waiting ≡ true
unfolding has_pending
waits_on = refl

is_late : pass waiting (window_at 0) (pass_at 60 10) ≡ ok late
unfolding pass passed_or window_at memory_available_for_reservation memory_available ◌-ℤ◌ max_ℤ
    reserve headroom_after ◌+ℤ◌ book
is_late = refl

is_later_still : pass waiting late.window (pass_at 61 10) ≡ ok later_still
unfolding pass passed_or window_at memory_available_for_reservation memory_available ◌-ℤ◌ max_ℤ
    reserve headroom_after ◌+ℤ◌ book
is_later_still = refl

pass-ends_wait_example : Answers late ⊎ Answers later_still
unfolding window_at
pass-ends_wait_example =
    pass-ends_wait waiting waiting (window_at 0) (pass_at 60 10) (pass_at 61 10) late later_still
      waits_on waits_on refl (omega arith) (omega arith) is_late is_later_still

-- A request that waits, the task that looks, and a shutdown before it is answered.
abbrev some_acts : List Act
some_acts =
    asks (memory_of 10) 30 (pos 5) 1 1
    ∷ looks
    ∷ asks (memory_of 10) 60 (negsuc 0) 2 2
    ∷ passes (pass_at 3 70)
    ∷ shuts_down
    ∷ looks
    ∷ []

system_or : System → Result System → System
system_or s (err e) = s
system_or s (ok t) = t

abbrev after_acts : System
after_acts = system_or (start device 5) (run (start device 5) some_acts)

acts_return : run (start device 5) some_acts ≡ ok after_acts
unfolding run start system_or pass reserve_or_wait has_pending memory_available_for_reservation
    memory_available ◌-ℤ◌ max_ℤ reserve headroom_after ◌+ℤ◌ book
acts_return = refl

run-accounts_example : AccountsFor after_acts
run-accounts_example = run-accounts device 5 some_acts after_acts (omega arith) acts_return

-- Nothing came of the wait, and overbooking is allowed.
abbrev of_size : ℕ → MemoryReservation
of_size n = record { mem_type = device; size = n }

overbooks :
    reserve_memory device (memory_of 10) 30 (some true) false (some (of_size 0)) ≡ ok (of_size 30)
unfolding reserve_memory memory_available_for_reservation memory_available ◌-ℤ◌ max_ℤ reserve
    headroom_after ◌+ℤ◌ book
overbooks = refl

reserve_memory-full_example : (of_size 30).size ≡ 30
reserve_memory-full_example =
    reserve_memory-full device (memory_of 10) 30 (some true) false (of_size 0) (of_size 30)
      (inl refl) overbooks
