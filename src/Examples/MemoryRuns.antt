-- ===== src/Examples/MemoryRuns.antt =====
-- Memory accounting on small inputs.
use rapidsmpf.Prelude.{
  ℕ, ◌+◌, ◌==◌, ◌≡◌, ◌≢◌, refl, ap, Bool-cases, inl, inr, none, some, List, [], ◌∷◌, true, false,
  arith, if◌then◌else◌, get_elem?,
}
use rapidsmpf.Prelude.Int.{ℤ, pos, neg_part, ◌-ℤ◌, ◌+ℤ◌, ◌≤ℤ◌, int_laws}
use rapidsmpf.Prelude.Result.{Result, ok, err}
use rapidsmpf.Prelude.Assoc.{find, contains, assign}
use rapidsmpf.Memory.Types.{MemoryType, device, same_type}
use rapidsmpf.Memory.Resource.{
  BufferResource, MemoryReservation, reserve, clear, memory_available, headroom_after, book,
}
use rapidsmpf.Memory.Resource.Limits.{reserve-Outcome, reserve-within, Outcome}
use rapidsmpf.Memory.Resource.Ledger.{
  Ledger, Call, reserves, releases, splits, destroys, limits, IsBalanced, run-IsBalanced,
  clear-returns, held,
}
use rapidsmpf.Memory.Resource.Ledger
use rapidsmpf.Memory.Record.{ScopedMemoryRecord, Event, allocated, freed, empty, replay, IsSane}
use rapidsmpf.Memory.Adaptor.{
  Adaptor, safe_cast, allocate, fresh, begin_scoped_memory_record, end_scoped_memory_record,
  stack_of, merge_into_parent,
}
use rapidsmpf.Memory.Adaptor.Scopes.{
  Op, enter, alloc, step, Works, main-run, scope-report, scope-nests, events, left_by,
}
use rapidsmpf.Memory.Adaptor.Scopes
use rapidsmpf.Memory.Spill.{
  SpillManager, insert_priority, add_spill_function, remove_spill_function, spill,
}
use rapidsmpf.Memory.Spill.Registry.{
  IsRegistered, add_spill_function-IsRegistered, remove_spill_function-IsRegistered, occurs,
}
use rapidsmpf.Memory.Spill.Progress.{spill-exhausts, call_all, AllReturn}

abbrev resource : BufferResource
resource = record {
  memory_limits = λ t. pos 100;
  allocated = λ t. pos 20;
  has_pinned = false;
  has_disk = false;
  memory_reserved = λ t. 0;
  overbooking_by_default = true;
}

abbrev outcome :
    Result (BufferResource × MemoryReservation × ℕ) → BufferResource × MemoryReservation × ℕ
outcome (ok r) = r
outcome (err e) = (resource, record { mem_type = device; size = 0 }, 0)

abbrev granted : BufferResource × MemoryReservation × ℕ
granted = outcome (reserve resource device 50 false)

reserves_50 : reserve resource device 50 false ≡ ok (granted.0, granted.1, granted.2)
unfolding reserve headroom_after memory_available ◌-ℤ◌ ◌+ℤ◌ book
reserves_50 = refl

full : granted.1.size ≡ 50
unfolding reserve headroom_after memory_available ◌-ℤ◌ ◌+ℤ◌ book
full = refl

reserve-within_example :
    (a : ℤ) × (memory_available granted.0 device ≡ ok a)
    × (pos (granted.0.memory_reserved device) ≤ℤ a)
reserve-within_example =
    reserve-within resource device 50 granted.0 granted.1 granted.2 reserves_50 full (omega arith)

reserve-Outcome_example :
    (a : ℤ) × (memory_available resource device ≡ ok a)
    × (granted.2 ≡ neg_part (a -ℤ pos 50))
    × (granted.1.mem_type ≡ device)
    × Outcome resource device 50 false granted.0 granted.1 granted.2
reserve-Outcome_example =
    reserve-Outcome resource device 50 false granted.0 granted.1 granted.2 reserves_50

abbrev nothing_live : Ledger
nothing_live = record { br = resource; live = [] }

abbrev calls : List Call
calls =
    reserves device 50 false
    ∷ splits 0 20
    ∷ reserves device 90 false
    ∷ releases 1 5
    ∷ destroys 0
    ∷ []

nothing_live-IsBalanced : IsBalanced nothing_live
unfolding held
nothing_live-IsBalanced = record { balanced = λ t. refl }

run-IsBalanced_example : IsBalanced (Ledger.run nothing_live calls)
run-IsBalanced_example = run-IsBalanced nothing_live calls nothing_live-IsBalanced

abbrev one_call : List Call
one_call = reserves device 50 false ∷ []

lives :
    get_elem? (Ledger.run nothing_live one_call).live 0
    ≡ some (record { mem_type = device; size = 50 })
unfolding Ledger.run Ledger.step reserve headroom_after memory_available ◌-ℤ◌ ◌+ℤ◌ book
lives = refl

clear-returns_example :
    (br : BufferResource) × (clear
        (Ledger.run nothing_live one_call).br
        (record { mem_type = device; size = 50 })
      ≡ ok (br, record { mem_type = device; size = 0 }))
    × ((t : MemoryType)
        → br.memory_reserved t + (if same_type device t then 50 else 0)
          ≡ (Ledger.run nothing_live one_call).br.memory_reserved t)
clear-returns_example =
    clear-returns nothing_live one_call 0 (record { mem_type = device; size = 50 })
      nothing_live-IsBalanced lives

abbrev some_events : List Event
some_events = allocated (pos 8) ∷ allocated (pos 4) ∷ freed (pos 8) ∷ []

abbrev parent : ScopedMemoryRecord
parent = replay empty (allocated (pos 3) ∷ [])

empty-IsSane : IsSane empty
empty-IsSane = record { peaked = omega int_laws; largest = omega int_laws }

abbrev ops : List Op
ops = Scopes.enter 1 ∷ Scopes.alloc 1 7 8 ∷ Scopes.free 7 8 ∷ Scopes.leave 1 ∷ Scopes.leave 1 ∷ []

main-run_example : (Scopes.run fresh ops).main_record ≡ replay fresh.main_record (events ops)
main-run_example = main-run fresh ops

abbrev inside : Adaptor
inside = begin_scoped_memory_record 1 fresh

-- Thread 1 allocates at 7; then thread 2 opens a scope and allocates at 9 there.
abbrev shared : Adaptor
shared = (allocate 2 9 5 (begin_scoped_memory_record 2 (allocate 1 7 8 inside).0)).0

other : ◌≢◌ {A = ℕ} 2 1
other e = omega (arith, e)

worked : Works 1 inside (allocated (pos 8) ∷ []) shared
unfolding find begin_scoped_memory_record step safe_cast
worked = Scopes.allocates {a = inside} 7 8 (pos 8) refl refl (
    Scopes.others (enter 2) (Scopes.other_enters 2 other)
      (Scopes.others (alloc 2 9 5) (Scopes.other_allocates 2 9 5 other) Scopes.rest))

scope-report_example :
    end_scoped_memory_record 1 shared
    ≡ ok (
      replay empty (allocated (pos 8) ∷ []),
      record shared {
        record_stacks =
            assign 1
              (merge_into_parent (replay empty (allocated (pos 8) ∷ [])) (stack_of 1 fresh))
              shared.record_stacks;
      },
    )
scope-report_example = scope-report 1 fresh shared (allocated (pos 8) ∷ []) worked

nested_work :
    Works 1
      (begin_scoped_memory_record 1 inside)
      (allocated (pos 8) ∷ [])
      (allocate 1 7 8 (begin_scoped_memory_record 1 inside)).0
unfolding find begin_scoped_memory_record safe_cast
nested_work =
    Scopes.allocates {a = begin_scoped_memory_record 1 inside} 7 8 (pos 8) refl refl Scopes.rest

inside_stack : stack_of 1 inside ≡ empty ∷ []
unfolding stack_of find begin_scoped_memory_record assign
inside_stack = refl

scope-nests_example :
    let b = (allocate 1 7 8 (begin_scoped_memory_record 1 inside)).0 in
    stack_of 1 (left_by b (end_scoped_memory_record 1 b))
    ≡ replay empty (allocated (pos 8) ∷ []) ∷ []
scope-nests_example =
    scope-nests 1 inside (allocate 1 7 8 (begin_scoped_memory_record 1 inside)).0
      (allocated (pos 8) ∷ []) empty [] inside_stack empty-IsSane nested_work

abbrev gives_3 : ℕ → ℕ → ℕ × Result ℕ
gives_3 w n = (w + 1, ok 3)

abbrev no_functions : SpillManager ℕ
no_functions = record {
  spill_functions = [];
  priorities = [];
  id_counter = 0;
  spills_in_flight = 0;
  spill_generation = 0;
  periodic_spill_thread = none;
}

no_functions-IsRegistered : IsRegistered no_functions
unfolding contains
no_functions-IsRegistered = record { sorted = tt; same = λ id. refl; fresh = λ id c. cc }

abbrev one_function : SpillManager ℕ
one_function = (add_spill_function no_functions gives_3 (pos 5)).0

add_spill_function-IsRegistered_example :
    ((add_spill_function no_functions gives_3 (pos 5)).1 ≡ ok 0)
    × (contains 0 no_functions.spill_functions ≡ false)
    × IsRegistered one_function
add_spill_function-IsRegistered_example =
    add_spill_function-IsRegistered no_functions gives_3 (pos 5) (omega arith)
      no_functions-IsRegistered

one_function-IsRegistered : IsRegistered one_function
one_function-IsRegistered =
    (add_spill_function-IsRegistered no_functions gives_3 (pos 5) (omega arith)
      no_functions-IsRegistered).2

remove_spill_function-IsRegistered_example :
    IsRegistered (remove_spill_function one_function 0)
    × (occurs 0 (remove_spill_function one_function 0).priorities ≡ 0)
    × (contains 0 (remove_spill_function one_function 0).spill_functions ≡ false)
remove_spill_function-IsRegistered_example =
    remove_spill_function-IsRegistered one_function 0 one_function-IsRegistered

abbrev spilled_10 : (SpillManager ℕ × ℕ) × Result ℕ
spilled_10 = spill one_function 4 10

spills_3 : spill one_function 4 10 ≡ ((spilled_10.0.0, 5), ok 3)
unfolding spill add_spill_function contains insert_priority find assign
spills_3 = refl

spill-exhausts_example :
    call_all one_function.spill_functions 10 4 0 one_function.priorities ≡ (5, ok 3)
spill-exhausts_example = spill-exhausts one_function 4 5 10 3 spilled_10.0.0 spills_3 (omega arith)

only_one :
    (id : ℕ) (f : ℕ → ℕ → ℕ × Result ℕ)
    → find id one_function.spill_functions ≡ some f
    → f ≡ gives_3
unfolding find add_spill_function contains assign
only_one id f e = elim (Bool-cases (0 == id)) [
  | inl same ↦ let e' = rw same at e in cc
  | inr other ↦ let e' = rw other at e in cc
]

all_return : AllReturn one_function.spill_functions
all_return id f w n e = (3, ap (λ g. (g w n).1) (only_one id f e))
