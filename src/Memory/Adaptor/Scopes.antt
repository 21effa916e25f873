-- ===== src/Memory/Adaptor/Scopes.antt =====
-- What the adaptor of rmm_resource_adaptor_impl.hpp reports: the main record counts every event,
-- and a scope reports the events of its thread between its two ends.
use rapidsmpf.Prelude.{
  ℕ, ◌≡◌, ◌≢◌, Bool-cases, ◌==◌, ==_iff, refl, ap, sym, subst, ◌∙◌, Option-cases, inl, inr, none,
  some, List, [], ◌∷◌, arith,
}
use rapidsmpf.Prelude.Int.{ℤ}
use rapidsmpf.Prelude.Result.{Result, ok, err, Result-cases, ok-injective}
use rapidsmpf.Prelude.Assoc.{find, assign, erase, find-assign}
use rapidsmpf.Memory.Record.{
  ScopedMemoryRecord, Event, allocated, freed, empty, observe, replay, record_allocation,
  record_deallocation, IsSane, merge-eq-direct,
}
use rapidsmpf.Memory.Adaptor.{
  Adaptor, stack_of, begin_scoped_memory_record, end_scoped_memory_record, close_scope, safe_cast,
  count_allocated, count_freed, merge_into_parent, allocate, deallocate, scoped_allocation,
  record_scoped_allocation, record_scoped_deallocation,
}

pub data Op : Type 0 where
  enter : ℕ → Op
  leave : ℕ → Op
  alloc : ℕ → ℕ → ℕ → Op
  free : ℕ → ℕ → Op

-- The state after a call that throws is the one that the call left.
abbrev pub left_by : Adaptor → Result (ScopedMemoryRecord × Adaptor) → Adaptor
left_by a (ok (r, b)) = b
left_by a (err e) = a

-- No state is left by a program that has ended; it is said to be the one before.
abbrev pub freed_by : Adaptor → Result Adaptor → Adaptor
freed_by a (ok b) = b
freed_by a (err e) = a

unfoldable pub step : Adaptor → Op → Adaptor
step a (enter t) = begin_scoped_memory_record t a
step a (leave t) = left_by a (end_scoped_memory_record t a)
step a (alloc t p n) = (allocate t p n a).0
step a (free p n) = freed_by a (deallocate p n a)

unfoldable pub run : Adaptor → List Op → Adaptor
run a [] = a
run a (o ∷ os) = run (step a o) os

-- The events that the operations report to the main record.
unfoldable pub events : List Op → List Event
events [] = []
events (enter t ∷ os) = events os
events (leave t ∷ os) = events os
events (alloc t p n ∷ os) =
    let rest = events os in elim (safe_cast n) [ ok k ↦ allocated k ∷ rest | err e ↦ rest ]
events (free p n ∷ os) =
    let rest = events os in elim (safe_cast n) [ ok k ↦ freed k ∷ rest | err e ↦ rest ]

main-close_scope :
    (t : ℕ) (a : Adaptor) (s : List ScopedMemoryRecord)
    → (left_by a (close_scope t a s)).main_record ≡ a.main_record
unfolding close_scope
main-close_scope t a [] = refl
main-close_scope t a (r ∷ s) = refl

main-leave :
    (t : ℕ) (a : Adaptor) → (left_by a (end_scoped_memory_record t a)).main_record ≡ a.main_record
unfolding end_scoped_memory_record
main-leave t a = ground (arith)

main-record_scoped_allocation :
    (t p : ℕ) (n : ℤ) (a : Adaptor) (s : List ScopedMemoryRecord)
    → (record_scoped_allocation t p n a s).0.main_record ≡ a.main_record
unfolding record_scoped_allocation
main-record_scoped_allocation t p n a [] = refl
main-record_scoped_allocation t p n a (r ∷ s) = ground arith

main-scoped_allocation :
    (t p : ℕ) (n : ℤ) (a : Adaptor) (m : List (ℕ × List ScopedMemoryRecord))
    → (scoped_allocation t p n a m).0.main_record ≡ a.main_record
unfolding scoped_allocation
main-scoped_allocation t p n a [] = refl
main-scoped_allocation t p n a (e ∷ m) = main-record_scoped_allocation t p n a (stack_of t a)

main-record_scoped_deallocation :
    (t : ℕ) (n : ℤ) (a : Adaptor) (s : List ScopedMemoryRecord)
    → (record_scoped_deallocation t n a s).main_record ≡ a.main_record
unfolding record_scoped_deallocation
main-record_scoped_deallocation t n a [] = refl
main-record_scoped_deallocation t n a (r ∷ s) = refl

main-count_freed :
    (p : ℕ) (n : ℤ) (a : Adaptor)
    → (count_freed p n a).main_record ≡ record_deallocation a.main_record n
unfolding count_freed
main-count_freed p n a = elim (Option-cases (find p a.allocating_threads)) [
  | inl e ↦ rw (e, count_freed) refl
  | inr (t, e) ↦ rw (e, count_freed) (main-record_scoped_deallocation t n _ _)
]

main-allocate :
    (t p n : ℕ) (a : Adaptor)
    → (allocate t p n a).0.main_record
      ≡ elim (safe_cast n) [ ok k ↦ record_allocation a.main_record k | err e ↦ a.main_record ]
unfolding allocate count_allocated
main-allocate t p n a = elim (Result-cases (safe_cast n)) [
  | inl (k, e) ↦ rw (e, allocate) (main-scoped_allocation t p k _ a.record_stacks)
  | inr (x, e) ↦ rw (e, allocate) refl
]

main-deallocate :
    (p n : ℕ) (a : Adaptor)
    → (freed_by a (deallocate p n a)).main_record
      ≡ elim (safe_cast n) [ ok k ↦ record_deallocation a.main_record k | err e ↦ a.main_record ]
unfolding deallocate
main-deallocate p n a = elim (Result-cases (safe_cast n)) [
  | inl (k, e) ↦ rw (e, deallocate) (main-count_freed p k a)
  | inr (x, e) ↦ rw (e, deallocate) refl
]

-- An event is there when its size fits.
counted-event :
    (os : List Op) (r : ScopedMemoryRecord) (size : Result ℤ) (event : ℤ → Event)
    (f : ScopedMemoryRecord → ℤ → ScopedMemoryRecord)
    → ((k : ℤ) → observe r (event k) ≡ f r k)
    → replay (elim size [ ok k ↦ f r k | err e ↦ r ]) (events os)
      ≡ replay r (elim size [ ok k ↦ event k ∷ events os | err e ↦ events os ])
unfolding replay
counted-event os r (ok k) event f same = ap (λ q. replay q (events os)) (sym (same k))
counted-event os r (err e) event f same = refl

-- Scopes, threads and errors do not disturb the main record: after any operations it has seen
-- every allocation and deallocation once, in order, but for those of 2 ^ 63 bytes or more, which throw.
pub main-run :
    (a : Adaptor) (os : List Op) → (run a os).main_record ≡ replay a.main_record (events os)
unfolding run events replay step observe begin_scoped_memory_record
main-run a [] = refl
main-run a (enter t ∷ os) = main-run (step a (enter t)) os
main-run a (leave t ∷ os) =
    main-run (step a (leave t)) os ∙ ap (λ r. replay r (events os)) (main-leave t a)
main-run a (alloc t p n ∷ os) =
    main-run (step a (alloc t p n)) os
    ∙ ap (λ r. replay r (events os)) (main-allocate t p n a)
    ∙ counted-event os a.main_record (safe_cast n) allocated record_allocation (λ k. refl)
main-run a (free p n ∷ os) =
    main-run (step a (free p n)) os
    ∙ ap (λ r. replay r (events os)) (main-deallocate p n a)
    ∙ counted-event os a.main_record (safe_cast n) freed record_deallocation (λ k. refl)

-- What threads other than `t` do: they open and close scopes, allocate, and free what is not charged
-- to `t`.
pub data Elsewhere (t : ℕ) (a : Adaptor) : Op → Type 0 where
  other_enters : (u : ℕ) → u ≢ t → Elsewhere t a (enter u)
  other_leaves : (u : ℕ) → u ≢ t → Elsewhere t a (leave u)
  other_allocates : (u p n : ℕ) → u ≢ t → Elsewhere t a (alloc u p n)
  other_frees : (p n : ℕ) → find p a.allocating_threads ≢ some t → Elsewhere t a (free p n)

-- Thread `t` allocates at new addresses, its pointers are freed, by whichever thread, and in between
-- other threads act. The events are those that are charged to `t`.
pub data Works (t : ℕ) : Adaptor → List Event → Adaptor → Type 0 where
  rest : {a : Adaptor} → Works t a [] a
  allocates :
      {a b : Adaptor} {es : List Event} (p n : ℕ) (k : ℤ)
      → safe_cast n ≡ ok k
      → find p a.allocating_threads ≡ none
      → Works t (allocate t p n a).0 es b
      → Works t a (allocated k ∷ es) b
  frees :
      {a a' b : Adaptor} {es : List Event} (p n : ℕ) (k : ℤ)
      → safe_cast n ≡ ok k
      → find p a.allocating_threads ≡ some t
      → deallocate p n a ≡ ok a'
      → Works t a' es b
      → Works t a (freed k ∷ es) b
  others :
      {a b : Adaptor} {es : List Event} (o : Op)
      → Elsewhere t a o
      → Works t (step a o) es b
      → Works t a es b

find-assign_self {ℓ} :
    {V : Type ℓ} (k : ℕ) (v : V) (m : List (ℕ × V)) → find k (assign k v m) ≡ some v
find-assign_self k v m = rw find-assign (ground arith)

stack_of_found :
    (t : ℕ) (a : Adaptor) (s : List ScopedMemoryRecord)
    → find t a.record_stacks ≡ some s
    → stack_of t a ≡ s
unfolding stack_of
stack_of_found t a s h = rw (h, stack_of) refl

no_scope :
    (t : ℕ) {m : List (ℕ × List ScopedMemoryRecord)} (r : ScopedMemoryRecord)
    (outer : List ScopedMemoryRecord)
    → m ≡ []
    → ¬ (find t m ≡ some (r ∷ outer))
unfolding find
no_scope t r outer e h = cc (ap (find t) e)

scoped_allocation-top :
    (t p : ℕ) (n : ℤ) (a : Adaptor) (m : List (ℕ × List ScopedMemoryRecord))
    (r : ScopedMemoryRecord) (outer : List ScopedMemoryRecord)
    → a.record_stacks ≡ m
    → find t a.record_stacks ≡ some (r ∷ outer)
    → find p a.allocating_threads ≡ none
    → find t (scoped_allocation t p n a m).0.record_stacks ≡ some (record_allocation r n ∷ outer)
unfolding scoped_allocation
scoped_allocation-top t p n a [] r outer e h f = absurd (no_scope t r outer e h)
scoped_allocation-top t p n a (x ∷ m) r outer e h f = rw (stack_of_found t a (r ∷ outer) h) (
    unfold record_scoped_allocation in
    rw (f, record_scoped_allocation) (find-assign_self t _ a.record_stacks))

count_freed-top :
    (t p : ℕ) (n : ℤ) (a : Adaptor) (r : ScopedMemoryRecord) (outer : List ScopedMemoryRecord)
    → find t a.record_stacks ≡ some (r ∷ outer)
    → find p a.allocating_threads ≡ some t
    → find t (count_freed p n a).record_stacks ≡ some (record_deallocation r n ∷ outer)
unfolding count_freed
count_freed-top t p n a r outer h f =
    rw (f, count_freed)
      (rw
        (stack_of_found t
          (record a {
            main_record = record_deallocation a.main_record n;
            allocating_threads = erase p a.allocating_threads;
          })
          (r ∷ outer) h)
        (unfold record_scoped_deallocation in find-assign_self t _ a.record_stacks))

allocate-top :
    (t p n : ℕ) (k : ℤ) (a : Adaptor) (r : ScopedMemoryRecord) (outer : List ScopedMemoryRecord)
    → safe_cast n ≡ ok k
    → find t a.record_stacks ≡ some (r ∷ outer)
    → find p a.allocating_threads ≡ none
    → find t (allocate t p n a).0.record_stacks ≡ some (record_allocation r k ∷ outer)
unfolding allocate count_allocated
allocate-top t p n k a r outer e h f =
    rw (e, allocate) (scoped_allocation-top t p k _ a.record_stacks r outer refl h f)

deallocate-top :
    (t p n : ℕ) (k : ℤ) (a a' : Adaptor) (r : ScopedMemoryRecord) (outer : List ScopedMemoryRecord)
    → safe_cast n ≡ ok k
    → find t a.record_stacks ≡ some (r ∷ outer)
    → find p a.allocating_threads ≡ some t
    → deallocate p n a ≡ ok a'
    → find t a'.record_stacks ≡ some (record_deallocation r k ∷ outer)
unfolding deallocate
deallocate-top t p n k a a' r outer e h f d =
    subst (λ b. find t b.record_stacks ≡ some (record_deallocation r k ∷ outer))
      (ok-injective (rw e at d)) (count_freed-top t p k a r outer h f)

-- A write to the stack of another thread.
find-assign_other {ℓ} :
    {V : Type ℓ} (u t : ℕ) (v : V) (m : List (ℕ × V)) → u ≢ t → find t (assign u v m) ≡ find t m
find-assign_other u t v m ne =
    rw find-assign
      (elim (Bool-cases (u == t)) [ inl e ↦ absurd (ne ((==_iff u t).0 e)) | inr e ↦ rw e refl ])

close_scope-other :
    (u t : ℕ) (a : Adaptor) (s : List ScopedMemoryRecord)
    → u ≢ t
    → find t (left_by a (close_scope u a s)).record_stacks ≡ find t a.record_stacks
unfolding close_scope
close_scope-other u t a [] ne = refl
close_scope-other u t a (r ∷ s) ne = find-assign_other u t _ a.record_stacks ne

leave-other :
    (u t : ℕ) (a : Adaptor)
    → u ≢ t
    → find t (left_by a (end_scoped_memory_record u a)).record_stacks ≡ find t a.record_stacks
unfolding end_scoped_memory_record
leave-other u t a ne = elim (Option-cases (find u a.record_stacks)) [
  | inl e ↦ rw (e, end_scoped_memory_record) refl
  | inr (s, e) ↦ rw (e, end_scoped_memory_record) (close_scope-other u t a s ne)
]

record_scoped_allocation-other :
    (u t p : ℕ) (n : ℤ) (a : Adaptor) (s : List ScopedMemoryRecord)
    → u ≢ t
    → find t (record_scoped_allocation u p n a s).0.record_stacks ≡ find t a.record_stacks
unfolding record_scoped_allocation
record_scoped_allocation-other u t p n a [] ne = find-assign_other u t [] a.record_stacks ne
record_scoped_allocation-other u t p n a (r ∷ s) ne =
    elim (Option-cases (find p a.allocating_threads)) [
      | inl e ↦ rw (e, record_scoped_allocation) (find-assign_other u t _ a.record_stacks ne)
      | inr (v, e) ↦ rw (e, record_scoped_allocation) (find-assign_other u t _ a.record_stacks ne)
    ]

scoped_allocation-other :
    (u t p : ℕ) (n : ℤ) (a : Adaptor) (m : List (ℕ × List ScopedMemoryRecord))
    → u ≢ t
    → find t (scoped_allocation u p n a m).0.record_stacks ≡ find t a.record_stacks
unfolding scoped_allocation
scoped_allocation-other u t p n a [] ne = refl
scoped_allocation-other u t p n a (e ∷ m) ne =
    record_scoped_allocation-other u t p n a (stack_of u a) ne

record_scoped_deallocation-other :
    (u t : ℕ) (n : ℤ) (a : Adaptor) (s : List ScopedMemoryRecord)
    → u ≢ t
    → find t (record_scoped_deallocation u n a s).record_stacks ≡ find t a.record_stacks
unfolding record_scoped_deallocation
record_scoped_deallocation-other u t n a [] ne = find-assign_other u t _ a.record_stacks ne
record_scoped_deallocation-other u t n a (r ∷ s) ne = find-assign_other u t _ a.record_stacks ne

count_freed-other :
    (t p : ℕ) (n : ℤ) (a : Adaptor)
    → find p a.allocating_threads ≢ some t
    → find t (count_freed p n a).record_stacks ≡ find t a.record_stacks
unfolding count_freed
count_freed-other t p n a ne = elim (Option-cases (find p a.allocating_threads)) [
  | inl e ↦ rw (e, count_freed) refl
  | inr (u, e) ↦
      rw (e, count_freed)
        (record_scoped_deallocation-other u t n _ _ (λ same. ne (e ∙ ap some same)))
]

allocate-other :
    (u t p n : ℕ) (a : Adaptor)
    → u ≢ t
    → find t (allocate u p n a).0.record_stacks ≡ find t a.record_stacks
unfolding allocate count_allocated
allocate-other u t p n a ne = elim (Result-cases (safe_cast n)) [
  | inl (k, e) ↦ rw (e, allocate) (scoped_allocation-other u t p k _ a.record_stacks ne)
  | inr (x, e) ↦ rw (e, allocate) refl
]

deallocate-other :
    (t p n : ℕ) (a : Adaptor)
    → find p a.allocating_threads ≢ some t
    → find t (freed_by a (deallocate p n a)).record_stacks ≡ find t a.record_stacks
unfolding deallocate
deallocate-other t p n a ne = elim (Result-cases (safe_cast n)) [
  | inl (k, e) ↦ rw (e, deallocate) (count_freed-other t p k a ne)
  | inr (x, e) ↦ rw (e, deallocate) refl
]

-- The other threads leave the scopes of `t` alone.
Elsewhere-stack :
    (t : ℕ) (a : Adaptor) (o : Op)
    → Elsewhere t a o
    → find t (step a o).record_stacks ≡ find t a.record_stacks
unfolding step begin_scoped_memory_record
Elsewhere-stack t a _ (other_enters u ne) = find-assign_other u t _ a.record_stacks ne
Elsewhere-stack t a _ (other_leaves u ne) = leave-other u t a ne
Elsewhere-stack t a _ (other_allocates u p n ne) = allocate-other u t p n a ne
Elsewhere-stack t a _ (other_frees p n ne) = deallocate-other t p n a ne

Works-top :
    {t : ℕ} {a b : Adaptor} {es : List Event} (r : ScopedMemoryRecord)
    (outer : List ScopedMemoryRecord)
    → Works t a es b
    → find t a.record_stacks ≡ some (r ∷ outer)
    → find t b.record_stacks ≡ some (replay r es ∷ outer)
unfolding replay observe
Works-top r outer rest h = h
Works-top {t} r outer (allocates {a = a} p n k e f w) h =
    Works-top (record_allocation r k) outer w (allocate-top t p n k a r outer e h f)
Works-top {t} r outer (frees {a = a} {a' = a'} p n k e f d w) h =
    Works-top (record_deallocation r k) outer w (deallocate-top t p n k a a' r outer e h f d)
Works-top {t} r outer (others {a = a} o elsewhere w) h =
    Works-top r outer w (Elsewhere-stack t a o elsewhere ∙ h)

-- A scope that thread `t` opens, works in and closes returns the record of exactly the events that are
-- charged to `t`: its own allocations, at new addresses and of less than 2 ^ 63 bytes, and the frees of its pointers by any thread.
-- Whatever other threads allocate, free, open and close in between is not in it.
pub scope-report :
    (t : ℕ) (a b : Adaptor) (es : List Event)
    → Works t (begin_scoped_memory_record t a) es b
    → end_scoped_memory_record t b
      ≡ ok (
        replay empty es,
        record b {
          record_stacks =
              assign t (merge_into_parent (replay empty es) (stack_of t a)) b.record_stacks;
        },
      )
unfolding end_scoped_memory_record close_scope
scope-report t a b es w =
    let e : find t b.record_stacks ≡ some (replay empty es ∷ stack_of t a) =
      Works-top empty (stack_of t a) w
        (unfold begin_scoped_memory_record in find-assign_self t _ a.record_stacks) in
    rw (e, end_scoped_memory_record) refl

-- Closing a scope inside another leaves the enclosing record as if its thread had recorded the
-- same events in it directly, given that the enclosing record is sane; other threads may act in
-- between.
pub scope-nests :
    (t : ℕ) (a b : Adaptor) (es : List Event) (parent : ScopedMemoryRecord)
    (outer : List ScopedMemoryRecord)
    → stack_of t a ≡ parent ∷ outer
    → IsSane parent
    → Works t (begin_scoped_memory_record t a) es b
    → stack_of t (left_by b (end_scoped_memory_record t b)) ≡ replay parent es ∷ outer
scope-nests t a b es parent outer e v w = rw (scope-report t a b es w) (
    stack_of_found t _ _ (
      find-assign_self t _ b.record_stacks
      ∙ ap some
          (rw e (unfold merge_into_parent in ap (λ r. r ∷ outer) (merge-eq-direct parent es v)))))
