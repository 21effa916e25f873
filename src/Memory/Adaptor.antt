-- ===== src/Memory/Adaptor.antt =====
-- cpp/include/rapidsmpf/detail/rmm_resource_adaptor_impl.hpp: the adaptor that counts the
-- allocations of an upstream resource, with a stack of scoped records for each thread. The
-- pointer that the upstream resource returns is an argument of `allocate`.

pub mod Scopes
use rapidsmpf.Prelude.{ℕ, ◌^◌, ltb, if◌then◌else◌, none, some, List, [], ◌∷◌}
use rapidsmpf.Prelude.Int.{ℤ, pos}
use rapidsmpf.Prelude.Result.{Result, ok, err, ◌>>=◌, out_of_range, logic_error, overflow_error}
use rapidsmpf.Prelude.Assoc.{find, assign, erase}
use rapidsmpf.Memory.Record.{
  ScopedMemoryRecord, empty, record_allocation, record_deallocation, add_subscope,
}

pub record Adaptor : Type 0 where
  pub main_record : ScopedMemoryRecord
  -- thread id to its open scopes, the innermost first
  pub record_stacks : List (ℕ × List ScopedMemoryRecord)
  -- pointer to the thread that allocated it inside a scope
  pub allocating_threads : List (ℕ × ℕ)

abbrev pub fresh : Adaptor
fresh = record { main_record = empty; record_stacks = []; allocating_threads = [] }

unfoldable pub current_allocated : Adaptor → ℤ
current_allocated a = a.main_record.current

-- record_stacks_[thread], which makes an empty stack where there is none
unfoldable pub stack_of : ℕ → Adaptor → List ScopedMemoryRecord
stack_of thread a = elim (find thread a.record_stacks) [ none ↦ [] | some s ↦ s ]

unfoldable pub begin_scoped_memory_record : ℕ → Adaptor → Adaptor
unfolding stack_of
begin_scoped_memory_record thread a = record a {
  record_stacks = assign thread (empty ∷ stack_of thread a) a.record_stacks;
}

-- stack.pop(), then stack.top().add_subscope(ret) unless the stack is empty
unfoldable pub merge_into_parent :
    ScopedMemoryRecord → List ScopedMemoryRecord → List ScopedMemoryRecord
merge_into_parent ret [] = []
merge_into_parent ret (parent ∷ outer) = add_subscope parent ret ∷ outer

unfoldable pub close_scope :
    ℕ → Adaptor → List ScopedMemoryRecord → Result (ScopedMemoryRecord × Adaptor)
unfolding merge_into_parent
close_scope thread a [] = err out_of_range
close_scope thread a (ret ∷ stack) =
    ok (
      ret,
      record a { record_stacks = assign thread (merge_into_parent ret stack) a.record_stacks },
    )

-- `at` throws std::out_of_range for a thread with no entry, and so does an empty stack.
unfoldable pub end_scoped_memory_record : ℕ → Adaptor → Result (ScopedMemoryRecord × Adaptor)
unfolding close_scope
end_scoped_memory_record thread a = elim (find thread a.record_stacks) [
  | none ↦ err out_of_range
  | some stack ↦ close_scope thread a stack
]

-- The scoped half of `allocate`; a pointer that is already registered is an error, raised after
-- the records have been updated.
unfoldable pub record_scoped_allocation :
    ℕ → ℕ → ℤ → Adaptor → List ScopedMemoryRecord → Adaptor × Result (Unit {0})
record_scoped_allocation thread ptr bytes a [] =
    (record a { record_stacks = assign thread [] a.record_stacks }, ok tt)
record_scoped_allocation thread ptr bytes a (top ∷ outer) =
    let counted = record a {
      record_stacks = assign thread (record_allocation top bytes ∷ outer) a.record_stacks;
    } in
    elim (find ptr a.allocating_threads) [
      | none ↦
          (record counted { allocating_threads = assign ptr thread a.allocating_threads }, ok tt)
      | some _ ↦ (counted, err logic_error)
    ]

unfoldable pub scoped_allocation :
    ℕ → ℕ → ℤ → Adaptor → List (ℕ × List ScopedMemoryRecord) → Adaptor × Result (Unit {0})
unfolding stack_of record_scoped_allocation
scoped_allocation thread ptr bytes a [] = (a, ok tt)
scoped_allocation thread ptr bytes a (_ ∷ _) =
    record_scoped_allocation thread ptr bytes a (stack_of thread a)

-- What `allocate` counts, of a size that fits.
unfoldable pub count_allocated : ℕ → ℕ → ℤ → Adaptor → Adaptor × Result (Unit {0})
unfolding scoped_allocation
count_allocated thread ptr bytes a =
    scoped_allocation thread ptr bytes
      (record a { main_record = record_allocation a.main_record bytes }) a.record_stacks

-- safe_cast<std::int64_t>
unfoldable pub safe_cast : ℕ → Result ℤ
safe_cast bytes = if ltb bytes (2 ^ 63) then ok (pos bytes) else err overflow_error

unfoldable pub allocate : ℕ → ℕ → ℕ → Adaptor → Adaptor × Result (Unit {0})
allocate thread ptr bytes a = elim (safe_cast bytes) [
  | err e ↦ (a, err e)
  | ok n ↦ count_allocated thread ptr n a
]

unfoldable pub record_scoped_deallocation : ℕ → ℤ → Adaptor → List ScopedMemoryRecord → Adaptor
record_scoped_deallocation thread bytes a [] = record a {
  record_stacks = assign thread [] a.record_stacks;
}
record_scoped_deallocation thread bytes a (top ∷ outer) = record a {
  record_stacks = assign thread (record_deallocation top bytes ∷ outer) a.record_stacks;
}

-- The thread that allocated `ptr` is charged, whichever thread frees it.
unfoldable pub count_freed : ℕ → ℤ → Adaptor → Adaptor
unfolding stack_of record_scoped_deallocation
count_freed ptr bytes a =
    let counted = record a { main_record = record_deallocation a.main_record bytes } in
    elim (find ptr a.allocating_threads) [
      | none ↦ counted
      | some thread ↦
          let known = record counted { allocating_threads = erase ptr a.allocating_threads } in
          record_scoped_deallocation thread bytes known (stack_of thread known)
    ]

-- The function is noexcept: the error stands for the end of the program.
unfoldable pub deallocate : ℕ → ℕ → Adaptor → Result Adaptor
deallocate ptr bytes a = do n ← safe_cast bytes; ok (count_freed ptr n a)
