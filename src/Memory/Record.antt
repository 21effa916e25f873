-- ===== src/Memory/Record.antt =====
-- cpp/src/memory/scoped_memory_record.cpp: allocation statistics and how scopes are merged.
-- The int64_t counters are integers without a bound.
use rapidsmpf.Prelude.{◌≡◌, refl, ap, List, [], ◌∷◌}
use rapidsmpf.Prelude.Int.{
  ℤ, pos, ◌+ℤ◌, ◌-ℤ◌, ◌≤ℤ◌, max_ℤ, int_laws, max_ℤ_assoc, max_ℤ_comm, +ℤ_assoc, +ℤ-max_ℤ,
  max_ℤ-eq_left, max_ℤ_bound,
}

pub record ScopedMemoryRecord : Type 0 where
  pub current : ℤ
  pub total : ℤ
  pub peak : ℤ
  pub max : ℤ
  pub num_total_allocs : ℤ
  pub num_current_allocs : ℤ

abbrev pub empty : ScopedMemoryRecord
empty = record {
  current = pos 0;
  total = pos 0;
  peak = pos 0;
  max = pos 0;
  num_total_allocs = pos 0;
  num_current_allocs = pos 0;
}

unfoldable pub record_allocation : ScopedMemoryRecord → ℤ → ScopedMemoryRecord
record_allocation r nbytes = record {
  current = r.current +ℤ nbytes;
  total = r.total +ℤ nbytes;
  peak = max_ℤ r.peak (r.current +ℤ nbytes);
  max = max_ℤ r.max nbytes;
  num_total_allocs = r.num_total_allocs +ℤ pos 1;
  num_current_allocs = r.num_current_allocs +ℤ pos 1;
}

unfoldable pub record_deallocation : ScopedMemoryRecord → ℤ → ScopedMemoryRecord
record_deallocation r nbytes = record r {
  current = r.current -ℤ nbytes;
  num_current_allocs = r.num_current_allocs -ℤ pos 1;
}

unfoldable pub add_subscope : ScopedMemoryRecord → ScopedMemoryRecord → ScopedMemoryRecord
add_subscope r subscope = record {
  current = r.current +ℤ subscope.current;
  total = r.total +ℤ subscope.total;
  peak = max_ℤ r.peak (r.current +ℤ subscope.peak);
  max = max_ℤ r.max subscope.max;
  num_total_allocs = r.num_total_allocs +ℤ subscope.num_total_allocs;
  num_current_allocs = r.num_current_allocs +ℤ subscope.num_current_allocs;
}

unfoldable pub add_scope : ScopedMemoryRecord → ScopedMemoryRecord → ScopedMemoryRecord
add_scope r scope = record {
  current = r.current +ℤ scope.current;
  total = r.total +ℤ scope.total;
  peak = max_ℤ r.peak scope.peak;
  max = max_ℤ r.max scope.max;
  num_total_allocs = r.num_total_allocs +ℤ scope.num_total_allocs;
  num_current_allocs = r.num_current_allocs +ℤ scope.num_current_allocs;
}

pub data Event : Type 0 where
  allocated freed : ℤ → Event

unfoldable pub observe : ScopedMemoryRecord → Event → ScopedMemoryRecord
observe r (allocated n) = record_allocation r n
observe r (freed n) = record_deallocation r n

unfoldable pub replay : ScopedMemoryRecord → List Event → ScopedMemoryRecord
replay r [] = r
replay r (e ∷ es) = replay (observe r e) es

add-sub_assoc : (a b c : ℤ) → a +ℤ b -ℤ c ≡ a +ℤ (b -ℤ c)
add-sub_assoc a b c = omega int_laws

-- One more event in the subscope is one more event after the merge.
pub add_subscope-observe :
    (r s : ScopedMemoryRecord) (e : Event)
    → add_subscope r (observe s e) ≡ observe (add_subscope r s) e
unfolding add_subscope observe record_allocation record_deallocation
add_subscope-observe r s (allocated n) = simp (+ℤ-max_ℤ, max_ℤ_assoc, +ℤ_assoc)
add_subscope-observe r s (freed n) = simp add-sub_assoc

pub add_subscope-replay :
    (r s : ScopedMemoryRecord) (es : List Event)
    → add_subscope r (replay s es) ≡ replay (add_subscope r s) es
unfolding replay
add_subscope-replay r s [] = refl
add_subscope-replay r s (e ∷ es) =
    rw (← add_subscope-observe r s e) (add_subscope-replay r (observe s e) es)

-- What every record that the program builds satisfies.
pub record IsSane (r : ScopedMemoryRecord) : Type 0 where
  pub peaked : r.current ≤ℤ r.peak
  pub largest : pos 0 ≤ℤ r.max

empty_right : (a : ℤ) → a +ℤ pos 0 ≡ a
empty_right a = omega int_laws

add_subscope-empty : (r : ScopedMemoryRecord) → IsSane r → add_subscope r empty ≡ r
unfolding add_subscope
add_subscope-empty r v =
    simp
      (empty_right, max_ℤ-eq_left r.peak r.current v.peaked, max_ℤ-eq_left r.max (pos 0) v.largest)

-- Recording events in a fresh subscope and merging it gives the record that recording the same
-- events directly gives, for a parent whose peak covers its current bytes.
pub merge-eq-direct :
    (r : ScopedMemoryRecord) (es : List Event)
    → IsSane r
    → add_subscope r (replay empty es) ≡ replay r es
merge-eq-direct r es v =
    rw (add_subscope-replay r empty es) (ap (λ p. replay p es) (add_subscope-empty r v))

-- Merging is associative, so nested scopes may be closed in any grouping.
pub add_subscope_assoc :
    (a b c : ScopedMemoryRecord)
    → add_subscope (add_subscope a b) c ≡ add_subscope a (add_subscope b c)
unfolding add_subscope
add_subscope_assoc a b c = simp (+ℤ-max_ℤ, max_ℤ_assoc, +ℤ_assoc)

add_right_comm : (a b c : ℤ) → a +ℤ b +ℤ c ≡ a +ℤ c +ℤ b
add_right_comm a b c = omega int_laws

max_right_comm : (a b c : ℤ) → max_ℤ (max_ℤ a b) c ≡ max_ℤ (max_ℤ a c) b
max_right_comm a b c = simp max_ℤ_assoc (ap (max_ℤ a) (max_ℤ_comm b c))

-- Merging two side scopes gives the same record in either order.
add_scope_comm :
    (a b c : ScopedMemoryRecord) → add_scope (add_scope a b) c ≡ add_scope (add_scope a c) b
unfolding add_scope
add_scope_comm a b c = λ i. record {
  current = add_right_comm a.current b.current c.current i;
  total = add_right_comm a.total b.total c.total i;
  peak = max_right_comm a.peak b.peak c.peak i;
  max = max_right_comm a.max b.max c.max i;
  num_total_allocs = add_right_comm a.num_total_allocs b.num_total_allocs c.num_total_allocs i;
  num_current_allocs =
      add_right_comm a.num_current_allocs b.num_current_allocs c.num_current_allocs i;
}

-- The size of an event, as `safe_cast<std::int64_t>` of a `std::size_t` gives it.
abbrev pub event_size : Event → ℤ
event_size (allocated n) = n
event_size (freed n) = n

-- Every event of a size that is not negative keeps the record sane.
pub observe-IsSane :
    (r : ScopedMemoryRecord) (e : Event) → pos 0 ≤ℤ event_size e → IsSane r → IsSane (observe r e)
unfolding observe record_allocation record_deallocation
observe-IsSane r (allocated n) h v = record {
  peaked = (max_ℤ_bound r.peak (r.current +ℤ n)).1;
  largest = omega (int_laws, max_ℤ_bound r.max n);
}
observe-IsSane r (freed n) h v = record { peaked = omega int_laws; largest = v.largest }
