-- ===== src/Memory/Resource.antt =====
-- cpp/src/memory/buffer_resource.cpp, cpp/include/rapidsmpf/memory/buffer_resource.hpp and
-- cpp/src/memory/memory_reservation.cpp: the ledger of memory reservations.
-- `i64` reports signed overflow, which is undefined in C++.
pub mod Limits
pub mod Search
pub mod Ledger
use rapidsmpf.Prelude.{
  ℕ, ◌+◌, ◌-◌, ◌%◌, ◌^◌, ◌≡◌, Bool, true, false, not, ◌&&◌, ◌||◌, Option, none, some, List, [], ◌∷◌,
  ltb, leb, ◌==◌, if◌then◌else◌,
}
use rapidsmpf.Prelude.Int.{ℤ, pos, negsuc, neg_part, ◌+ℤ◌, ◌-ℤ◌, in_i64}
use rapidsmpf.Prelude.Result.{
  Result, ok, err, ◌>>=◌, ◌>>◌, expects, invalid_argument, overflow_error, reservation_error,
  logic_error, runtime_error, undefined,
}
use rapidsmpf.Memory.Types.{MemoryType, device, pinned_host, host, disk, same_type, contains_type}

-- safe_cast<std::int64_t> of a std::size_t
unfoldable pub cast_i64 : ℕ → Result ℤ
cast_i64 n = if ltb n (2 ^ 63) then ok (pos n) else err overflow_error

unfoldable pub i64 : ℤ → Result ℤ
i64 a = if in_i64 a then ok a else err undefined

-- The limits, what the owned resources report as allocated, which of the optional resources are
-- there, and the bytes reserved, by memory type.
pub record BufferResource : Type 0 where
  pub memory_limits : MemoryType → ℤ
  pub allocated : MemoryType → ℤ
  pub has_pinned : Bool
  pub has_disk : Bool
  pub memory_reserved : MemoryType → ℕ
  pub overbooking_by_default : Bool

pub record MemoryReservation : Type 0 where
  pub mem_type : MemoryType
  pub size : ℕ

abbrev pub update {ℓ} : {A : Type ℓ} → (MemoryType → A) → MemoryType → A → MemoryType → A
update f t v u = if same_type t u then v else f u

unfoldable pub memory_available : BufferResource → MemoryType → Result ℤ
unfolding i64
memory_available br device = i64 (br.memory_limits device -ℤ br.allocated device)
memory_available br pinned_host =
    if br.has_pinned
    then i64 (br.memory_limits pinned_host -ℤ br.allocated pinned_host)
    else ok (pos 0)
memory_available br host = i64 (br.memory_limits host -ℤ br.allocated host)
memory_available br disk = ok (if br.has_disk then br.memory_limits disk else pos 0)

unfoldable pub set_memory_limit : BufferResource → MemoryType → ℤ → BufferResource
set_memory_limit br t limit = record br { memory_limits = update br.memory_limits t limit }

unfoldable pub memory_available_for_reservation : BufferResource → MemoryType → Result ℤ
unfolding cast_i64 i64
memory_available_for_reservation br t = do
  available ← memory_available br t
  reserved ← cast_i64 (br.memory_reserved t)
  i64 (available -ℤ reserved)

-- safe_cast<std::size_t>(std::abs(headroom)) when it is negative
unfoldable pub overbooking_of : ℤ → Result ℕ
overbooking_of (pos n) = ok 0
overbooking_of (negsuc n) = if ltb (n + 1) (2 ^ 63) then ok (n + 1) else err undefined

-- `reserve` behind its two guards
unfoldable pub book :
    BufferResource → MemoryType → ℕ → Bool → ℕ → BufferResource × MemoryReservation × ℕ
book br t size allow_overbooking overbooking =
    if ltb 0 overbooking && not allow_overbooking
    then (br, record { mem_type = t; size = 0 }, overbooking)
    else (
      record br {
        memory_reserved = update br.memory_reserved t ((br.memory_reserved t + size) % 2 ^ 64);
      },
      record { mem_type = t; size = size },
      overbooking,
    )

unfoldable pub headroom_after : BufferResource → MemoryType → ℕ → Result ℤ
unfolding cast_i64 i64
headroom_after br t size = do
  available ← memory_available br t
  reserved ← cast_i64 (br.memory_reserved t)
  wanted ← cast_i64 size
  sum ← i64 (reserved +ℤ wanted)
  i64 (available -ℤ sum)

unfoldable pub reserve :
    BufferResource → MemoryType → ℕ → Bool → Result (BufferResource × MemoryReservation × ℕ)
unfolding overbooking_of
reserve br t size allow_overbooking = do
  expects (not (same_type t disk) || br.has_disk) invalid_argument
  expects (not (same_type t pinned_host) || br.has_pinned) invalid_argument
  headroom ← headroom_after br t size
  overbooking ← overbooking_of headroom
  ok (book br t size allow_overbooking overbooking)

unfoldable pub release :
    BufferResource → MemoryReservation → ℕ → Result (BufferResource × MemoryReservation)
release br r n = do
  expects (leb n r.size) reservation_error
  expects (leb n (br.memory_reserved r.mem_type)) logic_error
  ok (
    record br {
      memory_reserved = update br.memory_reserved r.mem_type (br.memory_reserved r.mem_type - n);
    },
    record r { size = r.size - n },
  )

-- ~MemoryReservation
unfoldable pub clear :
    BufferResource → MemoryReservation → Result (BufferResource × MemoryReservation)
clear br r = if ltb 0 r.size then release br r r.size else ok (br, r)

-- The part that stays, and the part that is handed out.
unfoldable pub split : MemoryReservation → ℕ → Result (MemoryReservation × MemoryReservation)
split r n = do
  expects (leb n r.size) reservation_error
  ok (record r { size = r.size - n }, record r { size = n })

-- One round of the loop of `try_reserve`: skip a type with no resource, keep a full reservation.
unfoldable pub can_reserve : BufferResource → MemoryType → Bool
can_reserve br t =
    not (same_type t disk && not br.has_disk) && not (same_type t pinned_host && not br.has_pinned)

unfoldable pub try_reserve :
    BufferResource → ℕ → List MemoryType → Result (BufferResource × Option MemoryReservation)
try_reserve br size [] = ok (br, none)
try_reserve br size (t ∷ ts) =
    if can_reserve br t
    then (do
      (br', r, _) ← reserve br t size false
      let rest = try_reserve br' size ts
      if r.size == size then ok (br', some r) else rest)
    else try_reserve br size ts

unfoldable pub reserve_or_fail :
    BufferResource → ℕ → List MemoryType → Result (BufferResource × MemoryReservation)
reserve_or_fail br size ts = do
  (br', found) ← try_reserve br size ts
  elim found [ none ↦ err runtime_error | some r ↦ ok (br', r) ]
