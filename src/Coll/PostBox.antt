-- ===== src/Coll/PostBox.antt =====
-- `PostBox` and `test_some` of cpp/src/coll/utils.cpp. A box is the vector of its chunks; what a call
-- does under the mutex is one step.
pub mod Device
pub mod Cleared
pub mod Fewest
pub mod Spills
use rapidsmpf.Prelude.{
  ℕ, zero, suc, ◌+◌, ◌-◌, Option, none, some, List, [], ◌∷◌, ◌++◌, Bool, true, false, ltb, leb,
  ◌==◌, if◌then◌else◌, length, get_elem?, set, map,
}
use rapidsmpf.Prelude.Result.{Result, ok, err, expects, logic_error, undefined, ◌>>=◌, ◌>>◌}
use rapidsmpf.Memory.Types.{device, same_type, spill_target_memory_types}
use rapidsmpf.Memory.Resource.{BufferResource, MemoryReservation, reserve_or_fail, clear}
use rapidsmpf.Memory.Buffer.{Buffer, move}
use rapidsmpf.Coll.Chunk.{Chunk, is_ready, memory_type, release_data_buffer, attach_data_buffer}

unfoldable pub insert : List Chunk → Chunk → List Chunk
insert box c = box ++ (c ∷ [])

unfoldable pub insert_all : List Chunk → List Chunk → List Chunk
insert_all box cs = box ++ cs

-- What stays, and what is handed out.
unfoldable pub extract_ready : List Chunk → List Chunk × List Chunk
extract_ready [] = ([], [])
extract_ready (c ∷ box) =
    let (rest, out) = extract_ready box in if is_ready c then (rest, c ∷ out) else (c ∷ rest, out)

unfoldable pub extract : List Chunk → List Chunk × List Chunk
extract box = ([], box)

unfoldable pub size : List Chunk → ℕ
size box = length box

unfoldable pub empty : List Chunk → Bool
empty [] = true
empty (c ∷ box) = false

-- The chunks in device memory, by their place in the box and their size.
unfoldable pub spillable_chunks : ℕ → List Chunk → List (ℕ × ℕ)
spillable_chunks i [] = []
spillable_chunks i (c ∷ box) =
    let rest = spillable_chunks (suc i) box in
    if same_type (memory_type c) device then (i, c.data_size) ∷ rest else rest

unfoldable pub total_size : List (ℕ × ℕ) → ℕ
total_size [] = 0
total_size ((i, n) ∷ xs) = n + total_size xs

-- ~MemoryReservation at the end of a scope; its failure ends the program.
after_scope : BufferResource → MemoryReservation → BufferResource
after_scope br r = elim (clear br r) [ ok (br', _) ↦ br' | err e ↦ br ]

-- The chunk has lost its old buffer when an exception comes from the move or later.
attach_moved :
    Chunk
    → BufferResource
    → MemoryReservation
    → Result (BufferResource × MemoryReservation × Buffer)
    → BufferResource × Chunk × Result ℕ
unfolding after_scope
attach_moved c br r (err e) = (after_scope br r, c, err e)
attach_moved c br r (ok (br', r', b)) = elim (attach_data_buffer c b) [
  | ok c' ↦ (after_scope br' r', c', ok c'.data_size)
  | err e ↦ (after_scope br' r', c, err e)
]

unfoldable pub spill_chunk : BufferResource → Chunk → BufferResource × Chunk × Result ℕ
unfolding attach_moved
spill_chunk br c = elim (reserve_or_fail br c.data_size spill_target_memory_types) [
  | err e ↦ (br, c, err e)
  | ok (br', r) ↦
      let (payload, released) = release_data_buffer c in
      elim payload [
        | none ↦ (br', released, err undefined)
        | some b ↦ attach_moved released br' r (move br' b r)
      ]
]

-- spill_chunk on the chunk at a place of the box.
unfoldable pub spill_at : BufferResource → List Chunk → ℕ → BufferResource × List Chunk × Result ℕ
spill_at br box i = elim (get_elem? box i) [
  | none ↦ (br, box, err undefined)
  | some c ↦ let (br', c', n) = spill_chunk br c in (br', set box i c', n)
]

-- The rest of a spill after a chunk, with what it spilled; an exception ends the spill.
unfoldable pub after_chunk :
    BufferResource × List Chunk × Result ℕ
    → (BufferResource → List Chunk → ℕ → BufferResource × List Chunk × Result ℕ)
    → BufferResource × List Chunk × Result ℕ
after_chunk (br, box, err e) k = (br, box, err e)
after_chunk (br, box, ok n) k = k br box n

unfoldable pub spill_all :
    BufferResource → List Chunk → ℕ → List (ℕ × ℕ) → BufferResource × List Chunk × Result ℕ
spill_all br box total [] = (br, box, ok total)
spill_all br box total ((i, _) ∷ rest) =
    after_chunk (spill_at br box i) (λ br' box' n. spill_all br' box' (total + n) rest)

-- std::ranges::sort by size. The sorted vector stands from its back to its front: the largest first.
unfoldable pub sorted_insert : ℕ × ℕ → List (ℕ × ℕ) → List (ℕ × ℕ)
sorted_insert x [] = x ∷ []
sorted_insert x (y ∷ ys) = if ltb x.1 y.1 then y ∷ sorted_insert x ys else x ∷ (y ∷ ys)

unfoldable pub sort_by_size : List (ℕ × ℕ) → List (ℕ × ℕ)
sort_by_size [] = []
sort_by_size (x ∷ xs) = sorted_insert x (sort_by_size xs)

-- std::ranges::lower_bound: the smallest chunk that is not below the target.
unfoldable pub lower_bound : ℕ → List (ℕ × ℕ) → Option (ℕ × ℕ)
lower_bound target [] = none
lower_bound target (x ∷ xs) =
    if ltb x.1 target
    then none
    else elim (lower_bound target xs) [ none ↦ some x | some y ↦ some y ]

-- The largest chunk where none reaches the target.
unfoldable pub pick : ℕ → ℕ × ℕ → List (ℕ × ℕ) → ℕ × ℕ
pick target back rest = elim (lower_bound target (back ∷ rest)) [ none ↦ back | some x ↦ x ]

-- The loop of `spill`: it pops the back of the vector until enough is spilled.
unfoldable pub spill_loop :
    BufferResource → List Chunk → ℕ → ℕ → List (ℕ × ℕ) → BufferResource × List Chunk × Result ℕ
spill_loop br box amount total [] = (br, box, ok total)
spill_loop br box amount total (back ∷ rest) =
    after_chunk (spill_at br box (pick (amount - total) back rest).0) (λ br' box' n.
      let again = spill_loop br' box' amount (total + n) rest in
      if leb amount (total + n) then (br', box', ok (total + n)) else again)

unfoldable pub spill : BufferResource → List Chunk → ℕ → BufferResource × List Chunk × Result ℕ
spill br box amount =
    let spillable = spillable_chunks 0 box in
    if ltb (total_size spillable) amount
    then spill_all br box 0 spillable
    else spill_loop br box amount 0 (sort_by_size spillable)

-- A chunk that was moved out of the vector is `none`.
unfoldable pub take_complete :
    List (Option Chunk) → List (ℕ × Buffer) → Result (List (Option Chunk) × List Chunk)
take_complete chunks [] = ok (chunks, [])
take_complete chunks ((i, b) ∷ rest) = elim (get_elem? chunks i) [
  | none ↦ err undefined
  | some moved ↦ elim moved [
    | none ↦ err undefined
    | some c ↦ do
      c' ← attach_data_buffer c b
      (chunks', out) ← take_complete (set chunks i none) rest
      ok (chunks', c' ∷ out)
  ]
]

unfoldable pub remaining : List (Option Chunk) → List Chunk
remaining [] = []
remaining (none ∷ chunks) = remaining chunks
remaining (some c ∷ chunks) = c ∷ remaining chunks

unless_empty :
    Bool → List Chunk → Result (List Chunk × List Chunk) → Result (List Chunk × List Chunk)
unless_empty true chunks rest = ok (chunks, [])
unless_empty false chunks rest = rest

-- `complete` is what the communicator returns: the indices of the futures that are done, with the
-- data of each.
unfoldable pub test_some : List Chunk → ℕ → List (ℕ × Buffer) → Result (List Chunk × List Chunk)
unfolding unless_empty
test_some chunks num_futures complete = do
  expects (length chunks == num_futures) logic_error
  unless_empty (length chunks == 0) chunks
      (do (left, out) ← take_complete (map some chunks) complete; ok (remaining left, out))
