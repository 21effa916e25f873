-- ===== src/Coll/PostBox/Device.antt =====
-- What `spill_chunk` of cpp/src/coll/utils.cpp leaves in device memory.
use rapidsmpf.Prelude.{
  ℕ, ◌≡◌, refl, ap, sym, ◌∙◌, inl, inr, Option, none, some, List, [], ◌∷◌, Bool, true, false, not,
  ◌&&◌, ltb, ◌==◌, ◌||◌, if◌then◌else◌, Bool-cases, map,
}
use rapidsmpf.Prelude.Result.{
  Result, ok, err, Result-cases, Holds, >>=-Holds, >>-Holds, then-Holds, ok-Holds, expects,
  runtime_error, undefined, logic_error, invalid_argument,
}
use rapidsmpf.Memory.Types.{
  MemoryType, device, disk, pinned_host, same_type, same_type_sound, spill_target_memory_types,
}
use rapidsmpf.Memory.Resource.{
  BufferResource, MemoryReservation, reserve, book, release, try_reserve, reserve_or_fail,
  can_reserve, headroom_after, overbooking_of,
}
use rapidsmpf.Memory.Buffer.{Buffer, move, make_buffer, count_allocation}
use rapidsmpf.Coll.Chunk.{Chunk, is_null, attach_data_buffer, release_data_buffer, memory_type}
use rapidsmpf.Coll.PostBox.{spill_chunk, attach_moved}

-- The size of a chunk where it is in device memory.
unfoldable pub flag : Chunk → Option ℕ
flag c = if same_type (memory_type c) device then some c.data_size else none

abbrev pub flags : List Chunk → List (Option ℕ)
flags box = map flag box

pub flag-device : (c : Chunk) → same_type (memory_type c) device ≡ true → flag c ≡ some c.data_size
unfolding flag
flag-device c e = rw e refl

pub flag-other : (c : Chunk) → same_type (memory_type c) device ≡ false → flag c ≡ none
unfolding flag
flag-other c e = rw e refl

book-type :
    (br : BufferResource) (t : MemoryType) (n : ℕ) (b : Bool) (o : ℕ)
    → (book br t n b o).1.mem_type ≡ t
unfolding book
book-type br t n b o = elim (Bool-cases (ltb 0 o && not b)) [
  | inl e ↦ rw (e, book) refl
  | inr e ↦ rw (e, book) refl
]

abbrev IsFor : MemoryType → BufferResource × MemoryReservation × ℕ → Type 0
IsFor t (br, r, o) = r.mem_type ≡ t

reserve-type :
    (br : BufferResource) (t : MemoryType) (n : ℕ) (b : Bool) → Holds (IsFor t) (reserve br t n b)
unfolding reserve
reserve-type br t n b =
    >>-Holds (IsFor t) (expects (not (same_type t disk) || br.has_disk) invalid_argument) _ (
      >>-Holds (IsFor t) (expects (not (same_type t pinned_host) || br.has_pinned) invalid_argument)
        _
        (then-Holds (IsFor t) (headroom_after br t n) _ (λ headroom.
          then-Holds (IsFor t) (overbooking_of headroom) _ (λ o. book-type br t n b o))))

-- None of the types is device memory.
abbrev Elsewhere : List MemoryType → Type 0
Elsewhere [] = Unit
Elsewhere (t ∷ ts) = (same_type t device ≡ false) × Elsewhere ts

abbrev Found : BufferResource × Option MemoryReservation → Type 0
Found (br, none) = Unit
Found (br, some r) = same_type r.mem_type device ≡ false

try_reserve-Found :
    (br : BufferResource) (n : ℕ) (ts : List MemoryType)
    → Elsewhere ts
    → Holds Found (try_reserve br n ts)
unfolding try_reserve
try_reserve-Found br n [] all = tt
try_reserve-Found br n (t ∷ ts) (e, all) = elim (Bool-cases (can_reserve br t)) [
  | inl c ↦ rw c (
      >>=-Holds (IsFor t) Found (reserve br t n false) _ (reserve-type br t n false)
        (λ (br1, r, o) same. elim (Bool-cases (r.size == n)) [
          | inl q ↦ rw q (ap (λ u. same_type u device) same ∙ e)
          | inr q ↦ rw q (try_reserve-Found br1 n ts all)
        ]))
  | inr c ↦ rw c (try_reserve-Found br n ts all)
]

abbrev Reserved : BufferResource × MemoryReservation → Type 0
Reserved (br, r) = same_type r.mem_type device ≡ false

Found-Reserved :
    (br : BufferResource) (found : Option MemoryReservation)
    → Found (br, found)
    → Holds Reserved (elim found [ none ↦ err runtime_error | some r ↦ ok (br, r) ])
Found-Reserved br none h = tt
Found-Reserved br (some r) h = h

reserve_or_fail-Reserved :
    (br : BufferResource) (n : ℕ) → Holds Reserved (reserve_or_fail br n spill_target_memory_types)
unfolding reserve_or_fail
reserve_or_fail-Reserved br n =
    >>=-Holds Found Reserved (try_reserve br n spill_target_memory_types) _
      (try_reserve-Found br n spill_target_memory_types (refl, (refl, tt)))
      (λ (br1, found) h. Found-Reserved br1 found h)

-- A buffer that was moved has the type of the reservation.
abbrev Moved : MemoryReservation → BufferResource × MemoryReservation × Buffer → Type 0
Moved r (br, r', b) = b.mem_type ≡ r.mem_type

move-Moved :
    (br : BufferResource) (b : Buffer) (r : MemoryReservation) → Holds (Moved r) (move br b r)
unfolding move make_buffer
move-Moved br b r = elim (Bool-cases (same_type r.mem_type b.mem_type)) [
  | inl e ↦ rw e (sym (same_type_sound r.mem_type b.mem_type e))
  | inr e ↦ rw e (
      >>=-Holds (Moved r) (Moved r) (make_buffer br b.size r) _
        (then-Holds (Moved r) (release (count_allocation br r.mem_type b.size) r b.size) _
          (λ out. refl))
        (λ out same. same))
]

-- A chunk that was spilled is not in device memory any more.
abbrev pub Gone : BufferResource × Chunk × Result ℕ → Type 0
Gone (br, c, ok n) = flag c ≡ none
Gone (br, c, err e) = Unit

attach-flag :
    (c : Chunk) (b : Buffer)
    → same_type b.mem_type device ≡ false
    → Holds (λ c'. flag c' ≡ none) (attach_data_buffer c b)
unfolding attach_data_buffer flag memory_type
attach-flag c b e =
    >>-Holds (λ c'. flag c' ≡ none) (expects (b.size == c.data_size) logic_error) _
      (>>-Holds (λ c'. flag c' ≡ none) (expects (is_null c.payload) logic_error) _ (rw e refl))

attach_moved-Gone :
    (c : Chunk) (br : BufferResource) (r : MemoryReservation)
    (moved : Result (BufferResource × MemoryReservation × Buffer))
    → same_type r.mem_type device ≡ false
    → Holds (Moved r) moved
    → Gone (attach_moved c br r moved)
unfolding attach_moved
attach_moved-Gone c br r (err e) elsewhere same = tt
attach_moved-Gone c br r (ok (br1, r1, b)) elsewhere same =
    elim (Result-cases (attach_data_buffer c b)) [
      | inl (c1, e) ↦
          rw (e, attach_moved)
            (ok-Holds (λ c'. flag c' ≡ none) (attach_data_buffer c b) c1
              (attach-flag c b (ap (λ u. same_type u device) same ∙ elsewhere)) e)
      | inr (x, e) ↦ rw (e, attach_moved) tt
    ]

payload-Gone :
    (br : BufferResource) (c : Chunk) (r : MemoryReservation) (payload : Option Buffer)
    → same_type r.mem_type device ≡ false
    → Gone (elim payload [
      | none ↦ (br, c, err undefined)
      | some b ↦ attach_moved c br r (move br b r)
    ])
payload-Gone br c r none elsewhere = tt
payload-Gone br c r (some b) elsewhere =
    attach_moved-Gone c br r (move br b r) elsewhere (move-Moved br b r)

pub spill_chunk-Gone : (br : BufferResource) (c : Chunk) → Gone (spill_chunk br c)
unfolding spill_chunk release_data_buffer
spill_chunk-Gone br c =
    elim (Result-cases (reserve_or_fail br c.data_size spill_target_memory_types)) [
      | inl ((br1, r), e) ↦
          rw (e, spill_chunk)
            (payload-Gone br1 (record c { payload = none }) r c.payload
              (ok-Holds Reserved (reserve_or_fail br c.data_size spill_target_memory_types) (br1, r)
                (reserve_or_fail-Reserved br c.data_size) e))
      | inr (x, e) ↦ rw (e, spill_chunk) tt
    ]
