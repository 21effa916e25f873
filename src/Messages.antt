-- ===== src/Messages.antt =====
-- cpp/src/streaming/core/spillable_messages.cpp: messages that wait to be extracted and may be
-- spilled meanwhile. A thread that found an item still holds it after another has removed it from
-- the map, so an item lives in a heap, at the address that its id gave it. Each function here is
-- what happens under one lock; other threads act between two of them. What a message is and how
-- it moves belongs to its type, and is a parameter.
pub mod Items
pub mod Sound
use rapidsmpf.Prelude.{
  ℕ, ◌+◌, ◌%◌, ◌^◌, Option, none, some, List, [], ◌∷◌, Bool, true, false, not, ◌||◌, ◌==◌,
  if◌then◌else◌,
}
use rapidsmpf.Prelude.Result.{Result, ok, err, out_of_range, undefined, ◌>>=◌}
use rapidsmpf.Prelude.Assoc.{find, assign, erase, contains}
use rapidsmpf.Memory.Types.{ContentDescription, device, spill_target_memory_types}
use rapidsmpf.Memory.Resource.{BufferResource, MemoryReservation, reserve_or_fail}

pub record SpillableMessages (M : Type 0) : Type 0 where
  pub counter : ℕ
  pub items : List (ℕ × ℕ)
  pub content_descriptions : List (ℕ × ContentDescription)
  -- the message of each item, gone once it has been extracted
  pub heap : List (ℕ × Option M)

-- What the code uses of a message.
pub record MessageType (M : Type 0) : Type 0 where
  pub content_description : M → ContentDescription
  pub copy_cost : M → ℕ
  pub move : BufferResource → M → MemoryReservation → Result (BufferResource × M)

-- std::map::insert keeps an entry that is there.
insert_new {ℓ} : {V : Type ℓ} → ℕ → V → List (ℕ × V) → List (ℕ × V)
insert_new k v m = if contains k m then m else assign k v m

module _ {M : Type 0} where
  -- The part of `extract` under the global lock.
  unfoldable pub extract_item : SpillableMessages M → ℕ → Result (SpillableMessages M × ℕ)
  extract_item s mid = elim (find mid s.items) [
    | none ↦ err out_of_range
    | some a ↦ ok (
      record s {
        items = erase mid s.items;
        content_descriptions = erase mid s.content_descriptions;
      },
      a,
    )
  ]

  -- The message that an item holds.
  unfoldable pub message_at : SpillableMessages M → ℕ → Option M
  message_at s a = elim (find a s.heap) [ none ↦ none | some m ↦ m ]

  -- The part of `extract` under the item's lock; `value` of an empty optional throws.
  unfoldable pub take_message : SpillableMessages M → ℕ → Result (SpillableMessages M × M)
  unfolding message_at
  take_message s a = elim (message_at s a) [
    | none ↦ err undefined
    | some m ↦ ok (record s { heap = assign a none s.heap }, m)
  ]

  -- SpillableMessages::extract, with nothing between its parts.
  unfoldable pub extract : SpillableMessages M → ℕ → Result (SpillableMessages M × M)
  unfolding extract_item take_message
  extract s mid = do (s', a) ← extract_item s mid; take_message s' a

  -- The first part of `spill`: it returns 0 without an item.
  unfoldable pub find_item : SpillableMessages M → ℕ → Option ℕ
  find_item s mid = find mid s.items

  -- The last part of `spill`: only while the message has not been extracted.
  unfoldable pub update_description :
      SpillableMessages M → ℕ → ContentDescription → SpillableMessages M
  update_description s mid cd =
      if contains mid s.content_descriptions
      then record s { content_descriptions = assign mid cd s.content_descriptions }
      else s

  unfoldable pub get_content_description : SpillableMessages M → ℕ → Result ContentDescription
  get_content_description s mid = elim (find mid s.content_descriptions) [
    | none ↦ err out_of_range
    | some cd ↦ ok cd
  ]

  unfoldable pub clear : SpillableMessages M → SpillableMessages M
  clear s = record s { items = []; content_descriptions = [] }

module _ {M : Type 0} (x : MessageType M) where
  unfoldable pub insert : SpillableMessages M → M → SpillableMessages M × ℕ
  unfolding insert_new
  insert s m = (
    record {
      counter = (s.counter + 1) % 2 ^ 64;
      items = insert_new s.counter s.counter s.items;
      content_descriptions = insert_new s.counter (x.content_description m) s.content_descriptions;
      heap = assign s.counter (some m) s.heap;
    },
    s.counter,
  )

  -- The part of `spill` under the item's lock: what is moved, with the new description and the
  -- bytes that were on the device. When another thread has the lock nothing is done.
  unfoldable pub spill_item :
      SpillableMessages M
      → BufferResource
      → ℕ
      → Result (SpillableMessages M × BufferResource × Option (ContentDescription × ℕ))
  unfolding message_at
  spill_item s br a = elim (message_at s a) [
    | none ↦ ok (s, br, none)
    | some m ↦
        if not (x.content_description m).spillable
          || (x.content_description m).content_sizes device == 0
        then ok (s, br, none)
        else (do
          (br1, r) ← reserve_or_fail br (x.copy_cost m) spill_target_memory_types
          (br2, m') ← x.move br1 m r
          ok (
            record s { heap = assign a (some m') s.heap },
            br2,
            some (x.content_description m', (x.content_description m).content_sizes device),
          ))
  ]

  spilled_size : SpillableMessages M → ℕ → Option (ContentDescription × ℕ) → SpillableMessages M × ℕ
  spilled_size s mid none = (s, 0)
  spilled_size s mid (some (cd, n)) = (update_description s mid cd, n)

  -- SpillableMessages::spill, with nothing between its parts.
  unfoldable pub spill :
      SpillableMessages M → BufferResource → ℕ → Result (BufferResource × SpillableMessages M × ℕ)
  unfolding spilled_size
  spill s br mid = elim (find_item s mid) [
    | none ↦ ok (br, s, 0)
    | some a ↦ do
      (s', br', moved) ← spill_item s br a
      let (s'', n) = spilled_size s' mid moved
      ok (br', s'', n)
  ]
