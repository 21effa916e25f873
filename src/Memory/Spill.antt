-- ===== src/Memory/Spill.antt =====
-- cpp/src/memory/spill_manager.cpp: registered spill functions, called by priority until enough
-- memory is freed. A spill function changes the world `W` and returns the bytes that it freed, or
-- throws; the functions belong to the users of the manager. What a call adds to the total is
-- counted in a std::size_t that wraps.
pub mod Registry
pub mod Progress
use rapidsmpf.Prelude.{
  ℕ, suc, ◌+◌, ◌-◌, ◌%◌, ◌^◌, Option, none, some, List, [], ◌∷◌, Bool, true, false, ltb, leb, ◌==◌,
  if◌then◌else◌,
}
use rapidsmpf.Prelude.Int.{ℤ, pos, ltb_ℤ, pos_part, ◌-ℤ◌}
use rapidsmpf.Prelude.Result.{Result, ok, err, out_of_range, logic_error, ◌>>=◌}
use rapidsmpf.Prelude.Assoc.{find, assign, erase, contains}
use rapidsmpf.Thread
use rapidsmpf.Memory.Resource.{i64}

abbrev pub SpillFunction : Type 0 → Type 0
SpillFunction W = W → ℕ → W × Result ℕ

pub record SpillManager (W : Type 0) : Type 0 where
  pub spill_functions : List (ℕ × SpillFunction W)
  -- the multimap of priorities, its greatest key first
  pub priorities : List (ℤ × ℕ)
  pub id_counter : ℕ
  pub spills_in_flight : ℕ
  pub spill_generation : ℕ
  pub periodic_spill_thread : Option Thread.Loop

-- Insertion into the multimap: after the entries of the same priority.
unfoldable pub insert_priority : ℤ → ℕ → List (ℤ × ℕ) → List (ℤ × ℕ)
insert_priority p id [] = (p, id) ∷ []
insert_priority p id ((q, j) ∷ rest) =
    if ltb_ℤ q p then (p, id) ∷ (q, j) ∷ rest else (q, j) ∷ insert_priority p id rest

unfoldable pub remove_first : ℕ → List (ℤ × ℕ) → List (ℤ × ℕ)
remove_first id [] = []
remove_first id ((q, j) ∷ rest) = if j == id then rest else (q, j) ∷ remove_first id rest

resumed_thread : Option Thread.Loop → Option Thread.Loop
resumed_thread none = none
resumed_thread (some l) = some (Thread.resume l).0

paused_thread : Bool → Option Thread.Loop → Option Thread.Loop
paused_thread true (some l) = some (Thread.pause_nb l)
paused_thread _ t = t

abbrev pub is_empty {ℓ} : {A : Type ℓ} → List A → Bool
is_empty [] = true
is_empty (x ∷ xs) = false

module _ {W : Type 0} where
  unfoldable pub add_spill_function :
      SpillManager W → SpillFunction W → ℤ → SpillManager W × Result ℕ
  unfolding resumed_thread
  add_spill_function m f priority =
      let id = m.id_counter in
      let counted = record m { id_counter = (id + 1) % 2 ^ 64 } in
      if contains id m.spill_functions then (counted, err logic_error) else (
        record counted {
          spill_functions = assign id f m.spill_functions;
          priorities = insert_priority priority id m.priorities;
          periodic_spill_thread = resumed_thread m.periodic_spill_thread;
        },
        ok id,
      )

  unfoldable pub remove_spill_function : SpillManager W → ℕ → SpillManager W
  unfolding paused_thread
  remove_spill_function m id =
      let left = erase id m.spill_functions in
      record m {
        spill_functions = left;
        priorities = remove_first id m.priorities;
        periodic_spill_thread = paused_thread (is_empty left) m.periodic_spill_thread;
      }

  -- An exception of a spill function leaves the loop.
  continue_with : W × Result ℕ → (W → ℕ → W × Result ℕ) → W × Result ℕ
  continue_with (w, ok n) k = k w n
  continue_with (w, err e) k = (w, err e)

  -- The loop of `spill_unsafe`; `at` throws std::out_of_range for an id with no function.
  unfoldable pub spill_loop : List (ℕ × SpillFunction W) → ℕ → W → ℕ → List (ℤ × ℕ) → W × Result ℕ
  unfolding continue_with
  spill_loop fs amount w spilled [] = (w, ok spilled)
  spill_loop fs amount w spilled ((_, id) ∷ rest) =
      if leb amount spilled then (w, ok spilled) else elim (find id fs) [
        | none ↦ (w, err out_of_range)
        | some f ↦
            continue_with (f w (amount - spilled))
              (λ w' n. spill_loop fs amount w' ((spilled + n) % 2 ^ 64) rest)
      ]

  -- ~InFlightGuard: the generation goes up before the count of spills in flight goes down.
  unfoldable pub leave_spill : SpillManager W → SpillManager W
  leave_spill m = record m {
    spill_generation = (m.spill_generation + 1) % 2 ^ 64;
    spills_in_flight = m.spills_in_flight - 1;
  }

  unfoldable pub enter_spill : SpillManager W → SpillManager W
  enter_spill m = record m { spills_in_flight = m.spills_in_flight + 1 }

  unfoldable pub spill : SpillManager W → W → ℕ → (SpillManager W × W) × Result ℕ
  unfolding spill_loop leave_spill enter_spill
  spill m w amount =
      let (w', r) = spill_loop m.spill_functions amount w 0 m.priorities in
      if amount == 0 then ((m, w), ok 0) else ((leave_spill (enter_spill m), w'), r)

  unfoldable pub spilling_now : SpillManager W → Bool
  spilling_now m = ltb 0 m.spills_in_flight

  -- The deficit and the spilled bytes; `available` is what the buffer resource reports for device memory.
  unfoldable pub spill_to_make_headroom :
      SpillManager W → W → ℤ → ℤ → (SpillManager W × W) × Result (ℕ × ℕ)
  unfolding spill i64
  spill_to_make_headroom m w headroom available =
      if ltb_ℤ available headroom
      then elim (i64 (headroom -ℤ available)) [
        | err e ↦ ((m, w), err e)
        | ok d ↦ let (mw, r) = spill m w (pos_part d) in (mw, (do n ← r; ok (pos_part d, n)))
      ]
      else ((m, w), ok (0, 0))
