-- ===== src/Memory/Spill/Registry.antt =====
-- The two tables of a SpillManager agree, and the priorities stay sorted.
use rapidsmpf.Prelude.{
  ℕ, ◌+◌, ◌-◌, ◌^◌, ◌<◌, ◌%◌, ◌≡◌, refl, subst, ==_iff, inl, inr, List, [], ◌∷◌, true, false, arith,
  ◌==◌, if◌then◌else◌, Bool-cases,
}
use rapidsmpf.Prelude.Int.{ℤ, ltb_ℤ, ◌≤ℤ◌}
use rapidsmpf.Prelude.Result.{ok}
use rapidsmpf.Prelude.Assoc.{assign, erase, contains, contains-assign, contains-erase}
use rapidsmpf.Memory.Spill.{
  SpillManager, SpillFunction, insert_priority, remove_first, add_spill_function,
  remove_spill_function,
}

-- Priorities never rise along the list.
abbrev pub Below : ℤ → List (ℤ × ℕ) → Type 0
Below p [] = Unit
Below p ((q, _) ∷ rest) = q ≤ℤ p

abbrev pub IsDescending : List (ℤ × ℕ) → Type 0
IsDescending [] = Unit
IsDescending ((p, _) ∷ rest) = Below p rest × IsDescending rest

ltb_ℤ-le : (q p : ℤ) → ltb_ℤ q p ≡ true → q ≤ℤ p
ltb_ℤ-le q p e = ground arith

not_ltb_ℤ-le : (q p : ℤ) → ltb_ℤ q p ≡ false → p ≤ℤ q
not_ltb_ℤ-le q p e = ground arith

insert_priority-Below :
    (b p : ℤ) (id : ℕ) (ps : List (ℤ × ℕ)) → p ≤ℤ b → Below b ps → Below b (insert_priority p id ps)
unfolding insert_priority
insert_priority-Below b p id [] h v = h
insert_priority-Below b p id ((q, j) ∷ rest) h v = elim (Bool-cases (ltb_ℤ q p)) [
  | inl e ↦ rw (e, insert_priority) h
  | inr e ↦ rw (e, insert_priority) v
]

insert_priority-IsDescending :
    (p : ℤ) (id : ℕ) (ps : List (ℤ × ℕ)) → IsDescending ps → IsDescending (insert_priority p id ps)
unfolding insert_priority
insert_priority-IsDescending p id [] v = (tt, tt)
insert_priority-IsDescending p id ((q, j) ∷ rest) v = elim (Bool-cases (ltb_ℤ q p)) [
  | inl e ↦ rw (e, insert_priority) (ltb_ℤ-le q p e, v)
  | inr e ↦
      rw (e, insert_priority)
        (
          insert_priority-Below q p id rest (not_ltb_ℤ-le q p e) v.0,
          insert_priority-IsDescending p id rest v.1,
        )
]

Below-mono : (a b : ℤ) (ps : List (ℤ × ℕ)) → a ≤ℤ b → Below a ps → Below b ps
Below-mono a b [] h v = tt
Below-mono a b ((q, _) ∷ rest) h v = omega arith

remove_first-Below :
    (b : ℤ) (id : ℕ) (ps : List (ℤ × ℕ))
    → Below b ps
    → IsDescending ps
    → Below b (remove_first id ps)
unfolding remove_first
remove_first-Below b id [] h v = tt
remove_first-Below b id ((q, j) ∷ rest) h v = elim (Bool-cases (j == id)) [
  | inl e ↦ rw (e, remove_first) (Below-mono q b rest h v.0)
  | inr e ↦ rw (e, remove_first) h
]

remove_first-IsDescending :
    (id : ℕ) (ps : List (ℤ × ℕ)) → IsDescending ps → IsDescending (remove_first id ps)
unfolding remove_first
remove_first-IsDescending id [] v = tt
remove_first-IsDescending id ((q, j) ∷ rest) v = elim (Bool-cases (j == id)) [
  | inl e ↦ rw (e, remove_first) v.1
  | inr e ↦
      rw (e, remove_first)
        (remove_first-Below q id rest v.0 v.1, remove_first-IsDescending id rest v.1)
]

-- Every id of the priorities occurs once and has a function.
abbrev pub occurs : ℕ → List (ℤ × ℕ) → ℕ
occurs id [] = 0
occurs id ((_, j) ∷ rest) = (if j == id then 1 else 0) + occurs id rest

occurs-insert :
    (p : ℤ) (id j : ℕ) (ps : List (ℤ × ℕ))
    → occurs j (insert_priority p id ps) ≡ (if id == j then 1 else 0) + occurs j ps
unfolding insert_priority
occurs-insert p id j [] = omega arith
occurs-insert p id j ((q, i) ∷ rest) = elim (Bool-cases (ltb_ℤ q p)) [
  | inl e ↦ rw (e, insert_priority) refl
  | inr e ↦ rw (e, insert_priority) (omega (arith, occurs-insert p id j rest))
]

occurs-remove :
    (id j : ℕ) (ps : List (ℤ × ℕ))
    → occurs j (remove_first id ps) ≡ occurs j ps - (if id == j then 1 else 0)
unfolding remove_first
occurs-remove id j [] = ground arith
occurs-remove id j ((q, i) ∷ rest) = ground (arith, occurs-remove id j rest)

module _ {W : Type 0} where
  -- The tables hold the same ids, each once, all below the counter, in the order of priority.
  pub record IsRegistered (m : SpillManager W) : Type 0 where
    pub sorted : IsDescending m.priorities
    pub same : (id : ℕ) → occurs id m.priorities ≡ (if contains id m.spill_functions then 1 else 0)
    pub fresh : (id : ℕ) → contains id m.spill_functions ≡ true → id < m.id_counter

  unused : (m : SpillManager W) → IsRegistered m → contains m.id_counter m.spill_functions ≡ false
  unused m v = elim (Bool-cases (contains m.id_counter m.spill_functions)) [
    | inl e ↦ absurd (omega (arith, v.fresh m.id_counter e))
    | inr e ↦ e
  ]

  same_after_add :
      (m : SpillManager W) (f : SpillFunction W) (p : ℤ) (j : ℕ)
      → IsRegistered m
      → occurs j (insert_priority p m.id_counter m.priorities)
        ≡ (if contains j (assign m.id_counter f m.spill_functions) then 1 else 0)
  same_after_add m f p j v =
      rw (occurs-insert p m.id_counter j m.priorities, contains-assign)
        (elim (Bool-cases (m.id_counter == j)) [
          | inl e ↦
              let free : contains j m.spill_functions ≡ false =
                subst (λ k. contains k m.spill_functions ≡ false) ((==_iff _ _).0 e) (unused m v) in
              let none_left = rw free at (v.same j) in rw e (omega (arith, none_left))
          | inr e ↦ rw e (omega (arith, v.same j))
        ])

  -- Until 2 ^ 64 ids are used up, adding a spill function does not throw, returns an id that was
  -- not in use, and keeps the tables consistent and sorted.
  pub add_spill_function-IsRegistered :
      (m : SpillManager W) (f : SpillFunction W) (p : ℤ)
      → m.id_counter + 1 < 2 ^ 64
      → IsRegistered m
      → ((add_spill_function m f p).1 ≡ ok m.id_counter)
        × (contains m.id_counter m.spill_functions ≡ false)
        × IsRegistered (add_spill_function m f p).0
  unfolding add_spill_function
  add_spill_function-IsRegistered m f p h v =
      rw (unused m v, add_spill_function)
        (
          refl,
          refl,
          record {
            sorted = insert_priority-IsDescending p m.id_counter m.priorities v.sorted;
            same = λ j. same_after_add m f p j v;
            fresh = λ j c. fresh_after_add j c;
          },
        )
    where
      fresh_after_add :
          (j : ℕ)
          → contains j (assign m.id_counter f m.spill_functions) ≡ true
          → j < (m.id_counter + 1) % 2 ^ 64
      fresh_after_add j c = elim (Bool-cases (m.id_counter == j)) [
        | inl e ↦ omega (arith, (==_iff m.id_counter j).0 e)
        | inr e ↦ let c' = rw (contains-assign, e) at c in omega (arith, v.fresh j c')
      ]

  same_after_remove :
      (m : SpillManager W) (id j : ℕ)
      → IsRegistered m
      → occurs j (remove_first id m.priorities)
        ≡ (if contains j (erase id m.spill_functions) then 1 else 0)
  same_after_remove m id j v =
      rw (occurs-remove id j m.priorities, contains-erase, v.same j)
        (elim (Bool-cases (id == j)) [ inl e ↦ rw e (ground arith) | inr e ↦ rw e (omega arith) ])

  -- Removing a spill function, registered or not, keeps the tables consistent and sorted, and
  -- afterwards neither table has its id.
  pub remove_spill_function-IsRegistered :
      (m : SpillManager W) (id : ℕ)
      → IsRegistered m
      → IsRegistered (remove_spill_function m id)
        × (occurs id (remove_spill_function m id).priorities ≡ 0)
        × (contains id (remove_spill_function m id).spill_functions ≡ false)
  unfolding remove_spill_function
  remove_spill_function-IsRegistered m id v =
      let gone : contains id (erase id m.spill_functions) ≡ false =
        rw contains-erase (ground arith) in
      (
        record {
          sorted = remove_first-IsDescending id m.priorities v.sorted;
          same = λ j. same_after_remove m id j v;
          fresh = λ j c. v.fresh j (kept j c);
        },
        rw (same_after_remove m id id v, gone) refl,
        gone,
      )
    where
      kept :
          (j : ℕ)
          → contains j (erase id m.spill_functions) ≡ true
          → contains j m.spill_functions ≡ true
      kept j c = elim (Bool-cases (id == j)) [
        | inl e ↦ cc (rw (contains-erase, e) at c)
        | inr e ↦ rw (contains-erase, e) at c
      ]
