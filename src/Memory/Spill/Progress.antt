-- ===== src/Memory/Spill/Progress.antt =====
-- What a call of `spill` achieves.
use rapidsmpf.Prelude.{
  ℕ, ◌+◌, ◌-◌, ◌%◌, ◌^◌, ◌<◌, ◌≡◌, refl, inl, inr, none, some, List, [], ◌∷◌, true, false, arith,
  leb, ◌==◌, Bool-cases, Option-cases,
}
use rapidsmpf.Prelude.Int.{ℤ}
use rapidsmpf.Prelude.Result.{Result, ok, err, out_of_range, ok-injective}
use rapidsmpf.Prelude.Assoc.{find, contains, contains-find}
use rapidsmpf.Memory.Spill.{SpillManager, SpillFunction, spill_loop, continue_with, spill}
use rapidsmpf.Memory.Spill.Registry.{IsRegistered, occurs}

module _ {W : Type 0} where
  -- Every function in turn, with no look at what has been freed.
  pub call_all : List (ℕ × SpillFunction W) → ℕ → W → ℕ → List (ℤ × ℕ) → W × Result ℕ
  unfolding continue_with
  call_all fs amount w spilled [] = (w, ok spilled)
  call_all fs amount w spilled ((_, id) ∷ rest) = elim (find id fs) [
    | none ↦ (w, err out_of_range)
    | some f ↦
        continue_with (f w (amount - spilled))
          (λ w' n. call_all fs amount w' ((spilled + n) % 2 ^ 64) rest)
  ]

  stopped_early :
      (amount spilled t : ℕ) (w v : W)
      → leb amount spilled ≡ true
      → ◌≡◌ {A = W × Result ℕ} (w, ok spilled) (v, ok t)
      → t < amount
      → ⊥
  stopped_early amount spilled t w v e h lt = ground arith

  continue_with-map :
      (r : W × Result ℕ) (k k' : W → ℕ → W × Result ℕ) (v : W) (t : ℕ)
      → ((w : W) (n : ℕ) → k w n ≡ (v, ok t) → k' w n ≡ (v, ok t))
      → continue_with r k ≡ (v, ok t)
      → continue_with r k' ≡ (v, ok t)
  unfolding continue_with
  continue_with-map (w, ok n) k k' v t f h = f w n h
  continue_with-map (w, err e) k k' v t f h = h

  continue_with-ok :
      (r : W × Result ℕ) (k : W → ℕ → W × Result ℕ) (n t : ℕ)
      → r.1 ≡ ok n
      → (k r.0 n).1 ≡ ok t
      → (continue_with r k).1 ≡ ok t
  unfolding continue_with
  continue_with-ok (w, ok m) k n t e h = rw (ok-injective e) h
  continue_with-ok (w, err x) k n t e h = cc

  loop-call_all :
      (fs : List (ℕ × SpillFunction W)) (amount : ℕ) (w : W) (spilled : ℕ) (ps : List (ℤ × ℕ))
      (v : W) (t : ℕ)
      → spill_loop fs amount w spilled ps ≡ (v, ok t)
      → t < amount
      → call_all fs amount w spilled ps ≡ (v, ok t)
  unfolding spill_loop call_all
  loop-call_all fs amount w spilled [] v t h lt = h
  loop-call_all fs amount w spilled ((p, id) ∷ rest) v t h lt =
      elim (Bool-cases (leb amount spilled)) [
        | inl e ↦ absurd (stopped_early amount spilled t w v e (rw (e, spill_loop) at h) lt)
        | inr e ↦
            let h' = rw (e, spill_loop) at h in
            elim (Option-cases (find id fs)) [
              | inl q ↦ rw (q, call_all) (rw q at h')
              | inr (f, q) ↦
                  rw (q, call_all)
                    (continue_with-map (f w (amount - spilled)) _ _ v t
                      (λ w' n g. loop-call_all fs amount w' ((spilled + n) % 2 ^ 64) rest v t g lt)
                      (rw q at h'))
            ]
      ]

  -- A spill that returns less than was asked for has called every registered function, by falling
  -- priority: it returns what a loop that never stops early returns, and leaves the world so.
  pub spill-exhausts :
      (m : SpillManager W) (w v : W) (amount t : ℕ) (m' : SpillManager W)
      → spill m w amount ≡ ((m', v), ok t)
      → t < amount
      → call_all m.spill_functions amount w 0 m.priorities ≡ (v, ok t)
  unfolding spill
  spill-exhausts m w v amount t m' h lt =
      let e : (amount == 0) ≡ false = ground arith in
      let h' = rw (e, spill) at h in
      loop-call_all m.spill_functions amount w 0 m.priorities v t (λ i. ((h' i).0.1, (h' i).1)) lt

  -- Every registered function returns, from any world and for any amount.
  abbrev pub AllReturn : List (ℕ × SpillFunction W) → Type 0
  AllReturn fs =
      (id : ℕ) (f : SpillFunction W) (w : W) (n : ℕ)
      → find id fs ≡ some f
      → (k : ℕ) × ((f w n).1 ≡ ok k)

  abbrev pub AllKnown : List (ℕ × SpillFunction W) → List (ℤ × ℕ) → Type 0
  AllKnown fs [] = Unit
  AllKnown fs ((_, id) ∷ rest) = (contains id fs ≡ true) × AllKnown fs rest

  known_of_occurs :
      (fs : List (ℕ × SpillFunction W)) (ps : List (ℤ × ℕ))
      → ((id : ℕ) → 0 < occurs id ps → contains id fs ≡ true)
      → AllKnown fs ps
  known_of_occurs fs [] h = tt
  known_of_occurs fs ((p, id) ∷ rest) h =
      let e : (id == id) ≡ true = ground arith in
      (h id (rw e (omega arith)), known_of_occurs fs rest (λ j lt. h j (omega (arith, lt))))

  registered_known : (m : SpillManager W) → IsRegistered m → AllKnown m.spill_functions m.priorities
  registered_known m v = known_of_occurs m.spill_functions m.priorities (λ id lt.
      elim (Bool-cases (contains id m.spill_functions)) [
        | inl e ↦ e
        | inr e ↦ let z = rw e at (v.same id) in absurd (omega (arith, z, lt))
      ])

  loop-returns :
      (fs : List (ℕ × SpillFunction W)) (amount : ℕ) (w : W) (spilled : ℕ) (ps : List (ℤ × ℕ))
      → AllReturn fs
      → AllKnown fs ps
      → (t : ℕ) × ((spill_loop fs amount w spilled ps).1 ≡ ok t)
  unfolding spill_loop
  loop-returns fs amount w spilled [] r k = (spilled, refl)
  loop-returns fs amount w spilled ((p, id) ∷ rest) r k = elim (Bool-cases (leb amount spilled)) [
    | inl e ↦ (spilled, rw (e, spill_loop) refl)
    | inr e ↦
        let (f, q) = contains-find id fs k.0 in
        let (n, g) = r id f w (amount - spilled) q in
        let w' : W = (f w (amount - spilled)).0 in
        let (t, h) = loop-returns fs amount w' ((spilled + n) % 2 ^ 64) rest r k.1 in
        (t, rw (e, spill_loop) (rw q (continue_with-ok (f w (amount - spilled)) _ n t g h)))
  ]

  -- Where every registered function returns, `spill` returns: it never looks for a function that
  -- is not there.
  spill-returns :
      (m : SpillManager W) (w : W) (amount : ℕ)
      → IsRegistered m
      → AllReturn m.spill_functions
      → (t : ℕ) × ((spill m w amount).1 ≡ ok t)
  unfolding spill
  spill-returns m w amount v r =
      let (t, h) =
        loop-returns m.spill_functions amount w 0 m.priorities r (registered_known m v) in
      elim (Bool-cases (amount == 0)) [
        | inl e ↦ (0, rw (e, spill) refl)
        | inr e ↦ (t, rw (e, spill) h)
      ]
