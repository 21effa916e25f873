-- ===== src/Prelude/Assoc.antt =====
-- std::map and std::unordered_map with integer keys, as association lists with one entry a key.
use rapidsmpf.Prelude.{
  refl, ℕ, ◌≡◌, Option, none, some, List, [], ◌∷◌, Bool, true, false, arith, Bool-cases, inl, inr,
  ◌==◌, if◌then◌else◌,
}

module _ {ℓ} {V : Type ℓ} where
  -- m.find(k)
  unfoldable pub find : ℕ → List (ℕ × V) → Option V
  find k [] = none
  find k ((j, v) ∷ m) = if j == k then some v else find k m

  -- m[k] = v: an entry that is there is overwritten, a new one goes to the end
  unfoldable pub assign : ℕ → V → List (ℕ × V) → List (ℕ × V)
  assign k v [] = (k, v) ∷ []
  assign k v ((j, w) ∷ m) = if j == k then (k, v) ∷ m else (j, w) ∷ assign k v m

  -- m.erase(k)
  unfoldable pub erase : ℕ → List (ℕ × V) → List (ℕ × V)
  erase k [] = []
  erase k ((j, v) ∷ m) = let rest = erase k m in if j == k then rest else (j, v) ∷ rest

  -- m.contains(k)
  unfoldable pub contains : ℕ → List (ℕ × V) → Bool
  contains k [] = false
  contains k ((j, v) ∷ m) = if j == k then true else contains k m

  pub find-assign :
      (k j : ℕ) (v : V) (m : List (ℕ × V))
      → find j (assign k v m) ≡ (if k == j then some v else find j m)
  unfolding find assign
  find-assign k j v [] = ground arith
  find-assign k j v ((i, w) ∷ m) = ground (arith, find-assign k j v m)

  pub find-erase :
      (k j : ℕ) (m : List (ℕ × V)) → find j (erase k m) ≡ (if k == j then none else find j m)
  unfolding find erase
  find-erase k j [] = ground arith
  find-erase k j ((i, w) ∷ m) = ground (arith, find-erase k j m)

  pub contains-erase :
      (k j : ℕ) (m : List (ℕ × V))
      → contains j (erase k m) ≡ (if k == j then false else contains j m)
  unfolding contains erase
  contains-erase k j [] = ground arith
  contains-erase k j ((i, w) ∷ m) = ground (arith, contains-erase k j m)

  pub contains-assign :
      (k j : ℕ) (v : V) (m : List (ℕ × V))
      → contains j (assign k v m) ≡ (if k == j then true else contains j m)
  unfolding contains assign
  contains-assign k j v [] = ground arith
  contains-assign k j v ((i, w) ∷ m) = ground (arith, contains-assign k j v m)

  pub contains-find :
      (k : ℕ) (m : List (ℕ × V)) → contains k m ≡ true → (v : V) × (find k m ≡ some v)
  unfolding contains find
  contains-find k [] h = cc
  contains-find k ((j, v) ∷ m) h = elim (Bool-cases (j == k)) [
    | inl e ↦ (v, rw (e, find) refl)
    | inr e ↦ let (w, q) = contains-find k m (rw (e, contains) at h) in (w, rw (e, find) q)
  ]

pub ruleset assoc_laws = (find-assign, find-erase, contains-assign, contains-erase)
