-- ===== src/Coll/PostBox/Fewest.antt =====
-- `PostBox::spill` of cpp/src/coll/utils.cpp spills enough, with as few buffers as can be.
use rapidsmpf.Prelude.{
  ℕ, ◌+◌, ◌-◌, ◌<◌, ◌≤◌, ◌≡◌, refl, ap, ◌⊎◌, inl, inr, some, List, [], ◌∷◌, false, Bool-cases,
  Option-cases, ltb, leb, if◌then◌else◌, length, min, arith,
}
use rapidsmpf.Coll.Chunk.{Chunk}
use rapidsmpf.Coll.PostBox.{
  spillable_chunks, total_size, sort_by_size, sorted_insert, lower_bound, pick,
}

-- The chunks that the loop picks when no exception ends it.
unfoldable pub choices : ℕ → ℕ → List (ℕ × ℕ) → List (ℕ × ℕ)
choices amount total [] = []
choices amount total (back ∷ rest) =
    let x = pick (amount - total) back rest in
    let again = choices amount (total + x.1) rest in
    if leb amount (total + x.1) then x ∷ [] else x ∷ again

-- The chunks that a spill picks.
unfoldable pub chosen : List Chunk → ℕ → List (ℕ × ℕ)
chosen box amount =
    let spillable = spillable_chunks 0 box in
    if ltb (total_size spillable) amount
    then spillable
    else choices amount 0 (sort_by_size spillable)

pub data IsSublist : List (ℕ × ℕ) → List (ℕ × ℕ) → Type 0 where
  nothing : IsSublist [] []
  skip : {xs ys : List (ℕ × ℕ)} → (x : ℕ × ℕ) → IsSublist xs ys → IsSublist xs (x ∷ ys)
  keep : {xs ys : List (ℕ × ℕ)} → (x : ℕ × ℕ) → IsSublist xs ys → IsSublist (x ∷ xs) (x ∷ ys)

abbrev IsBounded : ℕ → List (ℕ × ℕ) → Type 0
IsBounded n [] = Unit
IsBounded n (x ∷ xs) = (x.1 ≤ n) × IsBounded n xs

abbrev IsDescending : List (ℕ × ℕ) → Type 0
IsDescending [] = Unit
IsDescending (x ∷ xs) = IsBounded x.1 xs × IsDescending xs

lower_bound-ge :
    (target : ℕ) (xs : List (ℕ × ℕ)) (y : ℕ × ℕ) → lower_bound target xs ≡ some y → target ≤ y.1
unfolding lower_bound
lower_bound-ge target [] y e = cc
lower_bound-ge target (x ∷ xs) y e = elim (Option-cases (lower_bound target xs)) [
  | inl q ↦ ground (arith, e, q)
  | inr (z, q) ↦ let below = lower_bound-ge target xs z q in ground (arith, e, q, below)
]

-- A pick that is not enough is the back of the vector.
pub pick-cases :
    (target : ℕ) (back : ℕ × ℕ) (rest : List (ℕ × ℕ))
    → (target ≤ (pick target back rest).1) ⊎ (pick target back rest ≡ back)
unfolding pick
pick-cases target back rest = elim (Option-cases (lower_bound target (back ∷ rest))) [
  | inl e ↦ inr (rw (e, pick) refl)
  | inr (x, e) ↦ inl (rw (e, pick) (lower_bound-ge target (back ∷ rest) x e))
]

IsBounded-sublist :
    (n : ℕ) (ds xs : List (ℕ × ℕ)) → IsBounded n xs → IsSublist ds xs → IsBounded n ds
IsBounded-sublist n _ _ b nothing = tt
IsBounded-sublist n _ _ b (skip x h) = IsBounded-sublist n _ _ b.1 h
IsBounded-sublist n _ _ b (keep x h) = (b.0, IsBounded-sublist n _ _ b.1 h)

tail_of_sublist : (ds rest : List (ℕ × ℕ)) (d : ℕ × ℕ) → IsSublist (d ∷ ds) rest → IsSublist ds rest
tail_of_sublist ds _ d (skip x h) = skip x (tail_of_sublist ds _ d h)
tail_of_sublist ds _ d (keep x h) = skip x h

-- Without the back of the vector, a choice of some chunks loses one chunk and at most the size of
-- the back.
without_back :
    (back d : ℕ × ℕ) (rest ds : List (ℕ × ℕ))
    → IsBounded back.1 rest
    → IsSublist (d ∷ ds) (back ∷ rest)
    → IsSublist ds rest × (d.1 ≤ back.1)
without_back back d rest ds b (skip _ h) =
    (tail_of_sublist ds rest d h, (IsBounded-sublist back.1 _ rest b h).0)
without_back back d rest ds b (keep _ h) = (h, omega arith)

choices-fewest :
    (amount total : ℕ) (xs ds : List (ℕ × ℕ))
    → IsDescending xs
    → total < amount
    → IsSublist ds xs
    → amount ≤ total + total_size ds
    → length (choices amount total xs) ≤ length ds
unfolding choices total_size
choices-fewest amount total [] ds v lt h enough = omega arith
choices-fewest amount total xs [] v lt h enough = absurd (omega arith)
choices-fewest amount total (back ∷ rest) (d ∷ ds) v lt h enough =
    let x = pick (amount - total) back rest in
    let (h', d_le) = without_back back d rest ds v.0 h in
    elim (Bool-cases (leb amount (total + x.1))) [
      | inl e ↦ rw e (omega arith)
      | inr e ↦ elim (pick-cases (amount - total) back rest) [
        | inl reached ↦ absurd (ground (arith, e, reached))
        | inr same ↦
            let size : x.1 ≡ back.1 = ap (λ y. y.1) same in
            let more =
              choices-fewest amount (total + x.1) rest ds v.1 (ground (arith, e)) h'
                (omega (arith, size, enough, d_le)) in
            rw e (omega (arith, more))
      ]
    ]

choices-enough :
    (amount total : ℕ) (xs : List (ℕ × ℕ))
    → total < amount
    → amount ≤ total + total_size xs
    → amount ≤ total + total_size (choices amount total xs)
unfolding choices total_size
choices-enough amount total [] lt enough = absurd (omega arith)
choices-enough amount total (back ∷ rest) lt enough =
    let x = pick (amount - total) back rest in
    elim (Bool-cases (leb amount (total + x.1))) [
      | inl e ↦ rw e (ground (arith, e))
      | inr e ↦ elim (pick-cases (amount - total) back rest) [
        | inl reached ↦ absurd (ground (arith, e, reached))
        | inr same ↦
            let size : x.1 ≡ back.1 = ap (λ y. y.1) same in
            let more =
              choices-enough amount (total + x.1) rest (ground (arith, e))
                (omega (arith, size, enough)) in
            rw e (omega (arith, more))
      ]
    ]

IsBounded-insert :
    (n : ℕ) (x : ℕ × ℕ) (xs : List (ℕ × ℕ))
    → x.1 ≤ n
    → IsBounded n xs
    → IsBounded n (sorted_insert x xs)
unfolding sorted_insert
IsBounded-insert n x [] le b = (le, tt)
IsBounded-insert n x (y ∷ ys) le b = elim (Bool-cases (ltb x.1 y.1)) [
  | inl e ↦ rw e (b.0, IsBounded-insert n x ys le b.1)
  | inr e ↦ rw e (le, b)
]

IsBounded-weaken : (m n : ℕ) (xs : List (ℕ × ℕ)) → m ≤ n → IsBounded m xs → IsBounded n xs
IsBounded-weaken m n [] le b = tt
IsBounded-weaken m n (x ∷ xs) le b = (omega (arith, b.0), IsBounded-weaken m n xs le b.1)

sorted_insert-IsDescending :
    (x : ℕ × ℕ) (xs : List (ℕ × ℕ)) → IsDescending xs → IsDescending (sorted_insert x xs)
unfolding sorted_insert
sorted_insert-IsDescending x [] v = (tt, tt)
sorted_insert-IsDescending x (y ∷ ys) v = elim (Bool-cases (ltb x.1 y.1)) [
  | inl e ↦
      rw e (IsBounded-insert y.1 x ys (ground (arith, e)) v.0, sorted_insert-IsDescending x ys v.1)
  | inr e ↦
      let le : y.1 ≤ x.1 = ground (arith, e) in rw e ((le, IsBounded-weaken y.1 x.1 ys le v.0), v)
]

sort-IsDescending : (xs : List (ℕ × ℕ)) → IsDescending (sort_by_size xs)
unfolding sort_by_size
sort-IsDescending [] = tt
sort-IsDescending (x ∷ xs) = sorted_insert-IsDescending x (sort_by_size xs) (sort-IsDescending xs)

-- A choice of chunks of the same number and the same size.
abbrev Alike : List (ℕ × ℕ) → List (ℕ × ℕ) → Type 0
Alike ds xs =
    (es : List (ℕ × ℕ)) × (IsSublist es xs
      × ((length es ≡ length ds) × (total_size es ≡ total_size ds)))

sublist_insert :
    (x : ℕ × ℕ) (ds xs : List (ℕ × ℕ)) → IsSublist ds xs → IsSublist ds (sorted_insert x xs)
unfolding sorted_insert
sublist_insert x _ _ nothing = skip x nothing
sublist_insert x ds _ (skip {ys = ys} y h) = elim (Bool-cases (ltb x.1 y.1)) [
  | inl e ↦ rw e (skip y (sublist_insert x ds ys h))
  | inr e ↦ rw e (skip x (skip y h))
]
sublist_insert x _ _ (keep {xs = ds} {ys = ys} y h) = elim (Bool-cases (ltb x.1 y.1)) [
  | inl e ↦ rw e (keep y (sublist_insert x ds ys h))
  | inr e ↦ rw e (skip x (keep y h))
]

Alike-insert :
    (x : ℕ × ℕ) (ds xs : List (ℕ × ℕ)) → IsSublist ds xs → Alike (x ∷ ds) (sorted_insert x xs)
unfolding sorted_insert total_size
Alike-insert x _ _ nothing = (x ∷ [], (keep x nothing, (refl, refl)))
Alike-insert x ds _ (skip {ys = ys} y h) = elim (Bool-cases (ltb x.1 y.1)) [
  | inl e ↦ let (es, (s, (l, t))) = Alike-insert x ds ys h in (es, (rw e (skip y s), (l, t)))
  | inr e ↦ (x ∷ ds, (rw e (keep x (skip y h)), (refl, refl)))
]
Alike-insert x _ _ (keep {xs = ds} {ys = ys} y h) = elim (Bool-cases (ltb x.1 y.1)) [
  | inl e ↦
      let (es, (s, (l, t))) = Alike-insert x ds ys h in
      (y ∷ es, (rw e (keep y s), (omega (arith, l), omega (arith, t))))
  | inr e ↦ (x ∷ (y ∷ ds), (rw e (keep x (keep y h)), (refl, refl)))
]

sublist-sort : (ds xs : List (ℕ × ℕ)) → IsSublist ds xs → Alike ds (sort_by_size xs)
unfolding sort_by_size total_size
sublist-sort _ _ nothing = ([], (nothing, (refl, refl)))
sublist-sort ds _ (skip {ys = ys} y h) =
    let (es, (s, (l, t))) = sublist-sort ds ys h in
    (es, (sublist_insert y es (sort_by_size ys) s, (l, t)))
sublist-sort _ _ (keep {xs = ds} {ys = ys} y h) =
    let (es, (s, (l, t))) = sublist-sort ds ys h in
    let (fs, (s', (l', t'))) = Alike-insert y es (sort_by_size ys) s in
    (fs, (s', (omega (arith, l, l'), omega (arith, t, t'))))

total_size-insert :
    (x : ℕ × ℕ) (xs : List (ℕ × ℕ)) → total_size (sorted_insert x xs) ≡ x.1 + total_size xs
unfolding sorted_insert total_size
total_size-insert x [] = refl
total_size-insert x (y ∷ ys) = elim (Bool-cases (ltb x.1 y.1)) [
  | inl e ↦ rw e (omega (arith, total_size-insert x ys))
  | inr e ↦ rw e refl
]

total_size-sort : (xs : List (ℕ × ℕ)) → total_size (sort_by_size xs) ≡ total_size xs
unfolding sort_by_size total_size
total_size-sort [] = refl
total_size-sort (x ∷ xs) = omega (arith, total_size-insert x (sort_by_size xs), total_size-sort xs)

sublist_size : (ds xs : List (ℕ × ℕ)) → IsSublist ds xs → total_size ds ≤ total_size xs
unfolding total_size
sublist_size _ _ nothing = omega arith
sublist_size ds _ (skip x h) = omega (arith, sublist_size ds _ h)
sublist_size _ _ (keep x h) = omega (arith, sublist_size _ _ h)

not_short :
    (xs : List (ℕ × ℕ)) (amount : ℕ) → amount ≤ total_size xs → ltb (total_size xs) amount ≡ false
not_short xs amount h = ground arith

-- To spill some bytes that are there, a spill picks no more chunks than any other choice of device
-- chunks that is enough.
pub chosen-fewest :
    (box : List Chunk) (amount : ℕ) (others : List (ℕ × ℕ))
    → 0 < amount
    → IsSublist others (spillable_chunks 0 box)
    → amount ≤ total_size others
    → length (chosen box amount) ≤ length others
unfolding chosen
chosen-fewest box amount others pos sub enough =
    let xs = spillable_chunks 0 box in
    let (es, (s, (l, t))) = sublist-sort others xs sub in
    let few =
      choices-fewest amount 0 (sort_by_size xs) es (sort-IsDescending xs) pos s
        (omega (arith, t, enough)) in
    let fits : ltb (total_size xs) amount ≡ false =
      not_short xs amount (omega (arith, enough, sublist_size others xs sub)) in
    rw fits (omega (arith, few, l))

-- A spill picks enough for the amount, or everything that there is.
pub chosen-enough :
    (box : List Chunk) (amount : ℕ)
    → 0 < amount
    → min amount (total_size (spillable_chunks 0 box)) ≤ total_size (chosen box amount)
unfolding chosen
chosen-enough box amount pos =
    let xs = spillable_chunks 0 box in
    elim (Bool-cases (ltb (total_size xs) amount)) [
      | inl e ↦ rw e (omega arith)
      | inr e ↦
          let there : amount ≤ 0 + total_size (sort_by_size xs) =
            ground (arith, e, total_size-sort xs) in
          rw e (omega (arith, choices-enough amount 0 (sort_by_size xs) pos there))
    ]
