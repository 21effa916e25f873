-- ===== src/Coll/PostBox/Cleared.antt =====
-- The places of a box that `PostBox::spill` of cpp/src/coll/utils.cpp picks, and what leaves device memory
-- when the chunks at those places do.
use rapidsmpf.Prelude.{
  ℕ, false, zero, suc, ◌+◌, ◌-◌, ◌≤◌, ◌≡◌, ◌≢◌, refl, ap, sym, ◌∙◌, subst, inl, inr, Option, none,
  some, List, [], ◌∷◌, Bool-cases, Option-cases, arith, get_elem?, set, length, some-injective, ltb,
  leb, get_elem?-set_ne,
}
use rapidsmpf.Memory.Types.{device, same_type}
use rapidsmpf.Coll.Chunk.{Chunk, memory_type}
use rapidsmpf.Coll.PostBox.{
  spillable_chunks, total_size, sort_by_size, sorted_insert, pick, lower_bound,
}
use rapidsmpf.Coll.PostBox.Fewest.{choices, chosen, pick-cases}
use rapidsmpf.Coll.PostBox.Device.{flag, flags, flag-device, flag-other}

abbrev pub All : (ℕ × ℕ → Type 0) → List (ℕ × ℕ) → Type 0
All P [] = Unit
All P (x ∷ xs) = P x × All P xs

module _ (P : ℕ × ℕ → Type 0) where
  pub All-insert : (x : ℕ × ℕ) (xs : List (ℕ × ℕ)) → P x → All P xs → All P (sorted_insert x xs)
  unfolding sorted_insert
  All-insert x [] h v = (h, tt)
  All-insert x (y ∷ ys) h v = elim (Bool-cases (ltb x.1 y.1)) [
    | inl e ↦ rw e (v.0, All-insert x ys h v.1)
    | inr e ↦ rw e (h, v)
  ]

  pub All-sort : (xs : List (ℕ × ℕ)) → All P xs → All P (sort_by_size xs)
  unfolding sort_by_size
  All-sort [] v = tt
  All-sort (x ∷ xs) v = All-insert x (sort_by_size xs) v.0 (All-sort xs v.1)

  lower_bound-All :
      (target : ℕ) (xs : List (ℕ × ℕ)) (y : ℕ × ℕ) → All P xs → lower_bound target xs ≡ some y → P y
  unfolding lower_bound
  lower_bound-All target [] y v e = absurd (let w = e in cc)
  lower_bound-All target (x ∷ xs) y v e = elim (Bool-cases (ltb x.1 target)) [
    | inl q ↦ absurd (let w = rw q at e in cc)
    | inr q ↦ elim (Option-cases (lower_bound target xs)) [
      | inl l ↦ subst P (some-injective (rw (q, l) at e)) v.0
      | inr (z, l) ↦ subst P (some-injective (rw (q, l) at e)) (lower_bound-All target xs z v.1 l)
    ]
  ]

  pub pick-All :
      (target : ℕ) (back : ℕ × ℕ) (rest : List (ℕ × ℕ))
      → All P (back ∷ rest)
      → P (pick target back rest)
  unfolding pick
  pick-All target back rest v = elim (Option-cases (lower_bound target (back ∷ rest))) [
    | inl l ↦ rw (l, pick) v.0
    | inr (z, l) ↦ rw (l, pick) (lower_bound-All target (back ∷ rest) z v l)
  ]

  choices-All : (amount total : ℕ) (xs : List (ℕ × ℕ)) → All P xs → All P (choices amount total xs)
  unfolding choices
  choices-All amount total [] v = tt
  choices-All amount total (back ∷ rest) v =
      let x = pick (amount - total) back rest in
      let picked = pick-All (amount - total) back rest v in
      elim (Bool-cases (leb amount (total + x.1))) [
        | inl e ↦ rw e (picked, tt)
        | inr e ↦ rw e (picked, choices-All amount (total + x.1) rest v.1)
      ]

-- The sizes of the chunks in device memory, and their number.
unfoldable bytes : List (Option ℕ) → ℕ
bytes [] = 0
bytes (none ∷ fs) = bytes fs
bytes (some n ∷ fs) = n + bytes fs

unfoldable count : List (Option ℕ) → ℕ
count [] = 0
count (none ∷ fs) = count fs
count (some n ∷ fs) = suc (count fs)

-- What is left when the chunks at some places are gone.
unfoldable pub clear_all : List (Option ℕ) → List (ℕ × ℕ) → List (Option ℕ)
clear_all fs [] = fs
clear_all fs ((i, n) ∷ xs) = clear_all (set fs i none) xs

-- Different places of chunks in device memory, with their sizes.
abbrev Apart : ℕ → List (ℕ × ℕ) → Type 0
Apart i xs = All (λ x. x.0 ≢ i) xs

abbrev Places : List (Option ℕ) → List (ℕ × ℕ) → Type 0
Places fs [] = Unit
Places fs (x ∷ xs) = (get_elem? fs x.0 ≡ some (some x.1)) × (Apart x.0 xs × Places fs xs)

bytes-set :
    (fs : List (Option ℕ)) (i n : ℕ)
    → get_elem? fs i ≡ some (some n)
    → (n + bytes (set fs i none) ≡ bytes fs) × (1 + count (set fs i none) ≡ count fs)
unfolding bytes count
bytes-set [] i n e = absurd (let w = e in cc)
bytes-set (none ∷ fs) zero n e = absurd (let w = some-injective e in cc)
bytes-set (some m ∷ fs) zero n e = (omega (arith, some-injective (some-injective e)), omega arith)
bytes-set (none ∷ fs) (suc i) n e = bytes-set fs i n e
bytes-set (some m ∷ fs) (suc i) n e =
    let (b, c) = bytes-set fs i n e in (omega (arith, b), omega (arith, c))

Places-set :
    (fs : List (Option ℕ)) (i : ℕ) (xs : List (ℕ × ℕ))
    → Apart i xs
    → Places fs xs
    → Places (set fs i none) xs
Places-set fs i [] apart v = tt
Places-set fs i (x ∷ xs) apart v = (
  get_elem?-set_ne fs none (λ e. apart.0 (sym e)) ∙ v.0,
  (v.1.0, Places-set fs i xs apart.1 v.1.1),
)

clear_all-sizes :
    (fs : List (Option ℕ)) (xs : List (ℕ × ℕ))
    → Places fs xs
    → (total_size xs + bytes (clear_all fs xs) ≡ bytes fs)
      × (length xs + count (clear_all fs xs) ≡ count fs)
unfolding clear_all total_size
clear_all-sizes fs [] v = (omega arith, omega arith)
clear_all-sizes fs (x ∷ xs) v =
    let (b, c) = bytes-set fs x.0 x.1 v.0 in
    let (b', c') = clear_all-sizes (set fs x.0 none) xs (Places-set fs x.0 xs v.1.0 v.1.1) in
    (omega (arith, b, b'), omega (arith, c, c'))

spillable-Apart : (j i : ℕ) (box : List Chunk) → suc j ≤ i → Apart j (spillable_chunks i box)
unfolding spillable_chunks
spillable-Apart j i [] le = tt
spillable-Apart j i (c ∷ box) le =
    let rest = spillable-Apart j (suc i) box (omega arith) in
    elim (Bool-cases (same_type (memory_type c) device)) [
      | inl e ↦ rw e ((λ same. omega (arith, same)), rest)
      | inr e ↦ rw e rest
    ]

spillable-Places :
    (fs : List (Option ℕ)) (i : ℕ) (box : List Chunk)
    → ((k : ℕ) → get_elem? fs (i + k) ≡ get_elem? (flags box) k)
    → Places fs (spillable_chunks i box)
unfolding spillable_chunks
spillable-Places fs i [] same = tt
spillable-Places fs i (c ∷ box) same =
    let rest =
      spillable-Places fs (suc i) box (λ k. ap (get_elem? fs) (omega arith) ∙ same (suc k)) in
    let here : get_elem? fs i ≡ some (flag c) = ap (get_elem? fs) (omega arith) ∙ same 0 in
    let after = spillable-Apart i (suc i) box (omega arith) in
    elim (Bool-cases (same_type (memory_type c) device)) [
      | inl e ↦ rw e (here ∙ ap some (flag-device c e), (after, rest))
      | inr e ↦ rw e rest
    ]

spillable-sizes :
    (i : ℕ) (box : List Chunk)
    → (total_size (spillable_chunks i box) ≡ bytes (flags box))
      × (length (spillable_chunks i box) ≡ count (flags box))
unfolding spillable_chunks bytes count total_size
spillable-sizes i [] = (refl, refl)
spillable-sizes i (c ∷ box) =
    let (b, n) = spillable-sizes (suc i) box in
    elim (Bool-cases (same_type (memory_type c) device)) [
      | inl e ↦ rw (e, flag-device c e) (ap (λ z. c.data_size + z) b, ap suc n)
      | inr e ↦ rw (e, flag-other c e) (b, n)
    ]

insert-Places :
    (fs : List (Option ℕ)) (x : ℕ × ℕ) (xs : List (ℕ × ℕ))
    → Places fs (x ∷ xs)
    → Places fs (sorted_insert x xs)
unfolding sorted_insert
insert-Places fs x [] v = v
insert-Places fs x (y ∷ ys) v = elim (Bool-cases (ltb x.1 y.1)) [
  | inl e ↦ rw e (
    v.1.1.0,
    (
      All-insert (λ z. z.0 ≢ y.0) x ys (λ same. v.1.0.0 (sym same)) v.1.1.1.0,
      insert-Places fs x ys (v.0, (v.1.0.1, v.1.1.1.1)),
    ),
  )
  | inr e ↦ rw e v
]

sort-Places :
    (fs : List (Option ℕ)) (xs : List (ℕ × ℕ)) → Places fs xs → Places fs (sort_by_size xs)
unfolding sort_by_size
sort-Places fs [] v = tt
sort-Places fs (x ∷ xs) v =
    insert-Places fs x (sort_by_size xs)
      (v.0, (All-sort (λ z. z.0 ≢ x.0) xs v.1.0, sort-Places fs xs v.1.1))

choices-Places :
    (fs : List (Option ℕ)) (amount total : ℕ) (xs : List (ℕ × ℕ))
    → Places fs xs
    → Places fs (choices amount total xs)
unfolding choices
choices-Places fs amount total [] v = tt
choices-Places fs amount total (back ∷ rest) v =
    let x = pick (amount - total) back rest in
    let places = λ (z : ℕ × ℕ). get_elem? fs z.0 ≡ some (some z.1) in
    let picked = pick-All places (amount - total) back rest (v.0, each rest v.1.1) in
    elim (Bool-cases (leb amount (total + x.1))) [
      | inl e ↦ rw e (picked, (tt, tt))
      | inr e ↦ rw e (
        picked,
        (
          choices-All (λ z. z.0 ≢ x.0) amount (total + x.1) rest
              (subst (λ y. Apart y.0 rest) (sym (is_back e)) v.1.0),
          choices-Places fs amount (total + x.1) rest v.1.1,
        ),
      )
    ]
  where
    each : (xs : List (ℕ × ℕ)) → Places fs xs → All (λ z. get_elem? fs z.0 ≡ some (some z.1)) xs
    each [] w = tt
    each (y ∷ ys) w = (w.0, each ys w.1.1)

    is_back :
        leb amount (total + (pick (amount - total) back rest).1) ≡ false
        → pick (amount - total) back rest ≡ back
    is_back e = elim (pick-cases (amount - total) back rest) [
      | inl enough ↦ absurd (ground (arith, e, enough))
      | inr same ↦ same
    ]

chosen-Places : (box : List Chunk) (amount : ℕ) → Places (flags box) (chosen box amount)
unfolding chosen
chosen-Places box amount =
    let spillable =
      spillable-Places (flags box) 0 box (λ k. ap (get_elem? (flags box)) (omega arith)) in
    elim (Bool-cases (ltb (total_size (spillable_chunks 0 box)) amount)) [
      | inl e ↦ rw e spillable
      | inr e ↦ rw e (
          choices-Places (flags box) amount 0 (sort_by_size (spillable_chunks 0 box))
            (sort-Places (flags box) (spillable_chunks 0 box) spillable))
    ]

-- The chunks that a spill picks are different chunks in device memory: when they leave it, so do
-- their bytes.
pub chosen-leaves :
    (box box' : List Chunk) (amount : ℕ)
    → flags box' ≡ clear_all (flags box) (chosen box amount)
    → (total_size (chosen box amount) + total_size (spillable_chunks 0 box')
        ≡ total_size (spillable_chunks 0 box))
      × (length (chosen box amount) + length (spillable_chunks 0 box')
          ≡ length (spillable_chunks 0 box))
chosen-leaves box box' amount e =
    let (b, n) = clear_all-sizes (flags box) (chosen box amount) (chosen-Places box amount) in
    let (b1, n1) = spillable-sizes 0 box in
    let (b2, n2) = spillable-sizes 0 box' in
    (omega (arith, b, b1, b2, ap bytes e), omega (arith, n, n1, n2, ap count e))
