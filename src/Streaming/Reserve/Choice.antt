-- ===== src/Streaming/Reserve/Choice.antt =====
-- Which request the periodic task of memory_reserve_or_wait.cpp picks.
use rapidsmpf.Prelude.{
  ℕ, ◌≡◌, ◌<◌, sym, ap, subst, Bool, true, false, not, ◌&&◌, ◌||◌, leb, if◌then◌else◌, List, [],
  ◌∷◌, arith, Bool-cases, inl, inr,
}
use rapidsmpf.Prelude.Int.{ltb_ℤ}
use rapidsmpf.Streaming.Reserve.{Request, before, insert, min_element, eligible_requests}

abbrev pub All {ℓ κ} : {A : Type ℓ} → (A → Type κ) → List A → Type κ
All P [] = Unit
All P (x ∷ xs) = P x × All P xs

pub All-map {ℓ κ₁ κ₂} :
    {A : Type ℓ} (P : A → Type κ₁) (Q : A → Type κ₂) (xs : List A)
    → ((x : A) → P x → Q x)
    → All P xs
    → All Q xs
All-map P Q [] k h = tt
All-map P Q (x ∷ xs) k h = (k x h.0, All-map P Q xs k h.1)

-- Sorted by size, then by sequence number.
abbrev pub IsSorted : List Request → Type 0
IsSorted [] = Unit
IsSorted (r ∷ rs) = All (λ s. before r s ≡ true) rs × IsSorted rs

-- Who should get memory first: the smallest delta, then the smallest size, then the oldest.
unfoldable pub ahead : Request → Request → Bool
ahead a b =
    ltb_ℤ a.net_memory_delta b.net_memory_delta
    || (not (ltb_ℤ b.net_memory_delta a.net_memory_delta) && before a b)

before_trans : (a b c : Request) → before a b ≡ true → before b c ≡ true → before a c ≡ true
unfolding before
before_trans a b c h k = ground arith

older :
    (a r : Request) → before a r ≡ false → r.sequence_number < a.sequence_number → before r a ≡ true
unfolding before
older a r h k = ground arith

insert-All {ℓ} :
    (P : Request → Type ℓ) (a : Request) (rs : List Request) → P a → All P rs → All P (insert a rs)
unfolding insert
insert-All P a [] p h = (p, tt)
insert-All P a (r ∷ rs) p h = elim (Bool-cases (before a r)) [
  | inl first ↦ rw first (p, h)
  | inr not_first ↦ rw not_first (elim (Bool-cases (before r a)) [
    | inl after ↦ rw after (h.0, insert-All P a rs p h.1)
    | inr same ↦ rw same h
  ])
]

-- A new request has the highest number.
pub insert-IsSorted :
    (a : Request) (rs : List Request)
    → All (λ r. r.sequence_number < a.sequence_number) rs
    → IsSorted rs
    → IsSorted (insert a rs)
unfolding insert
insert-IsSorted a [] new s = (tt, tt)
insert-IsSorted a (r ∷ rs) new s = elim (Bool-cases (before a r)) [
  | inl first ↦ rw first ((first, All-map _ _ rs (λ c h. before_trans a r c first h) s.0), s)
  | inr after ↦
      let first = older a r after new.0 in
      rw (after, first)
        (insert-All (λ c. before r c ≡ true) a rs first s.0, insert-IsSorted a rs new.1 s.1)
]

ahead_self : (a : Request) → ahead a a ≡ false
unfolding ahead before
ahead_self a = ground arith

-- What is kept, and what replaces it.
ahead_kept :
    (a b c : Request)
    → ahead a c ≡ false
    → ltb_ℤ b.net_memory_delta a.net_memory_delta ≡ false
    → before a b ≡ true
    → ahead b c ≡ false
unfolding ahead before
ahead_kept a b c h k l = ground arith

ahead_replaced :
    (a b c : Request)
    → ahead b c ≡ false
    → ltb_ℤ b.net_memory_delta a.net_memory_delta ≡ true
    → ahead a c ≡ false
unfolding ahead before
ahead_replaced a b c h k = ground arith

-- The first of the smallest has nobody ahead of it.
pub min_element-first :
    (best : Request) (rs : List Request)
    → All (λ r. before best r ≡ true) rs
    → IsSorted rs
    → (ahead best (min_element best rs) ≡ false)
      × All (λ r. ahead r (min_element best rs) ≡ false) rs
unfolding min_element
min_element-first best [] h s = (ahead_self best, tt)
min_element-first best (r ∷ rs) h s =
    elim (Bool-cases (ltb_ℤ r.net_memory_delta best.net_memory_delta)) [
      | inl lower ↦
          let (here, rest) = min_element-first r rs s.0 s.1 in
          subst (λ c. (ahead best c ≡ false) × All (λ q. ahead q c ≡ false) (r ∷ rs))
            (sym (ap (λ b. min_element (if b then r else best) rs) lower))
            (ahead_replaced best r _ here lower, (here, rest))
      | inr not_lower ↦
          let (here, rest) = min_element-first best rs h.1 s.1 in
          subst (λ c. (ahead best c ≡ false) × All (λ q. ahead q c ≡ false) (r ∷ rs))
            (sym (ap (λ b. min_element (if b then r else best) rs) not_lower))
            (here, (ahead_kept best r _ here not_lower h.0, rest))
    ]

pub min_element-All {ℓ} :
    (P : Request → Type ℓ) (best : Request) (rs : List Request)
    → P best
    → All P rs
    → P (min_element best rs)
unfolding min_element
min_element-All P best [] p h = p
min_element-All P best (r ∷ rs) p h =
    elim (Bool-cases (ltb_ℤ r.net_memory_delta best.net_memory_delta)) [
      | inl lower ↦ rw lower (min_element-All P r rs h.0 h.1)
      | inr not_lower ↦ rw not_lower (min_element-All P best rs p h.1)
    ]

-- The eligible requests of a sorted set are all that fit.
pub eligible_requests-fit :
    (n : ℕ) (rs : List Request) → All (λ r. leb r.size n ≡ true) (eligible_requests n rs)
unfolding eligible_requests
eligible_requests-fit n [] = tt
eligible_requests-fit n (r ∷ rs) = elim (Bool-cases (leb r.size n)) [
  | inl fits ↦ rw fits (fits, eligible_requests-fit n rs)
  | inr not_fits ↦ rw not_fits tt
]

pub eligible_requests-All {ℓ} :
    (P : Request → Type ℓ) (n : ℕ) (rs : List Request) → All P rs → All P (eligible_requests n rs)
unfolding eligible_requests
eligible_requests-All P n [] h = tt
eligible_requests-All P n (r ∷ rs) h = elim (Bool-cases (leb r.size n)) [
  | inl fits ↦ rw fits (h.0, eligible_requests-All P n rs h.1)
  | inr not_fits ↦ rw not_fits tt
]

pub eligible_requests-IsSorted :
    (n : ℕ) (rs : List Request) → IsSorted rs → IsSorted (eligible_requests n rs)
unfolding eligible_requests
eligible_requests-IsSorted n [] s = tt
eligible_requests-IsSorted n (r ∷ rs) s = elim (Bool-cases (leb r.size n)) [
  | inl fits ↦ rw fits (eligible_requests-All _ n rs s.0, eligible_requests-IsSorted n rs s.1)
  | inr not_fits ↦ rw not_fits tt
]

bigger : (n : ℕ) (r s : Request) → leb r.size n ≡ false → before r s ≡ true → leb s.size n ≡ false
unfolding before
bigger n r s h k = ground arith

-- What holds of the eligible requests holds of all that fit.
pub eligible_requests_complete {ℓ} :
    (P : Request → Type ℓ) (n : ℕ) (rs : List Request)
    → IsSorted rs
    → All P (eligible_requests n rs)
    → All (λ r. leb r.size n ≡ true → P r) rs
unfolding eligible_requests
eligible_requests_complete P n [] s h = tt
eligible_requests_complete P n (r ∷ rs) s h = elim (Bool-cases (leb r.size n)) [
  | inl fits ↦
      let h' : P r × All P (eligible_requests n rs) = rw fits at h in
      (λ _. h'.0, eligible_requests_complete P n rs s.1 h'.1)
  | inr not_fits ↦ (
    λ fits. absurd (let w = not_fits in let v = fits in cc),
    All-map _ _ rs (λ c k. λ fits. absurd (let w = bigger n r c not_fits k in let v = fits in cc))
        s.0,
  )
]
