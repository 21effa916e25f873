-- ===== src/Streaming/Reserve/Count.antt =====
-- Counting requests by their numbers, cpp/src/streaming/core/memory_reserve_or_wait.cpp.
use rapidsmpf.Prelude.{
  ℕ, ◌+◌, ◌≡◌, ◌≤◌, ◌<◌, ◌==◌, if◌then◌else◌, List, [], ◌∷◌, ◌++◌, arith, Bool-cases, inl, inr,
}
use rapidsmpf.Streaming.Reserve.{Request, insert, extract, before}
use rapidsmpf.Streaming.Reserve.Choice.{All, IsSorted}

-- How often a number stands in a list of requests.
unfoldable pub count : ℕ → List Request → ℕ
count n [] = 0
count n (r ∷ rs) = (if r.sequence_number == n then 1 else 0) + count n rs

pub count-append : (n : ℕ) (rs ss : List Request) → count n (rs ++ ss) ≡ count n rs + count n ss
unfolding count
count-append n [] ss = omega arith
count-append n (r ∷ rs) ss = omega (arith, count-append n rs ss)

-- A request with a new number is always inserted.
pub count-insert :
    (n : ℕ) (a : Request) (rs : List Request)
    → All (λ r. r.sequence_number < a.sequence_number) rs
    → count n (insert a rs) ≡ (if a.sequence_number == n then 1 else 0) + count n rs
unfolding count insert before
count-insert n a [] h = omega arith
count-insert n a (r ∷ rs) h = ground (arith, count-insert n a rs h.1, h.0)

pub All-insert :
    (k : ℕ) (a : Request) (rs : List Request)
    → a.sequence_number < k
    → All (λ r. r.sequence_number < k) rs
    → All (λ r. r.sequence_number < k) (insert a rs)
unfolding insert
All-insert k a [] p h = (p, tt)
All-insert k a (r ∷ rs) p h = elim (Bool-cases (before a r)) [
  | inl first ↦ rw first (p, h)
  | inr not_first ↦ rw not_first (elim (Bool-cases (before r a)) [
    | inl after ↦ rw after (h.0, All-insert k a rs p h.1)
    | inr same ↦ rw same h
  ])
]

-- What is extracted is there once less.
pub count-extract :
    (n k : ℕ) (rs : List Request)
    → 0 < count k rs
    → count n (extract k rs) + (if k == n then 1 else 0) ≡ count n rs
unfolding count extract
count-extract n k [] h = absurd (omega arith)
count-extract n k (r ∷ rs) h = ground (arith, count-extract n k rs)

pub All-extract {ℓ} :
    (P : Request → Type ℓ) (k : ℕ) (rs : List Request) → All P rs → All P (extract k rs)
unfolding extract
All-extract P k [] h = tt
All-extract P k (r ∷ rs) h = elim (Bool-cases (r.sequence_number == k)) [
  | inl hit ↦ rw hit h.1
  | inr miss ↦ rw miss (h.0, All-extract P k rs h.1)
]

pub extract-IsSorted : (k : ℕ) (rs : List Request) → IsSorted rs → IsSorted (extract k rs)
unfolding extract
extract-IsSorted k [] s = tt
extract-IsSorted k (r ∷ rs) s = elim (Bool-cases (r.sequence_number == k)) [
  | inl hit ↦ rw hit s.1
  | inr miss ↦ rw miss (All-extract _ k rs s.0, extract-IsSorted k rs s.1)
]

-- Every request of a list is there.
pub count-All :
    (rs ss : List Request)
    → ((n : ℕ) → count n ss ≤ count n rs)
    → All (λ r. 0 < count r.sequence_number rs) ss
unfolding count
count-All rs [] h = tt
count-All rs (s ∷ ss) h = (
  (let k = h s.sequence_number in ground (arith, k)),
  count-All rs ss (λ n. let k = h n in omega (arith, k)),
)
