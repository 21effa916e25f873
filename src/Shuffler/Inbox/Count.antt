-- ===== src/Shuffler/Inbox/Count.antt =====
-- Chunks counted by the rank that sent them.
use rapidsmpf.Prelude.{
  ℕ, zero, suc, ◌+◌, ◌<◌, ◌≤◌, ◌≡◌, refl, List, [], ◌∷◌, arith, length, ◌==◌, if◌then◌else◌,
}
use rapidsmpf.Shuffler.Chunk.{Chunk, is_control_message}
use rapidsmpf.Shuffler.Inbox.{extract_rank}

-- f 0 + ... + f (n - 1)
abbrev pub sum_to : ℕ → (ℕ → ℕ) → ℕ
sum_to zero f = 0
sum_to (suc n) f = f n + sum_to n f

pub sum_to-add : (n : ℕ) (f g : ℕ → ℕ) → sum_to n (λ r. f r + g r) ≡ sum_to n f + sum_to n g
sum_to-add zero f g = omega arith
sum_to-add (suc n) f g = omega (arith, sum_to-add n f g)

pub sum_to-ext : (n : ℕ) (f g : ℕ → ℕ) → ((r : ℕ) → r < n → f r ≡ g r) → sum_to n f ≡ sum_to n g
sum_to-ext zero f g h = refl
sum_to-ext (suc n) f g h =
    omega (arith, h n (omega arith), sum_to-ext n f g (λ r lt. h r (omega (arith, lt))))

pub sum_to-one : (n : ℕ) → sum_to n (λ r. 1) ≡ n
sum_to-one zero = refl
sum_to-one (suc n) = omega (arith, sum_to-one n)

sum_to-zero : (n : ℕ) → sum_to n (λ r. 0) ≡ 0
sum_to-zero zero = refl
sum_to-zero (suc n) = omega (arith, sum_to-zero n)

sum_to-above : (n k v : ℕ) → n ≤ k → sum_to n (λ r. if k == r then v else 0) ≡ 0
sum_to-above zero k v h = refl
sum_to-above (suc n) k v h = ground (arith, sum_to-above n k v)

sum_to-point : (n k v : ℕ) → k < n → sum_to n (λ r. if k == r then v else 0) ≡ v
sum_to-point zero k v h = absurd (omega arith)
sum_to-point (suc n) k v h = ground (arith, sum_to-point n k v, sum_to-above n k v)

-- The weight of all chunks, and of those that rank `r` sent.
abbrev pub total : (Chunk → ℕ) → List Chunk → ℕ
total w [] = 0
total w (c ∷ cs) = w c + total w cs

abbrev pub total_from : (Chunk → ℕ) → ℕ → List Chunk → ℕ
total_from w r [] = 0
total_from w r (c ∷ cs) = (if extract_rank c.chunk_id == r then w c else 0) + total_from w r cs

abbrev pub AllFrom : ℕ → List Chunk → Type 0
AllFrom n [] = Unit
AllFrom n (c ∷ cs) = (extract_rank c.chunk_id < n) × AllFrom n cs

pub total-by-rank :
    (w : Chunk → ℕ) (n : ℕ) (cs : List Chunk)
    → AllFrom n cs
    → sum_to n (λ r. total_from w r cs) ≡ total w cs
total-by-rank w n [] h = sum_to-zero n
total-by-rank w n (c ∷ cs) h = omega (
  arith,
  sum_to-add n (λ r. if extract_rank c.chunk_id == r then w c else 0) (λ r. total_from w r cs),
  sum_to-point n (extract_rank c.chunk_id) (w c) h.0,
  total-by-rank w n cs h.1,
)

-- Weights: every chunk, the control messages, and the number of chunks that a control message
-- announces (which data messages leave at zero).
abbrev pub one : Chunk → ℕ
one c = 1

abbrev pub control : Chunk → ℕ
control c = if is_control_message c then 1 else 0

abbrev pub announced : Chunk → ℕ
announced c = c.expected_num_chunks

pub total-one : (cs : List Chunk) → total one cs ≡ length cs
total-one [] = refl
total-one (c ∷ cs) = omega (arith, total-one cs)

-- With no control message nothing is announced.
pub announced-zero : (cs : List Chunk) → total control cs ≡ 0 → total announced cs ≡ 0
unfolding is_control_message
announced-zero [] h = refl
announced-zero (c ∷ cs) h = ground (arith, announced-zero cs)
