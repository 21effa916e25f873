-- ===== src/Prelude/Bits.antt =====
-- The bitwise or and exclusive or of unsigned integers, by halving, and std::bit_floor.
use rapidsmpf.Prelude.{
  ℕ, zero, suc, ◌+◌, ◌*◌, ◌/◌, ◌%◌, ◌^◌, ◌<◌, ◌≤◌, ◌≡◌, ap, ◌∙◌, arith, ◌==◌, ◌&&◌, ltb, refl,
  if◌then◌else◌,
}

-- The bitwise or of the low `w` bits.
unfoldable pub bit_or : ℕ → ℕ → ℕ → ℕ
bit_or zero a b = 0
bit_or (suc w) a b = (if a % 2 == 0 && b % 2 == 0 then 0 else 1) + 2 * bit_or w (a / 2) (b / 2)

or_zero : (w : ℕ) (h : ℕ) → h < 2 ^ w → bit_or w h 0 ≡ h
unfolding bit_or
or_zero zero h lt = omega arith
or_zero (suc w) h lt = let e = or_zero w (h / 2) (omega arith) in ground (arith, e)

or_step :
    (m m' l rest : ℕ)
    → m ≡ 2 * m'
    → rest ≡ m' + l / 2
    → (if m % 2 == 0 && l % 2 == 0 then 0 else 1) + 2 * rest ≡ m + l
or_step m m' l rest d e = ground arith

double : (h k : ℕ) → h * 2 ^ suc k ≡ 2 * (h * 2 ^ k)
double zero k = omega arith
double (suc h) k = omega (arith, double h k)

-- Numbers with no common bit: the or is the sum.
pub bit_or-disjoint :
    (w k h l : ℕ) → k ≤ w → h * 2 ^ k < 2 ^ w → l < 2 ^ k → bit_or w (h * 2 ^ k) l ≡ h * 2 ^ k + l
unfolding bit_or
bit_or-disjoint w zero h l k_le fits small =
    let z : l ≡ 0 = omega arith in rw z (or_zero w (h * 2 ^ 0) fits ∙ omega arith)
bit_or-disjoint zero (suc k) h l k_le fits small = absurd (omega arith)
bit_or-disjoint (suc w) (suc k) h l k_le fits small =
    let d = double h k in
    let half : h * 2 ^ suc k / 2 ≡ h * 2 ^ k = omega (arith, d) in
    or_step (h * 2 ^ suc k) (h * 2 ^ k) l _ d (
      ap (λ a. bit_or w a (l / 2)) half
      ∙ bit_or-disjoint w k h (l / 2) (omega arith) (omega (arith, d)) (omega arith))

-- The bitwise exclusive or of the low `w` bits.
unfoldable pub bit_xor : ℕ → ℕ → ℕ → ℕ
bit_xor zero a b = 0
bit_xor (suc w) a b = (if a % 2 == b % 2 then 0 else 1) + 2 * bit_xor w (a / 2) (b / 2)

-- std::bit_floor of an integer of `w` bits: its highest bit alone.
unfoldable pub bit_floor : ℕ → ℕ → ℕ
bit_floor zero n = 0
bit_floor (suc w) n = if ltb n 2 then n else 2 * bit_floor w (n / 2)

-- The highest bit of a positive number that has at most `w` bits.
pub bit_floor_lem :
    (w n : ℕ)
    → 0 < n
    → n < 2 ^ w
    → (k : ℕ) × (k < w) × (bit_floor w n ≡ 2 ^ k) × (2 ^ k ≤ n) × (n < 2 ^ suc k)
unfolding bit_floor
bit_floor_lem zero n pos fits = absurd (omega arith)
bit_floor_lem (suc w) zero pos fits = absurd (omega arith)
bit_floor_lem (suc w) (suc zero) pos fits = (0, omega arith, refl, omega arith, omega arith)
bit_floor_lem (suc w) (suc (suc n)) pos fits =
    let (k, below, same, low, high) =
      bit_floor_lem w (suc (suc n) / 2) (omega arith) (omega arith) in
    (suc k, omega arith, ground (arith, same), omega (arith, low), omega (arith, high))
