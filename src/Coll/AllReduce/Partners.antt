-- ===== src/Coll/AllReduce/Partners.antt =====
-- The partners of the stages of an allreduce, cpp/src/coll/allreduce.cpp: at stage k the logical
-- ranks that differ in bit k alone. They belong to sibling blocks of 2 ^ k ranks.
use rapidsmpf.Prelude.{
  ℕ, zero, suc, ◌+◌, ◌-◌, ◌*◌, ◌/◌, ◌%◌, ◌^◌, ◌<◌, ◌≡◌, refl, ap, ◌∙◌, ltb, ◌==◌, if◌then◌else◌,
  arith,
}
use rapidsmpf.Prelude.Bits.{bit_xor}
use rapidsmpf.Coll.AllReduce.{stage_rank}

-- Bit k turned over.
unfoldable pub flip : ℕ → ℕ → ℕ
flip zero l = if l % 2 == 0 then l + 1 else l - 1
flip (suc k) l = l % 2 + 2 * flip k (l / 2)

xor_zero : (w l : ℕ) → l < 2 ^ w → bit_xor w l 0 ≡ l
unfolding bit_xor
xor_zero zero l h = omega arith
xor_zero (suc w) l h = ground (arith, xor_zero w (l / 2) (omega arith))

pub bit_xor-flip : (w k l : ℕ) → k < w → l < 2 ^ w → bit_xor w l (2 ^ k) ≡ flip k l
unfolding bit_xor flip
bit_xor-flip zero k l below fits = absurd (omega arith)
bit_xor-flip (suc w) zero l below fits = ground (arith, xor_zero w (l / 2) (omega arith))
bit_xor-flip (suc w) (suc k) l below fits =
    let even : 2 ^ suc k % 2 ≡ 0 = omega arith in
    let half : 2 ^ suc k / 2 ≡ 2 ^ k = omega arith in
    rw (even, half, bit_xor-flip w k (l / 2) (omega arith) (omega arith)) (ground arith)

-- The block of 2 ^ k ranks that a rank lies in.
unfoldable pub block : ℕ → ℕ → ℕ
block zero l = l
block (suc k) l = block k (l / 2)

pub block_half : (k l : ℕ) → block (suc k) l ≡ block k l / 2
unfolding block
block_half zero l = refl
block_half (suc k) l = block_half k (l / 2)

flip_half : (k l : ℕ) → flip (suc k) l / 2 ≡ flip k (l / 2)
unfolding flip
flip_half k l = omega arith

pub block-flip : (k l : ℕ) → block k (flip k l) ≡ flip 0 (block k l)
unfolding block
block-flip zero l = refl
block-flip (suc k) l = ap (block k) (flip_half k l) ∙ block-flip k (l / 2)

half_ltb : (f l : ℕ) → ltb (l % 2 + 2 * f) l ≡ ltb f (l / 2)
half_ltb f l = ground arith

-- A partner is lower exactly where its block is the left one.
pub flip-lt : (k l : ℕ) → ltb (flip k l) l ≡ (block k l % 2 == 1)
unfolding flip block
flip-lt zero l = ground arith
flip-lt (suc k) l = half_ltb (flip k (l / 2)) l ∙ flip-lt k (l / 2)

pub flip-flip : (k l : ℕ) → flip k (flip k l) ≡ l
unfolding flip
flip-flip zero l = ground arith
flip-flip (suc k) l = omega (arith, ap (flip k) (flip_half k l), flip-flip k (l / 2))

-- Different stages have different partners.
pub flip-injective : (k j l : ℕ) → flip k l ≡ flip j l → k ≡ j
unfolding flip
flip-injective zero zero l e = refl
flip-injective zero (suc j) l e = absurd (ground arith)
flip-injective (suc k) zero l e = absurd (ground arith)
flip-injective (suc k) (suc j) l e = ap suc (flip-injective k j (l / 2) (omega arith))

-- After the last stage there is one block.
pub block-zero : (k l : ℕ) → l < 2 ^ k → block k l ≡ 0
unfolding block
block-zero zero l h = omega arith
block-zero (suc k) l h = block-zero k (l / 2) (omega arith)

-- The ranks keep the order of their logical ranks.
pub stage_rank-ltb : (rem a b : ℕ) → ltb (stage_rank rem a) (stage_rank rem b) ≡ ltb a b
unfolding stage_rank
stage_rank-ltb rem a b = ground arith

pub stage_rank-injective : (rem a b : ℕ) → stage_rank rem a ≡ stage_rank rem b → a ≡ b
unfolding stage_rank
stage_rank-injective rem a b h = ground arith
