-- ===== src/Shuffler/Outbox/Ids.antt =====
-- Chunk ids and partition owners of shuffler.cpp and shuffler.hpp.
use rapidsmpf.Prelude.{ℕ, zero, suc, ◌+◌, ◌*◌, ◌/◌, ◌%◌, ◌^◌, ◌<◌, ◌≤◌, ◌≡◌, ap, ◌∙◌, sym, arith}
use mathlib.Core.Path.{subst, subst₂}
use native.Mathlib.Nat.{mod-eq_of_lt, div-lt_iff_lt-mul, le-div_iff_mul-le, mul-div-le, mul_comm}
use rapidsmpf.Shuffler.Inbox.{extract_rank}
use rapidsmpf.Prelude.Bits.{bit_or, bit_or-disjoint}
use rapidsmpf.Shuffler.Outbox.{Shuffler, get_new_cid, contiguous}

-- With at most 2 ^ 26 ranks, the ids that a rank makes before its counter passes 38 bits carry
-- its rank and its counter: the receiver reads the rank back, and no two of them are equal.
pub extract_rank-get_new_cid :
    (s : Shuffler)
    → s.rank < 2 ^ 26
    → s.chunk_id_counter + 1 < 2 ^ 38
    → (extract_rank (get_new_cid s).1 ≡ s.rank)
      × ((get_new_cid s).1 % 2 ^ 38 ≡ s.chunk_id_counter + 1)
      × ((get_new_cid s).0.chunk_id_counter ≡ s.chunk_id_counter + 1)
unfolding get_new_cid extract_rank
extract_rank-get_new_cid s r c =
    let e : bit_or 64 (s.rank * 2 ^ 38 % 2 ^ 64) ((s.chunk_id_counter + 1) % 2 ^ 64)
        ≡ s.rank * 2 ^ 38 + (s.chunk_id_counter + 1) =
      ap (λ a. bit_or 64 a ((s.chunk_id_counter + 1) % 2 ^ 64)) (omega arith)
      ∙ ap (bit_or 64 (s.rank * 2 ^ 38)) (omega arith)
      ∙ bit_or-disjoint 64 38 s.rank (s.chunk_id_counter + 1) (omega arith) (omega arith) c in
    (omega (arith, e), omega (arith, e), omega arith)

product_mono : (a b n : ℕ) → a ≤ b → a * n ≤ b * n
product_mono a b zero h = omega arith
product_mono a b (suc n) h = omega (arith, product_mono a b n h)

product_less : (a b n : ℕ) → a < b → 0 < n → a * n < b * n
product_less a b zero h p = absurd (omega arith)
product_less a b (suc n) h p = omega (arith, product_mono a b n (omega arith))

-- While the product stays within 32 bits, `contiguous` gives a rank that exists, and a later
-- partition never goes to an earlier rank.
contiguous-monotone :
    (nranks total p q : ℕ)
    → 0 < nranks
    → total * nranks < 2 ^ 32
    → p ≤ q
    → q < total
    → (contiguous nranks q total < nranks) × (contiguous nranks p total ≤ contiguous nranks q total)
unfolding contiguous
contiguous-monotone nranks total p q n fits h lt =
    let positive : 0 < total = omega arith in
    let less = product_less q total nranks lt n in
    let mono = product_mono p q nranks h in
    let eq : q * nranks % 2 ^ 32 ≡ q * nranks = mod-eq_of_lt (omega (arith, less)) in
    let ep : p * nranks % 2 ^ 32 ≡ p * nranks = mod-eq_of_lt (omega (arith, less, mono)) in
    (
      subst (λ x. x / total < nranks) (sym eq)
          ((div-lt_iff_lt-mul positive).1
            (subst (λ x. q * nranks < x) (mul_comm total nranks) less)),
      subst₂ (λ x y. x / total ≤ y / total) (sym ep) (sym eq)
          ((le-div_iff_mul-le positive).1 (
            omega
              (arith, mul-div-le (p * nranks) total, mul_comm (p * nranks / total) total, mono))),
    )
