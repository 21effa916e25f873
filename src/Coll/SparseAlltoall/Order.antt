-- ===== src/Coll/SparseAlltoall/Order.antt =====
-- The order of `SparseAlltoall::extract` of cpp/src/coll/sparse_alltoall.cpp.
use rapidsmpf.Prelude.{ℕ, ◌<◌, ◌≡◌, ◌≢◌, refl, ap, ◌∙◌, some, List, [], ◌∷◌, true, arith}
use rapidsmpf.Prelude.Assoc.{find, assign}
use rapidsmpf.Prelude.Result.{ok}
use rapidsmpf.Coll.Chunk.{Chunk, PackedData, sequence}
use rapidsmpf.Coll.SparseAlltoall.{
  SparseAlltoall, SourceState, sort_by_sequence, sequence_insert, extract, release_all,
}

-- `IsInserted c xs ys`: the list `ys` is `xs` with `c` put in somewhere.
pub data IsInserted (c : Chunk) : List Chunk → List Chunk → Type 0 where
  here : (xs : List Chunk) → IsInserted c xs (c ∷ xs)
  there : (d : Chunk) {xs ys : List Chunk} → IsInserted c xs ys → IsInserted c (d ∷ xs) (d ∷ ys)

-- `IsArrangement xs ys`: the chunks of `xs` in the order `ys`.
pub data IsArrangement : List Chunk → List Chunk → Type 0 where
  nothing : IsArrangement [] []
  put :
      {c : Chunk} {xs ys zs : List Chunk}
      → IsArrangement xs ys
      → IsInserted c ys zs
      → IsArrangement (c ∷ xs) zs

-- Sequence numbers above those before.
abbrev pub IsAbove : ℕ → List Chunk → Type 0
IsAbove n [] = Unit
IsAbove n (c ∷ cs) = (n < sequence c) × IsAbove n cs

abbrev pub IsAscending : List Chunk → Type 0
IsAscending [] = Unit
IsAscending (c ∷ cs) = IsAbove (sequence c) cs × IsAscending cs

swap :
    (c d : Chunk) (cs : List Chunk)
    → sequence c ≢ sequence d
    → sequence_insert d (sequence_insert c cs) ≡ sequence_insert c (sequence_insert d cs)
unfolding sequence_insert
swap c d [] ne = ground arith
swap c d (e ∷ es) ne = ground (arith, swap c d es ne)

sort-inserted :
    (c : Chunk) (ys zs : List Chunk)
    → IsInserted c ys zs
    → IsAbove (sequence c) ys
    → sort_by_sequence zs ≡ sequence_insert c (sort_by_sequence ys)
unfolding sort_by_sequence
sort-inserted c ys _ (here _) above = refl
sort-inserted c _ _ (there d {xs = xs} {ys = ys} h) above =
    ap (sequence_insert d) (sort-inserted c xs ys h above.1)
    ∙ swap c d (sort_by_sequence xs) (λ e. omega (arith, e, above.0))

IsAbove-inserted :
    (n : ℕ) (c : Chunk) (ys zs : List Chunk)
    → n < sequence c
    → IsAbove n ys
    → IsInserted c ys zs
    → IsAbove n zs
IsAbove-inserted n c ys _ lt above (here _) = (lt, above)
IsAbove-inserted n c _ _ lt above (there d {xs = xs} {ys = ys} h) =
    (above.0, IsAbove-inserted n c xs ys lt above.1 h)

IsAbove-arranged : (n : ℕ) (xs zs : List Chunk) → IsAbove n xs → IsArrangement xs zs → IsAbove n zs
IsAbove-arranged n _ _ above nothing = tt
IsAbove-arranged n _ zs above (put {c = c} {xs = xs} {ys = ys} a ins) =
    IsAbove-inserted n c ys zs above.0 (IsAbove-arranged n xs ys above.1 a) ins

insert_below :
    (c : Chunk) (cs : List Chunk) → IsAbove (sequence c) cs → sequence_insert c cs ≡ c ∷ cs
unfolding sequence_insert
insert_below c [] above = refl
insert_below c (d ∷ ds) above = let lt = above.0 in ground (arith, lt)

-- Chunks with ascending sequence numbers are extracted in that order, in whatever order they came.
pub sort-arrangement :
    (xs zs : List Chunk) → IsAscending xs → IsArrangement xs zs → sort_by_sequence zs ≡ xs
unfolding sort_by_sequence
sort-arrangement _ _ v nothing = refl
sort-arrangement _ zs v (put {c = c} {xs = xs} {ys = ys} a ins) =
    sort-inserted c ys zs ins (IsAbove-arranged (sequence c) xs ys v.0 a)
    ∙ ap (sequence_insert c) (sort-arrangement xs ys v.1 a)
    ∙ insert_below c xs v.0

-- When everything has come, the chunks of a source are extracted in the order of their sequence
-- numbers, in whatever order they arrived, and the source is left empty.
pub extract-in_order :
    (s : SparseAlltoall) (src : ℕ) (state : SourceState) (xs : List Chunk) (ps : List PackedData)
    → find src s.source_states ≡ some state
    → s.can_extract ≡ true
    → IsAscending xs
    → IsArrangement xs state.chunks
    → release_all xs ≡ ok ps
    → extract s src
      ≡ ok (
        record s { source_states = assign src (record state { chunks = [] }) s.source_states },
        ps,
      )
unfolding extract
extract-in_order s src state xs ps found ready ascending arranged released =
    let sorted = sort-arrangement xs state.chunks ascending arranged in
    rw (found, extract, ready, sorted, released) refl
