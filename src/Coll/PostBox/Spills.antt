-- ===== src/Coll/PostBox/Spills.antt =====
-- What `PostBox::spill` returns: the sizes of the chunks that it picks.
use mathlib.Core.Path.{subst₂}
use rapidsmpf.Prelude.{
  ℕ, zero, set, Option, suc, ◌+◌, ◌-◌, ◌<◌, ◌≤◌, ◌≡◌, refl, ap, sym, ◌∙◌, inl, inr, none, some,
  List, [], ◌∷◌, Bool-cases, Option-cases, ◌==◌, ltb, leb, min, arith, map, get_elem?, subst,
  get_elem?-map, map-set, length,
}
use rapidsmpf.Prelude.Result.{Result, ok, err, ok-injective, Result-cases}
use rapidsmpf.Memory.Types.{device, same_type, spill_target_memory_types}
use rapidsmpf.Memory.Resource.{BufferResource, MemoryReservation, reserve_or_fail}
use rapidsmpf.Memory.Buffer.{Buffer, move}
use rapidsmpf.Coll.Chunk.{Chunk, attach_data_buffer, release_data_buffer, memory_type}
use rapidsmpf.Coll.PostBox.{
  spill, spill_at, spill_all, spill_loop, spill_chunk, after_chunk, attach_moved, spillable_chunks,
  total_size, sort_by_size, pick,
}
use rapidsmpf.Coll.PostBox.Device.{flag, flags, Gone, spill_chunk-Gone}
use rapidsmpf.Coll.PostBox.Cleared.{All, All-sort, pick-All, clear_all, chosen-leaves}
use rapidsmpf.Coll.PostBox.Fewest.{
  choices, chosen, chosen-enough, chosen-fewest, IsSublist, nothing, skip, keep,
}

unfoldable pub data_sizes : List Chunk → List ℕ
data_sizes box = map (λ c. c.data_size) box

-- A result, where no exception was thrown.
abbrev pub Reports : ℕ → Result ℕ → Type 0
Reports n (ok m) = m ≡ n
Reports n (err e) = Unit

abbrev KeepsChunk : Chunk → BufferResource × Chunk × Result ℕ → Type 0
KeepsChunk c out = (out.1.data_size ≡ c.data_size) × Reports c.data_size out.2

-- The chunks keep their sizes, and a spill that returns leaves what it should in device memory.
abbrev Leaves : List (Option ℕ) → BufferResource × List Chunk × Result ℕ → Type 0
Leaves fs (br, box, ok n) = flags box ≡ fs
Leaves fs (br, box, err e) = Unit

abbrev KeepsBox : List Chunk → List (Option ℕ) → ℕ → BufferResource × List Chunk × Result ℕ → Type 0
KeepsBox box fs n out = (data_sizes out.1 ≡ data_sizes box) × (Reports n out.2 × Leaves fs out)

attach-size :
    (c : Chunk) (b : Buffer) (c' : Chunk)
    → attach_data_buffer c b ≡ ok c'
    → c'.data_size ≡ c.data_size
unfolding attach_data_buffer
attach-size c b c' h = elim (Option-cases c.payload) [
  | inl q ↦ elim (Bool-cases (b.size == c.data_size)) [
    | inl e ↦ ap (λ x. x.data_size) (sym (ok-injective (rw (e, q) at h)))
    | inr e ↦ absurd (let w = rw e at h in cc)
  ]
  | inr (x, q) ↦ elim (Bool-cases (b.size == c.data_size)) [
    | inl e ↦ absurd (let w = rw (e, q) at h in cc)
    | inr e ↦ absurd (let w = rw e at h in cc)
  ]
]

attach_moved-Keeps :
    (c : Chunk) (br : BufferResource) (r : MemoryReservation)
    (moved : Result (BufferResource × MemoryReservation × Buffer))
    → KeepsChunk c (attach_moved c br r moved)
unfolding attach_moved
attach_moved-Keeps c br r (err e) = (refl, tt)
attach_moved-Keeps c br r (ok (br1, r1, b)) = elim (Result-cases (attach_data_buffer c b)) [
  | inl (c1, e) ↦ let size = attach-size c b c1 e in rw (e, attach_moved) (size, size)
  | inr (x, e) ↦ rw (e, attach_moved) (refl, tt)
]

spill_chunk-Keeps : (br : BufferResource) (c : Chunk) → KeepsChunk c (spill_chunk br c)
unfolding spill_chunk release_data_buffer
spill_chunk-Keeps br c =
    elim (Result-cases (reserve_or_fail br c.data_size spill_target_memory_types)) [
      | inl ((br1, r), e) ↦ elim (Option-cases c.payload) [
        | inl q ↦ rw (e, q, spill_chunk) (refl, tt)
        | inr (b, q) ↦
            rw (e, q, spill_chunk)
              (attach_moved-Keeps (record c { payload = none }) br1 r (move br1 b r))
      ]
      | inr (x, e) ↦ rw (e, spill_chunk) (refl, tt)
    ]

map-set_to {ℓ κ} :
    {A : Type ℓ} {B : Type κ} (f : A → B) (xs : List A) (i : ℕ) (a : A)
    → map f (set xs i a) ≡ set (map f xs) i (f a)
map-set_to f [] i a = refl
map-set_to f (x ∷ xs) zero a = refl
map-set_to f (x ∷ xs) (suc i) a = ap (λ ys. f x ∷ ys) (map-set_to f xs i a)

spilled-Leaves :
    (box : List Chunk) (i : ℕ) (out : BufferResource × Chunk × Result ℕ)
    → Gone out
    → Leaves (set (flags box) i none) (out.0, set box i out.1, out.2)
spilled-Leaves box i (br, c, ok n) h = map-set_to flag box i c ∙ ap (λ z. set (map flag box) i z) h
spilled-Leaves box i (br, c, err e) h = tt

spill_at-Keeps :
    (br : BufferResource) (box : List Chunk) (i n : ℕ)
    → get_elem? (data_sizes box) i ≡ some n
    → KeepsBox box (set (flags box) i none) n (spill_at br box i)
unfolding spill_at data_sizes
spill_at-Keeps br box i n h =
    let (c, (at, size)) = get_elem?-map (λ c. c.data_size) box i n h in
    let (kept, reported) = spill_chunk-Keeps br c in
    rw (at, spill_at)
      (
        map-set (λ c. c.data_size) box i c _ at kept,
        (
          subst (λ k. Reports k (spill_chunk br c).2) size reported,
          spilled-Leaves box i (spill_chunk br c) (spill_chunk-Gone br c),
        ),
      )

-- The places and sizes are those of the box.
abbrev IsAt : List ℕ → ℕ × ℕ → Type 0
IsAt sizes x = get_elem? sizes x.0 ≡ some x.1

abbrev AreSizes : List ℕ → List (ℕ × ℕ) → Type 0
AreSizes sizes xs = All (IsAt sizes) xs

module _ (box : List Chunk) (n total : ℕ) (fs1 fs2 : List (Option ℕ)) where
  after_chunk-Keeps :
      (out : BufferResource × List Chunk × Result ℕ)
      (k : BufferResource → List Chunk → ℕ → BufferResource × List Chunk × Result ℕ)
      → KeepsBox box fs1 n out
      → ((br : BufferResource) (box' : List Chunk)
          → data_sizes box' ≡ data_sizes box
          → flags box' ≡ fs1
          → KeepsBox box' fs2 total (k br box' n))
      → KeepsBox box fs2 total (after_chunk out k)
  unfolding after_chunk
  after_chunk-Keeps (br, box', err e) k (s, r) h = (s, (tt, tt))
  after_chunk-Keeps (br, box', ok m) k (s, (r, f)) h =
      let (s', r') = h br box' s f in
      subst (λ m. KeepsBox box fs2 total (k br box' m)) (sym r) (s' ∙ s, r')

spill_all-Keeps :
    (br : BufferResource) (box : List Chunk) (total : ℕ) (xs : List (ℕ × ℕ))
    → AreSizes (data_sizes box) xs
    → KeepsBox box (clear_all (flags box) xs) (total + total_size xs) (spill_all br box total xs)
unfolding spill_all total_size clear_all
spill_all-Keeps br box total [] v = (refl, (omega arith, refl))
spill_all-Keeps br box total ((i, n) ∷ xs) v =
    after_chunk-Keeps box n (total + (n + total_size xs)) (set (flags box) i none)
      (clear_all (set (flags box) i none) xs) (spill_at br box i) _ (spill_at-Keeps br box i n v.0)
      (λ br' box' s f.
        let more =
          spill_all-Keeps br' box' (total + n) xs (subst (λ z. AreSizes z xs) (sym s) v.1) in
        subst₂ (λ t g. KeepsBox box' (clear_all g xs) t (spill_all br' box' (total + n) xs))
          (omega arith) f more)

spill_loop-Keeps :
    (br : BufferResource) (box : List Chunk) (amount total : ℕ) (xs : List (ℕ × ℕ))
    → AreSizes (data_sizes box) xs
    → KeepsBox box
        (clear_all (flags box) (choices amount total xs))
        (total + total_size (choices amount total xs))
        (spill_loop br box amount total xs)
unfolding spill_loop total_size choices clear_all
spill_loop-Keeps br box amount total [] v = (refl, (omega arith, refl))
spill_loop-Keeps br box amount total (back ∷ rest) v =
    let x = pick (amount - total) back rest in
    let first =
      spill_at-Keeps br box x.0 x.1
        (pick-All (IsAt (data_sizes box)) (amount - total) back rest v) in
    let all = choices amount total (back ∷ rest) in
    after_chunk-Keeps box x.1 (total + total_size all) (set (flags box) x.0 none)
      (clear_all (flags box) all) (spill_at br box x.0) _ first
      (λ br' box' s f. elim (Bool-cases (leb amount (total + x.1))) [
        | inl e ↦ rw e (refl, (omega arith, f))
        | inr e ↦
            let again = choices amount (total + x.1) rest in
            let more =
              spill_loop-Keeps br' box' amount (total + x.1) rest
                (subst (λ z. AreSizes z rest) (sym s) v.1) in
            rw e (
              subst₂
                (λ t g.
                  KeepsBox box' (clear_all g again) t
                    (spill_loop br' box' amount (total + x.1) rest))
                (omega arith) f more)
      ])

spillable-AreSizes :
    (sizes : List ℕ) (i : ℕ) (box : List Chunk)
    → ((k : ℕ) → get_elem? sizes (i + k) ≡ get_elem? (data_sizes box) k)
    → AreSizes sizes (spillable_chunks i box)
unfolding spillable_chunks data_sizes
spillable-AreSizes sizes i [] same = tt
spillable-AreSizes sizes i (c ∷ box) same =
    let rest =
      spillable-AreSizes sizes (suc i) box
        (λ k. ap (get_elem? sizes) (omega arith) ∙ same (suc k)) in
    elim (Bool-cases (same_type (memory_type c) device)) [
      | inl e ↦ rw e (ap (get_elem? sizes) (omega arith) ∙ same 0, rest)
      | inr e ↦ rw e rest
    ]

from_zero :
    (box : List Chunk) (fs : List (Option ℕ)) (n : ℕ) (out : BufferResource × List Chunk × Result ℕ)
    → KeepsBox box fs (0 + n) out
    → KeepsBox box fs n out
from_zero box fs n out (s, (r, f)) = (s, (subst (λ t. Reports t out.2) (omega arith) r, f))

-- A spill keeps the number and the sizes of the chunks, whether it ends by an exception or not. What
-- it returns are the bytes of the chunks that it picked, and these have left device memory.
spill-Keeps :
    (br : BufferResource) (box : List Chunk) (amount : ℕ)
    → KeepsBox box
        (clear_all (flags box) (chosen box amount))
        (total_size (chosen box amount))
        (spill br box amount)
unfolding spill chosen
spill-Keeps br box amount =
    let xs = spillable_chunks 0 box in
    let v =
      spillable-AreSizes (data_sizes box) 0 box
        (λ k. ap (get_elem? (data_sizes box)) (omega arith)) in
    elim (Bool-cases (ltb (total_size xs) amount)) [
      | inl e ↦ rw e (
          from_zero box (clear_all (flags box) xs) (total_size xs) (spill_all br box 0 xs)
            (spill_all-Keeps br box 0 xs v))
      | inr e ↦
          let ys = sort_by_size xs in
          let picked = choices amount 0 ys in
          rw e (
            from_zero box (clear_all (flags box) picked) (total_size picked)
              (spill_loop br box amount 0 ys)
              (spill_loop-Keeps br box amount 0 ys (All-sort (IsAt (data_sizes box)) xs v)))
    ]

sublist_total : (xs ys : List (ℕ × ℕ)) → IsSublist xs ys → total_size xs ≤ total_size ys
unfolding total_size
sublist_total _ _ nothing = omega arith
sublist_total _ _ (skip {xs} {ys} y sub) = omega (arith, sublist_total xs ys sub)
sublist_total _ _ (keep {xs} {ys} x sub) = omega (arith, sublist_total xs ys sub)

-- What a spill that returns has done.
spilled :
    (br br' : BufferResource) (box box' : List Chunk) (amount total : ℕ)
    → ◌≡◌ {A = BufferResource × List Chunk × Result ℕ} (spill br box amount) (br', box', ok total)
    → (data_sizes box' ≡ data_sizes box)
      × ((total ≡ total_size (chosen box amount))
          × (flags box' ≡ clear_all (flags box) (chosen box amount)))
spilled br br' box box' amount total e =
    subst
      (KeepsBox box (clear_all (flags box) (chosen box amount)) (total_size (chosen box amount))) e
      (spill-Keeps br box amount)

-- A spill of some bytes that returns has taken out of device memory as many bytes as it returns: the
-- amount or more, or every byte in device memory where there are fewer. It keeps the number and the
-- sizes of the chunks.
pub spill-enough :
    (br br' : BufferResource) (box box' : List Chunk) (amount total : ℕ)
    → 0 < amount
    → ◌≡◌ {A = BufferResource × List Chunk × Result ℕ} (spill br box amount) (br', box', ok total)
    → (min amount (total_size (spillable_chunks 0 box)) ≤ total)
      × (total + total_size (spillable_chunks 0 box') ≡ total_size (spillable_chunks 0 box))
      × (data_sizes box' ≡ data_sizes box)
spill-enough br br' box box' amount total pos e =
    let (kept, (reported, left)) = spilled br br' box box' amount total e in
    (
      omega (arith, reported, chosen-enough box amount pos),
      omega (arith, reported, (chosen-leaves box box' amount left).0),
      kept,
    )

-- A spill of some bytes that returns, where some choice of device chunks is enough for the amount,
-- takes as many bytes out of device memory as it returns, and that is the amount or more; and it takes
-- no more chunks out of device memory than there are in that choice.
pub spill-fewest :
    (br br' : BufferResource) (box box' : List Chunk) (amount total : ℕ) (others : List (ℕ × ℕ))
    → 0 < amount
    → ◌≡◌ {A = BufferResource × List Chunk × Result ℕ} (spill br box amount) (br', box', ok total)
    → IsSublist others (spillable_chunks 0 box)
    → amount ≤ total_size others
    → (amount ≤ total)
      × (total + total_size (spillable_chunks 0 box') ≡ total_size (spillable_chunks 0 box))
      × (length (spillable_chunks 0 box) ≤ length (spillable_chunks 0 box') + length others)
spill-fewest br br' box box' amount total others pos e sub enough =
    let (_, (reported, left)) = spilled br br' box box' amount total e in
    let (bytes, chunks) = chosen-leaves box box' amount left in
    (
      omega (
        arith,
        reported,
        enough,
        chosen-enough box amount pos,
        sublist_total others (spillable_chunks 0 box) sub,
      ),
      omega (arith, reported, bytes),
      omega (arith, chunks, chosen-fewest box amount others pos sub enough),
    )
