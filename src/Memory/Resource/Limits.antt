-- ===== src/Memory/Resource/Limits.antt =====
-- What `reserve` and `try_reserve` of buffer_resource.cpp promise about the memory limits.
use rapidsmpf.Prelude.{
  ℕ, ◌+◌, ◌<◌, ◌^◌, ◌≡◌, refl, sym, ap, ◌∙◌, subst, not, ◌||◌, ◌&&◌, ◌%◌, ◌⊎◌, inl, inr, Bool, true,
  false, arith, Bool-cases, ltb,
}
use mathlib.Core.Path.{ap₂, subst₂}
use rapidsmpf.Prelude.Int.{ℤ, pos, neg_part, ◌≤ℤ◌, ◌-ℤ◌, ◌+ℤ◌, in_i64}
use rapidsmpf.Prelude.Result.{ok, >>=-eq-ok, expects-eq-ok, ok-injective}
use rapidsmpf.Memory.Types.{MemoryType, device, pinned_host, host, disk, same_type, same_type_refl}
use rapidsmpf.Memory.Resource.{
  BufferResource, MemoryReservation, memory_available, headroom_after, overbooking_of, book,
  reserve, cast_i64, i64, update,
}

pub memory_available-reserved :
    (br : BufferResource) (f : MemoryType → ℕ) (t : MemoryType)
    → memory_available (record br { memory_reserved = f }) t ≡ memory_available br t
unfolding memory_available
memory_available-reserved br f device = refl
memory_available-reserved br f pinned_host = refl
memory_available-reserved br f host = refl
memory_available-reserved br f disk = refl

pub cast_i64-ok : (n : ℕ) (z : ℤ) → cast_i64 n ≡ ok z → (z ≡ pos n) × (n < 2 ^ 63)
unfolding cast_i64
cast_i64-ok n z e = ground arith

pub i64-ok : (a b : ℤ) → i64 a ≡ ok b → (b ≡ a) × (in_i64 a ≡ true)
unfolding i64
i64-ok a b e = ground arith

pos_sum_range : (m n : ℕ) → in_i64 (pos m +ℤ pos n) ≡ true → m + n < 2 ^ 63
unfolding ◌+ℤ◌
pos_sum_range m n h = ground arith

sum_of_casts :
    (a r w s h : ℤ) (m n : ℕ)
    → r ≡ pos m
    → w ≡ pos n
    → s ≡ r +ℤ w
    → in_i64 (r +ℤ w) ≡ true
    → h ≡ a -ℤ s
    → (h ≡ a -ℤ pos (m + n)) × (m + n < 2 ^ 63)
unfolding ◌+ℤ◌
sum_of_casts a r w s h m n er ew es range eh = (
  eh ∙ ap (λ z. a -ℤ z) (es ∙ ap₂ ◌+ℤ◌ er ew ∙ ground arith),
  pos_sum_range m n (subst (λ z. in_i64 z ≡ true) (ap₂ ◌+ℤ◌ er ew) range),
)

-- The number that `reserve` compares with zero.
pub headroom-bounds :
    (br : BufferResource) (t : MemoryType) (size : ℕ) (h : ℤ)
    → headroom_after br t size ≡ ok h
    → (a : ℤ) × (memory_available br t ≡ ok a)
      × (h ≡ a -ℤ pos (br.memory_reserved t + size))
      × (br.memory_reserved t + size < 2 ^ 63)
unfolding headroom_after
headroom-bounds br t size h e =
    let (a, p, e1) = >>=-eq-ok (memory_available br t) _ e in
    let (r, q, e2) = >>=-eq-ok (cast_i64 (br.memory_reserved t)) _ e1 in
    let (w, q', e3) = >>=-eq-ok (cast_i64 size) _ e2 in
    let (s, q'', e4) = >>=-eq-ok (i64 (r +ℤ w)) _ e3 in
    let (er, _) = cast_i64-ok _ r q in
    let (ew, _) = cast_i64-ok size w q' in
    let (es, range) = i64-ok (r +ℤ w) s q'' in
    let (eh, _) = i64-ok (a -ℤ s) h e4 in
    let (x, y) = sum_of_casts a r w s h _ size er ew es range eh in (a, p, x, y)

overbooking_of-ok : (h : ℤ) (o : ℕ) → overbooking_of h ≡ ok o → o ≡ neg_part h
unfolding overbooking_of
overbooking_of-ok h o e = ground arith

book-over :
    (br : BufferResource) (t : MemoryType) (size : ℕ) (allow : Bool) (o : ℕ)
    → (book br t size allow o).2 ≡ o
unfolding book
book-over br t size allow o = ground arith

reserve-Booked :
    (br : BufferResource) (t : MemoryType) (size : ℕ) (allow : Bool) (br' : BufferResource)
    (r : MemoryReservation) (o : ℕ)
    → reserve br t size allow ≡ ok (br', r, o)
    → (h : ℤ) × (headroom_after br t size ≡ ok h)
      × (o ≡ neg_part h)
      × (book br t size allow o ≡ (br', r, o))
unfolding reserve
reserve-Booked br t size allow br' r o e =
    let (_, e1) = expects-eq-ok (not (same_type t disk) || br.has_disk) _ _ e in
    let (_, e2) = expects-eq-ok (not (same_type t pinned_host) || br.has_pinned) _ _ e1 in
    let (h, p, e3) = >>=-eq-ok (headroom_after br t size) _ e2 in
    let (n, q, e4) = >>=-eq-ok (overbooking_of h) _ e3 in
    let done : book br t size allow n ≡ (br', r, o) = ok-injective e4 in
    let same : n ≡ o = sym (book-over br t size allow n) ∙ ap (λ z. z.2) done in
    (
      h,
      p,
      sym same ∙ overbooking_of-ok h n q,
      subst (λ k. book br t size allow k ≡ (br', r, o)) same done,
    )

-- The resource with `n` bytes of type `t` reserved.
abbrev pub with_reserved : BufferResource → MemoryType → ℕ → BufferResource
with_reserved br t n = record br { memory_reserved = update br.memory_reserved t n }

-- `book` keeps all of the reservation, or makes an empty one and changes nothing.
abbrev pub Outcome :
    BufferResource → MemoryType → ℕ → Bool → BufferResource → MemoryReservation → ℕ → Type 0
Outcome br t size allow br' r o =
    ((r.size ≡ size)
      × (br' ≡ with_reserved br t (br.memory_reserved t + size))
      × ((allow ≡ true) ⊎ (o ≡ 0)))
    ⊎ ((r.size ≡ 0) × (br' ≡ br) × (allow ≡ false) × (0 < o))

no_wrap : (n : ℕ) → n < 2 ^ 63 → n % 2 ^ 64 ≡ n
no_wrap n h = omega arith

book-Outcome :
    (br : BufferResource) (t : MemoryType) (size : ℕ) (allow : Bool) (o : ℕ)
    → br.memory_reserved t + size < 2 ^ 63
    → Outcome br t size allow (book br t size allow o).0 (book br t size allow o).1 o
unfolding book
book-Outcome br t size allow o h = elim (Bool-cases (ltb 0 o && not allow)) [
  | inl p ↦ rw (p, book) (inr (refl, refl, ground arith, ground arith))
  | inr p ↦ rw (p, book) (inl (refl, rw (no_wrap _ h) refl, ground arith))
]

book-type :
    (br : BufferResource) (t : MemoryType) (size : ℕ) (allow : Bool) (o : ℕ)
    → (book br t size allow o).1.mem_type ≡ t
unfolding book
book-type br t size allow o = ground arith

-- When `reserve` returns, it reports as overbooking the bytes by which the reservation passes the
-- available memory. It either reserves all of `size`, which without permission to overbook happens
-- only when nothing is overbooked, or makes an empty reservation and changes nothing, which happens
-- only without that permission and when something would be overbooked.
pub reserve-Outcome :
    (br : BufferResource) (t : MemoryType) (size : ℕ) (allow : Bool) (br' : BufferResource)
    (r : MemoryReservation) (o : ℕ)
    → reserve br t size allow ≡ ok (br', r, o)
    → (a : ℤ) × (memory_available br t ≡ ok a)
      × (o ≡ neg_part (a -ℤ pos (br.memory_reserved t + size)))
      × (r.mem_type ≡ t)
      × Outcome br t size allow br' r o
reserve-Outcome br t size allow br' r o e =
    let (h, p, over, b) = reserve-Booked br t size allow br' r o e in
    let (a, q, eh, range) = headroom-bounds br t size h p in
    let eb : (book br t size allow o).0 ≡ br' = ap (λ z. z.0) b in
    let er : (book br t size allow o).1 ≡ r = ap (λ z. z.1) b in
    (
      a,
      q,
      over ∙ ap neg_part eh,
      sym (ap (λ z. z.mem_type) er) ∙ book-type br t size allow o,
      subst₂ (λ x y. Outcome br t size allow x y o) eb er (book-Outcome br t size allow o range),
    )

nonneg_headroom : (a : ℤ) (n : ℕ) → 0 ≡ neg_part (a -ℤ pos n) → pos n ≤ℤ a
unfolding ◌-ℤ◌
nonneg_headroom a n h = ground arith

-- Without permission to overbook, a reservation of a positive size that `reserve` grants in full
-- leaves the reserved bytes of its type within the memory that is available.
pub reserve-within :
    (br : BufferResource) (t : MemoryType) (size : ℕ) (br' : BufferResource) (r : MemoryReservation)
    (o : ℕ)
    → reserve br t size false ≡ ok (br', r, o)
    → r.size ≡ size
    → 0 < size
    → (a : ℤ) × (memory_available br' t ≡ ok a) × (pos (br'.memory_reserved t) ≤ℤ a)
reserve-within br t size br' r o e full big =
    let (a, q, over, _, out) = reserve-Outcome br t size false br' r o e in
    elim out [
      | inl (_, eb, granted) ↦ (
        a,
        subst (λ b. memory_available b t ≡ ok a) (sym eb) (memory_available-reserved br _ t ∙ q),
        subst (λ b. pos (b.memory_reserved t) ≤ℤ a) (sym eb)
            (rw (same_type_refl t) (nonneg_headroom a _ (sym (zero_over granted) ∙ over))),
      )
      | inr (z, _, _, _) ↦ absurd (omega arith)
    ]
  where
    zero_over : (false ≡ true) ⊎ (o ≡ 0) → o ≡ 0
    zero_over (inl h) = cc
    zero_over (inr h) = h
