-- ===== src/Memory/Resource/Search.antt =====
-- What a search through memory types finds: `try_reserve` and `reserve_or_fail` of buffer_resource.hpp, and
-- the buffer that is made of a whole reservation.
use rapidsmpf.Prelude.{
  ℕ, ◌≡◌, ap, ◌∙◌, sym, Option, some, List, [], ◌∷◌, true, false, Bool-cases, Option-cases, inl,
  inr, ==_iff, ◌==◌,
}
use rapidsmpf.Prelude.Result.{ok, Result, >>=-eq-ok, ok-injective}
use rapidsmpf.Memory.Types.{MemoryType}
use rapidsmpf.Memory.Resource.{
  BufferResource, MemoryReservation, reserve, release, reserve_or_fail, try_reserve, can_reserve,
}
use rapidsmpf.Memory.Buffer.{Buffer, make_whole_buffer, make_buffer, count_allocation}

second_some {ℓ₁ ℓ₂} :
    {A : Type ℓ₁} {B : Type ℓ₂} {a a' : A} {b b' : B}
    → ◌≡◌ {A = Result (A × Option B)} (ok (a, some b)) (ok (a', some b'))
    → b ≡ b'
second_some h = cc

pub try_reserve-size :
    (br : BufferResource) (n : ℕ) (ts : List MemoryType) {br' : BufferResource}
    {r : MemoryReservation}
    → try_reserve br n ts ≡ ok (br', some r)
    → r.size ≡ n
unfolding try_reserve
try_reserve-size br n [] h = absurd (let e = ok-injective h in cc)
try_reserve-size br n (t ∷ ts) {br' = br'} {r = r} h = elim (Bool-cases (can_reserve br t)) [
  | inl e ↦
      let ((br1, r1, o), _, h1) = >>=-eq-ok (reserve br t n false) _ (rw e at h) in
      elim (Bool-cases (r1.size == n)) [
        | inl q ↦
            let w : ◌≡◌ {A = Result (BufferResource × Option MemoryReservation)} (ok (br1, some r1))
                (ok (br', some r)) =
              rw q at h1 in
            let same : r1 ≡ r = second_some w in ap (λ x. x.size) (sym same) ∙ (==_iff _ _).0 q
        | inr q ↦ try_reserve-size br1 n ts (rw q at h1)
      ]
  | inr e ↦ try_reserve-size br n ts (rw e at h)
]

second {ℓ₁ ℓ₂} :
    {A : Type ℓ₁} {B : Type ℓ₂} {a a' : A} {b b' : B}
    → ◌≡◌ {A = Result (A × B)} (ok (a, b)) (ok (a', b'))
    → b ≡ b'
second h = cc

pub reserve_or_fail-size :
    (br : BufferResource) (n : ℕ) (ts : List MemoryType) {br' : BufferResource}
    {r : MemoryReservation}
    → reserve_or_fail br n ts ≡ ok (br', r)
    → r.size ≡ n
unfolding reserve_or_fail
reserve_or_fail-size br n ts {br' = br'} {r = r} h =
    let ((br1, found), e, h1) = >>=-eq-ok (try_reserve br n ts) _ h in
    elim (Option-cases found) [
      | inl q ↦ absurd (let w = rw q at h1 in cc)
      | inr (r1, q) ↦
          let w : ◌≡◌ {A = Result (BufferResource × MemoryReservation)} (ok (br1, r1))
              (ok (br', r)) =
            rw q at h1 in
          ap (λ x. x.size) (sym (second w)) ∙ try_reserve-size br n ts (e ∙ ap (λ f. ok (br1, f)) q)
    ]

pub make_whole_buffer-size :
    (br : BufferResource) (r : MemoryReservation) {br' : BufferResource} {b : Buffer}
    → make_whole_buffer br r ≡ ok (br', b)
    → (b.size ≡ r.size) × (b.mem_type ≡ r.mem_type)
unfolding make_whole_buffer make_buffer
make_whole_buffer-size br r {b = b} h =
    let ((br1, r1, b1), e, h1) = >>=-eq-ok (make_buffer br r.size r) _ h in
    let ((br2, r2), _, h2) =
      >>=-eq-ok (release (count_allocation br r.mem_type r.size) r r.size) _ e in
    let w : b1 ≡ b = second h1 in
    let v : ◌≡◌ {A = Buffer} (record { size = r.size; mem_type = r.mem_type; write_done = true })
        b =
      ap (λ x. x.2) (ok-injective h2) ∙ w in
    (ap (λ x. x.size) (sym v), ap (λ x. x.mem_type) (sym v))
