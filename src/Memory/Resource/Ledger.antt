-- ===== src/Memory/Resource/Ledger.antt =====
-- The reservations that are alive, and the bytes that the resource counts as reserved.
use rapidsmpf.Prelude.{
  ℕ, zero, suc, ◌+◌, ◌-◌, ◌≤◌, ◌≡◌, refl, sym, ap, ◌∙◌, ◌⊎◌, inl, inr, Bool, true, false, List, [],
  ◌∷◌, arith, Bool-cases, Option-cases, some, none, ltb, leb, leb→le, if◌then◌else◌, get_elem?, set,
}
use rapidsmpf.Prelude.Int.{ℤ}
use rapidsmpf.Prelude.Result.{Result, ok, err, Result-cases, expects-eq-ok, ok-injective}
use rapidsmpf.Memory.Types.{MemoryType, same_type, same_type_refl, same_type_sound}
use rapidsmpf.Memory.Resource.{
  BufferResource, MemoryReservation, reserve, release, clear, split, update,
}
use rapidsmpf.Memory.Resource
use rapidsmpf.Memory.Resource.Limits.{Outcome, with_reserved, reserve-Outcome}

-- A resource and the reservations that the program holds from it.
pub record Ledger : Type 0 where
  pub br : BufferResource
  pub live : List MemoryReservation

pub data Call : Type 0 where
  reserves : MemoryType → ℕ → Bool → Call
  releases : ℕ → ℕ → Call
  splits : ℕ → ℕ → Call
  destroys : ℕ → Call
  limits : MemoryType → ℤ → Call

after_reserve : Ledger → Result (BufferResource × MemoryReservation × ℕ) → Ledger
after_reserve l (ok (br, r, _)) = record { br = br; live = r ∷ l.live }
after_reserve l (err e) = l

after_release : Ledger → ℕ → Result (BufferResource × MemoryReservation) → Ledger
after_release l i (ok (br, r)) = record { br = br; live = set l.live i r }
after_release l i (err e) = l

after_split : Ledger → ℕ → Result (MemoryReservation × MemoryReservation) → Ledger
after_split l i (ok (r, part)) = record l { live = part ∷ set l.live i r }
after_split l i (err e) = l

-- One call; one that throws leaves everything as it was, and there is nothing to do at an index
-- that names no reservation.
unfoldable pub step : Ledger → Call → Ledger
unfolding after_reserve after_release after_split
step l (reserves t n allow) = after_reserve l (reserve l.br t n allow)
step l (releases i n) = elim (get_elem? l.live i) [
  | none ↦ l
  | some r ↦ after_release l i (release l.br r n)
]
step l (splits i n) = elim (get_elem? l.live i) [ none ↦ l | some r ↦ after_split l i (split r n) ]
step l (destroys i) = elim (get_elem? l.live i) [
  | none ↦ l
  | some r ↦ after_release l i (clear l.br r)
]
step l (limits t limit) = record l { br = Resource.set_memory_limit l.br t limit }

-- The bytes of type `t` that reservations hold.
unfoldable pub held : MemoryType → List MemoryReservation → ℕ
held t [] = 0
held t (r ∷ rs) = (if same_type r.mem_type t then r.size else 0) + held t rs

-- The counter of each type is the total of the reservations of that type.
pub record IsBalanced (l : Ledger) : Type 0 where
  pub balanced : (t : MemoryType) → l.br.memory_reserved t ≡ held t l.live

held-set :
    (t : MemoryType) (rs : List MemoryReservation) (i : ℕ) (r r' : MemoryReservation)
    → get_elem? rs i ≡ some r
    → r'.mem_type ≡ r.mem_type
    → r'.size ≤ r.size
    → held t (set rs i r') + (if same_type r.mem_type t then r.size - r'.size else 0) ≡ held t rs
unfolding held
held-set t [] i r r' e m h = cc
held-set t (x ∷ xs) zero r r' e m h =
    let ex : x ≡ r = cc in
    rw (ex, m)
      (elim (Bool-cases (same_type r.mem_type t)) [
        | inl p ↦ rw p (omega arith)
        | inr p ↦ rw p (omega arith)
      ])
held-set t (x ∷ xs) (suc i) r r' e m h = ground (arith, held-set t xs i r r' e m h)

held-set_released :
    (t u : MemoryType) (rs : List MemoryReservation) (i n : ℕ) (r : MemoryReservation)
    (reserved : MemoryType → ℕ)
    → get_elem? rs i ≡ some r
    → r.mem_type ≡ t
    → n ≤ r.size
    → ((v : MemoryType) → reserved v ≡ held v rs)
    → update reserved t (reserved t - n) u ≡ held u (set rs i (record r { size = r.size - n }))
held-set_released t u rs i n r reserved e m h b =
    let s = held-set u rs i r (record r { size = r.size - n }) e refl (omega arith) in
    elim (Bool-cases (same_type t u)) [
      | inl p ↦
          let p' : same_type r.mem_type u ≡ true = rw m p in
          let s' = rw p' at s in rw p (omega (arith, s', b u, ap reserved (same_type_sound t u p)))
      | inr p ↦
          let p' : same_type r.mem_type u ≡ false = rw m p in
          let s' = rw p' at s in rw p (omega (arith, s', b u))
    ]

split-held :
    (u : MemoryType) (rs : List MemoryReservation) (i n : ℕ) (r : MemoryReservation)
    → get_elem? rs i ≡ some r
    → n ≤ r.size
    → held u rs ≡ held u (record r { size = n } ∷ set rs i (record r { size = r.size - n }))
unfolding held
split-held u rs i n r e h =
    let s = held-set u rs i r (record r { size = r.size - n }) e refl (omega arith) in
    elim (Bool-cases (same_type r.mem_type u)) [
      | inl p ↦ let s' = rw p at s in rw p (omega (arith, s'))
      | inr p ↦ let s' = rw p at s in rw p (omega (arith, s'))
    ]

release-ok :
    (br : BufferResource) (r : MemoryReservation) (n : ℕ) (br' : BufferResource)
    (r' : MemoryReservation)
    → release br r n ≡ ok (br', r')
    → (n ≤ r.size)
      × (with_reserved br r.mem_type (br.memory_reserved r.mem_type - n) ≡ br')
      × (record r { size = r.size - n } ≡ r')
unfolding release
release-ok br r n br' r' q =
    let (fits, q1) = expects-eq-ok (leb n r.size) _ _ q in
    let (_, q2) = expects-eq-ok (leb n (br.memory_reserved r.mem_type)) _ _ q1 in
    let e = ok-injective q2 in (leb→le n r.size fits, ap (λ z. z.0) e, ap (λ z. z.1) e)

split-ok :
    (r : MemoryReservation) (n : ℕ) (kept part : MemoryReservation)
    → split r n ≡ ok (kept, part)
    → (n ≤ r.size) × (record r { size = r.size - n } ≡ kept) × (record r { size = n } ≡ part)
unfolding split
split-ok r n kept part q =
    let (fits, q1) = expects-eq-ok (leb n r.size) _ _ q in
    let e = ok-injective q1 in (leb→le n r.size fits, ap (λ z. z.0) e, ap (λ z. z.1) e)

release-IsBalanced :
    (l : Ledger) (i n : ℕ) (r : MemoryReservation)
    → get_elem? l.live i ≡ some r
    → IsBalanced l
    → IsBalanced (after_release l i (release l.br r n))
unfolding after_release
release-IsBalanced l i n r e v = elim (Result-cases (release l.br r n)) [
  | inl ((br', r'), q) ↦
      let (fits, eb, er) = release-ok l.br r n br' r' q in
      rw (q, ← eb, ← er, after_release)
        (record {
          balanced = λ u.
              held-set_released r.mem_type u l.live i n r l.br.memory_reserved e refl fits
                v.balanced;
        })
  | inr (x, q) ↦ rw (q, after_release) v
]

clear-release :
    (br : BufferResource) (r : MemoryReservation)
    → (clear br r ≡ release br r r.size) ⊎ (clear br r ≡ ok (br, r))
unfolding clear
clear-release br r = ground arith

set_same {ℓ} :
    {A : Type ℓ} (xs : List A) (i : ℕ) (x : A) → get_elem? xs i ≡ some x → set xs i x ≡ xs
set_same [] i x e = refl
set_same (y ∷ xs) zero x e = ground arith
set_same (y ∷ xs) (suc i) x e = ap (λ zs. y ∷ zs) (set_same xs i x e)

clear-IsBalanced :
    (l : Ledger) (i : ℕ) (r : MemoryReservation)
    → get_elem? l.live i ≡ some r
    → IsBalanced l
    → IsBalanced (after_release l i (clear l.br r))
clear-IsBalanced l i r e v = elim (clear-release l.br r) [
  | inl p ↦ rw p (release-IsBalanced l i r.size r e v)
  | inr p ↦ rw p (
      unfold after_release in
      record { balanced = λ u. v.balanced u ∙ ap (held u) (sym (set_same l.live i r e)) })
]

split-IsBalanced :
    (l : Ledger) (i n : ℕ) (r : MemoryReservation)
    → get_elem? l.live i ≡ some r
    → IsBalanced l
    → IsBalanced (after_split l i (split r n))
unfolding after_split
split-IsBalanced l i n r e v = elim (Result-cases (split r n)) [
  | inl ((kept, part), q) ↦
      let (fits, ek, ep) = split-ok r n kept part q in
      rw (q, ← ek, ← ep, after_split)
        (record { balanced = λ u. v.balanced u ∙ split-held u l.live i n r e fits })
  | inr (x, q) ↦ rw (q, after_split) v
]

update-add :
    (f : MemoryType → ℕ) (t u : MemoryType) (n : ℕ)
    → update f t (f t + n) u ≡ (if same_type t u then n else 0) + f u
update-add f t u n = elim (Bool-cases (same_type t u)) [
  | inl p ↦ rw p (omega (arith, ap f (same_type_sound t u p)))
  | inr p ↦ rw p (omega arith)
]

booked :
    (l : Ledger) (u t : MemoryType) (n : ℕ) (allow : Bool) (br' : BufferResource)
    (r : MemoryReservation) (o : ℕ)
    → r.mem_type ≡ t
    → IsBalanced l
    → Outcome l.br t n allow br' r o
    → br'.memory_reserved u ≡ held u (r ∷ l.live)
unfolding held
booked l u t n allow br' r o m v (inl (s, eb, _)) =
    ap (λ b. b.memory_reserved u) eb
    ∙ update-add l.br.memory_reserved t u n
    ∙ rw (m, s) (omega (arith, v.balanced u))
booked l u t n allow br' r o m v (inr (s, eb, _, _)) =
    ap (λ b. b.memory_reserved u) eb ∙ v.balanced u ∙ rw s (ground arith)

reserve-IsBalanced :
    (l : Ledger) (t : MemoryType) (n : ℕ) (allow : Bool)
    → IsBalanced l
    → IsBalanced (after_reserve l (reserve l.br t n allow))
unfolding after_reserve
reserve-IsBalanced l t n allow v = elim (Result-cases (reserve l.br t n allow)) [
  | inl ((br', r, o), q) ↦
      let (_, _, _, m, out) = reserve-Outcome l.br t n allow br' r o q in
      rw (q, after_reserve) (record { balanced = λ u. booked l u t n allow br' r o m v out })
  | inr (x, q) ↦ rw (q, after_reserve) v
]

pub step-IsBalanced : (l : Ledger) (c : Call) → IsBalanced l → IsBalanced (step l c)
unfolding step Resource.set_memory_limit
step-IsBalanced l (reserves t n allow) v = reserve-IsBalanced l t n allow v
step-IsBalanced l (releases i n) v = elim (Option-cases (get_elem? l.live i)) [
  | inl e ↦ rw (e, step) v
  | inr (r, e) ↦ rw (e, step) (release-IsBalanced l i n r e v)
]
step-IsBalanced l (splits i n) v = elim (Option-cases (get_elem? l.live i)) [
  | inl e ↦ rw (e, step) v
  | inr (r, e) ↦ rw (e, step) (split-IsBalanced l i n r e v)
]
step-IsBalanced l (destroys i) v = elim (Option-cases (get_elem? l.live i)) [
  | inl e ↦ rw (e, step) v
  | inr (r, e) ↦ rw (e, step) (clear-IsBalanced l i r e v)
]
step-IsBalanced l (limits t limit) v = record { balanced = v.balanced }

unfoldable pub run : Ledger → List Call → Ledger
run l [] = l
run l (c ∷ cs) = run (step l c) cs

-- Whatever reservations are made, released, split and destroyed and whatever limits change, in any
-- order and also when calls throw, the counter of reserved bytes of every memory type stays equal
-- to the total size of the live reservations of that type.
pub run-IsBalanced : (l : Ledger) (cs : List Call) → IsBalanced l → IsBalanced (run l cs)
unfolding run
run-IsBalanced l [] v = v
run-IsBalanced l (c ∷ cs) v = run-IsBalanced (step l c) cs (step-IsBalanced l c v)

held-ge :
    (rs : List MemoryReservation) (i : ℕ) (r : MemoryReservation)
    → get_elem? rs i ≡ some r
    → r.size ≤ held r.mem_type rs
unfolding held
held-ge [] i r e = cc
held-ge (x ∷ xs) zero r e = let ex : x ≡ r = cc in rw (ex, same_type_refl r.mem_type) (omega arith)
held-ge (x ∷ xs) (suc i) r e = omega (arith, held-ge xs i r e)

empty_size : (r : MemoryReservation) → ltb 0 r.size ≡ false → r.size ≡ 0
empty_size r p = ground arith

released :
    (br : BufferResource) (r : MemoryReservation)
    → r.size ≤ br.memory_reserved r.mem_type
    → release br r r.size
      ≡ ok (
        with_reserved br r.mem_type (br.memory_reserved r.mem_type - r.size),
        record r { size = 0 },
      )
unfolding release
released br r h =
    let a : leb r.size r.size ≡ true = ground arith in
    let b : leb r.size (br.memory_reserved r.mem_type) ≡ true = ground arith in
    let c : r.size - r.size ≡ 0 = omega arith in rw (a, b, c) refl

given_back :
    (br : BufferResource) (r : MemoryReservation) (t : MemoryType)
    → r.size ≤ br.memory_reserved r.mem_type
    → update br.memory_reserved r.mem_type (br.memory_reserved r.mem_type - r.size) t
        + (if same_type r.mem_type t then r.size else 0)
      ≡ br.memory_reserved t
given_back br r t h = elim (Bool-cases (same_type r.mem_type t)) [
  | inl q ↦ rw q (omega (arith, ap br.memory_reserved (same_type_sound r.mem_type t q)))
  | inr q ↦ rw q (omega arith)
]

clear-ok :
    (br : BufferResource) (r : MemoryReservation)
    → r.size ≤ br.memory_reserved r.mem_type
    → (br' : BufferResource) × (clear br r ≡ ok (br', record r { size = 0 }))
      × ((t : MemoryType)
          → br'.memory_reserved t + (if same_type r.mem_type t then r.size else 0)
            ≡ br.memory_reserved t)
unfolding clear
clear-ok br r h = elim (Bool-cases (ltb 0 r.size)) [
  | inl p ↦ (
    with_reserved br r.mem_type (br.memory_reserved r.mem_type - r.size),
    rw (p, clear) (released br r h),
    λ t. given_back br r t h,
  )
  | inr p ↦ (
    br,
    rw (p, clear) (ap (λ k. ok (br, record r { size = k })) (empty_size r p)),
    λ t. rw (empty_size r p) (elim (Bool-cases (same_type r.mem_type t)) [
      | inl q ↦ rw q (omega arith)
      | inr q ↦ rw q (omega arith)
    ]),
  )
]

-- In a run from a balanced ledger the destructor of a live reservation never throws, and it gives
-- back exactly the bytes that the reservation held.
pub clear-returns :
    (l : Ledger) (cs : List Call) (i : ℕ) (r : MemoryReservation)
    → IsBalanced l
    → get_elem? (run l cs).live i ≡ some r
    → (br' : BufferResource) × (clear (run l cs).br r ≡ ok (br', record r { size = 0 }))
      × ((t : MemoryType)
          → br'.memory_reserved t + (if same_type r.mem_type t then r.size else 0)
            ≡ (run l cs).br.memory_reserved t)
clear-returns l cs i r v e =
    clear-ok (run l cs).br r
      (omega (arith, held-ge (run l cs).live i r e, (run-IsBalanced l cs v).balanced r.mem_type))
