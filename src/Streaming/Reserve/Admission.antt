-- ===== src/Streaming/Reserve/Admission.antt =====
-- Who gets memory from the periodic task of memory_reserve_or_wait.cpp.
use rapidsmpf.Prelude.{
  ℕ, ◌≡◌, ◌≤◌, refl, sym, ap, ◌∙◌, subst, Bool, true, false, not, ◌&&◌, ◌||◌, ==_iff, ltb, leb,
  ◌==◌, if◌then◌else◌, Option, none, some, List, [], ◌∷◌, arith, Bool-cases, inl, inr, ◌⊎◌,
  some-injective, leb→le,
}
use rapidsmpf.Prelude.Result.{
  ok, >>=-eq-ok, ok-injective, ◌>>=◌, ◌>>◌, expects, expects-eq-ok, invalid_argument,
  reservation_error, Holds, >>-Holds, then-Holds, ok-Holds,
}
use rapidsmpf.Prelude.Int.{ℤ}
use rapidsmpf.Memory.Types.{MemoryType, same_type, disk, pinned_host}
use rapidsmpf.Memory.Resource.{
  BufferResource, MemoryReservation, reserve, book, headroom_after, overbooking_of,
}
use rapidsmpf.Streaming.Reserve.{
  Request, ReserveOrWait, Window, Pass, Passed, Answer, grant, admit, admit_first, force,
  force_first, extract_request, clamped_available, reserve_memory, or_overbook, or_fail,
  eligible_requests, min_element, before,
}
use rapidsmpf.Streaming.Reserve.Choice.{
  All, All-map, IsSorted, ahead, min_element-first, min_element-All, eligible_requests-fit,
  eligible_requests-All, eligible_requests-IsSorted, eligible_requests_complete,
}

leb_self : (n : ℕ) → leb n n ≡ true
leb_self n = ground arith

book_size :
    (br : BufferResource) (t : MemoryType) (n : ℕ) (b : Bool) (o : ℕ)
    → ((book br t n b o).1.size ≡ 0) ⊎ ((book br t n b o).1.size ≡ n)
unfolding book
book_size br t n b o = elim (Bool-cases (ltb 0 o && not b)) [
  | inl refused ↦ inl (rw refused refl)
  | inr made ↦ inr (rw made refl)
]

abbrev pub AllOrNothing : ℕ → BufferResource × MemoryReservation × ℕ → Type 0
AllOrNothing n r = (r.1.size ≡ 0) ⊎ (r.1.size ≡ n)

-- A reservation is made in full or not at all.
reserve-AllOrNothing :
    (br : BufferResource) (t : MemoryType) (n : ℕ) (b : Bool)
    → Holds (AllOrNothing n) (reserve br t n b)
unfolding reserve
reserve-AllOrNothing br t n b =
    let P = AllOrNothing n in
    let booked = λ (o : ℕ). ok (book br t n b o) in
    let room = λ (h : ℤ). overbooking_of h >>= booked in
    let on_disk = expects (not (same_type t disk) || br.has_disk) invalid_argument in
    let pinned = expects (not (same_type t pinned_host) || br.has_pinned) invalid_argument in
    >>-Holds P on_disk (pinned >> (headroom_after br t n >>= room)) (
      >>-Holds P pinned (headroom_after br t n >>= room) (
        then-Holds P (headroom_after br t n) room
          (λ h. then-Holds P (overbooking_of h) booked (λ o. book_size br t n b o))))

abbrev pub Granted : ReserveOrWait → Request → Passed → Answer → Type 0
Granted m r s a =
    (a.request ≡ r) × (a.reservation.size ≡ r.size) × (s.manager ≡ extract_request m r)

grant-Granted :
    (m : ReserveOrWait) (w : Window) (p : Pass) (r : Request) (s : Passed) (a : Answer)
    → grant m w p r ≡ ok s
    → s.answer ≡ some a
    → Granted m r s a
unfolding grant
grant-Granted m w p r s a e answers =
    let (b, made, f) = >>=-eq-ok (reserve p.reserving m.mem_type r.size false) _ e in
    let k = ok-injective f in
    elim (Bool-cases (b.1.size == 0)) [
      | inl nothing ↦ let w : none ≡ some a = ap (λ q. q.answer) (rw nothing at k) ∙ answers in cc
      | inr something ↦
          let k' = rw something at k in
          let same : record { request = r; reservation = b.1 } ≡ a =
            some-injective (ap (λ q. q.answer) k' ∙ answers) in
          (
            ap (λ q. q.request) (sym same),
            ap (λ q. q.reservation.size) (sym same)
                ∙ full b something (
                    ok-Holds (AllOrNothing r.size) _ b
                      (reserve-AllOrNothing p.reserving m.mem_type r.size false) made),
            ap (λ q. q.manager) (sym k'),
          )
    ]
  where
    full :
        (b : BufferResource × MemoryReservation × ℕ)
        → (b.1.size == 0) ≡ false
        → (b.1.size ≡ 0) ⊎ (b.1.size ≡ r.size)
        → b.1.size ≡ r.size
    full b something (inl none_) = absurd (ground arith)
    full b something (inr all) = all

-- With the requests sorted, an admission that answers a request gives it all that it asked for and
-- takes it out of the queue. The request fits into the memory that is available, and no request that
-- fits has a smaller delta, or the same delta and a smaller size, or both the same and is older.
pub admit-first :
    (m : ReserveOrWait) (w : Window) (p : Pass) (s : Passed) (a : Answer) (n : ℕ)
    → IsSorted m.reservation_requests
    → clamped_available m.mem_type p.available ≡ ok n
    → admit m w p ≡ ok s
    → s.answer ≡ some a
    → (a.request.size ≤ n)
      × All (λ r. leb r.size n ≡ true → ahead r a.request ≡ false) m.reservation_requests
      × (a.reservation.size ≡ a.request.size)
      × (s.manager ≡ extract_request m a.request)
unfolding admit admit_first
admit-first m w p s a n sorted room e answers =
    let (n', room', f) = >>=-eq-ok (clamped_available m.mem_type p.available) _ e in
    let same : n' ≡ n = ok-injective (sym room' ∙ room) in
    let f' =
      subst (λ k. admit_first m w p (eligible_requests k m.reservation_requests) ≡ ok s) same f in
    let (fits, first, rest) =
      of_eligible (eligible_requests n m.reservation_requests)
        (eligible_requests-IsSorted n m.reservation_requests sorted)
        (eligible_requests-fit n m.reservation_requests) f' in
    (
      leb→le _ _ fits,
      eligible_requests_complete (λ r. ahead r a.request ≡ false) n m.reservation_requests sorted
          first,
      rest.0,
      rest.1,
    )
  where
    of_eligible :
        (rs : List Request)
        → IsSorted rs
        → All (λ r. leb r.size n ≡ true) rs
        → admit_first m w p rs ≡ ok s
        → (leb a.request.size n ≡ true)
          × All (λ r. ahead r a.request ≡ false) rs
          × ((a.reservation.size ≡ a.request.size) × (s.manager ≡ extract_request m a.request))
    of_eligible [] h k f =
        let w : none ≡ some a = ap (λ q. q.answer) (ok-injective f) ∙ answers in absurd (cc)
    of_eligible (r ∷ rs) h k f =
        let chosen = min_element r rs in
        let (which, size, taken) = grant-Granted m w p chosen s a f answers in
        let first = min_element-first r rs h.0 h.1 in
        (
          rw which (min_element-All (λ q. leb q.size n ≡ true) r rs k.0 k.1),
          subst (λ c. All (λ q. ahead q c ≡ false) (r ∷ rs)) (sym which) first,
          (size ∙ ap (λ q. q.size) (sym which), taken ∙ ap (extract_request m) (sym which)),
        )

not_smaller : (r q : Request) → before r q ≡ true → r.size ≤ q.size
unfolding before
not_smaller r q h = ground arith

same_size : (n : ℕ) (q : Request) → leb q.size n ≡ true → n ≤ q.size → q.size ≡ n
same_size n q h k = ground arith

-- With the requests sorted, a forced answer goes to a request of the smallest size that is pending,
-- and no request of that size has a smaller delta, or the same delta and is older.
pub force-first :
    (m : ReserveOrWait) (p : Pass) (s : Passed) (a : Answer)
    → IsSorted m.reservation_requests
    → force m p ≡ ok s
    → s.answer ≡ some a
    → All (λ r. a.request.size ≤ r.size) m.reservation_requests
      × All (λ r. r.size ≡ a.request.size → ahead r a.request ≡ false) m.reservation_requests
      × (s.manager ≡ extract_request m a.request)
unfolding force force_first
force-first m p s a sorted e answers = of_pending m.reservation_requests sorted e
  where
    of_pending :
        (rs : List Request)
        → IsSorted rs
        → force_first m p rs ≡ ok s
        → All (λ r. a.request.size ≤ r.size) rs
          × All (λ r. r.size ≡ a.request.size → ahead r a.request ≡ false) rs
          × (s.manager ≡ extract_request m a.request)
    of_pending [] h f =
        let w : none ≡ some a = ap (λ q. q.answer) (ok-injective f) ∙ answers in absurd (cc)
    of_pending (r ∷ rs) h f =
        let cs = eligible_requests r.size rs in
        let chosen = min_element r cs in
        let (b, _, g) = >>=-eq-ok (reserve p.reserving m.mem_type chosen.size false) _ f in
        let k = ok-injective g in
        let same : record { request = chosen; reservation = b.1 } ≡ a =
          some-injective (ap (λ q. q.answer) k ∙ answers) in
        let which : chosen ≡ a.request = ap (λ q. q.request) same in
        let all_bigger : All (λ q. r.size ≤ q.size) (r ∷ rs) =
          (omega arith, All-map _ _ rs (λ q l. not_smaller r q l) h.0) in
        let size : chosen.size ≡ r.size =
          same_size r.size chosen
            (min_element-All (λ q. leb q.size r.size ≡ true) r cs (leb_self r.size)
              (eligible_requests-fit r.size rs))
            (min_element-All (λ q. r.size ≤ q.size) r cs (omega arith)
              (eligible_requests-All (λ q. r.size ≤ q.size) r.size rs all_bigger.1)) in
        let first =
          min_element-first r cs (eligible_requests-All _ r.size rs h.0)
            (eligible_requests-IsSorted r.size rs h.1) in
        let complete =
          eligible_requests_complete (λ q. ahead q chosen ≡ false) r.size rs h.1 first.1 in
        (
          subst (λ c. All (λ q. c.size ≤ q.size) (r ∷ rs)) which
              (All-map _ _ (r ∷ rs) (λ q l. subst (λ n. n ≤ q.size) (sym size) l) all_bigger),
          subst (λ c. All (λ q. q.size ≡ c.size → ahead q c ≡ false) (r ∷ rs)) which
              (
                λ _. first.0,
                All-map _ _ rs
                    (λ q l. λ eq.
                      l (subst (λ n. leb n r.size ≡ true) (sym (eq ∙ size)) (leb_self r.size)))
                    complete,
              ),
          sym (ap (λ q. q.manager) k) ∙ ap (extract_request m) which,
        )

book_allowed : (br : BufferResource) (t : MemoryType) (n o : ℕ) → (book br t n true o).1.size ≡ n
unfolding book
book_allowed br t n o = ground arith

overbooked-full :
    (br : BufferResource) (t : MemoryType) (n : ℕ) → Holds (λ b. b.1.size ≡ n) (reserve br t n true)
unfolding reserve
overbooked-full br t n =
    let P = λ (b : BufferResource × MemoryReservation × ℕ). b.1.size ≡ n in
    let booked = λ (o : ℕ). ok (book br t n true o) in
    let room = λ (h : ℤ). overbooking_of h >>= booked in
    let on_disk = expects (not (same_type t disk) || br.has_disk) invalid_argument in
    let pinned = expects (not (same_type t pinned_host) || br.has_pinned) invalid_argument in
    >>-Holds P on_disk (pinned >> (headroom_after br t n >>= room)) (
      >>-Holds P pinned (headroom_after br t n >>= room) (
        then-Holds P (headroom_after br t n) room
          (λ h. then-Holds P (overbooking_of h) booked (λ o. book_allowed br t n o))))

-- Whatever the policy, and whether the wait ended with the memory or with nothing: a caller that gets
-- a reservation gets one of the size that it asked for.
pub reserve_memory-full :
    (t : MemoryType) (br : BufferResource) (n : ℕ) (policy : Option Bool) (default : Bool)
    (answer r : MemoryReservation)
    → (answer.size ≡ 0) ⊎ (answer.size ≡ n)
    → reserve_memory t br n policy default (some answer) ≡ ok r
    → r.size ≡ n
unfolding reserve_memory or_overbook or_fail
reserve_memory-full t br n policy default answer r all e =
    by_policy (elim policy [ none ↦ default | some allow ↦ allow ]) e
  where
    enough : ltb answer.size n ≡ false → answer.size ≡ n
    enough h = ground arith

    by_policy :
        (allow : Bool)
        → (if allow then (or_overbook t br n answer >>= λ b. ok b.0) else or_fail n answer) ≡ ok r
        → r.size ≡ n
    by_policy false e =
        let checked = expects-eq-ok (answer.size == n) reservation_error (ok answer) e in
        ap (λ q. q.size) (sym (ok-injective checked.1)) ∙ (==_iff answer.size n).0 checked.0
    by_policy true e = elim (Bool-cases (ltb answer.size n)) [
      | inl short ↦
          let (b, made, f) =
            >>=-eq-ok (reserve br t n true >>= λ b. ok (b.1, b.2)) (λ b. ok b.0) (rw short at e) in
          let (c, got, g) = >>=-eq-ok (reserve br t n true) (λ b. ok (b.1, b.2)) made in
          let whole = ok-Holds (λ c. c.1.size ≡ n) _ c (overbooked-full br t n) got in
          ap (λ q. q.size) (sym (ap (λ q. q.0) (ok-injective g) ∙ ok-injective f)) ∙ whole
      | inr full ↦ ap (λ q. q.size) (sym (ok-injective (rw full at e))) ∙ enough full
    ]
