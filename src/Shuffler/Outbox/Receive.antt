-- ===== src/Shuffler/Outbox/Receive.antt =====
-- The receive buffers of shuffler.cpp.
use rapidsmpf.Prelude.{ℕ, ◌≡◌, ◌≢◌, refl, Option, none, some, true}
use rapidsmpf.Prelude.Result.{Result, ok, ◌>>=◌, >>=-eq-ok, expects-eq-ok, ok-injective}
use rapidsmpf.Memory.Types.{host, addressable_memory_types}
use rapidsmpf.Memory.Resource.{BufferResource, MemoryReservation, reserve, try_reserve}
use rapidsmpf.Memory.Buffer.{Buffer, make_whole_buffer}
use rapidsmpf.Shuffler.Outbox.{must_succeed, receive_reservation, allocate_receive_buffer}

forced-some :
    (br br' : BufferResource) (size : ℕ) (found got : Option MemoryReservation)
    → receive_reservation br size must_succeed found ≡ ok (br', got)
    → got ≢ none
unfolding receive_reservation
forced-some br br' size (some r) got e n = cc
forced-some br br' size none got e n =
    let (_, e1) = expects-eq-ok br.overbooking_by_default _ _ e in
    let (b, _, e2) = >>=-eq-ok (reserve br host size true) _ e1 in let same = ok-injective e2 in cc

made-some :
    (br br' : BufferResource) (got : Option MemoryReservation) (b : Option Buffer)
    → got ≢ none
    → ◌≡◌ {A = Result (BufferResource × Option Buffer)}
        (elim got [
          | none ↦ ok (br, none)
          | some r ↦ (make_whole_buffer br r >>= λ p. ok (p.0, some p.1))
        ])
        (ok (br', b))
    → b ≢ none
made-some br br' none b some_got e n = absurd (some_got refl)
made-some br br' (some r) b some_got e n =
    let (p, _, e1) = >>=-eq-ok (make_whole_buffer br r) _ e in let same = ok-injective e1 in cc

-- A forced allocation that returns gives a buffer, whatever the limits: it either falls back to
-- host memory or throws.
allocate_receive_buffer-forced :
    (br br' : BufferResource) (size : ℕ) (b : Option Buffer)
    → allocate_receive_buffer br size must_succeed ≡ ok (br', b)
    → b ≢ none
unfolding allocate_receive_buffer
allocate_receive_buffer-forced br br' size b e =
    let ((br1, found), _, e1) = >>=-eq-ok (try_reserve br size addressable_memory_types) _ e in
    let ((br2, got), p, e2) = >>=-eq-ok (receive_reservation br1 size must_succeed found) _ e1 in
    made-some br2 br' got b (forced-some br1 br2 size found got p) e2
