-- ===== src/Streaming/Reserve/Deadline.antt =====
-- How long a request of memory_reserve_or_wait.cpp can wait: past the timeout and its longest
-- extension, one of two passes ends a wait.
use rapidsmpf.Prelude.{
  ℕ, ◌+◌, ◌*◌, ◌%◌, ◌^◌, lt→ltb, ◌≡◌, ◌≤◌, ◌<◌, refl, sym, ap, ◌∙◌, subst, Bool, true, false, not,
  ◌&&◌, ltb, ◌==◌, if◌then◌else◌, Option, none, some, List, [], ◌∷◌, arith, Bool-cases, inl, inr,
  ◌⊎◌,
}
use rapidsmpf.Prelude.Result.{ok, >>=-eq-ok, ok-injective}
use rapidsmpf.Memory.Types.{MemoryType}
use rapidsmpf.Memory.Resource.{reserve, memory_available_for_reservation}
use rapidsmpf.Streaming.Reserve.{
  Request, ReserveOrWait, Window, Pass, Passed, Answer, judge_progress, judge_spill, is_extended,
  after_timeout, keeps_waiting, past_timeout, check_timeout, grant, admit, admit_first, force,
  force_first, pass, has_pending, is_pending, clamped_available, eligible_requests, min_element,
  spill_wait_cap_factor,
}

abbrev pub Answers : Passed → Type 0
Answers s = (a : Answer) × (s.answer ≡ some a)

-- Past the longest extension.
abbrev pub PastCap : ℕ → Window → ℕ → Type 0
PastCap timeout w now = w.last_reservation_success + (1 + spill_wait_cap_factor) * timeout < now

abbrev Keeps : Window → Window → Type 0
Keeps w v =
    (v.last_reservation_success ≡ w.last_reservation_success)
    × (v.recheck_after_spill ≡ w.recheck_after_spill)

Keeps-same : (w v : Window) → ok w ≡ ok v → Keeps w v
Keeps-same w v e =
    let k = ok-injective e in
    (ap (λ u. u.last_reservation_success) (sym k), ap (λ u. u.recheck_after_spill) (sym k))

judge_progress-Keeps :
    (t : MemoryType) (w : Window) (p : Pass) (v : Window) → judge_progress t w p ≡ ok v → Keeps w v
unfolding judge_progress judge_spill
judge_progress-Keeps t w p v e =
    elim (Bool-cases (
      is_extended w.extended_at
      && (not w.spill_stalled && not (p.spill_generation == w.extend_generation)))) [
        | inl judged ↦
            let (a, _, f) =
              >>=-eq-ok (memory_available_for_reservation p.judged t) _ (rw judged at e) in
            let k = ok-injective f in
            (ap (λ u. u.last_reservation_success) (sym k), ap (λ u. u.recheck_after_spill) (sym k))
        | inr as_before ↦ Keeps-same w v (rw as_before at e)
      ]

too_late :
    (t : MemoryType) (timeout : ℕ) (w : Window) (p : Pass)
    → PastCap timeout w p.now
    → keeps_waiting t timeout w p ≡ false
unfolding keeps_waiting
too_late t timeout w p h = ground arith

-- Past the cap the wait ends, but for one more admission.
abbrev EndsNow : Window → Option Window → Type 0
EndsNow w none = Unit
EndsNow w (some v) =
    (w.recheck_after_spill ≡ true)
    × (v.recheck_after_spill ≡ false)
    × (v.last_reservation_success ≡ w.last_reservation_success)

last_recheck :
    (w v : Window) (b : Bool)
    → v.recheck_after_spill ≡ b
    → Keeps w v
    → EndsNow w (if b then some (record v { recheck_after_spill = false }) else none)
last_recheck w v true e k = (sym k.1 ∙ e, refl, k.0)
last_recheck w v false e k = tt

past_timeout-EndsNow :
    (t : MemoryType) (timeout : ℕ) (w : Window) (p : Pass) (o : Option Window)
    → PastCap timeout w p.now
    → past_timeout t timeout w p ≡ ok o
    → EndsNow w o
unfolding past_timeout
past_timeout-EndsNow t timeout w p o h e =
    let (v, judged, f) = >>=-eq-ok (judge_progress t w p) _ e in
    let k = judge_progress-Keeps t w p v judged in
    let late : PastCap timeout v p.now =
      subst (λ l. l + (1 + spill_wait_cap_factor) * timeout < p.now) (sym k.0) h in
    subst (EndsNow w) (ok-injective (rw (too_late t timeout v p late) at f))
      (last_recheck w v v.recheck_after_spill refl k)

check_timeout-EndsNow :
    (t : MemoryType) (timeout : ℕ) (w : Window) (p : Pass) (o : Option Window)
    → PastCap timeout w p.now
    → check_timeout t timeout w p ≡ ok o
    → EndsNow w o
unfolding check_timeout
check_timeout-EndsNow t timeout w p o h e =
    let late : ltb (w.last_reservation_success + timeout) p.now ≡ true = lt→ltb _ _ (omega arith) in
    past_timeout-EndsNow t timeout w p o h (rw late at e)

grant-Answers :
    (m : ReserveOrWait) (w : Window) (p : Pass) (r : Request) (s : Passed)
    → grant m w p r ≡ ok s
    → Answers s ⊎ (s.window ≡ w)
unfolding grant
grant-Answers m w p r s e =
    let (b, _, f) = >>=-eq-ok (reserve p.reserving m.mem_type r.size false) _ e in
    let k = ok-injective f in
    elim (Bool-cases (b.1.size == 0)) [
      | inl nothing ↦ inr (ap (λ q. q.window) (sym (rw nothing at k)))
      | inr something ↦
          inl (
            record { request = r; reservation = b.1 },
            ap (λ q. q.answer) (sym (rw something at k)),
          )
    ]

admit_first-Answers :
    (m : ReserveOrWait) (w : Window) (p : Pass) (rs : List Request) (s : Passed)
    → admit_first m w p rs ≡ ok s
    → Answers s ⊎ (s.window ≡ w)
unfolding admit_first
admit_first-Answers m w p [] s e = inr (ap (λ q. q.window) (sym (ok-injective e)))
admit_first-Answers m w p (r ∷ rs) s e = grant-Answers m w p (min_element r rs) s e

admit-Answers :
    (m : ReserveOrWait) (w : Window) (p : Pass) (s : Passed)
    → admit m w p ≡ ok s
    → Answers s ⊎ (s.window ≡ w)
unfolding admit
admit-Answers m w p s e =
    let (n, _, f) = >>=-eq-ok (clamped_available m.mem_type p.available) _ e in
    admit_first-Answers m w p (eligible_requests n m.reservation_requests) s f

force_first-Answers :
    (m : ReserveOrWait) (p : Pass) (r : Request) (rs : List Request) (s : Passed)
    → force_first m p (r ∷ rs) ≡ ok s
    → Answers s
unfolding force_first
force_first-Answers m p r rs s e =
    let chosen = min_element r (eligible_requests r.size rs) in
    let (b, _, f) = >>=-eq-ok (reserve p.reserving m.mem_type chosen.size false) _ e in
    (record { request = chosen; reservation = b.1 }, ap (λ q. q.answer) (sym (ok-injective f)))

force-Answers :
    (m : ReserveOrWait) (p : Pass) (s : Passed)
    → has_pending m ≡ true
    → force m p ≡ ok s
    → Answers s
unfolding force has_pending
force-Answers m p s h e = by_requests m.reservation_requests h e
  where
    by_requests : (rs : List Request) → is_pending rs ≡ true → force_first m p rs ≡ ok s → Answers s
    by_requests [] h e = cc
    by_requests (r ∷ rs) h e = force_first-Answers m p r rs s e

-- A pass past the cap answers a request, or uses up the last admission.
pass_late :
    (m : ReserveOrWait) (w : Window) (p : Pass) (s : Passed)
    → has_pending m ≡ true
    → PastCap m.timeout w p.now
    → pass m w p ≡ ok s
    → Answers s
      ⊎ ((w.recheck_after_spill ≡ true)
          × (s.window.recheck_after_spill ≡ false)
          × (s.window.last_reservation_success ≡ w.last_reservation_success))
unfolding pass has_pending
pass_late m w p s h late e =
    let (o, checked, f) = >>=-eq-ok (check_timeout m.mem_type m.timeout w p) _ e in
    by_window o (check_timeout-EndsNow m.mem_type m.timeout w p o late checked) f
  where
    counted : ReserveOrWait
    counted = record m {
      periodic_memory_check_counter = (m.periodic_memory_check_counter + 1) % 2 ^ 64;
    }

    by_window :
        (o : Option Window)
        → EndsNow w o
        → after_timeout counted p o ≡ ok s
        → Answers s
          ⊎ ((w.recheck_after_spill ≡ true)
              × (s.window.recheck_after_spill ≡ false)
              × (s.window.last_reservation_success ≡ w.last_reservation_success))
    by_window none k f = inl (force-Answers counted p s h f)
    by_window (some v) k f = elim (admit-Answers counted v p s f) [
      | inl answers ↦ inl answers
      | inr same ↦ inr (
        k.0,
        ap (λ u. u.recheck_after_spill) same ∙ k.1,
        ap (λ u. u.last_reservation_success) same ∙ k.2,
      )
    ]

-- With requests pending, and the time past the longest extension of the wait since the last
-- admission, one of two passes in a row that return answers a request, whatever the spill manager
-- and the resource do, and whatever is submitted in between.
pub pass-ends_wait :
    (m m' : ReserveOrWait) (w : Window) (p p' : Pass) (s s' : Passed)
    → has_pending m ≡ true
    → has_pending m' ≡ true
    → m'.timeout ≡ m.timeout
    → PastCap m.timeout w p.now
    → p.now ≤ p'.now
    → pass m w p ≡ ok s
    → pass m' s.window p' ≡ ok s'
    → Answers s ⊎ Answers s'
pass-ends_wait m m' w p p' s s' h h' same late order e e' = elim (pass_late m w p s h late e) [
  | inl answers ↦ inl answers
  | inr (_, spent, last) ↦
      let later : PastCap m'.timeout s.window p'.now = rw (same, last) (omega arith) in
      elim (pass_late m' s.window p' s' h' later e') [
        | inl answers ↦ inr answers
        | inr (again, _, _) ↦ absurd (let a = again in let b = spent in cc)
      ]
]
