-- ===== src/Streaming/Reserve/Once.antt =====
-- Callers, the periodic task and a shutdown of memory_reserve_or_wait.cpp in any order: each request
-- is answered once, and while one is pending the task is there.
use rapidsmpf.Prelude.{
  ℕ, suc, ◌+◌, ◌%◌, ◌^◌, ◌≡◌, ◌≤◌, ◌<◌, refl, sym, ◌∙◌, subst, Bool, true, false, not, ◌&&◌, ltb,
  ◌==◌, if◌then◌else◌, List, [], ◌∷◌, ◌++◌, arith, Bool-cases, inl, inr, ◌⊎◌, length,
}
use rapidsmpf.Prelude.Int.{ℤ}
use rapidsmpf.Prelude.Result.{ok, Holds, >>=-Holds, ok-Holds, if-Holds, Result-cases}
use rapidsmpf.Memory.Types.{MemoryType}
use rapidsmpf.Memory.Resource.{MemoryReservation, reserve}
use rapidsmpf.Streaming.Reserve.{
  Request, Passed, Asked, reserved, waits, reserve_or_wait, submit, insert, extract, pass,
  has_pending, is_pending, window_at,
}
use rapidsmpf.Streaming.Reserve.Count.{
  count, count-append, count-insert, All-insert, count-extract, All-extract, extract-IsSorted,
}
use rapidsmpf.Streaming.Reserve.Choice.{All, All-map, IsSorted, insert-IsSorted}
use rapidsmpf.Streaming.Reserve.System.{
  Act, System, asks, looks, passes, shuts_down, asked, look, after_pass, answered_with, step, run,
  Moved, nothing, taken, pass-Moved,
}

-- A request below the counter is pending, answered or cancelled, exactly once.
pub record Accounts (pending : List Request) (next : ℕ) (running : Bool)
    (answered cancelled : List Request) : Type 0 where
  pub sorted : IsSorted pending
  pub numbered : All (λ r. r.sequence_number < next) pending
  pub attended : is_pending pending ≡ true → running ≡ true
  pub once :
      (n : ℕ)
      → count n pending + count n answered + count n cancelled ≡ (if ltb n next then 1 else 0)

abbrev pub AccountsFor : System → Type 0
AccountsFor s =
    Accounts s.manager.reservation_requests s.manager.sequence_counter
      s.manager.periodic_task_running s.answered s.cancelled

-- A step accounts for all requests, and takes one number at most.
abbrev Accounted : ℕ → System → Type 0
Accounted n s = AccountsFor s × (s.manager.sequence_counter ≤ suc n)

Accounts-insert :
    (rs : List Request) (next : ℕ) (running : Bool) (answered cancelled : List Request)
    (a : Request)
    → Accounts rs next running answered cancelled
    → a.sequence_number ≡ next
    → Accounts (insert a rs) (suc next) true answered cancelled
Accounts-insert rs next running answered cancelled a v e =
    let new : All (λ r. r.sequence_number < a.sequence_number) rs =
      subst (λ k. All (λ r. r.sequence_number < k) rs) (sym e) v.numbered in
    record {
      sorted = insert-IsSorted a rs new v.sorted;
      numbered =
          All-insert (suc next) a rs (omega arith)
            (All-map _ _ rs (λ r h. omega (arith, h)) v.numbered);
      attended = λ _. refl;
      once = λ n. let h = v.once n in let k = count-insert n a rs new in ground (arith, h, k, e);
    }

Accounts-extract :
    (rs : List Request) (next : ℕ) (running : Bool) (answered cancelled : List Request)
    (a : Request)
    → Accounts rs next running answered cancelled
    → 0 < count a.sequence_number rs
    → Accounts (extract a.sequence_number rs) next running (a ∷ answered) cancelled
unfolding count is_pending
Accounts-extract rs next running answered cancelled a v here = record {
  sorted = extract-IsSorted a.sequence_number rs v.sorted;
  numbered = All-extract _ a.sequence_number rs v.numbered;
  attended = λ p. v.attended (there rs here);
  once = λ n.
      let h = v.once n in let k = count-extract n a.sequence_number rs here in omega (arith, h, k);
}
  where
    there : (rs : List Request) → 0 < count a.sequence_number rs → is_pending rs ≡ true
    there [] h = absurd (omega arith)
    there (r ∷ rs) h = refl

Accounts-cancel :
    (rs : List Request) (next : ℕ) (running : Bool) (answered cancelled : List Request)
    → Accounts rs next running answered cancelled
    → Accounts [] next running answered (rs ++ cancelled)
unfolding count is_pending
Accounts-cancel rs next running answered cancelled v = record {
  sorted = tt;
  numbered = tt;
  attended = λ p. cc;
  once = λ n. let h = v.once n in let k = count-append n rs cancelled in omega (arith, h, k);
}

module _ (s : System) (v : AccountsFor s) (room : suc s.manager.sequence_counter < 2 ^ 64) where
  submitted :
      (size : ℕ) (delta : ℤ) (now begun : ℕ)
      → Accounted s.manager.sequence_counter (
          asked s begun
            (waits (submit s.manager size delta now).0 (submit s.manager size delta now).1))
  unfolding submit asked
  submitted size delta now begun = by_task (not s.manager.periodic_task_running)
    where
      fresh : Request
      fresh = record {
        size = size;
        net_memory_delta = delta;
        sequence_number = s.manager.sequence_counter;
        submitted_at = now;
      }

      counter : (s.manager.sequence_counter + 1) % 2 ^ 64 ≡ suc s.manager.sequence_counter
      counter = omega arith

      accounts :
          Accounts
            (insert fresh s.manager.reservation_requests)
            ((s.manager.sequence_counter + 1) % 2 ^ 64)
            true
            s.answered
            s.cancelled
      accounts =
          subst
            (λ k.
              Accounts (insert fresh s.manager.reservation_requests) k true s.answered s.cancelled)
            (sym counter) (Accounts-insert _ _ _ _ _ fresh v refl)

      by_task :
          (started : Bool)
          → Accounted s.manager.sequence_counter
              (asked s begun (waits (submit s.manager size delta now).0 started))
      by_task true = (accounts, omega (arith, counter))
      by_task false = (accounts, omega (arith, counter))

  passed_on :
      (q : Passed) → Moved s.manager q → Accounted s.manager.sequence_counter (after_pass s q)
  unfolding after_pass answered_with has_pending
  passed_on q (nothing a rs c task) = (
    rw (a, rs, c)
        (record {
          sorted = v.sorted;
          numbered = v.numbered;
          attended = λ p. task p ∙ v.attended p;
          once = v.once;
        }),
    omega (arith, c),
  )
  passed_on q (taken a ans here rs c task) =
      (rw (ans, rs, c, task) (Accounts-extract _ _ _ _ _ a.request v here), omega (arith, c))

looked : (s : System) → AccountsFor s → Accounted s.manager.sequence_counter (look s)
unfolding look has_pending
looked s v = elim (Bool-cases s.manager.periodic_task_running) [
  | inl running ↦ elim (Bool-cases (is_pending s.manager.reservation_requests)) [
    | inl busy ↦
        subst (Accounted s.manager.sequence_counter) (sym (looks_busy s running busy))
          (v, omega arith)
    | inr idle ↦ subst (Accounted s.manager.sequence_counter) (sym (looks_idle s running idle)) (
      record {
        sorted = v.sorted;
        numbered = v.numbered;
        attended = λ p. let a = idle in let b = p in cc;
        once = v.once;
      },
      omega arith,
    )
  ]
  | inr stopped ↦
      subst (Accounted s.manager.sequence_counter) (sym (looks_stopped s stopped)) (v, omega arith)
]
  where
    looks_busy :
        (s : System)
        → s.manager.periodic_task_running ≡ true
        → is_pending s.manager.reservation_requests ≡ true
        → look s ≡ record s { checked = true }
    looks_busy s a b = simp (a, b)

    looks_idle :
        (s : System)
        → s.manager.periodic_task_running ≡ true
        → is_pending s.manager.reservation_requests ≡ false
        → look s ≡ record s {
          manager = record s.manager { periodic_task_running = false };
          checked = false;
        }
    looks_idle s a b = simp (a, b)

    looks_stopped : (s : System) → s.manager.periodic_task_running ≡ false → look s ≡ s
    looks_stopped s a = simp (a)

asked_on :
    (s : System) (size : ℕ) (delta : ℤ) (now begun : ℕ) (r : Asked)
    → AccountsFor s
    → suc s.manager.sequence_counter < 2 ^ 64
    → ((m : MemoryReservation) × (r ≡ reserved m))
      ⊎ (r ≡ waits (submit s.manager size delta now).0 (submit s.manager size delta now).1)
    → Accounted s.manager.sequence_counter (asked s begun r)
unfolding asked
asked_on s size delta now begun r v room (inl (m, e)) =
    subst (λ a. Accounted s.manager.sequence_counter (asked s begun a)) (sym e) (v, omega arith)
asked_on s size delta now begun r v room (inr e) =
    subst (λ a. Accounted s.manager.sequence_counter (asked s begun a)) (sym e)
      (submitted s v room size delta now begun)

-- Every step accounts for all requests.
step-Accounted :
    (s : System) (a : Act)
    → AccountsFor s
    → suc s.manager.sequence_counter < 2 ^ 64
    → Holds (Accounted s.manager.sequence_counter) (step s a)
unfolding step reserve_or_wait
step-Accounted s (asks br size delta now begun) v room =
    elim (Result-cases (reserve br s.manager.mem_type size false)) [
      | inl (b, e) ↦ rw e (elim (Bool-cases (b.1.size == size)) [
        | inl full ↦ rw full (asked_on s size delta now begun _ v room (inl (b.1, refl)))
        | inr short ↦ rw short (asked_on s size delta now begun _ v room (inr refl))
      ])
      | inr (thrown, e) ↦ rw e tt
    ]
step-Accounted s looks v room = looked s v
step-Accounted s (passes p) v room =
    if-Holds (Accounted s.manager.sequence_counter) (s.manager.periodic_task_running && s.checked) _
      _
      (λ _.
        >>=-Holds (Moved s.manager) (Accounted s.manager.sequence_counter)
          (pass s.manager s.window p) _ (pass-Moved s.manager s.window p)
          (λ q moved. passed_on s v room q moved))
      (λ _. (v, omega arith))
step-Accounted s shuts_down v room = (Accounts-cancel _ _ _ _ _ v, omega arith)

-- The queue before the first request.
unfoldable pub start : MemoryType → ℕ → System
unfolding window_at
start t timeout = record {
  manager = record {
    mem_type = t;
    timeout = timeout;
    sequence_counter = 0;
    reservation_requests = [];
    periodic_memory_check_counter = 0;
    periodic_task_running = false;
  };
  window = window_at 0;
  checked = false;
  answered = [];
  cancelled = [];
}

run-Accounts :
    (s : System) (acts : List Act)
    → AccountsFor s
    → s.manager.sequence_counter + length acts < 2 ^ 64
    → Holds AccountsFor (run s acts)
unfolding run
run-Accounts s [] v room = v
run-Accounts s (a ∷ acts) v room =
    >>=-Holds (Accounted s.manager.sequence_counter) AccountsFor (step s a) _
      (step-Accounted s a v (omega arith)) (λ s' h. run-Accounts s' acts h.0 (omega (arith, h.1)))

-- After any acts that return, in any order and fewer than 2 ^ 64: the queue is sorted, a pending
-- request always has a running task, and every request that was numbered is either pending, or was
-- answered, or was cancelled by a shutdown, once in all.
pub run-accounts :
    (t : MemoryType) (timeout : ℕ) (acts : List Act) (s : System)
    → length acts < 2 ^ 64
    → run (start t timeout) acts ≡ ok s
    → AccountsFor s
unfolding start count is_pending
run-accounts t timeout acts s few e =
    ok-Holds AccountsFor (run (start t timeout) acts) s
      (run-Accounts (start t timeout) acts
        (record {
          sorted = tt;
          numbered = tt;
          attended = λ p. let q = p in cc;
          once = λ n. ground arith;
        })
        (omega arith))
      e
