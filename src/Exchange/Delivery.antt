-- ===== src/Exchange/Delivery.antt =====
-- A whole run of the receiving side of tag.cpp against what the other ranks sent.
use rapidsmpf.Prelude.{
  ℕ, zero, suc, ◌+◌, ◌<◌, ◌≤◌, ◌^◌, ◌≡◌, refl, ap, sym, ◌∙◌, inl, inr, List, [], ◌∷◌, ◌++◌,
  append-nil, append_assoc, false, Bool-cases, ◌==◌, if◌then◌else◌, length, replicate, arith,
}
use rapidsmpf.Prelude.Result.{Result, ok, Holds, >>=-Holds, ok-Holds, weaken-Holds, ◌>>=◌}
use rapidsmpf.Memory.Resource.{BufferResource}
use rapidsmpf.Shuffler.Progress.{Message}
use rapidsmpf.Exchange.{TagExchange, AllocateBufferFn, create, new_peer}
use rapidsmpf.Exchange.Send.{Sent}
use rapidsmpf.Exchange.Transfer.{progress, recv, Reports}
use rapidsmpf.Exchange.Arrivals.{Content, entries, mail_at, pending_at, pending}
use rapidsmpf.Exchange.Fifo.{from, from-append}
use rapidsmpf.Exchange.Channel.{channel, recv-channel, SameChannel, progress-Holds}
use rapidsmpf.Exchange.Trailer.{sent_to, mail_for}
use rapidsmpf.Exchange.Batches.{send_batches, joined, entries-append, send_batches-entries}

-- Mail that arrives from a rank.
unfoldable pub add_mail : ℕ → List (List ℕ) → List (List (List ℕ)) → List (List (List ℕ))
add_mail zero new [] = new ∷ []
add_mail zero new (mail ∷ mails) = (mail ++ new) ∷ mails
add_mail (suc src) new [] = [] ∷ add_mail src new []
add_mail (suc src) new (mail ∷ mails) = mail ∷ add_mail src new mails

-- What can happen at the receiving rank.
pub data Event : Type 0 where
  arrives : ℕ → List (List ℕ) → Event
  progresses : Reports → Event
  receives : Event

-- The exchange, the mail, and what `recv` returned so far.
abbrev pub State : Type 0 → Type 0
State A = TagExchange A × List (List (List ℕ)) × List Message

module _ {A : Type 0} (allocate : AllocateBufferFn A) where
  unfoldable pub step : State A → Event → Result (State A)
  step (x, mails, log) (arrives src new) = ok (x, add_mail src new mails, log)
  step (x, mails, log) (progresses reports) = do
    (x', mails') ← progress allocate reports x mails
    ok (x', mails', log)
  step (x, mails, log) receives = let (x', out) = recv x in ok (x', mails, log ++ out)

  unfoldable pub run : State A → List Event → Result (State A)
  run s [] = ok s
  run s (e ∷ es) = do s' ← step s e; run s' es

-- The mail of a rank in a run.
unfoldable pub arrived_from : ℕ → List Event → List (List ℕ)
arrived_from src [] = []
arrived_from src (arrives peer new ∷ es) =
    let rest = arrived_from src es in if peer == src then new ++ rest else rest
arrived_from src (progresses reports ∷ es) = arrived_from src es
arrived_from src (receives ∷ es) = arrived_from src es

-- Everything of a rank that is taken or on its way.
whole : {A : Type 0} → ℕ → State A → List Content
whole src (x, mails, log) = from src log ++ channel src x mails

suc_test : (m n : ℕ) → (suc m == suc n) ≡ (m == n)
suc_test m n = ground arith

zero_test : (n : ℕ) → (0 == suc n) ≡ false
zero_test n = ground arith

test_zero : (n : ℕ) → (suc n == 0) ≡ false
test_zero n = ground arith

mail_at-add :
    (src peer : ℕ) (new : List (List ℕ)) (mails : List (List (List ℕ)))
    → mail_at src (add_mail peer new mails) ≡ mail_at src mails ++ (if peer == src then new else [])
unfolding mail_at add_mail
mail_at-add zero zero new [] = refl
mail_at-add zero zero new (mail ∷ mails) = refl
mail_at-add (suc src) zero new [] = rw (zero_test src) refl
mail_at-add (suc src) zero new (mail ∷ mails) =
    rw (zero_test src) (sym (append-nil (mail_at src mails)))
mail_at-add zero (suc peer) new [] = rw (test_zero peer) refl
mail_at-add zero (suc peer) new (mail ∷ mails) = rw (test_zero peer) (sym (append-nil mail))
mail_at-add (suc src) (suc peer) new [] = rw (suc_test peer src) (mail_at-add src peer new [])
mail_at-add (suc src) (suc peer) new (mail ∷ mails) =
    rw (suc_test peer src) (mail_at-add src peer new mails)

whole-arrives :
    {A : Type 0} (src peer : ℕ) (new : List (List ℕ)) (x : TagExchange A)
    (mails : List (List (List ℕ))) (log : List Message)
    → whole src (x, add_mail peer new mails, log)
      ≡ whole src (x, mails, log) ++ entries (if peer == src then new else [])
unfolding whole channel
whole-arrives src peer new x mails log =
    let more = if peer == src then new else [] in
    let a = from src log in
    let b = from src x.received_messages in
    let c = pending_at src x.peers in
    let d = entries (mail_at src mails) in
    ap (λ z. a ++ (b ++ (c ++ z)))
      (ap entries (mail_at-add src peer new mails) ∙ entries-append (mail_at src mails) more)
    ∙ ap (λ z. a ++ (b ++ z)) (sym (append_assoc c d (entries more)))
    ∙ ap (λ z. a ++ z) (sym (append_assoc b (c ++ d) (entries more)))
    ∙ sym (append_assoc a (b ++ (c ++ d)) (entries more))

arrived_one :
    (src peer : ℕ) (new : List (List ℕ))
    → (if peer == src then new else []) ≡ arrived_from src (arrives peer new ∷ [])
unfolding arrived_from
arrived_one src peer new = elim (Bool-cases (peer == src)) [
  | inl e ↦ rw e (sym (append-nil new))
  | inr e ↦ rw e refl
]

arrived_cons :
    (src : ℕ) (e : Event) (es : List Event)
    → arrived_from src (e ∷ es) ≡ arrived_from src (e ∷ []) ++ arrived_from src es
unfolding arrived_from
arrived_cons src (arrives peer new) es = elim (Bool-cases (peer == src)) [
  | inl e ↦ rw e (ap (λ z. z ++ arrived_from src es) (sym (append-nil new)))
  | inr e ↦ rw e refl
]
arrived_cons src (progresses reports) es = refl
arrived_cons src receives es = refl

module _ {A : Type 0} (allocate : AllocateBufferFn A) where
  abbrev Grows : State A → List Event → State A → Type 0
  Grows s es s' = (src : ℕ) → whole src s' ≡ whole src s ++ entries (arrived_from src es)

  step-Grows : (s : State A) (e : Event) → Holds (Grows s (e ∷ [])) (step allocate s e)
  unfolding step arrived_from whole entries
  step-Grows (x, mails, log) (arrives peer new) = λ src.
      whole-arrives src peer new x mails log
      ∙ ap (λ z. whole src (x, mails, log) ++ entries z) (arrived_one src peer new)
  step-Grows (x, mails, log) (progresses reports) =
      >>=-Holds (SameChannel allocate reports x mails)
        (Grows (x, mails, log) (progresses reports ∷ [])) (progress allocate reports x mails) _
        (progress-Holds allocate reports x mails)
        (λ (x', mails') same. λ src. ap (λ z. from src log ++ z) (same src) ∙ sym (append-nil _))
  step-Grows (x, mails, log) receives = λ src.
      ap (λ z. z ++ channel src (recv x).0 mails) (from-append src log (recv x).1)
      ∙ append_assoc (from src log) (from src (recv x).1) (channel src (recv x).0 mails)
      ∙ ap (λ z. from src log ++ z) (recv-channel x mails src)
      ∙ sym (append-nil _)

  run-Grows : (s : State A) (es : List Event) → Holds (Grows s es) (run allocate s es)
  unfolding run arrived_from entries
  run-Grows s [] = λ src. sym (append-nil (whole src s))
  run-Grows s (e ∷ es) =
      >>=-Holds (Grows s (e ∷ [])) (Grows s (e ∷ es)) (step allocate s e) _ (step-Grows s e)
        (λ s1 first.
          weaken-Holds (Grows s1 es) (Grows s (e ∷ es)) (run allocate s1 es)
            (λ s2 rest. λ src.
              let one = entries (arrived_from src (e ∷ [])) in
              rest src
              ∙ ap (λ z. z ++ entries (arrived_from src es)) (first src)
              ∙ append_assoc (whole src s) one (entries (arrived_from src es))
              ∙ ap (λ z. whole src s ++ z)
                  (sym (entries-append (arrived_from src (e ∷ [])) (arrived_from src es))
                    ∙ ap entries (sym (arrived_cons src e es))))
            (run-Grows s1 es))

nothing_pending : (src n : ℕ) → pending_at src (replicate n new_peer) ≡ []
unfolding pending_at pending
nothing_pending src zero = refl
nothing_pending zero (suc n) = refl
nothing_pending (suc src) (suc n) = nothing_pending src n

-- Whatever arrives, progresses and is received in whatever order at a new exchange: the messages of a
-- rank that `recv` returned, then those on their way at the receiver, then those that have yet to
-- arrive, are the messages that the rank gave to `send`, call after call, each once and in their order, with
-- their metadata. Those that were sent with data, and no others, are received with a buffer, whose size is
-- not compared. The run and
-- the calls of `send` return, the sender's rank is below 2 ^ 31 and its message ids stay below 2 ^ 32.
pub delivery-in_order :
    {A B : Type 0} (allocate : AllocateBufferFn A) (rank nranks timeout : ℕ) (a : A)
    (br : BufferResource) (es : List Event) (x : TagExchange A) (mails : List (List (List ℕ)))
    (log : List Message) (src : ℕ) (y y' : TagExchange B) (batches : List (List Message))
    (out : List Sent) (later : List (List ℕ))
    → run allocate (create rank nranks a timeout br, [], []) es ≡ ok (x, mails, log)
    → y.rank < 2 ^ 31
    → y.next_message_id + length (joined batches) ≤ 2 ^ 32
    → send_batches y batches ≡ ok (y', out)
    → arrived_from src es ++ later ≡ mail_for rank out
    → (from src log ++ channel src x mails) ++ entries later ≡ sent_to rank (joined batches)
unfolding whole create channel from entries mail_at
delivery-in_order {A = A} allocate rank nranks timeout a br es x mails log src y y' batches out
      later ran r n sent same =
    let start : State A = (create rank nranks a timeout br, [], []) in
    let grown =
      ok-Holds (Grows allocate start es) (run allocate start es) (x, mails, log)
        (run-Grows allocate start es) ran src in
    ap (λ z. z ++ entries later)
      (grown ∙ ap (λ z. (z ++ []) ++ entries (arrived_from src es)) (nothing_pending src nranks))
    ∙ sym (entries-append (arrived_from src es) later)
    ∙ ap entries same
    ∙ send_batches-entries y y' batches out rank r n sent
