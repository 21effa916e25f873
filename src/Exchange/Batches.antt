-- ===== src/Exchange/Batches.antt =====
-- Several calls of `send` of tag.cpp, one after the other, as the receiver reads them.
use rapidsmpf.Prelude.{
  ℕ, ◌+◌, ◌-◌, ◌^◌, ◌<◌, ◌≤◌, ◌≡◌, refl, ap, sym, ◌∙◌, inl, inr, List, [], ◌∷◌, ◌++◌, Bool-cases,
  ◌==◌, ltb, length, take, length-append, arith,
}
use rapidsmpf.Prelude.Result.{Result, ◌>>=◌, ok, ok-Holds, Holds, >>=-Holds}
use rapidsmpf.Shuffler.Progress.{Message}
use rapidsmpf.Exchange.{TagExchange}
use rapidsmpf.Exchange.Send.{Sent, send}
use rapidsmpf.Exchange.Arrivals.{entries, is_marker}
use rapidsmpf.Exchange.Arrivals.{announced}
use rapidsmpf.Exchange.Trailer.{mail_for, mail_for-append, sent_to, outgoing, SendsOf, send-SendsOf}

-- Calls of `send`, one after the other.
unfoldable pub send_batches :
    {A : Type 0} → TagExchange A → List (List Message) → Result (TagExchange A × List Sent)
send_batches x [] = ok (x, [])
send_batches x (ms ∷ batches) = do
  (x1, out) ← send x ms
  (x2, outs) ← send_batches x1 batches
  ok (x2, out ++ outs)

abbrev pub joined : List (List Message) → List Message
joined [] = []
joined (ms ∷ batches) = ms ++ joined batches

pub entries-append : (xs ys : List (List ℕ)) → entries (xs ++ ys) ≡ entries xs ++ entries ys
unfolding entries
entries-append [] ys = refl
entries-append (msg ∷ xs) ys = elim (Bool-cases (is_marker msg)) [
  | inl e ↦ rw e (entries-append xs ys)
  | inr e ↦
      rw e
        (ap (λ z. (take (length msg - 16) msg, ltb 0 (announced msg)) ∷ z) (entries-append xs ys))
]

sent_to-append :
    (dst : ℕ) (ms ns : List Message) → sent_to dst (ms ++ ns) ≡ sent_to dst ms ++ sent_to dst ns
unfolding sent_to
sent_to-append dst [] ns = refl
sent_to-append dst (m ∷ ms) ns = elim (Bool-cases (m.peer == dst)) [
  | inl e ↦ rw e (ap (λ z. outgoing m ∷ z) (sent_to-append dst ms ns))
  | inr e ↦ rw e (sent_to-append dst ms ns)
]

send_batches-SendsOf :
    {A : Type 0} (x : TagExchange A) (batches : List (List Message))
    → x.rank < 2 ^ 31
    → x.next_message_id + length (joined batches) ≤ 2 ^ 32
    → Holds (SendsOf x (joined batches)) (send_batches x batches)
unfolding send_batches mail_for sent_to entries
send_batches-SendsOf x [] r n = (refl, (omega arith, λ dst. refl))
send_batches-SendsOf x (ms ∷ batches) r n =
    let size = length-append ms (joined batches) in
    let all = joined (ms ∷ batches) in
    >>=-Holds (SendsOf x ms) (SendsOf x all) (send x ms) _
      (send-SendsOf x ms r (omega (arith, n, size)))
      (λ (x1, out) (rank, (next, first)).
        >>=-Holds (SendsOf x1 (joined batches)) (SendsOf x all) (send_batches x1 batches) _
          (send_batches-SendsOf x1 batches (omega (arith, rank, r)) (omega (arith, next, n, size)))
          (λ (x2, outs) (rank', (next', rest)). (
            rank' ∙ rank,
            (
              omega (arith, next, next', size),
              λ dst.
                  ap entries (mail_for-append dst out outs)
                  ∙ entries-append (mail_for dst out) (mail_for dst outs)
                  ∙ ap (λ z. z ++ entries (mail_for dst outs)) (first dst)
                  ∙ ap (λ z. sent_to dst ms ++ z) (rest dst)
                  ∙ sym (sent_to-append dst ms (joined batches)),
            ),
          )))

-- And so for the calls of `send` of a rank, one after the other.
pub send_batches-entries :
    {A : Type 0} (x x' : TagExchange A) (batches : List (List Message)) (out : List Sent) (dst : ℕ)
    → x.rank < 2 ^ 31
    → x.next_message_id + length (joined batches) ≤ 2 ^ 32
    → send_batches x batches ≡ ok (x', out)
    → entries (mail_for dst out) ≡ sent_to dst (joined batches)
send_batches-entries x x' batches out dst r n e =
    (ok-Holds (SendsOf x (joined batches)) (send_batches x batches) (x', out)
        (send_batches-SendsOf x batches r n) e).1.1
      dst
