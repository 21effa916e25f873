-- ===== src/Exchange/Completed.antt =====
-- The messages whose transfer is complete leave tag.cpp in their order.
use rapidsmpf.Prelude.{
  ℕ, suc, map, ◌≡◌, refl, ap, sym, ◌∙◌, inl, inr, List, [], ◌∷◌, ◌++◌, Bool, Option-cases,
  append_assoc,
}
use rapidsmpf.Prelude.Assoc.{find, erase}
use rapidsmpf.Prelude.Result.{Holds, >>=-Holds, then-Holds, if-Holds}
use rapidsmpf.Shuffler.Progress.{Message}
use rapidsmpf.Exchange.{TagExchange, TagMessage, Peer}
use rapidsmpf.Exchange.Transfer.{complete_messages, complete_peers, arrived_buffer}
use rapidsmpf.Exchange.Arrivals.{queued, in_flight, pending, pending_at, SameLog}
use rapidsmpf.Exchange.Fifo.{AllOf, contents, Fronts, Fronts-cons, from}

-- A completed front of the messages in transit is a front of all that wait.
rest_of :
    (p : Peer) (ms : List TagMessage) (out : List Message)
    → contents out ++ map in_flight ms ≡ map in_flight p.in_transit
    → contents out ++ pending (record p { in_transit = ms }) ≡ pending p
unfolding pending
rest_of p ms out kept =
    sym (append_assoc (contents out) (map in_flight ms) (map queued p.incoming))
    ∙ ap (λ z. z ++ map queued p.incoming) kept

module _ {A : Type 0} where
  -- A completed message keeps its metadata, and has data.
  abbrev Completed :
      ℕ → TagExchange A → List TagMessage → TagExchange A × List TagMessage × List Message → Type 0
  Completed src x ms (x', ms', out) =
      SameLog x x' × (AllOf src out × (contents out ++ map in_flight ms' ≡ map in_flight ms))

  complete_messages-Completed :
      (src : ℕ) (is_finished : ℕ → Bool) (x : TagExchange A) (ms : List TagMessage)
      → Holds (Completed src x ms) (complete_messages src is_finished x ms)
  unfolding complete_messages contents
  complete_messages-Completed src is_finished x [] = ((refl, refl), (tt, refl))
  complete_messages-Completed src is_finished x (m ∷ ms) =
      if-Holds (Completed src x (m ∷ ms)) (is_finished m.message_id) _ _
        (λ _. elim (Option-cases (find m.message_id x.in_transit_futures)) [
          | inl none_found ↦ rw none_found tt
          | inr (received, found) ↦ rw found (
              then-Holds (Completed src x (m ∷ ms)) (arrived_buffer x.br m received) _ (λ (br, b).
                let x1 = record x {
                  br = br;
                  in_transit_futures = erase m.message_id x.in_transit_futures;
                } in
                >>=-Holds (Completed src x1 ms) (Completed src x (m ∷ ms))
                  (complete_messages src is_finished x1 ms) _
                  (complete_messages-Completed src is_finished x1 ms)
                  (λ (x2, ms2, out) (log, (all, kept)).
                    (log, ((refl, all), ap (λ z. in_flight m ∷ z) kept)))))
        ])
        (λ _. ((refl, refl), (tt, refl)))

  pub complete_peers-Fronts :
      (src : ℕ) (is_finished : ℕ → Bool) (x : TagExchange A) (peers : List Peer)
      → Holds
          (λ (x', peers', out). SameLog x x' × Fronts src peers peers' out)
          (complete_peers src is_finished x peers)
  unfolding complete_peers pending_at pending from
  complete_peers-Fronts src is_finished x [] = ((refl, refl), (tt, λ k. refl))
  complete_peers-Fronts src is_finished x (p ∷ peers) =
      >>=-Holds (Completed src x p.in_transit)
        (λ (x', peers', out). SameLog x x' × Fronts src (p ∷ peers) peers' out)
        (complete_messages src is_finished x p.in_transit) _
        (complete_messages-Completed src is_finished x p.in_transit)
        (λ (x1, ms, out) (log, (all, kept)).
          >>=-Holds (λ (x', peers', out). SameLog x1 x' × Fronts (suc src) peers peers' out)
            (λ (x', peers', out). SameLog x x' × Fronts src (p ∷ peers) peers' out)
            (complete_peers (suc src) is_finished x1 peers) _
            (complete_peers-Fronts (suc src) is_finished x1 peers)
            (λ (x2, peers2, outs) (log', fronts). (
              (log'.0 ∙ log.0, log'.1 ∙ log.1),
              Fronts-cons src p (record p { in_transit = ms }) peers peers2 out outs
                  (all, rest_of p ms out kept) fronts,
            )))
