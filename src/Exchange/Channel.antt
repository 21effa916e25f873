-- ===== src/Exchange/Channel.antt =====
-- The exchange of tag.cpp refines a queue of messages for each rank: what `progress` does moves messages
-- along the queue, and `recv` takes from its front.
use rapidsmpf.Prelude.{ℕ, ◌≡◌, refl, ap, sym, ◌∙◌, List, ◌++◌, append_assoc, Bool, arith}
use rapidsmpf.Prelude.Result.{ok, Holds, >>=-Holds, ok-Holds, if-Holds}
use rapidsmpf.Shuffler.Progress.{Message}
use rapidsmpf.Exchange.{TagExchange, AllocateBufferFn}
use rapidsmpf.Exchange.Send.{no_messages}
use rapidsmpf.Exchange.Receive.{receive_metadata}
use rapidsmpf.Exchange.Transfer.{
  setup_peers, setup_data_receives, force_allocation_progress_if_stalled, complete_peers,
  complete_data_transfers, progress, recv, Reports,
}
use rapidsmpf.Exchange.Arrivals.{
  Content, entries, pending_at, mail_at, SameLog, AllDrained, receive_metadata-AllDrained,
}
use rapidsmpf.Exchange.Fifo.{from, from-append, Fronts, setup_peers-Fronts, OutInOrder}
use rapidsmpf.Exchange.Completed.{complete_peers-Fronts}
use rapidsmpf.Exchange.Forced.{Unmoved, force-Unmoved}

-- The messages of a rank that are not yet taken by `recv`, oldest first: those that are complete,
-- those in transit, those that are queued, and those in the mail. Each stands with its metadata, and
-- with whether data comes with it.
unfoldable pub channel : {A : Type 0} → ℕ → TagExchange A → List (List (List ℕ)) → List Content
channel src x mails =
    from src x.received_messages ++ (pending_at src x.peers ++ entries (mail_at src mails))

-- A phase that hands out `out`.
abbrev HandsOut : {A : Type 0} → TagExchange A → TagExchange A × List Message → Type 0
HandsOut x (x', out) =
    (x'.received_messages ≡ x.received_messages)
    × ((src : ℕ) → from src out ++ pending_at src x'.peers ≡ pending_at src x.peers)

module _ {A : Type 0} (allocate : AllocateBufferFn A) (now : ℕ) where
  setup-HandsOut : (x : TagExchange A) → Holds (HandsOut x) (setup_data_receives allocate now x)
  unfolding setup_data_receives
  setup-HandsOut x =
      >>=-Holds (Unmoved allocate now x) (HandsOut x)
        (force_allocation_progress_if_stalled allocate now x) _ (force-Unmoved allocate now x)
        (λ x1 (log, unmoved).
          >>=-Holds (OutInOrder allocate now 0 x1 x1.peers) (HandsOut x)
            (setup_peers allocate now 0 x1 x1.peers) _
            (setup_peers-Fronts allocate now 0 x1 x1.peers)
            (λ (x2, peers, out) (log', (_, fronts)). (
              log'.0 ∙ log,
              λ src.
                  ap (λ r. from r out ++ pending_at src peers) (omega arith)
                  ∙ fronts src
                  ∙ unmoved src,
            )))

module _ {A : Type 0} where
  complete-HandsOut :
      (is_finished : ℕ → Bool) (x : TagExchange A)
      → Holds (HandsOut x) (complete_data_transfers is_finished x)
  unfolding complete_data_transfers from
  complete-HandsOut is_finished x =
      if-Holds (HandsOut x) (no_messages x.in_transit_futures) _ _ (λ _. (refl, λ src. refl))
        (λ _.
          >>=-Holds (λ (x', peers', out). SameLog x x' × Fronts 0 x.peers peers' out) (HandsOut x)
            (complete_peers 0 is_finished x x.peers) _
            (complete_peers-Fronts 0 is_finished x x.peers)
            (λ (x', peers', out) (log, (_, fronts)). (
              log.0,
              λ src. ap (λ r. from r out ++ pending_at src peers') (omega arith) ∙ fronts src,
            )))

-- Three phases in a row: one queues the mail, two hand out.
in_order :
    (src : ℕ) (log : List Message) (ms ns : List Message)
    (end3 end2 end1 mail' start mail : List Content)
    → from src ns ++ end3 ≡ end2
    → from src ms ++ end2 ≡ end1
    → end1 ++ mail' ≡ start ++ mail
    → from src (log ++ (ms ++ ns)) ++ (end3 ++ mail') ≡ from src log ++ (start ++ mail)
in_order src log ms ns end3 end2 end1 mail' start mail h3 h2 h1 =
    ap (λ z. z ++ (end3 ++ mail'))
      (from-append src log (ms ++ ns) ∙ ap (λ z. from src log ++ z) (from-append src ms ns))
    ∙ append_assoc (from src log) (from src ms ++ from src ns) (end3 ++ mail')
    ∙ ap (λ z. from src log ++ z)
        (append_assoc (from src ms) (from src ns) (end3 ++ mail')
          ∙ ap (λ z. from src ms ++ z)
              (sym (append_assoc (from src ns) end3 mail') ∙ ap (λ z. z ++ mail') h3)
          ∙ sym (append_assoc (from src ms) end2 mail')
          ∙ ap (λ z. z ++ mail') h2
          ∙ h1)

module _ {A : Type 0} (allocate : AllocateBufferFn A) (reports : Reports) where
  abbrev pub SameChannel :
      TagExchange A → List (List (List ℕ)) → TagExchange A × List (List (List ℕ)) → Type 0
  SameChannel x mails (x', mails') = (src : ℕ) → channel src x' mails' ≡ channel src x mails

  pub progress-Holds :
      (x : TagExchange A) (mails : List (List (List ℕ)))
      → Holds (SameChannel x mails) (progress allocate reports x mails)
  unfolding progress channel
  progress-Holds x mails =
      >>=-Holds (AllDrained allocate reports.now x x.peers mails) (SameChannel x mails)
        (receive_metadata allocate reports.now 0 x x.peers mails) _
        (receive_metadata-AllDrained allocate reports.now 0 x x.peers mails)
        (λ (x1, peers, mails1) (log1, queued).
          let y1 = record x1 { peers = peers } in
          >>=-Holds (HandsOut y1) (SameChannel x mails)
            (setup_data_receives allocate reports.now y1) _ (setup-HandsOut allocate reports.now y1)
            (λ (x2, ms) (log2, out2).
              >>=-Holds (HandsOut x2) (SameChannel x mails)
                (complete_data_transfers reports.is_finished x2) _
                (complete-HandsOut reports.is_finished x2)
                (λ (x3, ns) (log3, out3). λ src.
                  ap
                    (λ log.
                      from src (log ++ (ms ++ ns))
                      ++ (pending_at src x3.peers ++ entries (mail_at src mails1)))
                    (log3 ∙ log2 ∙ log1.0)
                  ∙ in_order src x.received_messages ms ns (pending_at src x3.peers)
                      (pending_at src x2.peers) (pending_at src peers)
                      (entries (mail_at src mails1)) (pending_at src x.peers)
                      (entries (mail_at src mails)) (out3 src) (out2 src) (queued src))))

-- A `progress` that returns takes no message out of order, loses none and makes none up: for each rank
-- the messages that are complete, in transit, queued and in the mail stay the same sequence of
-- metadata, each with or without data as it was announced. So a message that was announced with data
-- has a buffer when it is complete, and one that was announced without has none. The
-- size of the buffer is not compared.
pub progress-channel :
    {A : Type 0} (allocate : AllocateBufferFn A) (reports : Reports) (x x' : TagExchange A)
    (mails mails' : List (List (List ℕ))) (src : ℕ)
    → progress allocate reports x mails ≡ ok (x', mails')
    → channel src x' mails' ≡ channel src x mails
progress-channel allocate reports x x' mails mails' src e =
    ok-Holds (SameChannel allocate reports x mails) (progress allocate reports x mails) (x', mails')
      (progress-Holds allocate reports x mails) e src

-- `recv` takes the front of the channel of each rank.
pub recv-channel :
    {A : Type 0} (x : TagExchange A) (mails : List (List (List ℕ))) (src : ℕ)
    → from src (recv x).1 ++ channel src (recv x).0 mails ≡ channel src x mails
unfolding recv channel from
recv-channel x mails src = refl
