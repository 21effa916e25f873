-- ===== src/Coll/AllReduce/Settled.antt =====
-- Where the ranks of an allreduce stand between their turns, cpp/src/coll/allreduce.cpp: a turn, an
-- arrival and the end of a send keep every rank in one of its states.
use rapidsmpf.Prelude.{
  ℕ, ◌+◌, ◌-◌, ◌^◌, ◌≤◌, ◌<◌, ◌≡◌, ◌≢◌, refl, ap, sym, ◌∙◌, subst, ◌==◌, ◌&&◌, if◌then◌else◌, List,
  [], ◌∷◌, ◌++◌, Option, none, some, arith, Bool, true, false, not, Bool-cases, inl, inr,
}
use rapidsmpf.Prelude.Result.{Result, ok, err, ◌>>=◌}
use rapidsmpf.Coll.AllReduce.{
  AllReduce, Phase, Message, Turned, done, result_available, at_phase, event_loop, conclude,
  finished, is_available, stage_rank,
}
use rapidsmpf.Coll.AllReduce.Partners.{flip, block}
use rapidsmpf.Coll.AllReduce.Value.{combined, Carries, AllCarry}
use rapidsmpf.Coll.AllReduce.Stages.{
  Stands, Turns, Arrives, phase-turn, pre_starts, pre_sends, pre_receives, stage_starts,
  stage_exchanges, post_starts, post_receives, post_sends, ends, has_ended,
}
use rapidsmpf.Coll.AllReduce.Cluster.{take_message, fill, complete_receive, complete_send}

unfoldable pub is_done : Phase → Bool
is_done done = true
is_done _ = false

pub not_done : (p : Phase) → is_done p ≡ false → p ≢ done
unfolding is_done
not_done p f d = let w : true ≡ false = ap is_done (sym d) ∙ f in cc

module _ {A : Type 0} (op : A → A → A) (x : ℕ → A) (rem stages : ℕ) (callback : Bool) where
  -- Where a rank stands between its turns.
  abbrev pub Settled : ℕ → AllReduce A → Type 0
  Settled r a = Stands op x rem stages callback r a × (a.phase ≢ done)

  abbrev Rests : ℕ → AllReduce A → Type 0
  Rests r a = Settled r (conclude a.phase a).0

  rests : (r : ℕ) {a b : AllReduce A} → a ≡ b → Rests r b → Rests r a
  rests r e h = subst (Rests r) (sym e) h

  conclude-Settled : (r : ℕ) (a : AllReduce A) → Stands op x rem stages callback r a → Rests r a
  unfolding conclude is_done
  conclude-Settled r a (pre_starts i p low e) = rests r e (pre_starts i p low refl, not_done _ refl)
  conclude-Settled r a (pre_sends i p sent low even e) =
      rests r e (pre_sends i p sent low even refl, not_done _ refl)
  conclude-Settled r a (pre_receives p arrived low odd h e) =
      rests r e (pre_receives p arrived low odd h refl, not_done _ refl)
  conclude-Settled r a (stage_starts i p k l at_most fits same e) =
      rests r e (stage_starts i p k l at_most fits same refl, not_done _ refl)
  conclude-Settled r a (stage_exchanges k l sent arrived below fits same h e) =
      rests r e (stage_exchanges k l sent arrived below fits same h refl, not_done _ refl)
  conclude-Settled r a (post_starts i b m p low h e) =
      rests r e (post_starts i b m p low h refl, not_done _ refl)
  conclude-Settled r a (post_receives i m p arrived low even h e) =
      rests r e (post_receives i m p arrived low even h refl, not_done _ refl)
  conclude-Settled r a (post_sends i m p sent low odd e) =
      rests r e (post_sends i m p sent low odd refl, not_done _ refl)
  conclude-Settled r a (ends i m p e) = rests r e (has_ended i m p refl, not_done _ refl)
  conclude-Settled r a (has_ended i m p e) = rests r e (has_ended i m p refl, not_done _ refl)

  pub AllCarry-append :
      (ms ns : List (Message A))
      → AllCarry op x rem stages ms
      → AllCarry op x rem stages ns
      → AllCarry op x rem stages (ms ++ ns)
  AllCarry-append [] ns h k = k
  AllCarry-append (m ∷ ms) ns h k = (h.0, AllCarry-append ms ns h.1 k)

  -- A message that was taken carries what the others between the same ranks do.
  abbrev Brings : ℕ → ℕ → Option A → Type 0
  Brings s d none = Unit
  Brings s d (some b) =
      Carries op x rem stages (record { source = s; destination = d; content = b })

  take_message-Brings :
      (s d : ℕ) (ms : List (Message A))
      → AllCarry op x rem stages ms
      → Brings s d (take_message s d ms).0 × AllCarry op x rem stages (take_message s d ms).1
  unfolding take_message
  take_message-Brings s d [] h = (tt, tt)
  take_message-Brings s d (m ∷ ms) h = elim (Bool-cases (m.source == s && m.destination == d)) [
    | inl hit ↦
        rw hit (subst (λ (q : ℕ × ℕ). Brings q.0 q.1 (some m.content)) (both m hit) h.0, h.1)
    | inr miss ↦ let (b, k) = take_message-Brings s d ms h.1 in rw miss (b, (h.0, k))
  ]
    where
      both :
          (m : Message A)
          → (m.source == s && m.destination == d) ≡ true
          → ◌≡◌ {A = ℕ × ℕ} (m.source, m.destination) (s, d)
      both m hit = ground arith

  -- A posted receive that looks at the mail.
  fill-Arrives :
      (s d : ℕ) (v : A) (arrived : Option A) (mail : List (Message A))
      → ((b : A) → Brings s d (some b) → b ≡ v)
      → Arrives v arrived
      → AllCarry op x rem stages mail
      → (o : Option A) × Arrives v o
        × ((fill s d arrived mail).0 ≡ some (record { source = s; arrived = o }))
        × AllCarry op x rem stages (fill s d arrived mail).1
  unfolding fill
  fill-Arrives s d v (some b) mail k h all = (some b, h, refl, all)
  fill-Arrives s d v none mail k h all =
      let (b, rest) = take_message-Brings s d mail all in
      ((take_message s d mail).0, arrives (take_message s d mail).0 b, refl, rest)
    where
      arrives : (o : Option A) → Brings s d o → Arrives v o
      arrives none b = tt
      arrives (some c) b = k c b

  Stands-active : (r : ℕ) (a : AllReduce A) → Stands op x rem stages callback r a → a.active ≡ true
  Stands-active r a (pre_starts i p low e) = ap (λ b. b.active) e
  Stands-active r a (pre_sends i p sent low even e) = ap (λ b. b.active) e
  Stands-active r a (pre_receives p arrived low odd h e) = ap (λ b. b.active) e
  Stands-active r a (stage_starts i p k l at_most fits same e) = ap (λ b. b.active) e
  Stands-active r a (stage_exchanges k l sent arrived below fits same h e) = ap (λ b. b.active) e
  Stands-active r a (post_starts i b m p low h e) = ap (λ b. b.active) e
  Stands-active r a (post_receives i m p arrived low even h e) = ap (λ b. b.active) e
  Stands-active r a (post_sends i m p sent low odd e) = ap (λ b. b.active) e
  Stands-active r a (ends i m p e) = ap (λ b. b.active) e
  Stands-active r a (has_ended i m p e) = ap (λ b. b.active) e

  abbrev pub Evented : ℕ → Result (AllReduce A × List (Message A) × Bool) → Type 0
  Evented r (err e) = ⊥
  Evented r (ok e) = Settled r e.0 × AllCarry op x rem stages e.1

  pub event_loop-Evented :
      (r : ℕ) (od id : Bool) (a : AllReduce A)
      → stages < 32
      → rem ≤ 2 ^ stages
      → Settled r a
      → finished a ≡ false
      → Evented r (event_loop op od id a)
  unfolding event_loop finished
  event_loop-Evented r od id a few less (s, open_) running =
      enters a.active _ _ (Stands-active r a s) (
        after (at_phase op od id a.phase a)
          (phase-turn op x rem stages callback r od id a few less s open_ (unfinished a running)))
    where
      enters :
          (b : Bool) (u t : Result (AllReduce A × List (Message A) × Bool))
          → b ≡ true
          → Evented r t
          → Evented r (if not b then u else t)
      enters true u t e h = h
      enters false u t e h = cc

      after :
          (t : Turned A)
          → Turns op x rem stages callback r t
          → Evented r (
              t >>= λ turned.
              let ended = conclude turned.0.phase turned.0 in ok (ended.0, turned.1, ended.1))
      after (err e) h = h
      after (ok t) h = (conclude-Settled r t.0 h.0, h.1)

      unfinished : (b : AllReduce A) → finished b ≡ false → b.phase ≢ result_available
      unfinished b f e = let w : false ≡ true = sym f ∙ ap is_available e in cc

  abbrev pub Receives : List (Message A) → ℕ → AllReduce A → Type 0
  Receives mail r a =
      Settled r (record a { recv_future = (complete_receive r a.recv_future mail).0 })
      × AllCarry op x rem stages (complete_receive r a.recv_future mail).1

  received :
      (mail : List (Message A)) (r : ℕ) {a b : AllReduce A}
      → a ≡ b
      → Receives mail r b
      → Receives mail r a
  received mail r e h = subst (Receives mail r) (sym e) h

  -- Completing a receive keeps a rank where it stands.
  pub complete_receive-Settled :
      (mail : List (Message A)) (r : ℕ) (a : AllReduce A)
      → Settled r a
      → AllCarry op x rem stages mail
      → Receives mail r a
  unfolding complete_receive is_done
  complete_receive-Settled mail r a (pre_starts i p low e, o) all =
      received mail r e ((pre_starts i p low refl, not_done _ refl), all)
  complete_receive-Settled mail r a (pre_sends i p sent low even e, o) all =
      received mail r e ((pre_sends i p sent low even refl, not_done _ refl), all)
  complete_receive-Settled mail r a (pre_receives p arrived low odd h e, o) all =
      let (v, k, same, rest) =
        fill-Arrives (r - 1) r (x (r - 1)) arrived mail (λ b c. c.first low odd (omega arith)) h
          all in
      received mail r e (rw same ((pre_receives p v low odd k refl, not_done _ refl), rest))
  complete_receive-Settled mail r a (stage_starts i p k l at_most fits same e, o) all =
      received mail r e ((stage_starts i p k l at_most fits same refl, not_done _ refl), all)
  complete_receive-Settled mail r a (stage_exchanges k l sent arrived below fits here h e, o) all =
      let (v, got, same, rest) =
        fill-Arrives (stage_rank rem (flip k l)) r (combined op x rem k (block k (flip k l)))
          arrived mail (λ b c. c.staged k l below fits here refl) h all in
      received mail r e
        (rw same ((stage_exchanges k l sent v below fits here got refl, not_done _ refl), rest))
  complete_receive-Settled mail r a (post_starts i b m p low h e, o) all =
      received mail r e ((post_starts i b m p low h refl, not_done _ refl), all)
  complete_receive-Settled mail r a (post_receives i m p arrived low even h e, o) all =
      let (v, got, same, rest) =
        fill-Arrives (r + 1) r (combined op x rem stages 0) arrived mail
          (λ b c. c.last low even refl) h all in
      received mail r e (rw same ((post_receives i m p v low even got refl, not_done _ refl), rest))
  complete_receive-Settled mail r a (post_sends i m p sent low odd e, o) all =
      received mail r e ((post_sends i m p sent low odd refl, not_done _ refl), all)
  complete_receive-Settled mail r a (ends i m p e, o) all = absurd (o (ap (λ b. b.phase) e))
  complete_receive-Settled mail r a (has_ended i m p e, o) all =
      received mail r e ((has_ended i m p refl, not_done _ refl), all)

  abbrev pub Sends : ℕ → AllReduce A → Type 0
  Sends r a = Settled r (record a { send_future = complete_send a.send_future })

  sent_on : (r : ℕ) {a b : AllReduce A} → a ≡ b → Sends r b → Sends r a
  sent_on r e h = subst (Sends r) (sym e) h

  pub complete_send-Settled : (r : ℕ) (a : AllReduce A) → Settled r a → Sends r a
  unfolding complete_send is_done
  complete_send-Settled r a (pre_starts i p low e, o) =
      sent_on r e (pre_starts i p low refl, not_done _ refl)
  complete_send-Settled r a (pre_sends i p sent low even e, o) =
      sent_on r e (pre_sends i p true low even refl, not_done _ refl)
  complete_send-Settled r a (pre_receives p arrived low odd h e, o) =
      sent_on r e (pre_receives p arrived low odd h refl, not_done _ refl)
  complete_send-Settled r a (stage_starts i p k l at_most fits same e, o) =
      sent_on r e (stage_starts i p k l at_most fits same refl, not_done _ refl)
  complete_send-Settled r a (stage_exchanges k l sent arrived below fits same h e, o) =
      sent_on r e (stage_exchanges k l true arrived below fits same h refl, not_done _ refl)
  complete_send-Settled r a (post_starts i b m p low h e, o) =
      sent_on r e (post_starts i b m p low h refl, not_done _ refl)
  complete_send-Settled r a (post_receives i m p arrived low even h e, o) =
      sent_on r e (post_receives i m p arrived low even h refl, not_done _ refl)
  complete_send-Settled r a (post_sends i m p sent low odd e, o) =
      sent_on r e (post_sends i m p true low odd refl, not_done _ refl)
  complete_send-Settled r a (ends i m p e, o) = absurd (o (ap (λ b. b.phase) e))
  complete_send-Settled r a (has_ended i m p e, o) =
      sent_on r e (has_ended i m p refl, not_done _ refl)
