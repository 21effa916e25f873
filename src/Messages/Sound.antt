-- ===== src/Messages/Sound.antt =====
-- Threads that insert, spill, extract and clear messages of spillable_messages.cpp at the same time.
use rapidsmpf.Prelude.{
  ℕ, ◌+◌, ◌^◌, ◌<◌, ◌≡◌, refl, sym, ap, ◌∙◌, subst, inl, inr, Option, none, some, List, ◌∷◌, false,
  not, ◌||◌, arith, ltb, ltb→lt, ◌==◌, ==_iff, if◌then◌else◌, Bool-cases, Option-cases,
}
use rapidsmpf.Prelude.Result.{Result, ok, err, >>=-eq-ok, ok-injective, Result-cases}
use rapidsmpf.Prelude.Assoc.{find, assign, contains, find-assign, contains-assign, contains-find}
use rapidsmpf.Memory.Types.{ContentDescription, device, spill_target_memory_types}
use rapidsmpf.Memory.Resource.{BufferResource, reserve_or_fail}
use rapidsmpf.Messages.{
  SpillableMessages, MessageType, insert, insert_new, extract_item, message_at, take_message,
  spill_item, update_description, clear,
}
use rapidsmpf.Messages.Items.{
  times, remove_one, State, Move, inserts, begins, ends, spills, updates, clears, IsSound,
  Holds-assign, message_at-assign, message_at-same, replaced-IsSound, extract_item-IsSound,
  take_message-IsSound,
}

module _ {M : Type 0} where
  -- An item that is being extracted has its message: taking it never throws.
  take_message-ok :
      (s : SpillableMessages M) (ext : List ℕ) (a : ℕ)
      → IsSound s ext
      → 0 < times a ext
      → (m : M) × (take_message s a ≡ ok (record s { heap = assign a none s.heap }, m))
  unfolding take_message
  take_message-ok s ext a v p =
      let (_, _, _, (m, h)) = v.taken a p in (m, rw (h, take_message) refl)

  unlisted :
      (s : SpillableMessages M) (ext : List ℕ) → IsSound s ext → contains s.counter s.items ≡ false
  unlisted s ext v = elim (Bool-cases (contains s.counter s.items)) [
    | inl y ↦
        let (a, f) = contains-find s.counter s.items y in
        let (_, lt, _) = v.listed s.counter a f in absurd (omega (arith, lt))
    | inr n ↦ n
  ]

  added-IsSound :
      (s t : SpillableMessages M) (ext : List ℕ) (m : M)
      → IsSound s ext
      → t.counter ≡ s.counter + 1
      → t.items ≡ assign s.counter s.counter s.items
      → t.heap ≡ assign s.counter (some m) s.heap
      → IsSound t ext
  added-IsSound s t ext m v ec ei eh = record {
    listed = λ mid a f.
        let f' : (if s.counter == mid then some s.counter else find mid s.items) ≡ some a =
          sym (find-assign s.counter mid s.counter s.items) ∙ ap (find mid) (sym ei) ∙ f in
        elim (Bool-cases (s.counter == mid)) [
          | inl y ↦
              let g = rw y at f' in
              let e : s.counter ≡ mid = (==_iff _ _).0 y in
              let ea : s.counter ≡ a = cc in
              (
                sym ea ∙ e,
                omega (arith, ec, e),
                (
                  m,
                  message_at-assign s t s.counter a (some m) eh
                      ∙ rw ((==_iff s.counter a).1 ea) refl,
                ),
              )
          | inr n ↦
              let g = rw n at f' in
              let (same, lt, h) = v.listed mid a g in
              (same, omega (arith, ec, lt), Holds-assign s t s.counter a m eh h)
        ];
    taken = λ a p.
        let (lt, c, o, h) = v.taken a p in
        (
          omega (arith, ec, lt),
          ap (contains a) ei
              ∙ contains-assign s.counter a s.counter s.items
              ∙ rw (less_apart s.counter a lt) c,
          o,
          Holds-assign s t s.counter a m eh h,
        );
  }
    where
      less_apart : (i j : ℕ) → j < i → (i == j) ≡ false
      less_apart i j h = ground arith

module _ {M : Type 0} (x : MessageType M) where
  insert-IsSound :
      (s : SpillableMessages M) (ext : List ℕ) (m : M)
      → s.counter + 1 < 2 ^ 64
      → IsSound s ext
      → IsSound (insert x s m).0 ext
  unfolding insert insert_new
  insert-IsSound s ext m small v =
      added-IsSound s (insert x s m).0 ext m v (omega arith) (rw (unlisted s ext v) refl) refl

  spill_item-IsSound :
      (s s' : SpillableMessages M) (ext : List ℕ) (br br' : BufferResource) (a : ℕ)
      (o : Option (ContentDescription × ℕ))
      → spill_item x s br a ≡ ok (s', br', o)
      → IsSound s ext
      → IsSound s' ext
  unfolding spill_item
  spill_item-IsSound s s' ext br br' a o e v = elim (Option-cases (message_at s a)) [
    | inl q ↦
        let e' = rw (q, spill_item) at e in
        subst (λ u. IsSound u ext) (ap (λ z. z.0) (ok-injective e')) v
    | inr (m, q) ↦
        let e' = rw (q, spill_item) at e in
        elim (Bool-cases (
          not (x.content_description m).spillable
          || (x.content_description m).content_sizes device == 0)) [
            | inl c ↦
                let e2 = rw c at e' in
                subst (λ u. IsSound u ext) (ap (λ z. z.0) (ok-injective e2)) v
            | inr c ↦
                let e2 = rw c at e' in
                let ((br1, r), _, e3) =
                  >>=-eq-ok (reserve_or_fail br (x.copy_cost m) spill_target_memory_types) _ e2 in
                let ((br2, m'), _, e4) = >>=-eq-ok (x.move br1 m r) _ e3 in
                replaced-IsSound s s' ext a m' v (sym (ap (λ z. z.0) (ok-injective e4)))
          ]
  ]

  begun : State M → Result (SpillableMessages M × ℕ) → State M
  begun t (ok (s, a)) = record t { messages = s; extracting = a ∷ t.extracting }
  begun t (err e) = t

  ended : State M → ℕ → Result (SpillableMessages M × M) → State M
  ended t a (ok (s, m)) = record t { messages = s; extracting = remove_one a t.extracting }
  ended t a (err e) = t

  spilled :
      State M
      → Result (SpillableMessages M × BufferResource × Option (ContentDescription × ℕ))
      → State M
  spilled t (ok (s, br, _)) = record t { messages = s; br = br }
  spilled t (err e) = t

  -- What some thread does while it holds a lock. A second part of an extraction comes after a first.
  unfoldable pub step : State M → Move M → State M
  unfolding begun ended spilled
  step t (inserts m) = record t { messages = (insert x t.messages m).0 }
  step t (begins mid) = begun t (extract_item t.messages mid)
  step t (ends a) =
      if ltb 0 (times a t.extracting) then ended t a (take_message t.messages a) else t
  step t (spills a) = spilled t (spill_item x t.messages t.br a)
  step t (updates mid cd) = record t { messages = update_description t.messages mid cd }
  step t clears = record t { messages = clear t.messages }

  updated-IsSound :
      (s : SpillableMessages M) (ext : List ℕ) (mid : ℕ) (cd : ContentDescription)
      → IsSound s ext
      → IsSound (update_description s mid cd) ext
  unfolding update_description
  updated-IsSound s ext mid cd v = elim (Bool-cases (contains mid s.content_descriptions)) [
    | inr n ↦ rw (n, update_description) v
    | inl y ↦
        rw (y, update_description)
          (record {
            listed = λ i a f.
                let (same, lt, (m, h)) = v.listed i a f in
                (same, lt, (m, message_at-same s _ a refl ∙ h));
            taken = λ a p.
                let (lt, c, o, (m, h)) = v.taken a p in
                (lt, c, o, (m, message_at-same s _ a refl ∙ h));
          })
  ]

  cleared-IsSound : (s : SpillableMessages M) (ext : List ℕ) → IsSound s ext → IsSound (clear s) ext
  unfolding clear find contains
  cleared-IsSound s ext v = record {
    listed = λ i a f. cc;
    taken = λ a p.
        let (lt, _, o, (m, h)) = v.taken a p in (lt, refl, o, (m, message_at-same s _ a refl ∙ h));
  }

  begun-IsSound :
      (t : State M) (mid : ℕ)
      → IsSound t.messages t.extracting
      → IsSound
          (begun t (extract_item t.messages mid)).messages
          (begun t (extract_item t.messages mid)).extracting
  unfolding begun extract_item
  begun-IsSound t mid v = elim (Option-cases (find mid t.messages.items)) [
    | inl q ↦ rw (q, extract_item) v
    | inr (a, q) ↦ rw (q, extract_item) (extract_item-IsSound t.messages t.extracting mid a q v)
  ]

  moved :
      (t : State M) (move : Move M)
      → t.messages.counter + 1 < 2 ^ 64
      → IsSound t.messages t.extracting
      → IsSound (step t move).messages (step t move).extracting
  unfolding step begun ended spilled
  moved t (inserts m) small v = insert-IsSound t.messages t.extracting m small v
  moved t (begins mid) small v = begun-IsSound t mid v
  moved t (ends a) small v = elim (Bool-cases (ltb 0 (times a t.extracting))) [
    | inr n ↦ rw (n, step) v
    | inl y ↦
        let (m, e) = take_message-ok t.messages t.extracting a v (ltb→lt 0 _ y) in
        rw (y, step)
          (rw (e, ended) (take_message-IsSound t.messages t.extracting a (ltb→lt 0 _ y) v))
  ]
  moved t (spills a) small v = elim (Result-cases (spill_item x t.messages t.br a)) [
    | inl ((s, br, o), e) ↦
        rw (e, spilled) (spill_item-IsSound t.messages s t.extracting t.br br a o e v)
    | inr (w, e) ↦ rw (e, spilled) v
  ]
  moved t (updates mid cd) small v = updated-IsSound t.messages t.extracting mid cd v
  moved t clears small v = cleared-IsSound t.messages t.extracting v

  -- Threads that insert, spill, describe, extract and clear messages may interleave in any way: no
  -- item is extracted twice, and every item that is listed or being extracted keeps a message, so
  -- that an extraction that has found its item never throws; until 2 ^ 64 - 1 ids are used up.
  pub step-IsSound :
      (t : State M) (move : Move M)
      → t.messages.counter + 1 < 2 ^ 64
      → IsSound t.messages t.extracting
      → IsSound (step t move).messages (step t move).extracting
        × ((a : ℕ)
            → 0 < times a (step t move).extracting
            → (m : M) × (s : SpillableMessages M) × (take_message (step t move).messages a
                ≡ ok (s, m)))
  step-IsSound t move small v =
      let w = moved t move small v in
      (
        w,
        λ a p.
            let (m, e) = take_message-ok (step t move).messages (step t move).extracting a w p in
            (m, _, e),
      )
