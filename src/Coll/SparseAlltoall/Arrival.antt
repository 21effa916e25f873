-- ===== src/Coll/SparseAlltoall/Arrival.antt =====
-- The messages of one source of cpp/src/coll/sparse_alltoall.cpp: when everything has come.
use rapidsmpf.Prelude.{
  ℕ, suc, ◌+◌, ◌<◌, ◌≡◌, ◌↔◌, ◌≢◌, refl, sym, ◌∙◌, ◌⊎◌, inl, inr, List, [], ◌∷◌, ◌++◌, true, false,
  Bool-cases, ◌==◌, if◌then◌else◌, arith, length, append-nil, append_assoc, ==_iff,
}
use rapidsmpf.Prelude.Result.{ok}
use rapidsmpf.Memory.Resource.{BufferResource}
use rapidsmpf.Coll.Chunk.{Chunk, is_finish, sequence, origin, deserialize}
use rapidsmpf.Coll.SparseAlltoall.{SourceState, new_source, ready}
use rapidsmpf.Coll.SparseAlltoall.Loop.{receive_from, receive_chunk}

-- `Reads br ms cs br'`: the messages are those of the chunks, and reading them takes the resource
-- from `br` to `br'`.
pub data Reads : BufferResource → List (List ℕ) → List Chunk → BufferResource → Type 0 where
  done : (br : BufferResource) → Reads br [] [] br
  next :
      {br br1 br2 : BufferResource} {m : List ℕ} {ms : List (List ℕ)} {c : Chunk} {cs : List Chunk}
      → deserialize m br ≡ ok (br1, c)
      → Reads br1 ms cs br2
      → Reads br (m ∷ ms) (c ∷ cs) br2

abbrev pub AllFrom : ℕ → List Chunk → Type 0
AllFrom src [] = Unit
AllFrom src (c ∷ cs) = (origin c ≡ src) × AllFrom src cs

-- The numbers that the finish messages carry, and the data messages.
unfoldable pub finishes : List Chunk → List ℕ
finishes [] = []
finishes (c ∷ cs) = let rest = finishes cs in if is_finish c then sequence c ∷ rest else rest

unfoldable pub data_chunks : List Chunk → List Chunk
data_chunks [] = []
data_chunks (c ∷ cs) = let rest = data_chunks cs in if is_finish c then rest else c ∷ rest

-- Where a source stands between the messages that came and `left`, of `n` in all.
IsAwaiting : ℕ → SourceState → List Chunk → Type 0
IsAwaiting n s left =
    (0 < n)
    × (s.received_count + length left ≡ n)
    × (((s.expected_count ≡ n) × (finishes left ≡ []))
        ⊎ ((s.expected_count ≡ 0) × (finishes left ≡ n ∷ [])))

abbrev after : SourceState → Chunk → SourceState
after s c =
    if is_finish c
    then record s { received_count = s.received_count + 1; expected_count = sequence c }
    else record s { received_count = s.received_count + 1; incoming = s.incoming ++ (c ∷ []) }

one_number : (m n : ℕ) (ms : List ℕ) → (m ∷ ms) ≡ (n ∷ []) → (m ≡ n) × (ms ≡ [])
one_number m n ms e = (cc, cc)

no_number : (m : ℕ) (ms : List ℕ) → (m ∷ ms) ≢ []
no_number m ms e = cc

received :
    (src n : ℕ) (s : SourceState) (c : Chunk) (left : List Chunk)
    → origin c ≡ src
    → IsAwaiting n s (c ∷ left)
    → (receive_chunk src s c ≡ ok (after s c)) × IsAwaiting n (after s c) left
unfolding receive_chunk IsAwaiting finishes
received src n s c left from (pos, count, state) =
    let home : (origin c == src) ≡ true = (==_iff _ _).1 from in
    elim (Bool-cases (is_finish c)) [
      | inl e ↦ elim (rw e at state) [
        | inl (x, f) ↦ absurd (no_number (sequence c) (finishes left) f)
        | inr (x, f) ↦
            let first : (s.expected_count == 0) ≡ true = (==_iff _ _).1 x in
            let (m, none_left) = one_number (sequence c) n (finishes left) f in
            rw (home, e, first) (refl, (pos, omega (arith, count), inl (m, none_left)))
      ]
      | inr e ↦ rw (home, e) (refl, (pos, omega (arith, count), rw e at state))
    ]

ready_early :
    (n : ℕ) (s : SourceState) (k : ℕ)
    → 0 < n
    → s.received_count + suc k ≡ n
    → (s.expected_count ≡ n) ⊎ (s.expected_count ≡ 0)
    → ready s ≢ true
unfolding ready
ready_early n s k pos count (inl x) r = ground (arith, count, x, r)
ready_early n s k pos count (inr x) r = ground (arith, x, r)

nonempty : (c : Chunk) (cs : List Chunk) → (c ∷ cs) ≢ []
nonempty c cs e = cc

-- A source that awaits more is not ready, and one that awaits nothing is.
ready-IsAwaiting :
    (n : ℕ) (s : SourceState) (left : List Chunk)
    → IsAwaiting n s left
    → (ready s ≡ true) ↔ (left ≡ [])
unfolding ready IsAwaiting finishes
ready-IsAwaiting n s [] (pos, count, inl (x, f)) = (λ _. refl, λ _. ground (arith, pos, count, x))
ready-IsAwaiting n s [] (pos, count, inr (x, f)) = absurd (no_number n [] (sym f))
ready-IsAwaiting n s (c ∷ left) (pos, count, state) = (
  λ r. absurd (ready_early n s (length left) pos count (expected state) r),
  λ e. absurd (nonempty c left e),
)
  where
    expected :
        {A B : Type 0}
        → ((s.expected_count ≡ n) × A) ⊎ ((s.expected_count ≡ 0) × B)
        → (s.expected_count ≡ n) ⊎ (s.expected_count ≡ 0)
    expected (inl (x, _)) = inl x
    expected (inr (x, _)) = inr x

after-incoming :
    (s : SourceState) (c : Chunk) (cs : List Chunk)
    → (after s c).incoming ++ data_chunks cs ≡ s.incoming ++ data_chunks (c ∷ cs)
unfolding data_chunks
after-incoming s c cs = elim (Bool-cases (is_finish c)) [
  | inl e ↦ rw e refl
  | inr e ↦ rw e (append_assoc s.incoming (c ∷ []) (data_chunks cs))
]

awaiting_not_ready :
    (n : ℕ) (s : SourceState) (c : Chunk) (cs : List Chunk)
    → IsAwaiting n s (c ∷ cs)
    → ready s ≡ false
awaiting_not_ready n s c cs awaiting = elim (Bool-cases (ready s)) [
  | inl e ↦ absurd (nonempty c cs ((ready-IsAwaiting n s (c ∷ cs) awaiting).0 e))
  | inr e ↦ e
]

some_message : (n : ℕ) (cs : List Chunk) → finishes cs ≡ n ∷ [] → 0 < length cs
unfolding finishes
some_message n [] e = absurd (no_number n [] (sym e))
some_message n (c ∷ cs) e = omega arith

receive_from-IsAwaiting :
    (src n : ℕ) (s : SourceState) (left : List Chunk) (br br' : BufferResource) (ms : List (List ℕ))
    (cs : List Chunk)
    → Reads br ms cs br'
    → AllFrom src cs
    → IsAwaiting n s (cs ++ left)
    → (s' : SourceState) × (receive_from br src s ms ≡ ok (br', s', []))
      × IsAwaiting n s' left
      × (s'.incoming ≡ s.incoming ++ data_chunks cs)
unfolding receive_from data_chunks
receive_from-IsAwaiting src n s left _ _ _ _ (done br) from awaiting =
    (s, refl, awaiting, sym (append-nil s.incoming))
receive_from-IsAwaiting src n s left _ _ _ _
      (next {br = br} {br1 = br1} {br2 = br2} {m = m} {ms = ms} {c = c} {cs = cs} e reads) from
      awaiting =
    let (got, awaiting') = received src n s c (cs ++ left) from.0 awaiting in
    let (s', run, last, incoming) =
      receive_from-IsAwaiting src n (after s c) left br1 br2 ms cs reads from.1 awaiting' in
    let busy : ready s ≡ false = awaiting_not_ready n s c (cs ++ left) awaiting in
    (s', rw (busy, e, got) run, last, incoming ∙ after-incoming s c cs)

-- When the messages of a source are read in any order, the finish message among them anywhere and
-- carrying the number of all its messages, none is refused: the data messages queue in their order,
-- and the source is ready exactly when the last message has come.
pub receive_from-ready :
    (src : ℕ) (br br' : BufferResource) (ms : List (List ℕ)) (cs left : List Chunk)
    → Reads br ms cs br'
    → AllFrom src cs
    → finishes (cs ++ left) ≡ length (cs ++ left) ∷ []
    → (s' : SourceState) × (receive_from br src new_source ms ≡ ok (br', s', []))
      × ((ready s' ≡ true) ↔ (left ≡ []))
      × (s'.incoming ≡ data_chunks cs)
unfolding IsAwaiting finishes
receive_from-ready src br br' ms cs left reads from total =
    let (s', run, awaiting, incoming) =
      receive_from-IsAwaiting src (length (cs ++ left)) new_source left br br' ms cs reads from
        (some_message _ (cs ++ left) total, omega arith, inr (refl, total)) in
    (s', run, ready-IsAwaiting (length (cs ++ left)) s' left awaiting, incoming)
