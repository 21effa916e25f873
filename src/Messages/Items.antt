-- ===== src/Messages/Items.antt =====
-- What an insertion, a spill and the two parts of an extraction of spillable_messages.cpp keep of the items.
use rapidsmpf.Prelude.{
  ℕ, ◌+◌, ◌-◌, ◌<◌, ◌≡◌, ◌≢◌, refl, sym, ap, ◌∙◌, subst, inl, inr, Option, none, some, List, [],
  ◌∷◌, true, false, arith, ltb, ltb→lt, ◌==◌, ==_iff, if◌then◌else◌, Bool-cases,
}
use rapidsmpf.Prelude.Assoc.{find, assign, erase, contains, find-assign, find-erase, contains-erase}
use rapidsmpf.Memory.Types.{ContentDescription}
use rapidsmpf.Memory.Resource.{BufferResource}
use rapidsmpf.Messages.{SpillableMessages, message_at}

-- How often an address occurs among those that threads are extracting from.
abbrev pub times : ℕ → List ℕ → ℕ
times a [] = 0
times a (b ∷ bs) = (if b == a then 1 else 0) + times a bs

abbrev pub remove_one : ℕ → List ℕ → List ℕ
remove_one a [] = []
remove_one a (b ∷ bs) = if b == a then bs else b ∷ remove_one a bs

pub times-remove_one :
    (a b : ℕ) (bs : List ℕ) → times b (remove_one a bs) ≡ times b bs - (if a == b then 1 else 0)
times-remove_one a b [] = ground arith
times-remove_one a b (c ∷ cs) = ground (arith, times-remove_one a b cs)

pub contains_of_find : (k a : ℕ) (m : List (ℕ × ℕ)) → find k m ≡ some a → contains k m ≡ true
unfolding find contains
contains_of_find k a [] e = cc
contains_of_find k a ((j, v) ∷ m) e = elim (Bool-cases (j == k)) [
  | inl s ↦ rw (s, contains) refl
  | inr s ↦ rw (s, contains) (contains_of_find k a m (rw (s, find) at e))
]

-- The messages, the buffer resource, and the addresses between the two parts of an extraction.
pub record State (M : Type 0) : Type 0 where
  pub messages : SpillableMessages M
  pub br : BufferResource
  pub extracting : List ℕ

pub data Move (M : Type 0) : Type 0 where
  inserts : M → Move M
  begins ends spills : ℕ → Move M
  updates : ℕ → ContentDescription → Move M
  clears : Move M

module _ {M : Type 0} where
  abbrev pub Holds : SpillableMessages M → ℕ → Type 0
  Holds s a = (m : M) × (message_at s a ≡ some m)

  pub message_at-assign :
      (s t : SpillableMessages M) (k b : ℕ) (v : Option M)
      → t.heap ≡ assign k v s.heap
      → message_at t b ≡ (if k == b then v else message_at s b)
  unfolding message_at
  message_at-assign s t k b v e =
      ap (λ h. elim (find b h) [ none ↦ none | some m ↦ m ]) e
      ∙ rw find-assign (elim (Bool-cases (k == b)) [ inl y ↦ rw y refl | inr n ↦ rw n refl ])

  pub message_at-same :
      (s t : SpillableMessages M) (b : ℕ) → t.heap ≡ s.heap → message_at t b ≡ message_at s b
  unfolding message_at
  message_at-same s t b e = ap (λ h. elim (find b h) [ none ↦ none | some m ↦ m ]) e

  -- Every item that is listed, and every item that is being extracted, holds its message; no item
  -- is extracted twice.
  pub record IsSound (s : SpillableMessages M) (extracting : List ℕ) : Type 0 where
    pub listed : (mid a : ℕ) → find mid s.items ≡ some a → (a ≡ mid) × (mid < s.counter) × Holds s a
    pub taken :
        (a : ℕ)
        → 0 < times a extracting
        → (a < s.counter) × (contains a s.items ≡ false) × (times a extracting ≡ 1) × Holds s a

  pub Holds-assign :
      (s t : SpillableMessages M) (k b : ℕ) (m : M)
      → t.heap ≡ assign k (some m) s.heap
      → Holds s b
      → Holds t b
  Holds-assign s t k b m e (m', h) = elim (Bool-cases (k == b)) [
    | inl y ↦ (m, message_at-assign s t k b (some m) e ∙ rw y refl)
    | inr n ↦ (m', message_at-assign s t k b (some m) e ∙ rw n h)
  ]

  -- A spill replaces the message of an item, and nothing else.
  pub replaced-IsSound :
      (s t : SpillableMessages M) (ext : List ℕ) (k : ℕ) (m : M)
      → IsSound s ext
      → t ≡ record s { heap = assign k (some m) s.heap }
      → IsSound t ext
  replaced-IsSound s t ext k m v e =
      subst (λ u. IsSound u ext) (sym e)
        (record {
          listed = λ mid a f.
              let (same, lt, h) = v.listed mid a f in
              (
                same,
                lt,
                Holds-assign s (record s { heap = assign k (some m) s.heap }) k a m refl h,
              );
          taken = λ a p.
              let (lt, c, o, h) = v.taken a p in
              (
                lt,
                c,
                o,
                Holds-assign s (record s { heap = assign k (some m) s.heap }) k a m refl h,
              );
        })

  pub extract_item-IsSound :
      (s : SpillableMessages M) (ext : List ℕ) (mid a : ℕ)
      → find mid s.items ≡ some a
      → IsSound s ext
      → IsSound
          (record s {
            items = erase mid s.items;
            content_descriptions = erase mid s.content_descriptions;
          })
          (a ∷ ext)
  extract_item-IsSound s ext mid a f v = record {
    listed = λ mid' a' f'.
        let g : find mid' s.items ≡ some a' = still mid' a' f' in
        let (same, lt, h) = v.listed mid' a' g in (same, lt, kept a' h);
    taken = λ b p. elim (Bool-cases (a == b)) [
      | inl y ↦
          let e : a ≡ b = (==_iff a b).0 y in
          let (same, lt, h) = v.listed mid a f in
          let eb : mid ≡ b = sym same ∙ e in
          (
            subst (λ z. z < s.counter) eb lt,
            contains-erase mid b s.items ∙ gone mid b eb,
            rw y (
                omega (
                  arith,
                  none_taken b (
                      subst (λ z. contains z s.items ≡ true) eb (contains_of_find mid a s.items f)),
                )),
            kept b (subst (Holds s) e h),
          )
      | inr n ↦
          let p' = rw n at p in
          let q : 0 < times b ext = omega (arith, p') in
          let (lt, c, o, h) = v.taken b q in
          (lt, contains-erase mid b s.items ∙ ground (arith, c), rw n (omega (arith, o)), kept b h)
    ];
  }
    where
      kept :
          (b : ℕ)
          → Holds s b
          → Holds
              (record s {
                items = erase mid s.items;
                content_descriptions = erase mid s.content_descriptions;
              })
              b
      kept b (m, h) = (m, message_at-same s _ b refl ∙ h)

      gone : (i j : ℕ) → i ≡ j → (if i == j then false else contains j s.items) ≡ false
      gone i j e = rw ((==_iff i j).1 e) refl

      still : (i k : ℕ) → find i (erase mid s.items) ≡ some k → find i s.items ≡ some k
      still i k e = elim (Bool-cases (mid == i)) [
        | inl y ↦ let e' = rw (find-erase, y) at e in cc
        | inr n ↦ rw (find-erase, n) at e
      ]

      none_taken : (b : ℕ) → contains b s.items ≡ true → times b ext ≡ 0
      none_taken b c = elim (Bool-cases (ltb 0 (times b ext))) [
        | inl y ↦ let (_, c', _, _) = v.taken b (ltb→lt 0 _ y) in cc
        | inr n ↦ ground arith
      ]

  pub untouched :
      (s : SpillableMessages M) (a b : ℕ)
      → (a == b) ≡ false
      → Holds s b
      → Holds (record s { heap = assign a none s.heap }) b
  untouched s a b n (m, h) = (m, message_at-assign s _ a b none refl ∙ rw n h)

  pub take_message-IsSound :
      (s : SpillableMessages M) (ext : List ℕ) (a : ℕ)
      → 0 < times a ext
      → IsSound s ext
      → IsSound (record s { heap = assign a none s.heap }) (remove_one a ext)
  take_message-IsSound s ext a p v = record {
    listed = λ mid b f.
        let (same, lt, (m, h)) = v.listed mid b f in
        let (_, c, _, _) = v.taken a p in
        let far : a ≢ b =
          λ e. different mid b f same (subst (λ z. contains z s.items ≡ false) e c) in
        (same, lt, (m, message_at-assign s _ a b none refl ∙ rw (apart a b far) h));
    taken = λ b q.
        let (_, _, once, _) = v.taken a p in
        let r = times-remove_one a b ext in
        elim (Bool-cases (a == b)) [
          | inl y ↦
              let r' = rw y at r in
              let e : times a ext ≡ times b ext = ap (λ z. times z ext) ((==_iff a b).0 y) in
              absurd (omega (arith, r', q, once, e))
          | inr n ↦
              let r' = rw n at r in
              let (lt, c, o, h) = v.taken b (omega (arith, r', q)) in
              (lt, c, omega (arith, r', o), untouched s a b n h)
        ];
  }
    where
      apart : (i j : ℕ) → i ≢ j → (i == j) ≡ false
      apart i j h = elim (Bool-cases (i == j)) [ inl e ↦ absurd (h ((==_iff i j).0 e)) | inr e ↦ e ]

      different : (mid b : ℕ) → find mid s.items ≡ some b → b ≡ mid → contains b s.items ≡ false → ⊥
      different mid b f same c =
          let t =
            subst (λ z. contains z s.items ≡ true) (sym same) (contains_of_find mid b s.items f) in
          cc
