-- ===== src/Config/Wire.antt =====
-- The binary form of the options, cpp/src/config.cpp: what is written can be read.
use rapidsmpf.Prelude.{
  ℕ, ◌+◌, ◌-◌, ◌*◌, ◌^◌, ◌≡◌, ◌≤◌, ◌<◌, refl, sym, ap, ◌∙◌, true, false, ltb, leb, if◌then◌else◌,
  none, List, [], ◌∷◌, ◌++◌, length, length-append, append_assoc, append-nil, take, arith,
}
use rapidsmpf.Prelude.Bytes.{
  to_bytes, from_bytes, length-to_bytes, from_bytes-to_bytes, take-length-append,
  drop-length-append,
}
use rapidsmpf.Prelude.Result.{ok}
use rapidsmpf.Config.{
  Text, find, emplace, emplace_found, table, contents, slice, read_u64, key_offset, value_offset,
  read_entry, read_entries, prelude, prelude_size, header_size, max_key_len, max_value_len,
}

pub le→leb : (a b : ℕ) → a ≤ b → leb a b ≡ true
le→leb a b h = ground arith

lt→ltb : (a b : ℕ) → a < b → ltb a b ≡ true
lt→ltb a b h = ground arith

-- The bytes of the keys and values.
unfoldable pub total : List (Text × Text) → ℕ
total [] = 0
total (e ∷ es) = length e.0 + length e.1 + total es

abbrev pub Entries : Type 0
Entries = List (Text × Text)

total-append : (xs ys : Entries) → total (xs ++ ys) ≡ total xs + total ys
unfolding total
total-append [] ys = omega arith
total-append (x ∷ xs) ys = omega (arith, total-append xs ys)

pub length-contents : (es : Entries) → length (contents es) ≡ total es
unfolding contents total
length-contents [] = refl
length-contents (e ∷ es) = omega (
  arith,
  length-append e.0 (e.1 ++ contents es),
  length-append e.1 (contents es),
  length-contents es,
)

contents-append : (xs ys : Entries) → contents (xs ++ ys) ≡ contents xs ++ contents ys
unfolding contents
contents-append [] ys = refl
contents-append (x ∷ xs) ys = simp (contents-append xs ys, append_assoc)

pub length-table : (o : ℕ) (es : Entries) → length (table o es) ≡ 16 * length es
unfolding table
length-table o [] = omega arith
length-table o (e ∷ es) = omega (
  arith,
  length-append (to_bytes 8 o)
      (to_bytes 8 (o + length e.0) ++ table (o + length e.0 + length e.1) es),
  length-append (to_bytes 8 (o + length e.0)) (table (o + length e.0 + length e.1) es),
  length-to_bytes 8 o,
  length-to_bytes 8 (o + length e.0),
  length-table (o + length e.0 + length e.1) es,
)

table-append :
    (o : ℕ) (xs ys : Entries) → table o (xs ++ ys) ≡ table o xs ++ table (o + total xs) ys
unfolding table total
table-append o [] ys = let e : o + 0 ≡ o = omega arith in rw e refl
table-append o (x ∷ xs) ys =
    let e : o + length x.0 + length x.1 + total xs ≡ o + (length x.0 + length x.1 + total xs) =
      omega arith in
    simp (table-append (o + length x.0 + length x.1) xs ys, append_assoc, e)

-- The bytes that stand behind others.
pub slice_at :
    (buffer a m b : List ℕ) (pos n : ℕ)
    → buffer ≡ a ++ (m ++ b)
    → pos ≡ length a
    → n ≡ length m
    → slice buffer pos n ≡ m
unfolding slice
slice_at buffer a m b pos n e p q =
    rw (e, p, q) (ap (take (length m)) (drop-length-append a (m ++ b)) ∙ take-length-append m b)

-- What can be sent: a key that is not empty, and texts within the limits.
abbrev pub Sendable : Text × Text → Type 0
Sendable e = (0 < length e.0) × (length e.0 ≤ max_key_len) × (length e.1 ≤ max_value_len)

abbrev pub AllSendable : Entries → Type 0
AllSendable [] = Unit
AllSendable (e ∷ es) = Sendable e × AllSendable es

-- No key is among those before it.
abbrev pub Distinct : Entries → Entries → Type 0
Distinct xs [] = Unit
Distinct xs (e ∷ ys) = (find e.0 xs ≡ none) × Distinct (xs ++ e ∷ []) ys

pub emplace-new {ℓ} :
    {A : Type ℓ} (k : Text) (a : A) (m : List (Text × A))
    → find k m ≡ none
    → ((emplace k a m).0 ≡ m ++ (k, a) ∷ []) × ((emplace k a m).1 ≡ true)
unfolding emplace
emplace-new k a m e = (ap (λ o. (emplace_found o k a m).0) e, ap (λ o. (emplace_found o k a m).1) e)

not_below : (a b : ℕ) → b ≤ a → ltb a b ≡ false
not_below a b h = ground arith

-- Regrouping of the buffer at the part that is read.
regroup :
    (p n t a r s : List ℕ) → p ++ (n ++ ((t ++ (a ++ r)) ++ s)) ≡ (p ++ (n ++ t)) ++ (a ++ (r ++ s))
regroup p n t a r s = simp append_assoc

regroup_second :
    (p n t a b r s : List ℕ)
    → p ++ (n ++ ((t ++ (a ++ (b ++ r))) ++ s)) ≡ (p ++ (n ++ (t ++ a))) ++ (b ++ (r ++ s))
regroup_second p n t a b r s = simp append_assoc

regroup_data :
    (p n t c a r s : List ℕ)
    → p ++ (n ++ (t ++ ((c ++ (a ++ r)) ++ s))) ≡ (p ++ (n ++ (t ++ c))) ++ (a ++ (r ++ s))
regroup_data p n t c a r s = simp append_assoc

regroup_data_second :
    (p n t c a b r s : List ℕ)
    → p ++ (n ++ (t ++ ((c ++ (a ++ (b ++ r))) ++ s)))
      ≡ (p ++ (n ++ (t ++ (c ++ a)))) ++ (b ++ (r ++ s))
regroup_data_second p n t c a b r s = simp append_assoc

-- The table and the data where an entry stands.
table_split :
    (o : ℕ) (es xs : Entries) (e : Text × Text) (ys : Entries)
    → es ≡ xs ++ e ∷ ys
    → table o es
      ≡ table o xs
        ++ (to_bytes 8 (o + total xs)
            ++ (to_bytes 8 (o + total xs + length e.0)
                ++ table (o + total xs + length e.0 + length e.1) ys))
unfolding table
table_split o es xs e ys split = ap (table o) split ∙ table-append o xs (e ∷ ys)

contents_split :
    (es xs : Entries) (e : Text × Text) (ys : Entries)
    → es ≡ xs ++ e ∷ ys
    → contents es ≡ contents xs ++ (e.0 ++ (e.1 ++ contents ys))
unfolding contents
contents_split es xs e ys split = ap contents split ∙ contents-append xs (e ∷ ys)

total_split :
    (es xs : Entries) (e : Text × Text) (ys : Entries)
    → es ≡ xs ++ e ∷ ys
    → total es ≡ total xs + (length e.0 + length e.1 + total ys)
unfolding total
total_split es xs e ys split = ap total split ∙ total-append xs (e ∷ ys)

-- The offset of what stands in the table, and in the data.
pub front_length :
    (n o : ℕ) (xs : Entries) (m : List ℕ)
    → length (prelude ++ (to_bytes 8 n ++ (table o xs ++ m))) ≡ 16 + 16 * length xs + length m
front_length n o xs m = omega (
  arith,
  length-append (to_bytes 8 n) (table o xs ++ m),
  length-to_bytes 8 n,
  length-append (table o xs) m,
  length-table o xs,
)

module _ (es : Entries) (trailer : List ℕ) (buffer : List ℕ)
    (is_buffer : buffer
      ≡ prelude
        ++ (to_bytes 8 (length es)
            ++ (table (header_size (length es)) es ++ (contents es ++ trailer))))
    (small : header_size (length es) + total es < 256 ^ 8) where
  abbrev pub header : ℕ
  header = header_size (length es)

  abbrev pub limit : ℕ
  limit = header_size (length es) + total es

  key_at :
      (xs : Entries) (e : Text × Text) (ys : Entries)
      → es ≡ xs ++ e ∷ ys
      → key_offset buffer (length xs) ≡ header + total xs
  unfolding key_offset read_u64
  key_at xs e ys split =
      let k = header + total xs in
      let N = to_bytes 8 (length es) in
      let r = to_bytes 8 (k + length e.0) ++ table (k + length e.0 + length e.1) ys in
      let fits : k < 256 ^ 8 = omega (arith, total_split es xs e ys split) in
      let whole =
        is_buffer
        ∙ (ap (λ t. prelude ++ (N ++ (t ++ (contents es ++ trailer))))
              (table_split header es xs e ys split)
            ∙ regroup prelude N (table header xs) (to_bytes 8 k) r (contents es ++ trailer)) in
      let place : prelude_size + (1 + 2 * length xs) * 8
          ≡ length (prelude ++ (N ++ table header xs)) =
        omega (
          arith,
          length-append N (table header xs),
          length-to_bytes 8 (length es),
          length-table header xs,
        ) in
      ap from_bytes (
        slice_at buffer (prelude ++ (N ++ table header xs)) (to_bytes 8 k)
          (r ++ (contents es ++ trailer)) (prelude_size + (1 + 2 * length xs) * 8) 8 whole place
          (sym (length-to_bytes 8 k)))
      ∙ from_bytes-to_bytes 8 k fits

  value_at :
      (xs : Entries) (e : Text × Text) (ys : Entries)
      → es ≡ xs ++ e ∷ ys
      → value_offset buffer (length xs) ≡ header + total xs + length e.0
  unfolding value_offset read_u64
  value_at xs e ys split =
      let k = header + total xs in
      let v = k + length e.0 in
      let N = to_bytes 8 (length es) in
      let r = table (k + length e.0 + length e.1) ys in
      let fits : v < 256 ^ 8 = omega (arith, total_split es xs e ys split) in
      let whole =
        is_buffer
        ∙ (ap (λ t. prelude ++ (N ++ (t ++ (contents es ++ trailer))))
              (table_split header es xs e ys split)
            ∙ regroup_second prelude N (table header xs) (to_bytes 8 k) (to_bytes 8 v) r
                (contents es ++ trailer)) in
      let place : prelude_size + (1 + 2 * length xs + 1) * 8
          ≡ length (prelude ++ (N ++ (table header xs ++ to_bytes 8 k))) =
        omega (arith, front_length (length es) header xs (to_bytes 8 k), length-to_bytes 8 k) in
      ap from_bytes (
        slice_at buffer (prelude ++ (N ++ (table header xs ++ to_bytes 8 k))) (to_bytes 8 v)
          (r ++ (contents es ++ trailer)) (prelude_size + (1 + 2 * length xs + 1) * 8) 8 whole place
          (sym (length-to_bytes 8 v)))
      ∙ from_bytes-to_bytes 8 v fits

  key_text :
      (xs : Entries) (e : Text × Text) (ys : Entries) (n : ℕ)
      → es ≡ xs ++ e ∷ ys
      → n ≡ length e.0
      → slice buffer (header + total xs) n ≡ e.0
  unfolding header_size
  key_text xs e ys n split same =
      let N = to_bytes 8 (length es) in
      slice_at buffer (prelude ++ (N ++ (table header es ++ contents xs))) e.0
        ((e.1 ++ contents ys) ++ trailer) (header + total xs) n
        (is_buffer
          ∙ (ap (λ c. prelude ++ (N ++ (table header es ++ (c ++ trailer))))
                (contents_split es xs e ys split)
              ∙ regroup_data prelude N (table header es) (contents xs) e.0 (e.1 ++ contents ys)
                  trailer))
        (omega (arith, front_length (length es) header es (contents xs), length-contents xs)) same

  value_text :
      (xs : Entries) (e : Text × Text) (ys : Entries) (n : ℕ)
      → es ≡ xs ++ e ∷ ys
      → n ≡ length e.1
      → slice buffer (header + total xs + length e.0) n ≡ e.1
  unfolding header_size
  value_text xs e ys n split same =
      let N = to_bytes 8 (length es) in
      slice_at buffer (prelude ++ (N ++ (table header es ++ (contents xs ++ e.0)))) e.1
        (contents ys ++ trailer) (header + total xs + length e.0) n
        (is_buffer
          ∙ (ap (λ c. prelude ++ (N ++ (table header es ++ (c ++ trailer))))
                (contents_split es xs e ys split)
              ∙ regroup_data_second prelude N (table header es) (contents xs) e.0 e.1 (contents ys)
                  trailer))
        (omega (
          arith,
          front_length (length es) header es (contents xs ++ e.0),
          length-append (contents xs) e.0,
          length-contents xs,
        ))
        same

  -- An entry of the table that ends where the next one begins.
  entry_at :
      (xs : Entries) (e : Text × Text) (ys : Entries)
      → es ≡ xs ++ e ∷ ys
      → Sendable e
      → read_entry buffer header limit
          (header + total xs)
          (header + total xs + length e.0)
          (header + total xs + length e.0 + length e.1)
        ≡ ok e
  unfolding read_entry
  entry_at xs e ys split (some_key, short_key, short_value) =
      let k = header + total xs in
      let v = k + length e.0 in
      let room = total_split es xs e ys split in
      let key_size : v - k ≡ length e.0 = omega arith in
      let value_size : v + length e.1 - v ≡ length e.1 = omega arith in
      rw
        (
          key_size,
          value_size,
          le→leb header k (omega arith),
          le→leb header v (omega arith),
          lt→ltb k v (omega arith),
          le→leb v (v + length e.1) (omega arith),
          lt→ltb k limit (omega (arith, room)),
          le→leb v limit (omega (arith, room)),
          le→leb (length e.0) max_key_len short_key,
          le→leb (length e.1) max_value_len short_value,
          le→leb (v + length e.1) limit (omega (arith, room)),
          key_text xs e ys (length e.0) split refl,
          value_text xs e ys (length e.1) split refl,
        )
        refl

  -- Where the value of an entry ends.
  next_at :
      (xs : Entries) (e : Text × Text) (ys : Entries) (i : ℕ)
      → es ≡ xs ++ e ∷ ys
      → i ≡ length xs
      → (if ltb (i + 1) (length es) then key_offset buffer (i + 1) else limit)
        ≡ header + total xs + length e.0 + length e.1
  unfolding total
  next_at xs e [] i split at =
      let n = ap length split ∙ length-append xs (e ∷ []) in
      let last : ltb (i + 1) (length es) ≡ false =
        not_below (i + 1) (length es) (omega (arith, n)) in
      rw last (omega (arith, total_split es xs e [] split))
  next_at xs e (f ∷ ys) i split at =
      let n = ap length split ∙ length-append xs (e ∷ f ∷ ys) in
      let more : ltb (i + 1) (length es) ≡ true = lt→ltb (i + 1) (length es) (omega (arith, n)) in
      let place : i + 1 ≡ length (xs ++ e ∷ []) = omega (arith, length-append xs (e ∷ [])) in
      rw more (
        ap (key_offset buffer) place
        ∙ (key_at (xs ++ e ∷ []) f ys (split ∙ sym (append_assoc xs (e ∷ []) (f ∷ ys)))
            ∙ omega (arith, total-append xs (e ∷ []))))

  pub read_entries-write :
      (xs ys : Entries) (i : ℕ)
      → es ≡ xs ++ ys
      → i ≡ length xs
      → AllSendable ys
      → Distinct xs ys
      → read_entries buffer header limit (length es) (length ys) i xs ≡ ok es
  unfolding read_entries
  read_entries-write xs [] i split at sends new = ap ok (sym (append-nil xs) ∙ sym split)
  read_entries-write xs (e ∷ ys) i split at sends new =
      let k = ap (key_offset buffer) at ∙ key_at xs e ys split in
      let v = ap (value_offset buffer) at ∙ value_at xs e ys split in
      let rest =
        read_entries-write (xs ++ e ∷ []) ys (i + 1) (split ∙ sym (append_assoc xs (e ∷ []) ys))
          (omega (arith, length-append xs (e ∷ []))) sends.1 new.1 in
      rw (k, v, next_at xs e ys i split at, entry_at xs e ys split sends.0)
        (ap (λ acc. read_entries buffer header limit (length es) (length ys) (i + 1) acc)
            (emplace-new e.0 e.1 xs new.0).0
          ∙ rest)
