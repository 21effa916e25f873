-- ===== src/Config/RoundTrip.antt =====
-- Options that are sent and received, cpp/src/config.cpp.
use rapidsmpf.Prelude.{
  ℕ, suc, ◌+◌, ◌-◌, ◌^◌, ◌≡◌, ◌≤◌, ◌<◌, refl, sym, ap, ◌∙◌, true, leb, ◌==◌, none, List, [], ◌∷◌,
  ◌++◌, map, length, length-append, append_assoc, append-nil, take, arith, not, leb→le, Bool-cases,
  inl, inr,
}
use rapidsmpf.Prelude.Bytes.{to_bytes, from_bytes, length-to_bytes, from_bytes-to_bytes}
use rapidsmpf.Prelude.Result.{ok, >>=-eq-ok, expects-eq-ok, ok-injective, invalid_argument}
use rapidsmpf.Config.{
  Text, Options, find, table, contents, write, slice, read_u64, prelude, prelude_size, header_size,
  max_key_len, max_value_len, max_options, max_total_size, crc32_size, crc32_compute, same_text,
  magic, data_limit, deserialize, serialize, create, add_options, add_option, from_entry, from_text,
  trim, to_lower, get_strings, data_size, sort_by_key, insert_by_key, less_text, is_parsed,
}
use rapidsmpf.Config.Wire.{
  Entries, AllSendable, Distinct, total, length-contents, le→leb, slice_at, front_length,
  length-table, read_entries-write, emplace-new,
}

module _ (es : Entries) where
  abbrev crc : ℕ
  crc = crc32_compute (contents es)

  abbrev N : List ℕ
  N = to_bytes 8 (length es)

  abbrev T : List ℕ
  T = table (header_size (length es)) es

  length-write : length (write es) ≡ header_size (length es) + total es + 4
  unfolding write header_size
  length-write = omega (
    arith,
    front_length (length es) (header_size (length es)) es (contents es ++ to_bytes 4 crc),
    length-append (contents es) (to_bytes 4 crc),
    length-contents es,
    length-to_bytes 4 crc,
  )

  at_least : prelude_size + 8 ≤ length (write es)
  unfolding header_size
  at_least = omega (arith, length-write)

  written : write es ≡ prelude ++ (N ++ (T ++ (contents es ++ to_bytes 4 crc)))
  unfolding write
  written = refl

  crc_bound : crc < 256 ^ 4
  unfolding crc32_compute
  crc_bound = omega arith

  magic_at : same_text (take 4 (write es)) magic ≡ true
  unfolding write same_text
  magic_at = refl

  version_at : from_bytes (slice (write es) 4 1) ≡ 1
  unfolding write slice from_bytes
  version_at = refl

  flags_at : from_bytes (slice (write es) 5 1) ≡ 1
  unfolding write slice from_bytes
  flags_at = refl

  count_at : length es < 256 ^ 8 → read_u64 (write es) prelude_size ≡ length es
  unfolding write read_u64
  count_at few =
      ap from_bytes (
        slice_at (write es) prelude N (T ++ (contents es ++ to_bytes 4 crc)) prelude_size 8 refl
          refl (sym (length-to_bytes 8 (length es))))
      ∙ from_bytes-to_bytes 8 (length es) few

  data_at : slice (write es) (header_size (length es)) (total es) ≡ contents es
  unfolding write header_size
  data_at =
      slice_at (write es) (prelude ++ (N ++ T)) (contents es) (to_bytes 4 crc)
        (header_size (length es)) (total es) (simp append_assoc)
        (omega (
          arith,
          length-append N T,
          length-to_bytes 8 (length es),
          length-table (header_size (length es)) es,
        ))
        (sym (length-contents es))

  crc_at : slice (write es) (header_size (length es) + total es) 4 ≡ to_bytes 4 crc
  unfolding write header_size
  crc_at =
      slice_at (write es) (prelude ++ (N ++ (T ++ contents es))) (to_bytes 4 crc) []
        (header_size (length es) + total es) 4 (simp (append_assoc, append-nil))
        (omega (
          arith,
          front_length (length es) (header_size (length es)) es (contents es),
          length-contents es,
        ))
        (sym (length-to_bytes 4 crc))

  data_limit-write :
      data_limit (write es) (header_size (length es)) 1 ≡ ok (header_size (length es) + total es)
  unfolding data_limit
  data_limit-write =
      let end : length (write es) - crc32_size ≡ header_size (length es) + total es =
        omega (arith, length-write) in
      let inner : header_size (length es) + total es - header_size (length es) ≡ total es =
        omega arith in
      let crc_read = ap from_bytes crc_at ∙ from_bytes-to_bytes 4 crc crc_bound in
      rw
        (
          le→leb (header_size (length es) + crc32_size) (length (write es))
              (omega (arith, length-write)),
          end,
          inner,
          crc_read,
          data_at,
          equal crc,
        )
        refl
    where
      equal : (n : ℕ) → (n == n) ≡ true
      equal n = ground arith

  -- What is written within the limits is read back.
  deserialize-write :
      {V : Type 0}
      → length es ≤ max_options
      → header_size (length es) + total es + 4 ≤ max_total_size
      → AllSendable es
      → Distinct [] es
      → deserialize {V = V} (write es) ≡ create es
  unfolding deserialize
  deserialize-write few small sends new =
      let count = count_at (omega arith) in
      let l = length-write in
      rw
        (
          le→leb (prelude_size + 8) (length (write es)) at_least,
          le→leb (length (write es)) max_total_size (omega arith),
          magic_at,
          version_at,
          flags_at,
          count,
          le→leb (length es) max_options few,
          le→leb (header_size (length es)) (length (write es)) (omega arith),
          data_limit-write,
          read_entries-write es (to_bytes 4 crc) (write es) written (omega arith) [] es 0 refl refl
              sends new,
        )
        refl

-- A key that the constructor leaves as it is.
abbrev pub AllNormal : Entries → Type 0
AllNormal [] = Unit
AllNormal (e ∷ es) = (to_lower (trim e.0) ≡ e.0) × AllNormal es

-- What `serialize` has checked of each option.
abbrev Bounded : Text × Text → Type 0
Bounded e = (length e.0 ≤ max_key_len) × (length e.1 ≤ max_value_len)

abbrev AllBounded : Entries → Type 0
AllBounded [] = Unit
AllBounded (e ∷ es) = Bounded e × AllBounded es

abbrev pub AllKeyed : Entries → Type 0
AllKeyed [] = Unit
AllKeyed (e ∷ es) = (0 < length e.0) × AllKeyed es

insert_by_key-AllBounded :
    (e : Text × Text) (es : Entries) → Bounded e → AllBounded es → AllBounded (insert_by_key e es)
unfolding insert_by_key
insert_by_key-AllBounded e [] b h = (b, tt)
insert_by_key-AllBounded e (f ∷ fs) b h = elim (Bool-cases (less_text f.0 e.0)) [
  | inl less ↦ rw less (h.0, insert_by_key-AllBounded e fs b h.1)
  | inr not_less ↦ rw not_less (b, h)
]

sort_by_key-AllBounded : (es : Entries) → AllBounded es → AllBounded (sort_by_key es)
unfolding sort_by_key
sort_by_key-AllBounded [] h = tt
sort_by_key-AllBounded (e ∷ es) h =
    insert_by_key-AllBounded e (sort_by_key es) h.0 (sort_by_key-AllBounded es h.1)

-- Sorting changes neither the number of entries nor their size.
insert_by_key-sizes :
    (e : Text × Text) (es : Entries)
    → (length (insert_by_key e es) ≡ suc (length es))
      × (total (insert_by_key e es) ≡ length e.0 + length e.1 + total es)
unfolding insert_by_key total
insert_by_key-sizes e [] = (refl, refl)
insert_by_key-sizes e (f ∷ fs) = elim (Bool-cases (less_text f.0 e.0)) [
  | inl less ↦ let (n, t) = insert_by_key-sizes e fs in rw less (ap suc n, omega (arith, t))
  | inr not_less ↦ rw not_less (refl, refl)
]

sort_by_key-sizes :
    (es : Entries) → (length (sort_by_key es) ≡ length es) × (total (sort_by_key es) ≡ total es)
unfolding sort_by_key total
sort_by_key-sizes [] = (refl, refl)
sort_by_key-sizes (e ∷ es) =
    let (n, t) = sort_by_key-sizes es in
    let (n', t') = insert_by_key-sizes e (sort_by_key es) in
    (omega (arith, n, n'), omega (arith, t, t'))

AllSendable_lem : (es : Entries) → AllKeyed es → AllBounded es → AllSendable es
AllSendable_lem [] k b = tt
AllSendable_lem (e ∷ es) k b = ((k.0, b.0.0, b.0.1), AllSendable_lem es k.1 b.1)

module _ {V : Type 0} where
  abbrev pub options_of : Entries → Options V
  options_of es = map from_entry es

  find-options_of : (k : Text) (es : Entries) → find k es ≡ none → find k (options_of es) ≡ none
  unfolding find
  find-options_of k [] h = refl
  find-options_of k (e ∷ es) h = elim (Bool-cases (same_text e.0 k)) [
    | inl same ↦ absurd (let w = rw same at h in cc)
    | inr other ↦ rw other (find-options_of k es (rw other at h))
  ]

  options_of-append : (xs ys : Entries) → options_of (xs ++ ys) ≡ options_of xs ++ options_of ys
  options_of-append [] ys = refl
  options_of-append (x ∷ xs) ys = ap (λ m. from_entry x ∷ m) (options_of-append xs ys)

  add_options-options_of :
      (xs ys : Entries)
      → AllNormal ys
      → Distinct xs ys
      → add_options (options_of xs) (options_of ys) ≡ ok (options_of (xs ++ ys))
  unfolding add_options add_option
  add_options-options_of xs [] n d = ap (λ m. ok (options_of m)) (sym (append-nil xs))
  add_options-options_of xs (e ∷ ys) n d =
      let new = emplace-new e.0 (from_text e.1) (options_of xs) (find-options_of e.0 xs d.0) in
      rw (n.0, new.1, new.0)
        (ap (λ m. add_options m (options_of ys)) (sym (options_of-append xs (e ∷ [])))
          ∙ (add_options-options_of (xs ++ e ∷ []) ys n.1 d.1
              ∙ ap (λ m. ok (options_of m)) (append_assoc xs (e ∷ []) ys)))

  data_size-total :
      (opts : Options V) (n : ℕ)
      → data_size opts ≡ ok n
      → AllBounded (get_strings opts) × (n ≡ total (get_strings opts))
  unfolding data_size get_strings total
  data_size-total [] n e = (tt, sym (ok-injective e))
  data_size-total ((key, o) ∷ opts) n e =
      let (short_key, e1) = expects-eq-ok (leb (length key) max_key_len) invalid_argument _ e in
      let (unparsed, e2) = expects-eq-ok (not (is_parsed o.value)) invalid_argument _ e1 in
      let (short_value, e3) =
        expects-eq-ok (leb (length o.value_as_string) max_value_len) invalid_argument _ e2 in
      let (rest, f, e4) = >>=-eq-ok (data_size opts) _ e3 in
      let (all, sum) = data_size-total opts rest f in
      (((leb→le _ _ short_key, leb→le _ _ short_value), all), omega (arith, ok-injective e4, sum))

  length-get_strings : (opts : Options V) → length (get_strings opts) ≡ length opts
  unfolding get_strings
  length-get_strings [] = refl
  length-get_strings (o ∷ opts) = ap suc (length-get_strings opts)

  created : (es : Entries) → AllNormal es → Distinct [] es → create {V = V} es ≡ ok (options_of es)
  unfolding create
  created es normal distinct = add_options-options_of [] es normal distinct

  -- Options that `serialize` accepts come back with the texts that they had, sorted by their keys,
  -- where no key is empty, each is in the form that the constructor makes, and no two are equal.
  pub deserialize-serialize_options :
      (opts : Options V) (bytes : List ℕ)
      → AllKeyed (sort_by_key (get_strings opts))
      → AllNormal (sort_by_key (get_strings opts))
      → Distinct [] (sort_by_key (get_strings opts))
      → serialize opts ≡ ok bytes
      → deserialize {V = V} bytes ≡ ok (options_of (sort_by_key (get_strings opts)))
  unfolding serialize
  deserialize-serialize_options opts bytes keyed normal distinct e =
      let es = sort_by_key (get_strings opts) in
      let (few, e1) = expects-eq-ok (leb (length opts) max_options) invalid_argument _ e in
      let (n, sized, e2) = >>=-eq-ok (data_size opts) _ e1 in
      let (small, e3) =
        expects-eq-ok (leb (header_size (length opts) + n + crc32_size) max_total_size)
          invalid_argument _ e2 in
      let (bounded, sum) = data_size-total opts n sized in
      let (same_length, same_total) = sort_by_key-sizes (get_strings opts) in
      let l : length es ≡ length opts = same_length ∙ length-get_strings opts in
      let t : n ≡ total es = sum ∙ sym same_total in
      let fits : header_size (length es) + total es + 4 ≤ max_total_size =
        rw (l, sym t) (leb→le _ _ small) in
      ap (deserialize {V = V}) (sym (ok-injective e3))
      ∙ (deserialize-write es (omega (arith, leb→le _ _ few, l)) fits
            (AllSendable_lem es keyed (sort_by_key-AllBounded (get_strings opts) bounded)) distinct
          ∙ created es normal distinct)
