-- ===== src/Shuffler/Chunk/Wire.antt =====
-- The wire format of chunk.cpp: what is sent is what is read.
use rapidsmpf.Prelude.{
  ℕ, ◌+◌, ◌^◌, ◌<◌, ◌≡◌, ◌≢◌, zero, suc, Bool-cases, inl, inr, subst, ==_iff, ◌&&◌, refl, ap, ◌∙◌,
  Option, none, some, List, [], ◌∷◌, ◌++◌, false, not, ltb, ◌==◌, arith, length, drop, take,
  length-append,
}
use rapidsmpf.Prelude.Bytes.{
  to_bytes, from_bytes, read-to_bytes, length-to_bytes, from_bytes-to_bytes, take-length-append,
}
use rapidsmpf.Prelude.Result.{ok}
use rapidsmpf.Memory.Resource.{BufferResource}
use rapidsmpf.Memory.Buffer.{Buffer}
use rapidsmpf.Shuffler.Chunk.{
  Chunk, serialize, metadata_bytes, read_header, deserialize, attach, validate_format,
  metadata_message_header_size,
}

-- Every field fits its type.
pub record IsWire (c : Chunk) : Type 0 where
  pub id_fits : c.chunk_id < 2 ^ 64
  pub part_fits : c.part_id < 2 ^ 32
  pub expected_fits : c.expected_num_chunks < 2 ^ 64
  pub metadata_fits : c.metadata_size < 2 ^ 32
  pub size_fits : c.data_size < 2 ^ 64

-- What a message carries of a chunk: all but the payload, and a null metadata vector arrives as an
-- empty one.
unfoldable pub carried : Chunk → Chunk
carried c = record c { metadata = some (metadata_bytes c.metadata); payload = none }

read_header-serialize :
    (c : Chunk) → IsWire c → read_header (serialize c).0 ≡ ok (carried c, metadata_bytes c.metadata)
unfolding read_header serialize carried
read_header-serialize c v =
    let m = metadata_bytes c.metadata in
    let r5 = to_bytes 8 c.data_size ++ m in
    let r4 = to_bytes 4 c.metadata_size ++ r5 in
    let r3 = to_bytes 8 c.expected_num_chunks ++ r4 in
    let r2 = to_bytes 4 c.part_id ++ r3 in
    rw
      (
        read-to_bytes 8 c.chunk_id r2 v.id_fits,
        read-to_bytes 4 c.part_id r3 v.part_fits,
        read-to_bytes 8 c.expected_num_chunks r4 v.expected_fits,
        read-to_bytes 4 c.metadata_size r5 v.metadata_fits,
        read-to_bytes 8 c.data_size m v.size_fits,
      )
      refl

length-serialize : (c : Chunk) → length (serialize c).0 ≡ 32 + length (metadata_bytes c.metadata)
unfolding serialize
length-serialize c = simp (length-append, length-to_bytes) (omega arith)

drop_past {ℓ} :
    {A : Type ℓ} (xs ys : List A) (n k : ℕ) → length xs + k ≡ n → drop n (xs ++ ys) ≡ drop k ys
drop_past [] ys n k e = ap (λ j. drop j ys) (omega (arith, e))
drop_past (x ∷ xs) ys zero k e = absurd (omega (arith, e))
drop_past (x ∷ xs) ys (suc n) k e = drop_past xs ys n k (omega (arith, e))

take_field : (w n : ℕ) (rest : List ℕ) → take w (to_bytes w n ++ rest) ≡ to_bytes w n
take_field w n rest =
    subst (λ k. take k (to_bytes w n ++ rest) ≡ to_bytes w n) (length-to_bytes w n)
      (take-length-append (to_bytes w n) rest)

-- The size field stands behind the id, the partition and the expected number of chunks.
size_field :
    (c : Chunk)
    → drop 20 (serialize c).0
      ≡ to_bytes 4 c.metadata_size ++ (to_bytes 8 c.data_size ++ metadata_bytes c.metadata)
unfolding serialize
size_field c =
    drop_past (to_bytes 8 c.chunk_id) _ 20 12 (omega (arith, length-to_bytes 8 c.chunk_id))
    ∙ drop_past (to_bytes 4 c.part_id) _ 12 8 (omega (arith, length-to_bytes 4 c.part_id))
    ∙ drop_past (to_bytes 8 c.expected_num_chunks) _ 8 0
        (omega (arith, length-to_bytes 8 c.expected_num_chunks))

sizes_agree :
    (n k : ℕ)
    → (not (ltb (32 + n) metadata_message_header_size)
        && 32 + n == metadata_message_header_size + k)
      ≡ (n == k)
sizes_agree n k = ground arith

-- A serialized message passes validation exactly when the recorded metadata size, which has only 32
-- bits, is the length of the metadata.
pub validate-serialize :
    (c : Chunk)
    → IsWire c
    → validate_format (serialize c).0 ≡ (length (metadata_bytes c.metadata) == c.metadata_size)
unfolding validate_format
validate-serialize c v =
    let m = metadata_bytes c.metadata in
    let r5 = to_bytes 8 c.data_size ++ m in
    let r4 = to_bytes 4 c.metadata_size ++ r5 in
    let size : from_bytes (take 4 (drop 20 (serialize c).0)) ≡ c.metadata_size =
      ap from_bytes (ap (take 4) (size_field c) ∙ take_field 4 c.metadata_size r5)
      ∙ from_bytes-to_bytes 4 c.metadata_size v.metadata_fits in
    rw (size, length-serialize c) (sizes_agree (length m) c.metadata_size)

attached :
    (br : Option BufferResource) (c : Chunk) (payload : Option Buffer)
    → (payload ≡ none → c.expected_num_chunks ≢ 0)
    → attach br (carried c) payload
      ≡ ok (br, record c { metadata = some (metadata_bytes c.metadata); payload = payload })
unfolding attach carried
attached none c (some b) h = refl
attached (some br) c (some b) h = refl
attached none c none h = elim (Bool-cases (c.expected_num_chunks == 0)) [
  | inl e ↦ absurd (h refl ((==_iff _ _).0 e))
  | inr e ↦ rw e refl
]
attached (some br) c none h = elim (Bool-cases (c.expected_num_chunks == 0)) [
  | inl e ↦ absurd (h refl ((==_iff _ _).0 e))
  | inr e ↦ rw e refl
]

-- Deserializing a serialized message, with the payload that was received for it or as a control
-- message, gives back every header field and the metadata, and leaves the resource alone.
pub deserialize-serialize :
    (c : Chunk) (br : Option BufferResource) (payload : Option Buffer)
    → IsWire c
    → (payload ≡ none → c.expected_num_chunks ≢ 0)
    → deserialize (serialize c).0 br false payload
      ≡ ok (br, record c { metadata = some (metadata_bytes c.metadata); payload = payload })
unfolding deserialize
deserialize-serialize c br payload v h = rw (read_header-serialize c v) (attached br c payload h)
