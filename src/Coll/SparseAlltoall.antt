-- ===== src/Coll/SparseAlltoall.antt =====
-- `SparseAlltoall` of cpp/src/coll/sparse_alltoall.cpp and cpp/include/rapidsmpf/coll/sparse_alltoall.hpp.
-- The communicator is a parameter: what has arrived and which operations are complete are
-- arguments, and what is sent is a result. A rank is not negative; the maps are walked in the order of
-- their entries. `wait` blocks until `can_extract` and is not modelled, nor are the statistics.
pub mod Loop
pub mod Order
pub mod Arrival
use rapidsmpf.Prelude.{
  ℕ, zero, suc, ◌+◌, ◌-◌, Option, none, some, List, [], ◌∷◌, ◌++◌, Bool, true, false, not, ◌&&◌,
  ltb, ◌==◌, if◌then◌else◌, length,
}
use rapidsmpf.Prelude.Assoc.{find, assign, contains}
use rapidsmpf.Prelude.Result.{
  Result, ok, err, expects, logic_error, invalid_argument, out_of_range, undefined, ◌>>=◌, ◌>>◌,
}
use rapidsmpf.Memory.Types.{addressable_memory_types}
use rapidsmpf.Memory.Resource.{BufferResource}
use rapidsmpf.Memory.Buffer.{Buffer, ensure_memory_type}
use rapidsmpf.Coll.Chunk.{
  Chunk, PackedData, from_packed_data, from_empty, is_ready, is_finish, sequence, origin, serialize,
  deserialize, release, release_data_buffer,
}
use rapidsmpf.Coll.PostBox as PostBox
use rapidsmpf.Coll.PostBox.{extract_ready, test_some}

pub record SourceState : Type 0 where
  pub expected_count : ℕ
  pub received_count : ℕ
  pub chunks : List Chunk
  pub incoming : List Chunk

abbrev pub new_source : SourceState
new_source = record { expected_count = 0; received_count = 0; chunks = []; incoming = [] }

unfoldable pub ready : SourceState → Bool
ready s = ltb 0 s.expected_count && s.expected_count == s.received_count

-- The futures are counted: those of the posted receives, and those of the sends.
pub record SparseAlltoall : Type 0 where
  pub rank : ℕ
  pub br : BufferResource
  pub next_ordinal_per_dst : List (ℕ × ℕ)
  pub locally_finished : Bool
  pub can_extract : Bool
  pub outgoing : List Chunk
  pub receive_posted : List Chunk
  pub receive_futures : ℕ
  pub fire_and_forget : ℕ
  pub source_states : List (ℕ × SourceState)
  pub finished_callback : Bool

-- One rank of the constructor's lists.
unfoldable pub add_rank {ℓ} : {V : Type ℓ} → ℕ → ℕ → V → List (ℕ × V) → ℕ → Result (List (ℕ × V))
add_rank self size v m rank = do
  expects (ltb rank size && not (rank == self)) out_of_range
  expects (not (contains rank m)) invalid_argument
  ok (assign rank v m)

unfoldable pub add_ranks {ℓ} :
    {V : Type ℓ} → ℕ → ℕ → V → List (ℕ × V) → List ℕ → Result (List (ℕ × V))
add_ranks self size v m [] = ok m
add_ranks self size v m (rank ∷ ranks) = do
  m' ← add_rank self size v m rank
  add_ranks self size v m' ranks

-- The communicator and the resource are not null.
unfoldable pub create : ℕ → ℕ → BufferResource → List ℕ → List ℕ → Bool → Result SparseAlltoall
create self size br srcs dsts callback = do
  sources ← add_ranks self size new_source [] srcs
  ordinals ← add_ranks self size 0 [] dsts
  ok (record {
    rank = self;
    br = br;
    next_ordinal_per_dst = ordinals;
    locally_finished = false;
    can_extract = false;
    outgoing = [];
    receive_posted = [];
    receive_futures = 0;
    fire_and_forget = 0;
    source_states = sources;
    finished_callback = callback;
  })

-- The rest of `insert` once the data is addressable: the ordinal is taken before the chunk is checked.
unfoldable pub insert_addressable :
    SparseAlltoall → ℕ → ℕ → PackedData → SparseAlltoall × Result (Unit {0})
insert_addressable s dst n packed =
    let taken = record s { next_ordinal_per_dst = assign dst (n + 1) s.next_ordinal_per_dst } in
    elim (from_packed_data n s.rank dst packed) [
      | err e ↦ (taken, err e)
      | ok c ↦ (record taken { outgoing = PostBox.insert s.outgoing c }, ok tt)
    ]

unfoldable pub insert : SparseAlltoall → ℕ → PackedData → SparseAlltoall × Result (Unit {0})
insert s dst packed =
    if s.locally_finished then (s, err logic_error) else elim (find dst s.next_ordinal_per_dst) [
      | none ↦ (s, err logic_error)
      | some n ↦ elim packed.payload [
        | none ↦ (s, err undefined)
        | some b ↦ elim (ensure_memory_type s.br b addressable_memory_types) [
          | err e ↦ (s, err e)
          | ok (br, b') ↦
              insert_addressable (record s { br = br }) dst n (record packed { payload = some b' })
        ]
      ]
    ]

-- A finish message to every destination, with the number of messages that it is sent, this one included.
unfoldable pub finish_messages : ℕ → List (ℕ × ℕ) → List Chunk
finish_messages rank [] = []
finish_messages rank ((dst, n) ∷ ordinals) =
    from_empty (n + 1) rank dst ∷ finish_messages rank ordinals

unfoldable pub insert_finished : SparseAlltoall → SparseAlltoall × Result (Unit {0})
insert_finished s = if s.locally_finished then (s, err logic_error) else (
  record s {
    outgoing = PostBox.insert_all s.outgoing (finish_messages s.rank s.next_ordinal_per_dst);
    locally_finished = true;
  },
  ok tt,
)

-- std::ranges::sort by sequence number.
unfoldable pub sequence_insert : Chunk → List Chunk → List Chunk
sequence_insert c [] = c ∷ []
sequence_insert c (d ∷ ds) =
    if ltb (sequence d) (sequence c) then d ∷ sequence_insert c ds else c ∷ (d ∷ ds)

unfoldable pub sort_by_sequence : List Chunk → List Chunk
sort_by_sequence [] = []
sort_by_sequence (c ∷ cs) = sequence_insert c (sort_by_sequence cs)

unfoldable pub release_all : List Chunk → Result (List PackedData)
release_all [] = ok []
release_all (c ∷ cs) = do (p, _) ← release c; ps ← release_all cs; ok (p ∷ ps)

unfoldable pub extract : SparseAlltoall → ℕ → Result (SparseAlltoall × List PackedData)
extract s src = elim (find src s.source_states) [
  | none ↦ err logic_error
  | some state ↦ do
    expects s.can_extract logic_error
    result ← release_all (sort_by_sequence state.chunks)
    ok (
      record s { source_states = assign src (record state { chunks = [] }) s.source_states },
      result,
    )
]
