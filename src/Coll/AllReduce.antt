-- ===== src/Coll/AllReduce.antt =====
-- An allreduce, cpp/src/coll/allreduce.cpp: the constructor, the event loop of one rank, phase by
-- phase, and the extraction of the result. The type of the buffers' contents is a parameter, with
-- their sizes and memory types; so is the reduction, which writes into its right operand.
-- What the communicator holds for a rank is in the futures: a send keeps its buffer until it is
-- sent, and a receive has what has arrived. Whether the writes to a buffer are done is an argument
-- of the event loop. Byte counts for the statistics are left out.
pub mod Partners
pub mod Cluster
pub mod Value
pub mod Stages
pub mod Settled
pub mod Agreement
pub mod InOrder
use rapidsmpf.Prelude.{
  ℕ, ◌+◌, ◌-◌, ◌*◌, ◌/◌, ◌%◌, Bool, true, false, not, ltb, leb, ◌==◌, if◌then◌else◌, Option, none,
  some, List, [], ◌∷◌,
}
use rapidsmpf.Prelude.Bits.{bit_xor, bit_floor}
use rapidsmpf.Prelude.Result.{
  Result, ok, err, expects, ◌>>=◌, ◌>>◌, invalid_argument, runtime_error, logic_error, undefined,
}
use rapidsmpf.Memory.Types.{MemoryType, same_type}

pub data Phase : Type 0 where
  start_pre_remainder complete_pre_remainder start_butterfly complete_butterfly : Phase
  start_post_remainder complete_post_remainder done result_available : Phase

-- What the constructor works out from the rank and their number; a rank that takes no part in the
-- exchange between a power of two of ranks has no logical rank (-1 in the source).
pub record Plan : Type 0 where
  pub rank : ℕ
  pub logical_rank : Option ℕ
  pub nearest_pow2 : ℕ
  pub non_pow2_remainder : ℕ

pub record Sending {ℓ} (A : Type ℓ) : Type ℓ where
  pub content : A
  pub is_sent : Bool

pub record Receiving {ℓ} (A : Type ℓ) : Type ℓ where
  pub source : ℕ
  pub arrived : Option A

pub record Message {ℓ} (A : Type ℓ) : Type ℓ where
  pub source : ℕ
  pub destination : ℕ
  pub content : A

-- `none` is a null pointer. `stage_partner` is -1 in the source until the first stage sets it.
pub record AllReduce {ℓ} (A : Type ℓ) : Type ℓ where
  pub plan : Plan
  pub in_buffer : Option A
  pub out_buffer : Option A
  pub phase : Phase
  pub active : Bool
  pub finished_callback : Bool
  pub callback_calls : ℕ
  pub stage_mask : ℕ
  pub stage_partner : ℕ
  pub send_future : Option (Sending A)
  pub recv_future : Option (Receiving A)

-- The place of a rank among those that exchange.
unfoldable pub logical_rank_of : ℕ → ℕ → Option ℕ
logical_rank_of rank remainder =
    if ltb rank (2 * remainder)
    then if rank % 2 == 0 then none else some (rank / 2)
    else some (rank - remainder)

unfoldable pub plan_of : ℕ → ℕ → Plan
plan_of rank nranks =
    let nearest = bit_floor 32 nranks in
    record {
      rank = rank;
      logical_rank = logical_rank_of rank (nranks - nearest);
      nearest_pow2 = nearest;
      non_pow2_remainder = nranks - nearest;
    }

-- The rank of the partner whose logical rank is given.
unfoldable pub stage_rank : ℕ → ℕ → ℕ
stage_rank remainder logical_dst =
    if ltb logical_dst remainder then logical_dst * 2 + 1 else logical_dst + remainder

-- A buffer behind a pointer.
abbrev pub deref {ℓ} : {A : Type ℓ} → Option A → Result A
deref none = err undefined
deref (some a) = ok a

-- The state that the constructor leaves.
unfoldable pub first_state {ℓ} : {A : Type ℓ} → Plan → A → Bool → AllReduce A
first_state plan input callback = record {
  plan = plan;
  in_buffer = some input;
  out_buffer = some input;
  phase =
      if ltb plan.rank (2 * plan.non_pow2_remainder) then start_pre_remainder else start_butterfly;
  active = true;
  finished_callback = callback;
  callback_calls = 0;
  stage_mask = 1;
  stage_partner = 0;
  send_future = none;
  recv_future = none;
}

module _ {ℓ} {A : Type ℓ} (size : A → ℕ) (mem_type : A → MemoryType) where
  -- The constructor: `input` is copied into `output`.
  unfoldable pub create :
      (rank nranks : ℕ) (input output : Option A) (callback : Bool) → Result (AllReduce A)
  create rank nranks none output callback = err invalid_argument
  create rank nranks (some input) none callback = err invalid_argument
  create rank nranks (some input) (some output) callback = do
    expects (size input == size output) invalid_argument
    expects (same_type (mem_type input) (mem_type output)) invalid_argument
    ok (first_state (plan_of rank nranks) input callback)

abbrev pub Turned {ℓ} : Type ℓ → Type ℓ
Turned A = Result (AllReduce A × List (Message A))

unfoldable pub is_available : Phase → Bool
is_available result_available = true
is_available _ = false

module _ {ℓ} {A : Type ℓ} where
  -- The turn ends where it is.
  abbrev pub stay : AllReduce A → Turned A
  stay a = ok (a, [])

  -- The rest of a turn, once the writes to a buffer are done.
  abbrev pub once : Bool → AllReduce A → Turned A → Turned A
  once true a rest = rest
  once false a rest = stay a

  -- The rest of a turn, with the buffer that a completed future releases.
  abbrev pub released : Option A → AllReduce A → (A → Turned A) → Turned A
  released none a rest = stay a
  released (some b) a rest = rest b

  -- comm_->send(std::move(out_buffer_), destination, tag)
  unfoldable pub send_out : AllReduce A → A → ℕ → Phase → Turned A
  send_out a content destination next = ok (
    record a {
      out_buffer = none;
      send_future = some (record { content = content; is_sent = false });
      phase = next;
    },
    record { source = a.plan.rank; destination = destination; content = content } ∷ [],
  )

  abbrev pub receive_from : ℕ → Option (Receiving A)
  receive_from source = some (record { source = source; arrived = none })

  -- comm_->test(future) and, where it is true, comm_->release_data(future).
  abbrev pub sent_data : Option (Sending A) → Result (Option A)
  sent_data none = err undefined
  sent_data (some f) = ok (if f.is_sent then some f.content else none)

  abbrev pub received_data : Option (Receiving A) → Result (Option A)
  received_data none = err undefined
  received_data (some f) = ok f.arrived

  -- Phase::StartPreRemainder
  unfoldable pub pre_remainder_start : Bool → Bool → AllReduce A → Turned A
  unfolding send_out
  pre_remainder_start out_done in_done a = deref a.out_buffer >>= λ out. once out_done a (
      if a.plan.rank % 2 == 0
      then send_out a out (a.plan.rank + 1) complete_pre_remainder
      else (deref a.in_buffer >>= λ _. once in_done a (
          stay (record a {
            in_buffer = none;
            recv_future = receive_from (a.plan.rank - 1);
            phase = complete_pre_remainder;
          }))))

  -- The two transfers of a stage begin, once both buffers are written.
  unfoldable pub exchange_with : Bool → Bool → AllReduce A → Turned A
  unfolding send_out
  exchange_with out_done in_done a = deref a.out_buffer >>= λ out. once out_done a (
      deref a.in_buffer >>= λ _. once in_done a (
        send_out (record a { in_buffer = none; recv_future = receive_from a.stage_partner }) out
          a.stage_partner complete_butterfly))

  -- Phase::StartButterfly. Without a logical rank it is never reached.
  unfoldable pub butterfly_start : Bool → Bool → AllReduce A → Turned A
  unfolding exchange_with
  butterfly_start out_done in_done a =
      if leb a.plan.nearest_pow2 a.stage_mask
      then stay (record a {
        phase =
            if ltb a.plan.rank (2 * a.plan.non_pow2_remainder) then start_post_remainder else done;
      })
      else (deref a.plan.logical_rank >>= λ logical. exchange_with out_done in_done (record a {
        stage_partner = stage_rank a.plan.non_pow2_remainder (bit_xor 32 logical a.stage_mask);
      }))

  -- Phase::StartPostRemainder
  unfoldable pub post_remainder_start : Bool → AllReduce A → Turned A
  unfolding send_out
  post_remainder_start out_done a = deref a.out_buffer >>= λ out. once out_done a (
      if a.plan.rank % 2 == 0
      then stay (record a {
        out_buffer = none;
        recv_future = receive_from (a.plan.rank + 1);
        phase = complete_post_remainder;
      })
      else send_out a out (a.plan.rank - 1) complete_post_remainder)

  -- Phase::CompletePostRemainder
  unfoldable pub post_remainder_complete : AllReduce A → Turned A
  post_remainder_complete a =
      if a.plan.rank % 2 == 0
      then (received_data a.recv_future >>= λ arrived.
          released arrived a
            λ b. stay (record a { recv_future = none; out_buffer = some b; phase = done }))
      else (sent_data a.send_future >>= λ sent.
          released sent a
            λ b. stay (record a { send_future = none; out_buffer = some b; phase = done }))

  module _ (reduce_operator : A → A → A) where
    -- Phase::CompletePreRemainder
    unfoldable pub pre_remainder_complete : AllReduce A → Turned A
    pre_remainder_complete a =
        if a.plan.rank % 2 == 0
        then (sent_data a.send_future >>= λ sent. released sent a λ b.
            stay
              (record a { send_future = none; out_buffer = some b; phase = start_post_remainder }))
        else (received_data a.recv_future >>= λ arrived. released arrived a λ b.
            deref a.out_buffer >>= λ out. stay (record a {
              recv_future = none;
              in_buffer = some b;
              out_buffer = some (reduce_operator b out);
              phase = start_butterfly;
            }))

    -- The operands in the order of the ranks: the buffers swap where the partner's rank is higher.
    unfoldable pub combine_stage : AllReduce A → A → A → Turned A
    combine_stage a received own = stay (record a {
      recv_future = none;
      send_future = none;
      in_buffer = some (if ltb a.stage_partner a.plan.rank then received else own);
      out_buffer = some (
          if ltb a.stage_partner a.plan.rank
          then reduce_operator received own
          else reduce_operator own received);
      stage_mask = 2 * a.stage_mask;
      phase = start_butterfly;
    })

    -- Phase::CompleteButterfly
    unfoldable pub butterfly_complete : AllReduce A → Turned A
    unfolding combine_stage
    butterfly_complete a = received_data a.recv_future >>= λ arrived.
        released arrived a
          λ received. sent_data a.send_future >>= λ sent. released sent a (combine_stage a received)

    module _ (out_done in_done : Bool) where
      unfoldable pub at_phase : Phase → AllReduce A → Turned A
      unfolding pre_remainder_start pre_remainder_complete butterfly_start butterfly_complete
          post_remainder_start post_remainder_complete
      at_phase start_pre_remainder a = pre_remainder_start out_done in_done a
      at_phase complete_pre_remainder a = pre_remainder_complete a
      at_phase start_butterfly a = butterfly_start out_done in_done a
      at_phase complete_butterfly a = butterfly_complete a
      at_phase start_post_remainder a = post_remainder_start out_done a
      at_phase complete_post_remainder a = post_remainder_complete a
      at_phase result_available a = err logic_error
      at_phase done a = stay a

  -- The end of a turn: whether the function is done, and the callback the first time that it is.
  unfoldable pub conclude : Phase → AllReduce A → AllReduce A × Bool
  conclude done a = (
    record a {
      phase = result_available;
      finished_callback = false;
      callback_calls = a.callback_calls + (if a.finished_callback then 1 else 0);
    },
    true,
  )
  conclude _ a = (a, false)

  -- One turn, with the messages that it sends and whether it is the last.
  unfoldable pub event_loop :
      (A → A → A) → Bool → Bool → AllReduce A → Result (AllReduce A × List (Message A) × Bool)
  unfolding at_phase conclude
  event_loop reduce_operator out_done in_done a =
      if not a.active
      then ok (a, [], true)
      else (at_phase reduce_operator out_done in_done a.phase a >>= λ turned.
          let ended = conclude turned.0.phase turned.0 in ok (ended.0, turned.1, ended.1))

  unfoldable pub finished : AllReduce A → Bool
  unfolding is_available
  finished a = is_available a.phase

  take_buffers : AllReduce A → Option A → Option A → Result ((A × A) × AllReduce A)
  take_buffers a (some input) (some output) =
      ok ((input, output), record a { in_buffer = none; out_buffer = none })
  take_buffers a _ _ = err runtime_error

  -- The two buffers, or the failure at the end of the wait.
  unfoldable pub wait_and_extract : AllReduce A → Result ((A × A) × AllReduce A)
  unfolding finished take_buffers
  wait_and_extract a =
      if finished a then take_buffers a a.in_buffer a.out_buffer else err runtime_error
