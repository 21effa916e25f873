-- ===== src/Examples/MessageRuns.antt =====
-- Messages that are numbers, with two threads that extract one of them.
use rapidsmpf.Prelude.{ℕ, ◌+◌, ◌≡◌, ◌<◌, ◌^◌, [], true, false, arith}
use rapidsmpf.Prelude.Int.{pos}
use rapidsmpf.Prelude.Result.{ok}
use rapidsmpf.Prelude.Assoc.{find}
use rapidsmpf.Messages.{SpillableMessages, MessageType, insert, take_message}
use rapidsmpf.Messages.Items.{State, inserts, begins, IsSound, times}
use rapidsmpf.Messages.Sound.{step, step-IsSound}

abbrev numbers : MessageType ℕ
numbers = record {
  content_description = λ m. record { content_sizes = λ t. m; spillable = true };
  copy_cost = λ m. m;
  move = λ br m r. ok (br, 0);
}

abbrev start : State ℕ
start = record {
  messages = record { counter = 0; items = []; content_descriptions = []; heap = [] };
  br = record {
    memory_limits = λ t. pos 100;
    allocated = λ t. pos 0;
    has_pinned = false;
    has_disk = false;
    memory_reserved = λ t. 0;
    overbooking_by_default = true;
  };
  extracting = [];
}

start-IsSound : IsSound start.messages []
unfolding find
start-IsSound = record { listed = λ mid a f. cc; taken = λ a p. absurd (omega (arith, p)) }

abbrev one_message : State ℕ
one_message = step numbers start (inserts 7)

one_message-IsSound : IsSound one_message.messages one_message.extracting
one_message-IsSound = (step-IsSound numbers start (inserts 7) (omega arith) start-IsSound).0

small : one_message.messages.counter + 1 < 2 ^ 64
unfolding step insert
small = omega arith

step-IsSound_example :
    IsSound
      (step numbers one_message (begins 0)).messages
      (step numbers one_message (begins 0)).extracting
    × ((a : ℕ)
        → 0 < times a (step numbers one_message (begins 0)).extracting
        → (m : ℕ) × (s : SpillableMessages ℕ) × (take_message
              (step numbers one_message (begins 0)).messages
              a
            ≡ ok (s, m)))
step-IsSound_example = step-IsSound numbers one_message (begins 0) small one_message-IsSound
