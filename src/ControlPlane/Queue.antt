-- ===== src/ControlPlane/Queue.antt =====
-- src/ut_control_plane.c: `message_queue` and `message_count` of an instance, with
-- `enqueue_message` and `dequeue_message`. Each call holds the mutex from its first to its last
-- access, so it is one atomic operation on the queue.
pub mod Fifo
pub mod Drain
use ut_control.Base.{
  ℕ, zero, suc, ◌+◌, ◌-◌, Bool, Option, none, some, List, [], ◌∷◌, ltb, if◌then◌else◌, get_elem?,
  set, ◌==◌,
}

abbrev pub max_messages : ℕ
max_messages = 32

-- eMessage_t; an `unknown` value is one that no enumerator names.
pub data EMessage : Type 0 where
  data_recieved exit_requested : EMessage
  unknown : ℕ → EMessage

-- cp_message_t; `message` is NULL or the bytes of the allocated block.
pub record CpMessage : Type 0 where
  pub status : EMessage
  pub message : Option (List ℕ)
  pub size : ℕ

pub record Queue : Type 0 where
  pub message_queue : List CpMessage
  pub message_count : ℕ

-- A full queue drops the message; the caller is not told.
unfoldable pub enqueue_message : CpMessage → Queue → Queue
enqueue_message data' q =
    if ltb q.message_count max_messages
    then record {
      message_queue = set q.message_queue q.message_count data';
      message_count = q.message_count + 1;
    }
    else q

-- for (i; i < i + rounds; i++) message_queue[i] = message_queue[i + 1]; `none` is an access past
-- the end of the array.
pub shift_slots : ℕ → ℕ → List CpMessage → Option (List CpMessage)
shift_slots zero i slots = some slots
shift_slots (suc rounds) i slots = elim (get_elem? slots (suc i)) [
  | none ↦ none
  | some m ↦ shift_slots rounds (suc i) (set slots i m)
]

-- What becomes of a call: it waits on the condition, `assert` aborts it as malloc has failed, it
-- reads outside the array, or it returns a message.
pub data Dequeued : Type 0 where
  waiting aborted fault : Dequeued
  received : CpMessage → Queue → Dequeued

after_shift : CpMessage → ℕ → Option (List CpMessage) → Dequeued
after_shift m count none = fault
after_shift m count (some slots) =
    received m (record { message_queue = slots; message_count = count - 1 })

take_first : Queue → Option CpMessage → Dequeued
unfolding shift_slots after_shift
take_first q none = fault
take_first q (some m) =
    after_shift m q.message_count (shift_slots (q.message_count - 1) 0 q.message_queue)

-- `malloc_ok`: whether the block for the copy can be allocated.
pub dequeue_message : (malloc_ok : Bool) → Queue → Dequeued
unfolding take_first
dequeue_message malloc_ok q =
    if q.message_count == 0
    then waiting
    else if malloc_ok
    then take_first q (get_elem? q.message_queue 0)
    else aborted
