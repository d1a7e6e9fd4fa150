-- ===== src/ControlPlane/Service.antt =====
-- src/ut_control_plane.c: `service_state_machine`, the thread that takes messages from the queue
-- until one asks it to end.
pub mod Loop
pub mod Interleaving
pub mod Schedule
pub mod Delivery
use ut_control.Base.{
  ℕ, zero, suc, ◌+◌, ◌≡◌, Bool, true, false, none, List, [], ◌∷◌, ◌++◌, if◌then◌else◌,
}
use ut_control.ControlPlane.Queue.{
  EMessage, data_recieved, exit_requested, unknown, CpMessage, Queue, enqueue_message, Dequeued,
  waiting, aborted, fault, received, dequeue_message,
}

-- The queue and `exit_request` of an instance, and the messages for which `call_callback_on_match`
-- has been called, the oldest first.
pub record Service : Type 0 where
  pub queue : Queue
  pub exit_request : Bool
  pub handled : List CpMessage

-- The `switch` on the status.
pub handle_status : EMessage → CpMessage → Service → Service
handle_status exit_requested m s = record s { exit_request = true }
handle_status data_recieved m s = record s { handled = s.handled ++ m ∷ [] }
handle_status (unknown n) m s = s

-- The body of the loop behind `dequeue_message`.
unfoldable pub handle_message : CpMessage → Queue → Service → Service
unfolding handle_status
handle_message m q s = handle_status m.status m (record s { queue = q })

-- The thread leaves its loop, waits on the condition or for another thread, or is ended by `assert` or by a read outside
-- the array.
pub data Served : Type 0 where
  stopped blocked : Service → Served
  crashed out_of_fuel : Served

unfoldable pub after_dequeue : (Service → Served) → Service → Dequeued → Served
unfolding handle_message
after_dequeue later s waiting = blocked s
after_dequeue later s aborted = crashed
after_dequeue later s fault = crashed
after_dequeue later s (received m q) = later (handle_message m q s)

-- The loop, where no other thread takes part and memory for each copy is found.
unfoldable pub service_loop : ℕ → Service → Served
unfolding after_dequeue
service_loop zero s = out_of_fuel
service_loop (suc fuel) s =
    if s.exit_request
    then stopped s
    else after_dequeue (service_loop fuel) s (dequeue_message true s.queue)

-- The message that UT_ControlPlane_Stop enqueues.
abbrev pub exit_message : CpMessage
exit_message = record { status = exit_requested; message = none; size = 0 }

unfoldable pub request_exit : Service → Service
request_exit s = record s { queue = enqueue_message exit_message s.queue }
