-- ===== src/ControlPlane/System/Served.antt =====
-- src/ut_control_plane.c: the calls that are made in any schedule of the two threads.
use ut_control.Base.{
  ℕ, ◌+◌, ◌≤◌, ◌<◌, ◌≡◌, ◌⊎◌, inl, inr, refl, ap, ◌∙◌, true, false, List, [], map, All, concat,
  length,
}
use ut_control.CString.{Text}
use ut_control.Kvp.Fyaml.{Fyaml}
use ut_control.Kvp.Instance.{Instance}
use ut_control.Kvp.Open.{done}
use ut_control.ControlPlane.Queue.{CpMessage, Queue, max_messages, received, dequeue_message}
use ut_control.ControlPlane.Queue.Fifo.{contents}
use ut_control.ControlPlane.Http.Post.{message_of}
use ut_control.ControlPlane.Callbacks.{CallbackTable, Call}
use ut_control.ControlPlane.Callbacks.Table.{registered}
use ut_control.ControlPlane.Callbacks.Dispatch.{entry}
use ut_control.ControlPlane.Lifecycle.{fresh}
use ut_control.ControlPlane.Service.{Service, request_exit}
use ut_control.ControlPlane.Service.Interleaving.{Reach}
use ut_control.ControlPlane.Service.Schedule.{serves}
use ut_control.ControlPlane.Service.Delivery.{stopped-Delivers}
use ut_control.ControlPlane.System.{Sessions, calls_of}
use ut_control.ControlPlane.System.Bodies.{bodies, Hold}
use ut_control.ControlPlane.System.Calls.{
  Request, IsRequest, calls_for, calls_of-selected, fresh-IsQueue,
}
use ut_control.ControlPlane.System.Threads.{Run, events, AllSlots, run-Projected}

-- After `n` rounds behind the exit message: the state machine has been asked to end, and has handled
-- the messages of these bodies; or it has not, and can go round again.
abbrev pub Serves : List (List ℕ) → Service → ℕ → Service → Type 0
Serves sent t n u =
    ((u.exit_request ≡ true)
      × (n ≡ length (contents t.queue) + 1)
      × (u.handled ≡ map message_of sent))
    ⊎ ((u.exit_request ≡ false)
        × (n ≤ length (contents t.queue))
        × (m : CpMessage) × (q : Queue) × (dequeue_message true u.queue ≡ received m q))

pub run-Serves :
    (sent : List (List ℕ)) {sessions σ : Sessions} {t u : Service}
    (run : Run sessions fresh.service σ t) (after : Reach (request_exit t) u)
    → Hold sessions (λ c. [])
    → bodies (events run) (λ c. []) ≡ sent
    → AllSlots run
    → t.queue.message_count < max_messages
    → Serves sent t (serves after) u
run-Serves sent run after empty complete slots free =
    let ((before, in', room), _) = run-Projected run (λ c. []) empty slots in
    let (account, delivers) = stopped-Delivers before after fresh-IsQueue refl tt room free in
    elim delivers [
      | inl (end, rounds, order) ↦ inl (end, rounds, order ∙ in' ∙ ap (map message_of) complete)
      | inr more ↦ inr more
    ]

module _ (Y : Fyaml) (invoke : ℕ → Text → Instance Y → ℕ → Instance Y)
    (leaves : (p : Instance Y) (f u : ℕ) (key : Text) → invoke f key p u ≡ p) where
  -- After `n` rounds behind the exit message: the state machine has been asked to end, and these are
  -- the calls that it has made; or it has not, and can go round again.
  abbrev pub Makes : ℕ → CallbackTable → List Call → Service → ℕ → Service → Type 0
  Makes fuel table calls t n u =
      ((u.exit_request ≡ true)
        × (n ≡ length (contents t.queue) + 1)
        × (calls_of Y invoke fuel u.handled table ≡ done calls))
      ⊎ ((u.exit_request ≡ false)
          × (n ≤ length (contents t.queue))
          × (m : CpMessage) × (q : Queue) × (dequeue_message true u.queue ≡ received m q))

  pub Serves-Makes :
      (fuel : ℕ) (table : CallbackTable) (calls : List Call) (sent : List (List ℕ)) (t : Service)
      (n : ℕ) (u : Service)
      → Serves sent t n u
      → calls_of Y invoke fuel (map message_of sent) table ≡ done calls
      → Makes fuel table calls t n u
  Serves-Makes fuel table calls sent t n u (inl (end, rounds, order)) makes =
      inl (end, rounds, ap (λ (ms : List CpMessage). calls_of Y invoke fuel ms table) order ∙ makes)
  Serves-Makes fuel table calls sent t n u (inr more) makes = inr more

  -- The thread that serves the sockets and the state machine's thread of a new instance take turns in
  -- any way, and the functions leave the KVP handle as it is. Clients send bodies on any number of
  -- connections, and their blocks come in in any order; each body finds a free slot when it is
  -- complete, and parses. Then UT_ControlPlane_Stop asks for the exit, where a slot is free, and the
  -- threads go on to take turns. The state machine can always go round again until it has been asked
  -- to end, which is after one round more than messages waited; by then, for each body, in the order
  -- in which they were complete, the functions have been called whose key its document has, in the
  -- order in which they were registered, and no other.
  pub run-Makes :
      (fuel : ℕ) (table : CallbackTable) (rs : List Call) (requests : List (Request Y))
      {sessions σ : Sessions} {t u : Service} (run : Run sessions fresh.service σ t)
      (after : Reach (request_exit t) u)
      → registered table ≡ map entry rs
      → All (IsRequest Y invoke leaves fuel rs) requests
      → Hold sessions (λ c. [])
      → bodies (events run) (λ c. []) ≡ map Request.sent requests
      → AllSlots run
      → t.queue.message_count < max_messages
      → Makes fuel table (concat (map (calls_for Y invoke leaves rs) requests)) t (serves after) u
  run-Makes fuel table rs requests {t} {u} run after registered' all empty sent slots free =
      Serves-Makes fuel table _ (map Request.sent requests) t (serves after) u
        (run-Serves (map Request.sent requests) run after empty sent slots free)
        (calls_of-selected Y invoke leaves fuel table rs requests registered' all)
