-- ===== src/ControlPlane/System.antt =====
-- src/ut_control_plane.c: `service_ws_requests`, the thread that serves the sockets, and what the
-- messages that the state machine has handled call.
pub mod Bodies
pub mod Rounds
pub mod Serving
pub mod Calls
pub mod Trees
pub mod Threads
pub mod Served
use ut_control.Base.{
  ℕ, Bool, true, Option, none, some, List, [], ◌∷◌, ◌++◌, if◌then◌else◌, ◌>>=◌, ◌==◌,
}
use ut_control.CString.{Text}
use ut_control.Kvp.Fyaml.{Fyaml}
use ut_control.Kvp.Instance.{Instance}
use ut_control.Kvp.Open.{Outcome, out_of_fuel, fault, done}
use ut_control.ControlPlane.Queue.{CpMessage, Queue}
use ut_control.ControlPlane.Http.{Session, Reason, callback_http}
use ut_control.ControlPlane.Callbacks.{CallbackTable, Call, call_callback_on_match}
use ut_control.ControlPlane.Lifecycle.{CpInstance, validate_cp_instance}

-- libwebsockets numbers the connections here, and keeps the data of each.
abbrev pub Sessions : Type 0
Sessions = ℕ → Session

abbrev pub put {ℓ} : {A : Type ℓ} → ℕ → A → (ℕ → A) → ℕ → A
put c a f d = if d == c then a else f d

-- What comes in on a connection.
abbrev pub Event : Type 0
Event = ℕ × Reason

-- The data of the connections, and the instance's queue.
abbrev pub Sockets : Type 0
Sockets = Sessions × Queue

module _ (malloc_ok : Bool) where
  -- What a call of lws_service hands to `callback_http`, one event after the other.
  pub handle_events : List Event → Sockets → Option Sockets
  handle_events [] state = some state
  handle_events ((c, r) ∷ events) (sessions, queue) = do
    h ← callback_http malloc_ok r (some (sessions c)) queue
    s ← h.session
    handle_events events (put c s sessions, h.queue)

  -- The rounds of the loop: what it reads of `exit_request`, and what comes in where it goes on.
  pub rounds_loop : List (Bool × List Event) → Sockets → Option Sockets
  unfolding handle_events
  rounds_loop [] state = some state
  rounds_loop ((exit_request, events) ∷ rounds) state =
      let served = handle_events events state >>= λ state'. rounds_loop rounds state' in
      if exit_request then some state else served

  with_queue : CpInstance → Sockets → Sessions × CpInstance
  with_queue p (sessions, queue) =
      (sessions, record p { service = record p.service { queue = queue } })

  -- The thread is given the instance, and leaves at once where that is not valid.
  unfoldable pub service_ws_requests :
      List (Bool × List Event) → Sessions → CpInstance → Option (Sessions × CpInstance)
  unfolding rounds_loop with_queue
  service_ws_requests rounds sessions p = elim (validate_cp_instance (some p)) [
    | none ↦ some (sessions, p)
    | some q ↦ rounds_loop rounds (sessions, q.service.queue) >>= λ state. some (with_queue q state)
  ]

-- The calls of a message come behind those of the messages in front of it.
abbrev pub behind : Outcome (List Call) → Outcome (List Call) → Outcome (List Call)
behind out_of_fuel later = out_of_fuel
behind fault later = fault
behind (done calls) out_of_fuel = out_of_fuel
behind (done calls) fault = fault
behind (done calls) (done more) = done (calls ++ more)

module _ (Y : Fyaml) (invoke : ℕ → Text → Instance Y → ℕ → Instance Y) where
  -- `service_state_machine` calls `call_callback_on_match` for each message with data, here with
  -- memory for the KVP instance.
  pub calls_of : ℕ → List CpMessage → CallbackTable → Outcome (List Call)
  calls_of fuel [] t = done []
  calls_of fuel (m ∷ ms) t =
      behind (call_callback_on_match Y invoke fuel true m t) (calls_of fuel ms t)
