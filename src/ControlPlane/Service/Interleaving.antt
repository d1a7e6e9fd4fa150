-- ===== src/ControlPlane/Service/Interleaving.antt =====
-- src/ut_control_plane.c: the state machine's thread interleaved with the thread that serves the
-- sockets, after UT_ControlPlane_Stop has asked for the exit and while it waits in pthread_join.
use ut_control.Base.{
  ◌≡◌, ◌≢◌, refl, subst, sym, true, false, List, [], ◌∷◌, All, All-append, All-imp, length, arith,
  ltb, Bool-cases, inl, inr,
}
use ut_control.ControlPlane.Queue.{
  EMessage, data_recieved, exit_requested, unknown, CpMessage, Queue, enqueue_message, max_messages,
  received, dequeue_message,
}
use ut_control.ControlPlane.Queue.Fifo.{
  IsQueue, contents, push, dequeue_message-Pops, enqueue_message-IsQueue, contents-enqueue_message,
  length-contents,
}
use ut_control.ControlPlane.Service.{
  Service, handle_message, handle_status, exit_message, request_exit,
}
use ut_control.ControlPlane.Service.Loop.{IsData}

-- One atomic step of either thread: the state machine goes once round its loop, or the other thread
-- enqueues what a client sent.
pub data Step : Service → Service → Type 0 where
  serve :
      {s : Service} (m : CpMessage) (q : Queue)
      → s.exit_request ≡ false
      → dequeue_message true s.queue ≡ received m q
      → Step s (handle_message m q s)
  receive :
      {s : Service} (m : CpMessage)
      → IsData m
      → Step s (record s { queue = enqueue_message m s.queue })

pub data Reach (s : Service) : Service → Type 0 where
  here : Reach s s
  later : {t u : Service} → Reach s t → Step t u → Reach s u

-- No exit message waits and the thread has not been asked to end.
pub record Runs (s : Service) : Type 0 where
  pub valid : IsQueue s.queue
  pub no_exit : All (λ m. m.status ≢ exit_requested) (contents s.queue)
  pub running : s.exit_request ≡ false

push-no_exit :
    (m : CpMessage) (ms : List CpMessage)
    → m.status ≢ exit_requested
    → All (λ x. x.status ≢ exit_requested) ms
    → All (λ x. x.status ≢ exit_requested) (push m ms)
push-no_exit m ms h all = elim (Bool-cases (ltb (length ms) max_messages)) [
  | inl room ↦
      rw room (All-append (λ (x : CpMessage). x.status ≢ exit_requested) ms (m ∷ []) all (h, tt))
  | inr full ↦ rw full all
]

-- A state with a message of another status than the exit still runs behind it.
handle_status-Runs :
    (st : EMessage) (m : CpMessage) (s : Service)
    → st ≢ exit_requested
    → Runs s
    → Runs (handle_status st m s)
unfolding handle_status
handle_status-Runs exit_requested m s n h = absurd (n refl)
handle_status-Runs data_recieved m s n h = record {
  valid = h.valid;
  no_exit = h.no_exit;
  running = h.running;
}
handle_status-Runs (unknown k) m s n h = h

handle-Runs :
    (m : CpMessage) (q : Queue) (s : Service)
    → s.exit_request ≡ false
    → IsQueue q × (All (λ x. x.status ≢ exit_requested) (m ∷ contents q))
    → Runs (handle_message m q s)
unfolding handle_message
handle-Runs m q s run (valid, all) =
    handle_status-Runs m.status m (record s { queue = q }) all.0
      (record { valid = valid; no_exit = all.1; running = run })

Step-Runs : {s t : Service} → Step s t → Runs s → Runs t
Step-Runs {s} (serve m q run e) h =
    let (valid, order) : IsQueue q × (m ∷ contents q ≡ contents s.queue) =
      rw e at (dequeue_message-Pops h.valid) in
    handle-Runs m q s run (
      valid,
      subst (λ (ms : List CpMessage). All (λ (x : CpMessage). x.status ≢ exit_requested) ms)
          (sym order) h.no_exit,
    )
Step-Runs {s} (receive m d) h = record {
  valid = enqueue_message-IsQueue m h.valid;
  no_exit =
      rw (contents-enqueue_message m h.valid)
        (push-no_exit m (contents s.queue) (λ x. cc (d)) h.no_exit);
  running = h.running;
}

Reach-Runs : {s t : Service} → Runs s → Reach s t → Runs t
Reach-Runs h here = h
Reach-Runs h (later r st) = Step-Runs st (Reach-Runs h r)

data_is_no_exit : (m : CpMessage) → IsData m → m.status ≢ exit_requested
data_is_no_exit m d e = cc (d, e)

-- Where the well-formed queue of a thread that runs is full of messages with data when the exit is
-- asked for, the exit message is lost: in every state that the two threads can reach from there the
-- thread has not been asked to end, so pthread_join does not return.
pub lost_exit :
    (s t : Service)
    → IsQueue s.queue
    → s.queue.message_count ≡ max_messages
    → s.exit_request ≡ false
    → All IsData (contents s.queue)
    → Reach (request_exit s) t
    → t.exit_request ≡ false
unfolding request_exit
lost_exit s t valid full run all r = (Reach-Runs start r).running
  where
    no_room : ltb (length (contents s.queue)) max_messages ≡ false
    no_room = ground (arith, length-contents valid)

    start : Runs (request_exit s)
    start = record {
      valid = enqueue_message-IsQueue exit_message valid;
      no_exit = rw (contents-enqueue_message exit_message valid) (
          rw no_room (
            All-imp IsData (λ m. m.status ≢ exit_requested) (contents s.queue) data_is_no_exit
              all));
      running = run;
    }
