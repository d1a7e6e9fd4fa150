-- ===== src/ControlPlane/Service/Loop.antt =====
-- src/ut_control_plane.c: the loop of `service_state_machine` over a queue in which an exit message
-- waits.
use ut_control.Base.{
  ℕ, zero, suc, ◌+◌, ◌≤◌, ◌<◌, ◌≡◌, refl, ap, sym, ◌∙◌, true, false, List, [], ◌∷◌, ◌++◌, All,
  length, arith, append-nil, append_assoc, lt→ltb,
}
use ut_control.ControlPlane.Queue.{
  data_recieved, exit_requested, CpMessage, Queue, enqueue_message, max_messages, dequeue_message,
}
use ut_control.ControlPlane.Queue.Fifo.{
  IsQueue, contents, Pops-received, dequeue_message-Pops, enqueue_message-IsQueue,
  contents-enqueue_message, length-contents,
}
use ut_control.ControlPlane.Service.{
  Service, handle_message, Served, stopped, service_loop, exit_message, request_exit,
}

abbrev pub IsData : CpMessage → Type 0
IsData m = m.status ≡ data_recieved

-- The thread ends; it has handled `ms` behind what it had handled, and `rest` is left in the queue.
abbrev pub Ended : Service → List CpMessage → List CpMessage → Served → Type 0
Ended s ms rest r =
    (t : Service) × (r ≡ stopped t)
    × (t.exit_request ≡ true)
    × (t.handled ≡ s.handled ++ ms)
    × IsQueue t.queue
    × (contents t.queue ≡ rest)

pub handle_data :
    (m : CpMessage) (q : Queue) (s : Service)
    → IsData m
    → handle_message m q s ≡ record s { queue = q; handled = s.handled ++ m ∷ [] }
unfolding handle_message
handle_data m q s h = rw h

pub handle_exit :
    (m : CpMessage) (q : Queue) (s : Service)
    → m.status ≡ exit_requested
    → handle_message m q s ≡ record s { queue = q; exit_request = true }
unfolding handle_message
handle_exit m q s h = rw h

stopped_at_once :
    (fuel : ℕ) (s : Service) → s.exit_request ≡ true → service_loop (suc fuel) s ≡ stopped s
unfolding service_loop
stopped_at_once fuel s h = rw h

-- One round takes the oldest message.
one_round :
    (fuel : ℕ) (s : Service) (m : CpMessage) (ms : List CpMessage)
    → IsQueue s.queue
    → s.exit_request ≡ false
    → contents s.queue ≡ m ∷ ms
    → (q : Queue) × (service_loop (suc fuel) s ≡ service_loop fuel (handle_message m q s))
      × IsQueue q
      × (contents q ≡ ms)
unfolding service_loop
one_round fuel s m ms valid run e =
    let (q, d, valid', rest) =
      Pops-received (dequeue_message true s.queue) m ms (rw e at (dequeue_message-Pops valid)) in
    (q, rw (run) (rw d), valid', rest)

pub service_loop-Ended :
    (ms rest : List CpMessage) (fuel : ℕ) (s : Service)
    → IsQueue s.queue
    → s.exit_request ≡ false
    → All IsData ms
    → contents s.queue ≡ ms ++ exit_message ∷ rest
    → length ms + 2 ≤ fuel
    → Ended s ms rest (service_loop fuel s)
service_loop-Ended ms rest zero s valid run all e b = absurd (omega arith)
service_loop-Ended [] rest (suc zero) s valid run all e b = absurd (omega arith)
service_loop-Ended [] rest (suc (suc fuel)) s valid run all e b =
    let (q, step, valid', left) = one_round (suc fuel) s exit_message rest valid run e in
    (
      record s { queue = q; exit_request = true },
      step
          ∙ ap (service_loop (suc fuel)) (handle_exit exit_message q s refl)
          ∙ stopped_at_once fuel _ refl,
      refl,
      sym (append-nil s.handled),
      valid',
      left,
    )
service_loop-Ended (m ∷ ms) rest (suc fuel) s valid run all e b =
    let (q, step, valid', left) = one_round fuel s m (ms ++ exit_message ∷ rest) valid run e in
    let s' : Service = record s { queue = q; handled = s.handled ++ m ∷ [] } in
    let (t, ends, flag, order, queued, after) =
      service_loop-Ended ms rest fuel s' valid' run all.1 left (omega arith) in
    (
      t,
      step ∙ ap (service_loop fuel) (handle_data m q s all.0) ∙ ends,
      flag,
      order ∙ append_assoc s.handled (m ∷ []) ms,
      queued,
      after,
    )

-- Where a well-formed queue has room for the exit message behind messages with data, a thread that
-- runs handles exactly those messages, in the order in which they were enqueued, and then ends,
-- with no message left. Fuel of two more than their number is enough.
pub request_exit-Ended :
    (s : Service)
    → IsQueue s.queue
    → s.queue.message_count < max_messages
    → s.exit_request ≡ false
    → All IsData (contents s.queue)
    → Ended s (contents s.queue) [] (service_loop (s.queue.message_count + 2) (request_exit s))
unfolding request_exit
request_exit-Ended s valid room run all =
    service_loop-Ended (contents s.queue) [] (s.queue.message_count + 2)
      (record s { queue = enqueue_message exit_message s.queue })
      (enqueue_message-IsQueue exit_message valid) run all
      (contents-enqueue_message exit_message valid
        ∙ rw (
            lt→ltb (length (contents s.queue)) max_messages (omega (arith, length-contents valid))))
      (omega (arith, length-contents valid))
