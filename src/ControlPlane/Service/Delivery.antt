-- ===== src/ControlPlane/Service/Delivery.antt =====
-- src/ut_control_plane.c: messages from the thread that receives them to their handling, in any
-- schedule of the two threads.
use ut_control.Base.{
  ℕ, ◌+◌, ◌≤◌, ◌<◌, ◌≡◌, ◌⊎◌, inl, inr, ap, sym, ◌∙◌, true, false, List, [], ◌∷◌, ◌++◌, All,
  All-append, length, arith, append_assoc, append-nil, lt→ltb,
}
use ut_control.ControlPlane.Queue.{
  CpMessage, Queue, enqueue_message, max_messages, received, dequeue_message,
}
use ut_control.ControlPlane.Queue.Fifo.{
  IsQueue, contents, dequeue_message-Pops, enqueue_message-IsQueue, contents-enqueue_message,
  length-contents,
}
use ut_control.ControlPlane.Service.{Service, handle_message, request_exit}
use ut_control.ControlPlane.Service.Loop.{IsData, handle_data}
use ut_control.ControlPlane.Service.Interleaving.{serve, receive, Reach, here, later}
use ut_control.ControlPlane.Service.Schedule.{serves, schedule-Scheduled}

-- The messages that came in, the oldest first.
unfoldable pub came_in : {s t : Service} → Reach s t → List CpMessage
came_in here = []
came_in (later r (serve m q run e)) = came_in r
came_in (later r (receive m d)) = came_in r ++ m ∷ []

-- Each found a free slot.
unfoldable pub FoundRoom : {s t : Service} → Reach s t → Type 0
FoundRoom here = Unit
FoundRoom (later r (serve m q run e)) = FoundRoom r
FoundRoom (later {t} r (receive m d)) = FoundRoom r × (t.queue.message_count < max_messages)

-- What has been handled and what waits are together the messages `ms`.
record Accounts (ms : List CpMessage) (t : Service) : Type 0 where
  valid : IsQueue t.queue
  data' : All IsData (contents t.queue)
  running : t.exit_request ≡ false
  account : t.handled ++ contents t.queue ≡ ms

serve-Accounts :
    (ms : List CpMessage) (t : Service) (m : CpMessage) (q : Queue)
    → dequeue_message true t.queue ≡ received m q
    → Accounts ms t
    → Accounts ms (handle_message m q t)
serve-Accounts ms t m q e a =
    let (valid, order) : IsQueue q × (m ∷ contents q ≡ contents t.queue) =
      rw e at (dequeue_message-Pops a.valid) in
    let (first, rest) : All IsData (m ∷ contents q) = rw (← order) at a.data' in
    rw (handle_data m q t first) (record {
      valid = valid;
      data' = rest;
      running = a.running;
      account =
          append_assoc t.handled (m ∷ []) (contents q)
          ∙ ap (λ (c : List CpMessage). t.handled ++ c) order
          ∙ a.account;
    })

receive-Accounts :
    (ms : List CpMessage) (t : Service) (m : CpMessage)
    → IsData m
    → t.queue.message_count < max_messages
    → Accounts ms t
    → Accounts (ms ++ m ∷ []) (record t { queue = enqueue_message m t.queue })
receive-Accounts ms t m d room a =
    let waits : contents (enqueue_message m t.queue) ≡ contents t.queue ++ m ∷ [] =
      contents-enqueue_message m a.valid
      ∙ rw (
          lt→ltb (length (contents t.queue)) max_messages
            (omega (arith, length-contents a.valid))) in
    record {
      valid = enqueue_message-IsQueue m a.valid;
      data' = rw waits (All-append IsData (contents t.queue) (m ∷ []) a.data' (d, tt));
      running = a.running;
      account =
          ap (λ (c : List CpMessage). t.handled ++ c) waits
          ∙ sym (append_assoc t.handled (contents t.queue) (m ∷ []))
          ∙ ap (λ (c : List CpMessage). c ++ m ∷ []) a.account;
    }

reached-Accounts :
    {s t : Service} (r : Reach s t)
    → IsQueue s.queue
    → s.exit_request ≡ false
    → All IsData (contents s.queue)
    → FoundRoom r
    → Accounts ((s.handled ++ contents s.queue) ++ came_in r) t
unfolding came_in FoundRoom
reached-Accounts {s} here valid run all room = record {
  valid = valid;
  data' = all;
  running = run;
  account = sym (append-nil (s.handled ++ contents s.queue));
}
reached-Accounts {s} (later {t} r (serve m q run' e)) valid run all room =
    serve-Accounts ((s.handled ++ contents s.queue) ++ came_in r) t m q e
      (reached-Accounts r valid run all room)
reached-Accounts {s} (later {t} r (receive m d)) valid run all room =
    rw (← append_assoc (s.handled ++ contents s.queue) (came_in r) (m ∷ [])) (
      receive-Accounts ((s.handled ++ contents s.queue) ++ came_in r) t m d room.1
        (reached-Accounts r valid run all room.0))

-- After `n` rounds behind the exit message: the state machine has been asked to end, and then `ms`
-- are the messages that it has handled; or it has not, and can go round again.
abbrev pub Delivers : (ms : List CpMessage) → Service → ℕ → Service → Type 0
Delivers ms t n u =
    ((u.exit_request ≡ true) × (n ≡ length (contents t.queue) + 1) × (u.handled ≡ ms))
    ⊎ ((u.exit_request ≡ false)
        × (n ≤ length (contents t.queue))
        × (m : CpMessage) × (q : Queue) × (dequeue_message true u.queue ≡ received m q))

-- The two threads take turns in any way, and each message that comes in finds a free slot, as the exit
-- message of UT_ControlPlane_Stop does then; the threads go on to take turns. When the exit message
-- is enqueued, what has been handled and what waits are together, in order, what there was and what
-- has come in; the state machine is asked to end after one round more than messages waited, having
-- handled exactly these, each once, and until then it can always go round again.
pub stopped-Delivers :
    {s t u : Service} (before : Reach s t) (after : Reach (request_exit t) u)
    → IsQueue s.queue
    → s.exit_request ≡ false
    → All IsData (contents s.queue)
    → FoundRoom before
    → t.queue.message_count < max_messages
    → (t.handled ++ contents t.queue ≡ (s.handled ++ contents s.queue) ++ came_in before)
      × Delivers ((s.handled ++ contents s.queue) ++ came_in before) t (serves after) u
stopped-Delivers {s} {t} {u} before after valid run all room free =
    let a = reached-Accounts before valid run all room in
    (
      a.account,
      elim (schedule-Scheduled t a.valid free a.running a.data' after) [
        | inl (end, rounds, order) ↦ inl (end, rounds, order ∙ a.account)
        | inr (going, rounds, order, m, q, more) ↦ inr (going, rounds, m, q, more)
      ],
    )
