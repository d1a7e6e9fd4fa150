-- ===== src/ControlPlane/System/Threads.antt =====
-- src/ut_control_plane.c: the thread that serves the sockets and the state machine's thread, in any
-- schedule, from what comes in on the connections to the calls that are made.
use ut_control.Base.{
  ℕ, ◌<◌, ◌≡◌, refl, subst, ap, sym, ◌∙◌, true, false, Option, some, List, [], ◌∷◌, ◌++◌, map,
  append_assoc, append-nil,
}
use mathlib.Core.List.{map-append}
use ut_control.ControlPlane.Queue.{CpMessage, Queue, received, dequeue_message, max_messages}
use ut_control.ControlPlane.Queue.Drain.{enqueue_all}
use ut_control.ControlPlane.Http.{
  Session, Reason, http, http_body, http_body_completion, other_reason, Handled, callback_http,
}
use ut_control.ControlPlane.Http.Post.{message_of}
use ut_control.ControlPlane.Service.{Service, handle_message}
use ut_control.ControlPlane.Service.Interleaving.{serve, receive, Reach, here, later}
use ut_control.ControlPlane.Service.Delivery.{came_in, FoundRoom}
use ut_control.ControlPlane.System.{Sessions, put, Event}
use ut_control.ControlPlane.System.Bodies.{
  Pending, pending_after, completed, bodies, Hold, Moves, event-Moves,
}

-- One step: the state machine goes once round its loop, or `callback_http` is called.
pub data Move : Sessions → Service → Sessions → Service → Type 0 where
  handles :
      {sessions : Sessions} {s : Service} (m : CpMessage) (q : Queue)
      → s.exit_request ≡ false
      → dequeue_message true s.queue ≡ received m q
      → Move sessions s sessions (handle_message m q s)
  calls :
      {sessions : Sessions} {s : Service} (c : ℕ) (r : Reason) (h : Handled) (data' : Session)
      → callback_http true r (some (sessions c)) s.queue ≡ some h
      → h.session ≡ some data'
      → Move sessions s (put c data' sessions) (record s { queue = h.queue })

pub data Run (sessions : Sessions) (s : Service) : Sessions → Service → Type 0 where
  start : Run sessions s sessions s
  then : {σ τ : Sessions} {t u : Service} → Run sessions s σ t → Move σ t τ u → Run sessions s τ u

-- What came in, the oldest first.
unfoldable pub events :
    {sessions : Sessions} {s : Service} {σ : Sessions} {t : Service}
    → Run sessions s σ t
    → List Event
events start = []
events (then run (handles m q on e)) = events run
events (then run (calls c r h d e kept)) = events run ++ (c, r) ∷ []

abbrev pub Slot : Reason → Queue → Type 0
Slot http_body_completion q = q.message_count < max_messages
Slot _ q = Unit

-- Each body that was complete found a free slot.
unfoldable pub AllSlots :
    {sessions : Sessions} {s : Service} {σ : Sessions} {t : Service} → Run sessions s σ t → Type 0
AllSlots start = Unit
AllSlots (then run (handles m q on e)) = AllSlots run
AllSlots (then {t} run (calls c r h d e kept)) = AllSlots run × Slot r t.queue

-- What is pending after events.
pub pending : List Event → Pending → Pending
pending [] w = w
pending (e ∷ es) w = pending es (pending_after e w)

pending-last :
    (es : List Event) (e : Event) (w : Pending)
    → pending (es ++ e ∷ []) w ≡ pending_after e (pending es w)
unfolding pending
pending-last [] e w = refl
pending-last (x ∷ es) e w = pending-last es e (pending_after x w)

bodies-last :
    (es : List Event) (e : Event) (w : Pending)
    → bodies (es ++ e ∷ []) w ≡ bodies es w ++ completed e (pending es w)
unfolding bodies pending
bodies-last [] e w = append-nil (completed e w)
bodies-last (x ∷ es) e w =
    ap (λ (bs : List (List ℕ)). completed x w ++ bs) (bodies-last es e (pending_after x w))
    ∙ sym (
        append_assoc (completed x w) (bodies es (pending_after x w))
          (completed e (pending es (pending_after x w))))

-- The same run as steps of the service alone, in which bodies are messages that come in.
abbrev pub Projected : Service → List (List ℕ) → Service → Type 0
Projected s bs t = (r : Reach s t) × (came_in r ≡ map message_of bs) × FoundRoom r

-- A call that enqueues nothing is no step.
quiet :
    (s t : Service) (bs : List (List ℕ)) (queue : Queue)
    → queue ≡ t.queue
    → Projected s bs t
    → Projected s (bs ++ []) (record t { queue = queue })
quiet s t bs queue e p =
    subst (λ (q : Queue). Projected s (bs ++ []) (record t { queue = q })) (sym e)
      (subst (λ (x : List (List ℕ)). Projected s x t) (sym (append-nil bs)) p)

with_message :
    (s t : Service) (r : Reason) (c : ℕ) (w : Pending) (bs : List (List ℕ)) (queue : Queue)
    → queue ≡ enqueue_all (map message_of (completed (c, r) w)) t.queue
    → Slot r t.queue
    → Projected s bs t
    → Projected s (bs ++ completed (c, r) w) (record t { queue = queue })
unfolding came_in FoundRoom enqueue_all
with_message s t (http uri) c w bs queue e slot p = quiet s t bs queue e p
with_message s t (http_body bytes) c w bs queue e slot p = quiet s t bs queue e p
with_message s t http_body_completion c w bs queue e slot (reach, in', room) =
    subst (λ (q : Queue). Projected s (bs ++ w c ∷ []) (record t { queue = q })) (sym e)
      (
        later reach (receive (message_of (w c)) refl),
        ap (λ (ms : List CpMessage). ms ++ message_of (w c) ∷ []) in'
            ∙ sym (map-append message_of bs (w c ∷ [])),
        (room, slot),
      )
with_message s t other_reason c w bs queue e slot p = quiet s t bs queue e p

known_result :
    (c : ℕ) (w : Pending) (bs : List (List ℕ)) (sessions : Sessions) (queue : Queue)
    (r : Option Handled) (h : Handled) (d : Session)
    → Moves c w bs sessions queue r
    → r ≡ some h
    → h.session ≡ some d
    → (h.queue ≡ enqueue_all (map message_of bs) queue) × Hold (put c d sessions) w
known_result c w bs sessions queue r h d (h', d', e', kept', q, hold) e kept =
    let same : h' ≡ h = cc (e', e) in
    let same_data : d' ≡ d = cc (same, kept', kept) in
    (
      ap Handled.queue (sym same) ∙ q,
      subst (λ (x : Session). Hold (put c x sessions) w) same_data hold,
    )

pub run-Projected :
    {sessions : Sessions} {s : Service} {σ : Sessions} {t : Service} (run : Run sessions s σ t)
    (w : Pending)
    → Hold sessions w
    → AllSlots run
    → Projected s (bodies (events run) w) t × Hold σ (pending (events run) w)
unfolding events AllSlots bodies pending came_in FoundRoom
run-Projected start w all slots = ((here, refl, tt), all)
run-Projected (then run (handles m q on e)) w all slots =
    let ((r, in', room), all') = run-Projected run w all slots in
    ((later r (serve m q on e), in', room), all')
run-Projected {s} (then {σ} {t} run (calls c r h d e kept)) w all slots =
    let (p, all') = run-Projected run w all slots.0 in
    let w' = pending (events run) w in
    let (q, all'') =
      known_result c (pending_after (c, r) w') (completed (c, r) w') σ t.queue _ h d
        (event-Moves c r w' σ t.queue all') e kept in
    (
      rw (bodies-last (events run) (c, r) w)
          (with_message s t r c w' (bodies (events run) w) h.queue q slots.1 p),
      rw (pending-last (events run) (c, r) w) all'',
    )
