-- ===== src/ControlPlane/System/Bodies.antt =====
-- src/ut_control_plane.c: what comes in on many connections against the bodies that clients sent.
use ut_control.Base.{
  ℕ, ◌+◌, ◌≡◌, refl, ap, sym, ◌∙◌, true, Option, some, List, [], ◌∷◌, ◌++◌, ◌==◌, map, length,
  arith, length-take, if◌then◌else◌, ltb, ltb→lt, subst, ==_iff, Bool-cases, inl, inr,
}
use ut_control.Base.Int.{pos, negsuc}
use ut_control.ControlPlane.Queue.{CpMessage, Queue, enqueue_message}
use ut_control.ControlPlane.Queue.Drain.{enqueue_all}
use ut_control.ControlPlane.Http.{
  max_post_data_size, Session, Reason, http, http_body, http_body_completion, other_reason, Handled,
  unchanged, callback_http, add_body, complete_body, posted_message,
}
use ut_control.ControlPlane.Http.Post.{
  IsSession, received, add_body-Extended, message_of, posted_message_lem,
}
use ut_control.ControlPlane.System.{Sessions, put, Event, Sockets, handle_events}

-- The part of a body that has come in on each connection.
abbrev pub Pending : Type 0
Pending = ℕ → List ℕ

-- A block that does not fit the 4096 bytes is left out.
abbrev with_block : ℕ → List ℕ → Pending → Pending
with_block c bytes w =
    if ltb (length (w c) + length bytes) max_post_data_size then put c (w c ++ bytes) w else w

-- What an event leaves pending, and the body that it completes.
abbrev pub pending_after : Event → Pending → Pending
pending_after (c, http uri) w = w
pending_after (c, http_body bytes) w = with_block c bytes w
pending_after (c, http_body_completion) w = put c [] w
pending_after (c, other_reason) w = w

abbrev pub completed : Event → Pending → List (List ℕ)
completed (c, http uri) w = []
completed (c, http_body bytes) w = []
completed (c, http_body_completion) w = w c ∷ []
completed (c, other_reason) w = []

-- The bodies that are complete, in the order in which they become so.
unfoldable pub bodies : List Event → Pending → List (List ℕ)
bodies [] w = []
bodies (e ∷ events) w = completed e w ++ bodies events (pending_after e w)

-- Each connection's data is well-formed and holds the part of its body.
abbrev pub Hold : Sessions → Pending → Type 0
Hold sessions w = (c : ℕ) → IsSession (sessions c) × (received (sessions c) ≡ w c)

put-Hold :
    (sessions : Sessions) (w : Pending) (c : ℕ) (s : Session) (b : List ℕ)
    → IsSession s
    → received s ≡ b
    → Hold sessions w
    → Hold (put c s sessions) (put c b w)
put-Hold sessions w c s b h e all d = elim (Bool-cases (d == c)) [
  | inl same ↦ rw same (h, e)
  | inr other ↦ rw other (all d)
]

same-Hold :
    (sessions : Sessions) (w : Pending) (c : ℕ)
    → Hold sessions w
    → Hold (put c (sessions c) sessions) w
same-Hold sessions w c all d = elim (Bool-cases (d == c)) [
  | inl same ↦ rw same (
      subst (λ (x : ℕ). IsSession (sessions c) × (received (sessions c) ≡ w x))
        (sym ((==_iff d c).0 same)) (all c))
  | inr other ↦ rw other (all d)
]

-- The result of the events: the data of the connections stays well-formed, and the bodies are
-- enqueued as messages.
abbrev pub Enqueues : List (List ℕ) → Queue → Option Sockets → Type 0
Enqueues bs queue r =
    (sessions : Sessions) × ((c : ℕ) → IsSession (sessions c))
    × (r ≡ some (sessions, enqueue_all (map message_of bs) queue))

-- One event: what is left on the connection, and the messages that it makes.
abbrev pub Moves : ℕ → Pending → List (List ℕ) → Sessions → Queue → Option Handled → Type 0
Moves c w' bs sessions queue r =
    (h : Handled) × (s : Session) × (r ≡ some h)
    × (h.session ≡ some s)
    × (h.queue ≡ enqueue_all (map message_of bs) queue)
    × Hold (put c s sessions) w'

length-received : (s : Session) → IsSession s → length (received s) ≡ s.post_data_len
length-received s h = omega (arith, length-take s.post_data_len s.post_data, h.array, h.room)

block-Moves :
    (c : ℕ) (bytes : List ℕ) (w : Pending) (sessions : Sessions) (queue : Queue)
    → Hold sessions w
    → Moves c
        (with_block c bytes w)
        []
        sessions
        queue
        (callback_http true (http_body bytes) (some (sessions c)) queue)
unfolding callback_http add_body unchanged enqueue_all
block-Moves c bytes w sessions queue all =
    let s = sessions c in
    let count : length (w c) ≡ s.post_data_len =
      ap length (sym ((all c).1)) ∙ length-received s ((all c).0) in
    elim (Bool-cases (ltb (length (w c) + length bytes) max_post_data_size)) [
      | inl fits ↦
          let (s', e, h', more, n) =
            add_body-Extended s bytes queue ((all c).0) (
              omega (arith, count, ltb→lt (length (w c) + length bytes) max_post_data_size fits)) in
          (
            unchanged (pos 0) (some s') queue,
            s',
            e,
            refl,
            refl,
            rw fits (
                put-Hold sessions w c s' (w c ++ bytes) h'
                  (more ∙ ap (λ (x : List ℕ). x ++ bytes) ((all c).1)) all),
          )
      | inr over ↦ (
        unchanged (negsuc 0) (some s) queue,
        s,
        rw (rw count at over),
        refl,
        refl,
        rw over (same-Hold sessions w c all),
      )
    ]

completion-Moves :
    (c : ℕ) (w : Pending) (sessions : Sessions) (queue : Queue)
    → Hold sessions w
    → Moves c
        (put c [] w)
        (w c ∷ [])
        sessions
        queue
        (callback_http true http_body_completion (some (sessions c)) queue)
unfolding callback_http complete_body unchanged enqueue_all
completion-Moves c w sessions queue all =
    let s = sessions c in
    let s' : Session = record s { post_data_len = 0 } in
    (
      unchanged (pos 1) (some s') (enqueue_message (posted_message s) queue),
      s',
      refl,
      refl,
      ap (λ (m : CpMessage). enqueue_message m queue)
          (posted_message_lem s ((all c).0) ∙ ap message_of ((all c).1)),
      put-Hold sessions w c s' [] (record { array = (all c).0.array; room = omega arith }) refl all,
    )

-- Every call of `callback_http` does this.
pub event-Moves :
    (c : ℕ) (r : Reason) (w : Pending) (sessions : Sessions) (queue : Queue)
    → Hold sessions w
    → Moves c
        (pending_after (c, r) w)
        (completed (c, r) w)
        sessions
        queue
        (callback_http true r (some (sessions c)) queue)
unfolding callback_http unchanged enqueue_all
event-Moves c (http uri) w sessions queue all =
    (_, sessions c, refl, refl, refl, same-Hold sessions w c all)
event-Moves c (http_body bytes) w sessions queue all = block-Moves c bytes w sessions queue all
event-Moves c http_body_completion w sessions queue all = completion-Moves c w sessions queue all
event-Moves c other_reason w sessions queue all =
    (_, sessions c, refl, refl, refl, same-Hold sessions w c all)

enqueue_all-append :
    (xs ys : List (List ℕ)) (queue : Queue)
    → enqueue_all (map message_of (xs ++ ys)) queue
      ≡ enqueue_all (map message_of ys) (enqueue_all (map message_of xs) queue)
unfolding enqueue_all
enqueue_all-append [] ys queue = refl
enqueue_all-append (x ∷ xs) ys queue =
    enqueue_all-append xs ys (enqueue_message (message_of x) queue)

-- Whatever comes in on the connections, in any order, is put together by connection: every body is
-- enqueued, with memory for it, as one message with its bytes when it is complete, and no connection
-- has a part in another one's.
pub handle_events-Enqueues :
    (events : List Event) (w : Pending) (sessions : Sessions) (queue : Queue)
    → Hold sessions w
    → Enqueues (bodies events w) queue (handle_events true events (sessions, queue))
unfolding handle_events bodies enqueue_all
handle_events-Enqueues [] w sessions queue all = (sessions, (λ c. (all c).0), refl)
handle_events-Enqueues ((c, r) ∷ events) w sessions queue all =
    let w' = pending_after (c, r) w in
    let (h, s, e, kept, q, all') = event-Moves c r w sessions queue all in
    let (sessions', valid, f) = handle_events-Enqueues events w' (put c s sessions) h.queue all' in
    (
      sessions',
      valid,
      rw e (rw kept f)
          ∙ ap (λ (x : Queue). some (sessions', enqueue_all (map message_of (bodies events w')) x))
              q
          ∙ ap (λ (x : Queue). some (sessions', x))
              (sym (enqueue_all-append (completed (c, r) w) (bodies events w') queue)),
    )
