-- ===== src/ControlPlane/Http/Post.antt =====
-- src/ut_control_plane.c: a POST in several blocks, from the first to its completion.
use ut_control.Base.{
  concat, ℕ, ◌+◌, ◌<◌, ◌≡◌, refl, ap, sym, ◌∙◌, Bool, true, Option, none, some, List, [], ◌∷◌, ◌++◌,
  length, take, drop, arith, lt→ltb, length-append, length-take, length-drop, append_assoc,
  append-nil, take_full,
}
use ut_control.Base.Int.{pos, negsuc}
use ut_control.ControlPlane.Queue.{CpMessage, data_recieved, Queue, enqueue_message}
use ut_control.CString.Buffer.{memcpy_at-inside}
use ut_control.ControlPlane.Http.{
  max_post_data_size, Session, http_body, http_body_completion, Handled, unchanged, add_body,
  posted_message, callback_http,
}

-- The array has its size, and a byte is left for a NUL.
pub record IsSession (s : Session) : Type 0 where
  pub array : length s.post_data ≡ max_post_data_size
  pub room : s.post_data_len < max_post_data_size

abbrev pub received : Session → List ℕ
received s = take s.post_data_len s.post_data

-- A session after `bytes` has been put behind what was received.
abbrev pub Extended : Session → List ℕ → Option Handled → Queue → Type 0
Extended s bytes r queue =
    (s' : Session) × (r ≡ some (unchanged (pos 0) (some s') queue))
    × IsSession s'
    × (received s' ≡ received s ++ bytes)
    × (s'.post_data_len ≡ s.post_data_len + length bytes)

pub add_body-Extended :
    (s : Session) (bytes : List ℕ) (queue : Queue)
    → IsSession s
    → s.post_data_len + length bytes < max_post_data_size
    → Extended s bytes (add_body bytes s queue) queue
unfolding add_body
add_body-Extended s bytes queue h fits =
    let n = s.post_data_len + length bytes in
    let array = take s.post_data_len s.post_data ++ (bytes ++ drop n s.post_data) in
    let front : length (take s.post_data_len s.post_data) ≡ s.post_data_len =
      omega (arith, length-take s.post_data_len s.post_data, h.array, h.room) in
    let full : length array ≡ max_post_data_size = omega (
      arith,
      front,
      length-append (take s.post_data_len s.post_data) (bytes ++ drop n s.post_data),
      length-append bytes (drop n s.post_data),
      length-drop n s.post_data,
      h.array,
    ) in
    (
      record { post_data = array; post_data_len = n },
      rw (
        lt→ltb n max_post_data_size fits,
        memcpy_at-inside s.post_data bytes s.post_data_len (omega (arith, h.array)),
      ),
      record { array = full; room = fits },
      ap (take n) (sym (append_assoc (take s.post_data_len s.post_data) bytes (drop n s.post_data)))
          ∙ take_full n (take s.post_data_len s.post_data ++ bytes) (drop n s.post_data)
              (omega (arith, front, length-append (take s.post_data_len s.post_data) bytes)),
      refl,
    )

-- The calls of `callback_http` for the blocks of a body, one after the other, as long as each
-- returns 0.
abbrev pub continue_post : (Session → Queue → Option Handled) → Option Handled → Option Handled
continue_post later none = none
continue_post later (some h) = elim (h.session) [
  | none ↦ some h
  | some s ↦ elim (h.code) [ pos n ↦ later s h.queue | negsuc n ↦ some h ]
]

pub post_blocks : (malloc_ok : Bool) → List (List ℕ) → Session → Queue → Option Handled
post_blocks malloc_ok [] s queue = callback_http malloc_ok http_body_completion (some s) queue
post_blocks malloc_ok (block ∷ blocks) s queue =
    continue_post (post_blocks malloc_ok blocks)
      (callback_http malloc_ok (http_body block) (some s) queue)

-- The message for a body of these bytes.
abbrev pub message_of : List ℕ → CpMessage
message_of bytes = record {
  status = data_recieved;
  message = some (bytes ++ 0 ∷ []);
  size = length bytes;
}

-- The body is enqueued as one message, and the session is empty again.
abbrev pub Posted : List ℕ → Queue → Option Handled → Type 0
Posted bytes queue r =
    (s' : Session) × IsSession s'
    × (s'.post_data_len ≡ 0)
    × (r ≡ some (unchanged (pos 1) (some s') (enqueue_message (message_of bytes) queue)))

pub posted_message_lem : (s : Session) → IsSession s → posted_message s ≡ message_of (received s)
unfolding posted_message
posted_message_lem s h =
    ap
      (λ (n : ℕ). record {
        status = data_recieved;
        message = some (received s ++ 0 ∷ []);
        size = n;
      })
      (omega (arith, length-take s.post_data_len s.post_data, h.array, h.room))

post_blocks-Posted :
    (blocks : List (List ℕ)) (s : Session) (queue : Queue)
    → IsSession s
    → s.post_data_len + length (concat blocks) < max_post_data_size
    → Posted (received s ++ concat blocks) queue (post_blocks true blocks s queue)
unfolding post_blocks callback_http unchanged
post_blocks-Posted [] s queue h fits = (
  record s { post_data_len = 0 },
  record { array = h.array; room = omega arith },
  refl,
  rw append-nil (
      ap
        (λ (m : CpMessage).
          some
            (unchanged (pos 1) (some (record s { post_data_len = 0 })) (enqueue_message m queue)))
        (posted_message_lem s h)),
)
post_blocks-Posted (block ∷ blocks) s queue h fits =
    let (s', e, h', all, n) =
      add_body-Extended s block queue h (omega (arith, length-append block (concat blocks))) in
    let (t, ht, zero', last) =
      post_blocks-Posted blocks s' queue h'
        (omega (arith, n, length-append block (concat blocks))) in
    let regroup : received s' ++ concat blocks ≡ received s ++ (block ++ concat blocks) =
      ap (λ (x : List ℕ). x ++ concat blocks) all
      ∙ append_assoc (received s) block (concat blocks) in
    (t, ht, zero', rw e (rw (← regroup) last))

-- A body that arrives on an empty session in any number of blocks, with fewer than 4096 bytes in
-- all, is enqueued (with memory for it) as one message with exactly those bytes and a NUL behind
-- them, and the session is well-formed and empty again.
pub post_body :
    (blocks : List (List ℕ)) (s : Session) (queue : Queue)
    → IsSession s
    → s.post_data_len ≡ 0
    → length (concat blocks) < max_post_data_size
    → Posted (concat blocks) queue (post_blocks true blocks s queue)
post_body blocks s queue h empty fits =
    rw (← front) (post_blocks-Posted blocks s queue h (omega (arith, empty)))
  where
    front : received s ++ concat blocks ≡ concat blocks
    front = ap (λ (n : ℕ). take n s.post_data ++ concat blocks) empty
