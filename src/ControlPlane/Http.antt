-- ===== src/ControlPlane/Http.antt =====
-- src/ut_control_plane.c: `callback_http` and `callback_echo`, by which libwebsockets hands over
-- what clients send.
pub mod Post
pub mod Echo
use ut_control.Base.{
  ℕ, zero, suc, ◌+◌, Bool, true, false, Option, none, some, List, [], ◌∷◌, ◌++◌, ltb, leb, ◌==◌,
  ◌&&◌, if◌then◌else◌, ◌>>=◌, length, take, drop, ◌≤◌, ◌<◌, ◌≡◌,
}
use ut_control.Base.Int.{ℤ, pos, negsuc, int_max}
use ut_control.CString.{Text, strcmp_eq}
use ut_control.CString.Buffer.{memcpy_at, strncpy_bytes, until_nul}
use ut_control.ControlPlane.Queue.{CpMessage, data_recieved, Queue, enqueue_message}

-- MAX_POST_DATA_SIZE
abbrev pub max_post_data_size : ℕ
max_post_data_size = 4096

-- struct per_session_data__http: the bytes of the array, and how many are used.
pub record Session : Type 0 where
  pub post_data : List ℕ
  pub post_data_len : ℕ

-- The reasons that the code tells apart, with `in` (and `len` as the number of its bytes).
pub data Reason : Type 0 where
  http : (uri : Text) → Reason
  http_body : (bytes : List ℕ) → Reason
  http_body_completion : Reason
  other_reason : Reason

-- What a call leaves: its result, the session's data, the queue, and whether
-- lws_callback_on_writable was called.
pub record Handled : Type 0 where
  pub code : ℤ
  pub session : Option Session
  pub queue : Queue
  pub writable : Bool

abbrev post_uri : Text
post_uri = b'/' ∷ b'a' ∷ b'p' ∷ b'i' ∷ b'/' ∷ b'p' ∷ b'o' ∷ b's' ∷ b't' ∷ b'K' ∷ b'V' ∷ b'P' ∷ []

unfoldable pub unchanged : ℤ → Option Session → Queue → Handled
unchanged code session queue = record {
  code = code;
  session = session;
  queue = queue;
  writable = false;
}

unfoldable pub add_body : List ℕ → Session → Queue → Option Handled
unfolding unchanged
add_body bytes s queue =
    if ltb (s.post_data_len + length bytes) max_post_data_size
    then (memcpy_at s.post_data s.post_data_len bytes >>= λ array. some (
        unchanged (pos 0)
          (some (record { post_data = array; post_data_len = s.post_data_len + length bytes }))
          queue))
    else some (unchanged (negsuc 0) (some s) queue)

-- The message that a completed body becomes.
unfoldable pub posted_message : Session → CpMessage
posted_message s = record {
  status = data_recieved;
  message = some (take s.post_data_len s.post_data ++ 0 ∷ []);
  size = s.post_data_len;
}

unfoldable pub complete_body : (malloc_ok : Bool) → Session → Queue → Handled
unfolding unchanged posted_message
complete_body malloc_ok s queue =
    if malloc_ok
    then unchanged (pos 1) (some (record s { post_data_len = 0 }))
        (enqueue_message (posted_message s) queue)
    else unchanged (pos 0) (some s) queue

-- `malloc_ok`: whether the block for the message can be allocated.
unfoldable pub callback_http : (malloc_ok : Bool) → Reason → Option Session → Queue → Option Handled
unfolding unchanged add_body complete_body
callback_http malloc_ok (http uri) session queue =
    some
      (record { code = pos 0; session = session; queue = queue; writable = strcmp_eq uri post_uri })
callback_http malloc_ok (http_body bytes) none queue = some (unchanged (pos 0) none queue)
callback_http malloc_ok (http_body bytes) (some s) queue = add_body bytes s queue
callback_http malloc_ok http_body_completion none queue = some (unchanged (pos 0) none queue)
callback_http malloc_ok http_body_completion (some s) queue = some (complete_body malloc_ok s queue)
callback_http malloc_ok other_reason session queue = some (unchanged (pos 0) session queue)

-- The reasons of `callback_echo`; `receive` has the bytes at `in`.
pub data EchoReason : Type 0 where
  established other_echo : EchoReason
  receive : List ℕ → EchoReason

-- strncpy into a block of zeros, and a NUL behind it; `assert` ends the program where malloc has
-- failed, which is `none`. So is a `len` from INT_MAX on: `(int)len + 1` overflows, or is a size that
-- malloc refuses, or the block is smaller than the `len` bytes that strncpy writes.
unfoldable pub callback_echo : (malloc_ok : Bool) → EchoReason → Queue → Option Queue
callback_echo malloc_ok established queue = some queue
callback_echo malloc_ok other_echo queue = some queue
callback_echo malloc_ok (receive bytes) queue =
    if malloc_ok && ltb (length bytes) int_max
    then some (
        enqueue_message
          (record {
            status = data_recieved;
            message = some (strncpy_bytes (length bytes) (until_nul bytes) ++ 0 ∷ []);
            size = length bytes;
          })
          queue)
    else none
