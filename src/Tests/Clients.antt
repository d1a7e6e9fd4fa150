-- ===== src/Tests/Clients.antt =====
-- Posts, dispatch, the conversion tables and downloads at concrete inputs.
use ut_control.Base.{
  ℕ, ◌++◌, drop, length, ◌≡◌, refl, Bool, true, false, none, some, List, [], ◌∷◌, replicate, arith,
}
use ut_control.Base.Int.{pos}
use ut_control.CString.{strcmp_eq}
use ut_control.Kvp.Pattern.{find_pattern_from_buffer}
use ut_control.Kvp.Pattern.First.{Finds, find_pattern_from_buffer-Finds}
use ut_control.ControlPlane.Queue.{data_recieved, CpMessage, Queue, enqueue_message}
use ut_control.ControlPlane.Http.{Session, http, http_body, http_body_completion}
use ut_control.ControlPlane.Http.Post.{message_of, Posted, post_blocks, post_body}
use ut_control.ControlPlane.Callbacks.{CallbackTable, Call}
use ut_control.ControlPlane.Callbacks.Dispatch.{entry}
use ut_control.ControlPlane.Mapping.{KeyStringMapping, get_map_value, get_map_string}
use ut_control.ControlPlane.Mapping.Inverse.{get_map_value-get_map_string}
use ut_control.CString.Literal.{codes}
use ut_control.ControlPlane.System.{Sessions, Event}
use ut_control.ControlPlane.Service.{Service}
use ut_control.ControlPlane.System.{put}
use ut_control.ControlPlane.System.Threads.{Run, start, then, calls}
use ut_control.ControlPlane.Lifecycle.{fresh}
use ut_control.CString.Buffer.{memcpy_at}
use ut_control.ControlPlane.Http.{complete_body, posted_message, callback_http, unchanged, add_body}
use ut_control.ControlPlane.Http.{Handled, callback_echo, receive}
use ut_control.ControlPlane.Http.Echo.{padded_message, callback_echo-post_blocks}

-- A session on which nothing has been received.
abbrev pub idle : Session
idle = record { post_data = replicate 4096 0; post_data_len = 0 }

abbrev empty_queue : Queue
empty_queue = record {
  message_queue = replicate 32 (record { status = data_recieved; message = none; size = 0 });
  message_count = 0;
}

post_body_example :
    Posted
      (b'a' ∷ b'b' ∷ b'c' ∷ [])
      empty_queue
      (post_blocks true ((b'a' ∷ b'b' ∷ []) ∷ (b'c' ∷ []) ∷ []) idle empty_queue)
post_body_example =
    post_body ((b'a' ∷ b'b' ∷ []) ∷ (b'c' ∷ []) ∷ []) idle empty_queue
      (record { array = refl; room = omega arith }) refl (omega arith)

-- Two functions, registered for "k" and for "x".
abbrev pub call_k : Call
call_k = record { key = b'k' ∷ []; p_callback = 7; user_data = 9 }

abbrev pub call_x : Call
call_x = record { key = b'x' ∷ []; p_callback = 8; user_data = 9 }

abbrev pub table : CallbackTable
table = record { callback_entry_list = entry call_k ∷ entry call_x ∷ []; callback_entry_index = 2 }

abbrev pub message_k : CpMessage
message_k = record { status = data_recieved; message = some (b'k' ∷ 0 ∷ []); size = 1 }

-- "k" on connection 0, and on connection 1 the first block of a body that does not end.
abbrev pub two_rounds : List (Bool × List Event)
two_rounds =
    (false, (0, http (codes "/api/postKVP")) ∷ (1, http_body (b'x' ∷ [])) ∷ [])
    ∷ (false, (0, http_body (b'k' ∷ [])) ∷ (0, http_body_completion) ∷ [])
    ∷ []

-- Connection 1 begins a body, and "k" comes in on connection 0.
abbrev pub data_of : List ℕ → ℕ → Session
data_of bytes n = record {
  post_data = bytes ++ drop (length bytes) idle.post_data;
  post_data_len = n;
}

abbrev pub two_began : Sessions
two_began = put 0 (data_of (b'k' ∷ []) 1) (put 1 (data_of (b'x' ∷ []) 1) (λ c. idle))

unfoldable pub began : Run (λ c. idle) fresh.service two_began fresh.service
unfolding callback_http unchanged add_body memcpy_at
began =
    then
      (then start (
        calls 1 (http_body (b'x' ∷ []))
          (unchanged (pos 0) (some (data_of (b'x' ∷ []) 1)) fresh.service.queue)
          (data_of (b'x' ∷ []) 1) refl refl))
      (calls 0 (http_body (b'k' ∷ []))
        (unchanged (pos 0) (some (data_of (b'k' ∷ []) 1)) fresh.service.queue)
        (data_of (b'k' ∷ []) 1) refl refl)

-- Then the body on connection 0 is complete.
abbrev pub sent_k : Queue
sent_k = enqueue_message (message_of (b'k' ∷ [])) fresh.service.queue

unfoldable pub came :
    Run
      (λ c. idle)
      fresh.service
      (put 0 (data_of (b'k' ∷ []) 0) two_began)
      (record fresh.service { queue = sent_k })
unfolding callback_http unchanged complete_body posted_message
came = then began (
    calls 0 http_body_completion (unchanged (pos 1) (some (data_of (b'k' ∷ []) 0)) sent_k)
      (data_of (b'k' ∷ []) 0) refl refl)

abbrev pub waiting_k : Service
waiting_k = record fresh.service { queue = sent_k }

callback_echo-post_blocks_example :
    ((h : Handled) × (post_blocks true ((b'a' ∷ []) ∷ []) idle empty_queue ≡ some h)
      × (callback_echo true (receive (b'a' ∷ [])) empty_queue ≡ some h.queue))
    × (callback_echo true (receive (b'a' ∷ 0 ∷ b'b' ∷ [])) empty_queue
        ≡ some (enqueue_message (padded_message (b'a' ∷ []) 1) empty_queue))
callback_echo-post_blocks_example =
    callback_echo-post_blocks (b'a' ∷ []) (b'a' ∷ []) (b'b' ∷ []) idle empty_queue (omega arith, tt)
      (omega arith, tt) (omega arith) (omega arith) (record { array = refl; room = omega arith })
      refl

abbrev levels : List KeyStringMapping
levels =
    record { string = b'l' ∷ b'o' ∷ []; value = pos 1 }
    ∷ record { string = b'h' ∷ b'i' ∷ []; value = pos 5 }
    ∷ []

get_map_value-get_map_string_example :
    get_map_value (some levels) (some (b'h' ∷ b'i' ∷ [])) (pos 0) ≡ 5
unfolding strcmp_eq get_map_string
get_map_value-get_map_string_example =
    get_map_value-get_map_string levels (pos 5) (b'h' ∷ b'i' ∷ []) (pos 0) ((refl, tt), (tt, tt))
      refl

find_pattern_from_buffer-Finds_example :
    Finds (b'b' ∷ []) (b'a' ∷ b'b' ∷ []) (find_pattern_from_buffer (b'a' ∷ b'b' ∷ []) (b'b' ∷ []))
find_pattern_from_buffer-Finds_example =
    find_pattern_from_buffer-Finds (b'a' ∷ b'b' ∷ []) (b'b' ∷ []) (omega arith)
