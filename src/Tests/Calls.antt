-- ===== src/Tests/Calls.antt =====
-- Calls of src/ut_control_plane.c for a body that includes a file.
use ut_control.Base.{ℕ, ◌≤◌, ◌≡◌, refl, true, some, [], ◌∷◌, ◌++◌, arith}
use ut_control.CString.{strcmp_eq, strncmp_eq, starts_with}
use ut_control.CString.Buffer.{read_string-append}
use ut_control.CString.Literal.{codes}
use ut_control.Kvp.Key.{dot_to_slash}
use ut_control.Kvp.Pattern.{find_pattern_from_buffer}
use ut_control.Kvp.Include.{source_document, is_url}
use ut_control.Kvp.Include.Tree.{expansion, expand_tree}
use ut_control.Kvp.Open.{done}
use ut_control.ControlPlane.Queue.{enqueue_message}
use ut_control.ControlPlane.Callbacks.{call_callback_on_match}
use ut_control.ControlPlane.Callbacks.Trees.{call_callback_on_match-calls_in}
use ut_control.ControlPlane.Service.{request_exit}
use ut_control.ControlPlane.Service.Interleaving.{here}
use ut_control.ControlPlane.Service.Schedule.{serves}
use ut_control.ControlPlane.System.{Sessions, service_ws_requests}
use ut_control.ControlPlane.System.Bodies.{bodies}
use ut_control.ControlPlane.System.Threads.{AllSlots, events}
use ut_control.ControlPlane.System.Served.{Makes}
use ut_control.ControlPlane.System.Trees.{Body, run-calls_for_body}
use ut_control.ControlPlane.Queue.Drain.{enqueue_all}
use ut_control.ControlPlane.Http.{http_body_completion}
use ut_control.ControlPlane.Lifecycle.{fresh}
use ut_control.ControlPlane.System.Serving.{service_ws_requests-enqueue_all}
use ut_control.Tests.Files.{files, world, view, laws, paths, includes_k, k-Parses}
use ut_control.Tests.Clients.{
  idle, call_k, call_x, table, message_k, two_rounds, began, came, waiting_k,
}

call_callback_on_match-calls_in_example :
    (enough : ℕ) × ((fuel : ℕ)
      → enough ≤ fuel
      → call_callback_on_match files (λ f k p u. p) fuel true message_k table ≡ done (call_k ∷ []))
unfolding expansion expand_tree source_document is_url strncmp_eq strcmp_eq find_pattern_from_buffer
    starts_with dot_to_slash
call_callback_on_match-calls_in_example =
    call_callback_on_match-calls_in files world view laws paths (λ f k p u. p) (λ p f u k. refl)
      message_k (codes "k" ++ 0 ∷ []) (codes "k") includes_k table (call_k ∷ call_x ∷ []) refl
      (read_string-append (codes "k") [] (omega arith, tt)) k-Parses refl
      (((omega arith, tt), omega arith), (((omega arith, tt), omega arith), tt))

abbrev body_k : Body files
body_k = record { sent = codes "k"; root = includes_k; text = (omega arith, tt); parses = k-Parses }

-- A round behind the one that reads the exit request is not served.
service_ws_requests-enqueue_all_example :
    (sessions : Sessions) × (service_ws_requests true
        (two_rounds ++ (true, (1, http_body_completion) ∷ []) ∷ [])
        (λ c. idle)
        fresh
      ≡ some (sessions, record fresh { service = waiting_k }))
unfolding bodies enqueue_message enqueue_all
service_ws_requests-enqueue_all_example =
    service_ws_requests-enqueue_all fresh
      (two_rounds ++ (true, (1, http_body_completion) ∷ []) ∷ []) (λ c. idle) refl
      (λ c. (record { array = refl; room = omega arith }, refl))

run-calls_for_body_example :
    (enough : ℕ) × ((fuel : ℕ)
      → enough ≤ fuel
      → Makes files
          (λ f k p u. p)
          (λ p f u k. refl)
          fuel
          table
          (call_k ∷ [])
          waiting_k
          0
          (request_exit waiting_k))
unfolding expansion expand_tree source_document is_url strncmp_eq strcmp_eq find_pattern_from_buffer
    starts_with dot_to_slash events bodies serves AllSlots enqueue_message came began
run-calls_for_body_example =
    run-calls_for_body files world view laws paths (λ f k p u. p) (λ p f u k. refl) table
      (call_k ∷ call_x ∷ []) (body_k ∷ []) came here refl
      (((omega arith, tt), omega arith), (((omega arith, tt), omega arith), tt))
      (λ c. (record { array = refl; room = omega arith }, refl)) refl (((tt, tt), tt), omega arith)
      (omega arith)
