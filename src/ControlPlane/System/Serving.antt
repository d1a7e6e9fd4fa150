-- ===== src/ControlPlane/System/Serving.antt =====
-- src/ut_control_plane.c: `service_ws_requests` by itself, from the blocks that come in to the queue.
use ut_control.Base.{◌≡◌, ◌∙◌, Bool, true, some, List, [], map}
use ut_control.ControlPlane.Queue.Drain.{enqueue_all}
use ut_control.ControlPlane.Http.Post.{message_of}
use ut_control.ControlPlane.Lifecycle.{cp_magic, CpInstance}
use ut_control.ControlPlane.Lifecycle.Restart.{valid_instance}
use ut_control.ControlPlane.System.{Sessions, Event, service_ws_requests, with_queue}
use ut_control.ControlPlane.System.Bodies.{bodies, Hold, handle_events-Enqueues}
use ut_control.ControlPlane.System.Rounds.{before_exit, rounds_loop-before_exit}

-- The thread that serves the sockets, by itself, with memory for every body: on a valid instance
-- whose connections have sent nothing yet, it enqueues one message for each body that is complete in
-- a round in front of the first that reads the exit request, in the order in which they are complete,
-- whatever the connections and blocks they come in by, as far as the queue has room, and changes
-- nothing else of the instance.
pub service_ws_requests-enqueue_all :
    (p : CpInstance) (rounds : List (Bool × List Event)) (sessions : Sessions)
    → p.magic ≡ cp_magic
    → Hold sessions (λ c. [])
    → (sessions' : Sessions) × (service_ws_requests true rounds sessions p
        ≡ some (
          sessions',
          record p {
            service = record p.service {
              queue =
                  enqueue_all
                    (map message_of (bodies (before_exit rounds) (λ c. [])))
                    p.service.queue;
            };
          },
        ))
unfolding service_ws_requests with_queue
service_ws_requests-enqueue_all p rounds sessions valid empty =
    let (sessions', held, e) =
      handle_events-Enqueues (before_exit rounds) (λ c. []) sessions p.service.queue empty in
    (
      sessions',
      rw (valid_instance p valid, service_ws_requests)
          (rw (rounds_loop-before_exit rounds (sessions, p.service.queue) ∙ e)),
    )
