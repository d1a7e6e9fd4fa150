-- ===== src/ControlPlane/Lifecycle/Restart.antt =====
-- src/ut_control_plane.c: UT_ControlPlane_Stop, and an instance that is started again after it.
use ut_control.Base.{
  ◌<◌, ◌≡◌, refl, ap, ◌∙◌, true, false, some, none, List, [], ◌++◌, take, All, arith, ==_iff,
}
use ut_control.ControlPlane.Queue.{CpMessage, max_messages}
use ut_control.ControlPlane.Queue.Fifo.{IsQueue, contents}
use ut_control.ControlPlane.Queue.Drain.{enqueue_all, enqueue_all-contents}
use ut_control.ControlPlane.Service.{Service, stopped, service_loop}
use ut_control.ControlPlane.Service.Loop.{IsData, request_exit-Ended}
use ut_control.ControlPlane.Lifecycle.{
  cp_magic, CpInstance, validate_cp_instance, Stopped, returned, hangs, joined, join_sockets,
  ut_control_plane_start, ut_control_plane_stop, ut_control_plane_exit, after_stop,
}

-- The call returns an instance without a thread; the thread has handled `ms` behind what it had
-- handled, no message waits, and `exit_request` is set. A
-- call of UT_ControlPlane_Exit frees the block.
abbrev pub StopsWith : List CpMessage → CpInstance → Stopped → Type 0
StopsWith ms p r =
    (p' : CpInstance) × (r ≡ returned p')
    × (p'.magic ≡ cp_magic)
    × (p'.has_thread ≡ false)
    × (p'.service.handled ≡ p.service.handled ++ ms)
    × IsQueue p'.service.queue
    × (contents p'.service.queue ≡ [])
    × (p'.service.exit_request ≡ true)
    × (ut_control_plane_exit true p ≡ some none)

pub valid_instance : (p : CpInstance) → p.magic ≡ cp_magic → validate_cp_instance (some p) ≡ some p
unfolding validate_cp_instance
valid_instance p h = ground (arith, ==_iff p.magic cp_magic)

-- UT_ControlPlane_Exit of such an instance stops it and frees the block.
ut_control_plane_exit_lem :
    (p p' : CpInstance)
    → p.magic ≡ cp_magic
    → ut_control_plane_stop true p ≡ returned p'
    → ut_control_plane_exit true p ≡ some none
unfolding ut_control_plane_exit after_stop
ut_control_plane_exit_lem p p' valid stops =
    rw (valid_instance p valid, ut_control_plane_exit) (rw (stops, after_stop) refl)

-- A valid instance with a thread is stopped, whose queue has room for the exit message behind
-- messages with data, and the sockets put nothing behind the exit message. Where lws_service returns
-- to the thread that serves the sockets, the call returns when the state machine has handled exactly
-- those messages, in order; no message then waits, and the instance is valid and has no thread;
-- UT_ControlPlane_Exit, in its place, frees the block. Where lws_service does not return, the call
-- waits for ever.
pub ut_control_plane_stop-StopsWith :
    (p : CpInstance)
    → p.magic ≡ cp_magic
    → p.has_thread ≡ true
    → IsQueue p.service.queue
    → p.service.queue.message_count < max_messages
    → p.service.exit_request ≡ false
    → All IsData (contents p.service.queue)
    → StopsWith (contents p.service.queue) p (ut_control_plane_stop true p)
      × (ut_control_plane_stop false p ≡ hangs)
unfolding ut_control_plane_stop joined join_sockets
ut_control_plane_stop-StopsWith p valid thread queued room run all =
    let (t, ends, flag, order, queued', rest) = request_exit-Ended p.service queued room run all in
    let p' : CpInstance = record p { has_thread = false; service = t } in
    let stops : ut_control_plane_stop true p ≡ returned p' =
      rw (valid_instance p valid, ut_control_plane_stop) (rw thread (rw ends)) in
    (
      (
        p',
        stops,
        valid,
        refl,
        order,
        queued',
        rest,
        flag,
        ut_control_plane_exit_lem p p' valid stops,
      ),
      rw (valid_instance p valid, ut_control_plane_stop) (rw thread (rw ends)),
    )

-- The instance's part in the thread when it is started, and `ms` have been enqueued.
abbrev pub started_with : List CpMessage → CpInstance → Service
started_with ms p =
    let s = (ut_control_plane_start true p).service in record s { queue = enqueue_all ms s.queue }

start-service :
    (p : CpInstance) → p.magic ≡ cp_magic → (ut_control_plane_start true p).service ≡ p.service
unfolding ut_control_plane_start
start-service p valid = rw (valid_instance p valid, ut_control_plane_start)

ends_at_once : (s : Service) → s.exit_request ≡ true → service_loop 1 s ≡ stopped s
unfolding service_loop
ends_at_once s h = rw h

-- What becomes of messages that are enqueued when `p'` has been started: its thread ends at once,
-- has handled nothing more, and the first of them that fit are left in the queue.
abbrev pub ServesNothing : List CpMessage → CpInstance → Type 0
ServesNothing ms p' =
    (s : Service) × (service_loop 1 (started_with ms p') ≡ stopped s)
    × (s.handled ≡ p'.service.handled)
    × (contents s.queue ≡ take max_messages ms)

idle_again :
    (p' : CpInstance) (ms : List CpMessage)
    → p'.magic ≡ cp_magic
    → p'.service.exit_request ≡ true
    → IsQueue p'.service.queue
    → contents p'.service.queue ≡ []
    → ServesNothing ms p'
idle_again p' ms valid flag queued empty =
    let same = start-service p' valid in
    (
      started_with ms p',
      ends_at_once (started_with ms p') (ap (λ (s : Service). s.exit_request) same ∙ flag),
      ap (λ (s : Service). s.handled) same,
      ap (λ (s : Service). contents (enqueue_all ms s.queue)) same
          ∙ (enqueue_all-contents ms p'.service.queue queued).1
          ∙ ap (λ (xs : List CpMessage). take max_messages (xs ++ ms)) empty,
    )

-- A valid instance with a thread, whose queue has room for the exit message behind messages with
-- data, serves nothing when it has been stopped and is started again, where the sockets put nothing
-- behind the exit message and lws_service returns: the call of UT_ControlPlane_Stop returns, and the thread of the next call of UT_ControlPlane_Start ends at
-- once, handles no message and leaves the first of those that are enqueued in the queue.
pub restart-ServesNothing :
    (p : CpInstance) (ms : List CpMessage)
    → p.magic ≡ cp_magic
    → p.has_thread ≡ true
    → IsQueue p.service.queue
    → p.service.queue.message_count < max_messages
    → p.service.exit_request ≡ false
    → All IsData (contents p.service.queue)
    → (p' : CpInstance) × (ut_control_plane_stop true p ≡ returned p') × ServesNothing ms p'
restart-ServesNothing p ms valid thread queued room run all =
    let (p', stops, valid', idle, order, queued', empty, flag, freed) =
      (ut_control_plane_stop-StopsWith p valid thread queued room run all).0 in
    (p', stops, idle_again p' ms valid' flag queued' empty)
