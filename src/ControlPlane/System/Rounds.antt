-- ===== src/ControlPlane/System/Rounds.antt =====
-- src/ut_control_plane.c: the rounds of `service_ws_requests`, one after the other.
use ut_control.Base.{
  ◌≡◌, refl, sym, ◌∙◌, Bool, true, false, some, List, [], ◌∷◌, ◌++◌, ◌>>=◌, bind_ext, Option-cases,
  inl, inr,
}
use ut_control.ControlPlane.Http.{callback_http}
use ut_control.ControlPlane.System.{put, Event, Sockets, handle_events, rounds_loop}

handle_events-append :
    (xs ys : List Event) (state : Sockets)
    → handle_events true (xs ++ ys) state ≡ (handle_events true xs state >>= handle_events true ys)
unfolding handle_events
handle_events-append [] ys state = refl
handle_events-append ((c, r) ∷ xs) ys (sessions, queue) =
    elim (Option-cases (callback_http true r (some (sessions c)) queue)) [
      | inl none' ↦ rw none'
      | inr (h, some') ↦ rw some' (elim (Option-cases (h.session)) [
        | inl none' ↦ rw none'
        | inr (s, kept) ↦ rw kept (handle_events-append xs ys (put c s sessions, h.queue))
      ])
    ]

-- What comes in in the rounds in front of the first that reads that the exit is asked for.
abbrev pub before_exit : List (Bool × List Event) → List Event
before_exit [] = []
before_exit ((true, events) ∷ rounds) = []
before_exit ((false, events) ∷ rounds) = events ++ before_exit rounds

-- The rounds make no difference.
pub rounds_loop-before_exit :
    (rounds : List (Bool × List Event)) (state : Sockets)
    → rounds_loop true rounds state ≡ handle_events true (before_exit rounds) state
unfolding rounds_loop handle_events
rounds_loop-before_exit [] state = refl
rounds_loop-before_exit ((true, events) ∷ rounds) state = refl
rounds_loop-before_exit ((false, events) ∷ rounds) state =
    bind_ext (handle_events true events state) (λ c'. rounds_loop-before_exit rounds c')
    ∙ sym (handle_events-append events (before_exit rounds) state)
