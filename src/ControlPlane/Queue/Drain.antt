-- ===== src/ControlPlane/Queue/Drain.antt =====
-- src/ut_control_plane.c: runs of `enqueue_message` and `dequeue_message`.
use ut_control.Base.{
  nil_of_length, take-take-append, take_all, take_full, ℕ, zero, suc, ◌≤◌, ◌≡◌, ap, sym, ◌∙◌, true,
  List, [], ◌∷◌, ◌++◌, arith, ltb, length, take, length-append, append-nil, append_assoc,
  Bool-cases, inl, inr,
}
use ut_control.ControlPlane.Queue.{
  max_messages, CpMessage, Queue, enqueue_message, Dequeued, waiting, aborted, fault, received,
  dequeue_message,
}
use ut_control.ControlPlane.Queue.Fifo.{
  IsQueue, contents, push, length-contents, enqueue_message-IsQueue, contents-enqueue_message, Pops,
  dequeue_message-Pops,
}

-- The messages that calls of `dequeue_message` return until one waits.
abbrev pub drain_step : (Queue → List CpMessage) → Dequeued → List CpMessage
drain_step rest (received m q) = m ∷ rest q
drain_step rest _ = []

pub drain : ℕ → Queue → List CpMessage
drain zero q = []
drain (suc fuel) q = drain_step (drain fuel) (dequeue_message true q)

unfoldable pub enqueue_all : List CpMessage → Queue → Queue
enqueue_all [] q = q
enqueue_all (m ∷ ms) q = enqueue_all ms (enqueue_message m q)

drain_step_lem :
    (fuel : ℕ) (d : Dequeued) (ms : List CpMessage)
    → ((q : Queue) → IsQueue q → length (contents q) ≤ fuel → drain fuel q ≡ contents q)
    → Pops d ms
    → length ms ≤ suc fuel
    → drain_step (drain fuel) d ≡ ms
drain_step_lem fuel waiting ms ih h b = sym h
drain_step_lem fuel aborted ms ih h b = absurd h
drain_step_lem fuel fault ms ih h b = absurd h
drain_step_lem fuel (received m q) ms ih h b =
    ap (λ (r : List CpMessage). m ∷ r) (ih q h.0 (omega (arith, ap length h.1))) ∙ h.1

pub drain-contents :
    (fuel : ℕ) (q : Queue) → IsQueue q → length (contents q) ≤ fuel → drain fuel q ≡ contents q
unfolding drain
drain-contents zero q h b = sym (nil_of_length (contents q) b)
drain-contents (suc fuel) q h b =
    drain_step_lem fuel (dequeue_message true q) (contents q) (drain-contents fuel)
      (dequeue_message-Pops h) b

push-take :
    (m : CpMessage) (ms : List CpMessage)
    → length ms ≤ max_messages
    → push m ms ≡ take max_messages (ms ++ m ∷ [])
push-take m ms h = elim (Bool-cases (ltb (length ms) max_messages)) [
  | inl room ↦
      rw room
        (sym (take_all max_messages (ms ++ m ∷ []) (ground (arith, length-append ms (m ∷ [])))))
  | inr full ↦ rw full (sym (take_full max_messages ms (m ∷ []) (ground arith)))
]

-- Enqueueing messages one after the other keeps the first ones that fit and drops the rest.
pub enqueue_all-contents :
    (ms : List CpMessage) (q : Queue)
    → IsQueue q
    → IsQueue (enqueue_all ms q)
      × (contents (enqueue_all ms q) ≡ take max_messages (contents q ++ ms))
unfolding enqueue_all
enqueue_all-contents [] q h = (
  h,
  rw append-nil
      (sym (take_all max_messages (contents q) (omega (arith, length-contents h, h.bounded)))),
)
enqueue_all-contents (m ∷ ms) q h =
    let q' = enqueue_message m q in
    let h' : IsQueue q' = enqueue_message-IsQueue m h in
    let (valid, e) = enqueue_all-contents ms q' h' in
    let step : contents q' ≡ take max_messages (contents q ++ m ∷ []) =
      contents-enqueue_message m h
      ∙ push-take m (contents q) (omega (arith, length-contents h, h.bounded)) in
    (
      valid,
      e
          ∙ ap (λ (c : List CpMessage). take max_messages (c ++ ms)) step
          ∙ take-take-append max_messages (contents q ++ m ∷ []) ms
          ∙ ap (take max_messages) (append_assoc (contents q) (m ∷ []) ms),
    )

-- Whatever is enqueued on a well-formed queue, dequeueing (with memory for the copies) then returns
-- the messages in the order in which they went in, and exactly the first `max_messages` of those
-- that waited and those that came.
pub drain-enqueue_all :
    (ms : List CpMessage) (q : Queue)
    → IsQueue q
    → drain max_messages (enqueue_all ms q) ≡ take max_messages (contents q ++ ms)
drain-enqueue_all ms q h =
    let (valid, e) = enqueue_all-contents ms q h in
    drain-contents max_messages (enqueue_all ms q) valid
      (omega (arith, length-contents valid, valid.bounded))
    ∙ e
