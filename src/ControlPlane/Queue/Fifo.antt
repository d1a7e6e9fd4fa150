-- ===== src/ControlPlane/Queue/Fifo.antt =====
-- src/ut_control_plane.c: the queue in its array against a bounded first-in first-out list.
use ut_control.Base.{
  take-set_next, ℕ, zero, suc, ◌-◌, ◌≤◌, ◌≡◌, refl, ap, true, false, some, List, [], ◌∷◌, ◌++◌,
  arith, ltb, ◌==◌, if◌then◌else◌, length, get_elem?, set, take, length-set, length-take,
  Bool-cases, Option-cases, inl, inr,
}
use ut_control.ControlPlane.Queue.{
  max_messages, CpMessage, Queue, enqueue_message, shift_slots, Dequeued, waiting, aborted, fault,
  received, dequeue_message,
}

-- The array has all its slots and the count does not pass them.
pub record IsQueue (q : Queue) : Type 0 where
  pub slots : length q.message_queue ≡ max_messages
  pub bounded : q.message_count ≤ max_messages

-- The abstract view: the messages that wait, the oldest first.
abbrev pub contents : Queue → List CpMessage
contents q = take q.message_count q.message_queue

-- The abstract operation behind `enqueue_message`.
abbrev pub push : CpMessage → List CpMessage → List CpMessage
push m ms = if ltb (length ms) max_messages then ms ++ m ∷ [] else ms

pub length-contents : {q : Queue} → IsQueue q → length (contents q) ≡ q.message_count
length-contents {q} h = omega (arith, length-take q.message_count q.message_queue)

pub enqueue_message-IsQueue :
    (m : CpMessage) {q : Queue} → IsQueue q → IsQueue (enqueue_message m q)
unfolding enqueue_message
enqueue_message-IsQueue m {q} h = ground (arith, length-set q.message_queue q.message_count m)

-- On a well-formed queue, enqueueing appends the message where there is room, and changes nothing
-- where there is none.
pub contents-enqueue_message :
    (m : CpMessage) {q : Queue} → IsQueue q → contents (enqueue_message m q) ≡ push m (contents q)
unfolding enqueue_message
contents-enqueue_message m {q} h =
    rw (length-contents h) (elim (Bool-cases (ltb q.message_count max_messages)) [
      | inl room ↦ rw room (take-set_next q.message_count m q.message_queue (ground arith))
      | inr full ↦ rw full
    ])

shift_slots-cons :
    (r i : ℕ) (y : CpMessage) (q : List CpMessage) {q' : List CpMessage}
    → shift_slots r i q ≡ some q'
    → shift_slots r (suc i) (y ∷ q) ≡ some (y ∷ q')
unfolding shift_slots
shift_slots-cons zero i y q e = ground arith
shift_slots-cons (suc r) i y q {q'} e = elim (Option-cases (get_elem? q (suc i))) [
  | inl none' ↦ absurd (cc (rw (none', shift_slots) at e))
  | inr (m, some') ↦
      rw (some', shift_slots)
        (shift_slots-cons r (suc i) y (set q i m) (rw (some', shift_slots) at e))
]

-- The loop moves the first `r` messages behind the head one slot forward.
shift_slots_lem :
    (r : ℕ) (x : CpMessage) (q : List CpMessage)
    → r ≤ length q
    → (q' : List CpMessage) × (shift_slots r 0 (x ∷ q) ≡ some q')
      × (take r q' ≡ take r q)
      × (length q' ≡ suc (length q))
unfolding shift_slots
shift_slots_lem zero x q h = (x ∷ q, refl, refl, refl)
shift_slots_lem (suc r) x [] h = elim h [ ]
shift_slots_lem (suc r) x (y ∷ q) h =
    let (q', e, t, l) = shift_slots_lem r y q (omega arith) in
    (y ∷ q', shift_slots-cons r 0 y (y ∷ q) e, ap (λ (r' : List CpMessage). y ∷ r') t, omega arith)

-- A call that finds memory for the copy waits exactly where no message waits, and otherwise takes
-- the oldest.
abbrev pub Pops : Dequeued → List CpMessage → Type 0
Pops waiting ms = ms ≡ []
Pops (received m q) ms = IsQueue q × (m ∷ contents q ≡ ms)
Pops aborted ms = ⊥
Pops fault ms = ⊥

dequeue_at :
    (count : ℕ) (slots : List CpMessage)
    → length slots ≡ max_messages
    → count ≤ max_messages
    → Pops
        (dequeue_message true (record { message_queue = slots; message_count = count }))
        (take count slots)
unfolding dequeue_message
dequeue_at zero slots l b = refl
dequeue_at (suc n) [] l b = absurd (omega arith)
dequeue_at (suc n) (x ∷ xs) l b =
    let (q', e, t, l') = shift_slots_lem n x xs (omega arith) in
    let s : suc n - 1 ≡ n = omega arith in
    let nonempty : (suc n == 0) ≡ false = ground arith in
    rw (nonempty, s, e)
      (
        record { slots = omega arith; bounded = omega arith },
        rw s (ap (λ (r : List CpMessage). x ∷ r) t),
      )

-- On a well-formed queue, with memory for the copy, a call waits exactly where no message waits;
-- otherwise it returns the oldest message and leaves a well-formed queue with the others, in order.
pub dequeue_message-Pops : {q : Queue} → IsQueue q → Pops (dequeue_message true q) (contents q)
dequeue_message-Pops {q} h = dequeue_at q.message_count q.message_queue h.slots h.bounded

-- Where a message waits, the oldest one is returned.
pub Pops-received :
    (d : Dequeued) (m : CpMessage) (ms : List CpMessage)
    → Pops d (m ∷ ms)
    → (q : Queue) × (d ≡ received m q) × IsQueue q × (contents q ≡ ms)
Pops-received waiting m ms h = absurd (cc)
Pops-received aborted m ms h = absurd h
Pops-received fault m ms h = absurd h
Pops-received (received m' q) m ms h = (q, cc (h.1), h.0, cc (h.1))
