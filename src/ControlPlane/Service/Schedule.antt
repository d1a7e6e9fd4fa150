-- ===== src/ControlPlane/Service/Schedule.antt =====
-- src/ut_control_plane.c: every schedule of the two threads after UT_ControlPlane_Stop has put its
-- exit message into a queue that had room for it.
use ut_control.Base.{
  ℕ, suc, ◌+◌, ◌≤◌, ◌<◌, ◌≡◌, ◌⊎◌, inl, inr, refl, ap, sym, ◌∙◌, true, false, List, [], ◌∷◌, ◌++◌,
  All, length, take, arith, ltb, Bool-cases, append_assoc, append-nil, take_full, length-append,
  lt→ltb,
}
use ut_control.ControlPlane.Queue.{
  CpMessage, Queue, enqueue_message, max_messages, received, dequeue_message,
}
use ut_control.ControlPlane.Queue.Fifo.{
  IsQueue, contents, push, dequeue_message-Pops, enqueue_message-IsQueue, contents-enqueue_message,
  length-contents, Pops-received,
}
use ut_control.ControlPlane.Service.{Service, handle_message, exit_message, request_exit}
use ut_control.ControlPlane.Service.Loop.{IsData, handle_data, handle_exit}
use ut_control.ControlPlane.Service.Interleaving.{Step, serve, receive, Reach, here, later}

-- How often the state machine has gone round its loop.
unfoldable pub serves : {s t : Service} → Reach s t → ℕ
serves here = 0
serves (later r (serve m q run e)) = suc (serves r)
serves (later r (receive m d)) = serves r

module _ (s : Service) where
  -- The thread runs: the messages in front of the exit message that it has handled, and those that
  -- it has still to handle, are the ones that waited.
  pub record Going (n : ℕ) (t : Service) : Type 0 where
    pub done : List CpMessage
    pub pending : List CpMessage
    pub behind : List CpMessage
    pub valid : IsQueue t.queue
    pub running : t.exit_request ≡ false
    pub rounds : n ≡ length done
    pub split : contents s.queue ≡ done ++ pending
    pub all_data : All IsData pending
    pub order : t.handled ≡ s.handled ++ done
    pub waiting : contents t.queue ≡ pending ++ exit_message ∷ behind

  -- The thread has been asked to end, and has handled the messages that waited, in order.
  pub record Finished (n : ℕ) (t : Service) : Type 0 where
    pub ended : t.exit_request ≡ true
    pub rounds : n ≡ length (contents s.queue) + 1
    pub order : t.handled ≡ s.handled ++ contents s.queue

  push_behind :
      (m : CpMessage) (p b : List CpMessage)
      → (b' : List CpMessage) × (push m (p ++ exit_message ∷ b) ≡ p ++ exit_message ∷ b')
  push_behind m p b = elim (Bool-cases (ltb (length (p ++ exit_message ∷ b)) max_messages)) [
    | inl room ↦ (b ++ m ∷ [], rw room (append_assoc p (exit_message ∷ b) (m ∷ [])))
    | inr full ↦ (b, rw full)
  ]

  receive-Going :
      {n : ℕ} {t : Service} (m : CpMessage)
      → Going n t
      → Going n (record t { queue = enqueue_message m t.queue })
  receive-Going m g =
      let (b, e) = push_behind m g.pending g.behind in
      record {
        done = g.done;
        pending = g.pending;
        behind = b;
        valid = enqueue_message-IsQueue m g.valid;
        running = g.running;
        rounds = g.rounds;
        split = g.split;
        all_data = g.all_data;
        order = g.order;
        waiting = contents-enqueue_message m g.valid ∙ ap (push m) g.waiting ∙ e;
      }

  -- One round takes the first pending message, or the exit message.
  serve_pending :
      {n : ℕ} {t : Service} (m : CpMessage) (q : Queue)
      → (g : Going n t) → IsQueue q
      → (pending : List CpMessage) → g.pending ≡ pending
      → m ∷ contents q ≡ pending ++ exit_message ∷ g.behind
      → Going (suc n) (handle_message m q t) ⊎ Finished (suc n) (handle_message m q t)
  serve_pending {n} {t} m q g valid [] none e =
      let first : m ≡ exit_message = cc (e) in
      let all : contents s.queue ≡ g.done =
        g.split ∙ ap (λ (p : List CpMessage). g.done ++ p) none ∙ append-nil g.done in
      rw (handle_exit m q t (ap (λ (x : CpMessage). x.status) first)) (
        inr (record {
          ended = refl;
          rounds = omega (arith, g.rounds, ap length all);
          order = g.order ∙ ap (λ (p : List CpMessage). s.handled ++ p) (sym all);
        }))
  serve_pending {n} {t} m q g valid (x ∷ xs) more e =
      let first : m ≡ x = cc (e) in
      let all : All IsData (x ∷ xs) = rw more at g.all_data in
      rw (handle_data m q t (ap (λ (y : CpMessage). y.status) first ∙ all.0)) (
        inl (record {
          done = g.done ++ m ∷ [];
          pending = xs;
          behind = g.behind;
          valid = valid;
          running = g.running;
          rounds = omega (arith, g.rounds, length-append g.done (m ∷ []));
          split =
              g.split
              ∙ ap (λ (p : List CpMessage). g.done ++ p) more
              ∙ ap (λ (y : CpMessage). g.done ++ y ∷ xs) (sym first)
              ∙ sym (append_assoc g.done (m ∷ []) xs);
          all_data = all.1;
          order =
              ap (λ (p : List CpMessage). p ++ m ∷ []) g.order
              ∙ append_assoc s.handled g.done (m ∷ []);
          waiting = cc (e);
        }))

  serve-Going :
      {n : ℕ} {t : Service} (m : CpMessage) (q : Queue)
      → dequeue_message true t.queue ≡ received m q
      → Going n t
      → Going (suc n) (handle_message m q t) ⊎ Finished (suc n) (handle_message m q t)
  serve-Going {n} {t} m q e g =
      let (valid, order) : IsQueue q × (m ∷ contents q ≡ contents t.queue) =
        rw e at (dequeue_message-Pops g.valid) in
      serve_pending m q g valid g.pending refl (order ∙ g.waiting)

  receive-Finished :
      {n : ℕ} {t : Service} (m : CpMessage)
      → Finished n t
      → Finished n (record t { queue = enqueue_message m t.queue })
  receive-Finished m f = record { ended = f.ended; rounds = f.rounds; order = f.order }

  moved-Going :
      {t u : Service} (r : Reach (request_exit s) t) (st : Step t u)
      → Going (serves r) t ⊎ Finished (serves r) t
      → Going (serves (later r st)) u ⊎ Finished (serves (later r st)) u
  unfolding serves
  moved-Going r (serve m q run e) (inl g) = serve-Going m q e g
  moved-Going r (serve m q run e) (inr f) = absurd (cc (run, f.ended))
  moved-Going r (receive m d) (inl g) = inl (receive-Going m g)
  moved-Going r (receive m d) (inr f) = inr (receive-Finished m f)

  -- What holds of a state after `n` rounds of the thread: it has been asked to end, and has handled
  -- all the messages that waited; or it has handled the first `n` of them, and can go round again.
  abbrev pub Scheduled : ℕ → Service → Type 0
  Scheduled n t =
      ((t.exit_request ≡ true)
        × (n ≡ length (contents s.queue) + 1)
        × (t.handled ≡ s.handled ++ contents s.queue))
      ⊎ ((t.exit_request ≡ false)
          × (n ≤ length (contents s.queue))
          × (t.handled ≡ s.handled ++ take n (contents s.queue))
          × (m : CpMessage) × (q : Queue) × (dequeue_message true t.queue ≡ received m q))

  first_of :
      (p b : List CpMessage)
      → (m : CpMessage) × (ms : List CpMessage) × (p ++ exit_message ∷ b ≡ m ∷ ms)
  first_of [] b = (exit_message, b, refl)
  first_of (x ∷ p) b = (x, p ++ exit_message ∷ b, refl)

  can_go_on :
      {n : ℕ} {t : Service}
      → Going n t
      → (m : CpMessage) × (q : Queue) × (dequeue_message true t.queue ≡ received m q)
  can_go_on {n} {t} g =
      let (m, ms, e) = first_of g.pending g.behind in
      let (q, d, valid, rest) =
        Pops-received (dequeue_message true t.queue) m ms
          (rw (g.waiting ∙ e) at (dequeue_message-Pops g.valid)) in
      (m, q, d)

  Going-Scheduled : {n : ℕ} {t : Service} → Going n t → Scheduled n t
  Going-Scheduled {n} {t} g =
      let (m, q, d) = can_go_on g in
      inr (
        g.running,
        omega (arith, ap length g.split, length-append g.done g.pending, g.rounds),
        g.order ∙ ap (λ (p : List CpMessage). s.handled ++ p) (sym first),
        m,
        q,
        d,
      )
    where
      first : take n (contents s.queue) ≡ g.done
      first = ap (take n) g.split ∙ take_full n g.done g.pending (sym g.rounds)

  Finished-Scheduled : {n : ℕ} {t : Service} → Finished n t → Scheduled n t
  Finished-Scheduled f = inl (f.ended, f.rounds, f.order)

  module _ (valid : IsQueue s.queue) (room : s.queue.message_count < max_messages)
      (run : s.exit_request ≡ false) (all : All IsData (contents s.queue)) where
    asked-Going : Going 0 (request_exit s)
    unfolding request_exit
    asked-Going = record {
      done = [];
      pending = contents s.queue;
      behind = [];
      valid = enqueue_message-IsQueue exit_message valid;
      running = run;
      rounds = refl;
      split = refl;
      all_data = all;
      order = sym (append-nil s.handled);
      waiting =
          contents-enqueue_message exit_message valid
          ∙ rw (
              lt→ltb (length (contents s.queue)) max_messages
                (omega (arith, length-contents valid)));
    }

    schedule-Going :
        {t : Service} (r : Reach (request_exit s) t) → Going (serves r) t ⊎ Finished (serves r) t
    unfolding serves
    schedule-Going here = inl asked-Going
    schedule-Going (later r st) = moved-Going r st (schedule-Going r)

    -- However the two threads take turns after UT_ControlPlane_Stop has put its exit message into a
    -- well-formed queue with room for it, behind messages with data: the thread, which ran, handles
    -- exactly the messages that waited, in order, one a round, and none that come later; it has
    -- been asked to end after one round more than there were messages, and not before; and until
    -- then a message waits, so that it can always go round again.
    pub schedule-Scheduled : {t : Service} (r : Reach (request_exit s) t) → Scheduled (serves r) t
    schedule-Scheduled r = elim (schedule-Going r) [
      | inl g ↦ Going-Scheduled g
      | inr f ↦ Finished-Scheduled f
    ]
