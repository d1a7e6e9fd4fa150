-- ===== src/ControlPlane/Http/Echo.antt =====
-- src/ut_control_plane.c: what `callback_echo` enqueues for what a WebSocket's client sent.
use ut_control.Base.{
  ℕ, zero, suc, ◌+◌, ◌≡◌, refl, ap, sym, ◌∙◌, ◌<◌, lt→ltb, concat, true, some, List, [], ◌∷◌, ◌++◌,
  length, replicate, arith, length-append, append-nil, append_assoc,
}
use ut_control.CString.{Text, IsText}
use ut_control.CString.Buffer.{strncpy_bytes, until_nul}
use ut_control.ControlPlane.Queue.{CpMessage, data_recieved, Queue, enqueue_message}
use ut_control.Base.Int.{pos, int_max}
use ut_control.ControlPlane.Http.{
  max_post_data_size, Session, Handled, unchanged, receive, callback_echo,
}
use ut_control.ControlPlane.Http.Post.{message_of, IsSession, post_blocks, post_body}

-- A string is padded with NULs.
strncpy_bytes-nil : (n : ℕ) → strncpy_bytes n [] ≡ replicate n 0
unfolding strncpy_bytes
strncpy_bytes-nil zero = refl
strncpy_bytes-nil (suc n) = ap (λ (b : List ℕ). 0 ∷ b) (strncpy_bytes-nil n)

strncpy_bytes-padded : (s : Text) (k : ℕ) → strncpy_bytes (length s + k) s ≡ s ++ replicate k 0
unfolding strncpy_bytes
strncpy_bytes-padded [] k = let e : 0 + k ≡ k = omega arith in rw e (strncpy_bytes-nil k)
strncpy_bytes-padded (c ∷ cs) k =
    let e : suc (length cs) + k ≡ suc (length cs + k) = omega arith in
    rw e (ap (λ (b : List ℕ). c ∷ b) (strncpy_bytes-padded cs k))

until_nul_all : (s : Text) → IsText s → until_nul s ≡ s
unfolding until_nul
until_nul_all [] h = refl
until_nul_all (zero ∷ s) h = absurd (omega (arith, h.0))
until_nul_all (suc c ∷ s) h = ap (λ (b : List ℕ). suc c ∷ b) (until_nul_all s h.1)

until_nul-append : (s : Text) (rest : List ℕ) → IsText s → until_nul (s ++ 0 ∷ rest) ≡ s
unfolding until_nul
until_nul-append [] rest h = refl
until_nul-append (zero ∷ s) rest h = absurd (omega (arith, h.0))
until_nul-append (suc c ∷ s) rest h = ap (λ (b : List ℕ). suc c ∷ b) (until_nul-append s rest h.1)

replicate-snoc : (k c : ℕ) → replicate k c ++ c ∷ [] ≡ replicate (suc k) c
replicate-snoc zero c = refl
replicate-snoc (suc k) c = ap (λ (b : List ℕ). c ∷ b) (replicate-snoc k c)

-- The message for bytes of which only the string `s` in front of the first NUL is kept.
abbrev pub padded_message : (s : Text) → (after_nul : ℕ) → CpMessage
padded_message s after_nul = record {
  status = data_recieved;
  message = some (s ++ replicate (after_nul + 2) 0);
  size = length s + (after_nul + 1);
}

-- What `callback_echo` enqueues for the bytes of a text.
echo-text :
    (s : Text) (queue : Queue)
    → IsText s
    → length s < int_max
    → callback_echo true (receive s) queue ≡ some (enqueue_message (message_of s) queue)
unfolding callback_echo
echo-text s queue h fits =
    let whole : strncpy_bytes (length s) (until_nul s) ≡ s =
      ap (strncpy_bytes (length s)) (until_nul_all s h)
      ∙ ap (λ (n : ℕ). strncpy_bytes n s) (omega arith)
      ∙ strncpy_bytes-padded s 0
      ∙ append-nil s in
    rw (lt→ltb (length s) int_max fits) (rw whole)

echo-padded :
    (s : Text) (rest : List ℕ) (queue : Queue)
    → IsText s
    → length (s ++ 0 ∷ rest) < int_max
    → callback_echo true (receive (s ++ 0 ∷ rest)) queue
      ≡ some (enqueue_message (padded_message s (length rest)) queue)
unfolding callback_echo
echo-padded s rest queue h fits =
    let size : length (s ++ 0 ∷ rest) ≡ length s + (length rest + 1) =
      omega (arith, length-append s (0 ∷ rest)) in
    let one_more : suc (length rest + 1) ≡ length rest + 2 = omega arith in
    let cut : strncpy_bytes (length (s ++ 0 ∷ rest)) (until_nul (s ++ 0 ∷ rest)) ++ 0 ∷ []
        ≡ s ++ replicate (length rest + 2) 0 =
      ap (λ (t : Text). strncpy_bytes (length (s ++ 0 ∷ rest)) t ++ 0 ∷ [])
        (until_nul-append s rest h)
      ∙ ap (λ (n : ℕ). strncpy_bytes n s ++ 0 ∷ []) size
      ∙ ap (λ (b : List ℕ). b ++ 0 ∷ []) (strncpy_bytes-padded s (length rest + 1))
      ∙ append_assoc s (replicate (length rest + 1) 0) (0 ∷ [])
      ∙ ap (λ (b : List ℕ). s ++ b)
          (replicate-snoc (length rest + 1) 0 ∙ ap (λ (n : ℕ). replicate n 0) one_more) in
    rw (lt→ltb (length (s ++ 0 ∷ rest)) int_max fits) (rw cut (rw size))

-- With memory for it, a text of fewer than 4096 bytes leaves the queue as a POST of the same bytes
-- leaves it, on a session on which nothing has been received; where a NUL comes in, among fewer than
-- INT_MAX bytes, the bytes behind it become NULs, and the size still counts them.
pub callback_echo-post_blocks :
    (s : Text) (t : Text) (rest : List ℕ) (session : Session) (queue : Queue)
    → IsText s
    → IsText t
    → length s < max_post_data_size
    → length (t ++ 0 ∷ rest) < int_max
    → IsSession session
    → session.post_data_len ≡ 0
    → ((h : Handled) × (post_blocks true (s ∷ []) session queue ≡ some h)
        × (callback_echo true (receive s) queue ≡ some h.queue))
      × (callback_echo true (receive (t ++ 0 ∷ rest)) queue
          ≡ some (enqueue_message (padded_message t (length rest)) queue))
unfolding unchanged
callback_echo-post_blocks s t rest session queue text text' short fits valid empty =
    let whole : concat (s ∷ []) ≡ s = append-nil s in
    let (s', valid', zero', posts) =
      post_body (s ∷ []) session queue valid empty (omega (arith, ap length whole)) in
    (
      (
        unchanged (pos 1) (some s') (enqueue_message (message_of (concat (s ∷ []))) queue),
        posts,
        echo-text s queue text (omega arith)
            ∙ ap (λ (b : List ℕ). some (enqueue_message (message_of b) queue)) (sym whole),
      ),
      echo-padded t rest queue text' fits,
    )
