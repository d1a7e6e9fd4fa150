-- ===== src/ControlPlane/System/Trees.antt =====
-- src/ut_control_plane.c: from the POSTs of clients to the calls of the registered functions, where the
-- bodies are texts that stand for trees.
use ut_control.Base.{
  ℕ, ◌+◌, ◌≤◌, ◌<◌, ◌≡◌, refl, List, [], ◌∷◌, ◌++◌, map, All, concat, length, arith,
}
use ut_control.CString.{Text, IsText}
use ut_control.CString.Buffer.{read_string-append}
use ut_control.Kvp.Fyaml.{Fyaml}
use ut_control.Kvp.Instance.{Instance}
use ut_control.Kvp.Include.{max_include_depth}
use ut_control.Kvp.Include.Tree.{World, expansion}
use ut_control.Kvp.Include.Expand.{TreeView}
use ut_control.Kvp.Open.{done}
use ut_control.Kvp.Open.Loads.{DocumentLaws}
use ut_control.Kvp.Open.Answers.{PathLaws}
use ut_control.Kvp.Open.Memory.{Parses}
use ut_control.ControlPlane.Queue.{max_messages}
use ut_control.ControlPlane.Http.Post.{message_of}
use ut_control.ControlPlane.Callbacks.{CallbackTable, Call}
use ut_control.ControlPlane.Callbacks.Table.{registered}
use ut_control.ControlPlane.Callbacks.Dispatch.{entry}
use ut_control.ControlPlane.Callbacks.Trees.{Fits, calls_in, call_callback_on_match-calls_in}
use ut_control.ControlPlane.System.{Sessions, calls_of}
use ut_control.ControlPlane.System.Bodies.{bodies, Hold}
use ut_control.ControlPlane.Lifecycle.{fresh}
use ut_control.ControlPlane.Service.{Service, request_exit}
use ut_control.ControlPlane.Service.Interleaving.{Reach}
use ut_control.ControlPlane.Service.Schedule.{serves}
use ut_control.ControlPlane.System.Threads.{Run, events, AllSlots}
use ut_control.ControlPlane.System.Served.{Makes, run-Serves, Serves-Makes}

-- A body that is a text, with the root of the document that it parses to.
pub record Body (Y : Fyaml) : Type 0 where
  pub sent : Text
  pub root : Y.Node
  pub text : IsText sent
  pub parses : Parses Y sent (length sent) root

module _ (Y : Fyaml) (w : World) (view : TreeView Y w) (laws : DocumentLaws Y)
    (paths : PathLaws Y w view) (invoke : ℕ → Text → Instance Y → ℕ → Instance Y)
    (leaves : (p : Instance Y) (f u : ℕ) (key : Text) → invoke f key p u ≡ p) where
  -- The calls for a body's tree.
  abbrev pub calls_for_body : List Call → Body Y → List Call
  calls_for_body rs b =
      calls_in Y w view laws paths rs (expansion w max_include_depth (view.tree b.root))

  calls_of-Body :
      (t : CallbackTable) (rs : List Call) (bs : List (Body Y))
      → registered t ≡ map entry rs
      → All Fits rs
      → (enough : ℕ) × ((fuel : ℕ)
          → enough ≤ fuel
          → calls_of Y invoke fuel (map message_of (map Body.sent bs)) t
            ≡ done (concat (map (calls_for_body rs) bs)))
  unfolding calls_of
  calls_of-Body t rs [] table fit = (0, λ fuel h. refl)
  calls_of-Body t rs (b ∷ bs) table fit =
      let (first, calls) =
        call_callback_on_match-calls_in Y w view laws paths invoke leaves (message_of b.sent)
          (b.sent ++ 0 ∷ []) b.sent b.root t rs refl (read_string-append b.sent [] b.text) b.parses
          table fit in
      let (rest, others) = calls_of-Body t rs bs table fit in
      (first + rest, λ fuel h. rw (calls fuel (omega arith)) (rw (others fuel (omega arith))))

  -- The two threads of a new instance take turns in any way; the keys of its registrations fit their
  -- arrays, and its functions leave the KVP handle as it is. Clients send bodies on any number of
  -- connections, and their blocks come in in any order; each body finds a free slot when it is
  -- complete, and is a text that memory can be found for, that parses and has a root. Then
  -- UT_ControlPlane_Stop asks for the exit, where a slot is free, and the threads go on to take turns.
  -- The state machine can always go round again until it has been asked to end, which is after one
  -- round more than messages waited; by then, with fuel enough, for each body, in the order in which
  -- they were complete, the functions are called whose key leads to something in the expansion of the
  -- body's tree, in the order in which they were registered, and no other.
  pub run-calls_for_body :
      (table : CallbackTable) (rs : List Call) (bs : List (Body Y)) {sessions σ : Sessions}
      {t u : Service} (run : Run sessions fresh.service σ t) (after : Reach (request_exit t) u)
      → registered table ≡ map entry rs
      → All Fits rs
      → Hold sessions (λ c. [])
      → bodies (events run) (λ c. []) ≡ map Body.sent bs
      → AllSlots run
      → t.queue.message_count < max_messages
      → (enough : ℕ) × ((fuel : ℕ)
          → enough ≤ fuel
          → Makes Y invoke leaves fuel table
              (concat (map (calls_for_body rs) bs))
              t
              (serves after)
              u)
  run-calls_for_body table rs bs {t} {u} run after registered' fit empty sent slots free =
      let (enough, calls) = calls_of-Body table rs bs registered' fit in
      (
        enough,
        λ fuel h.
            Serves-Makes Y invoke leaves fuel table _ (map Body.sent bs) t (serves after) u
              (run-Serves (map Body.sent bs) run after empty sent slots free) (calls fuel h),
      )
