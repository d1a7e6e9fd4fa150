-- ===== src/ControlPlane/System/Calls.antt =====
-- src/ut_control_plane.c: the calls of the registered functions for bodies that parse.
use ut_control.Base.{
  ℕ, ◌≡◌, refl, Bool, true, some, List, [], ◌∷◌, ◌++◌, map, All, concat, length, arith,
}
use ut_control.CString.{Text}
use ut_control.Kvp.Fyaml.{Fyaml}
use ut_control.Kvp.Instance.{Instance, success, ut_kvp_create_instance}
use ut_control.Kvp.Open.{done, ut_kvp_open_memory}
use ut_control.ControlPlane.Queue.Fifo.{IsQueue}
use ut_control.ControlPlane.Http.Post.{message_of}
use ut_control.ControlPlane.Callbacks.{CallbackTable, Call}
use ut_control.ControlPlane.Callbacks.Table.{registered}
use ut_control.ControlPlane.Callbacks.Dispatch.{
  selected, entry, Answered, call_callback_on_match-selected,
}
use ut_control.ControlPlane.Lifecycle.{fresh}
use ut_control.ControlPlane.System.{calls_of}

pub fresh-IsQueue : IsQueue fresh.service.queue
fresh-IsQueue = record { slots = refl; bounded = omega arith }

-- A body, the document that it parses to, and the keys that the document has.
pub record Request (Y : Fyaml) : Type 0 where
  pub sent : List ℕ
  pub document : Instance Y
  pub present : Text → Bool

module _ (Y : Fyaml) (invoke : ℕ → Text → Instance Y → ℕ → Instance Y)
    (leaves : (p : Instance Y) (f u : ℕ) (key : Text) → invoke f key p u ≡ p) where
  -- The body parses, and its document answers for the keys.
  pub record IsRequest (fuel : ℕ) (rs : List Call) (r : Request Y) : Type 0 where
    pub parses :
        ut_kvp_open_memory Y fuel
          (ut_kvp_create_instance Y true)
          (some (r.sent ++ 0 ∷ []))
          (length r.sent)
        ≡ done (success, some r.document)
    pub answers : All (Answered Y r.document r.present) rs

  abbrev pub calls_for : List Call → Request Y → List Call
  calls_for rs r = selected r.present rs

  pub calls_of-selected :
      (fuel : ℕ) (t : CallbackTable) (rs : List Call) (requests : List (Request Y))
      → registered t ≡ map entry rs
      → All (IsRequest fuel rs) requests
      → calls_of Y invoke fuel (map message_of (map Request.sent requests)) t
        ≡ done (concat (map (calls_for rs) requests))
  unfolding calls_of
  calls_of-selected fuel t rs [] table all = refl
  calls_of-selected fuel t rs (r ∷ requests) table all =
      rw
        (call_callback_on_match-selected Y invoke r.document (leaves r.document) r.present fuel true
          (message_of r.sent) (r.sent ++ 0 ∷ []) t rs refl all.0.parses table all.0.answers)
        (rw (calls_of-selected fuel t rs requests table all.1))
