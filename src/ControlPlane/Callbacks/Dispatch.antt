-- ===== src/ControlPlane/Callbacks/Dispatch.antt =====
-- src/ut_control_plane.c: which functions a message calls.
use ut_control.Base.{
  ℕ, ◌<◌, ◌≡◌, refl, ◌∙◌, Bool, some, List, [], ◌∷◌, map, All, if◌then◌else◌, length, lt→ltb,
  Bool-cases, inl, inr,
}
use ut_control.CString.{Text, IsText}
use ut_control.CString.Buffer.{read_string}
use ut_control.Kvp.Key.{max_element_size}
use ut_control.Kvp.Fyaml.{Fyaml}
use ut_control.Kvp.Instance.{Instance, success, ut_kvp_create_instance}
use ut_control.Kvp.Nodes.{ut_kvp_field_present}
use ut_control.Kvp.Open.{done, ut_kvp_open_memory}
use ut_control.ControlPlane.Queue.{CpMessage}
use ut_control.ControlPlane.Callbacks.Table.{registered, entry_of, read_string-entry_of}
use ut_control.ControlPlane.Callbacks.{
  CallbackEntry, CallbackTable, Call, call_matching, call_callback_on_match,
}

-- The calls of the registrations whose key is present, in the order of registration.
abbrev pub selected : (Text → Bool) → List Call → List Call
selected present [] = []
selected present (r ∷ rs) = if present r.key then r ∷ selected present rs else selected present rs

abbrev pub entry : Call → CallbackEntry
entry r = entry_of r.key r.p_callback r.user_data

-- The key fits its array, and the message's document has it exactly if `present` says so.
abbrev pub Answered : (Y : Fyaml) → Instance Y → (Text → Bool) → Call → Type 0
Answered Y p present r =
    IsText r.key
    × (length r.key < max_element_size)
    × (ut_kvp_field_present Y (some p) (some r.key) ≡ some (present r.key))

module _ (Y : Fyaml) (invoke : ℕ → Text → Instance Y → ℕ → Instance Y) (p : Instance Y)
    (leaves : (f u : ℕ) (key : Text) → invoke f key p u ≡ p) (present : Text → Bool) where
  call_matching-selected :
      (rs : List Call)
      → All (Answered Y p present) rs
      → call_matching Y invoke (map entry rs) p ≡ some (selected present rs)
  unfolding call_matching
  call_matching-selected [] h = refl
  call_matching-selected (r ∷ rs) h =
      let stored : read_string (entry r).key ≡ some r.key =
        read_string-entry_of r.key r.p_callback r.user_data h.0.0
        ∙ rw (lt→ltb (length r.key) max_element_size h.0.1) in
      rw stored (
        rw h.0.2 (elim (Bool-cases (present r.key)) [
          | inl yes' ↦ rw yes' (rw (leaves, call_matching-selected rs h.1))
          | inr no' ↦ rw no' (call_matching-selected rs h.1)
        ]))

  -- A message that parses calls the functions whose key its document has, each with its key and its
  -- user's pointer, in the order in which they were registered, and no other. The keys fit their
  -- arrays, and the functions are taken to leave the KVP handle as it is.
  pub call_callback_on_match-selected :
      (fuel : ℕ) (malloc_ok : Bool) (m : CpMessage) (bytes : List ℕ) (t : CallbackTable)
      (rs : List Call)
      → m.message ≡ some bytes
      → ut_kvp_open_memory Y fuel (ut_kvp_create_instance Y malloc_ok) (some bytes) m.size
        ≡ done (success, some p)
      → registered t ≡ map entry rs
      → All (Answered Y p present) rs
      → call_callback_on_match Y invoke fuel malloc_ok m t ≡ done (selected present rs)
  unfolding call_callback_on_match
  call_callback_on_match-selected fuel malloc_ok m bytes t rs e opened table h =
      rw (e, call_callback_on_match) (rw opened (rw table (rw (call_matching-selected rs h))))
