-- ===== src/ControlPlane/Callbacks/Trees.antt =====
-- src/ut_control_plane.c: which functions a message calls, from the tree of its text.
use ut_control.Base.{
  ℕ, ◌≤◌, ◌<◌, ◌≡◌, refl, true, Option, none, some, List, [], ◌∷◌, map, All, length,
}
use ut_control.CString.{Text, IsText}
use ut_control.CString.Buffer.{read_string}
use ut_control.Kvp.Key.{max_element_size, dot_to_slash}
use ut_control.Kvp.Fyaml.{Fyaml}
use ut_control.Kvp.Instance.{Instance, kvp_magic, ut_kvp_create_instance}
use ut_control.Kvp.Include.{max_include_depth, is_some}
use ut_control.Kvp.Include.Tree.{Tree, World, expansion}
use ut_control.Kvp.Include.Expand.{TreeView}
use ut_control.Kvp.Open.{done, ut_kvp_open_memory}
use ut_control.Kvp.Open.Loads.{DocumentLaws, tree_in}
use ut_control.Kvp.Open.Answers.{PathLaws, present-path}
use ut_control.Kvp.Open.Memory.{Parses, Leaves, ut_kvp_open_memory-Leaves}
use ut_control.ControlPlane.Queue.{CpMessage}
use ut_control.ControlPlane.Callbacks.Table.{registered}
use ut_control.ControlPlane.Callbacks.{CallbackTable, Call, call_callback_on_match, call_opened}
use ut_control.ControlPlane.Callbacks.Dispatch.{
  selected, entry, Answered, call_callback_on_match-selected,
}

-- A key that fits its array.
abbrev pub Fits : Call → Type 0
Fits r = IsText r.key × (length r.key < max_element_size)

module _ (Y : Fyaml) (w : World) (view : TreeView Y w) (laws : DocumentLaws Y)
    (paths : PathLaws Y w view) where
  -- The calls of the registrations whose key leads to something in the tree.
  abbrev pub calls_in : List Call → Option Tree → List Call
  calls_in rs none = []
  calls_in rs (some u) = selected (λ key. is_some (paths.path u (map dot_to_slash key))) rs

  tree-Answered :
      (p : Instance Y) (u : Tree) (rs : List Call)
      → p.magic ≡ kvp_magic
      → tree_in view p.fy_handle ≡ some u
      → All Fits rs
      → All (Answered Y p (λ key. is_some (paths.path u (map dot_to_slash key)))) rs
  tree-Answered p u [] valid shows fit = tt
  tree-Answered p u (r ∷ rs) valid shows fit = (
    (fit.0.0, fit.0.1, present-path Y w view paths p u r.key valid shows fit.0.0 fit.0.1),
    tree-Answered p u rs valid shows fit.1,
  )

  module _ (invoke : ℕ → Text → Instance Y → ℕ → Instance Y)
      (leaves : (p : Instance Y) (f u : ℕ) (key : Text) → invoke f key p u ≡ p) where
    opened-calls_in :
        (fuel : ℕ) (m : CpMessage) (bytes : List ℕ) (t : CallbackTable) (rs : List Call)
        (u : Option Tree)
        → m.message ≡ some bytes
        → Leaves Y w view laws u
            (ut_kvp_open_memory Y fuel (ut_kvp_create_instance Y true) (some bytes) m.size)
        → registered t ≡ map entry rs
        → All Fits rs
        → call_callback_on_match Y invoke fuel true m t ≡ done (calls_in rs u)
    unfolding call_callback_on_match call_opened
    opened-calls_in fuel m bytes t rs none text left table fit =
        rw (text, call_callback_on_match) (rw left.1 refl)
    opened-calls_in fuel m bytes t rs (some u) text left table fit =
        call_callback_on_match-selected Y invoke left.0 (leaves left.0)
          (λ key. is_some (paths.path u (map dot_to_slash key))) fuel true m bytes t rs text left.1
          table (tree-Answered left.0 u rs left.2 left.3 fit)

    -- Take a message with a C string that memory can be found for, that parses and has a root, and a
    -- table of registrations whose keys fit their arrays, of functions that leave the KVP handle as
    -- it is. With fuel enough, the functions are called whose key leads to something in the expansion
    -- of the string's tree, each with its key and its user's pointer, in the order in which they were
    -- registered, and no other; none is called where the tree has no expansion.
    pub call_callback_on_match-calls_in :
        (m : CpMessage) (bytes : List ℕ) (s : Text) (n : Y.Node) (t : CallbackTable)
        (rs : List Call)
        → m.message ≡ some bytes
        → read_string bytes ≡ some s
        → Parses Y s m.size n
        → registered t ≡ map entry rs
        → All Fits rs
        → (enough : ℕ) × ((fuel : ℕ)
            → enough ≤ fuel
            → call_callback_on_match Y invoke fuel true m t
              ≡ done (calls_in rs (expansion w max_include_depth (view.tree n))))
    unfolding ut_kvp_create_instance
    call_callback_on_match-calls_in m bytes s n t rs text string parses table fit =
        let (enough, opens) =
          ut_kvp_open_memory-Leaves Y w view laws (record { magic = kvp_magic; fy_handle = none })
            bytes s m.size n refl string parses in
        (
          enough,
          λ fuel h.
              opened-calls_in fuel m bytes t rs (expansion w max_include_depth (view.tree n)) text
                (opens fuel h) table fit,
        )
