-- ===== src/Kvp/Open/Chains.antt =====
-- src/ut_kvp.c: `ut_kvp_open` on files that are one include of the next, in a row or in a circle.
use ut_control.Base.{ℕ, ◌≤◌, ◌≡◌, none, some, if◌then◌else◌, ltb}
use ut_control.CString.{Text}
use ut_control.Kvp.Fyaml.{Fyaml}
use ut_control.Kvp.Instance.{Instance, kvp_magic}
use ut_control.Kvp.Include.{max_include_depth}
use ut_control.Kvp.Include.Tree.{Tree, World}
use ut_control.Kvp.Include.Expand.{TreeView}
use ut_control.Kvp.Include.Expand.Chains.{
  IsUnchanged, Chain, expansion-Chain, IsEndless, expansion-IsEndless,
}
use ut_control.Kvp.Open.{ut_kvp_open}
use ut_control.Kvp.Open.Loads.{DocumentLaws, Loads, Readable, ut_kvp_open-Loads}

module _ (Y : Fyaml) (w : World) (view : TreeView Y w) (laws : DocumentLaws Y) where
  -- Take a valid instance and a file that can be accessed and parsed, whose root is the include of a
  -- file that is the include of a file, and so on, `k` includes in a row, the last of a file without
  -- includes. With fuel enough, where `k` is below UT_KVP_MAX_INCLUDE_DEPTH, `ut_kvp_open` leaves the
  -- tree of that last file in the instance, merged into what was there; else it returns
  -- UT_KVP_STATUS_PARSING_ERROR and leaves the instance without a document.
  pub ut_kvp_open-Chain :
      (p : Instance Y) (name : Text) (n : Y.Node) (u : Tree) (k : ℕ)
      → p.magic ≡ kvp_magic
      → Readable Y name n
      → IsUnchanged w u
      → Chain w u (view.tree n) k
      → (enough : ℕ) × ((fuel : ℕ)
          → enough ≤ fuel
          → Loads Y w view laws p
              (if ltb k max_include_depth then some u else none)
              (ut_kvp_open Y fuel (some p) (some name)))
  ut_kvp_open-Chain p name n u k valid file same chain =
      rw (← expansion-Chain w u max_include_depth same chain)
        (ut_kvp_open-Loads Y w view laws p name n valid file)

  -- Take a valid instance and a file that can be accessed and parsed, whose root is an include, and
  -- let each file that is reached be an include of one of them again. With fuel enough `ut_kvp_open`
  -- returns UT_KVP_STATUS_PARSING_ERROR and leaves the instance without a document.
  pub ut_kvp_open-IsEndless :
      (p : Instance Y) (name : Text) (n : Y.Node) (member : Tree → Type 0)
      → p.magic ≡ kvp_magic
      → Readable Y name n
      → IsEndless w member
      → member (view.tree n)
      → (enough : ℕ) × ((fuel : ℕ)
          → enough ≤ fuel
          → Loads Y w view laws p none (ut_kvp_open Y fuel (some p) (some name)))
  ut_kvp_open-IsEndless p name n member valid file endless in_it =
      rw (expansion-IsEndless w member max_include_depth (view.tree n) endless in_it) at
        (ut_kvp_open-Loads Y w view laws p name n valid file)
