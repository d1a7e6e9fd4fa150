-- ===== src/Kvp/Open/Answers.antt =====
-- src/ut_kvp.c: what the getters answer after `ut_kvp_open`, from the documents' trees.
use ut_control.Base.{
  ℕ, ◌≤◌, ◌<◌, ◌≡◌, ◌∙◌, refl, ap, Option, none, some, List, [], ◌∷◌, ◌++◌, ◌>>=◌, map, length, set,
  drop, arith, length-set,
}
use ut_control.CString.{Text, IsText}
use ut_control.CString.Buffer.{read_string, strncpy_inside, strncpy_bytes}
use ut_control.Kvp.Key.{max_element_size, dot_to_slash, zkey_lem, write_inside}
use ut_control.Kvp.Fyaml.{Fyaml}
use ut_control.Kvp.Instance.{
  Status, success, parsing_error, key_not_found, Instance, kvp_magic, validate_instance-valid,
}
use ut_control.Kvp.Nodes.{
  located, found, locate, is_found, string_of, copy_scalar, ut_kvp_field_present,
  ut_kvp_get_string_field,
}
use ut_control.Kvp.Include.{max_include_depth, is_some}
use ut_control.Kvp.Include.Tree.{Tree, World, scalar, sequence, mapping, text_of, expansion}
use ut_control.Kvp.Include.Expand.{TreeView, shown, shown-some}
use ut_control.Kvp.Open.{done, ut_kvp_open}
use ut_control.Kvp.Open.Loads.{DocumentLaws, Readable, loaded, tree_in, ut_kvp_open-Loads}

-- A text up to its first NUL.
abbrev pub c_string : Text → Option Text
c_string s = read_string (s ++ 0 ∷ [])

-- What is documented of the walk along a path, and of the text that is read with a NUL behind it.
pub record PathLaws (Y : Fyaml) (w : World) (view : TreeView Y w) : Type 0 where
  pub path : Tree → Text → Option Tree
  pub by_path_lem : (n : Y.Node) (z : Text) → shown view.tree (Y.by_path n z) ≡ path (view.tree n) z
  pub get_scalar0_lem : (n : Y.Node) → Y.get_scalar0 n ≡ (text_of (view.tree n) >>= c_string)

-- What a string getter leaves in an array of which `size` bytes are the caller's, from the text of
-- the scalar at the key's path.
abbrev pub copied_text : Option Text → ℕ → List ℕ → Status × List ℕ
copied_text none size cleared = (key_not_found, cleared)
copied_text (some s) size cleared = (success, strncpy_bytes size s ++ drop size cleared)

-- The same, from the tree at the key's path.
abbrev pub string_answer : Option Tree → ℕ → List ℕ → Status × List ℕ
string_answer none size cleared = (key_not_found, cleared)
string_answer (some (scalar tag text string)) size cleared =
    copied_text (text >>= c_string) size cleared
string_answer (some _) size cleared = (parsing_error, cleared)

module _ (Y : Fyaml) (w : World) (view : TreeView Y w) (paths : PathLaws Y w view) where
  copy_scalar-copied_text :
      (s : Option Text) (cleared : List ℕ) (size : ℕ)
      → size ≤ length cleared
      → copy_scalar Y s cleared size ≡ some (copied_text s size cleared)
  unfolding copy_scalar
  copy_scalar-copied_text none cleared size room = refl
  copy_scalar-copied_text (some s) cleared size room = rw (strncpy_inside cleared s size room)

  string_of_node :
      (n : Y.Node) (t : Tree) (cleared : List ℕ) (size : ℕ)
      → view.tree n ≡ t
      → size ≤ length cleared
      → string_of Y (found n) cleared size ≡ some (string_answer (some t) size cleared)
  unfolding string_of
  string_of_node n (scalar tag text string) cleared size e room =
      rw (view.is_scalar_lem n, e)
        (rw (paths.get_scalar0_lem n)
          (rw e (copy_scalar-copied_text (text >>= c_string) cleared size room)))
  string_of_node n (sequence ts) cleared size e room = rw (view.is_scalar_lem n, e)
  string_of_node n (mapping ps) cleared size e room = rw (view.is_scalar_lem n, e)

  string_of-located :
      (o : Option Y.Node) (cleared : List ℕ) (size : ℕ)
      → size ≤ length cleared
      → string_of Y (located Y o) cleared size
        ≡ some (string_answer (shown view.tree o) size cleared)
  unfolding string_of located
  string_of-located none cleared size room = refl
  string_of-located (some n) cleared size room =
      string_of_node n (view.tree n) cleared size refl room

  is_found-located : (o : Option Y.Node) → is_found Y (located Y o) ≡ is_some (shown view.tree o)
  unfolding is_found located
  is_found-located none = refl
  is_found-located (some n) = refl

  -- Both getters at a key that fits its array, on a valid instance.
  abbrev pub Answers : Instance Y → Text → (size : ℕ) (buffer : List ℕ) → Option Tree → Type 0
  Answers p k size buffer t =
      (ut_kvp_field_present Y (some p) (some k) ≡ some (is_some t))
      × (ut_kvp_get_string_field Y (some p) (some k) (some buffer) size
          ≡ some (string_answer t size (set buffer 0 0)))

  locate-shown :
      (p : Instance Y) (handle : Option Y.Document) (t : Tree) (k : Text)
      → p.fy_handle ≡ handle
      → tree_in view handle ≡ some t
      → IsText k
      → length k < max_element_size
      → (o : Option Y.Node) × (locate Y p k ≡ some (located Y o))
        × (shown view.tree o ≡ paths.path t (map dot_to_slash k))
  unfolding locate
  locate-shown p none t k holds shows key fits = absurd (cc)
  locate-shown p (some doc) t k holds shows key fits =
      let (top, rooted, stands) = shown-some view.tree (Y.root (some doc)) t shows in
      (
        Y.by_path top (map dot_to_slash k),
        rw (holds, locate) (rw (rooted, locate) (rw (zkey_lem k key fits, locate))),
        paths.by_path_lem top (map dot_to_slash k)
            ∙ ap (λ (x : Tree). paths.path x (map dot_to_slash k)) stands,
      )

  module _ (p : Instance Y) (t : Tree) (k : Text) (valid : p.magic ≡ kvp_magic)
      (shows : tree_in view p.fy_handle ≡ some t) (key : IsText k)
      (fits : length k < max_element_size) where
    -- ut_kvp_fieldPresent in a tree.
    pub present-path :
        ut_kvp_field_present Y (some p) (some k)
        ≡ some (is_some (paths.path t (map dot_to_slash k)))
    unfolding ut_kvp_field_present
    present-path =
        let (o, walks, found_tree) = locate-shown p p.fy_handle t k refl shows key fits in
        rw (validate_instance-valid Y p valid, ut_kvp_field_present)
          (rw (walks, ← found_tree) (ap some (is_found-located o)))

    tree-Answers :
        (size : ℕ) (buffer : List ℕ)
        → 0 < size
        → size ≤ length buffer
        → Answers p k size buffer (paths.path t (map dot_to_slash k))
    unfolding ut_kvp_get_string_field
    tree-Answers size buffer some_room room =
        let (o, walks, found_tree) = locate-shown p p.fy_handle t k refl shows key fits in
        (
          present-path,
          rw (validate_instance-valid Y p valid, ut_kvp_get_string_field)
              (rw (write_inside 0 0 buffer (omega arith), walks, ← found_tree)
                (string_of-located o (set buffer 0 0) size (omega (arith, length-set buffer 0 0)))),
        )

  -- Take a valid instance, with a document or none, and a file that can be accessed and parsed, has a
  -- root, and has an expansion; a key that fits its array; and an array with room for `size` bytes,
  -- one or more. With fuel enough, `ut_kvp_open` succeeds, and then the getters answer from the tree
  -- that it leaves, the expansion or the merge with it, at the key's path: ut_kvp_fieldPresent says
  -- whether there is a tree; ut_kvp_getStringField copies the text of a scalar, finds no key where
  -- there is nothing or no text, and reports UT_KVP_STATUS_PARSING_ERROR for other trees.
  pub ut_kvp_open-Answers :
      (laws : DocumentLaws Y) (p : Instance Y) (name : Text) (n : Y.Node) (u : Tree) (k : Text)
      (size : ℕ) (buffer : List ℕ)
      → p.magic ≡ kvp_magic
      → Readable Y name n
      → expansion w max_include_depth (view.tree n) ≡ some u
      → IsText k
      → length k < max_element_size
      → 0 < size
      → size ≤ length buffer
      → (enough : ℕ) × ((fuel : ℕ)
          → enough ≤ fuel
          → (p' : Instance Y) × (ut_kvp_open Y fuel (some p) (some name) ≡ done (success, some p'))
            × Answers p' k size buffer
                (paths.path (loaded w (tree_in view p.fy_handle) u) (map dot_to_slash k)))
  ut_kvp_open-Answers laws p name n u k size buffer valid file expands key fits some_room room =
      let (enough, loads) = ut_kvp_open-Loads Y w view laws p name n valid file in
      (
        enough,
        λ fuel h.
            let (p', returns, valid', shows) = rw expands at (loads fuel h) in
            (p', returns, tree-Answers p' _ k valid' shows key fits size buffer some_room room),
      )
