-- ===== src/Kvp/Include/Termination.antt =====
-- src/ut_kvp.c: `process_node_copy` ends on every document, whatever the files include.
use ut_control.Base.{
  ℕ, zero, suc, ◌+◌, ◌≤◌, ◌<◌, refl, Option, none, some, arith, true, leb, List, [], ◌∷◌, All,
  All-imp, le→leb,
}
use ut_control.CString.{Text}
use ut_control.Kvp.Fyaml.{Fyaml}
use ut_control.Kvp.Include.Settles.{Settles, Settles-some, Settles-bind, Settles-if, Settles-call}
use ut_control.Kvp.Include.{
  max_include_depth, Copy, copy_document, process_include, process_again, include_and_process,
  source_document, include_of_entry, or_copy, copy_entry, append_entry, copy_entries,
  is_include_pair, include_of_pair, append_pair, merged_map, merge_or_copy, copy_pair, copy_pairs,
  has_include_tag, new_sequence, new_mapping, copy_node, process_node_copy,
}

-- The value of a pair, where it has one, satisfies `P`.
abbrev pub OnValue : {A : Type 0} → (A → Type 0) → Option A × Option A → Type 0
OnValue P (key, none) = Unit
OnValue P (key, some val) = P val

OnValue-imp :
    {A : Type 0} (P Q : A → Type 0)
    → ((x : A) → P x → Q x)
    → (pair : Option A × Option A) → OnValue P pair
    → OnValue Q pair
OnValue-imp P Q h (key, none) all = tt
OnValue-imp P Q h (key, some val) all = h val all

-- A node is a finite tree: what fy_node_sequence_iterate and fy_node_mapping_iterate return of it is
-- smaller.
pub record IsFinite (Y : Fyaml) : Type 0 where
  pub height : Y.Node → ℕ
  pub items_below : (n : Y.Node) → All (λ x. height x < height n) (Y.items n)
  pub values_below : (n : Y.Node) → All (OnValue (λ x. height x < height n)) (Y.pairs n)

module _ (Y : Fyaml) where
  abbrev copy_with : ℕ → Copy Y
  copy_with fuel = process_node_copy Y fuel true

  abbrev Ends : Option Y.Node → ℕ → Type 0
  Ends src depth = Settles (λ fuel. process_node_copy Y fuel true src depth)

  module _ (depth : ℕ) (deeper : (src : Option Y.Node) → Ends src (depth + 1)) where
    copy_document-Settles :
        (doc : Option Y.Document) → Settles (λ fuel. copy_document Y (copy_with fuel) doc depth)
    unfolding copy_document
    copy_document-Settles none = Settles-some none
    copy_document-Settles (some doc) = deeper (Y.root (some doc))

    process_include-Settles :
        (filename : Text) → Settles (λ fuel. process_include Y (copy_with fuel) filename depth)
    unfolding process_include
    process_include-Settles filename =
        Settles-if (leb max_include_depth depth) _ _ (Settles-some none)
          (copy_document-Settles (source_document Y filename))

    process_again-Settles :
        (node : Option Y.Node) → Settles (λ fuel. process_again Y (copy_with fuel) node depth)
    unfolding process_again
    process_again-Settles none = Settles-some none
    process_again-Settles (some node) = deeper (some node)

    include_and_process-Settles :
        (filename : Option Text)
        → Settles (λ fuel. include_and_process Y (copy_with fuel) filename depth)
    unfolding include_and_process
    include_and_process-Settles none = Settles-some none
    include_and_process-Settles (some filename) =
        Settles-bind _ _ (process_include-Settles filename) process_again-Settles

    or_copy-Settles :
        (entry : Y.Node)
        → Ends (some entry) depth
        → (copied : Option Y.Node) → Settles (λ fuel. or_copy Y (copy_with fuel) copied entry depth)
    unfolding or_copy
    or_copy-Settles entry ends none = ends
    or_copy-Settles entry ends (some copied) = Settles-some (some copied)

    copy_entries-Settles :
        (entries : List Y.Node)
        → All (λ x. Ends (some x) depth) entries
        → (seq : Y.Node) → Settles (λ fuel. copy_entries Y (copy_with fuel) entries depth seq)
    unfolding copy_entries copy_entry
    copy_entries-Settles [] ends seq = Settles-some seq
    copy_entries-Settles (entry ∷ entries) ends seq =
        Settles-bind _ _
          (Settles-bind _ _ (include_and_process-Settles (include_of_entry Y entry))
            (or_copy-Settles entry ends.0))
          (λ copied. copy_entries-Settles entries ends.1 (append_entry Y seq copied))

    include_of_pair-Settles :
        (key val : Y.Node) → Settles (λ fuel. include_of_pair Y (copy_with fuel) key val depth)
    unfolding include_of_pair
    include_of_pair-Settles key val =
        Settles-if (is_include_pair Y key val) _ _ (from_string (Y.get_scalar_string val))
          (Settles-some none)
      where
        from_string :
            (filename : Option Text)
            → Settles {A = Option Y.Node} (λ fuel. elim filename [
              | none ↦ some none
              | some filepath ↦ process_include Y (copy_with fuel) filepath depth
            ])
        from_string none = Settles-some none
        from_string (some filename) = process_include-Settles filename

    merge_or_copy-Settles :
        (key val : Y.Node)
        → Ends (some val) depth
        → (map : Y.Node) (included : Option Y.Node)
        → Settles (λ fuel. merge_or_copy Y (copy_with fuel) included key val depth map)
    unfolding merge_or_copy
    merge_or_copy-Settles key val ends map (some included) =
        Settles-some (merged_map Y map included)
    merge_or_copy-Settles key val ends map none =
        Settles-bind _ _ ends (λ copied. Settles-some (append_pair Y map (Y.copy key) copied))

    copy_pair-Settles :
        (key val : Option Y.Node)
        → OnValue (λ x. Ends (some x) depth) (key, val)
        → (map : Y.Node) → Settles (λ fuel. copy_pair Y (copy_with fuel) key val depth map)
    unfolding copy_pair
    copy_pair-Settles (some key) (some val) ends map =
        Settles-bind _ _ (include_of_pair-Settles key val) (merge_or_copy-Settles key val ends map)
    copy_pair-Settles (some key) none ends map = Settles-some map
    copy_pair-Settles none val ends map = Settles-some map

    copy_pairs-Settles :
        (pairs : List (Option Y.Node × Option Y.Node))
        → All (OnValue (λ x. Ends (some x) depth)) pairs
        → (map : Y.Node) → Settles (λ fuel. copy_pairs Y (copy_with fuel) pairs depth map)
    unfolding copy_pairs
    copy_pairs-Settles [] ends map = Settles-some map
    copy_pairs-Settles ((key, val) ∷ pairs) ends map =
        Settles-bind _ _ (copy_pair-Settles key val ends.0 map) (copy_pairs-Settles pairs ends.1)

    new_sequence-Settles :
        (seq : Option Y.Node) (node : Y.Node)
        → All (λ x. Ends (some x) depth) (Y.items node)
        → Settles (λ fuel. new_sequence Y (copy_with fuel) seq node depth)
    unfolding new_sequence
    new_sequence-Settles none node ends = Settles-some none
    new_sequence-Settles (some seq) node ends =
        Settles-bind _ _ (copy_entries-Settles (Y.items node) ends seq) (λ s. Settles-some (some s))

    new_mapping-Settles :
        (map : Option Y.Node) (node : Y.Node)
        → All (OnValue (λ x. Ends (some x) depth)) (Y.pairs node)
        → Settles (λ fuel. new_mapping Y (copy_with fuel) map node depth)
    unfolding new_mapping
    new_mapping-Settles none node ends = Settles-some none
    new_mapping-Settles (some map) node ends =
        Settles-bind _ _ (copy_pairs-Settles (Y.pairs node) ends map) (λ m. Settles-some (some m))

    copy_node-Settles :
        (node : Y.Node)
        → All (λ x. Ends (some x) depth) (Y.items node)
        → All (OnValue (λ x. Ends (some x) depth)) (Y.pairs node)
        → Settles (λ fuel. copy_node Y (copy_with fuel) node depth)
    unfolding copy_node
    copy_node-Settles node items pairs =
        Settles-if (has_include_tag Y node) _ _
          (include_and_process-Settles (Y.get_scalar_string node))
          (Settles-if (Y.is_scalar node) _ _ (Settles-some (Y.copy node)) (
            Settles-if (Y.is_sequence node) _ _ (new_sequence-Settles Y.create_sequence node items)
              (Settles-if (Y.is_mapping node) _ _ (new_mapping-Settles Y.create_mapping node pairs)
                (Settles-some none))))

  null-Ends : (depth : ℕ) → Ends none depth
  unfolding process_node_copy
  null-Ends depth = Settles-call _ (λ _. some none) (λ fuel. refl) (Settles-some none)

  too_deep-Ends : (node : Y.Node) (depth : ℕ) → max_include_depth ≤ depth → Ends (some node) depth
  unfolding process_node_copy
  too_deep-Ends node depth h =
      Settles-call _ (λ _. some none) (λ fuel. rw (le→leb max_include_depth depth h))
        (Settles-some none)

  module _ (fin : IsFinite Y) where
    -- `levels` bounds the includes that are still allowed, `bound` the height of the node.
    node-Ends :
        (levels bound depth : ℕ) (node : Y.Node)
        → max_include_depth ≤ depth + levels
        → fin.height node < bound
        → Ends (some node) depth
    unfolding process_node_copy
    node-Ends zero bound depth node deep h = too_deep-Ends node depth (omega arith)
    node-Ends (suc levels) zero depth node deep h = elim h [ ]
    node-Ends (suc levels) (suc bound) depth node deep h =
        Settles-call _ _ (λ fuel. refl)
          (Settles-if (leb max_include_depth depth) _ _ (Settles-some none) (
            copy_node-Settles depth
              (elim [
                | none ↦ null-Ends (depth + 1)
                | some n ↦
                    node-Ends levels (suc (fin.height n)) (depth + 1) n (omega arith) (omega arith)
              ])
              node
              (All-imp (λ x. fin.height x < fin.height node) (λ x. Ends (some x) depth)
                (Y.items node) (λ x below. node-Ends (suc levels) bound depth x deep (omega arith))
                (fin.items_below node))
              (All-imp (OnValue (λ x. fin.height x < fin.height node))
                (OnValue (λ x. Ends (some x) depth)) (Y.pairs node)
                (OnValue-imp (λ x. fin.height x < fin.height node) (λ x. Ends (some x) depth)
                  (λ x below. node-Ends (suc levels) bound depth x deep (omega arith)))
                (fin.values_below node))))

  -- Where documents are finite trees, copying a node with its includes ends: from some fuel on the
  -- result no longer depends on the fuel. This holds whatever the files include, also where they
  -- include one another.
  pub process_node_copy-Settles :
      IsFinite Y
      → (src : Option Y.Node) (depth : ℕ)
      → Settles (λ fuel. process_node_copy Y fuel true src depth)
  process_node_copy-Settles fin none depth = null-Ends depth
  process_node_copy-Settles fin (some node) depth =
      node-Ends fin max_include_depth (suc (fin.height node)) depth node (omega arith) (omega arith)
