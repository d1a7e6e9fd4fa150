-- ===== src/Kvp/Include/Expand/Nodes.antt =====
-- src/ut_kvp.c: `process_node_copy` against the expansion of a tree.
use ut_control.Base.{
  ℕ, zero, suc, ◌+◌, ◌≡◌, refl, ap, sym, ◌∙◌, true, false, Option, none, some, ◌>>=◌, leb, le→leb,
  arith, Bool-cases, inl, inr,
}
use ut_control.CString.{Text}
use ut_control.Kvp.Fyaml.{Fyaml}
use ut_control.Kvp.Include.{max_include_depth, Copy, has_include_tag, copy_node, process_node_copy}
use ut_control.Kvp.Include.Tag.{has_include_tag-other, has_include_tag-scalar}
use ut_control.Kvp.Include.Tree.{
  Tree, World, scalar, sequence, mapping, is_scalar_tree, is_sequence_tree, is_mapping_tree,
  c_string_of, is_include_tag, expansion, expand_tree,
}
use ut_control.Kvp.Include.Expand.{TreeView, shown, shown_same, shown_null}
use ut_control.Kvp.Include.Expand.Includes.{Expands, include_and_process-Expands}
use ut_control.Kvp.Include.Expand.Sequences.{new_sequence-Expands}
use ut_control.Kvp.Include.Expand.Mappings.{new_mapping-Expands}

module _ (Y : Fyaml) (w : World) (view : TreeView Y w) where
  has_include_tag_lem :
      (n : Y.Node) (tag text string : Option Text)
      → view.tree n ≡ scalar tag text string
      → has_include_tag Y n ≡ is_include_tag tag
  unfolding has_include_tag
  has_include_tag_lem n none text string e =
      rw (view.get_tag_lem n none text string e, has_include_tag) refl
  has_include_tag_lem n (some tag) text string e =
      has_include_tag-scalar Y n tag (view.is_scalar_lem n ∙ ap is_scalar_tree e)
        (view.get_tag_lem n (some tag) text string e)

  module _ (copy : Copy Y) (depth room : ℕ) (deeper : Expands Y w view copy (depth + 1) room)
      (shallow : leb max_include_depth depth ≡ false)
      (same : Expands Y w view copy depth (suc room)) where
    -- By the node's kind.
    copy_node-Expands :
        (x : Y.Node) (r : Option Y.Node) (t : Tree)
        → view.tree x ≡ t
        → copy_node Y copy x depth ≡ some r
        → shown view.tree r ≡ expansion w (suc room) t
    unfolding copy_node expansion expand_tree
    copy_node-Expands x r (scalar tag text string) e result =
        let scalar' : Y.is_scalar x ≡ true = view.is_scalar_lem x ∙ ap is_scalar_tree e in
        let tagged : has_include_tag Y x ≡ is_include_tag tag =
          has_include_tag_lem x tag text string e in
        elim (Bool-cases (is_include_tag tag)) [
          | inl yes' ↦ rw yes' (
              include_and_process-Expands Y w view copy depth room deeper shallow
                (Y.get_scalar_string x) r (rw (tagged ∙ yes', copy_node) at result)
              ∙ ap
                  (λ (name : Option Text).
                    name >>= (λ f. w.source f >>= expansion w room) >>= expansion w room)
                  (view.get_scalar_string_lem x ∙ ap c_string_of e))
          | inr no' ↦ rw no' (
              sym (
                shown_same view.tree (Y.copy x) r
                  (rw scalar' at (rw (tagged ∙ no', copy_node) at result)))
              ∙ view.copy_lem x
              ∙ ap some e)
        ]
    copy_node-Expands x r (sequence ts) e result =
        let scalar' : Y.is_scalar x ≡ false = view.is_scalar_lem x ∙ ap is_scalar_tree e in
        let sequence' : Y.is_sequence x ≡ true = view.is_sequence_lem x ∙ ap is_sequence_tree e in
        new_sequence-Expands Y w view copy depth room deeper shallow same x ts r e (
          rw sequence' at
            (rw scalar' at (rw (has_include_tag-other Y x scalar', copy_node) at result)))
    copy_node-Expands x r (mapping ps) e result =
        let scalar' : Y.is_scalar x ≡ false = view.is_scalar_lem x ∙ ap is_scalar_tree e in
        let sequence' : Y.is_sequence x ≡ false = view.is_sequence_lem x ∙ ap is_sequence_tree e in
        let mapping' : Y.is_mapping x ≡ true = view.is_mapping_lem x ∙ ap is_mapping_tree e in
        new_mapping-Expands Y w view copy depth room deeper shallow same x ps r e (
          rw mapping' at (
            rw sequence' at
              (rw scalar' at (rw (has_include_tag-other Y x scalar', copy_node) at result))))

  -- Whatever it returns, `process_node_copy` returns the expansion, with any fuel.
  pub process_node_copy-Expands :
      (fuel depth room : ℕ)
      → depth + room ≡ max_include_depth
      → Expands Y w view (process_node_copy Y fuel true) depth room
  unfolding process_node_copy expansion
  process_node_copy-Expands zero depth room h src r e = absurd (cc)
  process_node_copy-Expands (suc fuel) depth room h none r e = shown_null view.tree r e
  process_node_copy-Expands (suc fuel) depth zero h (some n) r e =
      shown_null view.tree r
        (rw (le→leb max_include_depth depth (omega arith), process_node_copy) at e)
  process_node_copy-Expands (suc fuel) depth (suc room) h (some n) r e =
      let shallow : leb max_include_depth depth ≡ false = ground arith in
      copy_node-Expands (process_node_copy Y fuel true) depth room
        (process_node_copy-Expands fuel (depth + 1) room (omega arith)) shallow
        (process_node_copy-Expands fuel depth (suc room) h) n r (view.tree n) refl
        (rw (shallow, process_node_copy) at e)
