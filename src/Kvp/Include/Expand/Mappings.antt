-- ===== src/Kvp/Include/Expand/Mappings.antt =====
-- src/ut_kvp.c: the pairs of a mapping against the pairs of its expansion.
use ut_control.Base.{
  ℕ, suc, ◌+◌, ◌≡◌, subst, ap, sym, ◌∙◌, false, Option, none, some, List, [], ◌∷◌, ◌>>=◌,
  >>=-eq-some, leb, Option-cases, Bool-cases, inl, inr,
}
use ut_control.CString.{Text}
use ut_control.Kvp.Fyaml.{Fyaml}
use ut_control.Kvp.Include.{
  max_include_depth, Copy, merged_map, is_include_pair, include_of_pair, merge_or_copy, append_pair,
  copy_pair, copy_pairs, new_mapping,
}
use ut_control.Kvp.Include.Tree.{
  Tree, Pairs, World, mapping, end, pair, pairs_of, included_by_pair, with_pair, expansion,
  expand_tree, expand_pairs,
}
use ut_control.Kvp.Include.Expand.{TreeView, shown, shown-some, shown_same, shown_null, PairsOf}
use ut_control.Kvp.Include.Expand.Includes.{Expands, file_tree, process_include-Expands}
use ut_control.Kvp.Include.Expand.Merge.{is_include_pair_lem, merged_map-merged, append_pair_lem}

module _ (Y : Fyaml) (w : World) (view : TreeView Y w) where
  module _ (copy : Copy Y) (depth room : ℕ) (deeper : Expands Y w view copy (depth + 1) room)
      (shallow : leb max_include_depth depth ≡ false)
      (same : Expands Y w view copy depth (suc room)) where
    abbrev inc : Text → Option Tree
    inc = file_tree Y w view copy depth room deeper shallow

    -- A mapping's expansion with one more pair.
    abbrev with_expanded : (map key value : Tree) → Tree
    with_expanded t k v = with_pair w t k (included_by_pair k v >>= inc) (expansion w (suc room) v)

    include_of_pair-Expands :
        (k v : Y.Node) (r : Option Y.Node)
        → include_of_pair Y copy k v depth ≡ some r
        → shown view.tree r ≡ (included_by_pair (view.tree k) (view.tree v) >>= inc)
    unfolding include_of_pair
    include_of_pair-Expands k v r e = elim (Bool-cases (is_include_pair Y k v)) [
      | inr no' ↦
          rw (sym (is_include_pair_lem Y w view k v) ∙ no')
            (shown_null view.tree r (rw (no', include_of_pair) at e))
      | inl yes' ↦
          rw (sym (is_include_pair_lem Y w view k v) ∙ yes', ← view.get_scalar_string_lem v)
            (elim (Option-cases (Y.get_scalar_string v)) [
              | inl none' ↦ rw none' (
                  shown_null view.tree r
                    (rw (none', include_of_pair) at (rw (yes', include_of_pair) at e)))
              | inr (name, some') ↦ rw some' (
                  process_include-Expands Y w view copy depth room deeper shallow name r
                    (rw (some', include_of_pair) at (rw (yes', include_of_pair) at e)))
            ])
    ]

    merge_or_copy-Expands :
        (k v m m' : Y.Node) (t : Tree) (included : Option Y.Node)
        → view.tree m ≡ t
        → merge_or_copy Y copy included k v depth m ≡ some m'
        → view.tree m'
          ≡ with_pair w t
              (view.tree k)
              (shown view.tree included)
              (expansion w (suc room) (view.tree v))
    unfolding merge_or_copy
    merge_or_copy-Expands k v m m' t (some n) e r =
        let known : merged_map Y m n ≡ m' = cc (r) in
        ap view.tree (sym known) ∙ merged_map-merged Y w view m n t e
    merge_or_copy-Expands k v m m' t none e r =
        let (copied, first, last) =
          >>=-eq-some (copy (some v) depth) (λ c. some (append_pair Y m (Y.copy k) c)) r in
        let known : append_pair Y m (Y.copy k) copied ≡ m' = cc (last) in
        ap view.tree (sym known)
        ∙ append_pair_lem Y w view m k copied t e
        ∙ ap (with_pair w t (view.tree k) none) (same (some v) copied first)

    copy_pair-Expands :
        (k v m m' : Y.Node) (t : Tree)
        → view.tree m ≡ t
        → copy_pair Y copy (some k) (some v) depth m ≡ some m'
        → view.tree m' ≡ with_expanded t (view.tree k) (view.tree v)
    unfolding copy_pair
    copy_pair-Expands k v m m' t e r =
        let (included, first, last) =
          >>=-eq-some (include_of_pair Y copy k v depth)
            (λ included. merge_or_copy Y copy included k v depth m) r in
        merge_or_copy-Expands k v m m' t included e last
        ∙ ap
            (λ (i : Option Tree).
              with_pair w t (view.tree k) i (expansion w (suc room) (view.tree v)))
            (include_of_pair-Expands k v included first)

    copy_pairs-Expands :
        (ps : List (Option Y.Node × Option Y.Node)) (qs : Pairs) (m m' : Y.Node) (t : Tree)
        → PairsOf view.tree ps qs
        → view.tree m ≡ t
        → copy_pairs Y copy ps depth m ≡ some m'
        → view.tree m' ≡ expand_pairs w inc (expansion w room) qs t
    unfolding copy_pairs expand_tree expansion
    copy_pairs-Expands [] end m m' t of e r =
        let known : m ≡ m' = cc (r) in ap view.tree (sym known) ∙ e
    copy_pairs-Expands [] (pair k v qs) m m' t of e r = absurd of
    copy_pairs-Expands ((none, v) ∷ ps) end m m' t of e r = absurd of
    copy_pairs-Expands ((some k, none) ∷ ps) end m m' t of e r = absurd of
    copy_pairs-Expands ((some k, some v) ∷ ps) end m m' t of e r = absurd of
    copy_pairs-Expands ((none, v) ∷ ps) (pair k' v' qs) m m' t of e r = absurd of
    copy_pairs-Expands ((some k, none) ∷ ps) (pair k' v' qs) m m' t of e r = absurd of
    copy_pairs-Expands ((some k, some v) ∷ ps) (pair k' v' qs) m m' t of e r =
        let (grown, first, rest) =
          >>=-eq-some (copy_pair Y copy (some k) (some v) depth m)
            (λ m₁. copy_pairs Y copy ps depth m₁) r in
        copy_pairs-Expands ps qs grown m' (with_expanded t k' v') of.2
          (copy_pair-Expands k v m grown t e first
            ∙ ap (λ (x : Tree). with_expanded t x (view.tree v)) of.0
            ∙ ap (with_expanded t k') of.1)
          rest

    pub new_mapping-Expands :
        (n : Y.Node) (ps : Pairs) (r : Option Y.Node)
        → view.tree n ≡ mapping ps
        → new_mapping Y copy Y.create_mapping n depth ≡ some r
        → shown view.tree r ≡ some (expand_pairs w inc (expansion w room) ps (mapping end))
    unfolding new_mapping
    new_mapping-Expands n ps r e result =
        let (map, created, empty) =
          shown-some view.tree Y.create_mapping (mapping end) view.create_mapping_lem in
        let (m, built, end') =
          >>=-eq-some (copy_pairs Y copy (Y.pairs n) depth map) (λ m. some (some m))
            (rw (created, new_mapping) at result) in
        sym (shown_same view.tree (some m) r end')
        ∙ ap some (
            copy_pairs-Expands (Y.pairs n) ps map m (mapping end)
              (subst (λ (x : Tree). PairsOf view.tree (Y.pairs n) (pairs_of x)) e
                (view.pairs_lem n))
              empty built)
