-- ===== src/Kvp/Include/Expand/Sequences.antt =====
-- src/ut_kvp.c: the entries of a sequence against the entries of its expansion.
use ut_control.Base.{
  ℕ, suc, ◌+◌, ◌≡◌, refl, subst, ap, sym, ◌∙◌, false, Option, none, some, List, [], ◌∷◌, ◌>>=◌,
  >>=-eq-some, if◌then◌else◌, leb, Option-cases, inl, inr,
}
use ut_control.CString.{Text}
use ut_control.Kvp.Fyaml.{Fyaml}
use ut_control.Kvp.Include.{
  max_include_depth, include_word, Copy, include_of_entry, include_and_process, or_copy, copy_entry,
  append_entry, copy_entries, new_sequence,
}
use ut_control.Kvp.Include.Tree.{
  Tree, Trees, World, scalar, sequence, mapping, nil, cons, is_scalar_tree, c_string_of, entries_of,
  append_trees, or_else, maybe_cons, included_by_entry, expansion, expand_tree, expand_entries,
}
use ut_control.Kvp.Include.Expand.{TreeView, shown, shown-some, shown_same, ItemsOf}
use ut_control.Kvp.Include.Expand.Includes.{Expands, file_tree, include_and_process-Expands}

string_of_scalar : (t : Tree) → (if is_scalar_tree t then c_string_of t else none) ≡ c_string_of t
string_of_scalar (scalar tag text string) = refl
string_of_scalar (sequence ts) = refl
string_of_scalar (mapping ps) = refl

append_trees-nil : (ts : Trees) → append_trees ts nil ≡ ts
append_trees-nil nil = refl
append_trees-nil (cons t ts) = ap (cons t) (append_trees-nil ts)

append_trees-maybe_cons :
    (ts us : Trees) (o : Option Tree)
    → append_trees (append_trees ts (maybe_cons o nil)) us ≡ append_trees ts (maybe_cons o us)
append_trees-maybe_cons nil us none = refl
append_trees-maybe_cons nil us (some t) = refl
append_trees-maybe_cons (cons t ts) us o = ap (cons t) (append_trees-maybe_cons ts us o)

module _ (Y : Fyaml) (w : World) (view : TreeView Y w) where
  include_of_entry_lem : (x : Y.Node) → include_of_entry Y x ≡ included_by_entry w (view.tree x)
  unfolding include_of_entry
  include_of_entry_lem x = elim (Option-cases (Y.lookup_by_string x include_word)) [
    | inl none' ↦ rw (view.is_mapping_lem x) (rw (← view.lookup_lem x include_word) (rw none'))
    | inr (incl, some') ↦ rw (view.is_mapping_lem x) (
        rw (← view.lookup_lem x include_word) (
          rw some' (
            rw (view.is_scalar_lem incl, view.get_scalar_string_lem incl)
              (rw (string_of_scalar (view.tree incl))))))
  ]

  append_entry_lem :
      (seq : Y.Node) (acc : Trees) (copied : Option Y.Node)
      → view.tree seq ≡ sequence acc
      → view.tree (append_entry Y seq copied)
        ≡ sequence (append_trees acc (maybe_cons (shown view.tree copied) nil))
  unfolding append_entry
  append_entry_lem seq acc none e = e ∙ ap sequence (sym (append_trees-nil acc))
  append_entry_lem seq acc (some x) e =
      let (s, appended, t) =
        shown-some view.tree (Y.sequence_append seq x) _ (view.sequence_append_lem seq x acc e) in
      rw (appended, append_entry) t

  module _ (copy : Copy Y) (depth room : ℕ) (deeper : Expands Y w view copy (depth + 1) room)
      (shallow : leb max_include_depth depth ≡ false)
      (same : Expands Y w view copy depth (suc room)) where
    abbrev inc : Text → Option Tree
    inc = file_tree Y w view copy depth room deeper shallow

    -- An entry is what it includes, or its own expansion.
    abbrev entry_tree : Tree → Option Tree
    entry_tree t =
        or_else (included_by_entry w t >>= inc >>= expansion w room) (expansion w (suc room) t)

    or_copy-Expands :
        (x : Y.Node) (included r : Option Y.Node)
        → or_copy Y copy included x depth ≡ some r
        → shown view.tree r
          ≡ or_else (shown view.tree included) (expansion w (suc room) (view.tree x))
    unfolding or_copy
    or_copy-Expands x none r e = same (some x) r e
    or_copy-Expands x (some n) r e = sym (shown_same view.tree (some n) r e)

    copy_entry-Expands :
        (x : Y.Node) (r : Option Y.Node)
        → copy_entry Y copy x depth ≡ some r
        → shown view.tree r ≡ entry_tree (view.tree x)
    unfolding copy_entry
    copy_entry-Expands x r e =
        let (included, first, second) =
          >>=-eq-some (include_and_process Y copy (include_of_entry Y x) depth)
            (λ copied. or_copy Y copy copied x depth) e in
        or_copy-Expands x included r second
        ∙ ap (λ (o : Option Tree). or_else o (expansion w (suc room) (view.tree x)))
            (include_and_process-Expands Y w view copy depth room deeper shallow
                (include_of_entry Y x) included first
              ∙ ap (λ (name : Option Text). name >>= inc >>= expansion w room)
                  (include_of_entry_lem x))

    copy_entries-Expands :
        (xs : List Y.Node) (ts acc : Trees) (seq s : Y.Node)
        → ItemsOf view.tree xs ts
        → view.tree seq ≡ sequence acc
        → copy_entries Y copy xs depth seq ≡ some s
        → view.tree s ≡ sequence (append_trees acc (expand_entries w inc (expansion w room) ts))
    unfolding copy_entries expand_tree expansion
    copy_entries-Expands [] nil acc seq s of e r =
        ap view.tree (sym (cc (r))) ∙ e ∙ ap sequence (sym (append_trees-nil acc))
    copy_entries-Expands [] (cons t ts) acc seq s of e r = absurd of
    copy_entries-Expands (x ∷ xs) nil acc seq s of e r = absurd of
    copy_entries-Expands (x ∷ xs) (cons t ts) acc seq s of e r =
        let (copied, first, rest) =
          >>=-eq-some (copy_entry Y copy x depth)
            (λ copied. copy_entries Y copy xs depth (append_entry Y seq copied)) r in
        let o = entry_tree t in
        let shows : shown view.tree copied ≡ o =
          copy_entry-Expands x copied first ∙ ap entry_tree of.0 in
        let grown : view.tree (append_entry Y seq copied)
            ≡ sequence (append_trees acc (maybe_cons o nil)) =
          append_entry_lem seq acc copied e
          ∙ ap (λ (u : Option Tree). sequence (append_trees acc (maybe_cons u nil))) shows in
        copy_entries-Expands xs ts (append_trees acc (maybe_cons o nil)) (append_entry Y seq copied)
          s of.1 grown rest
        ∙ ap sequence (append_trees-maybe_cons acc (expand_entries w inc (expansion w room) ts) o)

    pub new_sequence-Expands :
        (n : Y.Node) (ts : Trees) (r : Option Y.Node)
        → view.tree n ≡ sequence ts
        → new_sequence Y copy Y.create_sequence n depth ≡ some r
        → shown view.tree r ≡ some (sequence (expand_entries w inc (expansion w room) ts))
    unfolding new_sequence
    new_sequence-Expands n ts r e result =
        let (seq, created, empty) =
          shown-some view.tree Y.create_sequence (sequence nil) view.create_sequence_lem in
        let (s, built, end) =
          >>=-eq-some (copy_entries Y copy (Y.items n) depth seq) (λ s. some (some s))
            (rw (created, new_sequence) at result) in
        sym (shown_same view.tree (some s) r end)
        ∙ ap some (
            copy_entries-Expands (Y.items n) ts nil seq s
              (subst (λ (x : Tree). ItemsOf view.tree (Y.items n) (entries_of x)) e
                (view.items_lem n))
              empty built)
