-- ===== src/Kvp/Include/Expand/Includes.antt =====
-- src/ut_kvp.c: `process_include`, and the second pass over what it returns, against trees.
use ut_control.Base.{ℕ, ◌+◌, ◌≡◌, ap, ◌∙◌, false, Option, none, some, ◌>>=◌, >>=-eq-some, leb}
use ut_control.CString.{Text}
use ut_control.Kvp.Fyaml.{Fyaml}
use ut_control.Kvp.Include.{
  max_include_depth, Copy, source_document, copy_document, process_include, process_again,
  include_and_process,
}
use ut_control.Kvp.Include.Tree.{Tree, World, expansion}
use ut_control.Kvp.Include.Expand.{TreeView, shown, shown_null}

module _ (Y : Fyaml) (w : World) (view : TreeView Y w) where
  -- Copies at a depth stand for the expansions with `room` levels, where the copy is a node or NULL.
  abbrev pub Expands : Copy Y → (depth room : ℕ) → Type 0
  Expands copy depth room =
      (src r : Option Y.Node)
      → copy src depth ≡ some r
      → shown view.tree r ≡ (shown view.tree src >>= expansion w room)

  module _ (copy : Copy Y) (depth room : ℕ) (deeper : Expands copy (depth + 1) room)
      (shallow : leb max_include_depth depth ≡ false) where
    -- The tree of an included file.
    abbrev pub file_tree : Text → Option Tree
    file_tree name = w.source name >>= expansion w room

    copy_document-Expands :
        (doc : Option Y.Document) (r : Option Y.Node)
        → copy_document Y copy doc depth ≡ some r
        → shown view.tree r ≡ (shown view.tree (doc >>= λ d. Y.root (some d)) >>= expansion w room)
    unfolding copy_document
    copy_document-Expands none r e = shown_null view.tree r e
    copy_document-Expands (some doc) r e = deeper (Y.root (some doc)) r e

    pub process_include-Expands :
        (name : Text) (r : Option Y.Node)
        → process_include Y copy name depth ≡ some r
        → shown view.tree r ≡ file_tree name
    unfolding process_include
    process_include-Expands name r e =
        copy_document-Expands (source_document Y name) r (rw shallow at e)
        ∙ ap (λ (t : Option Tree). t >>= expansion w room) (view.source_lem name)

    process_again-Expands :
        (n r : Option Y.Node)
        → process_again Y copy n depth ≡ some r
        → shown view.tree r ≡ (shown view.tree n >>= expansion w room)
    unfolding process_again
    process_again-Expands none r e = shown_null view.tree r e
    process_again-Expands (some n) r e = deeper (some n) r e

    pub include_and_process-Expands :
        (name : Option Text) (r : Option Y.Node)
        → include_and_process Y copy name depth ≡ some r
        → shown view.tree r ≡ (name >>= file_tree >>= expansion w room)
    unfolding include_and_process
    include_and_process-Expands none r e = shown_null view.tree r e
    include_and_process-Expands (some name) r e =
        let (n, first, second) =
          >>=-eq-some (process_include Y copy name depth) (λ n. process_again Y copy n depth) e in
        process_again-Expands n r second
        ∙ ap (λ (t : Option Tree). t >>= expansion w room) (process_include-Expands name n first)
