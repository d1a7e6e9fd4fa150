-- ===== src/Kvp/Open/Loads.antt =====
-- src/ut_kvp.c: the tree that `ut_kvp_open` leaves in an instance.
use ut_control.Base.{
  ℕ, ◌≤◌, ◌≡◌, refl, ap, ◌∙◌, true, Option, none, some, Option-cases, inl, inr, arith,
}
use ut_control.CString.{Text}
use ut_control.Kvp.Fyaml.{Fyaml}
use ut_control.Kvp.Instance.{
  success, parsing_error, Instance, kvp_magic, ut_kvp_close, ut_kvp_close_lem,
  validate_instance-valid,
}
use ut_control.Kvp.Include.{max_include_depth, process_node_copy}
use ut_control.Kvp.Include.Tree.{Tree, World, merged, expansion}
use ut_control.Kvp.Include.Expand.{TreeView, shown}
use ut_control.Kvp.Include.Expand.Merge.{merge_nodes-merged}
use ut_control.Kvp.Include.Expand.Finite.{process_node_copy-expansion}
use ut_control.Kvp.Open.{
  done, Opened, close_and_fail, joined, join_copy, open_into, open_root, open_resolved, open_built,
  ut_kvp_open,
}

-- What is documented of libfyaml's documents: a new one has no root, and the root that is set, or
-- changed in place, is the root that is read.
pub record DocumentLaws (Y : Fyaml) : Type 0 where
  pub created : (doc : Y.Document) × (Y.create ≡ some doc) × (Y.root (some doc) ≡ none)
  pub root_of_set : (doc : Y.Document) (n : Y.Node) → Y.root (some (Y.set_root doc n)) ≡ some n
  pub root_of_changed :
      (doc : Y.Document) (n : Y.Node) → Y.root (some (Y.with_changed_root doc n)) ≡ some n

-- A file that can be accessed and parsed, its root being `n`.
pub record Readable (Y : Fyaml) (name : Text) (n : Y.Node) : Type 0 where
  pub built : Y.Document
  pub doc : Y.Document
  pub accessed : Y.accessible name ≡ true
  pub parsed : Y.build_from_file name ≡ some built
  pub resolved : Y.resolve (some built) ≡ some (some doc)
  pub rooted : Y.root (some doc) ≡ some n

-- What a load makes of the tree that was there and the one that is loaded.
abbrev pub loaded : World → Option Tree → Tree → Tree
loaded w none u = u
loaded w (some t) u = merged w t u

-- The tree in an instance.
abbrev pub tree_in : {Y : Fyaml} {w : World} → TreeView Y w → Option Y.Document → Option Tree
tree_in view none = none
tree_in {Y} view (some doc) = shown view.tree (Y.root (some doc))

module _ (Y : Fyaml) (w : World) (view : TreeView Y w) (laws : DocumentLaws Y) where
  -- What a load leaves, where the document has this expansion, or none.
  abbrev pub Loads : Instance Y → Option Tree → Opened Y → Type 0
  Loads p none r = (p' : Instance Y) × (r ≡ done (parsing_error, some p')) × (p'.fy_handle ≡ none)
  Loads p (some u) r =
      (p' : Instance Y) × (r ≡ done (success, some p'))
      × (p'.magic ≡ kvp_magic)
      × (tree_in view p'.fy_handle ≡ some (loaded w (tree_in view p.fy_handle) u))

  -- The root that the copy becomes or is merged into.
  joined_lem :
      (doc : Y.Document) (copied : Y.Node)
      → tree_in view (some (joined Y doc (Y.root (some doc)) copied))
        ≡ some (loaded w (tree_in view (some doc)) (view.tree copied))
  unfolding joined
  joined_lem doc copied = elim (Option-cases (Y.root (some doc))) [
    | inl empty ↦ rw empty (rw (laws.root_of_set doc copied) refl)
    | inr (m, rooted) ↦
        let (m', merges, shows) = merge_nodes-merged Y w view m copied (view.tree m) refl in
        rw rooted (rw (merges, joined) (rw (laws.root_of_changed doc m') (ap some shows)))
  ]

  join_copy-Loads :
      (p q : Instance Y) (doc : Y.Document) (n : Option Y.Node)
      → q.magic ≡ kvp_magic
      → tree_in view (some doc) ≡ tree_in view p.fy_handle
      → Loads p (shown view.tree n) (join_copy Y q doc (some n))
  unfolding join_copy close_and_fail
  join_copy-Loads p q doc none valid same =
      (ut_kvp_close Y q, refl, ap (λ (i : Instance Y). i.fy_handle) (ut_kvp_close_lem Y q valid))
  join_copy-Loads p q doc (some n) valid same = (
    record q { fy_handle = some (joined Y doc (Y.root (some doc)) n) },
    refl,
    valid,
    joined_lem doc n ∙ ap (λ (t : Option Tree). some (loaded w t (view.tree n))) same,
  )

  copied-Loads :
      (p q : Instance Y) (doc : Y.Document) (r : Option (Option Y.Node)) (n : Option Y.Node)
      (u : Option Tree)
      → q.magic ≡ kvp_magic
      → tree_in view (some doc) ≡ tree_in view p.fy_handle
      → r ≡ some n
      → shown view.tree n ≡ u
      → Loads p u (join_copy Y q doc r)
  copied-Loads p q doc r n u valid same returned shows =
      rw (returned, ← shows) (join_copy-Loads p q doc n valid same)

  -- By the document of the instance and a new one.
  abbrev into : ℕ → Instance Y → Y.Node → (handle created : Option Y.Document) → Opened Y
  into fuel p n handle created = elim handle [
    | some doc ↦ join_copy Y p doc (process_node_copy Y fuel true (some n) 0)
    | none ↦ elim created [
      | none ↦ close_and_fail Y p
      | some doc ↦
          join_copy Y (record p { fy_handle = some doc }) doc
            (process_node_copy Y fuel true (some n) 0)
    ]
  ]

  into_document :
      (fuel : ℕ) (p : Instance Y) (n : Y.Node) (doc : Y.Document)
      → p.fy_handle ≡ some doc
      → open_into Y fuel p n ≡ join_copy Y p doc (process_node_copy Y fuel true (some n) 0)
  unfolding open_into
  into_document fuel p n doc holds =
      ap (λ (handle : Option Y.Document). into fuel p n handle Y.create) holds

  into_new :
      (fuel : ℕ) (p : Instance Y) (n : Y.Node) (doc : Y.Document)
      → p.fy_handle ≡ none
      → Y.create ≡ some doc
      → open_into Y fuel p n
        ≡ join_copy Y
            (record p { fy_handle = some doc })
            doc
            (process_node_copy Y fuel true (some n) 0)
  unfolding open_into
  into_new fuel p n doc empty creates =
      ap (λ (handle : Option Y.Document). into fuel p n handle Y.create) empty
      ∙ ap (into fuel p n none) creates

  -- The two cases of the instance.
  into_same :
      (p : Instance Y) (n : Y.Node)
      → p.magic ≡ kvp_magic
      → (q : Instance Y) × (doc : Y.Document) × (q.magic ≡ kvp_magic)
        × (tree_in view (some doc) ≡ tree_in view p.fy_handle)
        × ((fuel : ℕ)
            → open_into Y fuel p n ≡ join_copy Y q doc (process_node_copy Y fuel true (some n) 0))
  into_same p n valid = elim (Option-cases (p.fy_handle)) [
    | inl empty ↦
        let (doc, creates, bare) = laws.created in
        (
          record p { fy_handle = some doc },
          doc,
          valid,
          rw (bare, empty) refl,
          λ fuel. into_new fuel p n doc empty creates,
        )
    | inr (doc, holds) ↦ (p, doc, valid, rw holds refl, λ fuel. into_document fuel p n doc holds)
  ]

  -- With fuel enough, for a node that the document of the instance takes.
  open_into-Loads :
      (p : Instance Y) (n : Y.Node)
      → p.magic ≡ kvp_magic
      → (enough : ℕ) × ((fuel : ℕ)
          → enough ≤ fuel
          → Loads p (expansion w max_include_depth (view.tree n)) (open_into Y fuel p n))
  open_into-Loads p n valid =
      let (enough, r, returns, shows) = process_node_copy-expansion Y w view n 0 (omega arith) in
      let (q, doc, valid', same, runs) = into_same p n valid in
      (
        enough,
        λ fuel h. rw (runs fuel) (
            copied-Loads p q doc (process_node_copy Y fuel true (some n) 0) r _ valid' same
              (returns fuel h) shows),
      )

  -- Take a valid instance, with a document or none, and a file that can be accessed and parsed and
  -- has a root. With fuel enough, `ut_kvp_open` leaves the expansion of the file's tree in the
  -- instance: as its tree, where the instance had none, and merged into the tree that was there
  -- otherwise. Where the tree has no expansion the call returns UT_KVP_STATUS_PARSING_ERROR and
  -- leaves the instance without a document.
  pub ut_kvp_open-Loads :
      (p : Instance Y) (name : Text) (n : Y.Node)
      → p.magic ≡ kvp_magic
      → Readable Y name n
      → (enough : ℕ) × ((fuel : ℕ)
          → enough ≤ fuel
          → Loads p
              (expansion w max_include_depth (view.tree n))
              (ut_kvp_open Y fuel (some p) (some name)))
  unfolding ut_kvp_open open_built open_resolved open_root
  ut_kvp_open-Loads p name n valid file =
      let (enough, loads) = open_into-Loads p n valid in
      (
        enough,
        λ fuel h.
            rw (file.accessed, file.parsed, open_built)
              (rw (file.resolved, open_resolved)
                (rw file.rooted
                  (rw (validate_instance-valid Y p valid, open_root) (loads fuel h)))),
      )
