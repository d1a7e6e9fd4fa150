-- ===== src/Kvp/Open/Memory.antt =====
-- src/ut_kvp.c: the tree that `ut_kvp_openMemory` leaves in an instance.
use ut_control.Base.{
  ℕ, ◌+◌, ◌≤◌, ◌≡◌, refl, ap, ◌∙◌, true, Option, none, some, List, Option-cases, inl, inr, arith,
  length,
}
use ut_control.CString.{Text}
use ut_control.CString.Buffer.{read_string}
use ut_control.Kvp.Fyaml.{Fyaml}
use ut_control.Kvp.Instance.{
  success, parsing_error, Instance, kvp_magic, ut_kvp_close, ut_kvp_close_lem,
  validate_instance-valid,
}
use ut_control.Kvp.Include.{max_include_depth, process_node_copy}
use ut_control.Kvp.Include.Tree.{Tree, World, expansion}
use ut_control.Kvp.Include.Expand.{TreeView, shown}
use ut_control.Kvp.Include.Expand.Finite.{process_node_copy-expansion}
use ut_control.Kvp.Open.{
  done, Opened, close_and_fail, set_copy, merged_document, memory_into, memory_resolved,
  memory_string, ut_kvp_open_memory,
}
use ut_control.Kvp.Open.Loads.{DocumentLaws, tree_in}

-- A string that memory can be found for and that parses, its root being `n`.
pub record Parses (Y : Fyaml) (s : Text) (size : ℕ) (n : Y.Node) : Type 0 where
  pub doc : Y.Document
  pub allocated : Y.malloc_ok (length s + 1) ≡ true
  pub resolved : Y.resolve (Y.build_from_string s size) ≡ some (some doc)
  pub rooted : Y.root (some doc) ≡ some n

module _ (Y : Fyaml) (w : World) (view : TreeView Y w) (laws : DocumentLaws Y) where
  -- A call leaves the tree, where there is one, and otherwise an instance without a document.
  abbrev pub Leaves : Option Tree → Opened Y → Type 0
  Leaves none r = (p' : Instance Y) × (r ≡ done (parsing_error, some p')) × (p'.fy_handle ≡ none)
  Leaves (some u) r =
      (p' : Instance Y) × (r ≡ done (success, some p'))
      × (p'.magic ≡ kvp_magic)
      × (tree_in view p'.fy_handle ≡ some u)

  set_copy-Leaves :
      (q : Instance Y) (doc : Y.Document) (n : Option Y.Node)
      → q.magic ≡ kvp_magic
      → Leaves (shown view.tree n) (set_copy Y q doc (some n))
  unfolding set_copy close_and_fail
  set_copy-Leaves q doc none valid =
      (ut_kvp_close Y q, refl, ap (λ (i : Instance Y). i.fy_handle) (ut_kvp_close_lem Y q valid))
  set_copy-Leaves q doc (some n) valid = (
    record q { fy_handle = some (Y.set_root doc n) },
    refl,
    valid,
    ap (shown view.tree) (laws.root_of_set doc n),
  )

  -- By the document of the instance and a new one.
  abbrev into : ℕ → Instance Y → Option Y.Document → (handle created : Option Y.Document) → Opened Y
  into fuel p src handle created = elim handle [
    | some doc ↦
        set_copy Y (record p { fy_handle = some (merged_document Y doc (Y.root src)) })
          (merged_document Y doc (Y.root src)) (process_node_copy Y fuel true (Y.root src) 0)
    | none ↦ elim created [
      | none ↦ close_and_fail Y p
      | some doc ↦
          set_copy Y (record p { fy_handle = some doc }) doc
            (process_node_copy Y fuel true (Y.root src) 0)
    ]
  ]

  -- The instance and the document that the copy goes to.
  into_prepared :
      (p : Instance Y) (src : Option Y.Document)
      → p.magic ≡ kvp_magic
      → (q : Instance Y) × (doc : Y.Document) × (q.magic ≡ kvp_magic)
        × ((fuel : ℕ)
            → memory_into Y fuel p src
              ≡ set_copy Y q doc (process_node_copy Y fuel true (Y.root src) 0))
  unfolding memory_into
  into_prepared p src valid = elim (Option-cases (p.fy_handle)) [
    | inl empty ↦
        let (doc, creates, bare) = laws.created in
        (
          record p { fy_handle = some doc },
          doc,
          valid,
          λ fuel.
              ap (λ (handle : Option Y.Document). into fuel p src handle Y.create) empty
              ∙ ap (into fuel p src none) creates,
        )
    | inr (doc, holds) ↦
        let merged = merged_document Y doc (Y.root src) in
        (
          record p { fy_handle = some merged },
          merged,
          valid,
          λ fuel. ap (λ (handle : Option Y.Document). into fuel p src handle Y.create) holds,
        )
  ]

  -- Take a valid instance, with a document or none, and a C string that memory can be found for, that
  -- parses and has a root. With fuel enough, `ut_kvp_openMemory` leaves the expansion of the string's
  -- tree in the instance, whatever was there before. Where the tree has no expansion the call returns
  -- UT_KVP_STATUS_PARSING_ERROR and leaves the instance without a document.
  pub ut_kvp_open_memory-Leaves :
      (p : Instance Y) (data' : List ℕ) (s : Text) (size : ℕ) (n : Y.Node)
      → p.magic ≡ kvp_magic
      → read_string data' ≡ some s
      → Parses Y s size n
      → (enough : ℕ) × ((fuel : ℕ)
          → enough ≤ fuel
          → Leaves
              (expansion w max_include_depth (view.tree n))
              (ut_kvp_open_memory Y fuel (some p) (some data') size))
  unfolding ut_kvp_open_memory memory_string memory_resolved
  ut_kvp_open_memory-Leaves p data' s size n valid string parses =
      let (enough, r, returns, shows) = process_node_copy-expansion Y w view n 0 (omega arith) in
      let (q, doc, valid', runs) = into_prepared p (some parses.doc) valid in
      (
        enough,
        λ fuel h.
            rw (string, parses.allocated, memory_string)
              (rw (parses.resolved, memory_resolved)
                (rw (validate_instance-valid Y p valid, memory_resolved)
                  (rw (runs fuel, parses.rooted, returns fuel h, ← shows)
                    (set_copy-Leaves q doc r valid')))),
      )
