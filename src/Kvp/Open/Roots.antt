-- ===== src/Kvp/Open/Roots.antt =====
-- src/ut_kvp.c: which document a load leaves, and loads through an invalid handle.
use ut_control.Base.{
  ℕ, ◌+◌, ◌≡◌, ◌≢◌, true, false, Option, some, ◌⊎◌, sym, ◌∙◌, subst, Bool-cases, refl, List, length,
  Option-cases, inl, inr,
}
use ut_control.CString.{Text}
use ut_control.CString.Buffer.{read_string}
use ut_control.Kvp.Fyaml.{Fyaml}
use ut_control.Kvp.Instance.{
  success, Instance, kvp_magic, validate_instance-valid, validate_instance-bad, file_open_error,
  parsing_error, ut_kvp_close-bad,
}
use ut_control.Kvp.Include.{process_node_copy}
use ut_control.Kvp.Open.{
  close_and_fail, open_built, fault, done, Opened, open_root, open_resolved, ut_kvp_open, set_copy,
  merged_document, memory_into, memory_resolved, ut_kvp_open_memory,
}

module _ (Y : Fyaml)
    (root_of : (doc : Y.Document) (node : Y.Node)
      → Y.root (some (Y.set_root doc node)) ≡ some node) where
  -- The instance that such a call leaves.
  abbrev Replaced : Opened Y → Y.Node → Type 0
  Replaced r node =
      (p' : Instance Y) × (r ≡ done (success, some p'))
      × (p'.magic ≡ kvp_magic)
      × (Y.root (p'.fy_handle) ≡ some node)

  set_copy-Replaced :
      (q : Instance Y) (doc : Y.Document) (r : Option (Option Y.Node)) (node : Y.Node)
      → q.magic ≡ kvp_magic
      → r ≡ some (some node)
      → Replaced (set_copy Y q doc r) node
  unfolding set_copy
  set_copy-Replaced q doc r node h e =
      (record q { fy_handle = some (Y.set_root doc node) }, rw e, h, root_of doc node)

  memory_into-Replaced :
      (fuel : ℕ) (q : Instance Y) (src : Option Y.Document) (node : Y.Node) (fresh : Y.Document)
      → q.magic ≡ kvp_magic
      → Y.create ≡ some fresh
      → process_node_copy Y fuel true (Y.root src) 0 ≡ some (some node)
      → Replaced (memory_into Y fuel q src) node
  unfolding memory_into
  memory_into-Replaced fuel q src node fresh h c e = elim (Option-cases q.fy_handle) [
    | inr (doc, f) ↦
        rw (f, memory_into)
          (set_copy-Replaced (record q { fy_handle = some (merged_document Y doc (Y.root src)) }) _
            _ node h e)
    | inl f ↦
        rw (f, c, memory_into)
          (set_copy-Replaced (record q { fy_handle = some fresh }) fresh _ node h e)
  ]

  -- Loading a C string that parses and is copied, into a valid instance that may hold any document
  -- or none, leaves a valid instance whose root is the processed copy of the string's root. The
  -- merge into the old root is lost. (The root that is set is taken to be the root that is read.)
  ut_kvp_open_memory-replaces_root :
      (p : Instance Y) (fuel : ℕ) (data' : List ℕ) (s : Text) (size : ℕ) (src : Option Y.Document)
      (node : Y.Node) (fresh : Y.Document)
      → p.magic ≡ kvp_magic
      → read_string data' ≡ some s
      → Y.malloc_ok (length s + 1) ≡ true
      → Y.create ≡ some fresh
      → Y.resolve (Y.build_from_string s size) ≡ some src
      → process_node_copy Y fuel true (Y.root src) 0 ≡ some (some node)
      → Replaced (ut_kvp_open_memory Y fuel (some p) (some data') size) node
  unfolding ut_kvp_open_memory
  ut_kvp_open_memory-replaces_root p fuel data' s size src node fresh valid string room c r e =
      rw (string) (
        rw (room, r)
          (rw (validate_instance-valid Y p valid, memory_resolved)
            (memory_into-Replaced fuel p src node fresh valid c e)))

module _ (Y : Fyaml) (p : Instance Y) (name : Text) where
  -- The file can be accessed and parsed, and has a root.
  abbrev pub HasRoot : Type 0
  HasRoot =
      (built : Y.Document) × (doc : Option Y.Document) × (root : Y.Node) × (Y.accessible name
        ≡ true)
      × (Y.build_from_file name ≡ some built)
      × (Y.resolve (some built) ≡ some doc)
      × (Y.root doc ≡ some root)

  -- A read through NULL for such a file; for any other the status that a valid handle would get, and
  -- the object as it was.
  abbrev pub Unchecked : Opened Y → Type 0
  Unchecked r =
      (HasRoot × (r ≡ fault))
      ⊎ (¬ HasRoot
          × (((Y.accessible name ≡ false) × (r ≡ done (file_open_error, some p)))
              ⊎ ((Y.accessible name ≡ true) × (r ≡ done (parsing_error, some p)))))

  module _ (bad : p.magic ≢ kvp_magic) (fuel : ℕ) where
    fails_as_before : close_and_fail Y p ≡ done (parsing_error, some p)
    unfolding close_and_fail
    fails_as_before = rw (ut_kvp_close-bad Y p bad) refl

    root-Unchecked :
        (built : Y.Document) (doc : Option Y.Document)
        → Y.accessible name ≡ true
        → Y.build_from_file name ≡ some built
        → Y.resolve (some built) ≡ some doc
        → Unchecked (open_root Y fuel p (Y.root doc))
    unfolding open_root
    root-Unchecked built doc found b r = elim (Option-cases (Y.root doc)) [
      | inl empty ↦ inr (
        (λ h. cc (empty, b, r, h.4, h.5, h.6)),
        inr (found, rw (empty, open_root) fails_as_before),
      )
      | inr (root, n) ↦ inl (
        (built, doc, root, found, b, r, n),
        rw (n, open_root) (rw (validate_instance-bad Y p bad, open_root) refl),
      )
    ]

    resolved-Unchecked :
        (built : Y.Document)
        → Y.accessible name ≡ true
        → Y.build_from_file name ≡ some built
        → Unchecked (open_resolved Y fuel p (Y.resolve (some built)))
    unfolding open_resolved
    resolved-Unchecked built found b = elim (Option-cases (Y.resolve (some built))) [
      | inl bad' ↦
          inr ((λ h. cc (b, bad', h.4, h.5)), inr (found, rw (bad', open_resolved) fails_as_before))
      | inr (doc, r) ↦ rw (r, open_resolved) (root-Unchecked built doc found b r)
    ]

    -- A handle whose magic number is wrong is never refused for it: where the file is there, parses
    -- and has a root, `fy_handle` is read through the NULL that `validateInstance` returned; where
    -- the file is not there the call returns UT_KVP_STATUS_FILE_OPEN_ERROR, and where it does not
    -- parse or has no root UT_KVP_STATUS_PARSING_ERROR, and the object is as before.
    pub ut_kvp_open-Unchecked : Unchecked (ut_kvp_open Y fuel (some p) (some name))
    unfolding ut_kvp_open open_built
    ut_kvp_open-Unchecked = elim (Bool-cases (Y.accessible name)) [
      | inr missing ↦ inr ((λ h. cc (h.3, missing)), inl (missing, rw missing refl))
      | inl found ↦
          let opens : ut_kvp_open Y fuel (some p) (some name)
              ≡ open_built Y fuel p (Y.build_from_file name) =
            rw found refl in
          elim (Option-cases (Y.build_from_file name)) [
            | inl none' ↦ inr (
              (λ h. cc (h.4, none')),
              inr (found, opens ∙ rw (none', open_built) fails_as_before),
            )
            | inr (built, b) ↦
                let parsed : ut_kvp_open Y fuel (some p) (some name)
                    ≡ open_resolved Y fuel p (Y.resolve (some built)) =
                  opens ∙ rw (b, open_built) refl in
                subst Unchecked (sym parsed) (resolved-Unchecked built found b)
          ]
    ]
