-- ===== src/Kvp/Open.antt =====
-- src/ut_kvp.c: `ut_kvp_open` and `ut_kvp_openMemory`, which load a document into an instance.
pub mod Results
pub mod Roots
pub mod Loads
pub mod Answers
pub mod Chains
pub mod Memory
use ut_control.Base.{
  ℕ, zero, suc, ◌+◌, Bool, true, false, Option, none, some, List, if◌then◌else◌, length,
}
use ut_control.CString.{Text}
use ut_control.CString.Buffer.{read_string}
use ut_control.Kvp.Fyaml.{Fyaml}
use ut_control.Kvp.Instance.{
  Status, success, file_open_error, invalid_param, parsing_error, invalid_instance, Instance,
  validate_instance, ut_kvp_close,
}
use ut_control.Kvp.Include.{merge_nodes, process_node_copy}

-- A call ends, or reads through NULL or past an array, or has not enough fuel to say.
pub data Outcome (A : Type 0) : Type 0 where
  out_of_fuel fault : Outcome A
  done : A → Outcome A

-- The status, and the object behind the handle after the call.
abbrev pub Opened : Fyaml → Type 0
Opened Y = Outcome (Status × Option (Instance Y))

module _ (Y : Fyaml) where
  refused : Status → Instance Y → Opened Y
  refused status p = done (status, some p)

  -- ut_kvp_close(pInstance); return UT_KVP_STATUS_PARSING_ERROR;
  pub close_and_fail : Instance Y → Opened Y
  close_and_fail p = done (parsing_error, some (ut_kvp_close Y p))

  -- The copy becomes the root of an empty document and is merged into the root of another.
  pub joined : Y.Document → Option Y.Node → Y.Node → Y.Document
  joined doc none copied = Y.set_root doc copied
  joined doc (some main_root) copied = elim (merge_nodes Y (some main_root) (some copied)) [
    | none ↦ doc
    | some merged ↦ Y.with_changed_root doc merged
  ]

  pub join_copy : Instance Y → Y.Document → Option (Option Y.Node) → Opened Y
  unfolding close_and_fail joined
  join_copy p doc none = out_of_fuel
  join_copy p doc (some none) = close_and_fail p
  join_copy p doc (some (some copied)) =
      done (success, some (record p { fy_handle = some (joined doc (Y.root (some doc)) copied) }))

  -- From `fy_handle == NULL` on; `p` is the object that `validateInstance` let through.
  unfoldable pub open_into : ℕ → Instance Y → Y.Node → Opened Y
  unfolding join_copy
  open_into fuel p new_root = elim (p.fy_handle) [
    | some doc ↦ join_copy p doc (process_node_copy Y fuel true (some new_root) 0)
    | none ↦ elim (Y.create) [
      | none ↦ close_and_fail p
      | some doc ↦
          join_copy (record p { fy_handle = some doc }) doc
            (process_node_copy Y fuel true (some new_root) 0)
    ]
  ]

  -- `fy_handle` is read through the result of `validateInstance`, which nothing has checked.
  open_root : ℕ → Instance Y → Option Y.Node → Opened Y
  unfolding open_into
  open_root fuel p none = close_and_fail p
  open_root fuel p (some new_root) = elim (validate_instance Y (some p)) [
    | none ↦ fault
    | some internal ↦ open_into fuel internal new_root
  ]

  open_resolved : ℕ → Instance Y → Option (Option Y.Document) → Opened Y
  unfolding open_root
  open_resolved fuel p none = close_and_fail p
  open_resolved fuel p (some doc) = open_root fuel p (Y.root doc)

  open_built : ℕ → Instance Y → Option Y.Document → Opened Y
  unfolding open_resolved
  open_built fuel p none = close_and_fail p
  open_built fuel p (some doc) = open_resolved fuel p (Y.resolve (some doc))

  unfoldable pub ut_kvp_open : ℕ → Option (Instance Y) → Option Text → Opened Y
  unfolding open_built refused
  ut_kvp_open fuel none file_name = done (invalid_instance, none)
  ut_kvp_open fuel (some p) none = refused invalid_param p
  ut_kvp_open fuel (some p) (some file_name) =
      if Y.accessible file_name
      then open_built fuel p (Y.build_from_file file_name)
      else refused file_open_error p

  -- The copy becomes the root of the document, whatever the root was.
  set_copy : Instance Y → Y.Document → Option (Option Y.Node) → Opened Y
  unfolding close_and_fail
  set_copy p doc none = out_of_fuel
  set_copy p doc (some none) = close_and_fail p
  set_copy p doc (some (some node)) =
      done (success, some (record p { fy_handle = some (Y.set_root doc node) }))

  -- merge_nodes(fy_document_root(fy_handle), fy_document_root(srcDoc))
  merged_document : Y.Document → Option Y.Node → Y.Document
  merged_document doc src_root = elim (merge_nodes Y (Y.root (some doc)) src_root) [
    | none ↦ doc
    | some merged ↦ Y.with_changed_root doc merged
  ]

  memory_into : ℕ → Instance Y → Option Y.Document → Opened Y
  unfolding set_copy merged_document
  memory_into fuel p src_doc = elim (p.fy_handle) [
    | some doc ↦
        let doc' = merged_document doc (Y.root src_doc) in
        set_copy (record p { fy_handle = some doc' }) doc'
          (process_node_copy Y fuel true (Y.root src_doc) 0)
    | none ↦ elim (Y.create) [
      | none ↦ close_and_fail p
      | some doc ↦
          set_copy (record p { fy_handle = some doc }) doc
            (process_node_copy Y fuel true (Y.root src_doc) 0)
    ]
  ]

  memory_resolved : ℕ → Instance Y → Option (Option Y.Document) → Opened Y
  unfolding memory_into
  memory_resolved fuel p none = close_and_fail p
  memory_resolved fuel p (some src_doc) = elim (validate_instance Y (some p)) [
    | none ↦ fault
    | some internal ↦ memory_into fuel internal src_doc
  ]

  memory_string : ℕ → Instance Y → Option Text → ℕ → Opened Y
  unfolding memory_resolved refused
  memory_string fuel p none size = fault
  memory_string fuel p (some s) size =
      if Y.malloc_ok (length s + 1)
      then memory_resolved fuel p (Y.resolve (Y.build_from_string s size))
      else refused parsing_error p

  -- `data'` is NULL or the bytes from `pData` on; `strdup` copies the string that begins there.
  unfoldable pub ut_kvp_open_memory : ℕ → Option (Instance Y) → Option (List ℕ) → ℕ → Opened Y
  unfolding memory_string
  ut_kvp_open_memory fuel none data' size = done (invalid_instance, none)
  ut_kvp_open_memory fuel (some p) none size = refused invalid_param p
  ut_kvp_open_memory fuel (some p) (some data') size = memory_string fuel p (read_string data') size
