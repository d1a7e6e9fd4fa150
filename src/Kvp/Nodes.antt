-- ===== src/Kvp/Nodes.antt =====
-- src/ut_kvp.c: the getters that look a node up by its path.
pub mod Strings
pub mod Counts
use ut_control.Base.{
  ℕ, zero, suc, ◌+◌, ◌-◌, ◌≤◌, ◌<◌, ◌^◌, ◌≡◌, refl, Bool, true, false, Option, none, some, List, [],
  ◌∷◌, ◌++◌, ltb, ◌==◌, if◌then◌else◌, ◌>>=◌, length,
}
use mathlib.Core.Option
use ut_control.Base.Int.{to_uint32}
use ut_control.CString.{Text}
use ut_control.CString.Buffer.{strncpy}
use ut_control.Kvp.Key.{write, zkey}
use ut_control.Kvp.Fyaml.{Fyaml}
use ut_control.Kvp.Instance.{
  Status, success, parsing_error, key_not_found, no_data, null_param, invalid_instance, Instance,
  validate_instance,
}

-- What the checks and calls from `fy_handle == NULL` to fy_node_by_path come to; the getters report
-- the four cases in their own ways.
pub data Located (Y : Fyaml) : Type 0 where
  no_data_file empty_document not_found : Located Y
  found : Y.Node → Located Y

module _ (Y : Fyaml) where
  unfoldable pub located : Option Y.Node → Located Y
  located none = not_found
  located (some node) = found node

  -- `none`: the key does not fit its array.
  unfoldable pub locate : Instance Y → Text → Option (Located Y)
  unfolding located
  locate p k = elim (p.fy_handle) [
    | none ↦ some no_data_file
    | some doc ↦ elim (Y.root (some doc)) [
      | none ↦ some empty_document
      | some root ↦ zkey k >>= λ z. some (located (Y.by_path root z))
    ]
  ]

  unfoldable pub is_found : Located Y → Bool
  is_found (found node) = true
  is_found _ = false

  unfoldable pub ut_kvp_field_present : Option (Instance Y) → Option Text → Option Bool
  unfolding is_found
  ut_kvp_field_present handle key = elim (validate_instance Y handle) [
    | none ↦ some false
    | some p ↦ elim key [ none ↦ some false | some k ↦ locate p k >>= λ l. some (is_found l) ]
  ]

  unfoldable pub copy_scalar : Option Text → List ℕ → ℕ → Option (Status × List ℕ)
  copy_scalar none buffer size = some (key_not_found, buffer)
  copy_scalar (some s) buffer size = strncpy buffer s size >>= λ b. some (success, b)

  unfoldable pub string_of : Located Y → List ℕ → ℕ → Option (Status × List ℕ)
  unfolding copy_scalar
  string_of no_data_file buffer size = some (no_data, buffer)
  string_of empty_document buffer size = some (parsing_error, buffer)
  string_of not_found buffer size = some (key_not_found, buffer)
  string_of (found node) buffer size =
      if Y.is_scalar node
      then copy_scalar (Y.get_scalar0 node) buffer size
      else some (parsing_error, buffer)

  -- The caller's array is NULL or the bytes that it has; the call returns them as it leaves them.
  unfoldable pub ut_kvp_get_string_field :
      Option (Instance Y) → Option Text → Option (List ℕ) → ℕ → Option (Status × List ℕ)
  unfolding string_of
  ut_kvp_get_string_field handle key returned size = elim (validate_instance Y handle) [
    | none ↦ some (invalid_instance, Option.get_or returned [])
    | some p ↦ elim key [
      | none ↦ some (null_param, Option.get_or returned [])
      | some k ↦ elim returned [
        | none ↦ some (null_param, [])
        | some buffer ↦ write buffer 0 0 >>= λ cleared. locate p k >>= λ l. string_of l cleared size
      ]
    ]
  ]

  count_of : Located Y → ℕ
  count_of (found node) =
      if Y.is_sequence node
      then (if to_uint32 (Y.item_count node) == 2 ^ 32 - 1
          then 0
          else to_uint32 (Y.item_count node))
      else 0
  count_of _ = 0

  unfoldable pub ut_kvp_get_list_count : Option (Instance Y) → Option Text → Option ℕ
  unfolding count_of
  ut_kvp_get_list_count handle key = elim (validate_instance Y handle) [
    | none ↦ some 0
    | some p ↦ elim key [ none ↦ some 0 | some k ↦ locate p k >>= λ l. some (count_of l) ]
  ]
