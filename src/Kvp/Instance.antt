-- ===== src/Kvp/Instance.antt =====
-- src/ut_kvp.c: the life of an instance, with `validateInstance`.
use ut_control.Base.{ℕ, ◌≡◌, ◌≢◌, ==_iff, Bool, Option, none, some, arith, ◌==◌, if◌then◌else◌}
use ut_control.CString.{Text}
use ut_control.Kvp.Fyaml.{Fyaml}

-- UT_KVP_MAGIC
abbrev pub kvp_magic : ℕ
kvp_magic = 0xdeadbeef

-- ut_kvp_status_t
pub data Status : Type 0 where
  success file_open_error invalid_param parsing_error key_not_found : Status
  no_data null_param invalid_instance max : Status

-- ut_kvp_instance_internal_t; a handle is `none` (NULL) or points to one.
pub record Instance (Y : Fyaml) : Type 0 where
  pub magic : ℕ
  pub fy_handle : Option Y.Document

module _ (Y : Fyaml) where
  -- `malloc_ok`: whether the block can be allocated.
  unfoldable pub ut_kvp_create_instance : (malloc_ok : Bool) → Option (Instance Y)
  ut_kvp_create_instance malloc_ok =
      if malloc_ok then some (record { magic = kvp_magic; fy_handle = none }) else none

  unfoldable pub validate_instance : Option (Instance Y) → Option (Instance Y)
  validate_instance none = none
  validate_instance (some p) = if p.magic == kvp_magic then some p else none

  -- The object behind the handle after the call.
  unfoldable pub ut_kvp_close : Instance Y → Instance Y
  unfolding validate_instance
  ut_kvp_close p = elim (validate_instance (some p)) [
    | none ↦ p
    | some q ↦ elim (q.fy_handle) [ none ↦ q | some d ↦ record q { fy_handle = none } ]
  ]

  -- What is left behind the handle: `none` where the block has been freed.
  unfoldable pub ut_kvp_destroy_instance : Instance Y → Option (Instance Y)
  unfolding validate_instance
  ut_kvp_destroy_instance p = elim (validate_instance (some p)) [ none ↦ some p | some q ↦ none ]

  unfoldable pub ut_kvp_get_data : Option (Instance Y) → Option Text
  unfolding validate_instance
  ut_kvp_get_data handle = elim (validate_instance handle) [
    | none ↦ none
    | some p ↦ elim (p.fy_handle) [ none ↦ none | some doc ↦ Y.emit doc ]
  ]

  pub validate_instance-valid :
      (p : Instance Y) → p.magic ≡ kvp_magic → validate_instance (some p) ≡ some p
  unfolding validate_instance
  validate_instance-valid p h = ground (arith, ==_iff p.magic kvp_magic)

  -- Closing a valid instance leaves it without a document and changes nothing else.
  pub ut_kvp_close_lem :
      (p : Instance Y) → p.magic ≡ kvp_magic → ut_kvp_close p ≡ record p { fy_handle = none }
  unfolding ut_kvp_close
  ut_kvp_close_lem p h = ground (arith, ==_iff p.magic kvp_magic)

  pub ut_kvp_close-bad : (p : Instance Y) → p.magic ≢ kvp_magic → ut_kvp_close p ≡ p
  unfolding ut_kvp_close
  ut_kvp_close-bad p h = ground (arith, ==_iff p.magic kvp_magic)

  pub validate_instance-bad :
      (p : Instance Y) → p.magic ≢ kvp_magic → validate_instance (some p) ≡ none
  unfolding validate_instance
  validate_instance-bad p h = ground (arith, ==_iff p.magic kvp_magic)
