-- ===== src/Kvp/Fields.antt =====
-- src/ut_kvp.c: the typed getters.
pub mod Numbers
pub mod Texts
use ut_control.Base.{
  ℕ, zero, suc, ◌+◌, ◌-◌, ◌*◌, ◌≤◌, ◌<◌, ◌%◌, ◌^◌, ◌≡◌, refl, ap, Bool, true, false, ◌||◌, not,
  Option, none, some, List, [], ◌∷◌, ◌++◌, map, arith, ltb, leb, ◌==◌, if◌then◌else◌, ◌>>=◌, length,
  take, drop,
}
use ut_control.Base.Int.{ℤ, pos, negsuc, is_positive, to_uint32}
use ut_control.CString.{Text, strstr_found, strcasecmp_eq}
use ut_control.CString.Buffer.{strncpy}
use ut_control.CString.Number.{Conversion, strtoul, ulong_max}
use ut_control.Kvp.Key.{max_element_size, zkey}
use ut_control.Kvp.Fyaml.{Fyaml}
use ut_control.Kvp.Instance.{
  Status, success, invalid_param, parsing_error, key_not_found, no_data, null_param,
  invalid_instance, Instance, validate_instance,
}

-- snprintf(zEntry, sizeof(zEntry), "%s %s", zKey, "%s")
abbrev scan_entry : Text → Text
scan_entry z = take (max_element_size * 2 - 1) (z ++ b' ' ∷ b'%' ∷ b's' ∷ [])

abbrev pub is_success : Status → Bool
is_success success = true
is_success _ = false

-- The checks on a conversion of `n` characters: none was read, some are left over, out of range.
unfoldable pub checked : Conversion → ℕ → ℕ → ℕ
checked c n max_range =
    if length c.rest == n
    then 0
    else if not (length c.rest == 0)
    then 0
    else if c.erange || ltb max_range c.value
    then 0
    else c.value

-- Both getters for unsigned integers read their text this way.
unfoldable pub convert_field : Text → ℕ → ℕ
unfolding checked
convert_field r max_range =
    checked (strtoul r (if strstr_found r (b'0' ∷ b'x' ∷ []) then 16 else 10)) (length r) max_range

str_to_bool : Text → Bool
str_to_bool s = strcasecmp_eq s (b't' ∷ b'r' ∷ b'u' ∷ b'e' ∷ [])

module _ (Y : Fyaml) where
  -- What fy_document_scanf stores goes to an array of `capacity` bytes, with its NUL.
  scanned : ℕ → ℤ × Text → Option (Status × Text)
  scanned capacity (result, stored) =
      if is_positive result
      then (if ltb (length stored) capacity then some (success, stored) else none)
      else some (parsing_error, [])

  -- The status, and the string in `pzResult`, an array of which the size is given (or NULL).
  unfoldable pub ut_kvp_get_field :
      Option (Instance Y) → Option Text → Option ℕ → Option (Status × Text)
  unfolding scanned
  ut_kvp_get_field handle key result = elim (validate_instance Y handle) [
    | none ↦ some (invalid_instance, [])
    | some p ↦ elim key [
      | none ↦ some (invalid_param, [])
      | some k ↦ elim result [
        | none ↦ some (invalid_param, [])
        | some capacity ↦ elim (p.fy_handle) [
          | none ↦ some (no_data, [])
          | some doc ↦ zkey k >>= λ z. scanned capacity (Y.scanf doc (scan_entry z))
        ]
      ]
    ]
  ]

  -- `char result[UT_KVP_MAX_ELEMENT_SIZE]` of the getters.
  abbrev field_of : Option (Instance Y) → Option Text → Option (Status × Text)
  field_of handle key = ut_kvp_get_field handle key (some max_element_size)

  -- getUIntField, and the body of ut_kvp_getUInt64Field, where strtoull is strtoul.
  unfoldable pub get_uint_field : Option (Instance Y) → Option Text → ℕ → Option ℕ
  get_uint_field handle key max_range = do
    (status, r) ← field_of handle key
    if is_success status then some (convert_field r max_range) else some 0

  unfoldable pub ut_kvp_get_uint8_field : Option (Instance Y) → Option Text → Option ℕ
  ut_kvp_get_uint8_field handle key = do
    value ← get_uint_field handle key (2 ^ 8 - 1)
    some (value % 2 ^ 8)

  unfoldable pub ut_kvp_get_uint16_field : Option (Instance Y) → Option Text → Option ℕ
  ut_kvp_get_uint16_field handle key = do
    value ← get_uint_field handle key (2 ^ 16 - 1)
    some (value % 2 ^ 16)

  unfoldable pub ut_kvp_get_uint32_field : Option (Instance Y) → Option Text → Option ℕ
  ut_kvp_get_uint32_field handle key = do
    value ← get_uint_field handle key (2 ^ 32 - 1)
    some (value % 2 ^ 32)

  unfoldable pub ut_kvp_get_uint64_field : Option (Instance Y) → Option Text → Option ℕ
  ut_kvp_get_uint64_field handle key = get_uint_field handle key (2 ^ 64 - 1)

  unfoldable pub ut_kvp_get_bool_field : Option (Instance Y) → Option Text → Option Bool
  unfolding str_to_bool
  ut_kvp_get_bool_field handle key = do
    (status, r) ← field_of handle key
    if is_success status then some (str_to_bool r) else some false

  -- Floating point is a parameter: a type with its zero, and strtof or strtod with the text that
  -- `*endPtr` begins.
  module _ (F : Type 0) (zero_value : F) (strtof : Text → F × Text) where
    converted : F × Text → F
    converted (value, rest) = if length rest == 0 then value else zero_value

    -- ut_kvp_getFloatField, and ut_kvp_getDoubleField with strtod
    unfoldable pub ut_kvp_get_float_field : Option (Instance Y) → Option Text → Option F
    unfolding converted
    ut_kvp_get_float_field handle key = do
      (status, r) ← field_of handle key
      if is_success status then some (converted (strtof r)) else some zero_value
