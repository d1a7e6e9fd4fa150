-- ===== src/ControlPlane/Mapping.antt =====
-- src/ut_control_plane.c: UT_Control_GetMapValue and UT_Control_GetMapString. A table is the list of
-- its entries in front of the one with string NULL.
pub mod Inverse
use ut_control.Base.{ℕ, Bool, Option, none, some, List, [], ◌∷◌, if◌then◌else◌}
use ut_control.Base.Int.{ℤ, eq_ℤ, to_uint32}
use ut_control.CString.{strcmp_eq}

-- ut_control_keyStringMapping_t
pub record KeyStringMapping : Type 0 where
  pub string : List ℕ
  pub value : ℤ

map_value_loop : List KeyStringMapping → List ℕ → ℤ → ℤ
map_value_loop [] search_string default_value = default_value
map_value_loop (entry ∷ entries) search_string default_value =
    let rest = map_value_loop entries search_string default_value in
    if strcmp_eq search_string entry.string then entry.value else rest

-- The `int32_t` that is returned is converted to `uint32_t`; `none` is NULL.
unfoldable pub get_map_value : Option (List KeyStringMapping) → Option (List ℕ) → ℤ → ℕ
unfolding map_value_loop
get_map_value none search_string default_value = to_uint32 default_value
get_map_value (some conversion_map) none default_value = to_uint32 default_value
get_map_value (some conversion_map) (some search_string) default_value =
    to_uint32 (map_value_loop conversion_map search_string default_value)

map_string_loop : List KeyStringMapping → ℤ → Option (List ℕ)
map_string_loop [] key = none
map_string_loop (entry ∷ entries) key =
    let rest = map_string_loop entries key in
    if eq_ℤ key entry.value then some entry.string else rest

unfoldable pub get_map_string : Option (List KeyStringMapping) → ℤ → Option (List ℕ)
unfolding map_string_loop
get_map_string none key = none
get_map_string (some conversion_map) key = map_string_loop conversion_map key
