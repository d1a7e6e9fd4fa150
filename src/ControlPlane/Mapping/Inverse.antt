-- ===== src/ControlPlane/Mapping/Inverse.antt =====
-- src/ut_control_plane.c: UT_Control_GetMapValue behind UT_Control_GetMapString.
use ut_control.Base.{
  ℕ, ◌≡◌, subst, ap, sym, true, false, some, List, [], ◌∷◌, All, arith, Bool-cases, inl, inr,
}
use ut_control.Base.Int.{ℤ, pos, negsuc, eq_ℤ, to_uint32}
use ut_control.CString.{strcmp_eq, strcmp_eq_refl}
use ut_control.ControlPlane.Mapping.{
  KeyStringMapping, map_value_loop, map_string_loop, get_map_value, get_map_string,
}

-- Every string is another one than the strings of the entries in front of it.
abbrev pub IsInjective : List KeyStringMapping → Type 0
IsInjective [] = Unit
IsInjective (entry ∷ entries) =
    All (λ (later : KeyStringMapping). strcmp_eq later.string entry.string ≡ false) entries
    × IsInjective entries

eq_ℤ_sound : (x y : ℤ) → eq_ℤ x y ≡ true → x ≡ y
eq_ℤ_sound (pos m) (pos n) h = ground arith
eq_ℤ_sound (negsuc m) (negsuc n) h = ground arith
eq_ℤ_sound (pos m) (negsuc n) h = absurd (cc)
eq_ℤ_sound (negsuc m) (pos n) h = absurd (cc)

-- What holds of every string of the table holds of the one that is found.
found_string :
    (P : List ℕ → Type 0) (entries : List KeyStringMapping) (key : ℤ) (s : List ℕ)
    → All (λ entry. P entry.string) entries
    → map_string_loop entries key ≡ some s
    → P s
unfolding map_string_loop
found_string P [] key s all h = absurd (cc)
found_string P (entry ∷ entries) key s all h = elim (Bool-cases (eq_ℤ key entry.value)) [
  | inl here ↦ subst P (cc (rw here at h)) all.0
  | inr later ↦ found_string P entries key s all.1 (rw later at h)
]

loops :
    (entries : List KeyStringMapping) (key : ℤ) (s : List ℕ) (default_value : ℤ)
    → IsInjective entries
    → map_string_loop entries key ≡ some s
    → map_value_loop entries s default_value ≡ key
unfolding map_string_loop map_value_loop
loops [] key s d inj h = absurd (cc)
loops (entry ∷ entries) key s d inj h = elim (Bool-cases (eq_ℤ key entry.value)) [
  | inl here ↦
      let e : entry.string ≡ s = cc (rw here at h) in
      rw (← e) (rw (strcmp_eq_refl entry.string) (sym (eq_ℤ_sound key entry.value here)))
  | inr later ↦
      let found : map_string_loop entries key ≡ some s = rw later at h in
      let other : strcmp_eq s entry.string ≡ false =
        found_string (λ (x : List ℕ). strcmp_eq x entry.string ≡ false) entries key s inj.0 found in
      rw other (loops entries key s d inj.1 found)
]

-- Where no two entries of a table have the same string, the value of the string that the table has
-- for a key is that key, as `uint32_t`.
pub get_map_value-get_map_string :
    (conversion_map : List KeyStringMapping) (key : ℤ) (s : List ℕ) (default_value : ℤ)
    → IsInjective conversion_map
    → get_map_string (some conversion_map) key ≡ some s
    → get_map_value (some conversion_map) (some s) default_value ≡ to_uint32 key
unfolding get_map_value get_map_string
get_map_value-get_map_string conversion_map key s d inj h =
    ap to_uint32 (loops conversion_map key s d inj h)
