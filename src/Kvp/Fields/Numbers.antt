-- ===== src/Kvp/Fields/Numbers.antt =====
-- src/ut_kvp.c: what the getters for unsigned integers return.
use ut_control.Base.{
  ℕ, suc, ◌-◌, ◌≤◌, ◌<◌, ◌%◌, ◌^◌, ◌≡◌, refl, ap, false, Option, none, some, List, [], ◌∷◌, map,
  arith, leb, if◌then◌else◌, ◌>>=◌, length, All, Bool-cases, inl, inr,
}
use native.Mathlib.Nat.{mod-eq_of_lt}
use ut_control.Kvp.Key.{max_element_size}
use ut_control.CString.{Text, strstr_found-below}
use ut_control.CString.Number.{ulong_max, digits_value, digit_char, finish}
use ut_control.CString.Spelled.{
  hex_text, strtoul-decimal, strtoul-hex, decimal_below, strstr_found-0x,
}
use ut_control.Kvp.Fyaml.{Fyaml}
use ut_control.Kvp.Instance.{Status, success, Instance}
use ut_control.Kvp.Fields.{
  is_success, checked, convert_field, get_uint_field, ut_kvp_get_field, ut_kvp_get_uint8_field,
  ut_kvp_get_uint16_field, ut_kvp_get_uint32_field, ut_kvp_get_uint64_field,
}

-- A value that passes the limit reads as 0.
abbrev pub within : ℕ → ℕ → ℕ
within max_range v = if leb v max_range then v else 0

convert_field-within :
    (r : Text) (max_range : ℕ)
    → max_range ≤ ulong_max
    → convert_field r max_range ≡ within max_range (convert_field r ulong_max)
unfolding convert_field
convert_field-within r max_range h = ground arith

within-bind :
    (max_range : ℕ) (o : Option (Status × Text))
    → max_range ≤ ulong_max
    → (o >>= λ x. if is_success x.0 then some (convert_field x.1 max_range) else some 0) ≡ (
        (o >>= λ x. if is_success x.0 then some (convert_field x.1 ulong_max) else some 0) >>= λ v.
        some (within max_range v))
within-bind max_range none h = refl
within-bind max_range (some (success, r)) h = ap some (convert_field-within r max_range h)
within-bind max_range (some (_, r)) h = ground arith

within-mod : (w v : ℕ) → 0 < w → within (w - 1) v % w ≡ within (w - 1) v
within-mod w v h = elim (Bool-cases (leb v (w - 1))) [
  | inl fits ↦ rw fits (mod-eq_of_lt (ground arith))
  | inr large ↦ rw large (mod-eq_of_lt h)
]

cast-within :
    (w : ℕ) (o : Option ℕ)
    → 0 < w
    → ((o >>= λ v. some (within (w - 1) v)) >>= λ v. some (v % w))
      ≡ (o >>= λ v. some (within (w - 1) v))
cast-within w none h = refl
cast-within w (some v) h = ap some (within-mod w v h)

module _ {Y : Fyaml} (handle : Option (Instance Y)) (key : Option Text) where
  get_uint_field-within :
      (max_range : ℕ)
      → max_range ≤ ulong_max
      → get_uint_field Y handle key max_range
        ≡ (ut_kvp_get_uint64_field Y handle key >>= λ v. some (within max_range v))
  unfolding get_uint_field ut_kvp_get_uint64_field
  get_uint_field-within max_range h =
      within-bind max_range (ut_kvp_get_field Y handle key (some max_element_size)) h

  -- The narrow getters return what the 64-bit getter returns where that fits their type, and 0
  -- where it does not: the cast to the narrow type never cuts a value.
  pub narrow_fields :
      (ut_kvp_get_uint8_field Y handle key
        ≡ (ut_kvp_get_uint64_field Y handle key >>= λ v. some (within (2 ^ 8 - 1) v)))
      × (ut_kvp_get_uint16_field Y handle key
          ≡ (ut_kvp_get_uint64_field Y handle key >>= λ v. some (within (2 ^ 16 - 1) v)))
      × (ut_kvp_get_uint32_field Y handle key
          ≡ (ut_kvp_get_uint64_field Y handle key >>= λ v. some (within (2 ^ 32 - 1) v)))
  unfolding ut_kvp_get_uint8_field ut_kvp_get_uint16_field ut_kvp_get_uint32_field
  narrow_fields =
      let wide = ut_kvp_get_uint64_field Y handle key in
      (
        rw (get_uint_field-within (2 ^ 8 - 1) (omega arith))
            (cast-within (2 ^ 8) wide (omega arith)),
        rw (get_uint_field-within (2 ^ 16 - 1) (omega arith))
            (cast-within (2 ^ 16) wide (omega arith)),
        rw (get_uint_field-within (2 ^ 32 - 1) (omega arith))
            (cast-within (2 ^ 32) wide (omega arith)),
      )

checked-finish :
    (v n max_range : ℕ)
    → max_range ≤ ulong_max
    → checked (finish false (v, [])) (suc n) max_range ≡ within max_range v
unfolding checked finish
checked-finish v n max_range h = ground arith

module _ (d : ℕ) (ds : List ℕ) where
  -- The decimal digits of a number read as that number, or as 0 past the limit.
  pub convert-decimal :
      (max_range : ℕ)
      → All (λ x. x < 10) (d ∷ ds)
      → max_range ≤ ulong_max
      → convert_field (map digit_char (d ∷ ds)) max_range
        ≡ within max_range (digits_value 10 0 (d ∷ ds))
  unfolding convert_field
  convert-decimal max_range h m =
      rw
        (
          strstr_found-below (map digit_char (d ∷ ds)) b'0' b'x' [] (decimal_below d ds h),
          strtoul-decimal d ds h,
        )
        (checked-finish (digits_value 10 0 (d ∷ ds)) (length (map digit_char ds)) max_range m)

  -- `0x` and the hexadecimal digits of a number read as that number, or as 0 past the limit.
  pub convert-hex :
      (max_range : ℕ)
      → All (λ x. x < 16) (d ∷ ds)
      → max_range ≤ ulong_max
      → convert_field (hex_text d ds) max_range ≡ within max_range (digits_value 16 0 (d ∷ ds))
  unfolding convert_field
  convert-hex max_range h m =
      rw (strstr_found-0x (map digit_char (d ∷ ds)), strtoul-hex d ds h)
        (checked-finish (digits_value 16 0 (d ∷ ds)) (suc (length (map digit_char (d ∷ ds))))
          max_range m)
