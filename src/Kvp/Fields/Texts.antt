-- ===== src/Kvp/Fields/Texts.antt =====
-- src/ut_kvp.c: the getters over a document that holds a text at the key.
use ut_control.Base.{
  ℕ, suc, ◌-◌, ◌*◌, ◌≤◌, ◌<◌, ◌^◌, ◌≡◌, ap, ◌∙◌, true, ◌↔◌, some, List, [], ◌∷◌, ◌++◌, map, arith,
  lt→ltb, length, All, take_all, length-append, length-map,
}
use ut_control.Base.Int.{pos}
use ut_control.CString.{
  Text, IsText, strcmp_eq, strcmp_eq_sound, strcmp_eq_refl, strcasecmp_eq, to_lower,
}
use ut_control.CString.Number.{digits_value, digit_char, ulong_max}
use ut_control.Kvp.Key.{max_element_size, dot_to_slash, zkey_lem}
use ut_control.Kvp.Fyaml.{Fyaml}
use ut_control.Kvp.Instance.{success, Instance, kvp_magic, validate_instance-valid}
use ut_control.Kvp.Fields.Numbers.{within, narrow_fields, convert-decimal, convert-hex}
use ut_control.CString.Spelled.{hex_text}
use ut_control.Kvp.Fields.{
  scan_entry, ut_kvp_get_field, ut_kvp_get_uint8_field, ut_kvp_get_uint16_field, get_uint_field,
  convert_field, ut_kvp_get_uint32_field, ut_kvp_get_uint64_field, ut_kvp_get_bool_field,
}

-- A document is open in a valid instance, the key fits its array, and scanning at the key's path
-- stores `text`, which fits the getters' array.
pub record Holds (Y : Fyaml) (p : Instance Y) (k text : Text) : Type 0 where
  pub doc : Y.Document
  pub valid : p.magic ≡ kvp_magic
  pub opened : p.fy_handle ≡ some doc
  pub key_text : IsText k
  pub key_fits : length k < max_element_size
  pub conversions : ℕ
  pub scan :
      Y.scanf doc (map dot_to_slash k ++ b' ' ∷ b'%' ∷ b's' ∷ []) ≡ (pos (suc conversions), text)
  pub text_fits : length text < max_element_size

scan_entry_lem :
    (k : Text)
    → length k < max_element_size
    → scan_entry (map dot_to_slash k) ≡ map dot_to_slash k ++ b' ' ∷ b'%' ∷ b's' ∷ []
scan_entry_lem k h =
    take_all (max_element_size * 2 - 1) (map dot_to_slash k ++ b' ' ∷ b'%' ∷ b's' ∷ []) (
      omega (
        arith,
        length-append (map dot_to_slash k) (b' ' ∷ b'%' ∷ b's' ∷ []),
        length-map k dot_to_slash,
      ))

within_twice : (m v : ℕ) → m ≤ ulong_max → within m (within ulong_max v) ≡ within m v
within_twice m v h = ground arith

-- The four getters for unsigned integers at a key whose text stands for `v`.
abbrev pub AllRead : (Y : Fyaml) → Instance Y → Text → ℕ → Type 0
AllRead Y p k v =
    (ut_kvp_get_uint8_field Y (some p) (some k) ≡ some (within (2 ^ 8 - 1) v))
    × (ut_kvp_get_uint16_field Y (some p) (some k) ≡ some (within (2 ^ 16 - 1) v))
    × (ut_kvp_get_uint32_field Y (some p) (some k) ≡ some (within (2 ^ 32 - 1) v))
    × (ut_kvp_get_uint64_field Y (some p) (some k) ≡ some (within ulong_max v))

module _ {Y : Fyaml} {p : Instance Y} {k text : Text} (h : Holds Y p k text) where
  -- The field's text is returned, with the dots of the key read as slashes.
  pub get_field-Holds :
      ut_kvp_get_field Y (some p) (some k) (some max_element_size) ≡ some (success, text)
  unfolding ut_kvp_get_field
  get_field-Holds =
      rw (validate_instance-valid Y p h.valid, ut_kvp_get_field)
        (rw (h.opened, zkey_lem k h.key_text h.key_fits)
          (rw (scan_entry_lem k h.key_fits, h.scan)
            (rw (lt→ltb (length text) max_element_size h.text_fits))))

  get_uint64-Holds :
      ut_kvp_get_uint64_field Y (some p) (some k) ≡ some (convert_field text ulong_max)
  unfolding ut_kvp_get_uint64_field get_uint_field
  get_uint64-Holds = rw get_field-Holds

  all_read : (v : ℕ) → convert_field text ulong_max ≡ within ulong_max v → AllRead Y p k v
  all_read v e =
      let (n8, n16, n32) = narrow_fields (some p) (some k) in
      let wide = get_uint64-Holds ∙ ap some e in
      (
        n8 ∙ rw wide (ap some (within_twice (2 ^ 8 - 1) v (omega arith))),
        n16 ∙ rw wide (ap some (within_twice (2 ^ 16 - 1) v (omega arith))),
        n32 ∙ rw wide (ap some (within_twice (2 ^ 32 - 1) v (omega arith))),
        wide,
      )

  -- Where a document holds a text at the key, the field is true exactly where the text is `true`,
  -- in any mixture of cases.
  pub bool_field :
      (ut_kvp_get_bool_field Y (some p) (some k) ≡ some true)
      ↔ (map to_lower text ≡ b't' ∷ b'r' ∷ b'u' ∷ b'e' ∷ [])
  unfolding ut_kvp_get_bool_field strcasecmp_eq
  bool_field = (
    (λ e. strcmp_eq_sound (map to_lower text) _ (cc (bool_read))),
    (λ e. bool_read ∙ ap some (rw e (strcmp_eq_refl (b't' ∷ b'r' ∷ b'u' ∷ b'e' ∷ [])))),
  )
    where
      bool_read :
          ut_kvp_get_bool_field Y (some p) (some k)
          ≡ some (strcmp_eq (map to_lower text) (b't' ∷ b'r' ∷ b'u' ∷ b'e' ∷ []))
      bool_read = rw get_field-Holds

-- A number as it is written, in decimal or, behind `0x`, in hexadecimal.
pub data Radix : Type 0 where
  base10 base16 : Radix

abbrev pub base_of : Radix → ℕ
base_of base10 = 10
base_of base16 = 16

abbrev pub number_text : Radix → ℕ → List ℕ → Text
number_text base10 d ds = map digit_char (d ∷ ds)
number_text base16 d ds = hex_text d ds

-- A field that holds a number in decimal or, behind `0x`, in hexadecimal, leading zeros allowed,
-- reads as the number in each getter whose type has room for it, and as 0 in the others.
pub number_field :
    {Y : Fyaml} {p : Instance Y} {k : Text} (radix : Radix) (d : ℕ) (ds : List ℕ)
    → All (λ x. x < base_of radix) (d ∷ ds)
    → Holds Y p k (number_text radix d ds)
    → AllRead Y p k (digits_value (base_of radix) 0 (d ∷ ds))
number_field base10 d ds each h =
    all_read h (digits_value 10 0 (d ∷ ds)) (convert-decimal d ds ulong_max each (omega arith))
number_field base16 d ds each h =
    all_read h (digits_value 16 0 (d ∷ ds)) (convert-hex d ds ulong_max each (omega arith))
