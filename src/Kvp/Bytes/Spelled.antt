-- ===== src/Kvp/Bytes/Spelled.antt =====
-- src/ut_kvp.c: ut_kvp_getDataBytes over a list of bytes, each written out in decimal or, behind 0x,
-- in hexadecimal with lower-case digits.
use ut_control.Base.{
  ℕ, ◌≤◌, ◌<◌, ◌≡◌, ◌≢◌, refl, ap, ◌∙◌, Bool, true, false, some, List, [], ◌∷◌, map, length, arith,
  All, All-map, take, length-map,
}
use ut_control.Base.Int.{int_max}
use ut_control.CString.{Text, strncmp_eq}
use ut_control.CString.Number.{digits_value, digit_char, digit_char-gt}
use ut_control.CString.Spelled.{hex_text, strtoul-hex}
use ut_control.CString.Token.{tokens, join, IsToken, is_delimiter, tokens-join}
use ut_control.Kvp.Fyaml.{Fyaml}
use ut_control.Kvp.Instance.{Instance}
use ut_control.Kvp.Nodes.Strings.{Leads}
use ut_control.Kvp.Bytes.{token_byte, trim_spaces, ut_kvp_get_data_bytes}
use ut_control.Kvp.Bytes.Collect.{token_bytes}
use ut_control.Kvp.Bytes.Reads.{bytes_of_string-token_bytes, data_bytes-scalar}
use ut_control.Kvp.Bytes.Decimal.{IsByte, accept_value, token_byte-decimal, IsToken-decimal}

-- A byte as it is written: its digits, leading zeros allowed.
pub data Spelling : Type 0 where
  decimal hex : List ℕ → Spelling

abbrev pub spelled : Spelling → Text
spelled (decimal ds) = map digit_char ds
spelled (hex []) = []
spelled (hex (d ∷ ds)) = hex_text d ds

abbrev pub value_of : Spelling → ℕ
value_of (decimal ds) = digits_value 10 0 ds
value_of (hex ds) = digits_value 16 0 ds

abbrev pub IsSpelling : Spelling → Type 0
IsSpelling (decimal ds) = IsByte ds
IsSpelling (hex ds) = (ds ≢ []) × All (λ d. d < 16) ds × (digits_value 16 0 ds ≤ 255)

token_byte-hex :
    (d : ℕ) (ds : List ℕ)
    → IsSpelling (hex (d ∷ ds))
    → token_byte (hex_text d ds) ≡ some (digits_value 16 0 (d ∷ ds))
unfolding token_byte trim_spaces strncmp_eq
token_byte-hex d ds h = rw (strtoul-hex d ds h.1) (accept_value (digits_value 16 0 (d ∷ ds)) h.2)

token_byte-spelled : (b : Spelling) → IsSpelling b → token_byte (spelled b) ≡ some (value_of b)
token_byte-spelled (decimal ds) h = token_byte-decimal ds h
token_byte-spelled (hex []) h = absurd (h.0 refl)
token_byte-spelled (hex (d ∷ ds)) h = token_byte-hex d ds h

token_bytes-spelled :
    (bs : List Spelling) → All IsSpelling bs → token_bytes (map spelled bs) ≡ some (map value_of bs)
unfolding token_bytes
token_bytes-spelled [] h = refl
token_bytes-spelled (b ∷ bs) h =
    rw (token_byte-spelled b h.0, token_bytes) (rw (token_bytes-spelled bs h.1))

not_delimiter : (d : ℕ) → d < 16 → is_delimiter (digit_char d) ≡ false
unfolding is_delimiter
not_delimiter d h = ground (arith, digit_char-gt d)

IsToken-spelled : (b : Spelling) → IsSpelling b → IsToken (spelled b)
unfolding is_delimiter
IsToken-spelled (decimal ds) h = IsToken-decimal ds h
IsToken-spelled (hex []) h = absurd (h.0 refl)
IsToken-spelled (hex (d ∷ ds)) h = (
  (λ e. cc),
  (
    refl,
    (
      refl,
      All-map (λ x. x < 16) (λ c. is_delimiter c ≡ false) digit_char (d ∷ ds) not_delimiter h.1,
    ),
  ),
)

-- The text of a list of bytes.
abbrev pub spelled_text : List Spelling → Text
spelled_text bs = join (map spelled bs)

module _ {Y : Fyaml} {p : Instance Y} {k : Text} {node : Y.Node} (h : Leads Y p k node) where
  -- Where memory is never short, a scalar at the key's path that lists at most INT_MAX bytes with ", "
  -- between them, each in decimal or, behind 0x, in hexadecimal with lower-case digits, is read as
  -- those bytes in order: the count is their number, and they stand at the front of the block that is
  -- returned.
  pub data_bytes-spelled :
      (malloc_ok : ℕ → Bool) (enough : (n : ℕ) → malloc_ok n ≡ true)
      → (bs : List Spelling) → All IsSpelling bs
      → length bs ≤ int_max
      → Y.is_scalar node ≡ true
      → Y.get_scalar0 node ≡ some (spelled_text bs)
      → (old : ℕ)
      → (b : List ℕ) × (ut_kvp_get_data_bytes malloc_ok Y (some p) (some k) (some old)
          ≡ some (some b, some (length bs)))
        × (take (length bs) b ≡ map value_of bs)
  data_bytes-spelled malloc_ok enough bs bytes counts scalar content old =
      let text_tokens : tokens (spelled_text bs) ≡ map spelled bs =
        tokens-join (map spelled bs)
          (All-map IsSpelling IsToken spelled bs IsToken-spelled bytes) in
      let (b, e, t) =
        bytes_of_string-token_bytes malloc_ok enough (spelled_text bs) (map value_of bs)
          (rw text_tokens (token_bytes-spelled bs bytes))
          (omega (arith, ap length text_tokens, length-map bs spelled)) in
      let count : length (map value_of bs) ≡ length bs = length-map bs value_of in
      (
        b,
        data_bytes-scalar h malloc_ok (spelled_text bs) old scalar content ∙ rw e (rw count),
        rw count at t,
      )
