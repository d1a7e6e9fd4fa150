-- ===== src/Kvp/Bytes/Decimal.antt =====
-- src/ut_kvp.c: the tokens of ut_kvp_getDataBytes that are bytes in decimal.
use ut_control.Base.{
  ℕ, ◌≤◌, ◌<◌, ◌≡◌, ◌≢◌, refl, false, some, List, [], ◌∷◌, map, ◌==◌, arith, All, All-map,
}
use ut_control.CString.{Text, strncmp_eq}
use ut_control.CString.Number.{digits_value, digit_char, digit_char-gt, finish}
use ut_control.CString.Spelled.{strtoul-decimal}
use ut_control.CString.Token.{IsToken, is_delimiter}
use ut_control.Kvp.Bytes.{trim_spaces, accept_byte, token_byte}
use ut_control.Kvp.Bytes.Collect.{token_bytes}

-- The decimal digits of a byte, leading zeros allowed.
abbrev pub IsByte : List ℕ → Type 0
IsByte ds = (ds ≢ []) × All (λ d. d < 10) ds × (digits_value 10 0 ds ≤ 255)

no_prefix :
    (t : Text) (x : ℕ) → All (λ c. c < 58) t → 58 ≤ x → strncmp_eq t (b'0' ∷ x ∷ []) 2 ≡ false
unfolding strncmp_eq
no_prefix [] x h b = refl
no_prefix (c ∷ []) x h b = ground arith
no_prefix (c ∷ d ∷ t) x h b = ground arith

trim_digits : (c : ℕ) (t : Text) → 47 < c → trim_spaces (c ∷ t) ≡ c ∷ t
unfolding trim_spaces
trim_digits c t h = let solid : (c == b' ') ≡ false = ground arith in rw (solid, trim_spaces)

pub accept_value : (v : ℕ) → v ≤ 255 → accept_byte (finish false (v, [])) ≡ some v
unfolding accept_byte finish
accept_value v h = ground arith

digit_char-lt-58 : (d : ℕ) → d < 10 → digit_char d < 58
unfolding digit_char
digit_char-lt-58 d h = ground arith

pub token_byte-decimal :
    (ds : List ℕ) → IsByte ds → token_byte (map digit_char ds) ≡ some (digits_value 10 0 ds)
unfolding token_byte
token_byte-decimal [] h = absurd (h.0 refl)
token_byte-decimal (d ∷ ds) h =
    let digits = All-map (λ x. x < 10) (λ c. c < 58) digit_char (d ∷ ds) digit_char-lt-58 h.1 in
    rw (trim_digits (digit_char d) (map digit_char ds) (digit_char-gt d)) (
      rw
        (
          no_prefix (map digit_char (d ∷ ds)) b'x' digits (omega arith),
          no_prefix (map digit_char (d ∷ ds)) b'X' digits (omega arith),
        )
        (rw (strtoul-decimal d ds h.1) (accept_value (digits_value 10 0 (d ∷ ds)) h.2)))

token_bytes-decimal :
    (nss : List (List ℕ))
    → All IsByte nss
    → token_bytes (map (map digit_char) nss) ≡ some (map (digits_value 10 0) nss)
unfolding token_bytes
token_bytes-decimal [] h = refl
token_bytes-decimal (ds ∷ nss) h =
    rw (token_byte-decimal ds h.0, token_bytes) (rw (token_bytes-decimal nss h.1))

not_delimiter : (d : ℕ) → d < 10 → is_delimiter (digit_char d) ≡ false
unfolding is_delimiter
not_delimiter d h = ground (arith, digit_char-gt d)

pub IsToken-decimal : (ds : List ℕ) → IsByte ds → IsToken (map digit_char ds)
IsToken-decimal [] h = absurd (h.0 refl)
IsToken-decimal (d ∷ ds) h = (
  (λ e. cc),
  All-map (λ x. x < 10) (λ c. is_delimiter c ≡ false) digit_char (d ∷ ds) not_delimiter h.1,
)
