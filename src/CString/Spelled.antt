-- ===== src/CString/Spelled.antt =====
-- strtoul on a number that is spelled out in digits.
use ut_control.Base.{
  ℕ, ◌<◌, ◌≡◌, refl, ap, ◌∙◌, true, false, List, [], ◌∷◌, map, arith, ◌==◌, All, All-map,
}
use ut_control.CString.Compare.{Text, strstr_found}
use ut_control.CString.Number.{
  strtoul, strtoul_sign, strtoul_digits, strtoul_digits-map, skip_space, is_space, skip_prefix,
  digits_value, digit_char, digit_char-gt, digit_char-lt, finish, is_digit-digit_char,
}

skip_prefix-10 : (s : Text) → skip_prefix 10 s ≡ s
unfolding skip_prefix
skip_prefix-10 [] = refl
skip_prefix-10 (c ∷ []) = refl
skip_prefix-10 (c ∷ x ∷ []) = refl
skip_prefix-10 (c ∷ x ∷ d ∷ cs) = refl

-- Neither a space nor a sign begins a text whose first byte is past '/'.
strtoul-plain :
    (c : ℕ) (cs : Text) (base : ℕ)
    → 47 < c
    → strtoul (c ∷ cs) base ≡ strtoul_digits (c ∷ cs) base false (skip_prefix base (c ∷ cs))
unfolding strtoul strtoul_sign skip_space is_space
strtoul-plain c cs base h =
    let visible : is_space c ≡ false = ground arith in
    let no_minus : (c == b'-') ≡ false = ground arith in
    let no_plus : (c == b'+') ≡ false = ground arith in
    rw (visible, skip_space) (rw (no_minus, strtoul_sign) (rw no_plus))

pub strstr_found-0x : (s : Text) → strstr_found (b'0' ∷ b'x' ∷ s) (b'0' ∷ b'x' ∷ []) ≡ true
unfolding strstr_found
strstr_found-0x s = refl

module _ (d : ℕ) (ds : List ℕ) where
  pub decimal_below : All (λ x. x < 10) (d ∷ ds) → All (λ c. c < b'x') (map digit_char (d ∷ ds))
  decimal_below h = All-map (λ x. x < 10) (λ c. c < b'x') digit_char (d ∷ ds) digit_char-lt h

  pub strtoul-decimal :
      All (λ x. x < 10) (d ∷ ds)
      → strtoul (map digit_char (d ∷ ds)) 10 ≡ finish false (digits_value 10 0 (d ∷ ds), [])
  strtoul-decimal h =
      strtoul-plain (digit_char d) (map digit_char ds) 10 (digit_char-gt d)
      ∙ ap (strtoul_digits (map digit_char (d ∷ ds)) 10 false)
          (skip_prefix-10 (map digit_char (d ∷ ds)))
      ∙ strtoul_digits-map 10 d ds (omega arith) h (map digit_char (d ∷ ds))

  abbrev pub hex_text : Text
  hex_text = b'0' ∷ b'x' ∷ map digit_char (d ∷ ds)

  skip_prefix-hex : All (λ x. x < 16) (d ∷ ds) → skip_prefix 16 hex_text ≡ map digit_char (d ∷ ds)
  unfolding skip_prefix
  skip_prefix-hex h = rw (is_digit-digit_char 16 d ds (omega arith) h)

  pub strtoul-hex :
      All (λ x. x < 16) (d ∷ ds)
      → strtoul hex_text 16 ≡ finish false (digits_value 16 0 (d ∷ ds), [])
  strtoul-hex h =
      strtoul-plain b'0' (b'x' ∷ map digit_char (d ∷ ds)) 16 (omega arith)
      ∙ ap (strtoul_digits hex_text 16 false) (skip_prefix-hex h)
      ∙ strtoul_digits-map 16 d ds (omega arith) h hex_text
