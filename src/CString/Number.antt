-- ===== src/CString/Number.antt =====
-- strtoul (strtoull is the same function where `unsigned long` has 64 bits).
use ut_control.Base.{
  ℕ, ◌+◌, ◌-◌, ◌*◌, ◌%◌, ◌^◌, ◌≤◌, ◌<◌, ◌≡◌, refl, ap, Bool, true, false, ◌&&◌, ◌||◌, Option, none,
  some, List, [], ◌∷◌, map, arith, ltb, leb, ◌==◌, if◌then◌else◌, All,
}
use ut_control.CString.Compare.{Text}

abbrev pub ulong_max : ℕ
ulong_max = 2 ^ 64 - 1

-- What a call leaves behind: the value, the text from `*endptr` on, and whether errno is ERANGE.
pub record Conversion : Type 0 where
  pub value : ℕ
  pub rest : Text
  pub erange : Bool

-- isspace in the C locale
unfoldable pub is_space : ℕ → Bool
is_space c = (c == 32) || (leb 9 c && leb c 13)

-- The value of a digit in base 10 or 16.
unfoldable pub digit_value : ℕ → ℕ → Option ℕ
digit_value base c =
    let d =
      if leb b'0' c && leb c b'9'
      then c - b'0'
      else if leb b'a' c && leb c b'z'
      then c - b'a' + 10
      else if leb b'A' c && leb c b'Z'
      then c - b'A' + 10
      else 36 in
    if ltb d base then some d else none

-- Digits from the front on, and what follows them.
unfoldable pub scan_digits : ℕ → ℕ → Text → ℕ × Text
unfolding digit_value
scan_digits base acc [] = (acc, [])
scan_digits base acc (c ∷ cs) = elim (digit_value base c) [
  | none ↦ (acc, c ∷ cs)
  | some d ↦ scan_digits base (acc * base + d) cs
]

unfoldable pub skip_space : Text → Text
unfolding is_space
skip_space [] = []
skip_space (c ∷ cs) = elim (is_space c) [ true ↦ skip_space cs | false ↦ c ∷ cs ]

unfoldable pub is_digit : ℕ → ℕ → Bool
unfolding digit_value
is_digit base c = elim (digit_value base c) [ none ↦ false | some _ ↦ true ]

-- In base 16, `0x` or `0X` is skipped where a digit follows it.
unfoldable pub skip_prefix : ℕ → Text → Text
unfolding is_digit
skip_prefix base (c ∷ x ∷ d ∷ cs) =
    if (base == 16) && (c == b'0') && ((x == b'x') || (x == b'X')) && is_digit 16 d
    then d ∷ cs
    else c ∷ x ∷ d ∷ cs
skip_prefix base s = s

-- The magnitude `v` has been read: saturation, and negation modulo 2 ^ 64 behind a minus sign.
unfoldable pub finish : Bool → ℕ × Text → Conversion
finish negative (v, rest) =
    if ltb ulong_max v then record { value = ulong_max; rest = rest; erange = true } else record {
      value = if negative then (2 ^ 64 - v) % 2 ^ 64 else v;
      rest = rest;
      erange = false;
    }

-- Without a digit there is no conversion, and `*endptr` is the whole text.
unfoldable pub strtoul_digits : Text → ℕ → Bool → Text → Conversion
unfolding is_digit scan_digits finish
strtoul_digits whole base negative [] = record { value = 0; rest = whole; erange = false }
strtoul_digits whole base negative (c ∷ cs) =
    if is_digit base c
    then finish negative (scan_digits base 0 (c ∷ cs))
    else record { value = 0; rest = whole; erange = false }

unfoldable pub strtoul_sign : Text → ℕ → Text → Conversion
unfolding strtoul_digits skip_prefix
strtoul_sign whole base [] = strtoul_digits whole base false []
strtoul_sign whole base (c ∷ cs) =
    if c == b'-'
    then strtoul_digits whole base true (skip_prefix base cs)
    else if c == b'+'
    then strtoul_digits whole base false (skip_prefix base cs)
    else strtoul_digits whole base false (skip_prefix base (c ∷ cs))

unfoldable pub strtoul : Text → ℕ → Conversion
unfolding strtoul_sign skip_space
strtoul s base = strtoul_sign s base (skip_space s)

-- The number that digits stand for.
abbrev pub digits_value : ℕ → ℕ → List ℕ → ℕ
digits_value base acc [] = acc
digits_value base acc (d ∷ ds) = digits_value base (acc * base + d) ds

-- The character of a digit, as "%x" prints it.
unfoldable pub digit_char : ℕ → ℕ
digit_char d = if ltb d 10 then b'0' + d else b'a' + (d - 10)

-- Printing a digit and reading it again.
pub digit_value-digit_char :
    (base d : ℕ) → base ≤ 16 → d < base → digit_value base (digit_char d) ≡ some d
unfolding digit_value digit_char
digit_value-digit_char base d hb h = ground arith

pub digit_char-gt : (d : ℕ) → 47 < digit_char d
unfolding digit_char
digit_char-gt d = ground arith

pub digit_char-lt : (d : ℕ) → d < 10 → digit_char d < b'x'
unfolding digit_char
digit_char-lt d h = ground arith

pub scan_digits-map :
    (base acc : ℕ) (ds : List ℕ)
    → base ≤ 16
    → All (λ d. d < base) ds
    → scan_digits base acc (map digit_char ds) ≡ (digits_value base acc ds, [])
unfolding scan_digits
scan_digits-map base acc [] hb h = refl
scan_digits-map base acc (d ∷ ds) hb h =
    rw (digit_value-digit_char base d hb h.0, scan_digits)
      (scan_digits-map base (acc * base + d) ds hb h.1)

module _ (base d : ℕ) (ds : List ℕ) (small : base ≤ 16) (each : All (λ d. d < base) (d ∷ ds)) where
  pub is_digit-digit_char : is_digit base (digit_char d) ≡ true
  unfolding is_digit
  is_digit-digit_char = rw (digit_value-digit_char base d small each.0, is_digit)

  -- The digits of a number, read as a whole text.
  pub strtoul_digits-map :
      (whole : Text)
      → strtoul_digits whole base false (map digit_char (d ∷ ds))
        ≡ finish false (digits_value base 0 (d ∷ ds), [])
  unfolding strtoul_digits
  strtoul_digits-map whole =
      rw is_digit-digit_char (ap (finish false) (scan_digits-map base 0 (d ∷ ds) small each))
