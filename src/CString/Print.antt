-- ===== src/CString/Print.antt =====
-- The functions of C that print into an array: snprintf, and the conversions %d and %*s.
use ut_control.Base.{
  ℕ, zero, suc, ◌+◌, ◌-◌, ◌*◌, ◌/◌, ◌%◌, ◌≤◌, ◌<◌, ◌≡◌, refl, ap, sym, ◌∙◌, true, false, Option,
  some, List, [], ◌∷◌, ◌++◌, map, arith, ltb, length, take, take_full, drop, drop-append, replicate,
  Bool-cases, inl, inr, append_assoc, append-nil, length-append, length-take, All, All-append,
  All-take, length-drop,
}
use ut_control.Base.Int.{ℤ, pos, negsuc}
use ut_control.CString.Compare.{Text, IsText}
use ut_control.CString.Buffer.{read_string, read_string-append, memcpy_at, memcpy_at-inside}
use ut_control.CString.Number.{digit_char, digits_value, digit_char-gt}

-- The decimal digits of a number, the first in front.
decimal_digits : ℕ → ℕ → List ℕ
decimal_digits zero n = []
decimal_digits (suc fuel) n = elim (ltb n 10) [
  | true ↦ n ∷ []
  | false ↦ decimal_digits fuel (n / 10) ++ (n % 10) ∷ []
]

-- %d
unfoldable pub print_int : ℤ → Text
unfolding decimal_digits digit_char
print_int (pos n) = map digit_char (decimal_digits (suc n) n)
print_int (negsuc n) = b'-' ∷ map digit_char (decimal_digits (suc (suc n)) (suc n))

-- A field of at least `width` characters, with spaces in front.
unfoldable pub pad_left : ℕ → Text → Text
pad_left width text = replicate (width - length text) b' ' ++ text

-- What a format prints: its texts and conversions in a row.
abbrev pub format : List Text → Text
format [] = []
format (t ∷ ts) = t ++ format ts

-- snprintf(array + offset, size, "%s", text), which cuts the text to leave room for the NUL and
-- writes nothing where `size` is 0; `none` is a write past the array.
unfoldable pub snprintf : List ℕ → ℕ → ℕ → Text → Option (List ℕ)
snprintf array offset zero text = some array
snprintf array offset (suc n) text = memcpy_at array offset (take n text ++ 0 ∷ [])

digits_value-snoc :
    (ds : List ℕ) (a d : ℕ) → digits_value 10 a (ds ++ d ∷ []) ≡ digits_value 10 a ds * 10 + d
unfolding digits_value
digits_value-snoc [] a d = refl
digits_value-snoc (x ∷ ds) a d = digits_value-snoc ds _ d

decimal_digits-last : (fuel n : ℕ) → ltb n 10 ≡ true → decimal_digits (suc fuel) n ≡ n ∷ []
unfolding decimal_digits
decimal_digits-last fuel n h = rw (h, decimal_digits)

decimal_digits-more :
    (fuel n : ℕ)
    → ltb n 10 ≡ false
    → decimal_digits (suc fuel) n ≡ decimal_digits fuel (n / 10) ++ (n % 10) ∷ []
unfolding decimal_digits
decimal_digits-more fuel n h = rw (h, decimal_digits)

-- With fuel past the number, its digits stand for the number.
decimal_digits_lem : (fuel n : ℕ) → n < fuel → digits_value 10 0 (decimal_digits fuel n) ≡ n
decimal_digits_lem zero n h = absurd (omega arith)
decimal_digits_lem (suc fuel) n h = elim (Bool-cases (ltb n 10)) [
  | inl last ↦ ap (digits_value 10 0) (decimal_digits-last fuel n last) ∙ omega arith
  | inr more ↦
      ap (digits_value 10 0) (decimal_digits-more fuel n more)
      ∙ digits_value-snoc (decimal_digits fuel (n / 10)) 0 (n % 10)
      ∙ omega (arith, decimal_digits_lem fuel (n / 10) (ground arith))
]

-- Where the characters that the conversions add have a property, so have all that they print.
module _ (P : ℕ → Type 0) where
  All-replicate : (n c : ℕ) → P c → All P (replicate n c)
  All-replicate zero c h = tt
  All-replicate (suc n) c h = (h, All-replicate n c h)

  pub pad_left-All : (width : ℕ) (text : Text) → P b' ' → All P text → All P (pad_left width text)
  unfolding pad_left
  pad_left-All width text space h =
      All-append P (replicate (width - length text) b' ') text
        (All-replicate (width - length text) b' ' space) h

  digits-All : (ds : List ℕ) → ((d : ℕ) → P (digit_char d)) → All P (map digit_char ds)
  digits-All [] digit = tt
  digits-All (d ∷ ds) digit = (digit d, digits-All ds digit)

  pub print_int-All : (z : ℤ) → P b'-' → ((d : ℕ) → P (digit_char d)) → All P (print_int z)
  unfolding print_int
  print_int-All (pos n) minus digit = digits-All (decimal_digits (suc n) n) digit
  print_int-All (negsuc n) minus digit =
      (minus, digits-All (decimal_digits (suc (suc n)) (suc n)) digit)

pub pad_left-IsText : (width : ℕ) (text : Text) → IsText text → IsText (pad_left width text)
pad_left-IsText width text h = pad_left-All (λ c. 0 < c) width text (omega arith) h

pub print_int-IsText : (z : ℤ) → IsText (print_int z)
print_int-IsText z =
    print_int-All (λ c. 0 < c) z (omega arith) (λ d. omega (arith, digit_char-gt d))

pub format-All : (P : ℕ → Type 0) (ts : List Text) → All (λ t. All P t) ts → All P (format ts)
format-All P [] h = tt
format-All P (t ∷ ts) h = All-append P t (format ts) h.0 (format-All P ts h.1)

-- Bytes written behind the front part of an array, where the rest has room for them.
pub memcpy_at-append :
    (front rest bytes : List ℕ)
    → length bytes ≤ length rest
    → memcpy_at (front ++ rest) (length front) bytes
      ≡ some (front ++ (bytes ++ drop (length bytes) rest))
memcpy_at-append front rest bytes h =
    memcpy_at-inside (front ++ rest) bytes (length front) (omega (arith, length-append front rest))
    ∙ ap some (rw (take_full (length front) front rest refl, drop-append front rest (length bytes)))

-- Behind the front part, a C string, at most `n` characters of `text` and a NUL are printed.
pub snprintf_at :
    (front rest : List ℕ) (n : ℕ) (text : Text)
    → IsText front
    → IsText text
    → suc n ≤ length rest
    → (b : List ℕ) × (snprintf (front ++ rest) (length front) (suc n) text ≡ some (front ++ b))
      × (read_string (front ++ b) ≡ some (front ++ take n text))
      × (length b ≡ length rest)
unfolding snprintf
snprintf_at front rest n text f t room =
    let cut = take n text in
    let short : length (cut ++ 0 ∷ []) ≤ length rest =
      omega (arith, length-append cut (0 ∷ []), length-take n text) in
    let left = drop (length (cut ++ 0 ∷ [])) rest in
    let regroup : front ++ ((cut ++ 0 ∷ []) ++ left) ≡ (front ++ cut) ++ 0 ∷ left =
      ap (λ (x : Text). front ++ x) (append_assoc cut (0 ∷ []) left)
      ∙ sym (append_assoc front cut (0 ∷ left)) in
    (
      (cut ++ 0 ∷ []) ++ left,
      memcpy_at-append front rest (cut ++ 0 ∷ []) short,
      ap read_string regroup
          ∙ read_string-append (front ++ cut) left
              (All-append (λ (c : ℕ). 0 < c) front cut f (All-take (λ (c : ℕ). 0 < c) n text t)),
      omega (arith, length-append (cut ++ 0 ∷ []) left, length-drop (length (cut ++ 0 ∷ [])) rest),
    )

-- The same behind a C string that ends where the text is printed, also where there is no room.
pub snprintf_behind :
    (front rest : List ℕ) (size : ℕ) (text : Text)
    → IsText front
    → IsText text
    → size ≤ length rest + 1
    → (b : List ℕ) × (snprintf (front ++ 0 ∷ rest) (length front) size text ≡ some (front ++ b))
      × (read_string (front ++ b) ≡ some (front ++ take (size - 1) text))
      × (length b ≡ length rest + 1)
unfolding snprintf
snprintf_behind front rest zero text f t room = (
  0 ∷ rest,
  refl,
  read_string-append front rest f ∙ ap some (sym (append-nil front)),
  omega arith,
)
snprintf_behind front rest (suc n) text f t room =
    let (b, e, r, l) = snprintf_at front (0 ∷ rest) n text f t (omega arith) in
    (b, e, r ∙ ap (λ (k : ℕ). some (front ++ take k text)) (omega arith), omega (arith, l))
