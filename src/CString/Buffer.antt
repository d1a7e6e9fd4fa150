-- ===== src/CString/Buffer.antt =====
-- `char` arrays: strncpy, and reading an array as a C string.
use ut_control.Base.{
  take, le→leb, Option-cases, inl, inr, subst, ◌∙◌, ℕ, zero, suc, ◌+◌, ◌≤◌, ◌<◌, ◌≡◌, refl, ap,
  Option, none, some, List, [], ◌∷◌, ◌++◌, arith, leb, if◌then◌else◌, length, drop,
}
use ut_control.CString.Compare.{Text, IsText}

-- The string that begins at an array's first byte, or `none` where the array has no NUL: a read
-- of it leaves the array.
unfoldable pub read_string : List ℕ → Option Text
read_string [] = none
read_string (zero ∷ bs) = some []
read_string (suc b ∷ bs) = elim (read_string bs) [ none ↦ none | some t ↦ some (suc b ∷ t) ]

-- memcpy(array + offset, bytes, length bytes); `none` is a write past the array.
unfoldable pub memcpy_at : List ℕ → ℕ → List ℕ → Option (List ℕ)
memcpy_at array offset bytes =
    if leb (offset + length bytes) (length array)
    then some (take offset array ++ (bytes ++ drop (offset + length bytes) array))
    else none

-- The `n` bytes that strncpy writes: the string, cut at `n` bytes or padded with NULs.
unfoldable pub strncpy_bytes : ℕ → Text → List ℕ
strncpy_bytes zero s = []
strncpy_bytes (suc n) [] = 0 ∷ strncpy_bytes n []
strncpy_bytes (suc n) (c ∷ cs) = c ∷ strncpy_bytes n cs

-- strncpy(dst, src, n); `none` is a write past the end of `dst`.
unfoldable pub strncpy : List ℕ → Text → ℕ → Option (List ℕ)
unfolding strncpy_bytes
strncpy dst src n = if leb n (length dst) then some (strncpy_bytes n src ++ drop n dst) else none

pub length-strncpy_bytes : (n : ℕ) (s : Text) → length (strncpy_bytes n s) ≡ n
unfolding strncpy_bytes
length-strncpy_bytes zero s = refl
length-strncpy_bytes (suc n) [] = ap suc (length-strncpy_bytes n [])
length-strncpy_bytes (suc n) (c ∷ cs) = ap suc (length-strncpy_bytes n cs)

-- A string shorter than the count is copied with its NUL.
pub read_string-strncpy_bytes :
    (n : ℕ) (s : Text) (rest : List ℕ)
    → IsText s
    → length s < n
    → read_string (strncpy_bytes n s ++ rest) ≡ some s
unfolding read_string strncpy_bytes
read_string-strncpy_bytes zero s rest h lt = elim lt [ ]
read_string-strncpy_bytes (suc n) [] rest h lt = refl
read_string-strncpy_bytes (suc n) (zero ∷ s) rest h lt = absurd (omega (arith, h.0))
read_string-strncpy_bytes (suc n) (suc c ∷ s) rest h lt =
    rw (read_string-strncpy_bytes n s rest h.1 (omega arith))

-- A string that is not shorter leaves no NUL among the bytes written.
pub read_string-strncpy_bytes_long :
    (n : ℕ) (s : Text) → IsText s → n ≤ length s → read_string (strncpy_bytes n s) ≡ none
unfolding read_string strncpy_bytes
read_string-strncpy_bytes_long zero s h le = refl
read_string-strncpy_bytes_long (suc n) [] h le = elim le [ ]
read_string-strncpy_bytes_long (suc n) (zero ∷ s) h le = absurd (omega (arith, h.0))
read_string-strncpy_bytes_long (suc n) (suc c ∷ s) h le =
    rw (read_string-strncpy_bytes_long n s h.1 (omega arith))

pub read_string-append :
    (s : Text) (rest : List ℕ) → IsText s → read_string (s ++ 0 ∷ rest) ≡ some s
unfolding read_string
read_string-append [] rest h = refl
read_string-append (zero ∷ s) rest h = absurd (omega (arith, h.0))
read_string-append (suc c ∷ s) rest h = rw (read_string-append s rest h.1)

pub strncpy_inside :
    (dst : List ℕ) (src : Text) (n : ℕ)
    → n ≤ length dst
    → strncpy dst src n ≡ some (strncpy_bytes n src ++ drop n dst)
unfolding strncpy
strncpy_inside dst src n h = rw (le→leb n (length dst) h)

-- The bytes before the first NUL, or all of them.
unfoldable pub until_nul : List ℕ → Text
until_nul [] = []
until_nul (zero ∷ bs) = []
until_nul (suc b ∷ bs) = suc b ∷ until_nul bs

pub memcpy_at-inside :
    (array bytes : List ℕ) (offset : ℕ)
    → offset + length bytes ≤ length array
    → memcpy_at array offset bytes
      ≡ some (take offset array ++ (bytes ++ drop (offset + length bytes) array))
unfolding memcpy_at
memcpy_at-inside array bytes offset h = rw (le→leb _ _ h)

-- An array that reads as a string holds it in front of a NUL.
pub read_string-split :
    (b : List ℕ) (s : Text)
    → read_string b ≡ some s
    → (rest : List ℕ) × (b ≡ s ++ 0 ∷ rest) × IsText s
unfolding read_string
read_string-split [] s h = absurd (cc)
read_string-split (zero ∷ b) [] h = (b, refl, tt)
read_string-split (zero ∷ b) (c ∷ s) h = absurd (cc)
read_string-split (suc x ∷ b) s h = elim (Option-cases (read_string b)) [
  | inl none' ↦ absurd (cc (rw (none', read_string) at h))
  | inr (t, some') ↦
      let (rest, e, text) = read_string-split b t some' in
      let same : suc x ∷ t ≡ s = cc (rw (some', read_string) at h) in
      (
        rest,
        ap (λ (r : List ℕ). suc x ∷ r) e ∙ ap (λ (r : List ℕ). r ++ 0 ∷ rest) same,
        subst IsText same (omega arith, text),
      )
]
