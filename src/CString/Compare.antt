-- ===== src/CString/Compare.antt =====
-- strlen, strcmp, strncmp, strcasecmp, strstr and strchr, which the sources only compare with 0 or
-- NULL: each is the Boolean that its caller tests.
use ut_control.Base.{
  ℕ, zero, suc, ◌+◌, ◌≡◌, refl, Bool, true, false, ◌&&◌, ◌||◌, List, [], ◌∷◌, map, arith, leb, ◌==◌,
  if◌then◌else◌, All, ◌<◌,
}

-- A string's bytes, without the NUL that ends it.
abbrev pub Text : Type 0
Text = List ℕ

-- No byte of a text is the NUL.
abbrev pub IsText : Text → Type 0
IsText = All (λ c. 0 < c)

-- strcmp(a, b) == 0
unfoldable pub strcmp_eq : Text → Text → Bool
strcmp_eq [] [] = true
strcmp_eq [] (d ∷ ds) = false
strcmp_eq (c ∷ cs) [] = false
strcmp_eq (c ∷ cs) (d ∷ ds) = (c == d) && strcmp_eq cs ds

-- strncmp(a, b, n) == 0
unfoldable pub strncmp_eq : Text → Text → ℕ → Bool
strncmp_eq a b zero = true
strncmp_eq [] [] (suc n) = true
strncmp_eq [] (d ∷ ds) (suc n) = false
strncmp_eq (c ∷ cs) [] (suc n) = false
strncmp_eq (c ∷ cs) (d ∷ ds) (suc n) = (c == d) && strncmp_eq cs ds n

-- tolower in the C locale
unfoldable pub to_lower : ℕ → ℕ
to_lower c = if leb b'A' c && leb c b'Z' then c + 32 else c

-- strcasecmp(a, b) == 0
unfoldable pub strcasecmp_eq : Text → Text → Bool
unfolding to_lower strcmp_eq
strcasecmp_eq a b = strcmp_eq (map to_lower a) (map to_lower b)

-- The bytes of `p` stand at the front of `s`.
unfoldable pub starts_with : Text → Text → Bool
starts_with [] s = true
starts_with (c ∷ cs) [] = false
starts_with (c ∷ cs) (d ∷ ds) = (c == d) && starts_with cs ds

-- strstr(s, p) != NULL
unfoldable pub strstr_found : Text → Text → Bool
unfolding starts_with
strstr_found [] p = starts_with p []
strstr_found (c ∷ cs) p = starts_with p (c ∷ cs) || strstr_found cs p

-- strchr(s, c) != NULL, for a byte other than the NUL
unfoldable pub strchr_found : Text → ℕ → Bool
strchr_found [] c = false
strchr_found (d ∷ ds) c = (d == c) || strchr_found ds c

pub strcmp_eq_refl : (a : Text) → strcmp_eq a a ≡ true
unfolding strcmp_eq
strcmp_eq_refl [] = refl
strcmp_eq_refl (c ∷ cs) = ground (arith, strcmp_eq_refl cs)

pub strcmp_eq_sound : (a b : Text) → strcmp_eq a b ≡ true → a ≡ b
unfolding strcmp_eq
strcmp_eq_sound [] [] h = refl
strcmp_eq_sound [] (d ∷ ds) h = cc
strcmp_eq_sound (c ∷ cs) [] h = cc
strcmp_eq_sound (c ∷ cs) (d ∷ ds) h = ground (arith, strcmp_eq_sound cs ds)

-- A text whose bytes are all below `b` contains no pattern that has a byte from `b` on.
pub strstr_found-below :
    (s : Text) (p₀ b : ℕ) (p : Text) → All (λ c. c < b) s → strstr_found s (p₀ ∷ b ∷ p) ≡ false
unfolding strstr_found
strstr_found-below [] p₀ b p h = refl
strstr_found-below (c ∷ []) p₀ b p h = ground arith
strstr_found-below (c ∷ d ∷ s) p₀ b p h = ground (arith, strstr_found-below (d ∷ s) p₀ b p h.1)
