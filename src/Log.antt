-- ===== src/Log.antt =====
-- src/ut_log.c: `UT_stripColorCode`, which takes the colour codes out of a line in its own array.
pub mod Strip
pub mod Line
pub mod Levels
use ut_control.Base.{
  ℕ, zero, suc, ◌+◌, Bool, true, false, ◌||◌, Option, none, some, List, [], ◌∷◌, ◌==◌,
  if◌then◌else◌, get_elem?, ◌>>=◌,
}
use ut_control.Kvp.Key.{write}

-- '\033'
abbrev pub escape : ℕ
escape = 27

-- while (in_string[i] != 'm' && in_string[i]) i++; `none`: a read outside the array, or no round is
-- left.
unfoldable pub skip_code : ℕ → List ℕ → ℕ → Option ℕ
skip_code zero in_string i = none
skip_code (suc rounds) in_string i = elim (get_elem? in_string i) [
  | none ↦ none
  | some c ↦
      let later = skip_code rounds in_string (i + 1) in
      if (c == b'm') || (c == 0) then some i else later
]

-- Behind the code, where `i` stands at its 'm' or at the NUL.
unfoldable pub after_code : (ℕ → Option (List ℕ)) → List ℕ → ℕ → ℕ → Option (List ℕ)
after_code later in_string i j = elim (get_elem? in_string i) [
  | none ↦ none
  | some c ↦ if c == 0 then write in_string j 0 else later (i + 1)
]

-- One round of the outer loop, at the character `c`; `skip` and `later` are what follows a code and
-- what follows a character.
unfoldable pub strip_char : Option (List ℕ) → Option (List ℕ) → List ℕ → ℕ → ℕ → Option (List ℕ)
strip_char skip later in_string j c =
    if c == 0 then write in_string j 0 else if c == escape then skip else later

unfoldable pub strip_loop : ℕ → List ℕ → ℕ → ℕ → Option (List ℕ)
strip_loop zero in_string i j = none
strip_loop (suc rounds) in_string i j = elim (get_elem? in_string i) [
  | none ↦ none
  | some c ↦
      strip_char
        (skip_code (suc rounds) in_string i >>= λ i'.
          after_code (λ k. strip_loop rounds in_string k j) in_string i' j)
        (write in_string j c >>= λ s. strip_loop rounds s (i + 1) (j + 1)) in_string j c
]

-- The array after the call.
unfoldable pub strip_color_code : ℕ → List ℕ → Option (List ℕ)
unfolding strip_loop
strip_color_code rounds in_string = strip_loop rounds in_string 0 0
