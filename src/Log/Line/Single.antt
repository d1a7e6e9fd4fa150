-- ===== src/Log/Line/Single.antt =====
-- src/ut_log.c: the line that UT_log and UT_logPrefix print into `singleLineBuffer`.
use ut_control.Base.{
  ℕ, ◌+◌, ◌-◌, ◌%◌, ◌^◌, ◌<◌, ◌≡◌, subst, ap, sym, ◌∙◌, Option, some, List, [], ◌∷◌, ◌++◌, length,
  take, replicate, arith, length-take, length-append,
}
use ut_control.CString.{Text, IsText}
use ut_control.CString.Buffer.{read_string, read_string-split}
use ut_control.CString.Print.{snprintf, snprintf_at, snprintf_behind}
use ut_control.Log.Line.{max_line_size, single_line}

-- The line of a header and a message: each is cut, so that they fit the array together.
abbrev pub line_of : Text → Text → Text
line_of header message =
    let shown = take (max_line_size - 1) header in
    shown ++ take (max_line_size - 2 - length shown) message

-- What the array of the line holds in the end.
abbrev pub Lined : Text → Option (List ℕ) → Type 0
Lined line r = (b : List ℕ) × (r ≡ some b) × (read_string b ≡ some line)

-- The size of the second call does not wrap around.
print_split :
    (shown rest message : Text)
    → length (shown ++ 0 ∷ rest) ≡ max_line_size + 1
    → length shown < max_line_size
    → IsText shown
    → IsText message
    → Lined (shown ++ take (max_line_size - 2 - length shown) message) (
        snprintf
          (shown ++ 0 ∷ rest)
          (length shown)
          ((max_line_size + 2 ^ 64 - length shown - 1) % 2 ^ 64)
          message)
print_split shown rest message full short t m =
    let size : (max_line_size + 2 ^ 64 - length shown - 1) % 2 ^ 64
        ≡ max_line_size - 1 - length shown =
      omega arith in
    let (b, w, r, l) =
      snprintf_behind shown rest (max_line_size - 1 - length shown) message t m
        (omega (arith, full, length-append shown (0 ∷ rest))) in
    (
      shown ++ b,
      ap (λ (n : ℕ). snprintf (shown ++ 0 ∷ rest) (length shown) n message) size ∙ w,
      r ∙ ap (λ (n : ℕ). some (shown ++ take n message)) (omega arith),
    )

print_behind :
    (first : List ℕ) (shown message : Text)
    → length first ≡ max_line_size + 1
    → read_string first ≡ some shown
    → length shown < max_line_size
    → IsText message
    → Lined (shown ++ take (max_line_size - 2 - length shown) message) (
        snprintf first
          (length shown)
          ((max_line_size + 2 ^ 64 - length shown - 1) % 2 ^ 64)
          message)
print_behind first shown message full reads short m =
    let (rest, e, t) = read_string-split first shown reads in
    subst
      (λ (b : List ℕ).
        Lined (shown ++ take (max_line_size - 2 - length shown) message) (
          snprintf b (length shown) ((max_line_size + 2 ^ 64 - length shown - 1) % 2 ^ 64) message))
      (sym e) (print_split shown rest message (ap length (sym e) ∙ full) short t m)

pub single_line-Lined :
    (header message : Text)
    → IsText header
    → IsText message
    → Lined (line_of header message) (single_line header message)
unfolding single_line
single_line-Lined header message h m =
    let (first, w, r, l) =
      snprintf_at [] (replicate (max_line_size + 1) 0) (max_line_size - 1) header tt h
        (omega arith) in
    rw w (
      rw r (
        print_behind first (take (max_line_size - 1) header) message l r
          (omega (arith, length-take (max_line_size - 1) header)) m))
