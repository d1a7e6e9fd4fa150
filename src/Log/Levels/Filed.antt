-- ===== src/Log/Levels/Filed.antt =====
-- include/ut_log.h: what the macros put into the file.
use ut_control.Base.{
  ◌+◌, ◌-◌, ◌≤◌, ◌≡◌, refl, ap, sym, ◌∙◌, Bool, false, List, [], ◌∷◌, ◌++◌, ◌==◌, All, length, take,
  take_all, arith, append_assoc, append-nil,
}
use ut_control.Base.Int.{ℤ}
use ut_control.CString.{Text, IsText}
use ut_control.CString.Literal.{codes}
use ut_control.CString.Print.{format, pad_left, print_int, format-All, pad_left-All, print_int-All}
use ut_control.CString.Number.{digit_char-gt}
use ut_control.Log.{escape}
use ut_control.Log.Strip.{visible}
use ut_control.Log.Line.{Log, prefix_header}
use ut_control.Log.Line.Single.{line_of}
use ut_control.Log.Line.Output.{IsLog, destination, Logged, lines-Logged}
use ut_control.Log.Levels.{
  Level, basic, step, info, debug, warning, error, level_prefix, word, log_at,
}

abbrev pub NoEscape : Text → Type 0
NoEscape t = All (λ c. (c == escape) ≡ false) t

-- What stands behind the prefix in a line.
abbrev pub behind_prefix : (file_base : Text) (line : ℤ) (message : Text) → Text
behind_prefix file_base line message =
    format (
      codes ", " ∷ file_base ∷ codes "," ∷ pad_left 6 (print_int line) ∷ codes " : " ∷ message ∷ [])

-- The line without colours.
abbrev pub plain_line : Level → (time file_base : Text) (line : ℤ) (message : Text) → Text
plain_line level time file_base line message = format (
    codes "\n"
    ∷ time
    ∷ codes ", "
    ∷ word level
    ∷ codes ", "
    ∷ file_base
    ∷ codes ","
    ∷ pad_left 6 (print_int line)
    ∷ codes " : "
    ∷ message
    ∷ [])

visible-append : (a b : Text) → NoEscape a → visible false (a ++ b) ≡ a ++ visible false b
unfolding visible
visible-append [] b h = refl
visible-append (c ∷ cs) b h = rw (h.0) (ap (λ (t : Text). c ∷ t) (visible-append cs b h.1))

visible_all : (a : Text) → NoEscape a → visible false a ≡ a
unfolding visible
visible_all [] h = refl
visible_all (c ∷ cs) h = rw (h.0) (ap (λ (t : Text). c ∷ t) (visible_all cs h.1))

visible-level_prefix :
    (level : Level) (rest : Text)
    → visible false (level_prefix level ++ rest) ≡ word level ++ visible false rest
unfolding visible
visible-level_prefix basic rest = refl
visible-level_prefix step rest = refl
visible-level_prefix info rest = refl
visible-level_prefix debug rest = refl
visible-level_prefix warning rest = refl
visible-level_prefix error rest = refl

-- A prefix with its colours is as wide as the field already.
pad_left-level_prefix : (level : Level) → pad_left 16 (level_prefix level) ≡ level_prefix level
unfolding pad_left
pad_left-level_prefix basic = refl
pad_left-level_prefix step = refl
pad_left-level_prefix info = refl
pad_left-level_prefix debug = refl
pad_left-level_prefix warning = refl
pad_left-level_prefix error = refl

level_prefix-IsText : (level : Level) → IsText (level_prefix level)
level_prefix-IsText basic = omega arith
level_prefix-IsText step = omega arith
level_prefix-IsText info = omega arith
level_prefix-IsText debug = omega arith
level_prefix-IsText warning = omega arith
level_prefix-IsText error = omega arith

behind_prefix-NoEscape :
    (file_base : Text) (line : ℤ) (message : Text)
    → NoEscape file_base
    → NoEscape message
    → NoEscape (behind_prefix file_base line message)
behind_prefix-NoEscape file_base line message f m =
    format-All (λ c. (c == escape) ≡ false)
      (codes ", "
        ∷ file_base
        ∷ codes ","
        ∷ pad_left 6 (print_int line)
        ∷ codes " : "
        ∷ message
        ∷ [])
      ((refl, (refl, tt)), (f, ((refl, tt), (number, ((refl, (refl, (refl, tt))), (m, tt))))))
  where
    number : NoEscape (pad_left 6 (print_int line))
    number =
        pad_left-All (λ c. (c == escape) ≡ false) 6 (print_int line) refl
          (print_int-All (λ c. (c == escape) ≡ false) line refl
            (λ d. ground (arith, digit_char-gt d)))

format-append : (ts : List Text) (t : Text) → format ts ++ t ≡ format (ts ++ t ∷ [])
format-append [] t = sym (append-nil t)
format-append (x ∷ ts) t =
    append_assoc x (format ts) t ∙ ap (λ (r : Text). x ++ r) (format-append ts t)

-- The line that is printed, where nothing is cut.
abbrev pub coloured_line : Level → (time file_base : Text) (line : ℤ) (message : Text) → Text
coloured_line level time file_base line message = format (
    codes "\n"
    ∷ time
    ∷ codes ", "
    ∷ level_prefix level
    ∷ codes ", "
    ∷ file_base
    ∷ codes ","
    ∷ pad_left 6 (print_int line)
    ∷ codes " : "
    ∷ message
    ∷ [])

line_of-coloured_line :
    (level : Level) (time file_base : Text) (line : ℤ) (message : Text)
    → length (prefix_header time (level_prefix level) file_base line) + length message ≤ 253
    → line_of (prefix_header time (level_prefix level) file_base line) message
      ≡ coloured_line level time file_base line message
line_of-coloured_line level time file_base line message short =
    let header = prefix_header time (level_prefix level) file_base line in
    let whole : take 254 header ≡ header = take_all 254 header (omega (arith, short)) in
    let pieces = λ (p : Text).
      codes "\n"
      ∷ time
      ∷ codes ", "
      ∷ p
      ∷ codes ", "
      ∷ file_base
      ∷ codes ","
      ∷ pad_left 6 (print_int line)
      ∷ codes " : "
      ∷ [] in
    ap (λ (h : Text). h ++ take (253 - length h) message) whole
    ∙ ap (λ (m : Text). header ++ m) (take_all (253 - length header) message (omega (arith, short)))
    ∙ ap (λ (p : Text). format (pieces p) ++ message) (pad_left-level_prefix level)
    ∙ format-append (pieces (level_prefix level)) message

visible-coloured_line :
    (level : Level) (time file_base : Text) (line : ℤ) (message : Text)
    → NoEscape time
    → NoEscape file_base
    → NoEscape message
    → visible false (coloured_line level time file_base line message)
      ≡ plain_line level time file_base line message
unfolding visible
visible-coloured_line level time file_base line message t f m =
    let rest = behind_prefix file_base line message in
    ap (λ (x : Text). b'\n' ∷ x)
      (visible-append time (codes ", " ++ (level_prefix level ++ rest)) t
        ∙ ap (λ (x : Text). time ++ (codes ", " ++ x))
            (visible-level_prefix level rest
              ∙ ap (λ (x : Text). word level ++ x)
                  (visible_all rest (behind_prefix-NoEscape file_base line message f m))))

-- Each macro prints the line with its coloured word and appends it without colours, where the texts
-- have no colour codes of their own and the line fits its array. The log file is set and opened as
-- by `ut_log_prefix`.
pub log_at-Logged :
    (level : Level) (file_time time : Text) (fopen_ok : Text → Bool) (file_base : Text) (line : ℤ)
    (message name : Text) (state : Log)
    → IsText file_time
    → IsText time
    → IsText file_base
    → IsText message
    → IsLog name state
    → NoEscape time
    → NoEscape file_base
    → NoEscape message
    → length (prefix_header time (level_prefix level) file_base line) + length message ≤ 253
    → Logged fopen_ok
        (destination file_time name state.log_init)
        (coloured_line level time file_base line message)
        (plain_line level time file_base line message)
        (log_at level file_time time fopen_ok file_base line message state)
unfolding log_at
log_at-Logged level file_time time fopen_ok file_base line message name state ft tt' ff mm is_log t
      f m short =
    let (_, logged) =
      lines-Logged file_time time fopen_ok line (level_prefix level) file_base message name state ft
        tt' (level_prefix-IsText level) ff mm is_log in
    rw (← visible-coloured_line level time file_base line message t f m)
      (rw (← line_of-coloured_line level time file_base line message short) logged)
