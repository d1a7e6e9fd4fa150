-- ===== src/Log/Line/FileName.antt =====
-- src/ut_log.c: the file name that UT_log_setLogFilePath leaves.
use ut_control.Base.{
  ℕ, ◌-◌, ◌<◌, ◌≡◌, refl, ap, sym, append_assoc, ◌∙◌, true, Option, none, some, [], ◌∷◌, ◌++◌, ◌==◌,
  if◌then◌else◌, length, take, arith, All-append, Bool-cases, inl, inr,
}
use ut_control.CString.{Text, IsText}
use ut_control.CString.Print.{snprintf_at}
use ut_control.CString.Literal.{codes}
use ut_control.Log.Line.{
  max_path, Log, last_char, log_name, ut_log_set_log_file_path, ut_log_get_log_filename,
}

-- The directory with a slash behind it.
abbrev pub directory : Text → Text
directory [] = b'/' ∷ []
directory (c ∷ []) = if c == b'/' then c ∷ [] else c ∷ b'/' ∷ []
directory (c ∷ d ∷ cs) = c ∷ directory (d ∷ cs)

-- A path that is not empty is kept, with a name behind it, cut to the array; an empty one is read
-- in front of its first byte.
abbrev pub Named : Text → Text → Option Log → Type 0
Named file_time [] r = r ≡ none
Named file_time (c ∷ cs) r =
    (log : Log) × (r ≡ some log)
    × (log.log_init ≡ true)
    × (length log.log_file_name ≡ max_path)
    × (ut_log_get_log_filename log
        ≡ some (take (max_path - 1) (directory (c ∷ cs) ++ log_name file_time)))

last_char_lem :
    (c : ℕ) (cs : Text)
    → (l : ℕ) × (last_char (c ∷ cs) ≡ some l)
      × (directory (c ∷ cs) ≡ (if l == b'/' then c ∷ cs else (c ∷ cs) ++ b'/' ∷ []))
last_char_lem c [] = (c, refl, refl)
last_char_lem c (d ∷ cs) =
    let (l, e, dir) = last_char_lem d cs in
    (
      l,
      e,
      elim (Bool-cases (l == b'/')) [
        | inl slash ↦ rw slash (ap (λ (x : Text). c ∷ x) (rw slash at dir))
        | inr other ↦ rw other (ap (λ (x : Text). c ∷ x) (rw other at dir))
      ],
    )

-- What is printed is the directory and the name.
printed :
    (path name : Text) (l : ℕ)
    → directory path ≡ (if l == b'/' then path else path ++ b'/' ∷ [])
    → (if l == b'/' then path ++ name else path ++ b'/' ∷ name) ≡ directory path ++ name
printed path name l dir = elim (Bool-cases (l == b'/')) [
  | inl slash ↦ rw slash (ap (λ (x : Text). x ++ name) (sym (rw slash at dir)))
  | inr other ↦ rw other (
      sym (append_assoc path (b'/' ∷ []) name)
      ∙ ap (λ (x : Text). x ++ name) (sym (rw other at dir)))
]

directory-IsText : (path : Text) → IsText path → IsText (directory path)
directory-IsText [] h = (omega arith, tt)
directory-IsText (c ∷ []) h = ground arith
directory-IsText (c ∷ d ∷ cs) h = (h.0, directory-IsText (d ∷ cs) h.1)

log_name-IsText : (time : Text) → IsText time → IsText (log_name time)
log_name-IsText time h =
    All-append (λ (c : ℕ). 0 < c) (codes "ut-log_") (time ++ codes ".log") (omega arith)
      (All-append (λ (c : ℕ). 0 < c) time (codes ".log") h (omega arith))

-- On an array of 260 bytes, whatever it holds: a path that is not empty is kept, with a slash behind
-- it where it does not end in one, and the name with the time, cut at 259 characters; an empty path
-- is read in front of its first byte.
pub ut_log_set_log_file_path-Named :
    (file_time path : Text) (log : Log)
    → IsText file_time
    → IsText path
    → length log.log_file_name ≡ max_path
    → Named file_time path (ut_log_set_log_file_path file_time path log)
unfolding ut_log_set_log_file_path ut_log_get_log_filename
ut_log_set_log_file_path-Named time [] log t h array = refl
ut_log_set_log_file_path-Named time (c ∷ cs) log t h array =
    let (l, e, dir) = last_char_lem c cs in
    let text = directory (c ∷ cs) ++ log_name time in
    let (b, w, r, same) =
      snprintf_at [] log.log_file_name (max_path - 1) text tt
        (All-append (λ (x : ℕ). 0 < x) (directory (c ∷ cs)) (log_name time)
          (directory-IsText (c ∷ cs) h) (log_name-IsText time t))
        (omega (arith, array)) in
    (
      record { log_file_name = b; log_init = true },
      rw e (rw (printed (c ∷ cs) (log_name time) l dir) (rw w)),
      refl,
      same ∙ array,
      r,
    )
