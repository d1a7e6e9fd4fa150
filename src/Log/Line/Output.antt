-- ===== src/Log/Line/Output.antt =====
-- src/ut_log.c: what UT_log and UT_logPrefix print and append to the file.
use ut_control.Base.{
  ◌<◌, ℕ, ◌-◌, ◌≡◌, subst, ap, sym, ◌∙◌, Bool, true, false, Option, none, some, List, [], ◌∷◌, ◌++◌,
  if◌then◌else◌, length, take, arith, Bool-cases, inl, inr,
}
use ut_control.Base.Int.{ℤ}
use ut_control.CString.{Text, IsText}
use ut_control.CString.Buffer.{read_string, read_string-split}
use ut_control.CString.Print.{format-All, pad_left, pad_left-IsText, print_int, print_int-IsText}
use ut_control.CString.Literal.{codes}
use ut_control.Log.Strip.{visible, strip_color_code-Reads}
use ut_control.Log.Line.{
  max_path, Log, log_mark, log_name, ut_log_set_log_file_path, ut_log_get_log_filename, ensure_path,
  Written, open_failed, log_header, prefix_header, print_line, write_line, ut_log, stripped,
  ut_log_prefix,
}
use ut_control.Log.Line.FileName.{ut_log_set_log_file_path-Named}
use ut_control.Log.Line.Single.{line_of, single_line-Lined}

-- The file name of the log reads as `name`.
abbrev pub IsLog : Text → Log → Type 0
IsLog name log = (length log.log_file_name ≡ max_path) × (ut_log_get_log_filename log ≡ some name)

-- The name of the file that a call opens: the first call names it where no path was set.
abbrev pub destination : (file_time name : Text) → (log_init : Bool) → Text
destination file_time name init =
    if init then name else take (max_path - 1) (codes "/tmp/" ++ log_name file_time)

-- What a call leaves that prints `line` and puts `filed` in the file.
abbrev pub Logged : (fopen_ok : Text → Bool) → (name line filed : Text) → Option Written → Type 0
Logged fopen_ok name line filed r =
    (log : Log) × IsLog name log
    × (log.log_init ≡ true)
    × (r
        ≡ some (
            if fopen_ok name
            then record { log = log; stdout = line; file = some filed }
            else record { log = log; stdout = open_failed; file = none }))

ensure_path-IsLog :
    (file_time name : Text) (log : Log)
    → IsText file_time
    → IsLog name log
    → (log' : Log) × (ensure_path file_time log ≡ some log')
      × IsLog (destination file_time name log.log_init) log'
      × (log'.log_init ≡ true)
unfolding ensure_path
ensure_path-IsLog file_time name log t is_log = elim (Bool-cases log.log_init) [
  | inl set ↦ (
    log,
    ap
        (λ (b : Bool).
          if b then some log else ut_log_set_log_file_path file_time (codes "/tmp/") log)
        set,
    subst (λ (b : Bool). IsLog (destination file_time name b) log) (sym set) is_log,
    set,
  )
  | inr unset ↦
      let (log', e, on, array, named) =
        ut_log_set_log_file_path-Named file_time (codes "/tmp/") log t (omega arith) is_log.0 in
      (
        log',
        ap
              (λ (b : Bool).
                if b then some log else ut_log_set_log_file_path file_time (codes "/tmp/") log)
              unset
            ∙ e,
        subst (λ (b : Bool). IsLog (destination file_time name b) log') (sym unset) (array, named),
        on,
      )
]

stripped_lem :
    (line : Text) (b : List ℕ) → read_string b ≡ some line → stripped b ≡ some (visible false line)
unfolding stripped
stripped_lem line b reads =
    let (rest, e, t) = read_string-split b line reads in
    let (b', w, r) = strip_color_code-Reads line rest t in rw e (rw w r)

print_line-filed :
    (as_filed : List ℕ → Option Text) (line filed : Text) (buffer : List ℕ) (log : Log)
    → read_string buffer ≡ some line
    → as_filed buffer ≡ some filed
    → print_line as_filed buffer log ≡ some (record { log = log; stdout = line; file = some filed })
unfolding print_line
print_line-filed as_filed line filed buffer log reads files = rw (reads, files)

write_line-Logged :
    (as_filed : List ℕ → Option Text) (filed : Text → Text)
    → ((line : Text) (b : List ℕ) → read_string b ≡ some line → as_filed b ≡ some (filed line))
    → (file_time time : Text) (fopen_ok : Text → Bool) (header message name : Text) (log : Log)
    → IsText file_time
    → IsText header
    → IsText message
    → IsLog name log
    → Logged fopen_ok
        (destination file_time name log.log_init)
        (line_of header message)
        (filed (line_of header message))
        (write_line file_time time fopen_ok as_filed header message log)
unfolding write_line
write_line-Logged as_filed filed files file_time time fopen_ok header message name log t h m
      is_log =
    let (log', e, logs, on) = ensure_path-IsLog file_time name log t is_log in
    let line = line_of header message in
    let (b, w, reads) = single_line-Lined header message h m in
    (
      log',
      logs,
      on,
      rw e (
          rw (logs.1) (elim (Bool-cases (fopen_ok (destination file_time name log.log_init))) [
            | inl opened ↦ rw opened (
                rw w
                  (print_line-filed as_filed line (filed line) b log' reads (files line b reads)))
            | inr closed ↦ rw closed
          ])),
    )

number-IsText : (line : ℤ) → IsText (pad_left 6 (print_int line))
number-IsText line = pad_left-IsText 6 (print_int line) (print_int-IsText line)

log_header-IsText : (time : Text) (line : ℤ) → IsText time → IsText (log_header time line)
log_header-IsText time line t =
    format-All (λ c. 0 < c)
      (codes "\n"
        ∷ time
        ∷ codes ", "
        ∷ log_mark
        ∷ codes ", "
        ∷ pad_left 6 (print_int line)
        ∷ codes " : "
        ∷ [])
      (
        omega arith,
        (t, (omega arith, (omega arith, (omega arith, (number-IsText line, (omega arith, tt)))))),
      )

prefix_header-IsText :
    (time prefix' file_base : Text) (line : ℤ)
    → IsText time
    → IsText prefix'
    → IsText file_base
    → IsText (prefix_header time prefix' file_base line)
prefix_header-IsText time prefix' file_base line t p f =
    format-All (λ c. 0 < c)
      (codes "\n"
        ∷ time
        ∷ codes ", "
        ∷ pad_left 16 prefix'
        ∷ codes ", "
        ∷ file_base
        ∷ codes ","
        ∷ pad_left 6 (print_int line)
        ∷ codes " : "
        ∷ [])
      (
        omega arith,
        (
          t,
          (
            omega arith,
            (
              pad_left-IsText 16 prefix' p,
              (omega arith, (f, (omega arith, (number-IsText line, (omega arith, tt))))),
            ),
          ),
        ),
      )

-- Both calls set the log file in "/tmp/" where no path was set, and keep it else. Where the file can
-- be opened they print the line of the header and the message, and append it to the file, `ut_log_prefix`
-- without its colour codes; else they print that the file cannot be opened, and append nothing. No
-- array is left, whatever the lengths of the texts. The header of `ut_log` has the time, the mark LOG and
-- the line number; that of `ut_log_prefix` the time, the prefix, the file's base name and the line
-- number; neither has the name of the calling function.
pub lines-Logged :
    (file_time time : Text) (fopen_ok : Text → Bool) (line : ℤ)
    (prefix' file_base message name : Text) (log : Log)
    → IsText file_time
    → IsText time
    → IsText prefix'
    → IsText file_base
    → IsText message
    → IsLog name log
    → Logged fopen_ok
        (destination file_time name log.log_init)
        (line_of (log_header time line) message)
        (line_of (log_header time line) message)
        (ut_log file_time time fopen_ok line message log)
      × Logged fopen_ok
          (destination file_time name log.log_init)
          (line_of (prefix_header time prefix' file_base line) message)
          (visible false (line_of (prefix_header time prefix' file_base line) message))
          (ut_log_prefix file_time time fopen_ok file_base line prefix' message log)
unfolding ut_log ut_log_prefix
lines-Logged file_time time fopen_ok line prefix' file_base message name log tf t p f m is_log = (
  write_line-Logged read_string (λ l. l) (λ l b reads. reads) file_time time fopen_ok
      (log_header time line) message name log tf (log_header-IsText time line t) m is_log,
  write_line-Logged stripped (visible false) stripped_lem file_time time fopen_ok
      (prefix_header time prefix' file_base line) message name log tf
      (prefix_header-IsText time prefix' file_base line t p f) m is_log,
)
