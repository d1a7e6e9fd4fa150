-- ===== src/Log/Line.antt =====
-- src/ut_log.c: UT_log_setLogFilePath, UT_log_getLogFilename, UT_log and UT_logPrefix.
pub mod FileName
pub mod Single
pub mod Output
use ut_control.Base.{
  ℕ, zero, suc, ◌+◌, ◌-◌, ◌%◌, ◌^◌, Bool, true, false, Option, none, some, List, [], ◌∷◌, ◌++◌,
  ◌==◌, if◌then◌else◌, get_elem?, ◌>>=◌, length, replicate,
}
use ut_control.Base.Int.{ℤ}
use ut_control.CString.{Text}
use ut_control.CString.Buffer.{read_string}
use ut_control.CString.Print.{format, snprintf, print_int, pad_left}
use ut_control.CString.Literal.{codes}
use ut_control.Log.{escape, strip_color_code}

-- UT_LOG_MAX_LINE_SIZE, UT_LOG_MAX_PATH
abbrev pub max_line_size : ℕ
max_line_size = 255

abbrev pub max_path : ℕ
max_path = 260

-- gLogFileName and gLogInit
pub record Log : Type 0 where
  pub log_file_name : List ℕ
  pub log_init : Bool

abbrev pub initial_log : Log
initial_log = record { log_file_name = replicate max_path 0; log_init = false }

-- inputFilePath[length-1]; `none` is a read in front of the string.
abbrev pub last_char : Text → Option ℕ
last_char [] = none
last_char (c ∷ cs) = get_elem? (c ∷ cs) (length cs)

-- "ut-log_%s.log"
abbrev pub log_name : Text → Text
log_name time = codes "ut-log_" ++ (time ++ codes ".log")

-- `file_time` is what strftime leaves in `time_now`.
unfoldable pub ut_log_set_log_file_path : (file_time : Text) → Text → Log → Option Log
ut_log_set_log_file_path file_time input_file_path log = do
  c ← last_char input_file_path
  name ← snprintf log.log_file_name 0 max_path (
      if c == b'/'
      then input_file_path ++ log_name file_time
      else input_file_path ++ b'/' ∷ log_name file_time)
  some (record { log_file_name = name; log_init = true })

unfoldable pub ut_log_get_log_filename : Log → Option Text
ut_log_get_log_filename log = read_string log.log_file_name

-- UT_LOG_DEFAULT_PATH
abbrev default_path : Text
default_path = codes "/tmp/"

pub ensure_path : (file_time : Text) → Log → Option Log
ensure_path file_time log =
    if log.log_init then some log else ut_log_set_log_file_path file_time default_path log

-- The line in `singleLineBuffer`, from what the two calls print: the header is printed at its front
-- and the message behind it. The size of the second call is a `size_t`.
unfoldable pub single_line : (header message : Text) → Option (List ℕ)
single_line header message = do
  first ← snprintf (replicate (max_line_size + 1) 0) 0 max_line_size header
  shown ← read_string first
  snprintf first (length shown) ((max_line_size + 2 ^ 64 - length shown - 1) % 2 ^ 64) message

-- What a call prints to stdout and appends to the file, where the file can be opened.
pub record Written : Type 0 where
  pub log : Log
  pub stdout : Text
  pub file : Option Text

-- printf("\nUnable to open file for logging...")
abbrev pub open_failed : Text
open_failed = codes "\nUnable to open file for logging..."

-- UT_LOG_ASCII_MAGENTA"LOG   "UT_LOG_ASCII_NC
abbrev pub log_mark : Text
log_mark = escape ∷ (codes "[0;35mLOG   " ++ escape ∷ codes "[0m")

-- "\n%s, %s, %6d : "
abbrev pub log_header : Text → ℤ → Text
log_header time line = format (
    codes "\n"
    ∷ time
    ∷ codes ", "
    ∷ log_mark
    ∷ codes ", "
    ∷ pad_left 6 (print_int line)
    ∷ codes " : "
    ∷ [])

-- "\n%s, %*s, %s,%6d : ", where the width is 16
abbrev pub prefix_header : Text → Text → Text → ℤ → Text
prefix_header time prefix' file_base line = format (
    codes "\n"
    ∷ time
    ∷ codes ", "
    ∷ pad_left 16 prefix'
    ∷ codes ", "
    ∷ file_base
    ∷ codes ","
    ∷ pad_left 6 (print_int line)
    ∷ codes " : "
    ∷ [])

-- The colour codes are taken out in the array, between the two prints.
pub stripped : List ℕ → Option Text
stripped buffer = strip_color_code (length buffer) buffer >>= read_string

-- From the line in its array to the output; `as_filed` is what the file gets of it.
pub print_line : (as_filed : List ℕ → Option Text) → List ℕ → Log → Option Written
print_line as_filed buffer log = do
  shown ← read_string buffer
  filed ← as_filed buffer
  some (record { log = log; stdout = shown; file = some filed })

-- strftime leaves `file_time` and `time` in their arrays, `message` is what the format and the
-- arguments print, and `fopen_ok` says whether a file of this name can be opened to append.
module _ (file_time time : Text) (fopen_ok : Text → Bool) where
  pub write_line :
      (as_filed : List ℕ → Option Text) → (header message : Text) → Log → Option Written
  unfolding ensure_path print_line
  write_line as_filed header message log = do
    log' ← ensure_path file_time log
    name ← ut_log_get_log_filename log'
    if fopen_ok name
        then (single_line header message >>= λ buffer. print_line as_filed buffer log')
        else some (record { log = log'; stdout = open_failed; file = none })

  -- UT_log, whose `function` is not printed.
  unfoldable pub ut_log : (line : ℤ) → (message : Text) → Log → Option Written
  unfolding write_line
  ut_log line message log = write_line read_string (log_header time line) message log

  -- UT_logPrefix; `file_base` is basename(file).
  unfoldable pub ut_log_prefix :
      (file_base : Text) (line : ℤ) (prefix' : Text) → (message : Text) → Log → Option Written
  unfolding write_line stripped
  ut_log_prefix file_base line prefix' message log =
      write_line stripped (prefix_header time prefix' file_base line) message log
