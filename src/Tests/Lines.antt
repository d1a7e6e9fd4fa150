-- ===== src/Tests/Lines.antt =====
-- Lines of the log, and the file that they go to.
use ut_control.Base.{[], ◌∷◌, ◌++◌, arith, refl, true, false}
use ut_control.Base.Int.{pos}
use ut_control.CString.Literal.{codes}
use ut_control.CString.Buffer.{read_string}
use ut_control.Log.Line.{
  initial_log, log_header, prefix_header, ut_log_set_log_file_path, ut_log_get_log_filename, ut_log,
  ut_log_prefix,
}
use ut_control.Log.Line.FileName.{Named, ut_log_set_log_file_path-Named}
use ut_control.Log.Line.Single.{line_of}
use ut_control.Log.Line.Output.{IsLog, Logged, lines-Logged}
use ut_control.CString.{Text}
use ut_control.Log.{strip_color_code, escape}
use ut_control.Log.Levels.{info, log_at}
use ut_control.Log.Levels.Filed.{coloured_line, plain_line, log_at-Logged}
use ut_control.CString.Print.{pad_left, print_int}
use ut_control.Log.Strip.{Reads, visible, strip_color_code-Reads}

-- An escape, "[m" and "a", and what an earlier line has left behind the NUL.
abbrev coloured : Text
coloured = escape ∷ b'[' ∷ b'm' ∷ b'a' ∷ []

strip_color_code-Reads_example : Reads (b'a' ∷ []) (strip_color_code 6 (coloured ++ 0 ∷ b'z' ∷ []))
unfolding visible
strip_color_code-Reads_example =
    strip_color_code-Reads coloured (b'z' ∷ [])
      (omega arith, (omega arith, (omega arith, (omega arith, tt))))

abbrev file_time : Text
file_time = codes "2024-01-02_030405"

ut_log_set_log_file_path-Named_example :
    Named file_time (codes "logs") (ut_log_set_log_file_path file_time (codes "logs") initial_log)
ut_log_set_log_file_path-Named_example =
    ut_log_set_log_file_path-Named file_time (codes "logs") initial_log (omega arith) (omega arith)
      refl

initial_log-IsLog : IsLog [] initial_log
unfolding read_string ut_log_get_log_filename
initial_log-IsLog = (refl, refl)

abbrev time : Text
time = codes "2024-01-02-03:04:05"

abbrev tmp_name : Text
tmp_name = codes "/tmp/ut-log_2024-01-02_030405.log"

-- The first lines of a log, at line 7 of "main.c".
lines-Logged_example :
    Logged
      (λ name. true)
      tmp_name
      (line_of (log_header time (pos 7)) (codes "hello"))
      (line_of (log_header time (pos 7)) (codes "hello"))
      (ut_log file_time time (λ name. true) (pos 7) (codes "hello") initial_log)
    × Logged
        (λ name. true)
        tmp_name
        (line_of (prefix_header time (codes "INFO") (codes "main.c") (pos 7)) (codes "hello"))
        (visible false
          (line_of (prefix_header time (codes "INFO") (codes "main.c") (pos 7)) (codes "hello")))
        (ut_log_prefix file_time time
          (λ name. true)
          (codes "main.c")
          (pos 7)
          (codes "INFO")
          (codes "hello")
          initial_log)
lines-Logged_example =
    lines-Logged file_time time (λ name. true) (pos 7) (codes "INFO") (codes "main.c")
      (codes "hello") [] initial_log (omega arith) (omega arith) (omega arith) (omega arith)
      (omega arith) initial_log-IsLog

-- UT_LOG_INFO("hello") at line 7 of "main.c".
log_at-Logged_example :
    Logged
      (λ name. true)
      tmp_name
      (coloured_line info time (codes "main.c") (pos 7) (codes "hello"))
      (plain_line info time (codes "main.c") (pos 7) (codes "hello"))
      (log_at info file_time time
        (λ name. true)
        (codes "main.c")
        (pos 7)
        (codes "hello")
        initial_log)
unfolding pad_left print_int
log_at-Logged_example =
    log_at-Logged info file_time time (λ name. true) (codes "main.c") (pos 7) (codes "hello") []
      initial_log (omega arith) (omega arith) (omega arith) (omega arith) initial_log-IsLog
      (ground arith) (ground arith) (ground arith) (omega arith)
