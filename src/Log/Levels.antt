-- ===== src/Log/Levels.antt =====
-- include/ut_log.h: the macros that call UT_logPrefix with a coloured prefix.
pub mod Filed
use ut_control.Base.{ℕ, Bool, Option, List, [], ◌∷◌, ◌++◌}
use ut_control.Base.Int.{ℤ}
use ut_control.CString.{Text}
use ut_control.CString.Literal.{codes}
use ut_control.Log.{escape}
use ut_control.Log.Line.{Log, Written, ut_log_prefix}

-- UT_LOG, UT_LOG_STEP, UT_LOG_INFO, UT_LOG_DEBUG, UT_LOG_WARNING and UT_LOG_ERROR
pub data Level : Type 0 where
  basic step info debug warning error : Level

abbrev pub colour : Level → Text
colour basic = escape ∷ codes "[0;35m"
colour step = escape ∷ codes "[0;34m"
colour info = escape ∷ codes "[0;36m"
colour debug = escape ∷ codes "[0;35m"
colour warning = escape ∷ codes "[0;33m"
colour error = escape ∷ codes "[0;31m"

abbrev pub word : Level → Text
word basic = codes "LOG   "
word step = codes "STEP  "
word info = codes "INFO  "
word debug = codes "DEBUG "
word warning = codes "WARN  "
word error = codes "ERROR "

-- UT_LOG_ASCII_NC
abbrev pub no_colour : Text
no_colour = escape ∷ codes "[0m"

abbrev pub level_prefix : Level → Text
level_prefix level = colour level ++ (word level ++ no_colour)

-- The file and the line are those of the call, `file_base` is the base name of the file.
unfoldable pub log_at :
    Level
    → (file_time time : Text) (fopen_ok : Text → Bool) (file_base : Text) (line : ℤ)
      (message : Text)
    → Log
    → Option Written
log_at level file_time time fopen_ok file_base line message state =
    ut_log_prefix file_time time fopen_ok file_base line (level_prefix level) message state
