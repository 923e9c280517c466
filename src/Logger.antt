-- ===== src/Logger.antt =====
-- `init_logger` and `msglog` of src/libs/logger/logger.c. The formatted message is a parameter of the
-- call, and so are the time and what the system answers.
pub mod Line
mod Tests
use geo_ns_core.Common.{
  ℕ, ◌+◌, ◌-◌, Bool, true, false, not, ◌&&◌, ◌||◌, List, [], ◌∷◌, ◌++◌, Option, none, some, ◌==◌,
  leb, if◌then◌else◌, length, take,
}
use geo_ns_core.Text.{Text, codes}
use geo_ns_core.Io.{System, is_directory_exists}
use geo_ns_core.Db.Connection.{max_sys_path_length}
use geo_ns_core.Http.Server.{get_cwd_path}

-- `unknown`: a number that is none of the five.
pub data LogType : Type 0 where
  debug info warning error fatal unknown : LogType

abbrev pub max_log_length : ℕ
max_log_length = 1024

abbrev pub max_log_pre_text_length : ℕ
max_log_pre_text_length = 32

-- The state of the logger, the directory of the program, and which directory can be made and which file
-- opens.
pub record Logger : Type 0 where
  pub is_io_initialized : Bool
  pub is_debugging : Bool
  pub cwd : Text
  pub log_file_name : Text
  pub current_time : Text
  pub makes_directory : Text → Bool
  pub opens : Text → Bool

-- `formatted` is what `strftime` writes for the time, as "%Y-%m-%d_%H-%M-%S.log".
unfoldable pub init_logger : Logger → Text → Logger
init_logger logger formatted =
    if logger.is_io_initialized then record logger { log_file_name = formatted } else logger

-- A message is left out, or its path overflows, or a call fails, or a line is appended to a file. The
-- Boolean says whether the directory was made on the way.
pub data Logged : Type 0 where
  left_out : Logged
  undefined_path : Logged
  no_directory : Logged
  no_file no_memory : Bool → Logged
  appended : Bool → Text → Text → Logged

unfoldable pub log_char : LogType → ℕ
log_char debug = b'D'
log_char info = b'I'
log_char warning = b'W'
log_char error = b'E'
log_char fatal = b'F'
log_char unknown = b'U'

abbrev pub is_debug : LogType → Bool
is_debug debug = true
is_debug _ = false

-- The message without a line end at its end.
unfoldable pub without_newline : Text → Text
without_newline [] = []
without_newline (c ∷ []) = if c == 10 then [] else c ∷ []
without_newline (c ∷ d ∷ text) = let rest = without_newline (d ∷ text) in c ∷ rest

-- The extra space is for the time and the type.
abbrev pub log_size : Text → ℕ
log_size buffer = max_log_pre_text_length + length buffer + 50

-- "%c\t[%s]\t%.*s\n", in `log_size` bytes.
unfoldable pub log_line : LogType → Text → Text → Text
unfolding log_char without_newline
log_line type current_time buffer =
    take (log_size buffer - 1)
      (log_char type ∷ 9 ∷ b'[' ∷ (current_time ++ b']' ∷ 9 ∷ (without_newline buffer ++ 10 ∷ [])))

abbrev pub log_directory : Text → Text
log_directory cwd = get_cwd_path cwd max_sys_path_length ++ codes "logs/"

-- The name is cut to what is left of the path's buffer.
abbrev pub log_file_path : Logger → Text
log_file_path logger =
    let directory = log_directory logger.cwd in
    directory ++ take (max_sys_path_length - length directory - 1) logger.log_file_name

-- What is left to do in the directory.
unfoldable pub append_line : System → Logger → Bool → LogType → Text → Logged
unfolding log_line get_cwd_path
append_line system logger made type buffer =
    if not (logger.opens (log_file_path logger))
    then no_file made
    else if not (system.has_memory (log_size buffer))
    then no_memory made
    else appended made (log_file_path logger) (log_line type logger.current_time buffer)

unfoldable pub log_in : System → Logger → LogType → Text → Logged
unfolding append_line is_directory_exists get_cwd_path
log_in system logger type buffer =
    let directory = log_directory logger.cwd in
    if leb max_sys_path_length (length directory)
    then undefined_path
    else if is_directory_exists system directory
    then append_line system logger false type buffer
    else if logger.makes_directory directory
    then append_line system logger true type buffer
    else no_directory

unfoldable pub msglog : System → Logger → LogType → Text → Logged
unfolding log_in
msglog system logger type message =
    if not logger.is_io_initialized
    then left_out
    else if is_debug type && not logger.is_debugging
    then left_out
    else log_in system logger type (take (max_log_length - 1) message)
