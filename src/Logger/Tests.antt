-- ===== src/Logger/Tests.antt =====
-- The line of a message, for a logger that makes its directory.
use geo_ns_core.Common.{◌≡◌, refl, true, [], ◌∷◌, ◌++◌, false, none, arith}
use geo_ns_core.Text.{codes}
use geo_ns_core.Io.{System, missing}
use geo_ns_core.Http.Server.{get_cwd_path}
use geo_ns_core.Io.{is_directory_exists}
use geo_ns_core.Logger.{Logger, warning, appended, log_char, msglog, log_file_path}
use geo_ns_core.Logger.Line.{msglog-line}

abbrev system : System
system = record {
  kind = λ path. missing;
  content = λ path. none;
  entries = λ path. none;
  mime_type = λ path. none;
  has_memory = λ n. true;
}

abbrev logger : Logger
logger = record {
  is_io_initialized = true;
  is_debugging = false;
  cwd = codes "/opt/";
  log_file_name = codes "2025-02-01_10-00-00.log";
  current_time = codes "2025/02/01 - 10:00:00";
  makes_directory = λ path. true;
  opens = λ path. true;
}

msglog-line_example :
    msglog system logger warning (codes "No init node." ++ 10 ∷ [])
    ≡ appended true (log_file_path logger) (
        log_char warning
        ∷ 9
        ∷ b'['
        ∷ (logger.current_time ++ b']' ∷ 9 ∷ (codes "No init node." ++ 10 ∷ [])))
unfolding is_directory_exists get_cwd_path
msglog-line_example =
    msglog-line system logger warning (codes "No init node.") true refl refl (omega arith) refl refl
      refl (omega arith) (omega arith) refl
