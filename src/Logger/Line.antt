-- ===== src/Logger/Line.antt =====
-- The line of a message.
use geo_ns_core.Common.{
  Bool, ◌==◌, ap, ◌∙◌, ◌+◌, ◌-◌, ◌≤◌, ◌<◌, ◌≡◌, refl, true, false, not, ◌&&◌, ◌||◌, [], ◌∷◌, ◌++◌,
  leb, length, take, take_all, length-append, arith, Bool-cases, inl, inr,
}
use geo_ns_core.Text.{Text}
use geo_ns_core.Io.{System, is_directory_exists}
use geo_ns_core.Db.Connection.{max_sys_path_length}
use geo_ns_core.Logger.{
  LogType, Logger, appended, max_log_length, log_char, is_debug, without_newline, log_size,
  log_line, log_directory, log_file_path, append_line, log_in, msglog,
}

length-without_newline : (text : Text) → length (without_newline text) ≤ length text
unfolding without_newline
length-without_newline [] = omega arith
length-without_newline (c ∷ []) = ground arith
length-without_newline (c ∷ d ∷ text) = omega (arith, length-without_newline (d ∷ text))

-- The line before it is cut.
abbrev pub whole_line : LogType → Text → Text → Text
whole_line type current_time buffer =
    log_char type ∷ 9 ∷ b'[' ∷ (current_time ++ b']' ∷ 9 ∷ (without_newline buffer ++ 10 ∷ []))

log_line-whole :
    (type : LogType) (current_time buffer : Text)
    → length current_time < 22
    → log_line type current_time buffer ≡ whole_line type current_time buffer
unfolding log_line
log_line-whole type current_time buffer short =
    take_all (log_size buffer - 1) (whole_line type current_time buffer) (
      omega (
        arith,
        length-append current_time (b']' ∷ 9 ∷ (without_newline buffer ++ 10 ∷ [])),
        length-append (without_newline buffer) (10 ∷ []),
        length-without_newline buffer,
      ))

msglog-appended :
    (system : System) (logger : Logger) (type : LogType) (message : Text)
    → logger.is_io_initialized ≡ true
    → (is_debug type && not logger.is_debugging) ≡ false
    → length (log_directory logger.cwd) < max_sys_path_length
    → (is_directory_exists system (log_directory logger.cwd)
        || logger.makes_directory (log_directory logger.cwd))
      ≡ true
    → logger.opens (log_file_path logger) ≡ true
    → system.has_memory (log_size (take (max_log_length - 1) message)) ≡ true
    → length logger.current_time < 22
    → msglog system logger type message
      ≡ appended
          (not (is_directory_exists system (log_directory logger.cwd)))
          (log_file_path logger)
          (whole_line type logger.current_time (take (max_log_length - 1) message))
msglog-appended system logger type message initialized shown short there opens memory time =
    let buffer = take (max_log_length - 1) message in
    let fits : leb max_sys_path_length (length (log_directory logger.cwd)) ≡ false = ground arith in
    let line = log_line-whole type logger.current_time buffer time in
    elim (Bool-cases (is_directory_exists system (log_directory logger.cwd))) [
      | inl exists ↦
          unfold msglog in
          rw (initialized, shown)
            (unfold log_in in
              rw (fits, exists) (unfold append_line in rw (opens, memory, line) refl))
      | inr missing ↦
          let makes : logger.makes_directory (log_directory logger.cwd) ≡ true =
            rw missing at there in
          unfold msglog in
          rw (initialized, shown)
            (unfold log_in in
              rw (fits, missing, makes) (unfold append_line in rw (opens, memory, line) refl))
    ]

abbrev pub ends_line : Text → Bool
ends_line [] = false
ends_line (c ∷ []) = c == 10
ends_line (c ∷ d ∷ text) = ends_line (d ∷ text)

abbrev pub line_end : Bool → Text
line_end true = 10 ∷ []
line_end false = []

without_newline-line_end :
    (text : Text) (newline : Bool)
    → ends_line text ≡ false
    → without_newline (text ++ line_end newline) ≡ text
unfolding without_newline
without_newline-line_end [] true h = refl
without_newline-line_end [] false h = refl
without_newline-line_end (c ∷ []) true h = refl
without_newline-line_end (c ∷ []) false h = rw h refl
without_newline-line_end (c ∷ d ∷ text) newline h =
    ap (λ t. c ∷ t) (without_newline-line_end (d ∷ text) newline h)

length-line_end : (newline : Bool) → length (line_end newline) ≤ 1
length-line_end true = omega arith
length-line_end false = omega arith

-- A message that is to be shown, with or without a line end behind it, is appended to the file of the log,
-- once the directory is there or has been made, the file opens, there is memory, and the path, the time
-- and the message fit: the letter of its type, the time, the message and one line end.
pub msglog-line :
    (system : System) (logger : Logger) (type : LogType) (text : Text) (newline : Bool)
    → logger.is_io_initialized ≡ true
    → (is_debug type && not logger.is_debugging) ≡ false
    → length (log_directory logger.cwd) < max_sys_path_length
    → (is_directory_exists system (log_directory logger.cwd)
        || logger.makes_directory (log_directory logger.cwd))
      ≡ true
    → logger.opens (log_file_path logger) ≡ true
    → system.has_memory (log_size (text ++ line_end newline)) ≡ true
    → length logger.current_time < 22
    → length text + 1 < max_log_length
    → ends_line text ≡ false
    → msglog system logger type (text ++ line_end newline)
      ≡ appended
          (not (is_directory_exists system (log_directory logger.cwd)))
          (log_file_path logger)
          (log_char type ∷ 9 ∷ b'[' ∷ (logger.current_time ++ b']' ∷ 9 ∷ (text ++ 10 ∷ [])))
msglog-line system logger type text newline initialized shown short there opens memory time fits
      plain =
    let whole : take (max_log_length - 1) (text ++ line_end newline) ≡ text ++ line_end newline =
      take_all (max_log_length - 1) (text ++ line_end newline)
        (omega (arith, length-append text (line_end newline), length-line_end newline)) in
    msglog-appended system logger type (text ++ line_end newline) initialized shown short there
      opens (ap (λ b. system.has_memory (log_size b)) whole ∙ memory) time
    ∙ rw (whole, without_newline-line_end text newline plain) refl
