-- ===== src/Io/Start.antt =====
-- `is_sproc_exists` and `init_io_system` of src/libs/io/io.c as they are compiled on Linux: the directory
-- of the program.
pub mod Directory
use mathlib.Core.Path.{subst}
use mathlib.Core.List.{reverse, reverse-cons, reverse-append, reverse-reverse}
use geo_ns_core.Common.{
  ℕ, ◌≡◌, ◌↔◌, refl, ◌∙◌, ap, sym, append_assoc, ◌<◌, Bool, true, false, List, [], ◌∷◌, ◌++◌,
  Option, none, some, ◌==◌, leb, if◌then◌else◌, length, drop, take, arith, All, inl, inr,
  Bool-cases,
}
use geo_ns_core.Text.{Text, codes, find}
use geo_ns_core.Io.{System, is_directory_exists, is_absolute_path}
use geo_ns_core.Db.Connection.{max_sys_path_length}

-- What the system answers: the link to the program in /proc, if it can be read, and the working
-- directory.
pub record Process : Type 0 where
  pub executable : Option Text
  pub working_directory : Option Text

unfoldable pub is_sproc_exists : System → Bool
unfolding is_directory_exists
is_sproc_exists system = is_directory_exists system (codes "/proc")

-- The loop from the end of the path, on the reversed text: it drops each character up to a slash. `none`:
-- there is no slash, and the index, which has no sign, goes on from 65535.
unfoldable pub drop_name : Text → Option Text
drop_name [] = none
drop_name (c ∷ path) = let rest = drop_name path in if c == b'/' then some (c ∷ path) else rest

abbrev pub forwards : Option Text → Option Text
forwards none = none
forwards (some path) = some (reverse path)

-- What the loop leaves of a path; one that fills `cwd` has no 0 at its end, which is undefined.
unfoldable pub directory_of : Text → Option Text
unfolding drop_name
directory_of path =
    if leb max_sys_path_length (length path) then none else forwards (drop_name (reverse path))

-- `cwd` stays empty where the system has no answer.
abbrev pub text_or_empty : Option Text → Text
text_or_empty none = []
text_or_empty (some text) = text

abbrev is_some : {A : Type 0} → Option A → Bool
is_some none = false
is_some (some x) = true

-- A relative path is set behind the working directory without its first character.
abbrev pub behind : Option Text → Text → Text
behind none exec_path = []
behind (some directory) exec_path = directory ++ drop 1 exec_path

-- The path without /proc, of the first argument.
abbrev pub path_of_argument : Process → Text → Text
path_of_argument process exec_path =
    if is_absolute_path (some exec_path)
    then exec_path
    else if is_some (find exec_path (codes "/"))
    then behind process.working_directory exec_path
    else []

-- `cwd` afterwards, or `none` for undefined behaviour.
unfoldable pub init_io_system : System → Process → Text → Option Text
unfolding is_sproc_exists directory_of find is_absolute_path
init_io_system system process exec_path = directory_of (
    if is_sproc_exists system
    then text_or_empty process.executable
    else path_of_argument process exec_path)
