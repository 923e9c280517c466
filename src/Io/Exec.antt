-- ===== src/Io/Exec.antt =====
-- `exec` of src/libs/io/io.c: the output of a command.
pub mod Output
use geo_ns_core.Common.{
  ℕ, zero, suc, ◌+◌, ◌-◌, Bool, true, false, List, [], ◌∷◌, ◌++◌, Option, none, some, ◌==◌, leb,
  if◌then◌else◌, length, take,
}
use geo_ns_core.Text.{Text}

abbrev pub max_sys_output_length : ℕ
max_sys_output_length = 8192

abbrev pub max_sys_output_chunk_size : ℕ
max_sys_output_chunk_size = 256

abbrev pub max_sys_command_length_per_exec : ℕ
max_sys_command_length_per_exec = 1024

-- What `exec` asks for: memory for the output, what a command that starts puts out, and whether `pclose`
-- succeeds.
pub record Shell : Type 0 where
  pub has_memory : Bool
  pub popen : Text → Option (List ℕ)
  pub closes : Bool

-- A write behind the end of the output, or the answer of `exec`; `none` is the null pointer.
pub data Result : Type 0 where
  overrun : Result
  answered : Option Text → Result

-- `fgets` with room for so many bytes and a 0: the bytes up to the end of a line, and what is left.
unfoldable pub fgets : ℕ → List ℕ → List ℕ × List ℕ
fgets zero stream = ([], stream)
fgets (suc room) [] = ([], [])
fgets (suc room) (c ∷ stream) =
    let (line, rest) = fgets room stream in if c == 10 then (c ∷ [], stream) else (c ∷ line, rest)

-- `strcat` takes a chunk up to its first 0.
unfoldable pub up_to_nul : List ℕ → Text
up_to_nul [] = []
up_to_nul (c ∷ chunk) = if c == 0 then [] else c ∷ up_to_nul chunk

-- `strcat(result, buffer)`; `none`: there is no room for it and its 0.
unfoldable pub add_chunk : Text → List ℕ → Option Text
unfolding up_to_nul
add_chunk result chunk =
    let all = result ++ up_to_nul chunk in
    if leb max_sys_output_length (length all) then none else some all

abbrev pub and_then : Option Text → (Text → Option Text) → Option Text
and_then none next = none
and_then (some text) next = next text

-- The loop, which ends where `fgets` finds nothing more. Its fuel is the length of the output and one
-- more; `none` as the answer of the loop is a write behind the end.
unfoldable pub read_output : ℕ → Text → List ℕ → Option Text
read_output zero result stream = some result
read_output (suc fuel) result [] = some result
read_output (suc fuel) result (c ∷ stream) =
    let (chunk, rest) = fgets (max_sys_output_chunk_size - 1) (c ∷ stream) in
    and_then (add_chunk result chunk) (λ all. read_output fuel all rest)

abbrev pub closed_output : Bool → Option Text → Result
closed_output closes none = overrun
closed_output closes (some output) = answered (if closes then some output else none)

abbrev pub run_command : Shell → Option (List ℕ) → Result
run_command shell none = answered none
run_command shell (some stream) =
    closed_output shell.closes (read_output (length stream + 1) [] stream)

-- `text` is the formatted command, which is cut to its buffer.
unfoldable pub exec : Shell → Text → Result
exec shell text =
    if shell.has_memory
    then run_command shell (shell.popen (take (max_sys_command_length_per_exec - 1) text))
    else answered none
