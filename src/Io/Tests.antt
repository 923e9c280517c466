-- ===== src/Io/Tests.antt =====
-- The theorems on the file system at a concrete directory and a concrete process.
use geo_ns_core.Io.Exec.{Shell, exec, answered, overrun, max_sys_output_length}
use geo_ns_core.Io.Exec.Output.{exec-output}
use geo_ns_core.Common.{
  ◌≡◌, ◌↔◌, ◌++◌, leb, if◌then◌else◌, refl, arith, true, List, [], ◌∷◌, Option, none, some,
}
use geo_ns_core.Text.{Text, codes}
use geo_ns_core.Io.{System, FileKind, listed, get_directory_entries, text_of}
use geo_ns_core.Io.Start.{Process, directory_of}
use geo_ns_core.Io.Start.Directory.{IsName, directory_of-ends}
use geo_ns_core.Io.Listing.{links, get_directory_entries-links}

abbrev names : List Text
names = codes "." ∷ codes "a" ∷ codes "b.txt" ∷ []

abbrev system : System
system = record {
  kind = λ path. FileKind.directory;
  content = λ path. none;
  entries = λ path. some names;
  mime_type = λ path. none;
  has_memory = λ n. true;
}

get_directory_entries-links_example :
    (out : Option Text) × (get_directory_entries system (codes "/www/x") (codes "/x") ≡ listed out)
    × (text_of out ≡ links (codes "/x") names)
get_directory_entries-links_example =
    get_directory_entries-links system (codes "/www/x") (codes "/x") names refl refl (λ e. cc)
      (omega arith)

abbrev process : Process
process = record { executable = some (codes "/opt/geons"); working_directory = none }

directory_of-ends_example : (directory_of (codes "/opt/geons") ≡ none) ↔ IsName (codes "/opt/geons")
directory_of-ends_example = directory_of-ends (codes "/opt/geons") (omega arith)

-- A shell that answers every command with one line.
abbrev shell : Shell
shell = record { has_memory = true; popen = λ command. some (codes "up" ++ 10 ∷ []); closes = true }

exec-output_example :
    exec shell (codes "uptime")
    ≡ (if leb max_sys_output_length 3 then overrun else answered (some (codes "up" ++ 10 ∷ [])))
exec-output_example =
    exec-output shell (codes "uptime") (codes "up" ++ 10 ∷ []) refl refl
      ((λ e. omega arith), ((λ e. omega arith), ((λ e. omega arith), tt)))
