-- ===== src/Io.antt =====
-- src/libs/io/io.c and `get_mime_type` of src/libs/http/http.c: what the program asks of the file
-- system. `System` is what the system answers. Start has the path of the program, Exec the output of a
-- command.
pub mod Listing
pub mod Start
pub mod Exec
mod Tests
use geo_ns_core.Common.{
  ℕ, suc, ◌+◌, Bool, true, false, List, [], ◌∷◌, ◌++◌, Option, none, some, ◌==◌, ◌||◌,
  if◌then◌else◌, length, take,
}
use geo_ns_core.Text.{Text, codes, str_eq}

-- What `stat` says of a path.
pub data FileKind : Type 0 where
  missing regular directory special : FileKind

-- `content`: the bytes of a file that opens. `entries`: the names of a directory that opens, in the
-- order in which they are read. `mime_type`: what libmagic makes of a file. `has_memory`: whether
-- memory of a size is given.
pub record System : Type 0 where
  pub kind : Text → FileKind
  pub content : Text → Option (List ℕ)
  pub entries : Text → Option (List Text)
  pub mime_type : Text → Option Text
  pub has_memory : ℕ → Bool

-- `none` is a null pointer.
unfoldable pub is_absolute_path : Option Text → Bool
is_absolute_path none = false
is_absolute_path (some []) = false
is_absolute_path (some (c ∷ path)) = c == b'/'

abbrev pub is_regular : FileKind → Bool
is_regular regular = true
is_regular _ = false

abbrev pub is_directory : FileKind → Bool
is_directory directory = true
is_directory _ = false

unfoldable pub is_file_exist : System → Text → Bool
is_file_exist system file_path = is_regular (system.kind file_path)

unfoldable pub is_directory_exists : System → Text → Bool
is_directory_exists system path = is_directory (system.kind path)

-- The answer -1 is `none`.
abbrev kind_answer : FileKind → Option Bool
kind_answer missing = none
kind_answer regular = some false
kind_answer directory = some true
kind_answer special = some false

unfoldable pub is_directory_path : System → Text → Option Bool
is_directory_path system path = kind_answer (system.kind path)

-- A file that does not open has the size 0.
abbrev size_of_content : Option (List ℕ) → ℕ
size_of_content none = 0
size_of_content (some bytes) = length bytes

unfoldable pub get_file_size : System → Text → ℕ
get_file_size system file_path = size_of_content (system.content file_path)

-- `uri[strlen(uri) - 1] == '/'`; the URI is not empty.
abbrev pub ends_slash : Text → Bool
ends_slash [] = false
ends_slash (c ∷ []) = c == b'/'
ends_slash (c ∷ d ∷ uri) = ends_slash (d ∷ uri)

abbrev pub separator : Text → Text
separator uri = if ends_slash uri then [] else codes "/"

-- "<a href=\"%s%s%s\">%s</a><br>\n"
abbrev pub link : Text → Text → Text
link uri name =
    codes "<a href=\""
    ++ (uri
        ++ (separator uri ++ (name ++ (codes "\">" ++ (name ++ (codes "</a><br>" ++ 10 ∷ []))))))

abbrev pub entry_length : Text → Text → ℕ
entry_length uri name = length name + length uri + 64

-- The result of a listing: the code reads in front of an empty URI, or answers 0, or 1 with the body.
pub data DirectoryPage : Type 0 where
  undefined failed : DirectoryPage
  listed : Option Text → DirectoryPage

abbrev pub text_of : Option Text → Text
text_of none = []
text_of (some text) = text

-- The loop over the entries. `size` is `*body_size`.
unfoldable pub list_entries : (ℕ → Bool) → Text → List Text → Option Text → DirectoryPage
unfolding str_eq
list_entries has_memory uri [] body = listed body
list_entries has_memory uri (name ∷ names) body =
    let skipped = list_entries has_memory uri names body in
    let longer = text_of body ++ take (entry_length uri name) (link uri name) in
    let rest = list_entries has_memory uri names (some longer) in
    if str_eq name (codes ".") || str_eq name (codes "..")
    then skipped
    else if has_memory (length (text_of body) + entry_length uri name + 1)
    then (elim uri [ [] ↦ undefined | _ ∷ _ ↦ rest ])
    else failed

unfoldable pub get_directory_entries : System → Text → Text → DirectoryPage
unfolding list_entries
get_directory_entries system file_path uri = elim (system.entries file_path) [
  | none ↦ failed
  | some names ↦ list_entries system.has_memory uri names none
]

-- `none` is a null pointer.
unfoldable pub get_mime_type : System → Text → Option Text
get_mime_type system file_path = system.mime_type file_path
