-- ===== src/Io/Start/Directory.antt =====
-- The directory of the program, as it is cut from its path.
use mathlib.Core.Path.{subst}
use mathlib.Core.List.{reverse, reverse-cons, reverse-append, reverse-reverse}
use geo_ns_core.Common.{
  ◌≡◌, ◌↔◌, refl, ◌∙◌, ap, sym, append_assoc, ◌<◌, true, false, [], ◌∷◌, ◌++◌, Option, none, some,
  ◌==◌, leb, length, arith, All, inl, inr, Bool-cases,
}
use geo_ns_core.Text.{Text}
use geo_ns_core.Io.{System}
use geo_ns_core.Db.Connection.{max_sys_path_length}
use geo_ns_core.Io.Start.{
  Process, is_sproc_exists, drop_name, forwards, directory_of, init_io_system,
}

-- No character is a slash.
abbrev pub IsName : Text → Type 0
IsName name = All (λ c. (c == b'/') ≡ false) name

drop_name-append :
    (name rest : Text) → IsName name → drop_name (name ++ b'/' ∷ rest) ≡ some (b'/' ∷ rest)
unfolding drop_name
drop_name-append [] rest h = refl
drop_name-append (c ∷ name) rest (other, h) = rw other (drop_name-append name rest h)

IsName-append : (a b : Text) → IsName a → IsName b → IsName (a ++ b)
IsName-append [] b h k = k
IsName-append (c ∷ a) b (other, h) k = (other, IsName-append a b h k)

IsName-reverse : (name : Text) → IsName name → IsName (reverse name)
IsName-reverse [] h = tt
IsName-reverse (c ∷ name) (other, h) =
    subst IsName (sym (reverse-cons c name))
      (IsName-append (reverse name) (c ∷ []) (IsName-reverse name h) (other, tt))

reverse-path :
    (directory name : Text)
    → reverse (directory ++ b'/' ∷ name) ≡ reverse name ++ b'/' ∷ reverse directory
reverse-path directory name =
    reverse-append directory (b'/' ∷ name)
    ∙ ap (λ t. t ++ reverse directory) (reverse-cons b'/' name)
    ∙ append_assoc (reverse name) (b'/' ∷ []) (reverse directory)

-- Where /proc is there, the directory of the program is what stands in front of its name, with the slash,
-- if the path fits.
init_io_system-directory :
    (system : System) (process : Process) (exec_path directory name : Text)
    → is_sproc_exists system ≡ true
    → process.executable ≡ some (directory ++ b'/' ∷ name)
    → IsName name
    → length (directory ++ b'/' ∷ name) < max_sys_path_length
    → init_io_system system process exec_path ≡ some (directory ++ b'/' ∷ [])
init_io_system-directory system process exec_path directory name proc link h short =
    let fits : leb max_sys_path_length (length (directory ++ b'/' ∷ name)) ≡ false = ground arith in
    unfold init_io_system in
    rw (proc, link)
      (unfold directory_of in
        rw
          (
            fits,
            reverse-path directory name,
            drop_name-append (reverse name) (reverse directory) (IsName-reverse name h),
          )
          (ap some (
            reverse-cons b'/' (reverse directory)
            ∙ ap (λ t. t ++ b'/' ∷ []) (reverse-reverse directory))))

drop_name-ends : (path : Text) → (drop_name path ≡ none) ↔ IsName path
unfolding drop_name
drop_name-ends [] = (λ e. tt, λ h. refl)
drop_name-ends (c ∷ path) = elim (Bool-cases (c == b'/')) [
  | inl slash ↦ rw slash (λ e. cc, λ h. cc)
  | inr other ↦ rw other (λ e. (refl, (drop_name-ends path).0 e), λ h. (drop_name-ends path).1 h.1)
]

forwards-none : (path : Option Text) → (forwards path ≡ none) ↔ (path ≡ none)
forwards-none none = (λ e. refl, λ e. refl)
forwards-none (some path) = (λ e. cc, λ e. cc)

-- The loop that cuts the name from a path that fits `cwd` comes to an end within the path, unless no
-- character of the path is a slash: then, and only then, it runs out of the buffer.
pub directory_of-ends :
    (path : Text) → length path < max_sys_path_length → (directory_of path ≡ none) ↔ IsName path
directory_of-ends path short =
    let fits : leb max_sys_path_length (length path) ≡ false = ground arith in
    unfold directory_of in
    rw fits (
      (λ e. subst IsName (reverse-reverse path) (
          IsName-reverse (reverse path)
            ((drop_name-ends (reverse path)).0 ((forwards-none (drop_name (reverse path))).0 e)))),
      λ h.
          (forwards-none (drop_name (reverse path))).1
            ((drop_name-ends (reverse path)).1 (IsName-reverse path h)),
    )
