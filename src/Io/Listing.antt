-- ===== src/Io/Listing.antt =====
-- The page that lists a directory.
use geo_ns_core.Common.{
  ◌+◌, ◌≤◌, ◌<◌, ◌≡◌, ◌≢◌, refl, ◌∙◌, ap, sym, Bool, true, inl, inr, List, [], ◌∷◌, ◌++◌, Option,
  none, some, arith, ◌||◌, if◌then◌else◌, length, length-append, take, take_all, length-take, All,
  Bool-cases, append_assoc, append-nil,
}
use geo_ns_core.Text.{Text, codes, str_eq}
use geo_ns_core.Io.{
  System, link, entry_length, separator, ends_slash, text_of, listed, list_entries,
  get_directory_entries,
}

abbrev pub is_dot : Text → Bool
is_dot name = str_eq name (codes ".") || str_eq name (codes "..")

-- The links of all names but the two of the directory itself and its parent.
abbrev pub links : Text → List Text → Text
links uri [] = []
links uri (name ∷ names) = if is_dot name then links uri names else link uri name ++ links uri names

-- A name that its link has room for.
abbrev pub IsShortName : Text → Type 0
IsShortName name = length name ≤ 43

length-link :
    (uri name : Text)
    → length (link uri name) ≡ length uri + length (separator uri) + length name + length name + 20
length-link uri name = simp length-append (omega arith)

length-separator : (uri : Text) → length (separator uri) ≤ 1
length-separator uri = elim (Bool-cases (ends_slash uri)) [
  | inl e ↦ rw e (omega arith)
  | inr e ↦ rw e (omega arith)
]

whole_link :
    (uri name : Text)
    → IsShortName name
    → take (entry_length uri name) (link uri name) ≡ link uri name
whole_link uri name h =
    take_all (entry_length uri name) (link uri name)
      (omega (arith, length-link uri name, length-separator uri))

list_entries-links :
    (uri : Text) (names : List Text) (body : Option Text)
    → uri ≢ []
    → All IsShortName names
    → (out : Option Text) × (list_entries (λ n. true) uri names body ≡ listed out)
      × (text_of out ≡ text_of body ++ links uri names)
unfolding list_entries
list_entries-links [] names body ne h = absurd (ne refl)
list_entries-links (c ∷ uri) [] body ne h = (body, refl, sym (append-nil (text_of body)))
list_entries-links (c ∷ uri) (name ∷ names) body ne (hn, h) = elim (Bool-cases (is_dot name)) [
  | inl dot ↦
      let (out, e, t) = list_entries-links (c ∷ uri) names body ne h in (out, rw dot e, rw dot t)
  | inr other ↦
      let longer = text_of body ++ take (entry_length (c ∷ uri) name) (link (c ∷ uri) name) in
      let (out, e, t) = list_entries-links (c ∷ uri) names (some longer) ne h in
      (
        out,
        rw other e,
        t
            ∙ ap (λ l. (text_of body ++ l) ++ links (c ∷ uri) names) (whole_link (c ∷ uri) name hn)
            ∙ append_assoc (text_of body) (link (c ∷ uri) name) (links (c ∷ uri) names)
            ∙ rw other refl,
      )
]

-- With memory for it, the page of a directory that opens holds the links of all names but "." and
-- "..", in the order in which they are read, when no name exceeds 43 bytes and the URI is not empty.
pub get_directory_entries-links :
    (system : System) (path uri : Text) (names : List Text)
    → system.entries path ≡ some names
    → system.has_memory ≡ (λ n. true)
    → uri ≢ []
    → All IsShortName names
    → (out : Option Text) × (get_directory_entries system path uri ≡ listed out)
      × (text_of out ≡ links uri names)
get_directory_entries-links system path uri names opens memory ne h =
    unfold get_directory_entries in
    rw (opens, memory, get_directory_entries) (list_entries-links uri names none ne h)

-- The link of a name of more than 44 bytes is cut: it loses its end.
link_cut :
    (uri name : Text)
    → 44 < length name
    → length (take (entry_length uri name) (link uri name)) < length (link uri name)
link_cut uri name h =
    omega (arith, length-link uri name, length-take (entry_length uri name) (link uri name))
