-- ===== src/Text.antt =====
-- C strings and the part of <string.h> and <ctype.h> that the program calls. A `char *` is the list
-- of its bytes in front of the terminating 0.
pub mod Laws
pub mod Tokens
pub mod Find
pub mod Decimal
pub mod Strtol
mod Tests
use Prim.Native.Char.{code}
use Prim.Native.String.{String}
use geo_ns_core.Common.{
  ℕ, zero, suc, ◌+◌, ◌-◌, Bool, true, false, ◌&&◌, List, [], ◌∷◌, ◌++◌, map, Option, none, some,
  leb, ◌==◌, if◌then◌else◌, length, All, ◌≢◌,
}

abbrev pub Text : Type 0
Text = List ℕ

-- The bytes of a C string, in front of its 0.
abbrev pub HasNoNul : Text → Type 0
HasNoNul text = All (λ c. c ≢ 0) text

-- The bytes of a literal.
abbrev pub codes : String → Text
codes String.[] = []
codes (String.◌∷◌ c s) = code c ∷ codes s

-- `strcmp(a, b) == 0`
unfoldable pub str_eq : Text → Text → Bool
str_eq [] [] = true
str_eq [] (y ∷ ys) = false
str_eq (x ∷ xs) [] = false
str_eq (x ∷ xs) (y ∷ ys) = x == y && str_eq xs ys

-- `strncmp(a, b, n) == 0`
unfoldable pub strn_eq : ℕ → Text → Text → Bool
strn_eq zero _ _ = true
strn_eq (suc n) [] [] = true
strn_eq (suc n) [] (y ∷ ys) = false
strn_eq (suc n) (x ∷ xs) [] = false
strn_eq (suc n) (x ∷ xs) (y ∷ ys) = x == y && strn_eq n xs ys

abbrev pub later : Option ℕ → Option ℕ
later none = none
later (some i) = some (suc i)

-- `strstr(text, needle)`, as the offset of the first occurrence.
unfoldable pub find : Text → Text → Option ℕ
find [] needle = if strn_eq (length needle) [] needle then some 0 else none
find (c ∷ text) needle =
    if strn_eq (length needle) (c ∷ text) needle then some 0 else later (find text needle)

-- A run of bytes is a token unless it is empty.
abbrev pub flush : Text → List Text → List Text
flush [] toks = toks
flush (c ∷ run) toks = (c ∷ run) ∷ toks

-- A delimiter closes the run that follows it, any other byte lengthens that run.
abbrev pub push_byte : Bool → ℕ → Text × List Text → Text × List Text
push_byte true c (run, toks) = ([], flush run toks)
push_byte false c (run, toks) = (c ∷ run, toks)

-- The run at the start of a string, and the tokens behind it.
unfoldable pub scan : ℕ → Text → Text × List Text
scan d [] = ([], [])
scan d (c ∷ s) = push_byte (c == d) c (scan d s)

-- The tokens that `strtok_r` gives, call after call, for a single delimiter.
unfoldable pub strtok : ℕ → Text → List Text
unfolding scan
strtok d s = let (run, toks) = scan d s in flush run toks

-- `toupper` and `tolower` of the C locale.
unfoldable pub toupper : ℕ → ℕ
toupper c = if leb b'a' c && leb c b'z' then c - 32 else c

unfoldable pub tolower : ℕ → ℕ
tolower c = if leb b'A' c && leb c b'Z' then c + 32 else c
