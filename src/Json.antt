-- ===== src/Json.antt =====
-- The calls of the JSON library that src/libs/geonsp and src/libs/config make. The library is a copy
-- of another project, so it is a parameter: `Json` holds its functions on values of a type `J`, and
-- `IsLawful` what is relied on. A call that changes a value gives the new value. In the calls that
-- read, `none` is a null pointer. Numbers are those that fit an integer.
pub mod Entries
use geo_ns_core.Common.{
  ℕ, ◌≡◌, ◌≢◌, ◌+◌, Bool, true, false, not, ◌&&◌, length, List, [], ◌∷◌, ◌++◌, Option, none, some,
  if◌then◌else◌,
}
use geo_ns_core.Text.{Text, HasNoNul, str_eq, strn_eq}

pub record Json (J : Type 0) : Type 0 where
  pub object : J
  pub array : J
  pub set_string : J → Text → Text → J
  pub set_number : J → Text → ℕ → J
  pub set_boolean : J → Text → Bool → J
  pub set_null : J → Text → J
  pub set_value : J → Text → J → J
  pub dotset_string : J → Text → Text → J
  pub dotset_number : J → Text → ℕ → J
  pub dotset_boolean : J → Text → Bool → J
  pub dotset_null : J → Text → J
  pub dotset_value : J → Text → J → J
  pub append : J → J → J
  pub serialize : J → Text
  pub serialize_pretty : J → Text
  pub parse : Text → Option J
  pub validate : J → Option J → Bool
  pub has_value : Option J → Text → Bool
  pub dothas_value : Option J → Text → Bool
  pub get_value : Option J → Text → Option J
  pub dotget_value : Option J → Text → Option J
  pub get_string : Option J → Text → Option Text
  pub get_number : Option J → Text → ℕ
  pub elements : Option J → Text → List (Option J)
  pub dotget_string : Option J → Text → Option Text
  pub dotget_number : Option J → Text → ℕ
  pub dotget_boolean : Option J → Text → Option Bool

-- A value is read back as it was written, and a key has what was last set at it. `elements` gives the
-- values of an array in the order in which they were appended.
pub record IsLawful {J : Type 0} (json : Json J) : Type 0 where
  pub parse-serialize : (j : J) → json.parse (json.serialize j) ≡ some j
  pub parse-serialize_pretty : (j : J) → json.parse (json.serialize_pretty j) ≡ some j
  pub serialize-ne-nil : (j : J) → json.serialize j ≢ []
  pub has-set_string :
      (j : J) (k v i : Text)
      → json.has_value (some (json.set_string j k v)) i
        ≡ (if str_eq k i then true else json.has_value (some j) i)
  pub get-set_string :
      (j : J) (k v i : Text)
      → json.get_string (some (json.set_string j k v)) i
        ≡ (if str_eq k i then some v else json.get_string (some j) i)
  pub get_number-set_string :
      (j : J) (k v i : Text)
      → str_eq k i ≡ false
      → json.get_number (some (json.set_string j k v)) i ≡ json.get_number (some j) i
  pub get_number-set_number :
      (j : J) (k : Text) (n : ℕ) (i : Text)
      → json.get_number (some (json.set_number j k n)) i
        ≡ (if str_eq k i then n else json.get_number (some j) i)
  pub get_string-set_number :
      (j : J) (k : Text) (n : ℕ) (i : Text)
      → str_eq k i ≡ false
      → json.get_string (some (json.set_number j k n)) i ≡ json.get_string (some j) i
  pub has-set_value :
      (j : J) (k : Text) (v : J) (i : Text)
      → json.has_value (some (json.set_value j k v)) i
        ≡ (if str_eq k i then true else json.has_value (some j) i)
  pub get_string-set_value :
      (j : J) (k : Text) (v : J) (i : Text)
      → str_eq k i ≡ false
      → json.get_string (some (json.set_value j k v)) i ≡ json.get_string (some j) i
  pub elements-array :
      (j : J) (k : Text) → json.elements (some (json.set_value j k json.array)) k ≡ []
  pub elements-append :
      (j : J) (k : Text) (a v : J)
      → json.elements (some (json.set_value j k (json.append a v))) k
        ≡ json.elements (some (json.set_value j k a)) k ++ some v ∷ []
  -- A key with a dot sets a value inside that of its first part.
  pub has-dotset_number :
      (j : J) (k l : Text) (n : ℕ) (i : Text)
      → str_eq k i ≡ false
      → json.has_value (some (json.dotset_number j (k ++ b'.' ∷ l) n)) i ≡ json.has_value (some j) i
  pub get_string-dotset_number :
      (j : J) (k l : Text) (n : ℕ) (i : Text)
      → str_eq k i ≡ false
      → json.get_string (some (json.dotset_number j (k ++ b'.' ∷ l) n)) i
        ≡ json.get_string (some j) i
  pub dotget-dotset_number :
      (j : J) (k : Text) (n : ℕ) → json.dotget_number (some (json.dotset_number j k n)) k ≡ n

-- One key of a nested value leads to another: "a.b" leads to "a.b.c".
abbrev pub leads : Text → Text → Bool
leads k i = strn_eq (length k + 1) (k ++ b'.' ∷ []) i

-- Two keys that name different places, none of which holds the other.
abbrev pub are_apart : Text → Text → Bool
are_apart k i = not (str_eq k i) && not (leads k i) && not (leads i k)

-- What is relied on of nested keys: a place has what was last set at it, and keeps it when a place apart
-- from it is set.
pub record IsNested {J : Type 0} (json : Json J) : Type 0 where
  pub get_string-set_string :
      (j : J) (k v : Text) → json.dotget_string (some (json.dotset_string j k v)) k ≡ some v
  pub get_number-set_number :
      (j : J) (k : Text) (n : ℕ) → json.dotget_number (some (json.dotset_number j k n)) k ≡ n
  pub get_boolean-set_boolean :
      (j : J) (k : Text) (b : Bool)
      → json.dotget_boolean (some (json.dotset_boolean j k b)) k ≡ some b
  pub get_string-set_number :
      (j : J) (k : Text) (n : ℕ) (i : Text)
      → are_apart k i ≡ true
      → json.dotget_string (some (json.dotset_number j k n)) i ≡ json.dotget_string (some j) i
  pub get_string-set_boolean :
      (j : J) (k : Text) (b : Bool) (i : Text)
      → are_apart k i ≡ true
      → json.dotget_string (some (json.dotset_boolean j k b)) i ≡ json.dotget_string (some j) i
  pub get_number_apart :
      (j : J) (k : Text) (n : ℕ) (i : Text)
      → are_apart k i ≡ true
      → json.dotget_number (some (json.dotset_number j k n)) i ≡ json.dotget_number (some j) i
  pub get_number-set_boolean :
      (j : J) (k : Text) (b : Bool) (i : Text)
      → are_apart k i ≡ true
      → json.dotget_number (some (json.dotset_boolean j k b)) i ≡ json.dotget_number (some j) i
  pub get_boolean_apart :
      (j : J) (k : Text) (b : Bool) (i : Text)
      → are_apart k i ≡ true
      → json.dotget_boolean (some (json.dotset_boolean j k b)) i ≡ json.dotget_boolean (some j) i

-- What is relied on where one value follows another in a buffer: the text of an object is read to its
-- end, whatever stands behind it, and no text has a 0 in it.
pub record IsStream {J : Type 0} (json : Json J) : Type (0 + 1) where
  pub IsObject : J → Type 0
  pub object-IsObject : IsObject json.object
  pub set_string-IsObject : (j : J) (k v : Text) → IsObject j → IsObject (json.set_string j k v)
  pub dotset_number-IsObject :
      (j : J) (k : Text) (n : ℕ) → IsObject j → IsObject (json.dotset_number j k n)
  pub parse-behind :
      (j : J) (rest : Text) → IsObject j → json.parse (json.serialize j ++ rest) ≡ some j
  pub serialize-HasNoNul : (j : J) → HasNoNul (json.serialize j)
