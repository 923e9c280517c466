-- ===== src/Json/Entries.antt =====
-- A small library that meets what is relied on of the JSON library, for the tests: an object is the list
-- of its entries, the last one set in front. The key of an entry starts with the kind of its value.
use geo_ns_core.Common.{
  ℕ, zero, suc, take, length, take-append, append-nil, ◌≡◌, refl, ◌∙◌, sym, ap, Bool, true, false,
  ◌==◌, ◌||◌, List, [], ◌∷◌, ◌++◌, Option, none, some, if◌then◌else◌, Bool-cases, inl, inr, arith,
}
use geo_ns_core.Text.{Text, HasNoNul, str_eq}
use geo_ns_core.Text.Laws.{str_eq_iff}
use geo_ns_core.Json.{Json, IsLawful, IsNested, IsStream, are_apart}

abbrev pub Entries : Type 0
Entries = List (Text × Text)

-- Codes are moved up by three: none is 0, and two of them are for the marks.
abbrev marked : Text → Text → Text
marked [] rest = rest
marked (c ∷ text) rest = suc (suc (suc c)) ∷ marked text rest

abbrev pub encode : Entries → Text
encode [] = []
encode ((key, value) ∷ entries) = 1 ∷ marked key (2 ∷ marked value (encode entries))

-- Reading goes from the end: the text of the codes so far, the last value, and the entries.
abbrev read_code : ℕ → Text × Text × Entries → Text × Text × Entries
read_code zero (text, value, entries) = (text, value, entries)
read_code (suc zero) (text, value, entries) = ([], [], (text, value) ∷ entries)
read_code (suc (suc zero)) (text, value, entries) = ([], text, entries)
read_code (suc (suc (suc c))) (text, value, entries) = (c ∷ text, value, entries)

abbrev read_codes : Text → Text × Text × Entries
read_codes [] = ([], [], [])
read_codes (c ∷ text) = read_code c (read_codes text)

abbrev pub decode : Text → Entries
decode text = (read_codes text).2

abbrev pub lookup : Text → Entries → Option Text
lookup key [] = none
lookup key ((k, value) ∷ entries) = if str_eq k key then some value else lookup key entries

abbrev is_some : {A : Type 0} → Option A → Bool
is_some none = false
is_some (some x) = true

abbrev first : Option Text → ℕ
first none = 0
first (some []) = 0
first (some (n ∷ text)) = n

abbrev flag : Option Text → Option Bool
flag none = none
flag (some []) = some false
flag (some (n ∷ text)) = some (n == 1)

abbrev byte : Bool → ℕ
byte b = if b then 1 else 0

abbrev decoded : Option Text → Option Entries
decoded none = none
decoded (some text) = some (decode text)

abbrev items : Entries → List (Option Entries)
items [] = []
items ((key, value) ∷ entries) = some (decode value) ∷ items entries

abbrev items_of : Option Text → List (Option Entries)
items_of none = []
items_of (some text) = items (decode text)

abbrev parsed : Text → Option Entries
parsed [] = none
parsed (zero ∷ text) = none
parsed (suc n ∷ text) = some (decode (take n text))

-- The length stands in front, so that what stands behind is not read.
abbrev printed : Entries → Text
printed entries = suc (length (encode entries)) ∷ encode entries

abbrev entries_of : Option Entries → Entries
entries_of none = []
entries_of (some entries) = entries

abbrev at : ℕ → Text → Option Entries → Option Text
at kind key value = lookup (kind ∷ key) (entries_of value)

abbrev put : ℕ → Entries → Text → Text → Entries
put kind entries key value = (kind ∷ key, value) ∷ entries

-- Kinds: 0 strings, 1 numbers, 2 numbers at keys with dots, 3 values, 4 strings and 5 switches at such
-- keys, 6 switches, 7 values at keys with dots, 8 null.
abbrev pub entries_json : Json Entries
entries_json = record {
  object = [];
  array = [];
  set_string = put 0;
  set_number = λ j k n. put 1 j k (n ∷ []);
  set_boolean = λ j k b. put 6 j k (byte b ∷ []);
  set_null = λ j k. put 8 j k [];
  set_value = λ j k v. put 3 j k (encode v);
  dotset_string = put 4;
  dotset_number = λ j k n. put 2 j k (n ∷ []);
  dotset_boolean = λ j k b. put 5 j k (byte b ∷ []);
  dotset_null = λ j k. put 8 j k [];
  dotset_value = λ j k v. put 7 j k (encode v);
  append = λ a v. a ++ ([], encode v) ∷ [];
  serialize = printed;
  serialize_pretty = printed;
  parse = parsed;
  validate = λ template value. is_some value;
  has_value = λ value k. is_some (at 0 k value) || is_some (at 3 k value);
  dothas_value = λ value k. is_some (at 7 k value);
  get_value = λ value k. decoded (at 3 k value);
  dotget_value = λ value k. decoded (at 7 k value);
  get_string = λ value k. at 0 k value;
  get_number = λ value k. first (at 1 k value);
  elements = λ value k. items_of (at 3 k value);
  dotget_string = λ value k. at 4 k value;
  dotget_number = λ value k. first (at 2 k value);
  dotget_boolean = λ value k. flag (at 5 k value);
}

read-marked :
    (text rest : Text) (value : Text) (entries : Entries)
    → read_codes rest ≡ ([], value, entries)
    → read_codes (marked text rest) ≡ (text, value, entries)
read-marked [] rest value entries e = e
read-marked (c ∷ text) rest value entries e =
    ap (read_code (suc (suc (suc c)))) (read-marked text rest value entries e)

read-encode : (entries : Entries) → read_codes (encode entries) ≡ ([], [], entries)
read-encode [] = refl
read-encode ((key, value) ∷ entries) = ap (read_code 1) (
    read-marked key (2 ∷ marked value (encode entries)) value entries
      (ap (read_code 2) (read-marked value (encode entries) [] entries (read-encode entries))))

decode-encode : (entries : Entries) → decode (encode entries) ≡ entries
decode-encode entries = ap (λ s. s.2) (read-encode entries)

parsed-printed : (entries : Entries) (rest : Text) → parsed (printed entries ++ rest) ≡ some entries
parsed-printed entries rest =
    ap (λ t. some (decode t)) (take-append (encode entries) rest (length (encode entries)) refl)
    ∙ ap some (decode-encode entries)

parsed_all : (entries : Entries) → parsed (printed entries) ≡ some entries
parsed_all entries = ap parsed (sym (append-nil (printed entries))) ∙ parsed-printed entries []

marked-HasNoNul : (text rest : Text) → HasNoNul rest → HasNoNul (marked text rest)
marked-HasNoNul [] rest h = h
marked-HasNoNul (c ∷ text) rest h = (λ e. omega arith, marked-HasNoNul text rest h)

encode-HasNoNul : (entries : Entries) → HasNoNul (encode entries)
encode-HasNoNul [] = tt
encode-HasNoNul ((key, value) ∷ entries) = (
  λ e. omega arith,
  marked-HasNoNul key _ (λ e. omega arith, marked-HasNoNul value _ (encode-HasNoNul entries)),
)

items-append : (a b : Entries) → items (a ++ b) ≡ items a ++ items b
items-append [] b = refl
items-append ((key, value) ∷ a) b = ap (λ l. some (decode value) ∷ l) (items-append a b)

str_eq-same : (k : Text) → str_eq k k ≡ true
str_eq-same k = (str_eq_iff k k).1 refl

-- What is first looked up under a key that was set with the same kind.
lookup-put :
    {A : Type 0} (f : Option Text → A) (k i value : Text) (entries : Entries)
    → f (if str_eq k i then some value else lookup i entries)
      ≡ (if str_eq k i then f (some value) else f (lookup i entries))
lookup-put f k i value entries = elim (Bool-cases (str_eq k i)) [
  | inl same ↦ rw same refl
  | inr other ↦ rw other refl
]

apart-differ : (k i : Text) → are_apart k i ≡ true → str_eq k i ≡ false
apart-differ k i apart = elim (Bool-cases (str_eq k i)) [
  | inl same ↦ ground arith
  | inr other ↦ other
]

has-put_string :
    (j : Entries) (k v i : Text)
    → entries_json.has_value (some (put 0 j k v)) i
      ≡ (if str_eq k i then true else entries_json.has_value (some j) i)
unfolding str_eq
has-put_string j k v i = elim (Bool-cases (str_eq k i)) [
  | inl same ↦ rw same refl
  | inr other ↦ rw other refl
]

has-put_value :
    (j : Entries) (k v i : Text)
    → entries_json.has_value (some (put 3 j k v)) i
      ≡ (if str_eq k i then true else entries_json.has_value (some j) i)
unfolding str_eq
has-put_value j k v i = elim (Bool-cases (str_eq k i)) [
  | inl same ↦
      rw same (elim (is_some (lookup (0 ∷ i) j)) as (λ b. b || true ≡ true) [
        | true ↦ refl
        | false ↦ refl
      ])
  | inr other ↦ rw other refl
]

items-put : (j a : Entries) (k : Text) → items_of (at 3 k (some (put 3 j k (encode a)))) ≡ items a
unfolding str_eq
items-put j a k = rw (str_eq-same k) (ap items (decode-encode a))

pub entries_json-IsLawful : IsLawful entries_json
unfolding str_eq
entries_json-IsLawful = record {
  parse-serialize = parsed_all;
  parse-serialize_pretty = parsed_all;
  serialize-ne-nil = λ j e. ground arith;
  has-set_string = has-put_string;
  get-set_string = λ j k v i. refl;
  get_number-set_string = λ j k v i apart. refl;
  get_number-set_number = λ j k n i. lookup-put first (1 ∷ k) (1 ∷ i) (n ∷ []) j;
  get_string-set_number = λ j k n i apart. refl;
  has-set_value = λ j k v i. has-put_value j k (encode v) i;
  get_string-set_value = λ j k v i apart. refl;
  elements-array = λ j k. items-put j [] k;
  elements-append = λ j k a v.
      items-put j (a ++ ([], encode v) ∷ []) k
      ∙ items-append a (([], encode v) ∷ [])
      ∙ ap (λ l. items a ++ some l ∷ []) (decode-encode v)
      ∙ sym (ap (λ l. l ++ some v ∷ []) (items-put j a k));
  has-dotset_number = λ j k l n i apart. refl;
  get_string-dotset_number = λ j k l n i apart. refl;
  dotget-dotset_number = λ j k n. rw (str_eq-same k) refl;
}

pub entries_json-IsNested : IsNested entries_json
unfolding str_eq
entries_json-IsNested = record {
  get_string-set_string = λ j k v. rw (str_eq-same k) refl;
  get_number-set_number = λ j k n. rw (str_eq-same k) refl;
  get_boolean-set_boolean = λ j k b.
      rw (str_eq-same k)
        (elim b as (λ b. some (byte b == 1) ≡ some b) [ true ↦ refl | false ↦ refl ]);
  get_string-set_number = λ j k n i apart. refl;
  get_string-set_boolean = λ j k b i apart. refl;
  get_number_apart = λ j k n i apart. rw (apart-differ k i apart) refl;
  get_number-set_boolean = λ j k b i apart. refl;
  get_boolean_apart = λ j k b i apart. rw (apart-differ k i apart) refl;
}

pub entries_json-IsStream : IsStream entries_json
entries_json-IsStream = record {
  IsObject = λ j. Unit;
  object-IsObject = tt;
  set_string-IsObject = λ j k v h. tt;
  dotset_number-IsObject = λ j k n h. tt;
  parse-behind = λ j rest h. parsed-printed j rest;
  serialize-HasNoNul = λ j. (λ e. omega arith, encode-HasNoNul j);
}
