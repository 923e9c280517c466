-- ===== src/Core/StrMap/Invariant.antt =====
-- The keys of a map are distinct and `size` counts them, whatever is put or removed.
use geo_ns_core.Common.{
  ◌≡◌, refl, ◌≢◌, ◌%◌, List, [], ◌∷◌, Option, none, some, arith, All, length, ◌+◌,
}
use geo_ns_core.Text.{Text}
use geo_ns_core.Text.Laws.{str_eq_iff}
use geo_ns_core.Core.StrMap.{
  MapNode, StringMap, int_mod, create_string_map, overwrite, put, string_map_put, unlink,
  string_map_remove,
}

abbrev pub Fresh : Text → List MapNode → Type 0
Fresh key ns = All (λ n. n.key ≢ key) ns

abbrev pub Distinct : List MapNode → Type 0
Distinct [] = Unit
Distinct (n ∷ ns) = Fresh n.key ns × Distinct ns

pub record IsValid (map : StringMap) : Type 0 where
  pub distinct : Distinct map.nodes
  pub counted : map.size ≡ length map.nodes % int_mod

pub overwrite-none :
    (key value : Text) (ns : List MapNode) → overwrite key value ns ≡ none → Fresh key ns
unfolding overwrite
overwrite-none key value [] e = tt
overwrite-none key value (n ∷ ns) e =
    ground (arith, str_eq_iff n.key key, overwrite-none key value ns)

-- What holds of the new list, where there is one.
abbrev pub OnSome : (List MapNode → Type 0) → Option (List MapNode) → Type 0
OnSome P none = Unit
OnSome P (some ns) = P ns

overwrite-Fresh :
    (k key value : Text) (ns : List MapNode)
    → Fresh k ns
    → OnSome (Fresh k) (overwrite key value ns)
unfolding overwrite
overwrite-Fresh k key value [] h = tt
overwrite-Fresh k key value (n ∷ ns) h = ground (arith, overwrite-Fresh k key value ns)

overwrite-Distinct :
    (key value : Text) (ns : List MapNode)
    → Distinct ns
    → OnSome (λ ns'. Distinct ns' × (length ns' ≡ length ns)) (overwrite key value ns)
unfolding overwrite
overwrite-Distinct key value [] h = tt
overwrite-Distinct key value (n ∷ ns) h =
    ground (arith, overwrite-Distinct key value ns, overwrite-Fresh n.key key value ns)

unlink-Fresh : (k key : Text) (ns : List MapNode) → Fresh k ns → OnSome (Fresh k) (unlink key ns)
unfolding unlink
unlink-Fresh k key [] h = tt
unlink-Fresh k key (n ∷ ns) h = ground (arith, unlink-Fresh k key ns)

unlink-Distinct :
    (key : Text) (ns : List MapNode)
    → Distinct ns
    → OnSome (λ ns'. Distinct ns' × (length ns ≡ length ns' + 1)) (unlink key ns)
unfolding unlink
unlink-Distinct key [] h = tt
unlink-Distinct key (n ∷ ns) h = ground (arith, unlink-Distinct key ns, unlink-Fresh n.key key ns)

pub create_string_map-IsValid : IsValid create_string_map
unfolding create_string_map
create_string_map-IsValid = record { distinct = tt; counted = refl }

pub put-IsValid : (map : StringMap) (key value : Text) → IsValid map → IsValid (put map key value)
unfolding put
put-IsValid map key value v =
    ground
      (arith, overwrite-none key value map.nodes, overwrite-Distinct key value map.nodes v.distinct)

-- Putting into a well formed map keeps its keys distinct and counted, whatever pointers are null.
string_map_put-IsValid :
    (map : StringMap) (key value : Option Text)
    → IsValid map
    → (m : StringMap) × (string_map_put (some map) key value ≡ some m) × IsValid m
unfolding string_map_put
string_map_put-IsValid map none value v = (map, refl, v)
string_map_put-IsValid map (some key) none v = (map, refl, v)
string_map_put-IsValid map (some key) (some value) v = (_, refl, put-IsValid map key value v)

-- Removing keeps the keys of a well formed map distinct and counted.
pub string_map_remove-IsValid :
    (map : StringMap) (key : Text) → IsValid map → IsValid (string_map_remove map key)
unfolding string_map_remove
string_map_remove-IsValid map key v = ground (arith, unlink-Distinct key map.nodes v.distinct)
