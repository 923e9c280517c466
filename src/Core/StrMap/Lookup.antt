-- ===== src/Core/StrMap/Lookup.antt =====
-- What a map answers after a put and after a removal.
use geo_ns_core.Common.{◌≡◌, refl, List, [], ◌∷◌, Option, none, some, arith, if◌then◌else◌}
use geo_ns_core.Text.{Text, str_eq}
use geo_ns_core.Text.Laws.{str_eq_iff}
use geo_ns_core.Core.StrMap.{
  MapNode, StringMap, overwrite, put, get_node, string_map_get, unlink, string_map_remove,
}
use geo_ns_core.Core.StrMap.Invariant.{Fresh, Distinct, IsValid}

-- The answer of the list that a loop gives, or of the old one.
abbrev get_or_else : Option (List MapNode) → Text → Option Text → Option Text
get_or_else none key a = a
get_or_else (some ns) key a = get_node ns key

get_node-overwrite :
    (key j value : Text) (ns : List MapNode)
    → get_or_else (overwrite key value ns) j (if str_eq key j then some value else get_node ns j)
      ≡ (if str_eq key j then some value else get_node ns j)
unfolding overwrite get_node
get_node-overwrite key j value [] = refl
get_node-overwrite key j value (n ∷ ns) = ground (
  arith,
  get_node-overwrite key j value ns,
  str_eq_iff n.key key,
  str_eq_iff n.key j,
  str_eq_iff key j,
)

-- After a put its key has the value, and every other key what it had.
pub get-put :
    (map : StringMap) (key j value : Text)
    → string_map_get (put map key value) j
      ≡ (if str_eq key j then some value else string_map_get map j)
unfolding put string_map_get
get-put map key j value = ground (arith, get_node-overwrite key j value map.nodes)

get_node-Fresh : (key : Text) (ns : List MapNode) → Fresh key ns → get_node ns key ≡ none
unfolding get_node
get_node-Fresh key [] h = refl
get_node-Fresh key (n ∷ ns) h = ground (arith, str_eq_iff n.key key, get_node-Fresh key ns h.1)

-- What the list holds for `j` once the loop of the removal has run.
abbrev get_unlinked : List MapNode → Option (List MapNode) → Text → Option Text
get_unlinked ns none j = get_node ns j
get_unlinked ns (some ns') j = get_node ns' j

get_node-unlink :
    (key j : Text) (ns : List MapNode)
    → Distinct ns
    → get_unlinked ns (unlink key ns) j ≡ (if str_eq key j then none else get_node ns j)
unfolding unlink get_node
get_node-unlink key j [] h = ground arith
get_node-unlink key j (n ∷ ns) h = ground (
  arith,
  get_node-unlink key j ns h.1,
  str_eq_iff n.key key,
  str_eq_iff n.key j,
  str_eq_iff key j,
  get_node-Fresh key ns,
)

-- After a removal from a well formed map its key has no value, and every other key what it had.
pub get-remove :
    (map : StringMap) (key j : Text)
    → IsValid map
    → string_map_get (string_map_remove map key) j
      ≡ (if str_eq key j then none else string_map_get map j)
unfolding string_map_remove string_map_get
get-remove map key j v = ground (arith, get_node-unlink key j map.nodes v.distinct)
