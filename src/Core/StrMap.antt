-- ===== src/Core/StrMap.antt =====
-- src/libs/core/strmap.c and strmap.h: the string map of route parameters. The linked list of nodes
-- is the list of its nodes, head first; `int size` is kept modulo 2 ^ 32.
pub mod Invariant
pub mod Lookup
pub mod Refinement
pub mod Blocks
mod Tests
use geo_ns_core.Common.{
  ℕ, ◌+◌, ◌-◌, ◌%◌, ◌^◌, Bool, true, false, List, [], ◌∷◌, Option, none, some, if◌then◌else◌,
}
use geo_ns_core.Text.{Text, str_eq}

pub record MapNode : Type 0 where
  pub key : Text
  pub value : Text

pub record StringMap : Type 0 where
  pub nodes : List MapNode
  pub size : ℕ

abbrev pub int_mod : ℕ
int_mod = 2 ^ 32

unfoldable pub create_string_map : StringMap
create_string_map = record { nodes = []; size = 0 }

abbrev cons_to : MapNode → Option (List MapNode) → Option (List MapNode)
cons_to n none = none
cons_to n (some ns) = some (n ∷ ns)

-- The loop of `string_map_put`: the first node with the key gets the value; `none` if there is none.
unfoldable pub overwrite : Text → Text → List MapNode → Option (List MapNode)
overwrite key value [] = none
overwrite key value (n ∷ ns) =
    if str_eq n.key key
    then some (record n { value = value } ∷ ns)
    else cons_to n (overwrite key value ns)

-- What follows the loop: a new node in front.
abbrev add_node : StringMap → Text → Text → StringMap
add_node map key value = record {
  nodes = record { key = key; value = value } ∷ map.nodes;
  size = (map.size + 1) % int_mod;
}

abbrev after_overwrite : StringMap → Text → Text → Option (List MapNode) → StringMap
after_overwrite map key value (some ns) = record map { nodes = ns }
after_overwrite map key value none = add_node map key value

unfoldable pub put : StringMap → Text → Text → StringMap
unfolding overwrite
put map key value = after_overwrite map key value (overwrite key value map.nodes)

-- `none` is the null pointer.
unfoldable pub string_map_put : Option StringMap → Option Text → Option Text → Option StringMap
unfolding put
string_map_put none key value = none
string_map_put (some map) none value = some map
string_map_put (some map) (some key) none = some map
string_map_put (some map) (some key) (some value) = some (put map key value)

unfoldable pub get_node : List MapNode → Text → Option Text
get_node [] key = none
get_node (n ∷ ns) key = if str_eq n.key key then some n.value else get_node ns key

unfoldable pub string_map_get : StringMap → Text → Option Text
unfolding get_node
string_map_get map key = get_node map.nodes key

unfoldable pub string_map_contains : StringMap → Text → Bool
unfolding string_map_get
string_map_contains map key = elim (string_map_get map key) [ none ↦ false | some value ↦ true ]

-- The loop of `string_map_remove`: the list without the first node of the key.
unfoldable pub unlink : Text → List MapNode → Option (List MapNode)
unlink key [] = none
unlink key (n ∷ ns) = if str_eq n.key key then some ns else cons_to n (unlink key ns)

abbrev after_unlink : StringMap → Option (List MapNode) → StringMap
after_unlink map none = map
after_unlink map (some ns) = record { nodes = ns; size = (map.size + int_mod - 1) % int_mod }

unfoldable pub string_map_remove : StringMap → Text → StringMap
unfolding unlink
string_map_remove map key = after_unlink map (unlink key map.nodes)
