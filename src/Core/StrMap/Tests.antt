-- ===== src/Core/StrMap/Tests.antt =====
-- The theorems on the string map at concrete maps.
use geo_ns_core.Common.{◌≡◌, [], ◌∷◌, none}
use geo_ns_core.Text.{codes, str_eq}
use geo_ns_core.Core.StrMap.{StringMap, create_string_map, string_map_get, put}
use geo_ns_core.Core.StrMap.Invariant.{IsValid, create_string_map-IsValid, put-IsValid}
use geo_ns_core.Core.StrMap.Blocks.{
  allocations, frees, value_block, life_blocks, string_map_free-balance,
}
use geo_ns_core.Core.StrMap.Refinement.{puts, removes, run, string_map_get-run}

abbrev one_entry : StringMap
one_entry = put create_string_map (codes "a") (codes "1")

one_entry-IsValid : IsValid one_entry
one_entry-IsValid = put-IsValid create_string_map (codes "a") (codes "1") create_string_map-IsValid

string_map_get-run_example :
    string_map_get
      (run create_string_map
        (puts (codes "a") (codes "1") ∷ puts (codes "b") (codes "2") ∷ removes (codes "a") ∷ []))
      (codes "a")
    ≡ none
unfolding str_eq
string_map_get-run_example =
    string_map_get-run
      (puts (codes "a") (codes "1") ∷ puts (codes "b") (codes "2") ∷ removes (codes "a") ∷ [])
      (codes "a")

string_map_free-balance_example :
    allocations value_block
      (life_blocks (puts (codes "a") (codes "1") ∷ puts (codes "a") (codes "2") ∷ []))
    ≡ frees value_block
        (life_blocks (puts (codes "a") (codes "1") ∷ puts (codes "a") (codes "2") ∷ []))
string_map_free-balance_example =
    string_map_free-balance value_block
      (puts (codes "a") (codes "1") ∷ puts (codes "a") (codes "2") ∷ [])
