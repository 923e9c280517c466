-- ===== src/Core/StrMap/Refinement.antt =====
-- The map refines a function from keys to values.
use geo_ns_core.Common.{◌≡◌, refl, List, [], ◌∷◌, Option, none, some, if◌then◌else◌}
use geo_ns_core.Text.{Text, str_eq}
use geo_ns_core.Core.StrMap.{StringMap, create_string_map, string_map_get, string_map_remove, put}
use geo_ns_core.Core.StrMap.Invariant.{
  IsValid, create_string_map-IsValid, put-IsValid, string_map_remove-IsValid,
}
use geo_ns_core.Core.StrMap.Lookup.{get-put, get-remove}

pub data Update : Type 0 where
  puts : Text → Text → Update
  removes : Text → Update

abbrev pub update : StringMap → Update → StringMap
update map (puts key value) = put map key value
update map (removes key) = string_map_remove map key

abbrev pub run : StringMap → List Update → StringMap
run map [] = map
run map (u ∷ us) = run (update map u) us

-- The specification: the last update of a key decides.
abbrev pub meaning : (Text → Option Text) → List Update → Text → Option Text
meaning f [] j = f j
meaning f (puts key value ∷ us) j = meaning (λ i. if str_eq key i then some value else f i) us j
meaning f (removes key ∷ us) j = meaning (λ i. if str_eq key i then none else f i) us j

update-IsValid : (map : StringMap) (u : Update) → IsValid map → IsValid (update map u)
update-IsValid map (puts key value) v = put-IsValid map key value v
update-IsValid map (removes key) v = string_map_remove-IsValid map key v

run-meaning :
    (map : StringMap) (f : Text → Option Text) (us : List Update)
    → IsValid map
    → ((j : Text) → string_map_get map j ≡ f j)
    → (j : Text) → string_map_get (run map us) j ≡ meaning f us j
run-meaning map f [] v h j = h j
run-meaning map f (puts key value ∷ us) v h j =
    run-meaning (put map key value) (λ i. if str_eq key i then some value else f i) us
      (put-IsValid map key value v) (λ i. rw (get-put map key i value, h i)) j
run-meaning map f (removes key ∷ us) v h j =
    run-meaning (string_map_remove map key) (λ i. if str_eq key i then none else f i) us
      (string_map_remove-IsValid map key v) (λ i. rw (get-remove map key i v, h i)) j

-- After any puts and removals from a new map, `string_map_get` gives what the last of them that
-- concerns the key says.
pub string_map_get-run :
    (us : List Update) (j : Text)
    → string_map_get (run create_string_map us) j ≡ meaning (λ i. none) us j
string_map_get-run us j =
    run-meaning create_string_map (λ i. none) us create_string_map-IsValid
      (λ i. unfold create_string_map string_map_get in refl) j
