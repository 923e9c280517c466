-- ===== src/Core/StrMap/Blocks.antt =====
-- The memory of a string map: what src/libs/core/strmap.c allocates and frees.
use geo_ns_core.Common.{ℕ, ◌+◌, ◌≡◌, refl, List, [], ◌∷◌, ◌++◌, Option, none, some, arith, length}
use geo_ns_core.Text.{Text}
use geo_ns_core.Core.StrMap.{
  MapNode, StringMap, create_string_map, overwrite, put, unlink, string_map_remove, after_overwrite,
  after_unlink,
}
use geo_ns_core.Core.StrMap.Invariant.{OnSome}
use geo_ns_core.Core.StrMap.Refinement.{Update, puts, removes, update, run}

-- A map, a node, and the copies of its key and its value.
pub data Block : Type 0 where
  map_block node_block key_block value_block : Block

pub data Use : Type 0 where
  allocated freed : Block → Use

abbrev pub create_blocks : List Use
create_blocks = allocated map_block ∷ []

-- The value of a key that is there is replaced, or there is a new node.
abbrev pub put_found : Option (List MapNode) → List Use
put_found (some ns) = freed value_block ∷ allocated value_block ∷ []
put_found none = allocated node_block ∷ allocated key_block ∷ allocated value_block ∷ []

unfoldable pub put_blocks : StringMap → Text → Text → List Use
put_blocks map key value = put_found (overwrite key value map.nodes)

abbrev pub free_node : List Use
free_node = freed key_block ∷ freed value_block ∷ freed node_block ∷ []

abbrev pub remove_found : Option (List MapNode) → List Use
remove_found none = []
remove_found (some ns) = free_node

unfoldable pub remove_blocks : StringMap → Text → List Use
remove_blocks map key = remove_found (unlink key map.nodes)

-- The loop of `string_map_free`.
unfoldable pub free_nodes : List MapNode → List Use
free_nodes [] = []
free_nodes (n ∷ ns) = free_node ++ free_nodes ns

unfoldable pub string_map_free : StringMap → List Use
unfolding free_nodes
string_map_free map = free_nodes map.nodes ++ freed map_block ∷ []

abbrev pub update_blocks : StringMap → Update → List Use
update_blocks map (puts key value) = put_blocks map key value
update_blocks map (removes key) = remove_blocks map key

abbrev pub run_blocks : StringMap → List Update → List Use
run_blocks map [] = []
run_blocks map (u ∷ us) = update_blocks map u ++ run_blocks (update map u) us

abbrev pub same_block : Block → Block → ℕ
same_block map_block map_block = 1
same_block node_block node_block = 1
same_block key_block key_block = 1
same_block value_block value_block = 1
same_block _ _ = 0

abbrev pub allocations : Block → List Use → ℕ
allocations b [] = 0
allocations b (allocated c ∷ uses) = same_block b c + allocations b uses
allocations b (freed c ∷ uses) = allocations b uses

abbrev pub frees : Block → List Use → ℕ
frees b [] = 0
frees b (allocated c ∷ uses) = frees b uses
frees b (freed c ∷ uses) = same_block b c + frees b uses

allocations-append :
    (b : Block) (xs ys : List Use) → allocations b (xs ++ ys) ≡ allocations b xs + allocations b ys
allocations-append b [] ys = omega arith
allocations-append b (allocated c ∷ xs) ys = omega (arith, allocations-append b xs ys)
allocations-append b (freed c ∷ xs) ys = allocations-append b xs ys

frees-append : (b : Block) (xs ys : List Use) → frees b (xs ++ ys) ≡ frees b xs + frees b ys
frees-append b [] ys = omega arith
frees-append b (allocated c ∷ xs) ys = frees-append b xs ys
frees-append b (freed c ∷ xs) ys = omega (arith, frees-append b xs ys)

-- The blocks of a kind that a map of so many nodes holds.
abbrev live : Block → ℕ → ℕ
live map_block n = 1
live node_block n = n
live key_block n = n
live value_block n = n

overwrite-length :
    (key value : Text) (ns : List MapNode)
    → OnSome (λ ns'. length ns' ≡ length ns) (overwrite key value ns)
unfolding overwrite
overwrite-length key value [] = tt
overwrite-length key value (n ∷ ns) = ground (arith, overwrite-length key value ns)

unlink-length :
    (key : Text) (ns : List MapNode) → OnSome (λ ns'. length ns ≡ length ns' + 1) (unlink key ns)
unfolding unlink
unlink-length key [] = tt
unlink-length key (n ∷ ns) = ground (arith, unlink-length key ns)

put_found-balance :
    (b : Block) (map : StringMap) (key value : Text) (o : Option (List MapNode))
    → OnSome (λ ns'. length ns' ≡ length map.nodes) o
    → allocations b (put_found o) + live b (length map.nodes)
      ≡ frees b (put_found o) + live b (length (after_overwrite map key value o).nodes)
put_found-balance map_block map key value none h = omega arith
put_found-balance map_block map key value (some ns) h = omega (arith, h)
put_found-balance node_block map key value none h = omega arith
put_found-balance node_block map key value (some ns) h = omega (arith, h)
put_found-balance key_block map key value none h = omega arith
put_found-balance key_block map key value (some ns) h = omega (arith, h)
put_found-balance value_block map key value none h = omega arith
put_found-balance value_block map key value (some ns) h = omega (arith, h)

remove_found-balance :
    (b : Block) (map : StringMap) (o : Option (List MapNode))
    → OnSome (λ ns'. length map.nodes ≡ length ns' + 1) o
    → allocations b (remove_found o) + live b (length map.nodes)
      ≡ frees b (remove_found o) + live b (length (after_unlink map o).nodes)
remove_found-balance map_block map none h = omega arith
remove_found-balance map_block map (some ns) h = omega (arith, h)
remove_found-balance node_block map none h = omega arith
remove_found-balance node_block map (some ns) h = omega (arith, h)
remove_found-balance key_block map none h = omega arith
remove_found-balance key_block map (some ns) h = omega (arith, h)
remove_found-balance value_block map none h = omega arith
remove_found-balance value_block map (some ns) h = omega (arith, h)

update-balance :
    (b : Block) (map : StringMap) (u : Update)
    → allocations b (update_blocks map u) + live b (length map.nodes)
      ≡ frees b (update_blocks map u) + live b (length (update map u).nodes)
unfolding put_blocks remove_blocks put string_map_remove
update-balance b map (puts key value) =
    put_found-balance b map key value (overwrite key value map.nodes)
      (overwrite-length key value map.nodes)
update-balance b map (removes key) =
    remove_found-balance b map (unlink key map.nodes) (unlink-length key map.nodes)

run-balance :
    (b : Block) (map : StringMap) (us : List Update)
    → allocations b (run_blocks map us) + live b (length map.nodes)
      ≡ frees b (run_blocks map us) + live b (length (run map us).nodes)
run-balance b map [] = refl
run-balance b map (u ∷ us) = omega (
  arith,
  update-balance b map u,
  run-balance b (update map u) us,
  allocations-append b (update_blocks map u) (run_blocks (update map u) us),
  frees-append b (update_blocks map u) (run_blocks (update map u) us),
)

free_nodes-balance :
    (b : Block) (ns : List MapNode)
    → (allocations b (free_nodes ns ++ freed map_block ∷ []) ≡ 0)
      × (frees b (free_nodes ns ++ freed map_block ∷ []) ≡ live b (length ns))
unfolding free_nodes
free_nodes-balance map_block [] = ((omega arith), omega arith)
free_nodes-balance map_block (n ∷ ns) =
    let (none_allocated, freed_all) = free_nodes-balance map_block ns in
    (none_allocated, omega (arith, freed_all))
free_nodes-balance node_block [] = ((omega arith), omega arith)
free_nodes-balance node_block (n ∷ ns) =
    let (none_allocated, freed_all) = free_nodes-balance node_block ns in
    (none_allocated, omega (arith, freed_all))
free_nodes-balance key_block [] = ((omega arith), omega arith)
free_nodes-balance key_block (n ∷ ns) =
    let (none_allocated, freed_all) = free_nodes-balance key_block ns in
    (none_allocated, omega (arith, freed_all))
free_nodes-balance value_block [] = ((omega arith), omega arith)
free_nodes-balance value_block (n ∷ ns) =
    let (none_allocated, freed_all) = free_nodes-balance value_block ns in
    (none_allocated, omega (arith, freed_all))

same_block-live : (b : Block) → same_block b map_block ≡ live b 0
same_block-live map_block = refl
same_block-live node_block = refl
same_block-live key_block = refl
same_block-live value_block = refl

-- What a map's life takes: it is made, used and freed.
abbrev pub life_blocks : List Update → List Use
life_blocks us =
    create_blocks ++ (run_blocks create_string_map us ++ string_map_free (run create_string_map us))

-- A new map that is used for any puts and removals and then freed: the maps, the nodes, the keys and the
-- values are each freed as often as they are allocated.
pub string_map_free-balance :
    (b : Block) (us : List Update) → allocations b (life_blocks us) ≡ frees b (life_blocks us)
unfolding string_map_free create_string_map
string_map_free-balance b us =
    let end = run create_string_map us in
    omega (
      arith,
      same_block-live b,
      run-balance b create_string_map us,
      free_nodes-balance b end.nodes,
      allocations-append b (run_blocks create_string_map us) (string_map_free end),
      frees-append b (run_blocks create_string_map us) (string_map_free end),
    )
