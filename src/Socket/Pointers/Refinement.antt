-- ===== src/Socket/Pointers/Refinement.antt =====
-- The operations over pointers do what the operations on lists do, and come to an end.
use geo_ns_core.Common.{
  ℕ, zero, suc, ◌<◌, ◌≡◌, refl, ap, List, [], ◌∷◌, ◌++◌, Option, none, some, ◌==◌, arith, length,
  Bool-cases, inl, inr,
}
use geo_ns_core.Socket.{SocketConnection, Effect, release, remove_connection}
use geo_ns_core.Socket.Removal.{IsAbsent, remove_connection-absent, remove_connection-found}
use geo_ns_core.Socket.Pointers.{Memory, Outcome, done, remove_found, remove_at}
use geo_ns_core.Socket.Pointers.Unlink.{IsHeld, middle-IsAbsent, remove_found_lem}
use geo_ns_core.Socket.Pointers.Steps.{search-found, search-IsAbsent, not_null-Seg}

length-front :
    (xs : List SocketConnection) (c : SocketConnection) (ys : List SocketConnection) (fuel : ℕ)
    → length (xs ++ c ∷ ys) < fuel
    → length xs < fuel
length-front [] c ys fuel h = omega arith
length-front (x ∷ xs) c ys zero h = absurd (omega arith)
length-front (x ∷ xs) c ys (suc fuel) h =
    let shorter = length-front xs c ys fuel (omega arith) in omega arith

-- What the answer of the operation on the list says of the operation over pointers: the same effects, no
-- cell at the address, and memory that holds the same list; or no change.
abbrev pub Removed :
    ℕ
    → Option (List SocketConnection × List Effect)
    → Outcome (Option (Memory × List Effect))
    → Type 0
Removed a none outcome = outcome ≡ done none
Removed a (some (rest, effects)) outcome =
    (after : Memory) × (outcome ≡ done (some (after, effects)))
    × IsHeld after rest
    × (after.heap a ≡ none)

-- Where a connection stands that is on the list.
data Place (a : ℕ) : List SocketConnection → Type 0 where
  missing : {cs : List SocketConnection} → IsAbsent a cs → Place a cs
  found :
      {cs : List SocketConnection} (xs : List SocketConnection) (c : SocketConnection)
      (ys : List SocketConnection)
      → IsAbsent a xs
      → c.address ≡ a
      → cs ≡ xs ++ c ∷ ys
      → Place a cs

find : (a : ℕ) (cs : List SocketConnection) → Place a cs
find a [] = missing tt
find a (c ∷ cs) = elim (Bool-cases (c.address == a)) [
  | inl same ↦ found [] c cs tt (ground arith) refl
  | inr other ↦ elim (find a cs) [
    | missing h ↦ missing ((ground arith), h)
    | found xs d ys h e same ↦ found (c ∷ xs) d ys ((ground arith), h) e (ap (λ t. c ∷ t) same)
  ]
]

remove_at-some :
    (fuel : ℕ) (memory : Memory) (xs : List SocketConnection) (c : SocketConnection)
    (ys : List SocketConnection)
    → IsHeld memory (xs ++ c ∷ ys)
    → length (xs ++ c ∷ ys) < fuel
    → Removed c.address (some (xs ++ ys, release c)) (remove_at fuel memory c.address)
unfolding remove_at
remove_at-some fuel memory xs c ys held h =
    let absent_in_front = (middle-IsAbsent xs c ys held.0).0 in
    let not_empty = not_null-Seg memory.heap memory.head xs c ys held.1 in
    let searched =
      search-found fuel memory.heap 0 memory.head xs c ys absent_in_front held.1
        (length-front xs c ys fuel h) in
    let (after, gives, still, freed) = remove_found_lem memory xs c ys held in
    (after, rw (not_empty, searched, gives) refl, still, freed)

remove_at-none :
    (fuel : ℕ) (memory : Memory) (cs : List SocketConnection) (a : ℕ)
    → IsHeld memory cs
    → IsAbsent a cs
    → length cs < fuel
    → remove_at fuel memory a ≡ done none
unfolding remove_at remove_found
remove_at-none fuel memory [] a held h less = rw held.1 refl
remove_at-none fuel memory (c ∷ cs) a held h less =
    let not_empty = not_null-Seg memory.heap memory.head [] c cs held.1 in
    let searched = search-IsAbsent fuel memory.heap a 0 memory.head c cs h held.1 (omega arith) in
    rw (not_empty, searched) refl

-- On a heap that holds a list of connections at different addresses, with fuel for each of them and one
-- more, `remove_connection` over pointers comes to an end without reading or writing where nothing is,
-- gives back what the operation on the list gives back, leaves the heap holding what that leaves, and
-- leaves no cell at the address; for an address that is not on the list it changes nothing.
pub remove_at-Removed :
    (fuel : ℕ) (memory : Memory) (cs : List SocketConnection) (a : ℕ)
    → IsHeld memory cs
    → length cs < fuel
    → Removed a (remove_connection cs a) (remove_at fuel memory a)
remove_at-Removed fuel memory cs a held less = elim (find a cs) [
  | missing h ↦ rw (remove_connection-absent cs a h) (remove_at-none fuel memory cs a held h less)
  | found xs c ys h e same ↦
      let h' : IsAbsent c.address xs = rw e h in
      let removed : remove_connection cs a ≡ some (xs ++ ys, release c) =
        rw (same, ← e) (remove_connection-found xs c ys h') in
      rw (removed, ← e) (remove_at-some fuel memory xs c ys (rw same at held) (rw same at less))
]
