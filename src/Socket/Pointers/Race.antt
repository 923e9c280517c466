-- ===== src/Socket/Pointers/Race.antt =====
-- The two threads of a server on one list of connections, which no lock guards.
use geo_ns_core.Common.{
  ℕ, ◌<◌, ◌≡◌, ◌≢◌, refl, ◌∙◌, ap, sym, List, Option, append_assoc, length-append, Bool-cases, inl,
  inr, false, ◌==◌, [], ◌∷◌, ◌++◌, none, some, arith, length, append-nil,
}
use geo_ns_core.Socket.{SocketConnection, Effect, release}
use geo_ns_core.Socket.Removal.{IsAbsent, remove_connection-found}
use geo_ns_core.Socket.Pointers.{
  Memory, cell, write, on_cell, Outcome, faulted, done, then_do, set_next, remove_at, after_removal,
  find_end, search, remove_found, unlink_at, free, Heap, link_at, clear_next,
}
use geo_ns_core.Socket.Pointers.Seg.{Seg, last_address, frame, write-other}
use geo_ns_core.Socket.Pointers.Steps.{search-found}
use geo_ns_core.Socket.Pointers.Unlink.{IsHeld, middle-IsAbsent}
use geo_ns_core.Socket.Pointers.Refinement.{remove_at-Removed}
use geo_ns_core.Socket.Pointers.Adding.{cleared_heap, clear_next-cell, find_end-Seg}

-- `add_connection` of the accepting thread with one `remove_connection` of a client's thread between
-- its loop and its write.
unfoldable pub add_during_removal : ℕ → Memory → ℕ → ℕ → Outcome Memory
add_during_removal fuel memory connection removed =
    then_do (clear_next memory connection) (λ cleared. then_do (find_end fuel cleared) (λ end.
      then_do (remove_at fuel cleared removed)
        (λ r. link_at (after_removal cleared r) connection end)))

last_address_last :
    (p : ℕ) (xs : List SocketConnection) (l : SocketConnection)
    → last_address p (xs ++ l ∷ []) ≡ l.address
last_address_last p [] l = refl
last_address_last p (x ∷ xs) l = last_address_last x.address xs l

find_end_last :
    (fuel : ℕ) (memory : Memory) (xs : List SocketConnection) (l : SocketConnection)
    → Seg memory.heap memory.head (xs ++ l ∷ []) 0
    → length (xs ++ l ∷ []) < fuel
    → find_end fuel memory ≡ done (some l.address)
find_end_last fuel memory [] l s less = find_end-Seg fuel memory l [] s (omega arith)
find_end_last fuel memory (x ∷ xs) l s less =
    find_end-Seg fuel memory x (xs ++ l ∷ []) s (omega arith)
    ∙ ap (λ p. done (some p)) (last_address_last x.address xs l)

link_at-faulted :
    (memory : Memory) (connection p : ℕ)
    → memory.heap p ≡ none
    → link_at memory connection (some p) ≡ faulted
unfolding link_at set_next
link_at-faulted memory connection p freed = rw freed refl

-- When the last connection of a list that a heap holds is removed between the loop of
-- `add_connection` and its write, the removal comes to its end and leaves the heap holding the
-- others, and the write goes where no cell is. There is fuel for each connection and one more,
-- and the new one stands in a cell of its own, whose address is not on the list.
pub add_during_removal-faulted :
    (fuel : ℕ) (memory : Memory) (xs : List SocketConnection) (l c : SocketConnection) (next : ℕ)
    → IsHeld memory (xs ++ l ∷ [])
    → IsAbsent c.address (xs ++ l ∷ [])
    → memory.heap c.address ≡ some (cell c next)
    → length (xs ++ l ∷ []) < fuel
    → ((after : Memory) × (remove_at fuel (record memory { heap = cleared_heap memory c }) l.address
          ≡ done (some (after, release l)))
        × IsHeld after xs)
      × (add_during_removal fuel memory c.address l.address ≡ faulted)
unfolding add_during_removal
add_during_removal-faulted fuel memory xs l c next held fresh holds less =
    let cleared : Memory = record memory { heap = cleared_heap memory c } in
    let kept =
      frame memory.heap c.address (some (cell c 0)) memory.head (xs ++ l ∷ []) 0 fresh held.1 in
    let (after, gives, still, freed) =
      rw (remove_connection-found xs l [] (middle-IsAbsent xs l [] held.0).0, append-nil xs) at
        (remove_at-Removed fuel cleared (xs ++ l ∷ []) l.address (held.0, kept) less) in
    (
      (after, gives, still),
      ap
            (λ o. then_do o (λ m. then_do (find_end fuel m) (λ end.
              then_do (remove_at fuel m l.address)
                (λ r. link_at (after_removal m r) c.address end))))
            (clear_next-cell memory c next holds)
          ∙ ap
              (λ o. then_do o (λ end.
                then_do (remove_at fuel cleared l.address)
                  (λ r. link_at (after_removal cleared r) c.address end)))
              (find_end_last fuel cleared xs l kept less)
          ∙ ap (λ o. then_do o (λ r. link_at (after_removal cleared r) c.address (some l.address)))
              gives
          ∙ link_at-faulted after c.address l.address freed,
    )

-- `remove_connection` of one client's thread with that of another between its loop and what it does
-- with what the loop has found.
unfoldable pub remove_during_removal : ℕ → Memory → ℕ → ℕ → Outcome (Option (Memory × List Effect))
remove_during_removal fuel memory connection removed =
    then_do (search fuel memory.heap connection 0 memory.head) (λ found.
      then_do (remove_at fuel memory removed)
        (λ r. remove_found (after_removal memory r) connection found))

cell_at :
    (heap : Heap) (p : ℕ) (xs : List SocketConnection) (c : SocketConnection)
    (ys : List SocketConnection)
    → Seg heap p (xs ++ c ∷ ys) 0
    → (c.address ≢ 0) × ((next : ℕ) × (heap c.address ≡ some (cell c next)))
cell_at heap p [] c ys (e, not_null, (next, holds, s)) = (not_null, (next, holds))
cell_at heap p (x ∷ xs) c ys (e, not_null, (next, holds, s)) = cell_at heap next xs c ys s

absurd_cell :
    (memory : Memory) (c : SocketConnection) (previous next : ℕ)
    → memory.heap c.address ≡ some (cell c next)
    → memory.heap previous ≡ none
    → previous ≢ c.address
absurd_cell memory c previous next holds freed same =
    let clash : some (cell c next) ≡ none = sym holds ∙ ap memory.heap (sym same) ∙ freed in cc

unlink_at-faulted :
    (memory : Memory) (c : SocketConnection) (previous next : ℕ)
    → memory.heap c.address ≡ some (cell c next)
    → memory.heap previous ≡ none
    → previous ≢ 0
    → unlink_at memory previous c.address next ≡ faulted
unfolding unlink_at set_next free
unlink_at-faulted memory c previous next holds freed not_first =
    let later : (previous == 0) ≡ false = ground arith in
    let still : write memory.heap c.address none previous ≡ none =
      write-other memory.heap c.address previous none
        (absurd_cell memory c previous next holds freed)
      ∙ freed in
    elim (Bool-cases (next == 0)) [
      | inl last ↦ rw (last, later, holds, still) refl
      | inr more ↦ rw (more, later, freed) refl
    ]

remove_found-faulted :
    (memory : Memory) (c : SocketConnection) (previous next : ℕ)
    → memory.heap c.address ≡ some (cell c next)
    → memory.heap previous ≡ none
    → previous ≢ 0
    → remove_found memory c.address (some previous) ≡ faulted
unfolding remove_found
remove_found-faulted memory c previous next holds freed not_first =
    ap
      (λ v. on_cell v (λ d.
        then_do (unlink_at memory previous c.address d.next)
          (λ m. done (some (m, release d.connection)))))
      holds
    ∙ ap (λ o. then_do o (λ m. done (some (m, release c))))
        (unlink_at-faulted memory c previous next holds freed not_first)

-- When the connection in front of one is removed between the loop of the removal of that one and
-- the rest of it, the rest writes where no cell is. The heap holds the list, and there is fuel
-- for each connection and one more.
pub remove_during_removal-faulted :
    (fuel : ℕ) (memory : Memory) (xs : List SocketConnection) (p c : SocketConnection)
    (ys : List SocketConnection)
    → IsHeld memory (xs ++ p ∷ c ∷ ys)
    → length (xs ++ p ∷ c ∷ ys) < fuel
    → remove_during_removal fuel memory c.address p.address ≡ faulted
unfolding remove_during_removal
remove_during_removal-faulted fuel memory xs p c ys held less =
    let apart = middle-IsAbsent xs p (c ∷ ys) held.0 in
    let (after, gives, still, freed) =
      rw (remove_connection-found xs p (c ∷ ys) apart.0) at
        (remove_at-Removed fuel memory (xs ++ p ∷ c ∷ ys) p.address held less) in
    let (_, (next, holds)) = cell_at after.heap after.head xs c ys still.1 in
    let same = append_assoc xs (p ∷ []) (c ∷ ys) in
    let held' : IsHeld memory ((xs ++ p ∷ []) ++ c ∷ ys) = rw same held in
    let found : search fuel memory.heap c.address 0 memory.head ≡ done (some p.address) =
      search-found fuel memory.heap 0 memory.head (xs ++ p ∷ []) c ys
        (middle-IsAbsent (xs ++ p ∷ []) c ys held'.0).0 held'.1
        (omega (arith, length-append xs (p ∷ []), length-append xs (p ∷ c ∷ ys), less))
      ∙ ap (λ q. done (some q)) (last_address_last 0 xs p) in
    ap
      (λ o. then_do o (λ f.
        then_do (remove_at fuel memory p.address)
          (λ r. remove_found (after_removal memory r) c.address f)))
      found
    ∙ ap (λ o. then_do o (λ r. remove_found (after_removal memory r) c.address (some p.address)))
        gives
    ∙ remove_found-faulted after c p.address next holds freed
        (cell_at memory.heap memory.head xs p (c ∷ ys) held.1).0
