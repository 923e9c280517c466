-- ===== src/Socket/Pointers/Runs.antt =====
-- Any sequence of `add_connection` and `remove_connection`, over pointers and on lists.
use geo_ns_core.Common.{
  ℕ, suc, ◌<◌, ◌+◌, ◌≡◌, ◌≢◌, refl, ◌∙◌, ap, List, [], ◌∷◌, ◌++◌, Option, none, some, arith, length,
}
use geo_ns_core.Socket.{SocketConnection, Effect, add_connection, remove_connection, removed}
use geo_ns_core.Socket.Removal.{IsAbsent}
use geo_ns_core.Socket.Pointers.{
  Memory, cell, write, Outcome, done, then_do, add_at, remove_at, after_removal, effects_of,
}
use geo_ns_core.Socket.Pointers.Seg.{write-same, frame}
use geo_ns_core.Socket.Pointers.Unlink.{IsHeld}
use geo_ns_core.Socket.Pointers.Refinement.{Removed, remove_at-Removed}
use geo_ns_core.Socket.Pointers.Adding.{add_at-IsHeld}

-- A new connection with what its `next` is after `memalloc`, and the removal of an address.
pub data Operation : Type 0 where
  adds : SocketConnection → ℕ → Operation
  removes : ℕ → Operation

-- `memalloc`, and the fields that are set before `add_connection`.
abbrev pub allocated : Memory → SocketConnection → ℕ → Memory
allocated memory c next = record memory { heap = write memory.heap c.address (some (cell c next)) }

unfoldable pub run_at : ℕ → Memory → List Operation → Outcome (Memory × List Effect)
run_at fuel memory [] = done (memory, [])
run_at fuel memory (adds c next ∷ rest) =
    then_do (add_at fuel (allocated memory c next) c.address) (λ after. run_at fuel after rest)
run_at fuel memory (removes a ∷ rest) = then_do (remove_at fuel memory a) (λ r.
    then_do (run_at fuel (after_removal memory r) rest)
      (λ end. done (end.0, effects_of r ++ end.1)))

unfoldable pub run : List SocketConnection → List Operation → List SocketConnection × List Effect
run cs [] = (cs, [])
run cs (adds c next ∷ rest) = run (add_connection cs c) rest
run cs (removes a ∷ rest) =
    let (left, effects) = removed cs (remove_connection cs a) in
    let end = run left rest in (end.0, effects ++ end.1)

-- Every new connection has an address that is not null and not on the list.
abbrev pub IsRunnable : List SocketConnection → List Operation → Type 0
IsRunnable cs [] = Unit
IsRunnable cs (adds c next ∷ rest) =
    (c.address ≢ 0) × IsAbsent c.address cs × IsRunnable (add_connection cs c) rest
IsRunnable cs (removes a ∷ rest) = IsRunnable (removed cs (remove_connection cs a)).0 rest

length-removed :
    (cs : List SocketConnection) (a : ℕ)
    → length (removed cs (remove_connection cs a)).0 < suc (length cs)
unfolding remove_connection
length-removed [] a = ground arith
length-removed (c ∷ cs) a = ground (arith, length-removed cs a)

length-add_connection :
    (cs : List SocketConnection) (c : SocketConnection)
    → length (add_connection cs c) ≡ suc (length cs)
unfolding add_connection
length-add_connection [] c = refl
length-add_connection (x ∷ cs) c = ap (λ n. suc n) (length-add_connection cs c)

-- What the rest of a run needs of a removal.
abbrev Goes :
    Memory
    → List SocketConnection
    → Option (List SocketConnection × List Effect)
    → Outcome (Option (Memory × List Effect))
    → Type 0
Goes memory cs o outcome =
    (r : Option (Memory × List Effect)) × (outcome ≡ done r)
    × IsHeld (after_removal memory r) (removed cs o).0
    × (effects_of r ≡ (removed cs o).1)

goes :
    (memory : Memory) (cs : List SocketConnection) (a : ℕ)
    (o : Option (List SocketConnection × List Effect))
    (outcome : Outcome (Option (Memory × List Effect)))
    → IsHeld memory cs
    → Removed a o outcome
    → Goes memory cs o outcome
goes memory cs a none outcome held e = (none, e, held, refl)
goes memory cs a (some (rest, effects)) outcome held (after, e, still, freed) =
    (some (after, effects), e, still, refl)

run_at-removes :
    (fuel : ℕ) (memory : Memory) (a : ℕ) (rest : List Operation) (r : Option (Memory × List Effect))
    (end : Memory × List Effect)
    → remove_at fuel memory a ≡ done r
    → run_at fuel (after_removal memory r) rest ≡ done end
    → run_at fuel memory (removes a ∷ rest) ≡ done (end.0, effects_of r ++ end.1)
unfolding run_at
run_at-removes fuel memory a rest r end removal ends =
    ap
      (λ o. then_do o (λ x.
        then_do (run_at fuel (after_removal memory x) rest) (λ y. done (y.0, effects_of x ++ y.1))))
      removal
    ∙ ap (λ o. then_do o (λ y. done (y.0, effects_of r ++ y.1))) ends

run_at-adds :
    (fuel : ℕ) (memory after : Memory) (c : SocketConnection) (next : ℕ) (rest : List Operation)
    (end : Memory × List Effect)
    → add_at fuel (allocated memory c next) c.address ≡ done after
    → run_at fuel after rest ≡ done end
    → run_at fuel memory (adds c next ∷ rest) ≡ done end
unfolding run_at
run_at-adds fuel memory after c next rest end addition ends =
    ap (λ o. then_do o (λ m. run_at fuel m rest)) addition ∙ ends

run_at-nil : (fuel : ℕ) (memory : Memory) → run_at fuel memory [] ≡ done (memory, [])
unfolding run_at
run_at-nil fuel memory = refl

-- From a heap that holds a list of connections at different addresses, any run of additions and
-- removals over pointers, with fuel for each connection and operation and one more, comes to an
-- end, reads and writes only where a cell is, gives back what the run on the list gives back, and
-- ends in a heap that holds the list that the run on the list ends in. A new connection stands in
-- a cell of its own, whose address is not null and not on the list.
pub run_at-run :
    (fuel : ℕ) (memory : Memory) (cs : List SocketConnection) (operations : List Operation)
    → IsHeld memory cs
    → IsRunnable cs operations
    → length cs + length operations < fuel
    → (after : Memory) × (run_at fuel memory operations ≡ done (after, (run cs operations).1))
      × IsHeld after (run cs operations).0
unfolding run
run_at-run fuel memory cs [] held ok less = (memory, run_at-nil fuel memory, held)
run_at-run fuel memory cs (adds c next ∷ rest) held (not_null, fresh, ok) less =
    let content = some (cell c next) in
    let kept = frame memory.heap c.address content memory.head cs 0 fresh held.1 in
    let (after, gives, still) =
      add_at-IsHeld fuel (allocated memory c next) cs c next (held.0, kept) fresh not_null
        (write-same memory.heap c.address content) (omega arith) in
    let (end, ends, last) =
      run_at-run fuel after (add_connection cs c) rest still ok
        (omega (arith, length-add_connection cs c)) in
    (end, run_at-adds fuel memory after c next rest _ gives ends, last)
run_at-run fuel memory cs (removes a ∷ rest) held ok less =
    let (r, removal, still, gives) =
      goes memory cs a (remove_connection cs a) (remove_at fuel memory a) held
        (remove_at-Removed fuel memory cs a held (omega arith)) in
    let (end, ends, last) =
      run_at-run fuel (after_removal memory r) (removed cs (remove_connection cs a)).0 rest still ok
        (omega (arith, length-removed cs a)) in
    (
      end,
      run_at-removes fuel memory a rest r _ removal ends
          ∙ ap (λ e. done (end, e ++ (run (removed cs (remove_connection cs a)).0 rest).1)) gives,
      last,
    )
