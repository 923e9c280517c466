-- ===== src/Socket/Pointers/Adding.antt =====
-- A connection is linked behind the last one.
use geo_ns_core.Common.{
  ℕ, ◌<◌, ◌≡◌, ◌≢◌, refl, ◌∙◌, ap, sym, List, [], ◌∷◌, ◌++◌, Option, none, some, arith, length,
}
use geo_ns_core.Socket.{SocketConnection, add_connection}
use geo_ns_core.Socket.Removal.{IsAbsent, add_connection_lem}
use geo_ns_core.Socket.Pointers.{
  Heap, Memory, cell, write, done, then_do, set_next, find_end, link_at, clear_next, add_at,
}
use geo_ns_core.Socket.Pointers.Seg.{
  Seg, Distinct, write-same, write-other, frame, append, last_address, last-IsAbsent, relink,
}
use geo_ns_core.Socket.Pointers.Unlink.{IsHeld, IsAbsent-join}
use geo_ns_core.Socket.Pointers.Steps.{last_of-Seg, not_null-Seg}

Distinct-last :
    (cs : List SocketConnection) (c : SocketConnection)
    → Distinct cs
    → IsAbsent c.address cs
    → Distinct (cs ++ c ∷ [])
Distinct-last [] c d h = (tt, tt)
Distinct-last (x ∷ xs) c (absent, d) (ne, h) = (
  IsAbsent-join xs x.address (c ∷ []) absent ((λ same. ne (sym same)), tt),
  Distinct-last xs c d h,
)

abbrev pub cleared_heap : Memory → SocketConnection → Heap
cleared_heap memory c = write memory.heap c.address (some (cell c 0))

pub find_end-Seg :
    (fuel : ℕ) (memory : Memory) (x : SocketConnection) (xs : List SocketConnection)
    → Seg memory.heap memory.head (x ∷ xs) 0
    → length xs < fuel
    → find_end fuel memory ≡ done (some (last_address x.address xs))
unfolding find_end
find_end-Seg fuel memory x xs s less =
    let not_empty = not_null-Seg memory.heap memory.head [] x xs s in
    rw (not_empty, last_of-Seg fuel memory.heap memory.head x xs s less) refl

pub clear_next-cell :
    (memory : Memory) (c : SocketConnection) (next : ℕ)
    → memory.heap c.address ≡ some (cell c next)
    → clear_next memory c.address ≡ done (record memory { heap = cleared_heap memory c })
unfolding clear_next set_next
clear_next-cell memory c next holds = rw holds refl

add_at-step :
    (fuel : ℕ) (memory : Memory) (c : SocketConnection) (next : ℕ) (end : Option ℕ) (after : Memory)
    → memory.heap c.address ≡ some (cell c next)
    → find_end fuel (record memory { heap = cleared_heap memory c }) ≡ done end
    → link_at (record memory { heap = cleared_heap memory c }) c.address end ≡ done after
    → add_at fuel memory c.address ≡ done after
unfolding add_at
add_at-step fuel memory c next end after holds ends gives =
    ap (λ o. then_do o (λ m. then_do (find_end fuel m) (link_at m c.address)))
      (clear_next-cell memory c next holds)
    ∙ ap (λ o. then_do o (link_at (record memory { heap = cleared_heap memory c }) c.address)) ends
    ∙ gives

-- On a heap that holds a list of connections, with fuel for each of them and one more, `add_connection`
-- over pointers comes to an end without reading or writing where nothing is, and leaves the heap
-- holding the list with the connection at its end; the connection stands in a cell of its own, whose
-- address is not null and not on the list.
pub add_at-IsHeld :
    (fuel : ℕ) (memory : Memory) (cs : List SocketConnection) (c : SocketConnection) (next : ℕ)
    → IsHeld memory cs
    → IsAbsent c.address cs
    → c.address ≢ 0
    → memory.heap c.address ≡ some (cell c next)
    → length cs < fuel
    → (after : Memory) × (add_at fuel memory c.address ≡ done after)
      × IsHeld after (add_connection cs c)
add_at-IsHeld fuel memory [] c next held fresh not_null holds less = (
  record { head = c.address; heap = cleared_heap memory c },
  add_at-step fuel memory c next none (record { head = c.address; heap = cleared_heap memory c })
      holds (unfold find_end in rw held.1 refl) (unfold link_at in refl),
  rw (add_connection_lem [] c)
      ((tt, tt), (refl, not_null, (0, write-same memory.heap c.address (some (cell c 0)), refl))),
)
add_at-IsHeld fuel memory (x ∷ xs) c next held fresh not_null holds less =
    let cleared = cleared_heap memory c in
    let kept = frame memory.heap c.address (some (cell c 0)) memory.head (x ∷ xs) 0 fresh held.1 in
    let (last, linked, front) = relink cleared memory.head x xs 0 c.address held.0 kept in
    let end = last_address x.address xs in
    let after : Memory = record memory { heap = write cleared end (some (cell last c.address)) } in
    let stays : after.heap c.address ≡ some (cell c 0) =
      write-other cleared end c.address (some (cell last c.address))
        (λ same. last-IsAbsent c.address x xs fresh (sym same))
      ∙ write-same memory.heap c.address (some (cell c 0)) in
    (
      after,
      add_at-step fuel memory c next (some end) after holds
          (find_end-Seg fuel (record memory { heap = cleared }) x xs kept (omega arith))
          (unfold link_at set_next in rw linked refl),
      rw (add_connection_lem (x ∷ xs) c) (
        Distinct-last (x ∷ xs) c held.0 fresh,
        append after.heap memory.head (x ∷ xs) c.address (c ∷ []) 0 front
            (refl, not_null, (0, stays, refl)),
      ),
    )
