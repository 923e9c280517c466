-- ===== src/Socket/Pointers/Killing.antt =====
-- The loop of `kill_socket_server` over pointers.
use geo_ns_core.Common.{
  ℕ, zero, suc, ◌<◌, ◌≡◌, refl, ◌∙◌, ap, sym, List, [], ◌∷◌, ◌++◌, Option, some, arith, length,
  false, ◌==◌,
}
use geo_ns_core.Socket.{SocketConnection, Effect, release, kill_connections}
use geo_ns_core.Socket.Removal.{release_all, remove_connection-found, kill_connections_lem}
use geo_ns_core.Socket.Pointers.{
  Heap, Memory, cell, done, on_cell, then_do, remove_at, after_removal, effects_of, kill_at,
}
use geo_ns_core.Socket.Pointers.Seg.{Seg}
use geo_ns_core.Socket.Pointers.Unlink.{IsHeld}
use geo_ns_core.Socket.Pointers.Refinement.{remove_at-Removed}

Seg-first :
    (h k : Heap) (p q : ℕ) (cs : List SocketConnection) → Seg h p cs 0 → Seg k q cs 0 → p ≡ q
Seg-first h k p q [] s t = s ∙ sym t
Seg-first h k p q (c ∷ cs) s t = s.0 ∙ sym t.0

kill_at_step :
    (k : ℕ) (memory : Memory) (p : ℕ) (c : SocketConnection) (next : ℕ)
    (r : Option (Memory × List Effect)) (rest : Memory × List Effect)
    → (p == 0) ≡ false
    → memory.heap p ≡ some (cell c next)
    → remove_at (suc k) memory p ≡ done r
    → kill_at k (after_removal memory r) next ≡ done rest
    → kill_at (suc k) memory p ≡ done (rest.0, effects_of r ++ rest.1)
unfolding kill_at
kill_at_step k memory p c next r rest more holds removed ends = rw more (
    ap
      (λ v. on_cell v (λ d. then_do (remove_at (suc k) memory p) (λ x.
        then_do (kill_at k (after_removal memory x) d.next)
          (λ y. done (y.0, effects_of x ++ y.1)))))
      holds
    ∙ ap
        (λ o. then_do o (λ x.
          then_do (kill_at k (after_removal memory x) next) (λ y. done (y.0, effects_of x ++ y.1))))
        removed
    ∙ ap (λ o. then_do o (λ y. done (y.0, effects_of r ++ y.1))) ends)

kill_at_lem :
    (fuel : ℕ) (memory : Memory) (cs : List SocketConnection)
    → IsHeld memory cs
    → length cs < fuel
    → (after : Memory) × (kill_at fuel memory memory.head ≡ done (after, release_all cs))
      × IsHeld after []
kill_at_lem zero memory cs held less = absurd (omega arith)
kill_at_lem (suc k) memory [] held less = (memory, unfold kill_at in rw held.1 refl, held)
kill_at_lem (suc k) memory (c ∷ cs) (d, (e, not_null, (next, holds, s))) less =
    let (after, gives, still, freed) = rw (remove_connection-found [] c cs tt) at (
      remove_at-Removed (suc k) memory (c ∷ cs) c.address (d, (e, not_null, (next, holds, s)))
        less) in
    let (end, ends, empty) = kill_at_lem k after cs still (omega arith) in
    let first = Seg-first memory.heap after.heap next after.head cs s still.1 in
    (
      end,
      ap (kill_at (suc k) memory) e
          ∙ kill_at_step k memory c.address c next (some (after, release c)) (end, release_all cs)
              (ground arith) holds gives (ap (kill_at k after) first ∙ ends),
      empty,
    )

-- On a heap that holds the connections of a server, at different addresses, with fuel for each of
-- them and one more, the loop of `kill_socket_server` comes to an end though it frees the cell
-- that it stands on, reads and writes only where a cell is, gives back what the loop over the
-- list gives back, and leaves an empty list.
pub kill_at-kill_connections :
    (fuel : ℕ) (memory : Memory) (cs : List SocketConnection)
    → IsHeld memory cs
    → length cs < fuel
    → (after : Memory) × (kill_at fuel memory memory.head
        ≡ done (after, (kill_connections cs cs).1))
      × (after.head ≡ 0)
kill_at-kill_connections fuel memory cs held less =
    let (after, gives, empty) = kill_at_lem fuel memory cs held less in
    (after, rw (kill_connections_lem cs) gives, empty.1)
