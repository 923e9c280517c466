-- ===== src/Socket/Pointers.antt =====
-- `add_connection` and `remove_connection` of src/libs/socket/socket.c as they are written, over pointers:
-- a connection is a cell of a heap at its address, with the address of the next one; 0 is the null
-- pointer. Loops run on fuel.
pub mod Seg
pub mod Steps
pub mod Unlink
pub mod Refinement
pub mod Adding
pub mod Killing
pub mod Runs
mod Tests
pub mod Race
use geo_ns_core.Common.{
  ℕ, zero, suc, Bool, true, false, List, [], ◌++◌, Option, none, some, ◌==◌, if◌then◌else◌,
}
use geo_ns_core.Socket.{SocketConnection, Effect, release}

pub record Cell : Type 0 where
  pub connection : SocketConnection
  pub next : ℕ

abbrev pub Heap : Type 0
Heap = ℕ → Option Cell

-- The heap with `*head`.
pub record Memory : Type 0 where
  pub head : ℕ
  pub heap : Heap

-- Reading or writing where no cell is, or no result yet on the fuel, or a result.
pub data Outcome (A : Type 0) : Type 0 where
  faulted running : Outcome A
  done : A → Outcome A

abbrev pub cell : SocketConnection → ℕ → Cell
cell connection next = record { connection = connection; next = next }

unfoldable pub write : Heap → ℕ → Option Cell → Heap
write heap p content q = if q == p then content else heap q

module _ {A B : Type 0} where
  abbrev pub then_do : Outcome A → (A → Outcome B) → Outcome B
  then_do faulted next = faulted
  then_do running next = running
  then_do (done a) next = next a

  abbrev pub on_cell : Option A → (A → Outcome B) → Outcome B
  on_cell none next = faulted
  on_cell (some a) next = next a

-- `p->next = q`
unfoldable pub set_next : Heap → ℕ → ℕ → Outcome Heap
unfolding write
set_next heap p q = on_cell (heap p) (λ c. done (write heap p (some (record c { next = q }))))

unfoldable pub free : Heap → ℕ → Outcome Heap
unfolding write
free heap p = on_cell (heap p) (λ c. done (write heap p none))

-- The loop of `add_connection`: the last cell from `current` on.
unfoldable pub last_of : ℕ → Heap → ℕ → Outcome ℕ
last_of zero heap current = running
last_of (suc fuel) heap current =
    on_cell (heap current)
      (λ c. let rest = last_of fuel heap c.next in if c.next == 0 then done current else rest)

-- Where `add_connection` is going to write; `none` is the head.
unfoldable pub find_end : ℕ → Memory → Outcome (Option ℕ)
unfolding last_of
find_end fuel memory =
    if memory.head == 0
    then done none
    else then_do (last_of fuel memory.heap memory.head) (λ p. done (some p))

-- The write.
unfoldable pub link_at : Memory → ℕ → Option ℕ → Outcome Memory
unfolding set_next
link_at memory connection none = done (record memory { head = connection })
link_at memory connection (some p) =
    then_do (set_next memory.heap p connection) (λ heap. done (record memory { heap = heap }))

-- `connection->next = NULL`
unfoldable pub clear_next : Memory → ℕ → Outcome Memory
unfolding set_next
clear_next memory connection =
    then_do (set_next memory.heap connection 0) (λ heap. done (record memory { heap = heap }))

unfoldable pub add_at : ℕ → Memory → ℕ → Outcome Memory
unfolding find_end link_at clear_next
add_at fuel memory connection =
    then_do (clear_next memory connection)
      (λ cleared. then_do (find_end fuel cleared) (link_at cleared connection))

-- The loop of `remove_connection`: what stands before the connection, 0 at the head; `none` is the
-- answer 0.
unfoldable pub search : ℕ → Heap → ℕ → ℕ → ℕ → Outcome (Option ℕ)
search zero heap connection previous current = running
search (suc fuel) heap connection previous current =
    let step = on_cell (heap current) (λ c.
      let rest = search fuel heap connection current c.next in
      if c.next == 0 then done none else rest) in
    if current == connection then done (some previous) else step

-- The pointers of the four cases. With no next cell, the cell is freed before the one in front of it is
-- written.
unfoldable pub unlink_at : Memory → ℕ → ℕ → ℕ → Outcome Memory
unfolding set_next free
unlink_at memory previous current next =
    if next == 0
    then (if previous == 0
        then then_do (free memory.heap memory.head)
            (λ heap. done (record { head = 0; heap = heap }))
        else then_do (free memory.heap current) (λ heap.
          then_do (set_next heap previous 0) (λ heap'. done (record memory { heap = heap' }))))
    else (if previous == 0
        then then_do (free memory.heap current) (λ heap. done (record { head = next; heap = heap }))
        else then_do (set_next memory.heap previous next)
            (λ heap. then_do (free heap current) (λ heap'. done (record memory { heap = heap' }))))

-- The removal of what the loop has found.
unfoldable pub remove_found : Memory → ℕ → Option ℕ → Outcome (Option (Memory × List Effect))
unfolding unlink_at release
remove_found memory connection none = done none
remove_found memory connection (some previous) = on_cell (memory.heap connection) (λ c.
    then_do (unlink_at memory previous connection c.next)
      (λ after. done (some (after, release c.connection))))

unfoldable pub remove_at : ℕ → Memory → ℕ → Outcome (Option (Memory × List Effect))
unfolding search remove_found
remove_at fuel memory connection =
    if memory.head == 0
    then done none
    else then_do (search fuel memory.heap connection 0 memory.head) (remove_found memory connection)

abbrev pub after_removal : Memory → Option (Memory × List Effect) → Memory
after_removal memory none = memory
after_removal memory (some (after, effects)) = after

abbrev pub effects_of : Option (Memory × List Effect) → List Effect
effects_of none = []
effects_of (some (after, effects)) = effects

-- The loop of `kill_socket_server`, from `current` on.
unfoldable pub kill_at : ℕ → Memory → ℕ → Outcome (Memory × List Effect)
kill_at zero memory current = running
kill_at (suc fuel) memory current =
    let round = on_cell (memory.heap current) (λ c.
      then_do (remove_at (suc fuel) memory current) (λ r.
        then_do (kill_at fuel (after_removal memory r) c.next)
          (λ rest. done (rest.0, effects_of r ++ rest.1)))) in
    if current == 0 then done (memory, []) else round
