-- ===== src/Socket/Pointers/Tests.antt =====
-- The operations over pointers at a concrete heap.
use geo_ns_core.Common.{ℕ, ◌≡◌, refl, [], ◌∷◌, List, none, some, arith, if◌then◌else◌, ◌==◌}
use geo_ns_core.Socket.{
  SocketConnection, connection_established, kill_connections, release, remove_connection,
  add_connection,
}
use geo_ns_core.Socket.Pointers.{Memory, cell, done, faulted, kill_at, remove_at}
use geo_ns_core.Socket.Pointers.Unlink.{IsHeld}
use geo_ns_core.Socket.Pointers.Adding.{cleared_heap}
use geo_ns_core.Socket.Pointers.Killing.{kill_at-kill_connections}
use geo_ns_core.Socket.Pointers.Runs.{adds, removes, run, run_at, Operation, run_at-run}
use geo_ns_core.Socket.Pointers.Race.{
  add_during_removal, add_during_removal-faulted, remove_during_removal,
  remove_during_removal-faulted,
}

abbrev client : ℕ → ℕ → SocketConnection
client address fd = record {
  address = address;
  fd = fd;
  peer_info = none;
  connection_status = connection_established;
  buffer_size_limit = 1024;
  buffer = none;
}

-- Two connections on the list, and a new one in a cell of its own.
abbrev memory : Memory
memory = record {
  head = 100;
  heap = λ p.
      if p == 100
      then some (cell (client 100 7) 200)
      else if p == 200
      then some (cell (client 200 8) 0)
      else if p == 300
      then some (cell (client 300 9) 100)
      else none;
}

memory-IsHeld : IsHeld memory (client 100 7 ∷ client 200 8 ∷ [])
memory-IsHeld = (
  (((omega arith), tt), (tt, tt)),
  (refl, (omega arith), (200, refl, (refl, (omega arith), (0, refl, refl)))),
)

abbrev operations : List Operation
operations = adds (client 300 9) 5 ∷ removes 100 ∷ removes 400 ∷ removes 300 ∷ []

run_at-run_example :
    (after : Memory) × (run_at 7 memory operations
      ≡ done (after, (run (client 100 7 ∷ client 200 8 ∷ []) operations).1))
    × IsHeld after (run (client 100 7 ∷ client 200 8 ∷ []) operations).0
unfolding add_connection remove_connection
run_at-run_example =
    run_at-run 7 memory (client 100 7 ∷ client 200 8 ∷ []) operations memory-IsHeld
      ((omega arith), ((omega arith), ((omega arith), tt)), tt) (omega arith)

kill_at-kill_connections_example :
    (after : Memory) × (kill_at 3 memory 100
      ≡ done (
        after,
        (kill_connections (client 100 7 ∷ client 200 8 ∷ []) (client 100 7 ∷ client 200 8 ∷ [])).1,
      ))
    × (after.head ≡ 0)
kill_at-kill_connections_example =
    kill_at-kill_connections 3 memory (client 100 7 ∷ client 200 8 ∷ []) memory-IsHeld (omega arith)

add_during_removal-faulted_example :
    ((after : Memory) × (remove_at 3
          (record memory { heap = cleared_heap memory (client 300 9) })
          200
        ≡ done (some (after, release (client 200 8))))
      × IsHeld after (client 100 7 ∷ []))
    × (add_during_removal 3 memory 300 200 ≡ faulted)
add_during_removal-faulted_example =
    add_during_removal-faulted 3 memory (client 100 7 ∷ []) (client 200 8) (client 300 9) 100
      memory-IsHeld ((omega arith), ((omega arith), tt)) refl (omega arith)

remove_during_removal-faulted_example : remove_during_removal 3 memory 200 100 ≡ faulted
remove_during_removal-faulted_example =
    remove_during_removal-faulted 3 memory [] (client 100 7) (client 200 8) [] memory-IsHeld
      (omega arith)
