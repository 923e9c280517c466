-- ===== src/Socket/Pointers/Unlink.antt =====
-- A cell of a heap that holds a list of connections is unlinked and freed.
use geo_ns_core.Common.{
  ℕ, ◌≡◌, refl, ◌∙◌, ap, sym, List, [], ◌∷◌, ◌++◌, none, some, ◌==◌, arith, false, append-nil,
}
use geo_ns_core.Socket.{SocketConnection, release}
use geo_ns_core.Socket.Removal.{IsAbsent}
use geo_ns_core.Socket.Pointers.{
  Heap, Memory, cell, write, done, on_cell, then_do, set_next, free, unlink_at, remove_found,
}
use geo_ns_core.Socket.Pointers.Seg.{
  Seg, Distinct, write-same, write-other, frame, append, split, last_address, last-IsAbsent, relink,
}
use geo_ns_core.Socket.Pointers.Steps.{not_null-Seg}

-- The cells from the head on hold the connections of the list.
abbrev pub IsHeld : Memory → List SocketConnection → Type 0
IsHeld memory cs = Distinct cs × Seg memory.heap memory.head cs 0

IsAbsent-front :
    (xs : List SocketConnection) (a : ℕ) (ys : List SocketConnection)
    → IsAbsent a (xs ++ ys)
    → IsAbsent a xs × IsAbsent a ys
IsAbsent-front [] a ys h = (tt, h)
IsAbsent-front (x ∷ xs) a ys (ne, h) = let (f, b) = IsAbsent-front xs a ys h in ((ne, f), b)

pub IsAbsent-join :
    (xs : List SocketConnection) (a : ℕ) (ys : List SocketConnection)
    → IsAbsent a xs
    → IsAbsent a ys
    → IsAbsent a (xs ++ ys)
IsAbsent-join [] a ys h k = k
IsAbsent-join (x ∷ xs) a ys (ne, h) k = (ne, IsAbsent-join xs a ys h k)

pub middle-IsAbsent :
    (xs : List SocketConnection) (c : SocketConnection) (ys : List SocketConnection)
    → Distinct (xs ++ c ∷ ys)
    → IsAbsent c.address xs × IsAbsent c.address ys
middle-IsAbsent [] c ys d = (tt, d.0)
middle-IsAbsent (x ∷ xs) c ys (absent, d) =
    let (front, back) = middle-IsAbsent xs c ys d in
    let (_, behind) = IsAbsent-front xs x.address (c ∷ ys) absent in
    ((λ same. behind.0 (sym same), front), back)

without-Distinct :
    (xs : List SocketConnection) (c : SocketConnection) (ys : List SocketConnection)
    → Distinct (xs ++ c ∷ ys)
    → Distinct xs × Distinct (xs ++ ys)
without-Distinct [] c ys d = (tt, d.1)
without-Distinct (x ∷ xs) c ys (absent, d) =
    let (front, whole) = without-Distinct xs c ys d in
    let (before, behind) = IsAbsent-front xs x.address (c ∷ ys) absent in
    ((before, front), (IsAbsent-join xs x.address ys before behind.1, whole))

-- The last of the connections in front does not stand among those behind.
before-IsAbsent :
    (x : SocketConnection) (xs ys : List SocketConnection)
    → Distinct (x ∷ xs ++ ys)
    → IsAbsent (last_address x.address xs) ys
before-IsAbsent x [] ys d = d.0
before-IsAbsent x (y ∷ xs) ys d = before-IsAbsent y xs ys d.1

last-not_null :
    (heap : Heap) (p : ℕ) (x : SocketConnection) (xs : List SocketConnection) (q : ℕ)
    → Seg heap p (x ∷ xs) q
    → (last_address x.address xs == 0) ≡ false
last-not_null heap p x [] q (e, apart, s) = ground arith
last-not_null heap p x (y ∷ xs) q (e, apart, (next, holds, s)) = last-not_null heap next y xs q s

first-Unlinked :
    (memory : Memory) (c : SocketConnection) (next : ℕ) (ys : List SocketConnection)
    → memory.head ≡ c.address
    → IsAbsent c.address ys
    → memory.heap c.address ≡ some (cell c next)
    → Seg memory.heap next ys 0
    → (after : Memory) × (unlink_at memory 0 c.address next ≡ done after)
      × Seg after.heap after.head ys 0
      × (after.heap c.address ≡ none)
unfolding unlink_at free
first-Unlinked memory c next [] e h holds s = (
  record { head = 0; heap = write memory.heap memory.head none },
  (let held : memory.heap memory.head ≡ some (cell c next) = rw e holds in rw (s, held) refl),
  refl,
  rw e (write-same memory.heap c.address none),
)
first-Unlinked memory c next (y ∷ ys) e h holds s =
    let more = not_null-Seg memory.heap next [] y ys s in
    (
      record { head = next; heap = write memory.heap c.address none },
      rw (more, holds) refl,
      frame memory.heap c.address none next (y ∷ ys) 0 h s,
      write-same memory.heap c.address none,
    )

inner-Unlinked :
    (memory : Memory) (x : SocketConnection) (xs : List SocketConnection) (c : SocketConnection)
    (next : ℕ) (ys : List SocketConnection)
    → Distinct (x ∷ xs ++ c ∷ ys)
    → Seg memory.heap memory.head (x ∷ xs) c.address
    → memory.heap c.address ≡ some (cell c next)
    → Seg memory.heap next ys 0
    → (after : Memory) × (unlink_at memory (last_address x.address xs) c.address next ≡ done after)
      × Seg after.heap after.head (x ∷ xs ++ ys) 0
      × (after.heap c.address ≡ none)
unfolding unlink_at free set_next
inner-Unlinked memory x xs c next [] d front holds s =
    let before = last_address x.address xs in
    let (absent, _) = middle-IsAbsent (x ∷ xs) c [] d in
    let (distinct, _) = without-Distinct (x ∷ xs) c [] d in
    let freed = write memory.heap c.address none in
    let (last, linked, front') =
      relink freed memory.head x xs c.address 0 distinct
        (frame memory.heap c.address none memory.head (x ∷ xs) c.address absent front) in
    let not_first = last-not_null memory.heap memory.head x xs c.address front in
    (
      record memory { heap = write freed before (some (cell last 0)) },
      rw (s, not_first, holds, linked) refl,
      rw (append-nil xs) front',
      write-other freed before c.address (some (cell last 0))
            (λ same. last-IsAbsent c.address x xs absent (sym same))
          ∙ write-same memory.heap c.address none,
    )
inner-Unlinked memory x xs c next (y ∷ ys) d front holds s =
    let before = last_address x.address xs in
    let (absent, behind) = middle-IsAbsent (x ∷ xs) c (y ∷ ys) d in
    let (distinct, rest) = without-Distinct (x ∷ xs) c (y ∷ ys) d in
    let (last, linked, front') =
      relink memory.heap memory.head x xs c.address next distinct front in
    let heap = write memory.heap before (some (cell last next)) in
    let not_first = last-not_null memory.heap memory.head x xs c.address front in
    let more = not_null-Seg memory.heap next [] y ys s in
    let kept =
      write-other memory.heap before c.address (some (cell last next))
        (λ same. last-IsAbsent c.address x xs absent (sym same))
      ∙ holds in
    (
      record memory { heap = write heap c.address none },
      rw (more, not_first, linked, kept) refl,
      append (write heap c.address none) memory.head (x ∷ xs) next (y ∷ ys) 0
          (frame heap c.address none memory.head (x ∷ xs) next absent front')
          (frame heap c.address none next (y ∷ ys) 0 behind (
            frame memory.heap before (some (cell last next)) next (y ∷ ys) 0
              (before-IsAbsent x xs (y ∷ ys) rest) s)),
      write-same heap c.address none,
    )

remove_found-step :
    (memory : Memory) (c : SocketConnection) (previous next : ℕ) (after : Memory)
    → memory.heap c.address ≡ some (cell c next)
    → unlink_at memory previous c.address next ≡ done after
    → remove_found memory c.address (some previous) ≡ done (some (after, release c))
unfolding remove_found
remove_found-step memory c previous next after holds gives =
    ap
      (λ v. on_cell v (λ d.
        then_do (unlink_at memory previous c.address d.next)
          (λ m. done (some (m, release d.connection)))))
      holds
    ∙ ap (λ o. then_do o (λ m. done (some (m, release c)))) gives

pub remove_found_lem :
    (memory : Memory) (xs : List SocketConnection) (c : SocketConnection)
    (ys : List SocketConnection)
    → IsHeld memory (xs ++ c ∷ ys)
    → (after : Memory) × (remove_found memory c.address (some (last_address 0 xs))
        ≡ done (some (after, release c)))
      × IsHeld after (xs ++ ys)
      × (after.heap c.address ≡ none)
remove_found_lem memory [] c ys (d, (e, not_null, (next, holds, s))) =
    let (after, gives, held, freed) = first-Unlinked memory c next ys e d.0 holds s in
    (after, remove_found-step memory c 0 next after holds gives, (d.1, held), freed)
remove_found_lem memory (x ∷ xs) c ys (d, s) =
    let (m, front, back) = split memory.heap memory.head (x ∷ xs) (c ∷ ys) 0 s in
    let (e, not_null, (next, holds, s')) = back in
    let (after, gives, held, freed) =
      inner-Unlinked memory x xs c next ys d (rw (← e) front) holds s' in
    (
      after,
      remove_found-step memory c (last_address x.address xs) next after holds gives,
      ((without-Distinct (x ∷ xs) c ys d).1, held),
      freed,
    )
