-- ===== src/Socket/Pointers/Seg.antt =====
-- Segments of a heap: cells that follow each other.
use geo_ns_core.Common.{
  ℕ, ◌≡◌, ◌≢◌, refl, ◌∙◌, sym, List, [], ◌∷◌, ◌++◌, Option, some, ◌==◌, arith, true, false,
}
use geo_ns_core.Socket.{SocketConnection}
use geo_ns_core.Socket.Removal.{IsAbsent}
use geo_ns_core.Socket.Pointers.{Cell, Heap, cell, write}

-- From `p` the cells of the connections lead to `q`, each at its address, which is not null.
abbrev pub Seg : Heap → ℕ → List SocketConnection → ℕ → Type 0
Seg heap p [] q = p ≡ q
Seg heap p (c ∷ cs) q =
    (p ≡ c.address)
    × (c.address ≢ 0)
    × ((next : ℕ) × (heap c.address ≡ some (cell c next)) × Seg heap next cs q)

-- No two connections have the same address.
abbrev pub Distinct : List SocketConnection → Type 0
Distinct [] = Unit
Distinct (c ∷ cs) = IsAbsent c.address cs × Distinct cs

pub write-same : (heap : Heap) (p : ℕ) (content : Option Cell) → write heap p content p ≡ content
unfolding write
write-same heap p content = let same : (p == p) ≡ true = ground arith in rw same refl

pub write-other :
    (heap : Heap) (p q : ℕ) (content : Option Cell) → q ≢ p → write heap p content q ≡ heap q
unfolding write
write-other heap p q content ne = let other : (q == p) ≡ false = ground arith in rw other refl

-- A segment is kept by a write outside of it.
pub frame :
    (heap : Heap) (a : ℕ) (content : Option Cell) (p : ℕ) (cs : List SocketConnection) (q : ℕ)
    → IsAbsent a cs
    → Seg heap p cs q
    → Seg (write heap a content) p cs q
frame heap a content p [] q h e = e
frame heap a content p (c ∷ cs) q (ne, h) (e, not_null, (next, holds, s)) = (
  e,
  not_null,
  (next, write-other heap a c.address content ne ∙ holds, frame heap a content next cs q h s),
)

pub append :
    (heap : Heap) (p : ℕ) (xs : List SocketConnection) (m : ℕ) (ys : List SocketConnection) (q : ℕ)
    → Seg heap p xs m
    → Seg heap m ys q
    → Seg heap p (xs ++ ys) q
append heap p [] m ys q e t = rw e t
append heap p (x ∷ xs) m ys q (e, not_null, (next, holds, s)) t =
    (e, not_null, (next, holds, append heap next xs m ys q s t))

pub split :
    (heap : Heap) (p : ℕ) (xs ys : List SocketConnection) (q : ℕ)
    → Seg heap p (xs ++ ys) q
    → (m : ℕ) × Seg heap p xs m × Seg heap m ys q
split heap p [] ys q s = (p, refl, s)
split heap p (x ∷ xs) ys q (e, not_null, (next, holds, s)) =
    let (m, front, back) = split heap next xs ys q s in
    (m, (e, not_null, (next, holds, front)), back)

-- The address of the last of some connections, or `previous`.
abbrev pub last_address : ℕ → List SocketConnection → ℕ
last_address previous [] = previous
last_address previous (c ∷ cs) = last_address c.address cs

pub last-IsAbsent :
    (a : ℕ) (c : SocketConnection) (cs : List SocketConnection)
    → IsAbsent a (c ∷ cs)
    → last_address c.address cs ≢ a
last-IsAbsent a c [] h = h.0
last-IsAbsent a c (d ∷ cs) h = last-IsAbsent a d cs h.1

-- The last cell of a segment is led to another end.
pub relink :
    (heap : Heap) (p : ℕ) (c : SocketConnection) (cs : List SocketConnection) (m n : ℕ)
    → Distinct (c ∷ cs)
    → Seg heap p (c ∷ cs) m
    → (last : SocketConnection) × (heap (last_address c.address cs) ≡ some (cell last m))
      × Seg (write heap (last_address c.address cs) (some (cell last n))) p (c ∷ cs) n
relink heap p c [] m n d (e, not_null, (next, holds, s)) =
    (c, rw s at holds, (e, not_null, (n, write-same heap c.address (some (cell c n)), refl)))
relink heap p c (d ∷ cs) m n (absent, distinct) (e, not_null, (next, holds, s)) =
    let (last, holds', s') = relink heap next d cs m n distinct s in
    (
      last,
      holds',
      (
        e,
        not_null,
        (
          next,
          write-other heap (last_address d.address cs) c.address (some (cell last n))
                (λ same. last-IsAbsent c.address d cs absent (sym same))
              ∙ holds,
          s',
        ),
      ),
    )
