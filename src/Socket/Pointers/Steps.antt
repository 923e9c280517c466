-- ===== src/Socket/Pointers/Steps.antt =====
-- The loops over the cells of a segment: with fuel for each cell they come to an end.
use geo_ns_core.Common.{
  ℕ, zero, suc, ◌<◌, ◌≡◌, refl, List, [], ◌∷◌, ◌++◌, none, some, ◌==◌, arith, length, true, false,
}
use geo_ns_core.Socket.{SocketConnection}
use geo_ns_core.Socket.Removal.{IsAbsent}
use geo_ns_core.Socket.Pointers.{Heap, done, last_of, search}
use geo_ns_core.Socket.Pointers.Seg.{Seg, last_address}

pub last_of-Seg :
    (fuel : ℕ) (heap : Heap) (p : ℕ) (c : SocketConnection) (cs : List SocketConnection)
    → Seg heap p (c ∷ cs) 0
    → length cs < fuel
    → last_of fuel heap p ≡ done (last_address c.address cs)
unfolding last_of
last_of-Seg zero heap p c cs s fuel = absurd (omega arith)
last_of-Seg (suc k) heap p c [] (e, not_null, (next, holds, ends)) fuel = rw (e, holds, ends) refl
last_of-Seg (suc k) heap p c (d ∷ cs) (e, not_null, (next, holds, s)) fuel =
    let more : (next == 0) ≡ false = let apart = s.1 in let same = s.0 in ground arith in
    rw (e, holds, more) (last_of-Seg k heap next d cs s (omega arith))

pub not_null-Seg :
    (heap : Heap) (p : ℕ) (xs : List SocketConnection) (c : SocketConnection)
    (ys : List SocketConnection)
    → Seg heap p (xs ++ c ∷ ys) 0
    → (p == 0) ≡ false
not_null-Seg heap p [] c ys (e, apart, held) = ground arith
not_null-Seg heap p (x ∷ xs) c ys (e, apart, held) = ground arith

pub search-found :
    (fuel : ℕ) (heap : Heap) (previous p : ℕ) (xs : List SocketConnection) (c : SocketConnection)
    (ys : List SocketConnection)
    → IsAbsent c.address xs
    → Seg heap p (xs ++ c ∷ ys) 0
    → length xs < fuel
    → search fuel heap c.address previous p ≡ done (some (last_address previous xs))
unfolding search
search-found zero heap previous p xs c ys h s fuel = absurd (omega arith)
search-found (suc k) heap previous p [] c ys h (e, not_null, held) fuel =
    let same : (p == c.address) ≡ true = ground arith in rw same refl
search-found (suc k) heap previous p (x ∷ xs) c ys (ne, h) (e, not_null, (next, holds, s)) fuel =
    let other : (p == c.address) ≡ false = ground arith in
    let more = not_null-Seg heap next xs c ys s in
    rw (other, e, holds, more) (search-found k heap x.address next xs c ys h s (omega arith))

pub search-IsAbsent :
    (fuel : ℕ) (heap : Heap) (a previous p : ℕ) (x : SocketConnection) (xs : List SocketConnection)
    → IsAbsent a (x ∷ xs)
    → Seg heap p (x ∷ xs) 0
    → length xs < fuel
    → search fuel heap a previous p ≡ done none
unfolding search
search-IsAbsent zero heap a previous p x xs h s fuel = absurd (omega arith)
search-IsAbsent (suc k) heap a previous p x [] (ne, h) (e, not_null, (next, holds, ends)) fuel =
    let other : (p == a) ≡ false = ground arith in rw (other, e, holds, ends) refl
search-IsAbsent (suc k) heap a previous p x (y ∷ xs) (ne, h) (e, not_null, (next, holds, s)) fuel =
    let other : (p == a) ≡ false = ground arith in
    let more : (next == 0) ≡ false = let apart = s.1 in let same = s.0 in ground arith in
    rw (other, e, holds, more) (search-IsAbsent k heap a x.address next y xs h s (omega arith))
