-- ===== src/Socket/Balance.antt =====
-- Counting one descriptor: how often effects close it and how many connections of a list hold it.
use geo_ns_core.Common.{
  ℕ, ◌+◌, ◌≡◌, refl, ap, ◌∙◌, List, [], ◌∷◌, ◌++◌, Option, none, some, arith, ◌==◌, if◌then◌else◌,
  Bool-cases, inl, inr,
}
use geo_ns_core.Socket.{
  SocketConnection, ConnectionStatus, not_connected, connection_established, Effect, closed,
  freed_buffer, freed, received, freed_server, free_buffer, close_if, add_connection, release,
  keep_front, remove_connection, removed, Round, after_callback, close_all, client_rounds,
  set_buffer, no_memory, accept_failed, no_client_memory, no_thread, started, Event, accepting,
  handling, CallbackResult, failed, success, other,
}

-- One, where the descriptor is the one that is counted.
abbrev pub one : ℕ → ℕ → ℕ
one x fd = if fd == x then 1 else 0

-- How often a descriptor is closed.
abbrev pub closes : ℕ → List Effect → ℕ
closes x [] = 0
closes x (closed fd ∷ effects) = one x fd + closes x effects
closes x (_ ∷ effects) = closes x effects

abbrev pub held_by : ℕ → ConnectionStatus → ℕ → ℕ
held_by x not_connected fd = 0
held_by x connection_established fd = one x fd

-- How many established connections of the list have the descriptor.
abbrev pub held : ℕ → List SocketConnection → ℕ
held x [] = 0
held x (c ∷ cs) = held_by x c.connection_status c.fd + held x cs

-- How often an event gets the descriptor from `accept`.
abbrev pub opens : ℕ → Event → ℕ
opens x (accepting no_memory) = 0
opens x (accepting (accept_failed address)) = 0
opens x (accepting (no_client_memory address fd)) = one x fd
opens x (accepting (no_thread address fd peer)) = one x fd
opens x (accepting (started address fd peer)) = one x fd
opens x (handling has_memory rounds connection) = 0

pub closes-append : (x : ℕ) (es fs : List Effect) → closes x (es ++ fs) ≡ closes x es + closes x fs
closes-append x [] fs = omega arith
closes-append x (closed fd ∷ es) fs = omega (arith, closes-append x es fs)
closes-append x (freed_buffer a ∷ es) fs = closes-append x es fs
closes-append x (freed a ∷ es) fs = closes-append x es fs
closes-append x (received fd n ∷ es) fs = closes-append x es fs
closes-append x (freed_server ∷ es) fs = closes-append x es fs

closes-free_buffer :
    (x a : ℕ) (buffer : Option ℕ) → closes x (free_buffer buffer a ++ freed a ∷ []) ≡ 0
closes-free_buffer x a none = refl
closes-free_buffer x a (some n) = refl

closes-close_if :
    (x fd : ℕ) (status : ConnectionStatus) → closes x (close_if status fd) ≡ held_by x status fd
closes-close_if x fd not_connected = refl
closes-close_if x fd connection_established = omega arith

pub closes-release :
    (x : ℕ) (c : SocketConnection) → closes x (release c) ≡ held_by x c.connection_status c.fd
unfolding release
closes-release x c = omega (
  arith,
  closes-append x (close_if c.connection_status c.fd)
      (free_buffer c.buffer c.address ++ freed c.address ∷ []),
  closes-free_buffer x c.address c.buffer,
  closes-close_if x c.fd c.connection_status,
)

-- What the list holds and what is closed.
abbrev pub balance : ℕ → List SocketConnection × List Effect → ℕ
balance x (cs, effects) = closes x effects + held x cs

balance-keep_front :
    (x : ℕ) (c : SocketConnection) (cs : List SocketConnection)
    (r : Option (List SocketConnection × List Effect))
    → balance x (removed cs r) ≡ held x cs
    → balance x (removed (c ∷ cs) (keep_front c r)) ≡ held x (c ∷ cs)
balance-keep_front x c cs none h = omega arith
balance-keep_front x c cs (some (ds, es)) h = omega (arith, h)

pub balance-remove :
    (x : ℕ) (cs : List SocketConnection) (a : ℕ)
    → balance x (removed cs (remove_connection cs a)) ≡ held x cs
unfolding remove_connection
balance-remove x [] a = refl
balance-remove x (c ∷ cs) a = elim (Bool-cases (c.address == a)) [
  | inl same ↦ rw same (omega (arith, closes-release x c))
  | inr different ↦
      rw different (balance-keep_front x c cs (remove_connection cs a) (balance-remove x cs a))
]

pub held-add_connection :
    (x : ℕ) (cs : List SocketConnection) (c : SocketConnection)
    → held x (add_connection cs c) ≡ held x cs + held_by x c.connection_status c.fd
unfolding add_connection
held-add_connection x [] c = omega arith
held-add_connection x (d ∷ cs) c = omega (arith, held-add_connection x cs c)

pub held-set_buffer :
    (x : ℕ) (c : SocketConnection) (cs : List SocketConnection)
    → held x (set_buffer c cs) ≡ held x cs
unfolding set_buffer
held-set_buffer x c [] = refl
held-set_buffer x c (d ∷ cs) = elim (Bool-cases (d.address == c.address)) [
  | inl same ↦ rw same refl
  | inr different ↦ rw different (omega (arith, held-set_buffer x c cs))
]

-- How often a descriptor is in a list of descriptors.
abbrev pub among : ℕ → List ℕ → ℕ
among x [] = 0
among x (fd ∷ fds) = one x fd + among x fds

-- The rounds go on after a callback that answers `result`, unless it answers -1.
abbrev pub unless_failed : CallbackResult → ℕ → ℕ
unless_failed failed n = 0
unless_failed success n = n
unless_failed other n = n

-- How often the callbacks of the rounds that are run close the descriptor themselves.
abbrev pub closes_of : ℕ → List Round → ℕ
closes_of x [] = 0
closes_of x (r ∷ rounds) =
    among x r.callback_closes + unless_failed r.callback_result (closes_of x rounds)

closes-after_callback :
    (x : ℕ) (result : CallbackResult) (fd n : ℕ) (rest : List Effect)
    → closes x (after_callback result fd n rest) ≡ unless_failed result (closes x rest)
closes-after_callback x failed fd n rest = refl
closes-after_callback x success fd n rest = refl
closes-after_callback x other fd n rest = refl

closes-close_all :
    (x : ℕ) (fds : List ℕ) (rest : List Effect)
    → closes x (close_all fds rest) ≡ among x fds + closes x rest
closes-close_all x [] rest = omega arith
closes-close_all x (fd ∷ fds) rest = omega (arith, closes-close_all x fds rest)

pub closes-client_rounds :
    (x fd : ℕ) (rounds : List Round) → closes x (client_rounds fd rounds) ≡ closes_of x rounds
unfolding client_rounds
closes-client_rounds x fd [] = refl
closes-client_rounds x fd (r ∷ rounds) =
    closes-close_all x r.callback_closes _
    ∙ ap (λ n. among x r.callback_closes + n)
        (closes-after_callback x r.callback_result fd r.buffer_size _
          ∙ ap (unless_failed r.callback_result) (closes-client_rounds x fd rounds))
