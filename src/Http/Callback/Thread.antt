-- ===== src/Http/Callback/Thread.antt =====
-- A client's thread (src/libs/socket/socket.c) that runs the callback of the web server
-- (src/libs/http/http.c) on its connection.
use geo_ns_core.Common.{ℕ, Bool, ap, ◌∙◌, ◌+◌, ◌≡◌, refl, List, [], ◌∷◌, ◌++◌, arith, true}
use geo_ns_core.Text.{Text}
use geo_ns_core.Io.{System}
use geo_ns_core.Socket.{
  connection_established, SocketConnection, CallbackResult, failed, success, other, Round,
  client_rounds, release, handle_client,
}
use geo_ns_core.Socket.Balance.{
  among, unless_failed, closes_of, one, held_by, closes, closes-append, closes-release,
  closes-client_rounds,
}
use geo_ns_core.Socket.Removal.{IsAbsent, buffered, handle_client_lem}
use geo_ns_core.Http.Routes.{HttpServer}
use geo_ns_core.Http.Parser.{HttpConfig}
use geo_ns_core.Http.Callback.{Action, printed, sent, killed, handled, http_server_callback}
use geo_ns_core.Http.Callback.Answer.{IsAnswer, IsHandled, http_server_callback-IsHandled}
use mathlib.Core.Path.{subst}

-- The descriptors that the actions of a callback kill.
abbrev pub killed_by : List Action → List ℕ
killed_by [] = []
killed_by (killed fd ∷ actions) = fd ∷ killed_by actions
killed_by (sent fd response ∷ actions) = killed_by actions
killed_by (printed text ∷ actions) = killed_by actions

abbrev kills : ℕ → List Action → ℕ
kills x actions = among x (killed_by actions)

one-same : (fd y : ℕ) → y ≡ fd → one fd y ≡ 1
one-same fd y e = ground arith

kills-failed : (fd : ℕ) (actions : List Action) → IsAnswer fd failed actions → kills fd actions ≡ 1
kills-failed fd [] h = absurd h
kills-failed fd (killed y ∷ []) h = omega (arith, one-same fd y h)
kills-failed fd (killed y ∷ a ∷ actions) h = absurd h
kills-failed fd (printed t ∷ actions) h = absurd h
kills-failed fd (sent x r ∷ []) h = absurd h
kills-failed fd (sent x r ∷ killed y ∷ []) h = omega (arith, one-same fd y h.1)
kills-failed fd (sent x r ∷ killed y ∷ a ∷ actions) h = absurd h
kills-failed fd (sent x r ∷ sent y s ∷ actions) h = absurd h
kills-failed fd (sent x r ∷ printed t ∷ actions) h = absurd h

kills-success :
    (fd : ℕ) (actions : List Action) → IsAnswer fd success actions → kills fd actions ≡ 1
kills-success fd [] h = absurd h
kills-success fd (killed y ∷ actions) h = absurd h
kills-success fd (sent x r ∷ []) h = absurd h
kills-success fd (sent x r ∷ killed y ∷ []) h = omega (arith, one-same fd y h.1)
kills-success fd (sent x r ∷ killed y ∷ a ∷ actions) h = absurd h
kills-success fd (sent x r ∷ sent y s ∷ actions) h = absurd h
kills-success fd (sent x r ∷ printed t ∷ actions) h = absurd h
kills-success fd (printed t ∷ []) h = absurd h
kills-success fd (printed t ∷ killed y ∷ actions) h = absurd h
kills-success fd (printed t ∷ printed u ∷ actions) h = absurd h
kills-success fd (printed t ∷ sent x r ∷ []) h = absurd h
kills-success fd (printed t ∷ sent x r ∷ killed y ∷ []) h = omega (arith, one-same fd y h.1)
kills-success fd (printed t ∷ sent x r ∷ killed y ∷ a ∷ actions) h = absurd h
kills-success fd (printed t ∷ sent x r ∷ sent y s ∷ actions) h = absurd h
kills-success fd (printed t ∷ sent x r ∷ printed u ∷ actions) h = absurd h

kills-IsAnswer :
    (fd : ℕ) (result : CallbackResult) (actions : List Action)
    → IsAnswer fd result actions
    → kills fd actions ≡ 1
kills-IsAnswer fd failed actions h = kills-failed fd actions h
kills-IsAnswer fd success actions h = kills-success fd actions h
kills-IsAnswer fd other actions h = absurd h

-- A thread whose first round the callback of the web server handles closes the descriptor of its
-- connection twice, whatever the client sends: the callback kills it, and the thread closes it again
-- when it takes the connection off the list; what the callbacks of later rounds close comes on top. The
-- connection is established, and no other of the list before it has its address.
pub handle_client-closes_twice :
    (system : System) (config : HttpConfig) (can_realloc : ℕ → Bool) (server : HttpServer)
    (buffer_size size : ℕ) (buffer : Text) (actions : List Action) (result : CallbackResult)
    (rounds : List Round) (xs : List SocketConnection) (c : SocketConnection)
    (ys : List SocketConnection)
    → c.connection_status ≡ connection_established
    → IsAbsent c.address xs
    → http_server_callback system config can_realloc server c.fd buffer_size buffer
      ≡ handled actions result
    → closes c.fd
        (handle_client true
          (record {
            buffer_size = size;
            callback_result = result;
            callback_closes = killed_by actions;
          }
            ∷ rounds)
          c
          (xs ++ c ∷ ys)).1
      ≡ 2 + unless_failed result (closes_of c.fd rounds)
handle_client-closes_twice system config can_realloc server buffer_size size buffer actions result
      rounds xs c ys established absent handles =
    let all_rounds : List Round =
      record { buffer_size = size; callback_result = result; callback_closes = killed_by actions }
      ∷ rounds in
    let answer : IsHandled c.fd (handled actions result) =
      subst (IsHandled c.fd) handles
        (http_server_callback-IsHandled system config can_realloc server c.fd buffer_size buffer) in
    let status : held_by c.fd c.connection_status c.fd ≡ 1 =
      ap (λ s. held_by c.fd s c.fd) established ∙ one-same c.fd c.fd refl in
    rw (handle_client_lem all_rounds xs c ys absent) (
      omega (
        arith,
        kills-IsAnswer c.fd result actions answer,
        closes-append c.fd (client_rounds c.fd all_rounds) (release (buffered c)),
        closes-client_rounds c.fd c.fd all_rounds,
        closes-release c.fd (buffered c),
        status,
      ))
