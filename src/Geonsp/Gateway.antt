-- ===== src/Geonsp/Gateway.antt =====
-- A client's thread of the node gateway: `handle_client` of src/libs/socket/socket.c with
-- `node_server_callback` of src/libs/geonsp/geonsp.c as its callback. `messages` is what each `recv` finds,
-- up to the one that finds nothing.
pub mod Behind
pub mod Together
pub mod Clients
mod Tests
use geo_ns_core.Common.{ℕ, List, [], ◌∷◌, ◌++◌, Option, none, some}
use geo_ns_core.Text.{Text}
use geo_ns_core.Socket.{CallbackResult, failed, success, other}
use geo_ns_core.Socket.Buffer.{peeked, c_string}
use geo_ns_core.Db.{Sqlite}
use geo_ns_core.Json.{Json}
use geo_ns_core.Geonsp.{Effect, Served, undefined, exits, served, Environment, node_server_callback}

-- The run is undefined, or the program exits, or the thread ends with a state of the database and the
-- effects of all callbacks.
pub data Thread (W : Type 0) : Type 0 where
  undefined_thread exits_thread : Thread W
  ended : W → List Effect → Thread W

module _ {W Row J : Type 0} (sqlite : Sqlite W Row) (json : Json J) (env : Environment)
    (client_addr : Text) where
  abbrev pub called : W → Option Text → Served W
  called store none = undefined
  called store (some text) = node_server_callback sqlite json env store client_addr text

  -- One round: the callback on the buffer, with the message at its start.
  unfoldable pub gateway_round : W → Text → Text → Served W
  unfolding peeked c_string node_server_callback
  gateway_round store buffer message = called store (c_string (peeked buffer message))

  abbrev pub with_effects : List Effect → Thread W → Thread W
  with_effects effects undefined_thread = undefined_thread
  with_effects effects exits_thread = exits_thread
  with_effects effects (ended store effects') = ended store (effects ++ effects')

  -- The loop goes on but behind the answer -1.
  abbrev pub after_round : Served W → (W → Thread W) → Thread W
  after_round undefined next = undefined_thread
  after_round exits next = exits_thread
  after_round (served store effects failed) next = ended store effects
  after_round (served store effects success) next = with_effects effects (next store)
  after_round (served store effects other) next = with_effects effects (next store)

  -- The second `recv` of a round takes the message away and writes the same bytes again.
  unfoldable pub gateway_rounds : W → Text → List Text → Thread W
  unfolding gateway_round peeked
  gateway_rounds store buffer [] = ended store []
  gateway_rounds store buffer (message ∷ messages) =
      after_round (gateway_round store buffer message)
        (λ store'. gateway_rounds store' (peeked buffer message) messages)
