-- ===== src/Geonsp/Gateway/Clients.antt =====
-- The node gateway with its clients: `server_socket_thread` of src/libs/socket/socket.c accepts them, and a
-- thread for each runs `handle_client`. `inet_ntoa` gives a pointer to one storage, which its next call
-- overwrites, so that all connections share the text of one address.
pub mod Answers
pub mod Shared
use geo_ns_core.Common.{ℕ, List, [], ◌∷◌, ◌++◌, Option, none, some, map, ◌==◌, if◌then◌else◌}
use geo_ns_core.Text.{Text}
use geo_ns_core.Socket.{failed, success, other}
use geo_ns_core.Socket.Buffer.{zeros, peeked}
use geo_ns_core.Db.{Sqlite}
use geo_ns_core.Json.{Json}
use geo_ns_core.Geonsp.{Effect, Served, undefined, exits, served, Environment}
use geo_ns_core.Geonsp.Gateway.{gateway_round}

-- A client's thread, by the descriptor of its connection, and its buffer.
pub record Client : Type 0 where
  pub fd : ℕ
  pub buffer : Text

-- `client_addr` is the storage of `inet_ntoa`.
pub record Gateway (W : Type 0) : Type 0 where
  pub store : W
  pub client_addr : Text
  pub buffer_size : ℕ
  pub clients : List Client

-- A client is accepted, a message of it is found by `recv`, or it has gone.
pub data Event : Type 0 where
  accepts : ℕ → Text → Event
  speaks : ℕ → Text → Event
  leaves : ℕ → Event

-- The effects with the descriptor of the connection that they are for.
pub data Run (W : Type 0) : Type 0 where
  undefined_run exits_run : Run W
  runs : Gateway W → List (ℕ × Effect) → Run W

unfoldable pub buffer_of : ℕ → List Client → Option Text
buffer_of fd [] = none
buffer_of fd (c ∷ cs) = if c.fd == fd then some c.buffer else buffer_of fd cs

unfoldable pub set_buffer_of : ℕ → Text → List Client → List Client
set_buffer_of fd buffer [] = []
set_buffer_of fd buffer (c ∷ cs) =
    if c.fd == fd then record c { buffer = buffer } ∷ cs else c ∷ set_buffer_of fd buffer cs

-- The end of a client's thread.
unfoldable pub without_client : ℕ → List Client → List Client
without_client fd [] = []
without_client fd (c ∷ cs) = if c.fd == fd then cs else c ∷ without_client fd cs

abbrev pub tagged : ℕ → List Effect → List (ℕ × Effect)
tagged fd = map (λ e. (fd, e))

module _ {W : Type 0} where
  unfoldable pub accept_client : Gateway W → ℕ → Text → Gateway W
  accept_client gateway fd client_addr = record gateway {
    client_addr = client_addr;
    clients = record { fd = fd; buffer = zeros gateway.buffer_size } ∷ gateway.clients;
  }

  unfoldable pub end_client : Gateway W → ℕ → Gateway W
  unfolding without_client
  end_client gateway fd = record gateway { clients = without_client fd gateway.clients }

  abbrev pub keep_client : Gateway W → ℕ → Text → Gateway W
  keep_client gateway fd buffer = record gateway {
    clients = set_buffer_of fd buffer gateway.clients;
  }

  -- Behind a round with the client: the answer -1 ends its thread.
  abbrev pub after_message : Gateway W → ℕ → Text → Served W → Run W
  after_message gateway fd buffer undefined = undefined_run
  after_message gateway fd buffer exits = exits_run
  after_message gateway fd buffer (served store effects failed) =
      runs (end_client (record gateway { store = store }) fd) (tagged fd effects)
  after_message gateway fd buffer (served store effects success) =
      runs (keep_client (record gateway { store = store }) fd buffer) (tagged fd effects)
  after_message gateway fd buffer (served store effects other) =
      runs (keep_client (record gateway { store = store }) fd buffer) (tagged fd effects)

  abbrev pub with_effects : List (ℕ × Effect) → Run W → Run W
  with_effects effects undefined_run = undefined_run
  with_effects effects exits_run = exits_run
  with_effects effects (runs gateway effects') = runs gateway (effects ++ effects')

  abbrev pub after_event : Run W → (Gateway W → Run W) → Run W
  after_event undefined_run next = undefined_run
  after_event exits_run next = exits_run
  after_event (runs gateway effects) next = with_effects effects (next gateway)

module _ {W Row J : Type 0} (sqlite : Sqlite W Row) (json : Json J) (env : Environment) where
  abbrev pub message_to : Gateway W → ℕ → Text → Option Text → Run W
  message_to gateway fd message none = runs gateway []
  message_to gateway fd message (some buffer) =
      after_message gateway fd (peeked buffer message)
        (gateway_round sqlite json env gateway.client_addr gateway.store buffer message)

  unfoldable pub gateway_event : Gateway W → Event → Run W
  unfolding buffer_of accept_client end_client
  gateway_event gateway (accepts fd client_addr) = runs (accept_client gateway fd client_addr) []
  gateway_event gateway (speaks fd message) =
      message_to gateway fd message (buffer_of fd gateway.clients)
  gateway_event gateway (leaves fd) = runs (end_client gateway fd) []

  unfoldable pub run_gateway : Gateway W → List Event → Run W
  unfolding gateway_event
  run_gateway gateway [] = runs gateway []
  run_gateway gateway (event ∷ events) =
      after_event (gateway_event gateway event) (λ after. run_gateway after events)
