-- ===== src/Geonsp.antt =====
-- src/libs/geonsp/geonsp.c: the protocol between nodes. This file has the messages and the side that
-- answers them; Client has the side that asks. The JSON library, SQLite and the file of the local
-- database are parameters. Buffers are read as C strings.
pub mod Client
pub mod Responses
pub mod Requests
pub mod NodeList
pub mod Gateway
pub mod TwoNodes
mod Tests
use geo_ns_core.Common.{
  ℕ, ◌%◌, ◌^◌, Bool, true, false, List, [], ◌∷◌, ◌++◌, Option, none, some, ◌==◌, if◌then◌else◌,
  length, take,
}
use geo_ns_core.Text.{Text, codes, strn_eq}
use geo_ns_core.Socket.{CallbackResult, failed, success}
use geo_ns_core.Db.{Sqlite, Node, get_all_active_nodes, insert_new_node}
use geo_ns_core.Db.Connection.{Database, Connected, db_open, db_connect}
use geo_ns_core.Json.{Json}

abbrev pub msg_get_version : Text
msg_get_version = codes "GET_VERSION"

abbrev pub msg_add_node : Text
msg_add_node = codes "ADD_NODE"

abbrev pub msg_get_nodes : Text
msg_get_nodes = codes "GET_NODES"

abbrev pub msg_client_hello : Text
msg_client_hello = msg_get_version

abbrev pub max_geonsp_buffer_size : ℕ
max_geonsp_buffer_size = 4096

abbrev pub max_active_nodes : ℕ
max_active_nodes = 16

abbrev pub local_db : Text
local_db = codes "local.db"

abbrev pub ushort_mod : ℕ
ushort_mod = 2 ^ 16

module _ {J : Type 0} (json : Json J) where
  unfoldable pub construct_base_geonsp_message : Text → J
  construct_base_geonsp_message geonsp_message =
      json.set_string json.object (codes "method") geonsp_message

  unfoldable pub construct_add_node_request : ℕ → J
  unfolding construct_base_geonsp_message
  construct_add_node_request node_gateway_port =
      json.dotset_number (construct_base_geonsp_message msg_add_node)
        (codes "data.node_gateway_port") node_gateway_port

  unfoldable pub construct_get_nodes_request : J
  unfolding construct_base_geonsp_message
  construct_get_nodes_request = construct_base_geonsp_message msg_get_nodes

  unfoldable pub construct_client_hello_request : J
  unfolding construct_base_geonsp_message
  construct_client_hello_request = construct_base_geonsp_message msg_client_hello

  abbrev pub status_text : Bool → Text
  status_text is_success = if is_success then codes "success" else codes "failed"

  -- The value that `server_proto_response` serialises.
  unfoldable pub base_response : Bool → Text → J
  base_response is_success message =
      json.set_string (json.set_string json.object (codes "status") (status_text is_success))
        (codes "message") message

  -- The message that `server_proto_response` sends.
  unfoldable pub server_proto_response : Bool → Text → Text
  unfolding base_response
  server_proto_response is_success message = json.serialize (base_response is_success message)

  -- The message that `server_proto_data_response` sends.
  unfoldable pub server_proto_data_response : Bool → Text → J → Text
  unfolding base_response
  server_proto_data_response is_success message value =
      json.serialize (json.set_value (base_response is_success message) (codes "data") value)

  -- A node in the list of nodes.
  unfoldable pub node_value : Node → J
  node_value node =
      json.set_string
        (json.set_number (json.set_string json.object (codes "server") node.server_addr)
          (codes "node") node.node_gateway)
        (codes "status") node.status

  -- The loop over the active nodes: the array so far.
  unfoldable pub append_nodes : J → List Node → J
  unfolding node_value
  append_nodes array [] = array
  append_nodes array (node ∷ nodes) = append_nodes (json.append array (node_value node)) nodes

-- What a request does, in order: the local database is connected or disconnected, or a message is
-- sent on the connection.
pub data Effect : Type 0 where
  connected_database disconnected_database : Effect
  responded : Text → Effect

-- The callback is undefined, the program exits, or there is a new state of the database, the effects
-- and the answer of the callback.
pub data Served (W : Type 0) : Type 0 where
  undefined exits : Served W
  served : W → List Effect → CallbackResult → Served W

-- What the callback finds around it: whether `db_open` has memory, the directory of the program, the
-- paths that SQLite opens, GEONS_VERSION and COMPILE_TIME.
pub record Environment : Type 0 where
  pub has_memory : Bool
  pub cwd : Text
  pub opens : Text → Bool
  pub version : Text
  pub compile_time : Text

module _ {W Row J : Type 0} (sqlite : Sqlite W Row) (json : Json J) (env : Environment) where
  abbrev pub respond : Bool → Text → Effect
  respond is_success message = responded (server_proto_response json is_success message)

  -- `snprintf(version, 128, "GeoNS v%s %s", ...)`
  abbrev pub version_text : Text
  version_text = take 127 (codes "GeoNS v" ++ (env.version ++ (codes " " ++ env.compile_time)))

  unfoldable pub serve_get_version : W → Served W
  unfolding server_proto_response
  serve_get_version store = served store (respond true version_text ∷ []) success

  abbrev pub no_database : W → Served W
  no_database store =
      served store (respond false (codes "Failed fetching nodes from database") ∷ []) success

  -- The list of the nodes that the database has; where it has none to give, the database stays
  -- connected.
  unfoldable pub serve_nodes : W → Option (List Node) → Served W
  unfolding append_nodes server_proto_response server_proto_data_response
  serve_nodes store none =
      served store
        (connected_database ∷ respond false (codes "Failed fetching nodes from database") ∷ [])
        success
  serve_nodes store (some nodes) =
      served store
        (connected_database
          ∷ disconnected_database
          ∷ responded (
              server_proto_data_response json true (codes "Successfully fetched list of nodes.")
                (append_nodes json json.array nodes))
          ∷ [])
        success

  -- The message for the answer of `insert_new_node`.
  abbrev pub added_text : ℕ → Text
  added_text result =
      if result == 0
      then server_proto_response json false (codes "There was a db error inserting new node.")
      else if result == 2
      then server_proto_response json false (codes "This node has already been added.")
      else server_proto_response json true (codes "New node added into database.")

  unfoldable pub serve_added : W × ℕ → Served W
  unfolding server_proto_response
  serve_added (store, result) =
      served store (connected_database ∷ disconnected_database ∷ responded (added_text result) ∷ [])
        success

  abbrev pub on_connected : Connected W → (Database → W → Served W) → Served W
  on_connected Connected.exits body = exits
  on_connected Connected.undefined body = undefined
  on_connected (Connected.connected db store) body = body db store

  -- A database that is opened is connected.
  abbrev pub on_opened : Option Database → W → (Database → W → Served W) → Served W
  on_opened none store body = no_database store
  on_opened (some db) store body = on_connected (db_connect sqlite env.cwd env.opens db store) body

  unfoldable pub serve_get_nodes : W → Served W
  unfolding serve_nodes db_open db_connect get_all_active_nodes
  serve_get_nodes store = on_opened (db_open env.has_memory local_db) store (λ db store'.
      serve_nodes store' (get_all_active_nodes sqlite db.is_ledger store' max_active_nodes))

  -- The address is that of the client, the port that of the request, in 16 bits.
  unfoldable pub serve_add_node : W → Text → Option J → Served W
  unfolding serve_added db_open db_connect insert_new_node
  serve_add_node store client_addr request =
      on_opened (db_open env.has_memory local_db) store (λ db store'. serve_added (
        insert_new_node sqlite db.is_ledger store' client_addr
          (json.dotget_number request (codes "data.node_gateway_port") % ushort_mod)))

  -- `!strncmp(method, message, strlen(message))`
  abbrev pub is_method : Text → Text → Bool
  is_method method message = strn_eq (length message) method message

  unfoldable pub serve_method : W → Text → Option J → Text → Served W
  unfolding serve_get_version serve_get_nodes serve_add_node server_proto_response strn_eq
  serve_method store client_addr request method =
      if is_method method msg_get_version
      then serve_get_version store
      else if is_method method msg_get_nodes
      then serve_get_nodes store
      else if is_method method msg_add_node
      then serve_add_node store client_addr request
      else served store (respond false (codes "GEONSP: Invalid protocol method.") ∷ []) failed

  -- A method that is not a string is a null pointer, which is compared.
  unfoldable pub serve_request : W → Text → Option J → Served W
  unfolding serve_method server_proto_response
  serve_request store client_addr request =
      if json.has_value request (codes "method")
      then (elim (json.get_string request (codes "method")) [
        | none ↦ undefined
        | some method ↦ serve_method store client_addr request method
      ])
      else served store (respond false (codes "GEONSP: Invalid protocol message.") ∷ []) failed

  unfoldable pub node_server_callback : W → Text → Text → Served W
  unfolding serve_request server_proto_response
  node_server_callback store client_addr [] =
      served store (respond false (codes "GEONSP: Empty protocol message.") ∷ []) failed
  node_server_callback store client_addr (c ∷ buffer) =
      serve_request store client_addr (json.parse (c ∷ buffer))
