-- ===== src/Geonsp/TwoNodes.antt =====
-- Two nodes that run the same program: the side of src/libs/geonsp/geonsp.c that asks against the side
-- that answers.
use geo_ns_core.Common.{
  ℕ, ◌<◌, ◌≤◌, ◌≡◌, refl, ◌∙◌, ap, Bool, true, false, List, [], ◌∷◌, ◌++◌, Option, none, some, drop,
  arith, length, All,
}
use geo_ns_core.Text.{Text, codes}
use geo_ns_core.Socket.{SocketServer, failed, success, other as other_result, kill_socket_server}
use geo_ns_core.Socket.Opening.{Answers, opened, connect_to_socket_server}
use geo_ns_core.Socket.Addresses.{is_my_ip}
use geo_ns_core.Db.{
  Sqlite, Node, nodes_of, get_all_active_nodes, insert_new_node, db_init, select_active,
}
use geo_ns_core.Db.Nodes.{FitsNode, nodes_of-FitsNode}
use geo_ns_core.Db.Connection.{max_sys_path_length}
use geo_ns_core.Json.{Json, IsLawful, IsStream}
use geo_ns_core.Geonsp.Gateway.{gateway_round}
use geo_ns_core.Geonsp.Gateway.Behind.{gateway_round-behind}
use geo_ns_core.Socket.Buffer.{
  zeros, length-zeros, peeked, Holds, zeros-Holds, peeked-Holds, length-peeked,
}
use geo_ns_core.Geonsp.{
  construct_client_hello_request, construct_add_node_request, construct_get_nodes_request, Effect,
  connected_database, disconnected_database, responded, Served, undefined, exits, served,
  Environment, version_text, added_text, server_proto_response, server_proto_data_response,
  append_nodes, serve_nodes, serve_added, node_server_callback, local_db, max_active_nodes,
  max_geonsp_buffer_size, ushort_mod,
}
use geo_ns_core.Geonsp.Requests.{served_client_hello, served_add_node, served_listing}
use geo_ns_core.Geonsp.Client.{Received, lost, got, Network, exchanged, handle_node_info_exchange}
use geo_ns_core.Geonsp.Client.Exchange.{learn, handle_node_info_exchange-learn}

-- The message that is sent, if there is one.
abbrev message_in : List Effect → Received
message_in [] = lost
message_in (responded text ∷ effects) = got text
message_in (connected_database ∷ effects) = message_in effects
message_in (disconnected_database ∷ effects) = message_in effects

-- The thread of the other node for the connection: its local database, and its buffer while it runs.
-- What it answers when it does not run is lost.
abbrev reply_of : {W : Type 0} → W → Text → Served W → (W × Option Text) × Received
reply_of store buffer undefined = ((store, none), lost)
reply_of store buffer exits = ((store, none), lost)
reply_of store buffer (served store' effects failed) = ((store', none), message_in effects)
reply_of store buffer (served store' effects success) = ((store', some buffer), message_in effects)
reply_of store buffer (served store' effects other_result) =
    ((store', some buffer), message_in effects)

abbrev answer_of :
    {W Row J : Type 0}
    → Sqlite W Row
    → Json J
    → Environment
    → Text
    → W × Option Text
    → Text
    → (W × Option Text) × Received
answer_of sqlite json env client_addr (store, none) message = ((store, none), lost)
answer_of sqlite json env client_addr (store, some buffer) message =
    reply_of store (peeked buffer message)
      (gateway_round sqlite json env client_addr store buffer message)

-- The network of one other node, which sees this node at `client_addr`, once this node is connected to
-- it.
abbrev pub node_network :
    {W Row J : Type 0}
    → Sqlite W Row
    → Json J
    → Environment
    → Answers
    → List Text
    → Text
    → Network (W × Option Text)
node_network sqlite json env answers interfaces client_addr = record {
  ping = λ peer command. true;
  connect = λ peer server_addr port. answers;
  answer = λ peer server_addr port message. answer_of sqlite json env client_addr peer message;
  interfaces = interfaces;
}

FitsNode-small :
    (nodes : List Node) → All FitsNode nodes → All (λ (n : Node). n.node_gateway < ushort_mod) nodes
FitsNode-small [] h = tt
FitsNode-small (node ∷ nodes) (fits, h) = (fits.2, FitsNode-small nodes h)

module _ {W Row V Row' J : Type 0} (json : Json J) (lawful : IsLawful json) (stream : IsStream json)
    (sqlite : Sqlite W Row) (other : Sqlite V Row') (env : Environment) (answers : Answers)
    (interfaces : List Text) (client_addr : Text) where
  abbrev pub network : Network (V × Option Text)
  network = node_network other json env answers interfaces client_addr

  serve_added_lem :
      (store : V) (result : ℕ)
      → serve_added other json env (store, result)
        ≡ served store
            (connected_database
              ∷ disconnected_database
              ∷ responded (added_text other json env result)
              ∷ [])
            success
  unfolding serve_added
  serve_added_lem store result = refl

  serve_nodes_lem :
      (store : V) (nodes : List Node)
      → serve_nodes other json env store (some nodes)
        ≡ served store
            (connected_database
              ∷ disconnected_database
              ∷ responded (
                  server_proto_data_response json true
                    (codes "Successfully fetched list of nodes.")
                    (append_nodes json json.array nodes))
              ∷ [])
            success
  unfolding serve_nodes
  serve_nodes_lem store nodes = refl

  -- The buffer after the three requests.
  abbrev pub after_hello : Text → Text
  after_hello buffer = peeked buffer (json.serialize (construct_client_hello_request json))

  abbrev pub after_add : Text → ℕ → Text
  after_add buffer port =
      peeked (after_hello buffer) (json.serialize (construct_add_node_request json port))

  abbrev pub after_list : Text → ℕ → Text
  after_list buffer port =
      peeked (after_add buffer port) (json.serialize (construct_get_nodes_request json))

  -- A message that the callback serves with success is answered, and stands in the buffer.
  answered :
      (store after : V) (buffer text : Text) (request : J) (effects : List Effect)
      → Holds buffer text
      → length (json.serialize request) < length buffer
      → node_server_callback other json env store client_addr
          (json.serialize request ++ drop (length (json.serialize request)) text)
        ≡ served after effects success
      → answer_of other json env client_addr (store, some buffer) (json.serialize request)
        ≡ ((after, some (peeked buffer (json.serialize request))), message_in effects)
  answered store after buffer text request effects holds short serves =
      ap (reply_of store (peeked buffer (json.serialize request))) (
        (gateway_round-behind other json env client_addr store buffer text (json.serialize request)
          holds (stream.serialize-HasNoNul request) short).0
        ∙ serves)

  -- A node exchanges its information with another node that runs this program, whose database opens and
  -- is ready and whose thread for the connection has a zeroed buffer: afterwards the other node has been
  -- asked to insert this one, at the address at which it sees it, and this node has inserted, in order,
  -- each node that is active in the database of the other afterwards, but for those at its own addresses.
  -- The connection is closed, and the answer is 1; the thread's buffer holds the three requests, each
  -- over the start of the one before. The messages fit the buffers, and the limit of the query is kept.
  pub handle_node_info_exchange-two_nodes :
      (is_ledger : Bool) (store : W) (before ready after listed : V) (rows : List Row') (result : ℕ)
      (source destination : Node) (remove : Bool) (server : SocketServer)
      → is_my_ip interfaces destination.server_addr ≡ false
      → connect_to_socket_server answers destination.server_addr destination.node_gateway
        ≡ opened server
      → env.has_memory ≡ true
      → length (env.cwd ++ local_db) < max_sys_path_length
      → env.opens (env.cwd ++ local_db) ≡ true
      → source.node_gateway < ushort_mod
      → db_init other false before ≡ some ready
      → insert_new_node other false ready client_addr source.node_gateway ≡ (after, result)
      → db_init other false after ≡ some listed
      → other.query listed (select_active max_active_nodes) ≡ some rows
      → length rows ≤ max_active_nodes
      → length (json.serialize (construct_client_hello_request json)) < max_geonsp_buffer_size
      → length (json.serialize (construct_add_node_request json source.node_gateway))
        < max_geonsp_buffer_size
      → length (json.serialize (construct_get_nodes_request json)) < max_geonsp_buffer_size
      → length (server_proto_response json true (version_text other json env))
        < max_geonsp_buffer_size
      → length (added_text other json env result) < max_geonsp_buffer_size
      → length (
          server_proto_data_response json true
            (codes "Successfully fetched list of nodes.")
            (append_nodes json json.array (nodes_of other rows)))
        < max_geonsp_buffer_size
      → handle_node_info_exchange json network sqlite is_ledger store
          (before, some (zeros max_geonsp_buffer_size))
          source
          destination
          remove
        ≡ exchanged
            (listed, some (after_list (zeros max_geonsp_buffer_size) source.node_gateway))
            (learn json network sqlite lawful is_ledger store (nodes_of other rows))
            (kill_socket_server (some server))
            1
  handle_node_info_exchange-two_nodes is_ledger store before ready after listed rows result source
        destination remove server foreign opens memory short database small ready1 inserted ready2
        active few fits1 fits2 fits3 short1 short2 short3 =
      let (fits, size) = nodes_of-FitsNode other rows in
      let nodes : get_all_active_nodes other false listed max_active_nodes
          ≡ some (nodes_of other rows) =
        unfold get_all_active_nodes in rw active refl in
      let hello = construct_client_hello_request json in
      let add = construct_add_node_request json source.node_gateway in
      let list = construct_get_nodes_request json in
      let buffer = zeros max_geonsp_buffer_size in
      let size0 = length-zeros max_geonsp_buffer_size in
      let size1 = length-peeked buffer (json.serialize hello) (omega (arith, size0)) in
      let size2 =
        length-peeked (after_hello buffer) (json.serialize add) (omega (arith, size0, size1)) in
      let holds0 = zeros-Holds 4095 in
      let holds1 =
        peeked-Holds [] (json.serialize hello) holds0 (stream.serialize-HasNoNul hello)
          (omega (arith, size0)) in
      let holds2 =
        peeked-Holds _ (json.serialize add) holds1 (stream.serialize-HasNoNul add)
          (omega (arith, size0, size1)) in
      handle_node_info_exchange-learn json network sqlite lawful is_ledger store
        (before, some buffer) (before, some (after_hello buffer))
        (after, some (after_add buffer source.node_gateway))
        (listed, some (after_list buffer source.node_gateway)) source destination remove server
        (version_text other json env) (added_text other json env result)
        (codes "Successfully fetched list of nodes.") (nodes_of other rows) foreign refl opens
        (answered before before buffer [] hello _ holds0 (omega (arith, size0))
          (served_client_hello other json env lawful stream before client_addr _))
        short1
        (answered before after (after_hello buffer) _ add _ holds1 (omega (arith, size0, size1)) (
          served_add_node other json env lawful stream before ready client_addr _
            source.node_gateway memory short database ready1 small
          ∙ ap (serve_added other json env) inserted
          ∙ serve_added_lem after result))
        short2
        (answered after listed (after_add buffer source.node_gateway) _ list _ holds2
          (omega (arith, size0, size1, size2))
          (served_listing other json env lawful stream after listed client_addr _
              (nodes_of other rows) memory short database ready2 nodes
            ∙ serve_nodes_lem listed (nodes_of other rows)))
        short3 (omega (arith, size)) (FitsNode-small (nodes_of other rows) fits)
