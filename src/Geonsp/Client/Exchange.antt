-- ===== src/Geonsp/Client/Exchange.antt =====
-- What an exchange with another node leaves in the databases.
use geo_ns_core.Common.{
  ◌%◌, ◌^◌, ◌<◌, ◌≡◌, refl, ◌∙◌, ap, Bool, true, false, List, [], ◌∷◌, Option, some, arith, leb,
  if◌then◌else◌, length, take, take_all, All,
}
use geo_ns_core.Text.{Text, codes}
use geo_ns_core.Socket.{SocketServer, kill_socket_server}
use geo_ns_core.Socket.Opening.{opened, connect_to_socket_server}
use geo_ns_core.Socket.Addresses.{is_my_ip}
use geo_ns_core.Db.{Sqlite, Node, insert_new_node}
use geo_ns_core.Json.{Json, IsLawful}
use geo_ns_core.Geonsp.{
  server_proto_response, server_proto_data_response, append_nodes, node_value,
  construct_client_hello_request, construct_add_node_request, construct_get_nodes_request,
  max_geonsp_buffer_size, ushort_mod,
}
use geo_ns_core.Geonsp.NodeList.{values_of, node_value-server, node_value-node, elements-values_of}
use geo_ns_core.Geonsp.Client.{
  got, Network, received_text, ping_command, exchanged, insert_nodes, inserted_from, read_nodes,
  exchange_on, handle_node_info_exchange,
}
use geo_ns_core.Geonsp.Client.Handshake.{is_geons_host_available-success}

module _ {P W Row J : Type 0} (json : Json J) (network : Network P) (sqlite : Sqlite W Row)
    (lawful : IsLawful json) where
  -- The nodes of a list, inserted in order, but for those at an address of this node.
  abbrev pub learn : Bool → W → List Node → W
  learn is_ledger store [] = store
  learn is_ledger store (node ∷ nodes) =
      learn is_ledger
        (if is_my_ip network.interfaces node.server_addr
          then store
          else (insert_new_node sqlite is_ledger store node.server_addr node.node_gateway).0)
        nodes

  -- The database after one node of a list.
  abbrev learn_one : Bool → W → Node → W
  learn_one is_ledger store node =
      if is_my_ip network.interfaces node.server_addr
      then store
      else (insert_new_node sqlite is_ledger store node.server_addr node.node_gateway).0

  insert_nodes-node_value :
      (is_ledger : Bool) (store : W) (node : Node) (values : List (Option J))
      → node.node_gateway < ushort_mod
      → insert_nodes json network sqlite is_ledger store (some (node_value json node) ∷ values)
        ≡ insert_nodes json network sqlite is_ledger (learn_one is_ledger store node) values
  insert_nodes-node_value is_ledger store node values small =
      let port : json.get_number (some (node_value json node)) (codes "node") % ushort_mod
          ≡ node.node_gateway =
        omega (arith, node_value-node json lawful node) in
      unfold insert_nodes in rw (node_value-server json lawful node, port, insert_nodes) refl

  insert_nodes-values :
      (is_ledger : Bool) (store : W) (nodes : List Node)
      → All (λ (n : Node). n.node_gateway < ushort_mod) nodes
      → insert_nodes json network sqlite is_ledger store (values_of json nodes)
        ≡ some (learn is_ledger store nodes)
  insert_nodes-values is_ledger store [] h = unfold insert_nodes in refl
  insert_nodes-values is_ledger store (node ∷ nodes) (small, h) =
      insert_nodes-node_value is_ledger store node (values_of json nodes) small
      ∙ insert_nodes-values is_ledger (learn_one is_ledger store node) nodes h

  length-values_of : (nodes : List Node) → length (values_of json nodes) ≡ length nodes
  length-values_of [] = refl
  length-values_of (node ∷ nodes) = omega (arith, length-values_of nodes)

  read_listing :
      (is_ledger : Bool) (store : W) (net : P) (server : SocketServer) (listing : Text)
      (nodes : List Node)
      → length (server_proto_data_response json true listing (append_nodes json json.array nodes))
        < max_geonsp_buffer_size
      → length nodes < 2 ^ 8
      → All (λ (n : Node). n.node_gateway < ushort_mod) nodes
      → read_nodes json network sqlite is_ledger store net server (
          received_text (
            got
              (server_proto_data_response json true listing (append_nodes json json.array nodes))))
        ≡ exchanged net (learn is_ledger store nodes) (kill_socket_server (some server)) 1
  read_listing is_ledger store net server listing nodes short few small =
      let text =
        server_proto_data_response json true listing (append_nodes json json.array nodes) in
      let fits : leb max_geonsp_buffer_size (length text) ≡ false = ground arith in
      let all : take (length (values_of json nodes) % 2 ^ 8) (values_of json nodes)
          ≡ values_of json nodes =
        take_all _ (values_of json nodes) (omega (arith, length-values_of nodes)) in
      rw fits (
        ap
          (λ l.
            inserted_from json network sqlite net server
              (insert_nodes json network sqlite is_ledger store (take (length l % 2 ^ 8) l)))
          (elements-values_of json lawful true listing nodes)
        ∙ ap
            (λ l.
              inserted_from json network sqlite net server
                (insert_nodes json network sqlite is_ledger store l))
            all
        ∙ ap (inserted_from json network sqlite net server)
            (insert_nodes-values is_ledger store nodes small))

  -- The exchange with another node, in full: the node answers to ping, a connection to it opens, it
  -- accepts the greeting, takes the request to be added, whatever it answers to that, and answers with a
  -- list of its nodes, all within the buffer. Then each of the fewer than 256 nodes of the list, but for
  -- those at an address of this node, is inserted in order, the connection is closed, and the answer is 1.
  pub handle_node_info_exchange-learn :
      (is_ledger : Bool) (store : W) (net net1 net2 net3 : P) (source destination : Node)
      (remove : Bool) (server : SocketServer) (greeting added listing : Text) (nodes : List Node)
      → is_my_ip network.interfaces destination.server_addr ≡ false
      → network.ping net (ping_command destination.server_addr) ≡ true
      → connect_to_socket_server
          (network.connect net destination.server_addr destination.node_gateway)
          destination.server_addr
          destination.node_gateway
        ≡ opened server
      → network.answer net destination.server_addr destination.node_gateway
          (json.serialize (construct_client_hello_request json))
        ≡ (net1, got (server_proto_response json true greeting))
      → length (server_proto_response json true greeting) < max_geonsp_buffer_size
      → network.answer net1 destination.server_addr destination.node_gateway
          (json.serialize (construct_add_node_request json source.node_gateway))
        ≡ (net2, got added)
      → length added < max_geonsp_buffer_size
      → network.answer net2 destination.server_addr destination.node_gateway
          (json.serialize (construct_get_nodes_request json))
        ≡ (
          net3,
          got (server_proto_data_response json true listing (append_nodes json json.array nodes)),
        )
      → length (server_proto_data_response json true listing (append_nodes json json.array nodes))
        < max_geonsp_buffer_size
      → length nodes < 2 ^ 8
      → All (λ (n : Node). n.node_gateway < ushort_mod) nodes
      → handle_node_info_exchange json network sqlite is_ledger store net source destination remove
        ≡ exchanged net3 (learn is_ledger store nodes) (kill_socket_server (some server)) 1
  handle_node_info_exchange-learn is_ledger store net net1 net2 net3 source destination remove
        server greeting added listing nodes foreign up opens hello short1 add short2 list short3 few
        small =
      let host =
        is_geons_host_available-success json network lawful net net1 destination.server_addr
          destination.node_gateway server greeting up opens hello short1 in
      let fits2 : leb max_geonsp_buffer_size (length added) ≡ false = ground arith in
      unfold handle_node_info_exchange in
      rw (foreign, host)
        (unfold exchange_on in
          rw (add, fits2, list)
            (read_listing is_ledger store net3 server listing nodes short3 few small))
