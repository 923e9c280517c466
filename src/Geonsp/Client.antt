-- ===== src/Geonsp/Client.antt =====
-- The side of src/libs/geonsp/geonsp.c that asks other nodes: `is_geons_host_available` and
-- `handle_node_info_exchange`. The network is a parameter: it has a state, which every message
-- changes.
pub mod Exchange
pub mod Handshake
use geo_ns_core.Common.{
  ℕ, suc, ◌+◌, ◌-◌, ◌%◌, ◌^◌, Bool, true, false, not, ◌&&◌, ◌||◌, List, [], ◌∷◌, ◌++◌, Option, none,
  some, leb, if◌then◌else◌, length, take,
}
use geo_ns_core.Text.{Text, codes, strn_eq}
use geo_ns_core.Socket.{SocketServer, Effect, kill_socket_server}
use geo_ns_core.Socket.Opening.{
  Answers, Opened, opened, without_socket, null, connect_to_socket_server,
}
use geo_ns_core.Socket.Addresses.{is_my_ip}
use geo_ns_core.Db.{Sqlite, Node, insert_new_node, remove_node}
use geo_ns_core.Json.{Json}
use geo_ns_core.Geonsp.{
  construct_add_node_request, construct_get_nodes_request, construct_client_hello_request,
  max_geonsp_buffer_size, ushort_mod,
}

-- What `recv` gives: -1, or bytes.
pub data Received : Type 0 where
  lost : Received
  got : Text → Received

-- `ping`: the answer 0 of `system` for a command. `connect`: the answers to the calls that connect to
-- an address and a port. `answer`: the node at an address and a port receives a message and answers.
pub record Network (P : Type 0) : Type 0 where
  pub ping : P → Text → Bool
  pub connect : P → Text → ℕ → Answers
  pub answer : P → Text → ℕ → Text → P × Received
  pub interfaces : List Text

-- The answer as a C string. A lost one, and one that fills the buffer, make the code write its 0
-- outside of the buffer: `none`.
abbrev pub received_text : Received → Option Text
received_text lost = none
received_text (got text) = if leb max_geonsp_buffer_size (length text) then none else some text

-- "ping -c 1 %s > /dev/null 2>&1", in 100 bytes.
abbrev pub ping_command : Text → Text
ping_command server_addr =
    take 99 (codes "ping -c 1 " ++ (server_addr ++ codes " > /dev/null 2>&1"))

-- The answer of `is_geons_host_available`: undefined behaviour, a null pointer, or a server. The
-- effects are what is given back on the way.
pub data Host (P : Type 0) : Type 0 where
  undefined_host : Host P
  unavailable : P → List Effect → Host P
  available : P → SocketServer → Host P

-- The answer of `handle_node_info_exchange`, with the database and what is given back.
pub data Exchanged (P W : Type 0) : Type 0 where
  undefined_exchange : Exchanged P W
  exchanged : P → W → List Effect → ℕ → Exchanged P W

module _ {P J : Type 0} (json : Json J) (network : Network P) where
  -- What the greeting makes of a connection. A status that is no string is a null pointer, which is
  -- compared; where the status is not "success" the server is not killed.
  unfoldable pub greeted : P → SocketServer → Option J → Host P
  unfolding kill_socket_server strn_eq
  greeted net server response =
      if not (json.has_value response (codes "status"))
        || not (json.has_value response (codes "message"))
      then unavailable net (kill_socket_server (some server))
      else (elim (json.get_string response (codes "status")) [
        | none ↦ undefined_host
        | some status ↦
            if strn_eq 7 status (codes "success") then available net server else unavailable net []
      ])

  abbrev pub read_greeting : P → SocketServer → Option Text → Host P
  read_greeting net server none = undefined_host
  read_greeting net server (some text) = greeted net server (json.parse text)

  -- The greeting on a connection.
  unfoldable pub greet : P → Text → ℕ → SocketServer → Host P
  unfolding greeted construct_client_hello_request
  greet net server_addr node_gateway server =
      let (net', received) =
        network.answer net server_addr node_gateway
          (json.serialize (construct_client_hello_request json)) in
      read_greeting net' server (received_text received)

  abbrev pub on_opened : P → Text → ℕ → Opened → Host P
  on_opened net server_addr node_gateway (opened server) = greet net server_addr node_gateway server
  on_opened net server_addr node_gateway without_socket = undefined_host
  on_opened net server_addr node_gateway (null effects) = unavailable net effects

  unfoldable pub is_geons_host_available : P → Text → ℕ → Host P
  unfolding greet connect_to_socket_server
  is_geons_host_available net server_addr node_gateway =
      if not (network.ping net (ping_command server_addr))
      then unavailable net []
      else on_opened net server_addr node_gateway (
          connect_to_socket_server (network.connect net server_addr node_gateway) server_addr
            node_gateway)

  module _ {W Row : Type 0} (sqlite : Sqlite W Row) where
    -- The loop over the nodes of the answer. A node without an address is a null pointer, which is
    -- compared.
    unfoldable pub insert_nodes : Bool → W → List (Option J) → Option W
    unfolding insert_new_node is_my_ip
    insert_nodes is_ledger store [] = some store
    insert_nodes is_ledger store (node ∷ nodes) = elim (json.get_string node (codes "server")) [
      | none ↦ none
      | some server_addr ↦
          insert_nodes is_ledger
            (if is_my_ip network.interfaces server_addr
              then store
              else (insert_new_node sqlite is_ledger store server_addr
                  (json.get_number node (codes "node") % ushort_mod)).0)
            nodes
    ]

    abbrev pub inserted_from : P → SocketServer → Option W → Exchanged P W
    inserted_from net server none = undefined_exchange
    inserted_from net server (some store) = exchanged net store (kill_socket_server (some server)) 1

    -- The answer with the list of nodes; their number is counted in a byte.
    abbrev pub read_nodes : Bool → W → P → SocketServer → Option Text → Exchanged P W
    read_nodes is_ledger store net server none = undefined_exchange
    read_nodes is_ledger store net server (some text) =
        let nodes = json.elements (json.parse text) (codes "data") in
        inserted_from net server (insert_nodes is_ledger store (take (length nodes % 2 ^ 8) nodes))

    abbrev pub ask_nodes : Bool → W → P → Node → SocketServer → Exchanged P W
    ask_nodes is_ledger store net destination server =
        let (net', received) =
          network.answer net destination.server_addr destination.node_gateway
            (json.serialize (construct_get_nodes_request json)) in
        read_nodes is_ledger store net' server (received_text received)

    abbrev pub after_added : Bool → W → P → Node → SocketServer → Option Text → Exchanged P W
    after_added is_ledger store net destination server none = undefined_exchange
    after_added is_ledger store net destination server (some text) =
        ask_nodes is_ledger store net destination server

    -- The two requests on a connection.
    unfoldable pub exchange_on : Bool → W → P → Node → Node → SocketServer → Exchanged P W
    unfolding insert_nodes construct_add_node_request construct_get_nodes_request kill_socket_server
    exchange_on is_ledger store net source destination server =
        let (net', received) =
          network.answer net destination.server_addr destination.node_gateway
            (json.serialize (construct_add_node_request json source.node_gateway)) in
        after_added is_ledger store net' destination server (received_text received)

    abbrev pub on_host : Bool → W → Node → Node → Bool → Host P → Exchanged P W
    on_host is_ledger store source destination remove_inactive_nodes undefined_host =
        undefined_exchange
    on_host is_ledger store source destination remove_inactive_nodes (available net server) =
        exchange_on is_ledger store net source destination server
    on_host is_ledger store source destination remove_inactive_nodes (unavailable net effects) =
        exchanged net
          (if remove_inactive_nodes then (remove_node sqlite store destination).0 else store)
          effects 0

    unfoldable pub handle_node_info_exchange : Bool → W → P → Node → Node → Bool → Exchanged P W
    unfolding exchange_on is_geons_host_available is_my_ip remove_node
    handle_node_info_exchange is_ledger store net source destination remove_inactive_nodes =
        if is_my_ip network.interfaces destination.server_addr
        then exchanged net store [] 2
        else on_host is_ledger store source destination remove_inactive_nodes
            (is_geons_host_available net destination.server_addr destination.node_gateway)
