-- ===== src/Geonsp/Requests.antt =====
-- The requests that a node writes, as the other node reads them.
use geo_ns_core.Common.{
  ℕ, ◌%◌, ◌<◌, ◌≡◌, ◌≢◌, refl, ◌∙◌, ap, true, false, List, [], ◌∷◌, ◌++◌, some, arith, leb, length,
  append-ne-nil,
}
use geo_ns_core.Text.{Text, codes, str_eq, strn_eq}
use geo_ns_core.Socket.{success}
use geo_ns_core.Db.{Sqlite, Node, get_all_active_nodes, insert_new_node, db_init, is_ledger_name}
use geo_ns_core.Db.Connection.{
  Database, unset, opened, max_sys_path_length, Connected, db_open, db_connect,
}
use geo_ns_core.Json.{Json, IsLawful, IsStream}
use geo_ns_core.Geonsp.{
  responded, served, Environment, version_text, construct_client_hello_request,
  construct_get_nodes_request, server_proto_response, construct_base_geonsp_message,
  construct_add_node_request, serve_get_version, serve_nodes, serve_added, serve_get_nodes,
  serve_add_node, serve_method, serve_request, node_server_callback, msg_get_version, msg_get_nodes,
  msg_add_node, local_db, max_active_nodes, ushort_mod,
}

-- What `db_open` gives for the local database.
abbrev pub local_database : Database
local_database = record { db_name = local_db; is_ledger = false; handle = unset }

module _ {W Row J : Type 0} (sqlite : Sqlite W Row) (json : Json J) (env : Environment)
    (lawful : IsLawful json) (stream : IsStream json) where
  pub served_text :
      (store : W) (client_addr buffer : Text)
      → buffer ≢ []
      → node_server_callback sqlite json env store client_addr buffer
        ≡ serve_request sqlite json env store client_addr (json.parse buffer)
  unfolding node_server_callback
  served_text store client_addr [] h = absurd (h refl)
  served_text store client_addr (c ∷ buffer) h = refl

  -- A request with a method, written out in front of anything else, is served by that method.
  served_method :
      (store : W) (client_addr : Text) (request : J) (rest method : Text)
      → stream.IsObject request
      → json.has_value (some request) (codes "method") ≡ true
      → json.get_string (some request) (codes "method") ≡ some method
      → node_server_callback sqlite json env store client_addr (json.serialize request ++ rest)
        ≡ serve_method sqlite json env store client_addr (some request) method
  served_method store client_addr request rest method object has reads =
      served_text store client_addr (json.serialize request ++ rest)
        (append-ne-nil (json.serialize request) rest (lawful.serialize-ne-nil request))
      ∙ ap (serve_request sqlite json env store client_addr)
          (stream.parse-behind request rest object)
      ∙ unfold serve_request in rw (has, reads, serve_request) refl

  base_message-method :
      (method : Text)
      → (json.has_value (some (construct_base_geonsp_message json method)) (codes "method") ≡ true)
        × (json.get_string (some (construct_base_geonsp_message json method)) (codes "method")
            ≡ some method)
  unfolding construct_base_geonsp_message str_eq
  base_message-method method = (
    lawful.has-set_string json.object (codes "method") method (codes "method"),
    lawful.get-set_string json.object (codes "method") method (codes "method"),
  )

  base_message-IsObject :
      (method : Text) → stream.IsObject (construct_base_geonsp_message json method)
  unfolding construct_base_geonsp_message
  base_message-IsObject method =
      stream.set_string-IsObject json.object (codes "method") method stream.object-IsObject

  add_node-IsObject : (port : ℕ) → stream.IsObject (construct_add_node_request json port)
  unfolding construct_add_node_request
  add_node-IsObject port =
      stream.dotset_number-IsObject (construct_base_geonsp_message json msg_add_node)
        (codes "data.node_gateway_port") port (base_message-IsObject msg_add_node)

  -- The greeting, whatever stands behind it, is answered with the version of the node, and leaves the database as it is.
  pub served_client_hello :
      (store : W) (client_addr rest : Text)
      → node_server_callback sqlite json env store client_addr
          (json.serialize (construct_client_hello_request json) ++ rest)
        ≡ served store
            (responded (server_proto_response json true (version_text sqlite json env)) ∷ [])
            success
  unfolding construct_client_hello_request
  served_client_hello store client_addr rest =
      let m = base_message-method msg_get_version in
      served_method store client_addr (construct_client_hello_request json) rest msg_get_version
        (base_message-IsObject msg_get_version) m.0 m.1
      ∙ unfold serve_method serve_get_version strn_eq in refl

  served_get_nodes :
      (store : W) (client_addr rest : Text)
      → node_server_callback sqlite json env store client_addr
          (json.serialize (construct_get_nodes_request json) ++ rest)
        ≡ serve_get_nodes sqlite json env store
  unfolding construct_get_nodes_request
  served_get_nodes store client_addr rest =
      let m = base_message-method msg_get_nodes in
      served_method store client_addr (construct_get_nodes_request json) rest msg_get_nodes
        (base_message-IsObject msg_get_nodes) m.0 m.1
      ∙ unfold serve_method strn_eq in refl

  add_node-reads :
      (port : ℕ)
      → (json.has_value (some (construct_add_node_request json port)) (codes "method") ≡ true)
        × (json.get_string (some (construct_add_node_request json port)) (codes "method")
            ≡ some msg_add_node)
        × (json.dotget_number
              (some (construct_add_node_request json port))
              (codes "data.node_gateway_port")
            ≡ port)
  unfolding construct_add_node_request str_eq
  add_node-reads port =
      let message = construct_base_geonsp_message json msg_add_node in
      let m = base_message-method msg_add_node in
      (
        lawful.has-dotset_number message (codes "data") (codes "node_gateway_port") port
              (codes "method") refl
            ∙ m.0,
        lawful.get_string-dotset_number message (codes "data") (codes "node_gateway_port") port
              (codes "method") refl
            ∙ m.1,
        lawful.dotget-dotset_number message (codes "data.node_gateway_port") port,
      )

  -- The local database, where it opens.
  local_db-connected :
      (store store' : W)
      → length (env.cwd ++ local_db) < max_sys_path_length
      → env.opens (env.cwd ++ local_db) ≡ true
      → db_init sqlite false store ≡ some store'
      → db_connect sqlite env.cwd env.opens local_database store
        ≡ Connected.connected (record local_database { handle = opened }) store'
  local_db-connected store store' short opens ready =
      let fits : leb max_sys_path_length (length (env.cwd ++ local_db)) ≡ false = ground arith in
      unfold db_connect in rw (fits, opens, ready) refl

  -- A request to add a node, written out by one node, whatever stands behind it, is served by another whose local database opens:
  -- the node of the sender's address and port is inserted, once the tables are there, and the answer
  -- says how that went.
  pub served_add_node :
      (store store' : W) (client_addr rest : Text) (port : ℕ)
      → env.has_memory ≡ true
      → length (env.cwd ++ local_db) < max_sys_path_length
      → env.opens (env.cwd ++ local_db) ≡ true
      → db_init sqlite false store ≡ some store'
      → port < ushort_mod
      → node_server_callback sqlite json env store client_addr
          (json.serialize (construct_add_node_request json port) ++ rest)
        ≡ serve_added sqlite json env (insert_new_node sqlite false store' client_addr port)
  served_add_node store store' client_addr rest port memory short opens ready small =
      let reads = add_node-reads port in
      let request = construct_add_node_request json port in
      let number : json.dotget_number (some request) (codes "data.node_gateway_port") % ushort_mod
          ≡ port =
        omega (arith, reads.2) in
      served_method store client_addr request rest msg_add_node (add_node-IsObject port) reads.0
        reads.1
      ∙ unfold serve_method strn_eq in
        unfold serve_add_node db_open is_ledger_name in
        rw (memory, local_db-connected store store' short opens ready, number) refl

  -- A request for the nodes, written out by one node, whatever stands behind it, is answered by another whose local database opens
  -- with the nodes that are active in it, once the tables are there.
  pub served_listing :
      (store store' : W) (client_addr rest : Text) (nodes : List Node)
      → env.has_memory ≡ true
      → length (env.cwd ++ local_db) < max_sys_path_length
      → env.opens (env.cwd ++ local_db) ≡ true
      → db_init sqlite false store ≡ some store'
      → get_all_active_nodes sqlite false store' max_active_nodes ≡ some nodes
      → node_server_callback sqlite json env store client_addr
          (json.serialize (construct_get_nodes_request json) ++ rest)
        ≡ serve_nodes sqlite json env store' (some nodes)
  served_listing store store' client_addr rest nodes memory short opens ready active =
      served_get_nodes store client_addr rest
      ∙ unfold serve_get_nodes db_open is_ledger_name in
        rw (memory, local_db-connected store store' short opens ready, active) refl
