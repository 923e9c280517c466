-- ===== src/Geonsp/Gateway/Clients/Shared.antt =====
-- The address of a client that is not its own.
use geo_ns_core.Common.{
  ℕ, suc, ◌<◌, ◌≡◌, ◌≢◌, refl, ◌∙◌, true, false, List, [], ◌∷◌, ◌++◌, some, ◌==◌, arith, length,
  drop, append-nil,
}
use geo_ns_core.Text.{Text}
use geo_ns_core.Socket.{success}
use geo_ns_core.Socket.Buffer.{zeros, peeked, zeros-Holds, length-zeros}
use geo_ns_core.Db.{Sqlite, insert_new_node, db_init}
use geo_ns_core.Db.Connection.{max_sys_path_length}
use geo_ns_core.Json.{Json, IsLawful, IsStream}
use geo_ns_core.Geonsp.{
  connected_database, disconnected_database, responded, served, Environment, Effect, added_text,
  serve_added, construct_add_node_request, local_db, ushort_mod,
}
use geo_ns_core.Geonsp.Requests.{served_add_node}
use geo_ns_core.Geonsp.Gateway.{gateway_round}
use geo_ns_core.Geonsp.Gateway.Behind.{gateway_round-behind}
use geo_ns_core.Geonsp.Gateway.Clients.{
  Client, Gateway, accepts, speaks, runs, tagged, gateway_event, run_gateway, accept_client,
  buffer_of, set_buffer_of,
}

-- The gateway behind two new clients, the last at the head.
abbrev pub two_clients : {W : Type 0} → W → Text → ℕ → List Client → ℕ → ℕ → Text → Gateway W
two_clients store latest size clients a b first_buffer = record {
  store = store;
  client_addr = latest;
  buffer_size = size;
  clients =
      record { fd = b; buffer = zeros size } ∷ record { fd = a; buffer = first_buffer } ∷ clients;
}

module _ {W Row J : Type 0} (sqlite : Sqlite W Row) (json : Json J) (env : Environment)
    (lawful : IsLawful json) (stream : IsStream json) where
  -- The thread of the first of two new clients finds a zeroed buffer, and the address of the second.
  first_of_two :
      (store after : W) (latest : Text) (size : ℕ) (clients : List Client) (a b : ℕ)
      (a_addr b_addr message : Text) (effects : List Effect)
      → a ≢ b
      → gateway_round sqlite json env b_addr store (zeros size) message
        ≡ served after effects success
      → run_gateway sqlite json env
          (record { store = store; client_addr = latest; buffer_size = size; clients = clients })
          (accepts a a_addr ∷ accepts b b_addr ∷ speaks a message ∷ [])
        ≡ runs
            (two_clients after b_addr size clients a b (peeked (zeros size) message))
            (tagged a effects)
  unfolding run_gateway gateway_event accept_client buffer_of set_buffer_of
  first_of_two store after latest size clients a b a_addr b_addr message effects ne e =
      let other : (b == a) ≡ false = ground arith in
      let same : (a == a) ≡ true = ground arith in
      rw (other, same, e, append-nil (tagged a effects), other, same) refl

  serve_added_lem :
      (p : W × ℕ)
      → serve_added sqlite json env p
        ≡ served p.0
            (connected_database
              ∷ disconnected_database
              ∷ responded (added_text sqlite json env p.1)
              ∷ [])
            success
  unfolding serve_added
  serve_added_lem p = refl

  -- When two clients are accepted on different descriptors and the first then asks to be added as
  -- a node, it is the address of the second that is inserted, with the port of the first, and the
  -- first is told how that went. The local database opens and is ready, its path fits, the port
  -- has 16 bits, and the request is shorter than the buffer.
  pub run_gateway-shared :
      (store store' : W) (latest : Text) (k : ℕ) (clients : List Client) (a b : ℕ)
      (a_addr b_addr : Text) (port : ℕ)
      → a ≢ b
      → env.has_memory ≡ true
      → length (env.cwd ++ local_db) < max_sys_path_length
      → env.opens (env.cwd ++ local_db) ≡ true
      → db_init sqlite false store ≡ some store'
      → port < ushort_mod
      → length (json.serialize (construct_add_node_request json port)) < suc k
      → run_gateway sqlite json env
          (record { store = store; client_addr = latest; buffer_size = suc k; clients = clients })
          (accepts a a_addr
            ∷ accepts b b_addr
            ∷ speaks a (json.serialize (construct_add_node_request json port))
            ∷ [])
        ≡ runs
            (two_clients
              (insert_new_node sqlite false store' b_addr port).0
              b_addr
              (suc k)
              clients
              a
              b
              (peeked (zeros (suc k)) (json.serialize (construct_add_node_request json port))))
            (tagged a (
              connected_database
              ∷ disconnected_database
              ∷ responded
                  (added_text sqlite json env (insert_new_node sqlite false store' b_addr port).1)
              ∷ []))
  run_gateway-shared store store' latest k clients a b a_addr b_addr port ne memory short opens
        ready small fits =
      let message = json.serialize (construct_add_node_request json port) in
      let fits' : length message < length (zeros (suc k)) = omega (arith, length-zeros (suc k)) in
      first_of_two store _ latest (suc k) clients a b a_addr b_addr message _ ne (
        (gateway_round-behind sqlite json env b_addr store (zeros (suc k)) [] message
          (zeros-Holds k) (stream.serialize-HasNoNul (construct_add_node_request json port))
          fits').0
        ∙ served_add_node sqlite json env lawful stream store store' b_addr
            (drop (length message) []) port memory short opens ready small
        ∙ serve_added_lem (insert_new_node sqlite false store' b_addr port))
