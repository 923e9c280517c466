-- ===== src/Geonsp/Responses.antt =====
-- What a node answers to the messages of the protocol.
use geo_ns_core.Common.{
  ◌≡◌, refl, inl, inr, false, List, [], ◌∷◌, Option, none, some, Bool-cases, Option-cases,
}
use geo_ns_core.Text.{Text, codes}
use geo_ns_core.Socket.{CallbackResult, failed, success}
use geo_ns_core.Db.{Sqlite, Node, get_all_active_nodes}
use geo_ns_core.Db.Connection.{Database, Connected, db_open, db_connect}
use geo_ns_core.Json.{Json}
use geo_ns_core.Geonsp.{
  Effect, connected_database, disconnected_database, responded, Served, undefined, exits, served,
  Environment, server_proto_response, serve_get_version, serve_nodes, serve_added, on_connected,
  on_opened, serve_get_nodes, serve_add_node, serve_method, serve_request, node_server_callback,
  is_method, msg_get_version, msg_get_nodes, msg_add_node, local_db, max_active_nodes,
}

module _ {W Row J : Type 0} (sqlite : Sqlite W Row) (json : Json J) (env : Environment) where
  -- One message is sent, at the end. The state of the database changes only where it is connected, and
  -- the answer -1 goes with a message of failure.
  abbrev pub IsReply : W → W → List Effect → CallbackResult → Type 0
  IsReply before after (responded text ∷ []) success = after ≡ before
  IsReply before after (responded text ∷ []) failed =
      (after ≡ before) × ((message : Text) × (text ≡ server_proto_response json false message))
  IsReply before after (connected_database ∷ responded text ∷ []) success = Unit
  IsReply before after (connected_database ∷ disconnected_database ∷ responded text ∷ []) success =
      Unit
  IsReply before after _ _ = ⊥

  abbrev pub IsServed : W → Served W → Type 0
  IsServed before undefined = Unit
  IsServed before exits = Unit
  IsServed before (served after effects result) = IsReply before after effects result

  serve_nodes-IsServed :
      (before store : W) (nodes : Option (List Node))
      → IsServed before (serve_nodes sqlite json env store nodes)
  unfolding serve_nodes
  serve_nodes-IsServed before store none = tt
  serve_nodes-IsServed before store (some nodes) = tt

  on_connected-IsServed :
      (before : W) (c : Connected W) (body : Database → W → Served W)
      → ((db : Database) (store : W) → IsServed before (body db store))
      → IsServed before (on_connected sqlite json env c body)
  on_connected-IsServed before Connected.exits body h = tt
  on_connected-IsServed before Connected.undefined body h = tt
  on_connected-IsServed before (Connected.connected db store) body h = h db store

  on_opened-IsServed :
      (store : W) (db : Option Database) (body : Database → W → Served W)
      → ((db : Database) (after : W) → IsServed store (body db after))
      → IsServed store (on_opened sqlite json env db store body)
  on_opened-IsServed store none body h = refl
  on_opened-IsServed store (some db) body h =
      on_connected-IsServed store (db_connect sqlite env.cwd env.opens db store) body h

  serve_get_nodes-IsServed : (store : W) → IsServed store (serve_get_nodes sqlite json env store)
  serve_get_nodes-IsServed store =
      unfold serve_get_nodes in
      on_opened-IsServed store (db_open env.has_memory local_db) _ (λ db after.
        serve_nodes-IsServed store after
          (get_all_active_nodes sqlite db.is_ledger after max_active_nodes))

  serve_add_node-IsServed :
      (store : W) (client_addr : Text) (request : Option J)
      → IsServed store (serve_add_node sqlite json env store client_addr request)
  serve_add_node-IsServed store client_addr request =
      unfold serve_add_node serve_added in
      on_opened-IsServed store (db_open env.has_memory local_db) _ (λ db after. tt)

  serve_method-IsServed :
      (store : W) (client_addr : Text) (request : Option J) (method : Text)
      → IsServed store (serve_method sqlite json env store client_addr request method)
  serve_method-IsServed store client_addr request method =
      elim (Bool-cases (is_method sqlite json env method msg_get_version)) [
        | inl version ↦ unfold serve_method serve_get_version in rw version refl
        | inr v ↦ elim (Bool-cases (is_method sqlite json env method msg_get_nodes)) [
          | inl nodes ↦ unfold serve_method in rw (v, nodes) (serve_get_nodes-IsServed store)
          | inr n ↦ elim (Bool-cases (is_method sqlite json env method msg_add_node)) [
            | inl add ↦
                unfold serve_method in
                rw (v, n, add) (serve_add_node-IsServed store client_addr request)
            | inr a ↦
                unfold serve_method in
                rw (v, n, a) (refl, (codes "GEONSP: Invalid protocol method.", refl))
          ]
        ]
      ]

  serve_request-IsServed :
      (store : W) (client_addr : Text) (request : Option J)
      → IsServed store (serve_request sqlite json env store client_addr request)
  serve_request-IsServed store client_addr request =
      elim (Bool-cases (json.has_value request (codes "method"))) [
        | inr no_method ↦
            unfold serve_request in
            rw no_method (refl, (codes "GEONSP: Invalid protocol message.", refl))
        | inl named ↦ elim (Option-cases (json.get_string request (codes "method"))) [
          | inl no_text ↦ unfold serve_request in rw (named, no_text, serve_request) tt
          | inr (method, e) ↦
              unfold serve_request in
              rw (named, e, serve_request) (serve_method-IsServed store client_addr request method)
        ]
      ]

  -- Whatever a node is sent: unless the code runs into undefined behaviour or the program exits since
  -- the database does not open, one message is sent, at the end. Where the database is not connected it
  -- stays as it is, and the answer -1 is given only with a message of failure.
  pub node_server_callback-IsServed :
      (store : W) (client_addr buffer : Text)
      → IsServed store (node_server_callback sqlite json env store client_addr buffer)
  unfolding node_server_callback
  node_server_callback-IsServed store client_addr [] =
      (refl, (codes "GEONSP: Empty protocol message.", refl))
  node_server_callback-IsServed store client_addr (c ∷ buffer) =
      serve_request-IsServed store client_addr (json.parse (c ∷ buffer))
