-- ===== src/Geonsp/NodeList.antt =====
-- The list of nodes that a node sends, as the node that asked reads it.
use geo_ns_core.Common.{
  ◌≡◌, refl, ◌∙◌, sym, ap, Bool, List, [], ◌∷◌, ◌++◌, Option, some, append_assoc, append-nil,
}
use geo_ns_core.Text.{Text, codes, str_eq}
use geo_ns_core.Db.{Node}
use geo_ns_core.Json.{Json, IsLawful}
use geo_ns_core.Geonsp.{base_response, append_nodes, node_value, server_proto_data_response}

module _ {J : Type 0} (json : Json J) where
  -- The values of a list of nodes.
  abbrev pub values_of : List Node → List (Option J)
  values_of [] = []
  values_of (node ∷ nodes) = some (node_value json node) ∷ values_of nodes

module _ {J : Type 0} (json : Json J) (lawful : IsLawful json) where
  pub node_value-server :
      (node : Node)
      → json.get_string (some (node_value json node)) (codes "server") ≡ some node.server_addr
  unfolding node_value str_eq
  node_value-server node =
      let named = json.set_string json.object (codes "server") node.server_addr in
      let numbered = json.set_number named (codes "node") node.node_gateway in
      lawful.get-set_string numbered (codes "status") node.status (codes "server")
      ∙ lawful.get_string-set_number named (codes "node") node.node_gateway (codes "server") refl
      ∙ lawful.get-set_string json.object (codes "server") node.server_addr (codes "server")

  pub node_value-node :
      (node : Node)
      → json.get_number (some (node_value json node)) (codes "node") ≡ node.node_gateway
  unfolding node_value str_eq
  node_value-node node =
      let named = json.set_string json.object (codes "server") node.server_addr in
      let numbered = json.set_number named (codes "node") node.node_gateway in
      lawful.get_number-set_string numbered (codes "status") node.status (codes "node") refl
      ∙ lawful.get_number-set_number named (codes "node") node.node_gateway (codes "node")

  elements-append_nodes :
      (base array : J) (nodes : List Node)
      → json.elements
          (some (json.set_value base (codes "data") (append_nodes json array nodes)))
          (codes "data")
        ≡ json.elements (some (json.set_value base (codes "data") array)) (codes "data")
          ++ values_of json nodes
  unfolding append_nodes
  elements-append_nodes base array [] = sym (append-nil _)
  elements-append_nodes base array (node ∷ nodes) =
      elements-append_nodes base (json.append array (node_value json node)) nodes
      ∙ ap (λ l. l ++ values_of json nodes)
          (lawful.elements-append base (codes "data") array (node_value json node))
      ∙ append_assoc
          (json.elements (some (json.set_value base (codes "data") array)) (codes "data"))
          (some (node_value json node) ∷ []) (values_of json nodes)

  node_value-status :
      (node : Node)
      → json.get_string (some (node_value json node)) (codes "status") ≡ some node.status
  unfolding node_value str_eq
  node_value-status node =
      let named = json.set_string json.object (codes "server") node.server_addr in
      let numbered = json.set_number named (codes "node") node.node_gateway in
      lawful.get-set_string numbered (codes "status") node.status (codes "status")

  pub elements-values_of :
      (is_success : Bool) (message : Text) (nodes : List Node)
      → json.elements
          (json.parse (
            server_proto_data_response json is_success message
              (append_nodes json json.array nodes)))
          (codes "data")
        ≡ values_of json nodes
  unfolding server_proto_data_response
  elements-values_of is_success message nodes =
      let base = base_response json is_success message in
      ap (λ r. json.elements r (codes "data")) (lawful.parse-serialize _)
      ∙ elements-append_nodes base json.array nodes
      ∙ ap (λ l. l ++ values_of json nodes) (lawful.elements-array base (codes "data"))

  -- The values are as many as the nodes, and each has the address, the port and the status of its node
  -- under the keys "server", "node" and "status".
  abbrev pub Tells : List (Option J) → List Node → Type 0
  Tells [] [] = Unit
  Tells [] (node ∷ nodes) = ⊥
  Tells (value ∷ values) [] = ⊥
  Tells (value ∷ values) (node ∷ nodes) =
      (json.get_string value (codes "server") ≡ some node.server_addr)
      × (json.get_number value (codes "node") ≡ node.node_gateway)
      × (json.get_string value (codes "status") ≡ some node.status)
      × Tells values nodes

  values_of-Tells : (nodes : List Node) → Tells (values_of json nodes) nodes
  values_of-Tells [] = tt
  values_of-Tells (node ∷ nodes) =
      (node_value-server node, node_value-node node, node_value-status node, values_of-Tells nodes)

  -- The list that is sent is read back: one value for each node, in order, with the node's address, port
  -- and status under the keys "server", "node" and "status".
  pub server_proto_data_response-Tells :
      (is_success : Bool) (message : Text) (nodes : List Node)
      → Tells
          (json.elements
            (json.parse (
              server_proto_data_response json is_success message
                (append_nodes json json.array nodes)))
            (codes "data"))
          nodes
  server_proto_data_response-Tells is_success message nodes =
      rw (elements-values_of is_success message nodes) (values_of-Tells nodes)
