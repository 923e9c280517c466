-- ===== src/Node/Joining.antt =====
-- A node that reaches no other node.
use geo_ns_core.Common.{
  ℕ, ◌<◌, ◌++◌, leb, length, arith, ◌≡◌, refl, ◌∙◌, ap, Bool, true, false, List, [], ◌∷◌, some,
  if◌then◌else◌, Bool-cases, inl, inr,
}
use geo_ns_core.Text.{Text}
use geo_ns_core.Socket.Addresses.{is_my_ip}
use geo_ns_core.Db.{Sqlite, Node, is_ledger_name, db_init, remove_node, get_all_active_nodes}
use geo_ns_core.Db.Connection.{
  Handle, Database, Release, closed_database, freed_database, max_sys_path_length, db_open,
  db_connect, db_disconnect,
}
use geo_ns_core.Geonsp.{local_db, max_active_nodes}
use geo_ns_core.Json.{Json}
use geo_ns_core.Config.{Config}
use geo_ns_core.Geonsp.Client.{
  Network, ping_command, unavailable, exchanged, is_geons_host_available, handle_node_info_exchange,
}
use geo_ns_core.Node.{
  init_nodes, source_node, swept, Joined, joined, Place, sweep_then, exchange_all, then_localdb,
  with_local_db, disconnected, join_after, join_active, connect_localdb_node_servers,
  connect_init_node_servers,
}

module _ {P W Row J : Type 0} (json : Json J) (network : Network P) (sqlite : Sqlite W Row)
    (config : Config) (place : Place) where
  -- The nodes are removed in order, but for those at an address of this node.
  abbrev pub forget : W → List Node → W
  forget store [] = store
  forget store (node ∷ nodes) =
      forget
        (if is_my_ip network.interfaces node.server_addr
          then store
          else (remove_node sqlite store node).0)
        nodes

  -- The database after an exchange with a node that is not reached.
  abbrev after_unreached : Bool → W → Node → W
  after_unreached remove store node =
      if is_my_ip network.interfaces node.server_addr
      then store
      else if remove
      then (remove_node sqlite store node).0
      else store

  exchange-unreached :
      (is_ledger remove : Bool) (store : W) (net : P) (source node : Node)
      → network.ping net (ping_command node.server_addr) ≡ false
      → (answer : ℕ) × (handle_node_info_exchange json network sqlite is_ledger store net source
            node remove
          ≡ exchanged net (after_unreached remove store node) [] answer)
  exchange-unreached is_ledger remove store net source node down =
      elim (Bool-cases (is_my_ip network.interfaces node.server_addr)) [
        | inl mine ↦ (2, unfold handle_node_info_exchange in rw mine refl)
        | inr other ↦
            let host : is_geons_host_available json network net node.server_addr node.node_gateway
                ≡ unavailable net [] =
              unfold is_geons_host_available in rw down refl in
            (0, unfold handle_node_info_exchange in rw (other, host) refl)
      ]

  abbrev after_all : Bool → W → List Node → W
  after_all remove store [] = store
  after_all remove store (node ∷ nodes) = after_all remove (after_unreached remove store node) nodes

  exchange_all-step :
      (is_ledger remove : Bool) (store : W) (net : P) (node : Node) (nodes : List Node)
      → network.ping net (ping_command node.server_addr) ≡ false
      → exchange_all json network sqlite config place is_ledger remove store net (node ∷ nodes)
        ≡ sweep_then json network sqlite config place [] (
            exchange_all json network sqlite config place is_ledger remove
              (after_unreached remove store node)
              net
              nodes)
  exchange_all-step is_ledger remove store net node nodes down =
      let (answer, e) =
        exchange-unreached is_ledger remove store net (source_node config) node down in
      unfold exchange_all in rw (e, exchange_all) refl

  -- No node answers a ping.
  abbrev pub AllDown : P → Type 0
  AllDown net = (server_addr : Text) → network.ping net (ping_command server_addr) ≡ false

  exchange_all-down :
      (is_ledger remove : Bool) (store : W) (net : P) (nodes : List Node)
      → AllDown net
      → exchange_all json network sqlite config place is_ledger remove store net nodes
        ≡ swept net (after_all remove store nodes) []
  exchange_all-down is_ledger remove store net [] down = unfold exchange_all in refl
  exchange_all-down is_ledger remove store net (node ∷ nodes) down =
      exchange_all-step is_ledger remove store net node nodes (down node.server_addr)
      ∙ ap (sweep_then json network sqlite config place [])
          (exchange_all-down is_ledger remove (after_unreached remove store node) net nodes down)

  unreached-keeps : (store : W) (node : Node) → after_unreached false store node ≡ store
  unreached-keeps store node = elim (Bool-cases (is_my_ip network.interfaces node.server_addr)) [
    | inl mine ↦ rw mine refl
    | inr other ↦ rw other refl
  ]

  after_all-keeps : (store : W) (nodes : List Node) → after_all false store nodes ≡ store
  after_all-keeps store [] = refl
  after_all-keeps store (node ∷ nodes) =
      ap (λ s. after_all false s nodes) (unreached-keeps store node) ∙ after_all-keeps store nodes

  after_all-forgets :
      (store : W) (nodes : List Node) → after_all true store nodes ≡ forget store nodes
  after_all-forgets store [] = refl
  after_all-forgets store (node ∷ nodes) = after_all-forgets (after_unreached true store node) nodes

  -- The local database as it is once it is connected.
  abbrev local : Database
  local = record { db_name = local_db; is_ledger = is_ledger_name local_db; handle = Handle.opened }

  -- What closing the local database gives back.
  abbrev pub closing : List Release
  closing = closed_database local_db ∷ freed_database local_db ∷ []

  -- There is memory for a database, its path fits the buffer for it, and SQLite opens it.
  abbrev pub LocalOpens : Type 0
  LocalOpens =
      (place.has_memory ≡ true)
      × (length (place.cwd ++ local_db) < max_sys_path_length)
      × (place.opens (place.cwd ++ local_db) ≡ true)

  with_local_db-opened :
      (net : P) (store first : W) (next : Joined P W → Joined P W)
      (body : Database → W → Joined P W)
      → LocalOpens
      → db_init sqlite (is_ledger_name local_db) store ≡ some first
      → with_local_db json network sqlite config place net store next body
        ≡ next (disconnected json network sqlite config place (some closing) (body local first))
  unfolding db_open db_connect db_disconnect
  with_local_db-opened net store first next body (memory, short, opens) init =
      let fits : leb max_sys_path_length (length (place.cwd ++ local_db)) ≡ false = ground arith in
      rw (memory, fits, opens, init) refl

  connect_localdb_node_servers-down :
      (net : P) (store first : W) (nodes : List Node)
      → AllDown net
      → LocalOpens
      → db_init sqlite (is_ledger_name local_db) store ≡ some first
      → get_all_active_nodes sqlite (is_ledger_name local_db) first max_active_nodes ≡ some nodes
      → connect_localdb_node_servers json network sqlite config place net store
        ≡ joined net (forget first nodes) [] closing 1
  unfolding connect_localdb_node_servers
  connect_localdb_node_servers-down net store first nodes down opens init active =
      with_local_db-opened net store first (λ j. j)
        (λ db store'.
          join_active json network sqlite config place net db.is_ledger store'
            (get_all_active_nodes sqlite db.is_ledger store' max_active_nodes))
        opens init
      ∙ (rw
          (
            active,
            exchange_all-down (is_ledger_name local_db) true first net nodes down,
            after_all-forgets first nodes,
          )
          refl)

  -- When no node answers a ping, and the local database opens, is filled and gives its active nodes, a
  -- node still joins with the answer 1: the addresses that it starts from change nothing, and the active
  -- nodes that are read from the database, at most 16 by the limit of the query, are removed from it, but
  -- for those at an address of its own. No descriptor is closed, and the database, opened twice, is closed
  -- and freed twice.
  pub connect_init_node_servers-unreachable :
      (net : P) (store first second : W) (nodes : List Node)
      → AllDown net
      → LocalOpens
      → db_init sqlite (is_ledger_name local_db) store ≡ some first
      → db_init sqlite (is_ledger_name local_db) first ≡ some second
      → get_all_active_nodes sqlite (is_ledger_name local_db) second max_active_nodes ≡ some nodes
      → connect_init_node_servers json network sqlite config place net store
        ≡ joined net (forget second nodes) [] (closing ++ closing) 1
  unfolding connect_init_node_servers
  connect_init_node_servers-unreachable net store first second nodes down opens init init' active =
      with_local_db-opened net store first (then_localdb json network sqlite config place)
        (λ db store'.
          join_after json network sqlite config place 1 (
            exchange_all json network sqlite config place db.is_ledger false store' net init_nodes))
        opens init
      ∙ (rw
          (
            exchange_all-down (is_ledger_name local_db) false first net init_nodes down,
            after_all-keeps first init_nodes,
            connect_localdb_node_servers-down net first second nodes down opens init' active,
          )
          refl)
