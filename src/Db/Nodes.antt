-- ===== src/Db/Nodes.antt =====
-- The table of known nodes.
use mathlib.Core.Path.{subst}
use geo_ns_core.Common.{
  ℕ, ◌^◌, ◌<◌, ◌≤◌, ◌≡◌, refl, ap, true, false, List, [], ◌∷◌, Option, none, some, arith, length,
  length-take, All,
}
use geo_ns_core.Text.{Text}
use geo_ns_core.Db.{
  Sqlite, Node, db_exec, node_of, nodes_of, get_all_active_nodes, insert_found, insert_new_node,
  insert_node, select_node, select_active, max_server_addr, max_status,
}

-- A node that fits the fields it is read into.
abbrev pub FitsNode : Node → Type 0
FitsNode node =
    (node.id < 2 ^ 8)
    × (length node.server_addr ≤ max_server_addr)
    × (node.node_gateway < 2 ^ 16)
    × (length node.status ≤ max_status)

module _ {W Row : Type 0} (sqlite : Sqlite W Row) where
  -- SQLite finds a node.
  abbrev pub Finds : W → Text → ℕ → Type 0
  Finds db server_addr port =
      (row : Row) × (rows : List Row) × (sqlite.query db (select_node server_addr port)
        ≡ some (row ∷ rows))

  insert_cases :
      (db db' : W) (server_addr : Text) (port : ℕ) (found : Option (List Row))
      → ((db_exec sqlite db (insert_node server_addr port)).1 ≡ 1
          → Finds (db_exec sqlite db (insert_node server_addr port)).0 server_addr port)
      → insert_found sqlite db server_addr port found ≡ (db', 1)
      → Finds db' server_addr port
  unfolding insert_found
  insert_cases db db' server_addr port none finds h =
      let e = ap (λ p. p.1) h in absurd (omega arith)
  insert_cases db db' server_addr port (some []) finds h =
      subst (λ d. Finds d server_addr port) (ap (λ p. p.0) h) (finds (ap (λ p. p.1) h))
  insert_cases db db' server_addr port (some (row ∷ rows)) finds h =
      let e = ap (λ p. p.1) h in absurd (omega arith)

  -- A node that has been added is reported as already there when it is added again, and the database
  -- is left as it is, when SQLite finds a node whose insertion has succeeded.
  insert_new_node-again :
      (db db' : W) (server_addr : Text) (port : ℕ)
      → ((db_exec sqlite db (insert_node server_addr port)).1 ≡ 1
          → Finds (db_exec sqlite db (insert_node server_addr port)).0 server_addr port)
      → insert_new_node sqlite false db server_addr port ≡ (db', 1)
      → insert_new_node sqlite false db' server_addr port ≡ (db', 2)
  insert_new_node-again db db' server_addr port finds h =
      let (row, rows, e) =
        insert_cases db db' server_addr port (sqlite.query db (select_node server_addr port)) finds
          (unfold insert_new_node in h) in
      unfold insert_new_node insert_found in rw e refl

  pub nodes_of-FitsNode :
      (rows : List Row)
      → All FitsNode (nodes_of sqlite rows) × (length (nodes_of sqlite rows) ≡ length rows)
  unfolding nodes_of node_of
  nodes_of-FitsNode [] = (tt, refl)
  nodes_of-FitsNode (row ∷ rows) =
      let (fits, e) = nodes_of-FitsNode rows in
      (
        (
          (
            omega arith,
            omega (arith, length-take max_server_addr (sqlite.column_text row 1)),
            omega arith,
            omega (arith, length-take max_status (sqlite.column_text row 3)),
          ),
          fits,
        ),
        omega (arith, e),
      )

  -- Every active node that is read fits its fields, whatever the rows hold, and there is one node for
  -- each row; only a node's own database is read.
  get_all_active_nodes-FitsNode :
      (db : W) (size_of_nodes : ℕ) (rows : List Row)
      → sqlite.query db (select_active size_of_nodes) ≡ some rows
      → (get_all_active_nodes sqlite true db size_of_nodes ≡ none)
        × ((nodes : List Node) × (get_all_active_nodes sqlite false db size_of_nodes ≡ some nodes)
            × All FitsNode nodes
            × (length nodes ≡ length rows))
  get_all_active_nodes-FitsNode db size_of_nodes rows e =
      let (fits, size) = nodes_of-FitsNode rows in
      (
        unfold get_all_active_nodes in refl,
        (nodes_of sqlite rows, unfold get_all_active_nodes in rw e refl, fits, size),
      )
