-- ===== src/Db.antt =====
-- src/libs/db: the databases of a node. SQLite is a parameter: `exec` runs a statement and gives the
-- error code, `query` prepares a statement and gives its rows, or `none` when it does not prepare;
-- the columns of a row are read as numbers and texts. Memory allocation succeeds.
pub mod Tables
pub mod Defaults
pub mod Nodes
pub mod Connection
use geo_ns_core.Common.{
  ℕ, suc, ◌+◌, ◌-◌, ◌%◌, ◌^◌, Bool, true, false, List, [], ◌∷◌, ◌++◌, Option, none, some, ◌==◌,
  if◌then◌else◌, length, take,
}
use geo_ns_core.Text.{Text, codes, strn_eq}
use geo_ns_core.Text.Decimal.{decimal}
use geo_ns_core.Db.Tables.{Table, Service, ledger_db_tables, local_db_tables, default_services}

-- What the code calls of SQLite, on a store `W` and rows `Row`.
pub record Sqlite (W : Type 0) (Row : Type 0) : Type 0 where
  pub exec : W → Text → W × ℕ
  pub query : W → Text → Option (List Row)
  pub column_int : Row → ℕ → ℕ
  pub column_text : Row → ℕ → Text

pub record Node : Type 0 where
  pub id : ℕ
  pub server_addr : Text
  pub node_gateway : ℕ
  pub status : Text

abbrev pub max_sql_query_size : ℕ
max_sql_query_size = 1024

-- `snprintf` into `sql_query`.
abbrev pub sql : Text → Text
sql text = take (max_sql_query_size - 1) text

abbrev pub ledger_db : Text
ledger_db = codes "ledger.db"

-- `db_open` compares as many bytes as the name has.
unfoldable pub is_ledger_name : Text → Bool
unfolding strn_eq
is_ledger_name db_name = strn_eq (length db_name) db_name ledger_db

-- "... WHERE server = '%s' AND node_gateway = %d;"
abbrev pub where_node : Text → ℕ → Text
where_node server_addr node_gateway =
    codes " WHERE server = '"
    ++ (server_addr ++ (codes "' AND node_gateway = " ++ (decimal node_gateway ++ codes ";")))

abbrev pub delete_node : Text → ℕ → Text
delete_node server_addr node_gateway =
    sql (codes "DELETE FROM nodes" ++ where_node server_addr node_gateway)

abbrev pub select_node : Text → ℕ → Text
select_node server_addr node_gateway =
    sql (codes "SELECT * FROM nodes" ++ where_node server_addr node_gateway)

abbrev pub insert_node : Text → ℕ → Text
insert_node server_addr node_gateway = sql (
    codes "INSERT INTO nodes (server, node_gateway, status) VALUES ('"
    ++ (server_addr ++ (codes "', " ++ (decimal node_gateway ++ codes ", 'active')"))))

abbrev pub select_active : ℕ → Text
select_active size_of_nodes = sql (
    codes "SELECT * FROM nodes WHERE status = 'active' LIMIT "
    ++ (decimal size_of_nodes ++ codes ";"))

abbrev pub select_configured : Text
select_configured = codes "SELECT * FROM settings WHERE setting_key = 'geons_config_status';"

abbrev pub insert_configured : Text
insert_configured =
    codes
      "INSERT INTO settings (setting_key, setting_value) VALUES ('geons_config_status', 'true');"

-- "CREATE TABLE IF NOT EXISTS %s %s;"
abbrev pub create_table : Table → Text
create_table table = sql (
    codes "CREATE TABLE IF NOT EXISTS "
    ++ (table.name ++ (codes " " ++ (table.schema ++ codes ";"))))

abbrev is_local_digit : ℕ → Text
is_local_digit is_local = if is_local == 1 then codes "1" else codes "0"

abbrev pub insert_service : Service → Text
insert_service service = sql (
    codes "INSERT INTO services (service_name, service_url, is_local) VALUES ('"
    ++ (service.name
        ++ (codes "', '"
            ++ (service.url ++ (codes "', " ++ (is_local_digit service.is_local ++ codes ");"))))))

-- The sizes of the fields of a node, less the byte of the 0.
abbrev pub max_server_addr : ℕ
max_server_addr = 39

abbrev pub max_status : ℕ
max_status = 15

abbrev service_statements : List Service → List Text
service_statements [] = []
service_statements (service ∷ services) = insert_service service ∷ service_statements services

abbrev pub table_statements : List Table → List Text
table_statements [] = []
table_statements (table ∷ tables) = create_table table ∷ table_statements tables

abbrev pub tables_of : Bool → List Table
tables_of true = ledger_db_tables
tables_of false = local_db_tables

module _ {W Row : Type 0} (sqlite : Sqlite W Row) where
  -- The error code is stored in a byte.
  unfoldable pub db_exec : W → Text → W × ℕ
  db_exec db sql_query =
      let (db', code) = sqlite.exec db sql_query in (db', if code % 256 == 0 then 1 else 0)

  unfoldable pub remove_node : W → Node → W × ℕ
  unfolding db_exec
  remove_node db node = db_exec db (delete_node node.server_addr node.node_gateway)

  -- A row as a node; the number columns are stored in 8 and 16 bits.
  unfoldable pub node_of : Row → Node
  node_of row = record {
    id = sqlite.column_int row 0 % 2 ^ 8;
    server_addr = take max_server_addr (sqlite.column_text row 1);
    node_gateway = sqlite.column_int row 2 % 2 ^ 16;
    status = take max_status (sqlite.column_text row 3);
  }

  -- The loop over the rows.
  unfoldable pub nodes_of : List Row → List Node
  unfolding node_of
  nodes_of [] = []
  nodes_of (row ∷ rows) = node_of row ∷ nodes_of rows

  abbrev pub rows_of : Option (List Row) → Option (List Node)
  rows_of none = none
  rows_of (some rows) = some (nodes_of rows)

  -- `none` is the answer -1; the answer is else the number of the nodes, fewer than 128 of which the
  -- limit lets through.
  unfoldable pub get_all_active_nodes : Bool → W → ℕ → Option (List Node)
  unfolding nodes_of
  get_all_active_nodes true db size_of_nodes = none
  get_all_active_nodes false db size_of_nodes =
      rows_of (sqlite.query db (select_active size_of_nodes))

  -- The insertion, when the node was looked for.
  unfoldable pub insert_found : W → Text → ℕ → Option (List Row) → W × ℕ
  unfolding db_exec
  insert_found db server_addr port none = (db, 0)
  insert_found db server_addr port (some []) = db_exec db (insert_node server_addr port)
  insert_found db server_addr port (some (row ∷ rows)) = (db, 2)

  unfoldable pub insert_new_node : Bool → W → Text → ℕ → W × ℕ
  unfolding insert_found
  insert_new_node true db server_addr port = (db, 0)
  insert_new_node false db server_addr port =
      insert_found db server_addr port (sqlite.query db (select_node server_addr port))

  -- The first row says "true". A statement that does not prepare closes the database and is used
  -- nevertheless: `none`.
  unfoldable pub says_true : Option (List Row) → Option Bool
  unfolding strn_eq
  says_true none = none
  says_true (some []) = some false
  says_true (some (row ∷ rows)) = some (strn_eq 4 (sqlite.column_text row 2) (codes "true"))

  unfoldable pub is_geons_configured : Bool → W → Option Bool
  unfolding says_true
  is_geons_configured true db = some true
  is_geons_configured false db = says_true (sqlite.query db select_configured)

  abbrev configure_unless : W → Option Bool → Option W
  configure_unless db none = none
  configure_unless db (some true) = some db
  configure_unless db (some false) = some (db_exec db insert_configured).0

  -- The argument `is_configured` is overwritten before it is read.
  unfoldable pub set_geons_settings_config_status : Bool → W → Option W
  unfolding says_true db_exec
  set_geons_settings_config_status true db = some db
  set_geons_settings_config_status false db =
      configure_unless db (says_true (sqlite.query db select_configured))

  -- Statements one after another, whose answers are dropped.
  unfoldable pub exec_all : W → List Text → W
  unfolding db_exec
  exec_all db [] = db
  exec_all db (statement ∷ statements) = exec_all (db_exec db statement).0 statements

  unfoldable pub insert_default_values : Bool → W → Option W
  unfolding exec_all set_geons_settings_config_status
  insert_default_values true db = some (exec_all db (service_statements default_services))
  insert_default_values false db = set_geons_settings_config_status false db

  abbrev fill_unless : Bool → W → Option Bool → Option W
  fill_unless is_ledger db none = none
  fill_unless is_ledger db (some true) = some db
  fill_unless is_ledger db (some false) = insert_default_values is_ledger db

  unfoldable pub create_default_tables : Bool → W → Option W
  unfolding exec_all is_geons_configured insert_default_values
  create_default_tables is_ledger db =
      let created = exec_all db (table_statements (tables_of is_ledger)) in
      fill_unless is_ledger created (is_geons_configured is_ledger created)

  unfoldable pub db_init : Bool → W → Option W
  unfolding create_default_tables
  db_init is_ledger db = create_default_tables is_ledger db
