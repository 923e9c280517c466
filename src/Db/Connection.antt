-- ===== src/Db/Connection.antt =====
-- `db_open`, `db_connect` and `db_disconnect` of src/libs/db/db.c. `opens` says of which paths
-- `sqlite3_open` opens the database. The state of the file is that of `Sqlite`.
use geo_ns_core.Common.{
  ℕ, Bool, true, false, List, [], ◌∷◌, ◌++◌, Option, none, some, leb, if◌then◌else◌, length,
}
use geo_ns_core.Text.{Text}
use geo_ns_core.Db.{Sqlite, is_ledger_name, db_init}

-- `db_open` stores a pointer to SQLite that it never sets; only `db_connect` sets it.
pub data Handle : Type 0 where
  unset opened : Handle

pub record Database : Type 0 where
  pub db_name : Text
  pub is_ledger : Bool
  pub handle : Handle

abbrev pub max_sys_path_length : ℕ
max_sys_path_length = 1024

-- `none`: no memory.
unfoldable pub db_open : Bool → Text → Option Database
unfolding is_ledger_name
db_open false db_name = none
db_open true db_name =
    some (record { db_name = db_name; is_ledger = is_ledger_name db_name; handle = unset })

-- The program exits, or the code runs into undefined behaviour, or the database is connected.
pub data Connected (W : Type 0) : Type 0 where
  exits undefined : Connected W
  connected : Database → W → Connected W

abbrev pub initialised : {W : Type 0} → Database → Option W → Connected W
initialised db none = undefined
initialised db (some store) = connected (record db { handle = opened }) store

unfoldable pub db_connect :
    {W Row : Type 0} → Sqlite W Row → Text → (Text → Bool) → Database → W → Connected W
unfolding db_init
db_connect sqlite cwd opens db store =
    let path = cwd ++ db.db_name in
    if leb max_sys_path_length (length path)
    then undefined
    else if opens path
    then initialised db (db_init sqlite db.is_ledger store)
    else exits

pub data Release : Type 0 where
  closed_database freed_database : Text → Release

abbrev close_handle : Handle → Text → Option (List Release)
close_handle unset name = none
close_handle opened name = some (closed_database name ∷ freed_database name ∷ [])

-- A null pointer does nothing. A database that was never connected is closed by a pointer that was
-- never set: the outer `none`.
unfoldable pub db_disconnect : Option Database → Option (List Release)
db_disconnect none = some []
db_disconnect (some db) = close_handle db.handle db.db_name
