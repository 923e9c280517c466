-- ===== src/Db/Tables.antt =====
-- The tables and services of src/libs/db/table.c.
use geo_ns_core.Common.{List, [], ◌∷◌, ℕ}
use geo_ns_core.Text.{Text, codes}

pub record Table : Type 0 where
  pub name : Text
  pub schema : Text

pub record Service : Type 0 where
  pub name : Text
  pub url : Text
  pub is_local : ℕ

abbrev table : Text → Text → Table
table name schema = record { name = name; schema = schema }

abbrev service : Text → Text → ℕ → Service
service name url is_local = record { name = name; url = url; is_local = is_local }

abbrev pub ledger_db_tables : List Table
ledger_db_tables =
    table (codes "logs") (
      codes
        "(            id INTEGER PRIMARY KEY AUTOINCREMENT,            region TEXT,            location TEXT,            service TEXT,            delay INTEGER,            status TEXT CHECK (status IN ('success', 'failed')),            device TEXT CHECK (LENGTH(device) <= 128),            isp TEXT CHECK (LENGTH(isp) <= 64),            internet_type TEXT CHECK (internet_type IN ('phone', 'modem')),            timestamp INTEGER        )")
    ∷ table (codes "services") (
        codes
          "(            id INTEGER PRIMARY KEY AUTOINCREMENT,            service_name TEXT UNIQUE,            service_url TEXT,            is_local NUMBER        )")
    ∷ []

abbrev pub local_db_tables : List Table
local_db_tables =
    table (codes "settings") (
      codes
        "(            id INTEGER PRIMARY KEY AUTOINCREMENT,            setting_key TEXT UNIQUE,            setting_value TEXT        )")
    ∷ table (codes "nodes") (
        codes
          "(            id INTEGER PRIMARY KEY AUTOINCREMENT,            server TEXT CHECK (LENGTH(server) <= 15),            node_gateway SHORT,            status TEXT CHECK (status IN ('active', 'inactive'))        )")
    ∷ []

abbrev pub default_services : List Service
default_services =
    service (codes "Github") (codes "https://github.com/") 0
    ∷ service (codes "Google") (codes "https://www.google.com/") 0
    ∷ service (codes "Gmail") (codes "https://www.google.com/gmail/about/") 0
    ∷ service (codes "Android Developer") (codes "https://developer.android.com/") 0
    ∷ service (codes "Wikipedia") (codes "https://www.wikipedia.org/") 0
    ∷ service (codes "PlayStation") (codes "https://www.playstation.com/en-ie/") 0
    ∷ service (codes "Aparat") (codes "https://www.aparat.com/") 1
    ∷ service (codes "Filimo") (codes "https://www.filimo.com/") 1
    ∷ service (codes "Digikala") (codes "https://www.digikala.com/") 1
    ∷ []
