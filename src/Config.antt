-- ===== src/Config.antt =====
-- src/libs/config/config.c: the configuration file. The JSON library is a parameter; the state is the
-- content of the file at CONFIG_FILE_PATH, `none` where there is no file. A file that exists can be
-- read; `writable` says whether it can be written.
pub mod Defaults
mod Tests
use geo_ns_core.Common.{
  ℕ, ◌-◌, ◌%◌, ◌^◌, Bool, true, false, not, ◌||◌, List, [], ◌∷◌, ◌++◌, Option, none, some, ◌==◌,
  if◌then◌else◌, take,
}
use geo_ns_core.Text.{Text, codes}
use geo_ns_core.Json.{Json}
use geo_ns_core.Http.Parser.{HttpConfig}

pub record GeonsConfig : Type 0 where
  pub geons_server_addr : Text
  pub node_gateway_port : ℕ

pub record Config : Type 0 where
  pub geons_config : GeonsConfig
  pub http_config : HttpConfig

abbrev pub default_geons_server_addr : Text
default_geons_server_addr = codes "0.0.0.0"

abbrev pub default_node_gateway_port : ℕ
default_node_gateway_port = 9060

abbrev pub max_config_file_content : ℕ
max_config_file_content = 4096

abbrev pub max_ipv6_length : ℕ
max_ipv6_length = 39

-- A value that is set, with its type. `unknown_type` is a type that the code does not know.
pub data ConfigValue (J : Type 0) : Type 0 where
  of_bool : Bool → ConfigValue J
  of_null : ConfigValue J
  of_string : Text → ConfigValue J
  of_number : ℕ → ConfigValue J
  of_value : J → ConfigValue J
  unknown_type : ConfigValue J

-- What loading gives: undefined behaviour, the answer 0, or the answer 1 with the configuration.
pub data Loaded : Type 0 where
  undefined not_loaded : Loaded
  loaded : Config → Loaded

-- `strchr(key, '.') != NULL`
unfoldable pub is_nested : Text → Bool
is_nested [] = false
is_nested (c ∷ key) = c == b'.' || is_nested key

-- A missing switch is -1, of which the field of one bit keeps 1.
abbrev pub switch : Option Bool → Bool
switch none = true
switch (some b) = b

-- What is read of the file.
abbrev pub config_text : Text → Text
config_text content = take (max_config_file_content - 1) content

module _ {J : Type 0} (json : Json J) where
  unfoldable pub get_default_config : Bool → J
  get_default_config is_template =
      let address =
        json.dotset_string json.object (codes "server.server_addr")
          (if is_template then [] else default_geons_server_addr) in
      let gateway =
        json.dotset_number address (codes "server.node.server_port")
          (if is_template then 0 else default_node_gateway_port) in
      let port = json.dotset_number gateway (codes "server.http.server_port") 8000 in
      let methods = json.dotset_boolean port (codes "server.http.accept_any_method") false in
      let indexing = json.dotset_boolean methods (codes "server.http.directory_indexing") false in
      let headers = json.dotset_boolean indexing (codes "server.http.trim_large_headers") false in
      json.dotset_boolean headers (codes "server.http.trim_large_body") false

  -- A file that cannot be written is a null pointer, which is written to: `none`.
  unfoldable pub write_config_data : Bool → Text → Option (Option Text)
  write_config_data false config_data = none
  write_config_data true config_data = some (some config_data)

  unfoldable pub is_valid_config : Bool → Option Text → Bool
  unfolding get_default_config
  is_valid_config has_memory none = false
  is_valid_config false (some content) = false
  is_valid_config true (some content) =
      json.validate (get_default_config true) (json.parse (config_text content))

  unfoldable pub create_default_config : Bool → Option (Option Text)
  unfolding write_config_data get_default_config
  create_default_config writable =
      write_config_data writable (json.serialize_pretty (get_default_config false))

  -- The value of a key that is not empty.
  abbrev pub value_at : Option J → Text → Option J
  value_at config key =
      if is_nested key
      then (if json.dothas_value config key then json.dotget_value config key else none)
      else (if json.has_value config key then json.get_value config key else none)

  abbrev pub config_at : Option J → Text → Option J
  config_at config [] = config
  config_at config (c ∷ key) = value_at config (c ∷ key)

  unfoldable pub get_config : Bool → Option Text → Text → Option J
  unfolding is_nested
  get_config has_memory none key = none
  get_config false (some content) key = none
  get_config true (some content) key = config_at (json.parse (config_text content)) key

  -- A configuration without an address is a null pointer, which is copied from.
  unfoldable pub config_with : Option J → Option Text → Loaded
  config_with value none = undefined
  config_with value (some address) = loaded (record {
    geons_config = record {
      geons_server_addr = take max_ipv6_length address;
      node_gateway_port = json.dotget_number value (codes "server.node.server_port") % 2 ^ 16;
    };
    http_config = record {
      accept_any_method =
          switch (json.dotget_boolean value (codes "server.http.accept_any_method"));
      directory_indexing =
          switch (json.dotget_boolean value (codes "server.http.directory_indexing"));
      trim_large_headers =
          switch (json.dotget_boolean value (codes "server.http.trim_large_headers"));
      trim_large_body = switch (json.dotget_boolean value (codes "server.http.trim_large_body"));
      server_port = json.dotget_number value (codes "server.http.server_port") % 2 ^ 16;
    };
  })

  unfoldable pub config_of : Option J → Loaded
  unfolding config_with
  config_of value = config_with value (json.dotget_string value (codes "server.server_addr"))

  abbrev pub loaded_from : Option J → Loaded
  loaded_from none = not_loaded
  loaded_from (some value) = config_of (some value)

  -- `has_memory`: for the configuration, and for the content of the file.
  unfoldable pub load_config : Bool → Bool → Option Text → Loaded
  unfolding config_of get_config
  load_config false has_memory file = not_loaded
  load_config true has_memory file = loaded_from (get_config has_memory file [])

  abbrev pub load_created : Bool → Option (Option Text) → Option Text × Loaded
  load_created has_memory none = (none, undefined)
  load_created has_memory (some file) = (file, load_config has_memory has_memory file)

  -- The file as it is left, and what is loaded from it. Memory is given for the configuration and the
  -- content of its file, or for neither.
  unfoldable pub init_config_manager : Bool → Bool → Option Text → Option Text × Loaded
  unfolding is_valid_config create_default_config load_config
  init_config_manager writable has_memory file =
      if is_valid_config has_memory file
      then (file, load_config has_memory has_memory file)
      else load_created has_memory (create_default_config writable)

  -- The configuration with a key set, or nothing for an unknown type.
  unfoldable pub with_setting : J → Text → ConfigValue J → Option J
  unfolding is_nested
  with_setting config key (of_bool b) =
      some
        (if is_nested key then json.dotset_boolean config key b else json.set_boolean config key b)
  with_setting config key of_null =
      some (if is_nested key then json.dotset_null config key else json.set_null config key)
  with_setting config key (of_string s) =
      some (if is_nested key then json.dotset_string config key s else json.set_string config key s)
  with_setting config key (of_number n) =
      some (if is_nested key then json.dotset_number config key n else json.set_number config key n)
  with_setting config key (of_value v) =
      some (if is_nested key then json.dotset_value config key v else json.set_value config key v)
  with_setting config key unknown_type = none

  abbrev pub written : Option Text → Option (Option Text) → Option (Option Text × ℕ)
  written file none = none
  written file (some file') = some (file', 1)

  abbrev pub save_setting : Bool → Option Text → Option J → Option (Option Text × ℕ)
  save_setting writable file none = some (file, 0)
  save_setting writable file (some config) =
      written file (write_config_data writable (json.serialize_pretty config))

  abbrev pub set_in :
      Bool → Option Text → Text → ConfigValue J → Option J → Option (Option Text × ℕ)
  set_in writable file key value none = some (file, 0)
  set_in writable file key value (some config) =
      save_setting writable file (with_setting config key value)

  -- The file as it is left, and the answer; `none` is undefined behaviour.
  unfoldable pub set_config :
      Bool → Bool → Option Text → Text → ConfigValue J → Option (Option Text × ℕ)
  unfolding get_config with_setting write_config_data
  set_config writable has_memory file key value =
      set_in writable file key value (get_config has_memory file [])
