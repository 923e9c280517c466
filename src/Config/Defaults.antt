-- ===== src/Config/Defaults.antt =====
-- The configuration that a node starts with when it finds none.
use geo_ns_core.Common.{
  ◌-◌, ◌<◌, ◌≡◌, refl, ◌∙◌, ap, Bool, true, false, Option, some, arith, length, take_all,
}
use geo_ns_core.Text.{Text, codes, str_eq, strn_eq}
use geo_ns_core.Json.{Json, IsLawful, IsNested}
use geo_ns_core.Config.{
  Config, loaded, default_geons_server_addr, default_node_gateway_port, max_config_file_content,
  config_text, get_default_config, is_valid_config, create_default_config, write_config_data,
  get_config, config_with, config_of, load_config, init_config_manager,
}

-- The defaults: all addresses, the ports 9060 and 8000, and every switch off.
abbrev pub default_config : Config
default_config = record {
  geons_config = record {
    geons_server_addr = default_geons_server_addr;
    node_gateway_port = default_node_gateway_port;
  };
  http_config = record {
    accept_any_method = false;
    directory_indexing = false;
    trim_large_headers = false;
    trim_large_body = false;
    server_port = 8000;
  };
}

module _ {J : Type 0} (json : Json J) (lawful : IsLawful json) (nested : IsNested json) where
  default_address :
      json.dotget_string (some (get_default_config json false)) (codes "server.server_addr")
      ≡ some default_geons_server_addr
  unfolding get_default_config str_eq strn_eq
  default_address =
      nested.get_string-set_boolean _ _ _ _ refl
      ∙ nested.get_string-set_boolean _ _ _ _ refl
      ∙ nested.get_string-set_boolean _ _ _ _ refl
      ∙ nested.get_string-set_boolean _ _ _ _ refl
      ∙ nested.get_string-set_number _ _ _ _ refl
      ∙ nested.get_string-set_number _ _ _ _ refl
      ∙ nested.get_string-set_string _ _ _

  default_gateway :
      json.dotget_number (some (get_default_config json false)) (codes "server.node.server_port")
      ≡ default_node_gateway_port
  unfolding get_default_config str_eq strn_eq
  default_gateway =
      nested.get_number-set_boolean _ _ _ _ refl
      ∙ nested.get_number-set_boolean _ _ _ _ refl
      ∙ nested.get_number-set_boolean _ _ _ _ refl
      ∙ nested.get_number-set_boolean _ _ _ _ refl
      ∙ nested.get_number_apart _ _ _ _ refl
      ∙ nested.get_number-set_number _ _ _

  default_port :
      json.dotget_number (some (get_default_config json false)) (codes "server.http.server_port")
      ≡ 8000
  unfolding get_default_config str_eq strn_eq
  default_port =
      nested.get_number-set_boolean _ _ _ _ refl
      ∙ nested.get_number-set_boolean _ _ _ _ refl
      ∙ nested.get_number-set_boolean _ _ _ _ refl
      ∙ nested.get_number-set_boolean _ _ _ _ refl
      ∙ nested.get_number-set_number _ _ _

  default_accept_any_method :
      json.dotget_boolean
        (some (get_default_config json false))
        (codes "server.http.accept_any_method")
      ≡ some false
  unfolding get_default_config str_eq strn_eq
  default_accept_any_method =
      nested.get_boolean_apart _ _ _ _ refl
      ∙ nested.get_boolean_apart _ _ _ _ refl
      ∙ nested.get_boolean_apart _ _ _ _ refl
      ∙ nested.get_boolean-set_boolean _ _ _

  default_directory_indexing :
      json.dotget_boolean
        (some (get_default_config json false))
        (codes "server.http.directory_indexing")
      ≡ some false
  unfolding get_default_config str_eq strn_eq
  default_directory_indexing =
      nested.get_boolean_apart _ _ _ _ refl
      ∙ nested.get_boolean_apart _ _ _ _ refl
      ∙ nested.get_boolean-set_boolean _ _ _

  default_trim_large_headers :
      json.dotget_boolean
        (some (get_default_config json false))
        (codes "server.http.trim_large_headers")
      ≡ some false
  unfolding get_default_config str_eq strn_eq
  default_trim_large_headers =
      nested.get_boolean_apart _ _ _ _ refl ∙ nested.get_boolean-set_boolean _ _ _

  default_trim_large_body :
      json.dotget_boolean
        (some (get_default_config json false))
        (codes "server.http.trim_large_body")
      ≡ some false
  unfolding get_default_config str_eq strn_eq
  default_trim_large_body = nested.get_boolean-set_boolean _ _ _

  default-with :
      config_with json (some (get_default_config json false)) (some default_geons_server_addr)
      ≡ loaded default_config
  default-with =
      unfold config_with in
      rw
        (
          default_gateway, default_port, default_accept_any_method, default_directory_indexing,
          default_trim_large_headers, default_trim_large_body,
        )
        refl

  default-loaded : config_of json (some (get_default_config json false)) ≡ loaded default_config
  default-loaded =
      unfold config_of in
      (ap (config_with json (some (get_default_config json false))) default_address ∙ default-with)

  -- The file that is written with the defaults.
  abbrev pub default_file : Text
  default_file = json.serialize_pretty (get_default_config json false)

  -- The text of the defaults, where it fits the buffer, loads as the defaults.
  default_file-loaded :
      length default_file < max_config_file_content
      → load_config json true true (some default_file) ≡ loaded default_config
  default_file-loaded short =
      let whole : config_text default_file ≡ default_file =
        take_all (max_config_file_content - 1) default_file (omega arith) in
      unfold load_config in
      unfold get_config in
      rw (whole, lawful.parse-serialize_pretty (get_default_config json false)) default-loaded

  -- A node that finds no valid configuration writes one that holds the defaults, and starts with them.
  -- Started again, it finds that file, and when it is valid the node leaves it as it is and has the
  -- defaults again. The text of the defaults fits the buffer, memory is given and the file can be written.
  pub init_config_manager-defaults :
      (file : Option Text)
      → is_valid_config json true file ≡ false
      → length default_file < max_config_file_content
      → is_valid_config json true (some default_file) ≡ true
      → (init_config_manager json true true file ≡ (some default_file, loaded default_config))
        × (init_config_manager json true true (some default_file)
            ≡ (some default_file, loaded default_config))
  init_config_manager-defaults file invalid short valid = (
    unfold init_config_manager in
        rw invalid (
          unfold create_default_config write_config_data in
          ap (λ l. (some default_file, l)) (default_file-loaded short)),
    unfold init_config_manager in
        rw valid (ap (λ l. (some default_file, l)) (default_file-loaded short)),
  )

  -- A node that finds a valid configuration leaves the file as it is.
  init_config_manager-valid :
      (writable has_memory : Bool) (file : Option Text)
      → is_valid_config json has_memory file ≡ true
      → (init_config_manager json writable has_memory file).0 ≡ file
  init_config_manager-valid writable has_memory file valid =
      unfold init_config_manager in rw valid refl
