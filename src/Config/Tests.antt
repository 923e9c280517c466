-- ===== src/Config/Tests.antt =====
-- The theorems on the configuration file with a small JSON library.
use geo_ns_core.Common.{◌≡◌, refl, true, none, some, arith}
use geo_ns_core.Json.Entries.{entries_json, entries_json-IsLawful, entries_json-IsNested}
use geo_ns_core.Config.{loaded, is_valid_config, init_config_manager, get_default_config}
use geo_ns_core.Config.Defaults.{default_config, default_file, init_config_manager-defaults}

init_config_manager-defaults_example :
    (init_config_manager entries_json true true none ≡ (
      some (default_file entries_json entries_json-IsLawful entries_json-IsNested),
      loaded default_config,
    ))
    × (init_config_manager entries_json true true
          (some (default_file entries_json entries_json-IsLawful entries_json-IsNested))
        ≡ (
          some (default_file entries_json entries_json-IsLawful entries_json-IsNested),
          loaded default_config,
        ))
unfolding is_valid_config get_default_config
init_config_manager-defaults_example =
    init_config_manager-defaults entries_json entries_json-IsLawful entries_json-IsNested none refl
      (omega arith) refl
