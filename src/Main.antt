-- ===== src/Main.antt =====
-- src/main.c: a run of the program. The command line is read by another project's library: the run gets
-- the switches that it found. What is printed and what is written to the log is left out.
use geo_ns_core.Common.{ℕ, Bool, List, [], Option, none, some, if◌then◌else◌}
use geo_ns_core.Text.{Text}
use geo_ns_core.Io.{System}
use geo_ns_core.Io.Start.{Process, init_io_system}
use geo_ns_core.Db.{Sqlite}
use geo_ns_core.Json.{Json}
use geo_ns_core.Config.{Config, Loaded, init_config_manager}
use geo_ns_core.Geonsp.Client.{Network}
use geo_ns_core.Node.{Place, Threads, GeonsServer, Given, serve_geons, kill_geons_server}
use geo_ns_core.Node.Start.{
  Startup, Started, undefined_start, exits_start, not_started, started, create_geons_server,
}

pub record Switches : Type 0 where
  pub version : Bool
  pub license : Bool
  pub server : Bool

-- What the program finds: the path by which it was called, the links of its process, the memory of the
-- databases and the paths that SQLite opens, for the configuration whether it can be written and has
-- memory, and what the threads of the node do.
pub record Surroundings : Type 0 where
  pub exec_path : Text
  pub process : Process
  pub db_memory : Bool
  pub opens : Text → Bool
  pub config_writable : Bool
  pub config_memory : Bool
  pub threads : Threads

-- A run is undefined, or exits in a call, or exits early with success, or fails for its configuration,
-- or is still running, or returns 0 with the file of its configuration and what its node gave back.
pub data Ran : Type 0 where
  undefined_run : Ran
  exited : Ran
  shown : Ran
  config_failed : Ran
  still_running : Ran
  finished : Option Text → List Given → Ran

abbrev pub place_at : Surroundings → Text → Place
place_at surroundings cwd = record {
  has_memory = surroundings.db_memory;
  cwd = cwd;
  opens = surroundings.opens;
}

module _ {P W Row J : Type 0} (json : Json J) (network : Network P) (sqlite : Sqlite W Row)
    (system : System) (startup : Startup) (surroundings : Surroundings) where
  abbrev pub after_kill : Option Text → Option (List Given) → Ran
  after_kill file none = undefined_run
  after_kill file (some given) = finished file given

  -- The node is killed when the loop ends.
  abbrev pub after_serve : Option Text → GeonsServer → Option ℕ → Ran
  after_serve file server none = still_running
  after_serve file server (some seconds) =
      after_kill file (kill_geons_server surroundings.threads (some server))

  abbrev pub after_start : Option Text → List Bool → Started P W → Ran
  after_start file signals undefined_start = undefined_run
  after_start file signals exits_start = exited
  after_start file signals not_started = finished file []
  after_start file signals (started net store ledger_store server) =
      after_serve file server (serve_geons signals)

  -- Without the switch for the server there is nothing to do.
  unfoldable pub run_node : Switches → List Bool → P → W → W → Option Text → Text → Config → Ran
  unfolding create_geons_server serve_geons kill_geons_server
  run_node switches signals net store ledger_store file cwd config =
      if switches.server
      then after_start file signals (
          create_geons_server json network sqlite config (place_at surroundings cwd) system startup
            net store ledger_store)
      else finished file []

  abbrev pub with_config : Switches → List Bool → P → W → W → Text → Option Text × Loaded → Ran
  with_config switches signals net store ledger_store cwd (file, Loaded.undefined) = undefined_run
  with_config switches signals net store ledger_store cwd (file, Loaded.not_loaded) = config_failed
  with_config switches signals net store ledger_store cwd (file, Loaded.loaded config) =
      run_node switches signals net store ledger_store file cwd config

  abbrev pub with_cwd : Switches → List Bool → P → W → W → Option Text → Option Text → Ran
  with_cwd switches signals net store ledger_store file none = undefined_run
  with_cwd switches signals net store ledger_store file (some cwd) =
      with_config switches signals net store ledger_store cwd
        (init_config_manager json surroundings.config_writable surroundings.config_memory file)

  -- `signals`: whether the signal comes, second by second, once the node runs. `file` is the file of the
  -- configuration.
  unfoldable pub main : Switches → List Bool → P → W → W → Option Text → Ran
  unfolding run_node init_io_system init_config_manager
  main switches signals net store ledger_store file =
      if switches.version
      then shown
      else if switches.license
      then shown
      else with_cwd switches signals net store ledger_store file
          (init_io_system system surroundings.process surroundings.exec_path)
