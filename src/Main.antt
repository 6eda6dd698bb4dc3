-- ===== src/Main.antt =====
-- daemon/main.cpp: the command line, and the program as a whole.
pub mod Idle
pub mod Stuck
use phm.Base.{
  ℕ, ◌⊎◌, inl, inr, true, false, Text, codes, List, [], ◌∷◌, Option, none, some, Outcome, done,
  failed, ◌>>=◌,
}
use phm.Types.{PhmConfig, SeConfig, Doubles}
use phm.Monitor.{IMonitor}
use phm.Config.{default_config}
use phm.Daemon.{DaemonConfig, Turn, RunCalls, new, initialize, run}

-- The answers of getopt, one after another; opt_other is an option that it does not know.
pub data Flag : Type 0 where
  opt_c opt_l opt_p opt_s : Text → Flag
  opt_v opt_f opt_h opt_other : Flag

abbrev pub default_daemon_config : DaemonConfig
default_daemon_config = record {
  app_config = default_config;
  daemonize = true;
  pid_file = codes "/var/run/phmd.pid";
  user = [];
}

-- The loop over the options: an exit code, or the configuration.
unfoldable pub parse_options : List Flag → DaemonConfig → ℕ ⊎ DaemonConfig
parse_options [] config = inr config
parse_options (opt_c path ∷ rest) config =
    parse_options rest
      (record config { app_config = record config.app_config { config_path = path } })
parse_options (opt_l dir ∷ rest) config =
    parse_options rest (record config { app_config = record config.app_config { log_dir = dir } })
parse_options (opt_p path ∷ rest) config = parse_options rest (record config { pid_file = path })
parse_options (opt_s path ∷ rest) config =
    parse_options rest
      (record config { app_config = record config.app_config { ipc_endpoint = path } })
parse_options (opt_v ∷ rest) config =
    parse_options rest (record config { app_config = record config.app_config { log_dir = [] } })
parse_options (opt_f ∷ rest) config = parse_options rest (record config { daemonize = false })
parse_options (opt_h ∷ rest) config = inl 0
parse_options (opt_other ∷ rest) config = inl 1

module _ {D M E : Type 0} (d : Doubles D) (i : IMonitor D M E) where
  -- The exit code, none while the daemon's main loop goes on. file is what the configuration file
  -- holds, none if it cannot be parsed.
  unfoldable pub main :
      List Flag
      → Option (PhmConfig × List (SeConfig D))
      → RunCalls
      → (Text → ℕ → E)
      → List (Turn D)
      → Outcome (Option ℕ)
  unfolding parse_options initialize run
  main flags file os env turns = elim (parse_options flags default_daemon_config) [
    | inl code ↦ done (some code)
    | inr config ↦ (do
      en ← initialize d file (new config)
      (code, en', dm) ← run d i os env turns (some en) (new config)
      done code)
  ]
