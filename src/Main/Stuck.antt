-- ===== src/Main/Stuck.antt =====
-- daemon/main.cpp: the program with a configuration that enables an entity.
use phm.Base.{
  ℕ, inr, ◌≡◌, true, false, not, ◌&&◌, Text, is_empty, List, some, arith, failed, self_deadlock,
}
use phm.Types.{PhmConfig, SeConfig, Doubles}
use phm.Monitor.{IMonitor}
use phm.Engine.Loaded.{first_named}
use phm.Daemon.{DaemonConfig, Turn, RunCalls, new}
use phm.Daemon.Startup.{run-enabled}
use phm.Main.{Flag, default_daemon_config, parse_options, main}

module _ {D M E : Type 0} (d : Doubles D) (i : IMonitor D M E) where
  -- The program hangs in the start of its engine, before its main loop, if its options are valid and
  -- its configuration file can be parsed and enables an entity, whatever clients and signals come:
  -- it has a configuration path, nothing goes wrong as it daemonizes, and the entity is the first of
  -- its name in the file.
  pub main-enabled :
      (flags : List Flag) (config : DaemonConfig) (global : PhmConfig) (cfgs : List (SeConfig D))
      (os : RunCalls) (env : Text → ℕ → E) (turns : List (Turn D)) (n : Text) (cfg : SeConfig D)
      → parse_options flags default_daemon_config ≡ inr config
      → is_empty config.app_config.config_path ≡ false
      → (config.daemonize && not os.daemonizes) ≡ false
      → first_named n cfgs ≡ some cfg
      → cfg.enabled ≡ true
      → main {M = M} d i flags (some (global, cfgs)) os env turns ≡ failed self_deadlock
  unfolding main new
  main-enabled flags config global cfgs os env turns n cfg p c f q e =
      let (en, r, s) =
        run-enabled {M = M} d i os env turns (new config) global cfgs n cfg c f q e in
      ground (arith, p, r, s)
