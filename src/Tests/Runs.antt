-- ===== src/Tests/Runs.antt =====
-- The theorems on the daemon and on loading, at concrete inputs.
use phm.Base.{ℕ, ◌≡◌, refl, true, false, codes, lookup, List, [], ◌∷◌, none, some, done}
use phm.Engine.{Engine, load_configuration, create}
use phm.Engine.Loaded.{first_named, or_fresh, load_configuration-first}
use phm.Daemon.{Daemon, DaemonConfig, sigterm, sighup, Turn, RunCalls}
use phm.Monitors.Builtin.{Builtin}
use phm.Types.{SeConfig}
use phm.Tests.Data.{nats, web_config, phm_config}

abbrev empty_engine : Engine ℕ (Builtin ℕ)
empty_engine = create phm_config

abbrev pub two_webs : List (SeConfig ℕ)
two_webs = web_config ∷ record web_config { enabled = false } ∷ []

load_configuration-first_example :
    (en' : Engine ℕ (Builtin ℕ)) × (load_configuration nats empty_engine
        (codes "c.json")
        (some (phm_config, two_webs))
      ≡ done (en', true))
    × (en'.locked ≡ false)
    × (en'.running ≡ empty_engine.running)
    × (lookup (codes "web") en'.entities
        ≡ or_fresh nats
            (lookup (codes "web") empty_engine.entities)
            (first_named (codes "web") two_webs))
unfolding create
load_configuration-first_example =
    load_configuration-first nats empty_engine (codes "c.json") (codes "web") phm_config two_webs
      refl

abbrev daemon_config : DaemonConfig
daemon_config = record {
  app_config = record phm_config { config_path = codes "c.json" };
  daemonize = true;
  pid_file = [];
  user = [];
}

abbrev pub run_calls : RunCalls
run_calls = record {
  daemonizes = true;
  sockets = record { socket = true; bind = true; listen = true };
  before = sighup ∷ [];
}

-- A reload by a signal, and then the end.
abbrev pub turns : List (Turn ℕ)
turns =
    record { client = none; early = sighup ∷ []; late = []; for_client = none; for_signal = none }
    ∷ record {
      client = none;
      early = [];
      late = sigterm ∷ [];
      for_client = none;
      for_signal = none;
    }
    ∷ []

abbrev started : Engine ℕ (Builtin ℕ)
started = record empty_engine { running = true }
