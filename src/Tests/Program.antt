-- ===== src/Tests/Program.antt =====
-- The theorems on the program as a whole, with a command line.
use phm.Base.{
  ℕ, ◌≡◌, refl, inr, false, codes, text_eq, List, [], ◌∷◌, Option, some, failed, self_deadlock,
}
use phm.Types.{SeConfig, PhmConfig}
use phm.Main.{Flag, opt_c, opt_f, default_daemon_config, parse_options, main}
use phm.Main.Stuck.{main-enabled}
use phm.Daemon.{DaemonConfig}
use phm.Monitors.Builtin.{monitor}
use phm.Tests.Data.{nats, lonely, web_config, phm_config}
use phm.Tests.Runs.{turns, run_calls, two_webs}

abbrev flags : List Flag
flags = opt_c (codes "c.json") ∷ opt_f ∷ []

abbrev in_front : DaemonConfig
in_front = record default_daemon_config {
  app_config = record default_daemon_config.app_config { config_path = codes "c.json" };
  daemonize = false;
}

parsed_flags : parse_options flags default_daemon_config ≡ inr in_front
unfolding parse_options
parsed_flags = refl

-- The file disables its one entity.
abbrev idle_file : Option (PhmConfig × List (SeConfig ℕ))
idle_file = some (phm_config, record web_config { enabled = false } ∷ [])

main-enabled_example :
    main nats (monitor nats) flags (some (phm_config, two_webs)) run_calls (λ n k. lonely) turns
    ≡ failed self_deadlock
unfolding text_eq
main-enabled_example =
    main-enabled nats (monitor nats) flags in_front phm_config two_webs run_calls (λ n k. lonely)
      turns (codes "web") web_config parsed_flags refl refl refl refl
