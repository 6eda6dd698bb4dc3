-- ===== src/Tests/Data.antt =====
-- Doubles as whole numbers, surroundings without a process, and an entity with one monitor.
use phm.Base.{ℕ, true, false, ltb, leb, codes, to_string, [], ◌∷◌, ℤ, minus_one}
use phm.Types.{
  Doubles, MonitorConfig, SeConfig, PhmConfig, PhmEvent, empty_event, Severity, process_lifecycle,
  running,
}
use phm.Channel.{HealthChannel}
use phm.Channel
use phm.Entity.{Entity}
use phm.Entity
use phm.Monitors.Surroundings.{Surroundings}
use phm.Monitors.Builtin.{Builtin}
use phm.Monitors.Lifecycle.{ProcessLifecycleMonitor}

abbrev pub nats : Doubles ℕ
nats = record {
  zero_point = 0;
  lt = ltb;
  ge = λ a b. leb b a;
  of_number = λ n. n;
  to_number = λ n. n;
  show = to_string;
}

abbrev pub channel : HealthChannel ℕ
channel = Channel.create nats (codes "web") 5000

-- No process and no thread is found; the clock reads 9000.
abbrev pub lonely : Surroundings ℕ
lonely = record {
  has_platform = true;
  process_exists = λ p. false;
  get_process_id = λ n. minus_one;
  get_cpu_usage = λ p. 0;
  get_memory_usage_bytes = λ p. 0;
  get_open_file_count = λ p. 0;
  check_thread_by_name = λ n. false;
  channel = channel;
  steady_now = 9000;
  system_now = 77;
  counter = 1;
}

abbrev pub watch_config : MonitorConfig ℕ
watch_config = record {
  type = process_lifecycle;
  params = [];
  interval = 1000;
  timeout = 5000;
  debounce_count = 3;
  warn_threshold = 70;
  error_threshold = 90;
  enabled = true;
}

abbrev pub web_config : SeConfig ℕ
web_config = record {
  name = codes "web";
  description = [];
  monitors = watch_config ∷ [];
  dependencies = [];
  alive_timeout = 5000;
  auto_restart = true;
  max_restart_count = 3;
  restart_delay = 5;
  enabled = true;
}

abbrev pub phm_config : PhmConfig
phm_config = record {
  app_name = codes "phmd";
  version = codes "1.0.0";
  tick_interval = 100;
  log_dir = [];
  ipc_endpoint = [];
  config_path = [];
  enable_auto_recovery = true;
  event_queue_size = 1024;
}

abbrev pub web : Entity ℕ (Builtin ℕ)
web = Entity.set_state_change_callback (Entity.create nats web_config) true

abbrev pub running_web : Entity ℕ (Builtin ℕ)
running_web = record web { current_state = running }

abbrev pub exit_watch : ProcessLifecycleMonitor ℕ
exit_watch = record {
  name = codes "process_lifecycle";
  config = watch_config;
  process_name = codes "nginx";
  process_path = [];
  state = running;
  pid = ℤ.pos 41;
  platform = true;
}

abbrev pub fault : PhmEvent
fault = record empty_event {
  id = codes "e1";
  source_monitor = codes "process_lifecycle";
  severity = Severity.error;
}

abbrev pub death : PhmEvent
death = record fault { severity = Severity.fatal }
