-- ===== src/Monitors/Resource.antt =====
-- src/monitors/resource_monitor.cpp. check uses the platform's pointer before it is tested where the
-- monitor is not running and has the name of a process: a null pointer there is a failure.
pub mod Reports
use phm.Base.{
  ℕ, Bool, true, false, ◌&&◌, ◌||◌, not, if◌then◌else◌, Text, codes, to_string, text_eq, is_empty,
  insert, lookup, Option, none, some, [], ◌++◌, ℤ, minus_one, is_positive, Outcome, done, failed,
  null_dereference, Dict,
}
use phm.Types.{
  SeState, init, running, warn, Severity, warning, MonitorType, resource, MonitorConfig, PhmEvent,
  empty_event, Doubles, same_state,
}
use phm.Monitor.{IMonitor}
use phm.Channel.{get_metrics}
use phm.Monitors.Surroundings.{Surroundings, param_or, generate_id}

-- last_cpu_time_ and last_sys_time_ are written by start and reset, and never read.
pub record ResourceMonitor (D : Type 0) : Type 0 where
  pub name : Text
  pub config : MonitorConfig D
  pub process_name : Text
  pub state : SeState
  pub pid : ℤ
  pub platform : Bool
  pub health_channel : Bool
  pub last_cpu : D
  pub last_memory : D
  pub last_fd : D

module _ {D : Type 0} (d : Doubles D) where
  unfoldable pub create : Text → MonitorConfig D → ResourceMonitor D
  create n cfg = record {
    name = n;
    config = cfg;
    process_name = param_or (codes "process_name") cfg.params [];
    state = init;
    pid = minus_one;
    platform = false;
    health_channel = false;
    last_cpu = d.zero_point;
    last_memory = d.zero_point;
    last_fd = d.zero_point;
  }

module _ {D : Type 0} where
  unfoldable pub start : Surroundings D → ResourceMonitor D → ResourceMonitor D × Bool
  start env m =
      if not env.has_platform
      then (record m { platform = false }, false)
      else (let pid =
            if is_empty m.process_name then m.pid else env.get_process_id m.process_name in
          (
            record m {
              platform = true;
              pid = pid;
              state = (if is_positive pid then running else m.state);
            },
            true,
          ))

  unfoldable pub stop : ResourceMonitor D → ResourceMonitor D
  stop m = record m { platform = false; state = init }

  unfoldable pub reset : ResourceMonitor D → ResourceMonitor D
  reset m = record m { state = init; pid = minus_one }

  unfoldable pub configure : MonitorConfig D → ResourceMonitor D → ResourceMonitor D
  configure cfg m = record m {
    config = cfg;
    process_name = param_or (codes "process_name") cfg.params m.process_name;
  }

  unfoldable pub set_health_channel : ResourceMonitor D → Bool → ResourceMonitor D
  set_health_channel m hc = record m { health_channel = hc }

  gone_event : Surroundings D → ResourceMonitor D → PhmEvent
  gone_event env m = record {
    id = generate_id (codes "phm_mon_res_") env;
    source_se = [];
    source_monitor = m.name;
    severity = Severity.error;
    state = SeState.error;
    message = codes "Process no longer exists (resource monitor)";
    timestamp = env.system_now;
    metadata = [];
  }

  -- What the health channel tells of a metric, if the monitor has one.
  told : Surroundings D → ResourceMonitor D → Text → Option D
  told env m key = if m.health_channel then lookup key (get_metrics env.channel) else none

module _ {D : Type 0} (d : Doubles D) where
  -- getMetricWithFallback, with what the platform would say: the value is also the next last value.
  unfoldable pub metric_with_fallback : Surroundings D → ResourceMonitor D → Text → D → D → D
  unfolding told
  metric_with_fallback env m key os last = elim (told env m key) [
    | some v ↦ v
    | none ↦ if d.lt d.zero_point os || text_eq key (codes "fd_count") then os else last
  ]

  cpu_event : Surroundings D → ResourceMonitor D → Severity → SeState → Text → D → D → PhmEvent
  cpu_event env m severity state which cpu threshold = record {
    id = generate_id (codes "phm_mon_res_") env;
    source_se = [];
    source_monitor = m.name;
    severity = severity;
    state = state;
    message =
        codes "CPU usage "
        ++ (d.show cpu
            ++ (codes "% exceeds "
                ++ (which ++ (codes " threshold " ++ (d.show threshold ++ codes "%")))));
    timestamp = env.system_now;
    metadata =
        insert (codes "memory_bytes") (to_string (d.to_number m.last_memory))
          (insert (codes "cpu_percent") (d.show cpu) []);
  }

  -- The thresholds, against a cpu usage.
  unfoldable pub judge : Surroundings D → ResourceMonitor D → D → ResourceMonitor D × PhmEvent
  unfolding cpu_event
  judge env m cpu =
      let over = λ (t : D). d.lt d.zero_point t && d.ge cpu t in
      if over m.config.error_threshold
      then (
        record m { state = SeState.error },
        cpu_event env m Severity.error SeState.error (codes "error") cpu m.config.error_threshold,
      )
      else (if over m.config.warn_threshold
          then (
            record m { state = warn },
            cpu_event env m warning warn (codes "warn") cpu m.config.warn_threshold,
          )
          else (record m { state = running }, empty_event))

  sample : Surroundings D → ResourceMonitor D → ResourceMonitor D
  sample env m = record m {
    last_cpu = metric_with_fallback env m (codes "cpu") (env.get_cpu_usage m.pid) m.last_cpu;
    last_memory =
        metric_with_fallback env m (codes "memory_bytes")
          (d.of_number (env.get_memory_usage_bytes m.pid)) m.last_memory;
    last_fd =
        metric_with_fallback env m (codes "fd_count") (d.of_number (env.get_open_file_count m.pid))
          m.last_fd;
  }

  unfoldable pub check : Surroundings D → ResourceMonitor D → Outcome (ResourceMonitor D × PhmEvent)
  unfolding gone_event sample
  check env m =
      if not m.platform || not (is_positive m.pid)
      then (if is_empty m.process_name
          then done (m, empty_event)
          else (if not m.platform
              then failed null_dereference
              else done (record m { pid = env.get_process_id m.process_name }, empty_event)))
      else (if not (env.process_exists m.pid)
          then done (record m { pid = minus_one; state = SeState.error }, gone_event env m)
          else (let sampled = sample env m in done (judge env sampled sampled.last_cpu)))

  unfoldable pub collect_metrics : ResourceMonitor D → Dict D
  collect_metrics m =
      insert (codes "fd_count") m.last_fd
        (insert (codes "memory_bytes") m.last_memory (insert (codes "cpu_usage") m.last_cpu []))

  unfoldable pub monitor : IMonitor D (ResourceMonitor D) (Surroundings D)
  monitor = record {
    start = start;
    stop = stop;
    check = check;
    reset = reset;
    get_state = λ m. m.state;
    get_type = λ m. resource;
    configure = configure;
    get_config = λ m. m.config;
    name = λ m. m.name;
    collect_metrics = collect_metrics;
  }
