-- ===== src/Monitors/Lifecycle.antt =====
-- src/monitors/process_lifecycle_monitor.cpp
pub mod Reports
pub mod LongNames
use phm.Base.{
  Bool, true, false, ◌&&◌, not, if◌then◌else◌, Text, codes, is_empty, insert, [], ◌++◌, ℤ,
  minus_one, is_positive, int_to_string, Outcome, done, Dict,
}
use phm.Types.{
  SeState, init, running, Severity, MonitorType, process_lifecycle, MonitorConfig, PhmEvent,
  empty_event, same_state,
}
use phm.Monitor.{IMonitor}
use phm.Monitors.Surroundings.{Surroundings, param_or, generate_id}

pub record ProcessLifecycleMonitor (D : Type 0) : Type 0 where
  pub name : Text
  pub config : MonitorConfig D
  pub process_name : Text
  pub process_path : Text
  pub state : SeState
  pub pid : ℤ
  pub platform : Bool

module _ {D : Type 0} where
  unfoldable pub create : Text → MonitorConfig D → ProcessLifecycleMonitor D
  create n cfg = record {
    name = n;
    config = cfg;
    process_name = param_or (codes "process_name") cfg.params [];
    process_path = param_or (codes "process_path") cfg.params [];
    state = init;
    pid = minus_one;
    platform = false;
  }

  unfoldable pub start :
      Surroundings D → ProcessLifecycleMonitor D → ProcessLifecycleMonitor D × Bool
  start env m = if not env.has_platform then (record m { platform = false }, false) else (
    (if is_empty m.process_name
        then record m { platform = true }
        else (let pid = env.get_process_id m.process_name in
            record m {
              platform = true;
              pid = pid;
              state = (if is_positive pid then running else m.state);
            })),
    true,
  )

  unfoldable pub stop : ProcessLifecycleMonitor D → ProcessLifecycleMonitor D
  stop m = record m { platform = false; state = init }

  unfoldable pub reset : ProcessLifecycleMonitor D → ProcessLifecycleMonitor D
  reset m = record m { state = init; pid = minus_one }

  unfoldable pub configure : MonitorConfig D → ProcessLifecycleMonitor D → ProcessLifecycleMonitor D
  configure cfg m = record m {
    config = cfg;
    process_name = param_or (codes "process_name") cfg.params m.process_name;
    process_path = param_or (codes "process_path") cfg.params m.process_path;
  }

  -- The process is looked for by its number, or by name where the number is not known.
  unfoldable pub locate : Surroundings D → ProcessLifecycleMonitor D → Bool × ℤ
  locate env m =
      if is_positive m.pid
      then (env.process_exists m.pid, m.pid)
      else (if is_empty m.process_name
          then (false, m.pid)
          else (let pid = env.get_process_id m.process_name in (is_positive pid, pid)))

  exit_event : Surroundings D → ProcessLifecycleMonitor D → PhmEvent
  exit_event env m = record {
    id = generate_id (codes "phm_mon_proc_") env;
    source_se = [];
    source_monitor = m.name;
    severity = Severity.error;
    state = SeState.error;
    message =
        codes "Process '"
        ++ (m.process_name ++ (codes "' (pid=" ++ (int_to_string m.pid ++ codes ") has exited")));
    timestamp = env.system_now;
    metadata =
        insert (codes "last_pid") (int_to_string m.pid)
          (insert (codes "process_name") m.process_name []);
  }

  unfoldable pub check :
      Surroundings D → ProcessLifecycleMonitor D → ProcessLifecycleMonitor D × PhmEvent
  unfolding locate exit_event
  check env m =
      if not m.platform
      then (m, empty_event)
      else (let (exists, pid) = locate env m in
          let found = record m { pid = pid } in
          if not exists && same_state found.state running
          then (record found { state = SeState.error; pid = minus_one }, exit_event env found)
          else (if exists && same_state found.state SeState.error
              then (record found { state = running }, empty_event)
              else (found, empty_event)))

-- The implementation of the interface; its check never fails.
unfoldable pub monitor : (D : Type 0) → IMonitor D (ProcessLifecycleMonitor D) (Surroundings D)
monitor D = record {
  start = start;
  stop = stop;
  check = λ env m. done (check env m);
  reset = reset;
  get_state = λ m. m.state;
  get_type = λ m. process_lifecycle;
  configure = configure;
  get_config = λ m. m.config;
  name = λ m. m.name;
  collect_metrics = λ m. [];
}
