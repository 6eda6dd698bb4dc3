-- ===== src/Monitors/Deadlock.antt =====
-- src/monitors/deadlock_monitor.cpp
pub mod Reports
use phm.Base.{
  ℕ, ◌+◌, Bool, true, false, ◌&&◌, not, if◌then◌else◌, ltb, Text, codes, to_string, is_empty,
  insert, [], ◌++◌, Outcome, done, Dict,
}
use phm.Types.{
  SeState, init, running, Severity, MonitorType, deadlock, MonitorConfig, PhmEvent, empty_event,
}
use phm.Monitor.{IMonitor}
use phm.Channel.{is_alive}
use phm.Monitors.Surroundings.{Surroundings, param_or, generate_id}

pub record DeadlockMonitor (D : Type 0) : Type 0 where
  pub name : Text
  pub config : MonitorConfig D
  pub thread_name : Text
  pub state : SeState
  pub last_check_ok : Bool
  pub last_check_time : ℕ
  pub health_channel : Bool
  pub platform : Bool

module _ {D : Type 0} where
  unfoldable pub create : Text → MonitorConfig D → DeadlockMonitor D
  create n cfg = record {
    name = n;
    config = cfg;
    thread_name = param_or (codes "thread_name") cfg.params [];
    state = init;
    last_check_ok = true;
    last_check_time = 0;
    health_channel = false;
    platform = false;
  }

  unfoldable pub start : Surroundings D → DeadlockMonitor D → DeadlockMonitor D × Bool
  start env m = if not env.has_platform then (record m { platform = false }, false) else (
    record m {
      platform = true;
      state = running;
      last_check_ok = true;
      last_check_time = env.steady_now;
    },
    true,
  )

  unfoldable pub stop : DeadlockMonitor D → DeadlockMonitor D
  stop m = record m { platform = false; state = init }

  unfoldable pub reset : DeadlockMonitor D → DeadlockMonitor D
  reset m = record m { state = init; last_check_ok = true }

  unfoldable pub configure : MonitorConfig D → DeadlockMonitor D → DeadlockMonitor D
  configure cfg m = record m {
    config = cfg;
    thread_name = param_or (codes "thread_name") cfg.params m.thread_name;
  }

  unfoldable pub set_health_channel : DeadlockMonitor D → Bool → DeadlockMonitor D
  set_health_channel m hc = record m { health_channel = hc }

  -- By the health channel, by the thread's name, or, with neither, alive.
  unfoldable pub is_responding : Surroundings D → DeadlockMonitor D → Bool
  is_responding env m =
      if m.health_channel
      then is_alive env.channel env.steady_now
      else (if is_empty m.thread_name then true else env.check_thread_by_name m.thread_name)

  hang_event : Surroundings D → DeadlockMonitor D → PhmEvent
  hang_event env m = record {
    id = generate_id (codes "phm_mon_dead_") env;
    source_se = [];
    source_monitor = m.name;
    severity = Severity.error;
    state = SeState.error;
    message = codes "Deadlock or hang detected on thread '" ++ (m.thread_name ++ codes "'");
    timestamp = env.system_now;
    metadata =
        insert (codes "timeout_ms") (to_string m.config.timeout)
          (insert (codes "thread") m.thread_name []);
  }

  -- now - last_check_time < interval is written without the subtraction.
  unfoldable pub check : Surroundings D → DeadlockMonitor D → DeadlockMonitor D × PhmEvent
  unfolding hang_event
  check env m =
      if not m.platform
      then (m, empty_event)
      else (if ltb env.steady_now (m.last_check_time + m.config.interval)
          then (m, empty_event)
          else (let timed = record m { last_check_time = env.steady_now } in
              let alive = is_responding env timed in
              if not alive && timed.last_check_ok
              then (
                record timed { last_check_ok = false; state = SeState.error },
                hang_event env timed,
              )
              else (if alive && not timed.last_check_ok
                  then (record timed { last_check_ok = true; state = running }, empty_event)
                  else (timed, empty_event))))

unfoldable pub monitor : (D : Type 0) → IMonitor D (DeadlockMonitor D) (Surroundings D)
monitor D = record {
  start = start;
  stop = stop;
  check = λ env m. done (check env m);
  reset = reset;
  get_state = λ m. m.state;
  get_type = λ m. deadlock;
  configure = configure;
  get_config = λ m. m.config;
  name = λ m. m.name;
  collect_metrics = λ m. [];
}
