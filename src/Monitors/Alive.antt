-- ===== src/Monitors/Alive.antt =====
-- src/monitors/alive_monitor.cpp
pub mod Reports
use phm.Base.{
  ℕ, Bool, true, false, ◌&&◌, ◌||◌, not, if◌then◌else◌, ltb, ◌==◌, Text, codes, to_string, insert,
  [], ◌++◌, Outcome, done, Dict,
}
use phm.Types.{
  SeState, init, running, warn, Severity, warning, MonitorType, alive, MonitorConfig, PhmEvent,
  empty_event, Doubles, same_state,
}
use phm.Monitor.{IMonitor}
use phm.Channel.{is_alive, get_alive_counter}
use phm.Monitors.Surroundings.{Surroundings, param_or, generate_id}

pub record AliveMonitor (D : Type 0) : Type 0 where
  pub name : Text
  pub config : MonitorConfig D
  pub channel_name : Text
  pub state : SeState
  pub last_counter : ℕ
  pub first_check : Bool
  pub health_channel : Bool

module _ {D : Type 0} where
  unfoldable pub create : Text → MonitorConfig D → AliveMonitor D
  create n cfg = record {
    name = n;
    config = cfg;
    channel_name = param_or (codes "health_channel") cfg.params [];
    state = init;
    last_counter = 0;
    first_check = true;
    health_channel = false;
  }

  unfoldable pub start : Surroundings D → AliveMonitor D → AliveMonitor D × Bool
  start env m = (record m { state = running; last_counter = 0; first_check = true }, true)

  unfoldable pub stop : AliveMonitor D → AliveMonitor D
  stop m = record m { state = init }

  unfoldable pub reset : AliveMonitor D → AliveMonitor D
  reset m = record m { state = init; last_counter = 0; first_check = true }

  unfoldable pub configure : MonitorConfig D → AliveMonitor D → AliveMonitor D
  configure cfg m = record m { config = cfg }

  unfoldable pub set_health_channel : AliveMonitor D → Bool → AliveMonitor D
  set_health_channel m hc = record m { health_channel = hc }

  silence_event : Surroundings D → AliveMonitor D → ℕ → PhmEvent
  silence_event env m current = record {
    id = generate_id (codes "phm_mon_alive_") env;
    source_se = [];
    source_monitor = m.name;
    severity = warning;
    state = warn;
    message =
        codes "Alive heartbeat not detected (counter="
        ++ (to_string current ++ (codes ", last=" ++ (to_string m.last_counter ++ codes ")")));
    timestamp = env.system_now;
    metadata =
        insert (codes "last_counter") (to_string m.last_counter)
          (insert (codes "alive_counter") (to_string current) []);
  }

  unfoldable pub check : Surroundings D → AliveMonitor D → AliveMonitor D × PhmEvent
  unfolding silence_event
  check env m =
      if not m.health_channel
      then (m, empty_event)
      else (let current = get_alive_counter env.channel in
          let alive = is_alive env.channel env.steady_now in
          if m.first_check
          then (record m { last_counter = current; first_check = false }, empty_event)
          else (if not alive || current == m.last_counter
              then (record m { state = warn; last_counter = current }, silence_event env m current)
              else (if ltb m.last_counter current && not (same_state m.state running)
                  then (record m { state = running; last_counter = current }, empty_event)
                  else (record m { last_counter = current }, empty_event))))

unfoldable pub monitor : {D : Type 0} → Doubles D → IMonitor D (AliveMonitor D) (Surroundings D)
monitor d = record {
  start = start;
  stop = stop;
  check = λ env m. done (check env m);
  reset = reset;
  get_state = λ m. m.state;
  get_type = λ m. alive;
  configure = configure;
  get_config = λ m. m.config;
  name = λ m. m.name;
  collect_metrics = λ m. insert (codes "alive_counter") (d.of_number m.last_counter) [];
}
