-- ===== src/Types.antt =====
-- include/faw/phm/types.h: the enumerations and structures that the components share.
-- A double is a value of a type parameter D with the operations of Doubles. A duration and a time
-- point are numbers of milliseconds, but restart_delay is one of seconds.
use phm.Base.{ℕ, Bool, ◌==◌, Text, Dict, List, []}

pub data SeState : Type 0 where
  init running suspect warn error fatal : SeState

pub data Severity : Type 0 where
  info warning error critical fatal : Severity

pub data MonitorType : Type 0 where
  process_lifecycle resource deadlock alive custom : MonitorType

pub SeState-discrete : Discrete SeState
SeState-discrete = hlevel

pub MonitorType-discrete : Discrete MonitorType
MonitorType-discrete = hlevel

-- static_cast<uint8_t>
abbrev pub se_state_to_index : SeState → ℕ
se_state_to_index init = 0
se_state_to_index running = 1
se_state_to_index suspect = 2
se_state_to_index warn = 3
se_state_to_index error = 4
se_state_to_index fatal = 5

abbrev pub severity_to_index : Severity → ℕ
severity_to_index info = 0
severity_to_index warning = 1
severity_to_index error = 2
severity_to_index critical = 3
severity_to_index fatal = 4

abbrev pub monitor_type_to_index : MonitorType → ℕ
monitor_type_to_index process_lifecycle = 0
monitor_type_to_index resource = 1
monitor_type_to_index deadlock = 2
monitor_type_to_index alive = 3
monitor_type_to_index custom = 4

-- operator== of the enumeration
abbrev pub same_state : SeState → SeState → Bool
same_state a b = se_state_to_index a == se_state_to_index b

abbrev pub same_type : MonitorType → MonitorType → Bool
same_type a b = monitor_type_to_index a == monitor_type_to_index b

pub record HealthChannelStatus : Type 0 where
  pub alive_counter : ℕ
  pub is_alive : Bool
  pub last_check : ℕ

pub record PhmEvent : Type 0 where
  pub id : Text
  pub source_se : Text
  pub source_monitor : Text
  pub severity : Severity
  pub state : SeState
  pub message : Text
  pub timestamp : ℕ
  pub metadata : Dict Text

-- PhmEvent event;
abbrev pub empty_event : PhmEvent
empty_event = record {
  id = [];
  source_se = [];
  source_monitor = [];
  severity = info;
  state = init;
  message = [];
  timestamp = 0;
  metadata = [];
}

-- What the program asks of double: 0.0, comparisons, conversions and std::to_string.
pub record Doubles (D : Type 0) : Type 0 where
  pub zero_point : D
  pub lt : D → D → Bool
  pub ge : D → D → Bool
  pub of_number : ℕ → D
  pub to_number : D → ℕ
  pub show : D → Text

pub record MonitorConfig (D : Type 0) : Type 0 where
  pub type : MonitorType
  pub params : Dict Text
  pub interval : ℕ
  pub timeout : ℕ
  pub debounce_count : ℕ
  pub warn_threshold : D
  pub error_threshold : D
  pub enabled : Bool

pub record SeConfig (D : Type 0) : Type 0 where
  pub name : Text
  pub description : Text
  pub monitors : List (MonitorConfig D)
  pub dependencies : List Text
  pub alive_timeout : ℕ
  pub auto_restart : Bool
  pub max_restart_count : ℕ
  pub restart_delay : ℕ
  pub enabled : Bool

pub record PhmConfig : Type 0 where
  pub app_name : Text
  pub version : Text
  pub tick_interval : ℕ
  pub log_dir : Text
  pub ipc_endpoint : Text
  pub config_path : Text
  pub enable_auto_recovery : Bool
  pub event_queue_size : ℕ

pub record EngineStats : Type 0 where
  pub total_entities : ℕ
  pub active_entities : ℕ
  pub total_monitors : ℕ
  pub pending_events : ℕ
  pub global_state : SeState
  pub uptime_ms : ℕ
