-- ===== src/Config.antt =====
-- src/config_parser.cpp: the configuration file, read with the JSON library of third_party, which is
-- a parameter: J is its type of values.
pub mod Names
pub mod Accepts
use phm.Base.{
  ℕ, ◌-◌, ◌^◌, Bool, true, false, ◌&&◌, not, ◌==◌, if◌then◌else◌, Text, codes, text_eq, is_empty,
  Dict, insert, List, [], ◌∷◌, ◌++◌, Option, none, some, ℤ, pos, negsuc,
}
use phm.Base.Throws.{Throws, returned, thrown, ◌>>=◌}
use phm.Types.{
  MonitorType, process_lifecycle, resource, deadlock, alive, custom, MonitorConfig, SeConfig,
  PhmConfig, Doubles, same_type,
}

-- What the code asks of nlohmann::json. j.value(key, default) and get throw on a value of another
-- type; a range-for runs over elements, and begin to end over an object's members.
pub record Json (J D : Type 0) : Type 0 where
  pub parse : Text → Throws J
  pub read : Text → Throws J
  pub contains : J → Text → Bool
  pub at : J → Text → J
  pub value_string : J → Text → Text → Throws Text
  pub value_bool : J → Text → Bool → Throws Bool
  pub value_unsigned : J → Text → ℕ → Throws ℕ
  pub value_int : J → Text → ℤ → Throws ℤ
  pub value_double : J → Text → D → Throws D
  pub value_json : J → Text → J → Throws J
  pub get_string : J → Throws Text
  pub get_bool : J → Throws Bool
  pub get_unsigned : J → Throws ℕ
  pub elements : J → List J
  pub members : J → Throws (List (Text × J))
  pub empty_object : J
  pub empty_array : J

pub record ParseResult (D : Type 0) : Type 0 where
  pub global : PhmConfig
  pub entities : List (SeConfig D)

unfoldable pub monitor_type_from_string : Text → MonitorType
monitor_type_from_string s =
    if text_eq s (codes "process_lifecycle")
    then process_lifecycle
    else (if text_eq s (codes "resource")
        then resource
        else (if text_eq s (codes "deadlock")
            then deadlock
            else (if text_eq s (codes "alive")
                then alive
                else (if text_eq s (codes "custom") then custom else custom))))

unfoldable pub monitor_type_to_string : MonitorType → Text
monitor_type_to_string process_lifecycle = codes "process_lifecycle"
monitor_type_to_string resource = codes "resource"
monitor_type_to_string deadlock = codes "deadlock"
monitor_type_to_string alive = codes "alive"
monitor_type_to_string custom = codes "custom"

-- PhmConfig config;
abbrev pub default_config : PhmConfig
default_config = record {
  app_name = codes "phmd";
  version = codes "1.0.0";
  tick_interval = 100;
  log_dir = codes "/var/log/phmd";
  ipc_endpoint = codes "/tmp/phmd.sock";
  config_path = codes "/etc/phm/se_config.json";
  enable_auto_recovery = true;
  event_queue_size = 1024;
}

-- The 64-bit pattern of an int.
abbrev pub to_pattern : ℤ → ℕ
to_pattern (pos n) = n
to_pattern (negsuc n) = 2 ^ 64 - 1 - n

module _ {J D : Type 0} (js : Json J D) where
  -- The loop over the parameters of a monitor.
  unfoldable pub parse_params : List (Text × J) → Dict Text → Throws (Dict Text)
  parse_params [] params = returned params
  parse_params ((key, j) ∷ rest) params = do
    text ← js.get_string j
    parse_params rest (insert key text params)

  -- The loop of the dependencies.
  unfoldable pub parse_dependencies : List J → Throws (List Text)
  parse_dependencies [] = returned []
  parse_dependencies (j ∷ rest) = do
    dep ← js.get_string j
    deps ← parse_dependencies rest
    returned (dep ∷ deps)

  -- global[key].get<T>(), where there is one, and what was there before where there is none.
  unfoldable pub parse_field : {A : Type 0} → (J → Throws A) → J → Text → A → Throws A
  parse_field get j key old = if js.contains j key then get (js.at j key) else returned old

  unfoldable pub parse_global_config : J → Throws PhmConfig
  unfolding parse_field
  parse_global_config j =
      if js.contains j (codes "global")
      then (do
        let global = js.at j (codes "global")
        let config = default_config
        tick_interval ←
            parse_field js.get_unsigned global (codes "tick_interval_ms") config.tick_interval
        log_dir ← parse_field js.get_string global (codes "log_dir") config.log_dir
        enable_auto_recovery ←
            parse_field js.get_bool global (codes "enable_auto_recovery")
              config.enable_auto_recovery
        event_queue_size ←
            parse_field js.get_unsigned global (codes "event_queue_size") config.event_queue_size
        app_name ← parse_field js.get_string global (codes "app_name") config.app_name
        version ← parse_field js.get_string global (codes "version") config.version
        ipc_endpoint ← parse_field js.get_string global (codes "ipc_endpoint") config.ipc_endpoint
        returned (record config {
          tick_interval = tick_interval;
          log_dir = log_dir;
          enable_auto_recovery = enable_auto_recovery;
          event_queue_size = event_queue_size;
          app_name = app_name;
          version = version;
          ipc_endpoint = ipc_endpoint;
        }))
      else returned default_config

module _ {J D : Type 0} (js : Json J D) (d : Doubles D) where
  -- The settings of a monitor whose type is known.
  unfoldable pub parse_settings : J → MonitorType → Throws (MonitorConfig D)
  unfolding parse_params
  parse_settings j type = do
    enabled ← js.value_bool j (codes "enabled") true
    interval ← js.value_unsigned j (codes "interval_ms") 1000
    timeout ← js.value_unsigned j (codes "timeout_ms") 5000
    debounce_count ← js.value_unsigned j (codes "debounce_count") 3
    warn_threshold ← js.value_double j (codes "warn_threshold") d.zero_point
    error_threshold ← js.value_double j (codes "error_threshold") d.zero_point
    warn_cpu ← js.value_double j (codes "warn_threshold_cpu") d.zero_point
    err_cpu ← js.value_double j (codes "error_threshold_cpu") d.zero_point
    object ← js.value_json j (codes "params") js.empty_object
    members ← js.members object
    params ← parse_params js members []
    returned (record {
      type = type;
      params = params;
      interval = interval;
      timeout = timeout;
      debounce_count = debounce_count;
      warn_threshold = (if d.lt d.zero_point warn_cpu then warn_cpu else warn_threshold);
      error_threshold = (if d.lt d.zero_point err_cpu then err_cpu else error_threshold);
      enabled = enabled;
    })

  unfoldable pub parse_monitor_config : J → Throws (MonitorConfig D)
  parse_monitor_config j = do
    type_str ← js.value_string j (codes "type") []
    let type = monitor_type_from_string type_str
    if same_type type custom && not (text_eq type_str (codes "custom"))
        then thrown (codes "Unknown monitor type: " ++ type_str)
        else parse_settings j type

  -- The loop of the monitors.
  unfoldable pub parse_monitors : List J → Throws (List (MonitorConfig D))
  parse_monitors [] = returned []
  parse_monitors (j ∷ rest) = do
    mc ← parse_monitor_config j
    mcs ← parse_monitors rest
    returned (mc ∷ mcs)

  -- The fields of an entity whose name is known.
  unfoldable pub parse_fields : J → Text → Throws (SeConfig D)
  unfolding parse_dependencies parse_monitors
  parse_fields j name = do
    description ← js.value_string j (codes "description") []
    alive_timeout ← js.value_int j (codes "alive_timeout_ms") (pos 5000)
    auto_restart ← js.value_bool j (codes "auto_restart") false
    max_restart_count ← js.value_unsigned j (codes "max_restart_count") 3
    restart_delay ← js.value_unsigned j (codes "restart_delay_s") 5
    enabled ← js.value_bool j (codes "enabled") true
    deps ← js.value_json j (codes "dependencies") js.empty_array
    dependencies ← parse_dependencies js (js.elements deps)
    array ← js.value_json j (codes "monitors") js.empty_array
    monitors ← parse_monitors (js.elements array)
    returned (record {
      name = name;
      description = description;
      monitors = monitors;
      dependencies = dependencies;
      alive_timeout = to_pattern alive_timeout;
      auto_restart = auto_restart;
      max_restart_count = max_restart_count;
      restart_delay = restart_delay;
      enabled = enabled;
    })

  unfoldable pub parse_entity_config : J → Throws (SeConfig D)
  parse_entity_config j = do
    name ← js.value_string j (codes "name") []
    if is_empty name
        then thrown (codes "Entity missing required field: name")
        else parse_fields j name

  -- The loop of the entities.
  unfoldable pub parse_entities : List J → Throws (List (SeConfig D))
  parse_entities [] = returned []
  parse_entities (j ∷ rest) = do
    cfg ← parse_entity_config j
    cfgs ← parse_entities rest
    returned (cfg ∷ cfgs)

  -- The part that parseFile and parseString share.
  unfoldable pub parse_root : J → Throws (ParseResult D)
  unfolding parse_global_config parse_entities
  parse_root root = do
    global ← parse_global_config js root
    entities ← js.value_json root (codes "supervised_entities") js.empty_array
    cfgs ← parse_entities (js.elements entities)
    returned (record { global = global; entities = cfgs })

  -- s_last_error goes in and comes out.
  unfoldable pub parse_string : Text → Text → Text × Throws (ParseResult D)
  unfolding parse_root
  parse_string last_error content = elim (js.parse content) [
    | thrown what ↦ let e = codes "JSON parse error: " ++ what in (e, thrown e)
    | returned root ↦ (last_error, parse_root root)
  ]

  -- file is the content of the file json_path, none if it cannot be opened.
  unfoldable pub parse_file : Text → Text → Option Text → Text × Throws (ParseResult D)
  unfolding parse_root
  parse_file last_error json_path none =
      let e = codes "Cannot open file: " ++ json_path in (e, thrown e)
  parse_file last_error json_path (some content) = elim (js.read content) [
    | thrown what ↦ let e = codes "JSON parse error: " ++ what in (e, thrown e)
    | returned root ↦ (last_error, parse_root root)
  ]

module _ {D : Type 0} where
  -- The inner loop of validate: is there a monitor with no interval?
  unfoldable pub has_bad_interval : List (MonitorConfig D) → Bool
  has_bad_interval [] = false
  has_bad_interval (mc ∷ mcs) = if mc.interval == 0 then true else has_bad_interval mcs

  -- The outer loop of validate: the error of the first entity that has one.
  unfoldable pub first_error : List (SeConfig D) → Option Text
  unfolding has_bad_interval
  first_error [] = none
  first_error (cfg ∷ cfgs) =
      if is_empty cfg.name
      then some (codes "Entity name is empty")
      else (if has_bad_interval cfg.monitors
          then some (codes "Invalid interval for monitor in entity: " ++ cfg.name)
          else first_error cfgs)

module _ {J D : Type 0} (js : Json J D) (d : Doubles D) where
  unfoldable pub validate : Text → Text → Option Text → Text × Bool
  unfolding parse_file first_error
  validate last_error json_path file =
      let (e, parsed) = parse_file js d last_error json_path file in
      elim parsed [
        | thrown what ↦ (what, false)
        | returned result ↦ elim (first_error result.entities) [
          | none ↦ (e, true)
          | some what ↦ (what, false)
        ]
      ]
