-- ===== src/Entity.antt =====
-- src/state_machine.cpp and include/faw/phm/supervised_entity.h: a supervised entity, its state
-- machine with debouncing, and its monitors. A call that may invoke the state-change callback
-- returns the invocations, in order.
pub mod Calls
pub mod Transitions
pub mod Events
pub mod Debounce
pub mod Counters
pub mod Monitors
pub mod Reach
pub mod Restart
use phm.Base.{
  ℕ, zero, suc, ◌+◌, ◌%◌, ◌^◌, Bool, true, false, ◌&&◌, not, ltb, leb, ◌==◌, if◌then◌else◌, Text,
  codes, text_eq, is_empty, Dict, lookup, insert, List, [], ◌∷◌, ◌++◌, map, get_or, Option, none,
  some, Outcome, done, failed, ◌>>=◌,
}
use phm.Types.{
  SeState, Severity, MonitorType, MonitorConfig, SeConfig, PhmEvent, Doubles, init, running,
  suspect, warn, error, fatal, info, warning, critical, process_lifecycle, resource, deadlock,
  alive, custom, se_state_to_index, same_state, same_type,
}
use phm.Monitor.{IMonitor}
use phm.Channel
use phm.Channel.{HealthChannel}

unfoldable pub se_state_from_severity : Severity → SeState
se_state_from_severity info = running
se_state_from_severity warning = warn
se_state_from_severity Severity.error = error
se_state_from_severity critical = error
se_state_from_severity Severity.fatal = fatal

unfoldable pub g_transition_table : List (List Bool)
g_transition_table =
    (false ∷ true ∷ true ∷ false ∷ false ∷ false ∷ [])
    ∷ (false ∷ false ∷ true ∷ true ∷ true ∷ true ∷ [])
    ∷ (false ∷ true ∷ false ∷ true ∷ true ∷ false ∷ [])
    ∷ (false ∷ true ∷ false ∷ false ∷ true ∷ false ∷ [])
    ∷ (false ∷ true ∷ false ∷ false ∷ false ∷ true ∷ [])
    ∷ (false ∷ false ∷ false ∷ false ∷ false ∷ false ∷ [])
    ∷ []

-- Every state's index is below 6, so the guard of the code never fires.
unfoldable pub is_transition_allowed : SeState → SeState → Bool
unfolding g_transition_table
is_transition_allowed from to =
    let fi = se_state_to_index from in
    let ti = se_state_to_index to in
    if not (ltb fi 6 && ltb ti 6) then false else get_or (get_or g_transition_table fi []) ti false

-- One call of the state-change callback.
pub record Change : Type 0 where
  pub se_name : Text
  pub old_state : SeState
  pub new_state : SeState

-- last_event is never written.
pub record DebounceEntry : Type 0 where
  pub consecutive_count : ℕ
  pub target_state : SeState
  pub last_event : ℕ

abbrev pub new_entry : DebounceEntry
new_entry = record { consecutive_count = 0; target_state = init; last_event = 0 }

-- What debounce_map_[key] finds, or puts in for a key that is missing.
unfoldable pub entry_at : Dict DebounceEntry → Text → DebounceEntry
entry_at m key = elim (lookup key m) [ none ↦ new_entry | some entry ↦ entry ]

pub record Entity (D M : Type 0) : Type 0 where
  pub config : SeConfig D
  pub monitors : List M
  pub health_channel : HealthChannel D
  pub pending_events : List PhmEvent
  pub state_cb : Bool
  pub current_state : SeState
  pub debounce_map : Dict DebounceEntry

-- The key of the debounce map for a type of monitor.
unfoldable pub type_key : MonitorType → Text
type_key process_lifecycle = codes "process_lifecycle"
type_key resource = codes "resource"
type_key deadlock = codes "deadlock"
type_key alive = codes "alive"
type_key custom = codes "custom"

-- The type that an event is counted under, by the name of the monitor that raised it.
unfoldable pub event_type : Text → MonitorType
event_type s =
    if text_eq s (codes "process_lifecycle")
    then process_lifecycle
    else (if text_eq s (codes "resource")
        then resource
        else (if text_eq s (codes "deadlock")
            then deadlock
            else (if text_eq s (codes "alive") then alive else custom)))

module _ {D : Type 0} where
  -- The first configuration of the type.
  unfoldable pub find_config : MonitorType → List (MonitorConfig D) → Option (MonitorConfig D)
  find_config t [] = none
  find_config t (cfg ∷ cfgs) = if same_type cfg.type t then some cfg else find_config t cfgs

  -- At least one event is needed.
  unfoldable pub debounce_of : MonitorConfig D → ℕ
  debounce_of mc = if mc.debounce_count == 0 then 1 else mc.debounce_count

  -- The loop of the constructor.
  unfoldable pub init_debounce : List (MonitorConfig D) → Dict DebounceEntry → Dict DebounceEntry
  unfolding type_key
  init_debounce [] m = m
  init_debounce (mc ∷ mcs) m =
      init_debounce mcs (if mc.enabled then insert (type_key mc.type) new_entry m else m)

  unfoldable pub create : {M : Type 0} → Doubles D → SeConfig D → Entity D M
  create d c = record {
    config = c;
    monitors = [];
    health_channel = Channel.create d c.name c.alive_timeout;
    pending_events = [];
    state_cb = false;
    current_state = init;
    debounce_map = init_debounce c.monitors [];
  }

module _ {D M : Type 0} where
  unfoldable pub transition_to : Entity D M → SeState → Entity D M × Bool × List Change
  transition_to se new_state =
      if not (is_transition_allowed se.current_state new_state) then (se, false, []) else (
        record se { current_state = new_state },
        true,
        (if se.state_cb
            then record {
              se_name = se.config.name;
              old_state = se.current_state;
              new_state = new_state;
            }
              ∷ []
            else []),
      )

  unfoldable pub set_entry : Entity D M → Text → DebounceEntry → Entity D M
  set_entry se key entry = record se { debounce_map = insert key entry se.debounce_map }

  unfoldable pub only_changes : Entity D M × Bool × List Change → Entity D M × List Change
  only_changes (se, ok, changes) = (se, changes)

  -- An event that says the monitored thing is well.
  unfoldable pub recover : Entity D M → Text → DebounceEntry → Entity D M × List Change
  recover se key entry =
      let se' = set_entry se key (record entry { consecutive_count = 0; target_state = running }) in
      if same_state se'.current_state running
      then (se', [])
      else only_changes (transition_to se' running)

  -- An event that is worse than the current state.
  unfoldable pub escalate :
      Entity D M → Text → DebounceEntry → ℕ → SeState → Entity D M × List Change
  escalate se key entry debounce target =
      let count = (entry.consecutive_count + 1) % 2 ^ 32 in
      let counted = set_entry se key (record entry { consecutive_count = count }) in
      if leb debounce count
      then (let (se', ok, changes) = transition_to counted target in
          (set_entry se' key (record entry { consecutive_count = 0 }), changes))
      else (if same_state counted.current_state running
          then only_changes (transition_to counted suspect)
          else (counted, []))

  unfoldable pub debounce_event : Entity D M → Text → ℕ → SeState → Entity D M × List Change
  unfolding recover escalate
  debounce_event se key debounce target =
      let entry = entry_at se.debounce_map key in
      if same_state target running
      then recover se key entry
      else (if ltb (se_state_to_index se.current_state) (se_state_to_index target)
          then escalate se key entry debounce target
          else (set_entry se key entry, []))

  unfoldable pub process_monitor_result : Entity D M → PhmEvent → Entity D M × List Change
  process_monitor_result se event =
      elim (find_config (event_type event.source_monitor) se.config.monitors) [
        | none ↦ (se, [])
        | some mc ↦
            debounce_event se event.source_monitor (debounce_of mc)
              (se_state_from_severity event.severity)
      ]

  unfoldable pub on_monitor_event : Entity D M → PhmEvent → Entity D M × List Change
  on_monitor_event se event =
      process_monitor_result (record se { pending_events = se.pending_events ++ event ∷ [] }) event

  unfoldable pub drain_events : Entity D M → Entity D M × List PhmEvent
  drain_events se = (record se { pending_events = [] }, se.pending_events)

  unfoldable pub set_state_change_callback : Entity D M → Bool → Entity D M
  set_state_change_callback se cb = record se { state_cb = cb }
