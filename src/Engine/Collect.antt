-- ===== src/Engine/Collect.antt =====
-- src/phm_engine.cpp: collectAndReport, which a tick calls for every entity after its checks. It
-- changes nothing of the engine but its data reporter.
pub mod Running
pub mod Ticks
use phm.Base.{
  ℕ, not, is_empty, if◌then◌else◌, Text, codes, Dict, lookup, insert, List, [], ◌∷◌, ◌++◌, map,
  Option, none, some,
}
use phm.Types.{
  PhmConfig, SeState, fatal, MonitorType, process_lifecycle, resource, deadlock, alive, custom,
  Doubles, same_state,
}
use phm.Monitor.{IMonitor}
use phm.Config.{monitor_type_to_string}
use phm.Entity.{Entity}
use phm.Reporter.Directories.{FileSystem, CalendarTime}
use phm.Reporter
use phm.Reporter.{DataRecord, JsonWriter, DataReporter, Write, report_batch}

-- The root directory of the data, in the constructor.
unfoldable pub data_dir : PhmConfig → Text
data_dir cfg =
    if is_empty cfg.log_dir then codes "/var/log/phmd/data" else cfg.log_dir ++ codes "/data"

-- The reporter that the constructor makes.
unfoldable pub create_reporter : {F : Type 0} → FileSystem F → F → PhmConfig → F × DataReporter
unfolding data_dir
create_reporter os fs cfg = Reporter.create os fs (data_dir cfg)

module _ {D : Type 0} (d : Doubles D) where
  -- m[key], which is 0.0 for a key that is missing.
  unfoldable pub metric_at : Text → Dict D → D
  metric_at key m = elim (lookup key m) [ none ↦ d.zero_point | some v ↦ v ]

  -- The switch over the type of the monitor, with what collectMetrics and getState answer.
  unfoldable pub record_metrics : MonitorType → Dict D → SeState → Dict D
  unfolding metric_at
  record_metrics resource m state = insert (codes "fd_count") (metric_at (codes "fd_count") m) (
      insert (codes "memory_bytes") (metric_at (codes "memory_bytes") m)
        (insert (codes "cpu_usage") (metric_at (codes "cpu_usage") m) []))
  record_metrics alive m state =
      insert (codes "alive_counter") (metric_at (codes "alive_counter") m) []
  record_metrics process_lifecycle m state =
      insert (codes "running") (d.of_number (if not (same_state state fatal) then 1 else 0)) []
  record_metrics deadlock m state = []
  record_metrics custom m state = []

module _ {D M E : Type 0} (d : Doubles D) (i : IMonitor D M E) where
  unfoldable pub record_of : ℕ → Entity D M → M → DataRecord D
  unfolding record_metrics
  record_of now_ms entity m = record {
    se_name = entity.config.name;
    monitor_name = i.name m;
    monitor_type = monitor_type_to_string (i.get_type m);
    state = i.get_state m;
    timestamp_ms = now_ms;
    metrics = record_metrics d (i.get_type m) (i.collect_metrics m) (i.get_state m);
    raw_data = [];
  }

  -- The loop over the monitors; tm is the local time at each report. Nothing is done without a
  -- reporter.
  unfoldable pub collect_and_report :
      {F J : Type 0}
      → FileSystem F
      → JsonWriter J D
      → ℕ
      → (M → CalendarTime)
      → Entity D M
      → F
      → Option DataReporter
      → F × Option DataReporter × List Write × List (DataRecord D)
  unfolding record_of report_batch
  collect_and_report os js now_ms tm entity fs none = (fs, none, [], [])
  collect_and_report os js now_ms tm entity fs (some rep) =
      let (fs', rep', writes, uploads) =
        report_batch os js (map (λ m. (tm m, record_of now_ms entity m)) entity.monitors) fs rep in
      (fs', some rep', writes, uploads)
