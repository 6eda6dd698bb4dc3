-- ===== src/Engine/Collect/Running.antt =====
-- src/phm_engine.cpp and src/monitors/process_lifecycle_monitor.cpp: the metric running, which
-- collectAndReport takes from the state of a lifecycle monitor.
use phm.Base.{◌≡◌, ◌≢◌, Text, codes, insert, [], arith, ℕ}
use phm.Types.{fatal, MonitorConfig, Doubles}
use phm.Entity.{Entity}
use phm.Monitors.Surroundings.{Surroundings}
use phm.Monitors.Lifecycle.{
  ProcessLifecycleMonitor, create, start, stop, reset, configure, check, monitor,
}
use phm.Engine.Collect.{record_of}

module _ {D : Type 0} where
  -- What any calls can make of a lifecycle monitor.
  pub data Reach (n : Text) (cfg : MonitorConfig D) : ProcessLifecycleMonitor D → Type 0 where
    creates : Reach n cfg (create n cfg)
    starts :
        {m : ProcessLifecycleMonitor D} (env : Surroundings D)
        → Reach n cfg m
        → Reach n cfg (start env m).0
    stops : {m : ProcessLifecycleMonitor D} → Reach n cfg m → Reach n cfg (stop m)
    resets : {m : ProcessLifecycleMonitor D} → Reach n cfg m → Reach n cfg (reset m)
    configures :
        {m : ProcessLifecycleMonitor D} (cfg' : MonitorConfig D)
        → Reach n cfg m
        → Reach n cfg (configure cfg' m)
    checks :
        {m : ProcessLifecycleMonitor D} (env : Surroundings D)
        → Reach n cfg m
        → Reach n cfg (check env m).0

  Reach-ne-fatal :
      {n : Text} {cfg : MonitorConfig D} {m : ProcessLifecycleMonitor D}
      → Reach n cfg m
      → m.state ≢ fatal
  unfolding create start stop reset configure check
  Reach-ne-fatal creates = ground arith
  Reach-ne-fatal (starts env r) = ground (arith, Reach-ne-fatal r)
  Reach-ne-fatal (stops r) = ground arith
  Reach-ne-fatal (resets r) = ground arith
  Reach-ne-fatal (configures cfg' r) = ground (arith, Reach-ne-fatal r)
  Reach-ne-fatal (checks env r) = ground (arith, Reach-ne-fatal r)

  -- The record of a lifecycle monitor always says running 1, whatever the monitor has found, also
  -- after it has reported that the process has exited: it never enters FATAL, which the metric asks
  -- for.
  pub record_of-running :
      (d : Doubles D) (now : ℕ) (entity : Entity D (ProcessLifecycleMonitor D)) (n : Text)
      (cfg : MonitorConfig D) (m : ProcessLifecycleMonitor D)
      → Reach n cfg m
      → (record_of d (monitor D) now entity m).metrics ≡ insert (codes "running") (d.of_number 1) []
  unfolding record_of monitor
  record_of-running d now entity n cfg m r = ground (arith, Reach-ne-fatal r)
