-- ===== src/Monitor.antt =====
-- include/faw/phm/monitor.h: the interface that every monitor implements. M is the monitor's state
-- and E what its surroundings (platform, clocks, health channel) answer during one call. check may
-- fail, since an implementation may use a null pointer. The event callback is stored by every
-- implementation and called by none, so it is left out.
use phm.Base.{Bool, Text, Dict, Outcome, done, ◌≡◌}
use phm.Types.{SeState, MonitorType, MonitorConfig, PhmEvent}

pub record IMonitor (D M E : Type 0) : Type 0 where
  pub start : E → M → M × Bool
  pub stop : M → M
  pub check : E → M → Outcome (M × PhmEvent)
  pub reset : M → M
  pub get_state : M → SeState
  pub get_type : M → MonitorType
  pub configure : MonitorConfig D → M → M
  pub get_config : M → MonitorConfig D
  pub name : M → Text
  pub collect_metrics : M → Dict D

-- The name of a monitor is fixed when it is built.
pub record KeepsName {D M E : Type 0} (i : IMonitor D M E) : Type 0 where
  pub name-start : (e : E) (m : M) → i.name (i.start e m).0 ≡ i.name m
  pub name-stop : (m : M) → i.name (i.stop m) ≡ i.name m
  pub name-reset : (m : M) → i.name (i.reset m) ≡ i.name m
  pub name-check :
      (e : E) (m m' : M) (ev : PhmEvent) → i.check e m ≡ done (m', ev) → i.name m' ≡ i.name m
