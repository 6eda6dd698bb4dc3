-- ===== src/Monitors/Resource/Reports.antt =====
-- src/monitors/resource_monitor.cpp: when check fails, and what it reports of a running process.
use phm.Base.{
  true, false, ◌≡◌, refl, ◌↔◌, ◌⊎◌, is_empty, arith, failed, null_dereference, Ensures,
  Ensures-done,
}
use phm.Types.{SeState, Severity, running, warn, warning, PhmEvent, Doubles}
use phm.Monitor.{KeepsName}
use phm.Monitors.Surroundings.{Surroundings, generate_id}
use phm.Monitors.Resource.{ResourceMonitor, check, judge, start, stop, reset, monitor}

module _ {D : Type 0} (d : Doubles D) where
  -- check uses a null platform exactly when the monitor has none and has the name of a process, and
  -- so does every check after stop of a monitor that has the name of a process.
  pub check-null_dereference :
      (env : Surroundings D) (m : ResourceMonitor D)
      → ((check d env m ≡ failed null_dereference)
          ↔ ((m.platform ≡ false) × (is_empty m.process_name ≡ false)))
        × ((is_empty m.process_name ≡ true) ⊎ (check d env (stop m) ≡ failed null_dereference))
  unfolding check stop
  check-null_dereference env m = ground arith

  -- A threshold is set and reached.
  abbrev pub IsOver : D → D → Type 0
  IsOver cpu t = (d.lt d.zero_point t ≡ true) × (d.ge cpu t ≡ true)

  -- What the thresholds make of a cpu usage: an ERROR event if it reaches a positive error
  -- threshold, else a WARNING if it reaches a positive warn threshold, else none; the state agrees.
  pub judge-severity :
      (env : Surroundings D) (m : ResourceMonitor D) (cpu : D)
      → let (m', ev) = judge d env m cpu in
        ((m'.state ≡ SeState.error) ↔ IsOver cpu m.config.error_threshold)
        × ((m'.state ≡ running)
            ↔ ((¬ IsOver cpu m.config.error_threshold) × (¬ IsOver cpu m.config.warn_threshold)))
        × ((is_empty ev.id ≡ true) ↔ (m'.state ≡ running))
        × ((ev.severity ≡ Severity.error) ↔ (m'.state ≡ SeState.error))
        × ((ev.severity ≡ warning) ↔ (m'.state ≡ warn))
  unfolding judge generate_id
  judge-severity env m cpu = ground arith

  name-check :
      (env : Surroundings D) (m : ResourceMonitor D)
      → Ensures (λ (r : ResourceMonitor D × PhmEvent). r.0.name ≡ m.name) (check d env m)
  unfolding check judge
  name-check env m = ground arith

  name-start : (env : Surroundings D) (m : ResourceMonitor D) → (start env m).0.name ≡ m.name
  unfolding start
  name-start env m = ground arith

  pub resource-KeepsName : KeepsName (monitor d)
  unfolding monitor stop reset
  resource-KeepsName = record {
    name-start = name-start;
    name-stop = λ m. refl;
    name-reset = λ m. refl;
    name-check = λ e m m' ev h.
        Ensures-done (λ (r : ResourceMonitor D × PhmEvent). r.0.name ≡ m.name) (check d e m)
          (m', ev) (name-check e m) h;
  }
