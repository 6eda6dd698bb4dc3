-- ===== src/Detection.antt =====
-- src/state_machine.cpp and src/monitors/process_lifecycle_monitor.cpp together: an entity whose one
-- monitor watches a process.
use phm.Base.{
  ◌^◌, ◌<◌, ◌≤◌, true, false, ◌≡◌, refl, inl, List, [], ◌∷◌, ◌++◌, some, All, All-map, is_empty,
  Outcome, done, ◌>>=◌, arith, is_positive,
}
use phm.Types.{MonitorConfig, PhmEvent, running, suspect, SeState, Severity}
use phm.Entity.{
  Entity, Change, process_monitor_result, find_config, event_type, debounce_of,
  se_state_from_severity,
}
use phm.Entity.Calls.{check_from, check_all}
use phm.Entity.Debounce.{count_at, debounce_event-counted, process_monitor_result-found}
use phm.Monitors.Surroundings.{Surroundings}
use phm.Monitors.Lifecycle
use phm.Monitors.Lifecycle.{ProcessLifecycleMonitor}
use phm.Monitors.Lifecycle.Reports.{IsGone, check-gone, check-still_gone}

module _ {D : Type 0} where
  -- One sweep after another; e is what the surroundings answer during one of them.
  unfoldable pub sweeps :
      List (Surroundings D)
      → Entity D (ProcessLifecycleMonitor D)
      → Outcome (Entity D (ProcessLifecycleMonitor D))
  sweeps [] se = done se
  sweeps (e ∷ es) se = do
    (se', events, changes) ← check_all (Lifecycle.monitor D) (λ n. e) se
    sweeps es se'

  quiet_sweep :
      (e : Surroundings D) (se : Entity D (ProcessLifecycleMonitor D))
      (m : ProcessLifecycleMonitor D)
      → se.monitors ≡ m ∷ []
      → is_empty (Lifecycle.check e m).1.id ≡ true
      → check_all (Lifecycle.monitor D) (λ n. e) se
        ≡ done (record se { monitors = (Lifecycle.check e m).0 ∷ [] }, [], [])
  unfolding check_all check_from Lifecycle.monitor
  quiet_sweep e se m q h = rw (q, check_all, check_from, Lifecycle.monitor, h) refl

  reporting_sweep :
      (e : Surroundings D) (se : Entity D (ProcessLifecycleMonitor D))
      (m : ProcessLifecycleMonitor D)
      → se.monitors ≡ m ∷ []
      → is_empty (Lifecycle.check e m).1.id ≡ false
      → let (m', ev) = Lifecycle.check e m in
        (cs : List Change) × (check_all (Lifecycle.monitor D) (λ n. e) se
          ≡ done (record (process_monitor_result se ev).0 { monitors = m' ∷ [] }, ev ∷ [], cs))
  unfolding check_all check_from Lifecycle.monitor
  reporting_sweep e se m q h = (
    (process_monitor_result se (Lifecycle.check e m).1).1 ++ [],
    rw (q, check_all, check_from, Lifecycle.monitor, h) refl,
  )

  first_report :
      (se : Entity D (ProcessLifecycleMonitor D)) (ev : PhmEvent) (mc : MonitorConfig D)
      → se.current_state ≡ running
      → count_at se ev.source_monitor ≡ 0
      → find_config (event_type ev.source_monitor) se.config.monitors ≡ some mc
      → 2 ≤ debounce_of mc
      → debounce_of mc < 2 ^ 32
      → ev.severity ≡ Severity.error
      → (process_monitor_result se ev).0.current_state ≡ suspect
  unfolding se_state_from_severity
  first_report se ev mc s z f two small sev = rw (process_monitor_result-found se ev mc f) (
      (debounce_event-counted se ev.source_monitor (debounce_of mc)
        (se_state_from_severity ev.severity) (inl s) (ground arith) small
        (omega (arith, z, two))).0)

  stays_suspect :
      (es : List (Surroundings D)) (se : Entity D (ProcessLifecycleMonitor D))
      (m : ProcessLifecycleMonitor D)
      → se.monitors ≡ m ∷ []
      → se.current_state ≡ suspect
      → m.state ≡ SeState.error
      → is_positive m.pid ≡ false
      → All (λ (e : Surroundings D). is_positive (e.get_process_id m.process_name) ≡ false) es
      → (se' : Entity D (ProcessLifecycleMonitor D)) × (sweeps es se ≡ done se')
        × (se'.current_state ≡ suspect)
  unfolding sweeps
  stays_suspect [] se m q s r p g = (se, refl, s)
  stays_suspect (e ∷ es) se m q s r p g =
      let (quiet, r', n, p', _) = check-still_gone e m r p g.0 in
      rw (quiet_sweep e se m q quiet) (
        stays_suspect es (record se { monitors = (Lifecycle.check e m).0 ∷ [] })
          (Lifecycle.check e m).0 refl s r' p' (rw n g.1))

  -- The exit of the process is never confirmed: with a debounce count of two or more that fits in
  -- 32 bits, a RUNNING entity whose one monitor watches a running process, with its counter at 0,
  -- is SUSPECT after any number of sweeps, at least one, made while the process is gone. The monitor
  -- reports the exit once, and the debounce count is never reached.
  pub sweeps-unconfirmed :
      (e : Surroundings D) (es : List (Surroundings D)) (se : Entity D (ProcessLifecycleMonitor D))
      (m : ProcessLifecycleMonitor D) (mc : MonitorConfig D)
      → se.monitors ≡ m ∷ []
      → se.current_state ≡ running
      → count_at se m.name ≡ 0
      → find_config (event_type m.name) se.config.monitors ≡ some mc
      → 2 ≤ debounce_of mc
      → debounce_of mc < 2 ^ 32
      → m.platform ≡ true
      → m.state ≡ running
      → All (IsGone m.process_name m.pid) (e ∷ es)
      → (se' : Entity D (ProcessLifecycleMonitor D)) × (sweeps (e ∷ es) se ≡ done se')
        × (se'.current_state ≡ suspect)
  unfolding sweeps
  sweeps-unconfirmed e es se m mc q s z f two small p r g =
      let (told, src, sev, r', _, n, p', _) = check-gone e m p r g.0 in
      let ev = (Lifecycle.check e m).1 in
      let se₁ = record (process_monitor_result se ev).0 {
        monitors = (Lifecycle.check e m).0 ∷ [];
      } in
      rw ((reporting_sweep e se m q told).1) (
        stays_suspect es se₁ (Lifecycle.check e m).0 refl
          (first_report se ev mc s (rw src z) (rw src f) two small sev) r' p'
          (rw n (
            All-map (IsGone m.process_name m.pid)
              (λ (v : Surroundings D). is_positive (v.get_process_id m.process_name) ≡ false)
              (λ v h. h.1) es g.1)))
