-- ===== src/Monitors/Builtin.antt =====
-- What a std::unique_ptr<IMonitor> to one of the built-in monitors holds, with the calls dispatched
-- to its class.
use phm.Base.{
  Bool, Text, Dict, Outcome, done, ◌>>=◌, ◌≡◌, refl, sym, ◌∙◌, inl, inr, Outcome-cases, Ensures,
  Ensures-done,
}
use phm.Types.{SeState, MonitorType, MonitorConfig, PhmEvent, Doubles}
use phm.Monitor.{IMonitor, KeepsName}
use phm.Monitors.Surroundings.{Surroundings}
use phm.Monitors.Lifecycle
use phm.Monitors.Lifecycle.{ProcessLifecycleMonitor}
use phm.Monitors.Lifecycle.Reports.{lifecycle-KeepsName}
use phm.Monitors.Resource
use phm.Monitors.Resource.{ResourceMonitor}
use phm.Monitors.Resource.Reports.{resource-KeepsName}
use phm.Monitors.Deadlock
use phm.Monitors.Deadlock.{DeadlockMonitor}
use phm.Monitors.Deadlock.Reports.{deadlock-KeepsName}
use phm.Monitors.Alive
use phm.Monitors.Alive.{AliveMonitor}
use phm.Monitors.Alive.Reports.{alive-KeepsName}

pub data Builtin (D : Type 0) : Type 0 where
  lifecycle : ProcessLifecycleMonitor D → Builtin D
  resource : ResourceMonitor D → Builtin D
  deadlock : DeadlockMonitor D → Builtin D
  alive : AliveMonitor D → Builtin D

module _ {D : Type 0} (d : Doubles D) where
  unfoldable pub start : Surroundings D → Builtin D → Builtin D × Bool
  start env (lifecycle m) = let (m', ok) = (Lifecycle.monitor D).start env m in (lifecycle m', ok)
  start env (resource m) = let (m', ok) = (Resource.monitor d).start env m in (resource m', ok)
  start env (deadlock m) = let (m', ok) = (Deadlock.monitor D).start env m in (deadlock m', ok)
  start env (alive m) = let (m', ok) = (Alive.monitor d).start env m in (alive m', ok)

  unfoldable pub stop : Builtin D → Builtin D
  stop (lifecycle m) = lifecycle ((Lifecycle.monitor D).stop m)
  stop (resource m) = resource ((Resource.monitor d).stop m)
  stop (deadlock m) = deadlock ((Deadlock.monitor D).stop m)
  stop (alive m) = alive ((Alive.monitor d).stop m)

  unfoldable pub check : Surroundings D → Builtin D → Outcome (Builtin D × PhmEvent)
  check env (lifecycle m) =
      (Lifecycle.monitor D).check env m >>= λ (r : _ × PhmEvent). done (lifecycle r.0, r.1)
  check env (resource m) =
      (Resource.monitor d).check env m >>= λ (r : _ × PhmEvent). done (resource r.0, r.1)
  check env (deadlock m) =
      (Deadlock.monitor D).check env m >>= λ (r : _ × PhmEvent). done (deadlock r.0, r.1)
  check env (alive m) =
      (Alive.monitor d).check env m >>= λ (r : _ × PhmEvent). done (alive r.0, r.1)

  unfoldable pub reset : Builtin D → Builtin D
  reset (lifecycle m) = lifecycle ((Lifecycle.monitor D).reset m)
  reset (resource m) = resource ((Resource.monitor d).reset m)
  reset (deadlock m) = deadlock ((Deadlock.monitor D).reset m)
  reset (alive m) = alive ((Alive.monitor d).reset m)

  unfoldable pub get_state : Builtin D → SeState
  get_state (lifecycle m) = (Lifecycle.monitor D).get_state m
  get_state (resource m) = (Resource.monitor d).get_state m
  get_state (deadlock m) = (Deadlock.monitor D).get_state m
  get_state (alive m) = (Alive.monitor d).get_state m

  unfoldable pub get_type : Builtin D → MonitorType
  get_type (lifecycle m) = (Lifecycle.monitor D).get_type m
  get_type (resource m) = (Resource.monitor d).get_type m
  get_type (deadlock m) = (Deadlock.monitor D).get_type m
  get_type (alive m) = (Alive.monitor d).get_type m

  unfoldable pub configure : MonitorConfig D → Builtin D → Builtin D
  configure cfg (lifecycle m) = lifecycle ((Lifecycle.monitor D).configure cfg m)
  configure cfg (resource m) = resource ((Resource.monitor d).configure cfg m)
  configure cfg (deadlock m) = deadlock ((Deadlock.monitor D).configure cfg m)
  configure cfg (alive m) = alive ((Alive.monitor d).configure cfg m)

  unfoldable pub get_config : Builtin D → MonitorConfig D
  get_config (lifecycle m) = (Lifecycle.monitor D).get_config m
  get_config (resource m) = (Resource.monitor d).get_config m
  get_config (deadlock m) = (Deadlock.monitor D).get_config m
  get_config (alive m) = (Alive.monitor d).get_config m

  unfoldable pub name : Builtin D → Text
  name (lifecycle m) = (Lifecycle.monitor D).name m
  name (resource m) = (Resource.monitor d).name m
  name (deadlock m) = (Deadlock.monitor D).name m
  name (alive m) = (Alive.monitor d).name m

  unfoldable pub collect_metrics : Builtin D → Dict D
  collect_metrics (lifecycle m) = (Lifecycle.monitor D).collect_metrics m
  collect_metrics (resource m) = (Resource.monitor d).collect_metrics m
  collect_metrics (deadlock m) = (Deadlock.monitor D).collect_metrics m
  collect_metrics (alive m) = (Alive.monitor d).collect_metrics m

  unfoldable pub monitor : IMonitor D (Builtin D) (Surroundings D)
  monitor = record {
    start = start;
    stop = stop;
    check = check;
    reset = reset;
    get_state = get_state;
    get_type = get_type;
    configure = configure;
    get_config = get_config;
    name = name;
    collect_metrics = collect_metrics;
  }

  name-start : (e : Surroundings D) (m : Builtin D) → name (start e m).0 ≡ name m
  unfolding name start
  name-start e (lifecycle m) = (lifecycle-KeepsName D).name-start e m
  name-start e (resource m) = (resource-KeepsName d).name-start e m
  name-start e (deadlock m) = (deadlock-KeepsName D).name-start e m
  name-start e (alive m) = (alive-KeepsName d).name-start e m

  name-stop : (m : Builtin D) → name (stop m) ≡ name m
  unfolding name stop
  name-stop (lifecycle m) = (lifecycle-KeepsName D).name-stop m
  name-stop (resource m) = (resource-KeepsName d).name-stop m
  name-stop (deadlock m) = (deadlock-KeepsName D).name-stop m
  name-stop (alive m) = (alive-KeepsName d).name-stop m

  name-reset : (m : Builtin D) → name (reset m) ≡ name m
  unfolding name reset
  name-reset (lifecycle m) = (lifecycle-KeepsName D).name-reset m
  name-reset (resource m) = (resource-KeepsName d).name-reset m
  name-reset (deadlock m) = (deadlock-KeepsName D).name-reset m
  name-reset (alive m) = (alive-KeepsName d).name-reset m

  -- A check of one class, wrapped.
  wrapped :
      {M : Type 0} (i : IMonitor D M (Surroundings D)) (k : KeepsName i) (wrap : M → Builtin D)
      → ((m : M) → name (wrap m) ≡ i.name m)
      → (e : Surroundings D) (m : M)
      → Ensures
          (λ (r : Builtin D × PhmEvent). name r.0 ≡ name (wrap m))
          (i.check e m >>= λ (r : M × PhmEvent). done (wrap r.0, r.1))
  wrapped {M} i k wrap w e m = elim (Outcome-cases (i.check e m)) [
    | inl (f, q) ↦ rw q tt
    | inr ((m', ev), q) ↦ rw q (w m' ∙ k.name-check e m m' ev q ∙ sym (w m))
  ]

  name-check :
      (e : Surroundings D) (m : Builtin D)
      → Ensures (λ (r : Builtin D × PhmEvent). name r.0 ≡ name m) (check e m)
  unfolding check name
  name-check e (lifecycle m) =
      wrapped (Lifecycle.monitor D) (lifecycle-KeepsName D) lifecycle (λ m. refl) e m
  name-check e (resource m) =
      wrapped (Resource.monitor d) (resource-KeepsName d) resource (λ m. refl) e m
  name-check e (deadlock m) =
      wrapped (Deadlock.monitor D) (deadlock-KeepsName D) deadlock (λ m. refl) e m
  name-check e (alive m) = wrapped (Alive.monitor d) (alive-KeepsName d) alive (λ m. refl) e m

  -- No built-in monitor ever changes its name.
  pub builtin-KeepsName : KeepsName monitor
  unfolding monitor
  builtin-KeepsName = record {
    name-start = name-start;
    name-stop = name-stop;
    name-reset = name-reset;
    name-check = λ e m m' ev h.
        Ensures-done (λ (r : Builtin D × PhmEvent). name r.0 ≡ name m) (check e m) (m', ev)
          (name-check e m) h;
  }
