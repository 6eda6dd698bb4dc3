-- ===== src/Monitors/Deadlock/Reports.antt =====
-- src/monitors/deadlock_monitor.cpp: when check reports a hang.
use phm.Base.{
  ◌+◌, ◌≤◌, true, false, ◌≡◌, refl, ◌↔◌, ◌⊎◌, is_empty, List, [], ◌∷◌, arith, done-injective, ap,
  sym, ◌∙◌,
}
use phm.Types.{SeState, running, PhmEvent}
use phm.Monitor.{KeepsName}
use phm.Monitors.Surroundings.{Surroundings, generate_id}
use phm.Monitors.Deadlock.{DeadlockMonitor, check, is_responding, start, stop, reset, monitor}

module _ {D : Type 0} where
  -- A started monitor is in ERROR exactly while its last check found no response.
  pub record IsConsistent (m : DeadlockMonitor D) : Type 0 where
    pub ok_running : m.last_check_ok ≡ true → m.state ≡ running
    pub hung_error : m.last_check_ok ≡ false → m.state ≡ SeState.error

  start-IsConsistent :
      (env : Surroundings D) (m : DeadlockMonitor D)
      → env.has_platform ≡ true
      → IsConsistent (start env m).0
  unfolding start
  start-IsConsistent env m h = ground arith

  check-IsConsistent :
      (env : Surroundings D) (m : DeadlockMonitor D) → IsConsistent m → IsConsistent (check env m).0
  unfolding check
  check-IsConsistent env m c = ground arith

  unfoldable pub check_each : List (Surroundings D) → DeadlockMonitor D → DeadlockMonitor D
  check_each [] m = m
  check_each (env ∷ envs) m = check_each envs (check env m).0

  check_each-IsConsistent :
      (envs : List (Surroundings D)) (m : DeadlockMonitor D)
      → IsConsistent m
      → IsConsistent (check_each envs m)
  unfolding check_each
  check_each-IsConsistent [] m c = c
  check_each-IsConsistent (env ∷ envs) m c =
      check_each-IsConsistent envs (check env m).0 (check-IsConsistent env m c)

  -- After a start on a platform and any checks, the monitor is RUNNING if its last check found a
  -- response and in ERROR if it did not.
  pub check_each-start :
      (env : Surroundings D) (envs : List (Surroundings D)) (m : DeadlockMonitor D)
      → env.has_platform ≡ true
      → IsConsistent (check_each envs (start env m).0)
  check_each-start env envs m h =
      check_each-IsConsistent envs (start env m).0 (start-IsConsistent env m h)

  -- check reports a hang exactly when the monitor has its platform, its interval has passed, the
  -- last check found a response and this one finds none. Less than an interval after the last check
  -- it changes nothing.
  pub check-hang :
      (env : Surroundings D) (m : DeadlockMonitor D)
      → let (m', ev) = check env m in
        ((is_empty ev.id ≡ false) ↔ (
          (m.platform ≡ true)
          × (m.last_check_time + m.config.interval ≤ env.steady_now)
          × (m.last_check_ok ≡ true)
          × (is_responding env m ≡ false)))
        × ((m.last_check_time + m.config.interval ≤ env.steady_now) ⊎ (m' ≡ m))
  unfolding check is_responding generate_id
  check-hang env m = ground arith

  name-check : (env : Surroundings D) (m : DeadlockMonitor D) → (check env m).0.name ≡ m.name
  unfolding check
  name-check env m = ground arith

  name-start : (env : Surroundings D) (m : DeadlockMonitor D) → (start env m).0.name ≡ m.name
  unfolding start
  name-start env m = ground arith

pub deadlock-KeepsName : (D : Type 0) → KeepsName (monitor D)
unfolding monitor stop reset
deadlock-KeepsName D = record {
  name-start = name-start;
  name-stop = λ m. refl;
  name-reset = λ m. refl;
  name-check = λ e m m' ev h.
      ap (λ (r : DeadlockMonitor D × PhmEvent). r.0.name) (sym (done-injective h)) ∙ name-check e m;
}
