-- ===== src/Monitors/Lifecycle/Reports.antt =====
-- src/monitors/process_lifecycle_monitor.cpp: when check reports an exit.
use phm.Base.{
  true, false, ◌≡◌, refl, ◌↔◌, is_empty, List, [], ◌∷◌, All, All-map, ◌⊎◌, arith, ℤ, is_positive,
  done-injective, ap, sym, ◌∙◌, if◌then◌else◌, Text,
}
use phm.Types.{SeState, Severity, running, PhmEvent}
use phm.Monitor.{KeepsName}
use phm.Monitors.Surroundings.{Surroundings, generate_id}
use phm.Monitors.Lifecycle.{ProcessLifecycleMonitor, check, locate, start, stop, reset, monitor}

module _ {D : Type 0} where
  -- check reports an event exactly when the monitor has its platform, believed the process RUNNING
  -- and does not find it. Then it is in ERROR, and the event is an ERROR from this monitor.
  pub check-exit :
      (env : Surroundings D) (m : ProcessLifecycleMonitor D)
      → let (m', ev) = check env m in
        ((is_empty ev.id ≡ false)
          ↔ ((m.platform ≡ true) × (m.state ≡ running) × ((locate env m).0 ≡ false)))
        × ((is_empty ev.id ≡ true)
            ⊎ ((m'.state ≡ SeState.error)
                × (ev.severity ≡ Severity.error)
                × (ev.source_monitor ≡ m.name)))
  unfolding check generate_id
  check-exit env m = ground arith

  -- The process is found neither by the number nor by the name.
  abbrev pub IsGone : Text → ℤ → Surroundings D → Type 0
  IsGone process_name pid env =
      (env.process_exists pid ≡ false) × (is_positive (env.get_process_id process_name) ≡ false)

  pub check-gone :
      (env : Surroundings D) (m : ProcessLifecycleMonitor D)
      → m.platform ≡ true
      → m.state ≡ running
      → IsGone m.process_name m.pid env
      → let (m', ev) = check env m in
        (is_empty ev.id ≡ false)
        × (ev.source_monitor ≡ m.name)
        × (ev.severity ≡ Severity.error)
        × (m'.state ≡ SeState.error)
        × (m'.platform ≡ true)
        × (m'.process_name ≡ m.process_name)
        × (is_positive m'.pid ≡ false)
        × (m'.name ≡ m.name)
  unfolding check generate_id
  check-gone env m p s g = ground arith

  pub check-still_gone :
      (env : Surroundings D) (m : ProcessLifecycleMonitor D)
      → m.state ≡ SeState.error
      → is_positive m.pid ≡ false
      → is_positive (env.get_process_id m.process_name) ≡ false
      → let (m', ev) = check env m in
        (is_empty ev.id ≡ true)
        × (m'.state ≡ SeState.error)
        × (m'.process_name ≡ m.process_name)
        × (is_positive m'.pid ≡ false)
        × (m'.name ≡ m.name)
  unfolding check
  check-still_gone env m s p g = ground arith

  -- One check after another: the events reported.
  unfoldable pub watch : List (Surroundings D) → ProcessLifecycleMonitor D → List PhmEvent
  watch [] m = []
  watch (env ∷ envs) m =
      let (m', ev) = check env m in
      let rest = watch envs m' in if is_empty ev.id then rest else ev ∷ rest

  watch-still_gone :
      (envs : List (Surroundings D)) (m : ProcessLifecycleMonitor D)
      → m.state ≡ SeState.error
      → is_positive m.pid ≡ false
      → All (λ (env : Surroundings D). is_positive (env.get_process_id m.process_name) ≡ false) envs
      → watch envs m ≡ []
  unfolding watch
  watch-still_gone [] m s p g = refl
  watch-still_gone (env ∷ envs) m s p g =
      let (e, s', n, p', _) = check-still_gone env m s p g.0 in
      rw (e, watch-still_gone envs (check env m).0 s' p' (rw n g.1))

  -- An exit is reported once: of the checks made while the process stays away, the first reports it
  -- and no later one does.
  pub watch-once :
      (env : Surroundings D) (envs : List (Surroundings D)) (m : ProcessLifecycleMonitor D)
      → m.platform ≡ true
      → m.state ≡ running
      → All (IsGone m.process_name m.pid) (env ∷ envs)
      → watch (env ∷ envs) m ≡ (check env m).1 ∷ []
  unfolding watch
  watch-once env envs m p s g =
      let (e, _, _, s', _, n, p', _) = check-gone env m p s g.0 in
      rw (
        e,
        watch-still_gone envs (check env m).0 s' p' (
            rw n (
              All-map (IsGone m.process_name m.pid)
                (λ (v : Surroundings D). is_positive (v.get_process_id m.process_name) ≡ false)
                (λ v h. h.1) envs g.1)),
      )

  name-check :
      (env : Surroundings D) (m : ProcessLifecycleMonitor D) → (check env m).0.name ≡ m.name
  unfolding check
  name-check env m = ground arith

  name-start :
      (env : Surroundings D) (m : ProcessLifecycleMonitor D) → (start env m).0.name ≡ m.name
  unfolding start
  name-start env m = ground arith

pub lifecycle-KeepsName : (D : Type 0) → KeepsName (monitor D)
unfolding monitor stop reset
lifecycle-KeepsName D = record {
  name-start = name-start;
  name-stop = λ m. refl;
  name-reset = λ m. refl;
  name-check = λ e m m' ev h.
      ap (λ (r : ProcessLifecycleMonitor D × PhmEvent). r.0.name) (sym (done-injective h))
      ∙ name-check e m;
}
