-- ===== src/Entity/Reach.antt =====
-- src/state_machine.cpp: the calls that an owner makes on an entity, in any order, as a relation.
use phm.Base.{
  ℕ, Bool, ◌≡◌, refl, ◌∙◌, sym, ap, ◌⊎◌, inl, inr, List, [], ◌∷◌, ◌++◌, arith, subst, Text, Option,
  none, some, map, done, ◌<◌,
}
use phm.Types.{MonitorConfig, SeConfig, PhmEvent, Doubles, fatal}
use phm.Monitor.{IMonitor, KeepsName}
use phm.Entity.{
  Entity, Change, create, process_monitor_result, on_monitor_event, transition_to, only_changes,
  drain_events, set_state_change_callback, find_config, event_type, debounce_of,
}
use phm.Entity.Calls.{register_monitor, start, stop, reset, check_all}
use phm.Entity.Transitions.{process_monitor_result-Frame}
use phm.Entity.Events.{process_monitor_result-fatal}
use phm.Entity.Debounce.{count_at}
use phm.Entity.Counters.{
  IsBounded, create-IsBounded, process_monitor_result-IsBounded, reset-IsBounded,
}
use phm.Entity.Monitors.{
  names, Distinct, register_monitor-Distinct, process_all, check_all-process_all, names-start,
  names-stop, names-reset, names-check_all,
}

module _ {D M E : Type 0} (i : IMonitor D M E) where
  pub data Step (se : Entity D M) : Entity D M → Type 0 where
    registers : (m : Option M) → Step se (register_monitor i se m).0
    starts : (env : ℕ → E) → Step se (start i env se).0
    stops : Step se (stop i se)
    resets : Step se (reset i se)
    checks :
        {se' : Entity D M} (env : ℕ → E) (evs : List PhmEvent) (cs : List Change)
        → check_all i env se ≡ done (se', evs, cs)
        → Step se se'
    receives : (ev : PhmEvent) → Step se (on_monitor_event se ev).0
    drains : Step se (drain_events se).0
    sets_callback : (cb : Bool) → Step se (set_state_change_callback se cb)

  -- What any calls can make of a new entity.
  pub data Reach (d : Doubles D) (c : SeConfig D) : Entity D M → Type 0 where
    here : Reach d c (create d c)
    next : {se se' : Entity D M} → Reach d c se → Step se se' → Reach d c se'

  process_all-IsBounded :
      (se : Entity D M) (evs : List PhmEvent) → IsBounded se → IsBounded (process_all se evs).0
  unfolding process_all
  process_all-IsBounded se [] b = b
  process_all-IsBounded se (ev ∷ evs) b =
      process_all-IsBounded (process_monitor_result se ev).0 evs
        (process_monitor_result-IsBounded se ev b)

  start-kept :
      (env : ℕ → E) (se : Entity D M)
      → ((start i env se).0.config ≡ se.config)
        × ((start i env se).0.debounce_map ≡ se.debounce_map)
  unfolding start only_changes transition_to
  start-kept env se = ground arith

  start-fatal :
      (env : ℕ → E) (se : Entity D M)
      → se.current_state ≡ fatal
      → (start i env se).0.current_state ≡ fatal
  unfolding start only_changes transition_to
  start-fatal env se e = ground arith

  register-kept :
      (se : Entity D M) (m : Option M)
      → ((register_monitor i se m).0.config ≡ se.config)
        × ((register_monitor i se m).0.debounce_map ≡ se.debounce_map)
        × ((register_monitor i se m).0.current_state ≡ se.current_state)
  unfolding register_monitor
  register-kept se none = (refl, refl, refl)
  register-kept se (some m) = ground arith

  -- The bound is about the configuration and the map alone.
  IsBounded-kept :
      (se se' : Entity D M)
      → se'.config ≡ se.config
      → se'.debounce_map ≡ se.debounce_map
      → IsBounded se
      → IsBounded se'
  IsBounded-kept se se' c m b key mc f =
      rw m (b key mc (ap (λ (x : SeConfig D). find_config (event_type key) x.monitors) (sym c) ∙ f))

  Step-IsBounded : {se se' : Entity D M} → Step se se' → IsBounded se → IsBounded se'
  unfolding stop on_monitor_event drain_events set_state_change_callback
  Step-IsBounded {se} (registers m) b =
      IsBounded-kept se (register_monitor i se m).0 (register-kept se m).0 (register-kept se m).1 b
  Step-IsBounded {se} (starts env) b =
      IsBounded-kept se (start i env se).0 (start-kept env se).0 (start-kept env se).1 b
  Step-IsBounded stops b = b
  Step-IsBounded {se} resets b = reset-IsBounded i se
  Step-IsBounded {se} {se'} (checks env evs cs h) b =
      let (e, _, _) = check_all-process_all i env se se' evs cs h in
      subst IsBounded e (process_all-IsBounded se evs b)
  Step-IsBounded {se} (receives ev) b =
      process_monitor_result-IsBounded (record se { pending_events = se.pending_events ++ ev ∷ [] })
        ev b
  Step-IsBounded drains b = b
  Step-IsBounded (sets_callback cb) b = b

  -- Whatever calls an entity has seen, the counter of every key whose type is configured is below
  -- the debounce count of that type.
  pub Reach-IsBounded :
      (d : Doubles D) (c : SeConfig D) {se : Entity D M}
      → Reach d c se
      → (key : Text) (mc : MonitorConfig D)
      → find_config (event_type key) se.config.monitors ≡ some mc
      → count_at se key < debounce_of mc
  Reach-IsBounded d c here = create-IsBounded M d c
  Reach-IsBounded d c (next r st) = Step-IsBounded st (Reach-IsBounded d c r)

  Step-Distinct :
      {se se' : Entity D M}
      → KeepsName i
      → Step se se'
      → Distinct i (names i se.monitors)
      → Distinct i (names i se'.monitors)
  unfolding stop reset on_monitor_event drain_events set_state_change_callback
  Step-Distinct {se} k (registers m) d = register_monitor-Distinct i se m d
  Step-Distinct {se} k (starts env) d = rw (names-start i k env se) d
  Step-Distinct {se} k stops d = rw (names-stop i k se.monitors) d
  Step-Distinct {se} k resets d =
      rw (names-reset i k (map i.stop se.monitors), names-stop i k se.monitors) d
  Step-Distinct {se} {se'} k (checks env evs cs h) d =
      rw (names-check_all i k env se se' evs cs h) d
  Step-Distinct {se} k (receives ev) d =
      rw
        ((process_monitor_result-Frame (record se { pending_events = se.pending_events ++ ev ∷ [] })
          ev).monitors)
        d
  Step-Distinct k drains d = d
  Step-Distinct k (sets_callback cb) d = d

  -- With monitors that keep their names, no calls ever leave two monitors of one name in an entity.
  pub Reach-Distinct :
      (k : KeepsName i) (d : Doubles D) (c : SeConfig D) {se : Entity D M}
      → Reach d c se
      → Distinct i (names i se.monitors)
  unfolding create
  Reach-Distinct k d c here = tt
  Reach-Distinct k d c (next r st) = Step-Distinct k st (Reach-Distinct k d c r)

  process_all-fatal :
      (se : Entity D M) (evs : List PhmEvent)
      → se.current_state ≡ fatal
      → (process_all se evs).0.current_state ≡ fatal
  unfolding process_all
  process_all-fatal se [] e = e
  process_all-fatal se (ev ∷ evs) e =
      process_all-fatal (process_monitor_result se ev).0 evs (process_monitor_result-fatal se ev e)

  -- FATAL can be left by reset alone: any other call leaves a FATAL entity FATAL.
  pub Step-fatal :
      {se se' : Entity D M}
      → Step se se'
      → se.current_state ≡ fatal
      → (se'.current_state ≡ fatal) ⊎ (se' ≡ reset i se)
  unfolding stop on_monitor_event drain_events set_state_change_callback
  Step-fatal {se} (registers m) e = inl ((register-kept se m).2 ∙ e)
  Step-fatal {se} (starts env) e = inl (start-fatal env se e)
  Step-fatal stops e = inl e
  Step-fatal resets e = inr refl
  Step-fatal {se} {se'} (checks env evs cs h) e =
      let (p, _, _) = check_all-process_all i env se se' evs cs h in
      inl (subst (λ (x : Entity D M). x.current_state ≡ fatal) p (process_all-fatal se evs e))
  Step-fatal {se} (receives ev) e = inl (
      process_monitor_result-fatal (record se { pending_events = se.pending_events ++ ev ∷ [] }) ev
        e)
  Step-fatal drains e = inl e
  Step-fatal (sets_callback cb) e = inl e
