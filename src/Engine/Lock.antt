-- ===== src/Engine/Lock.antt =====
-- src/phm_engine.cpp: the calls that lock mutex_ while their own thread holds it.
use phm.Base.{
  ℕ, true, false, ◌≡◌, refl, ◌⊎◌, inl, inr, if◌then◌else◌, Text, text_eq, text_eq_iff, Dict, lookup,
  List, [], ◌∷◌, ◌++◌, some, done, failed, self_deadlock, ◌>>=◌, arith, Bool-cases,
}
use phm.Types.{init, running}
use phm.Monitor.{IMonitor}
use phm.Entity.Calls
use phm.Entity.{Entity, Change, transition_to, only_changes, is_transition_allowed}
use phm.Entity.Calls.{start_all}
use phm.Engine.{
  Engine, GlobalChange, with_lock, get_global_state, on_entity_state_changed, notify, set_entity,
  get_stats,
}
use phm.Engine.Run.{start_entities, start}

module _ {D M : Type 0} where
  -- getStats never returns, whatever the engine's state: it calls getGlobalState, which locks the
  -- mutex that getStats holds.
  pub get_stats-deadlock : (en : Engine D M) → get_stats en ≡ failed self_deadlock
  unfolding get_stats get_global_state
  get_stats-deadlock en = ground arith

  -- With the lock held the callback does not return.
  notify-locked :
      (en : Engine D M) (c : Change) (cs : List Change)
      → en.locked ≡ true
      → notify en (c ∷ cs) ≡ failed self_deadlock
  unfolding notify on_entity_state_changed get_global_state
  notify-locked en c cs l = ground arith

  notify-none : (en : Engine D M) → notify en [] ≡ done (en, [])
  unfolding notify
  notify-none en = refl

module _ {D M E : Type 0} (i : IMonitor D M E) where
  -- What makes the start of an entity call back: it is enabled, INIT, has a callback, and all its
  -- monitors start.
  pub record CallsBack (env : Text → ℕ → E) (name : Text) (se : Entity D M) : Type 0 where
    pub enabled : se.config.enabled ≡ true
    pub initial : se.current_state ≡ init
    pub callback : se.state_cb ≡ true
    pub monitors_start : (start_all i (env name) se.monitors).1 ≡ true

  start-CallsBack :
      (env : Text → ℕ → E) (name : Text) (se : Entity D M)
      → CallsBack env name se
      → (c : Change) × ((Calls.start i (env name) se).2 ≡ c ∷ [])
  unfolding Calls.start only_changes transition_to is_transition_allowed
  start-CallsBack env name se b =
      (record { se_name = se.config.name; old_state = init; new_state = running }, ground arith)

  start_entities-step :
      (env : Text → ℕ → E) (name : Text) (se : Entity D M) (rest : Dict (Entity D M))
      (en : Engine D M) (cs : List Change)
      → en.locked ≡ true
      → (if se.config.enabled then Calls.start i (env name) se else (se, true, [])).2 ≡ cs
      → (start_entities i env ((name, se) ∷ rest) en ≡ failed self_deadlock)
        ⊎ ((cs ≡ [])
            × ((en' : Engine D M) × (en'.locked ≡ true)
                × (calls : List GlobalChange) × (start_entities i env ((name, se) ∷ rest) en ≡ (
                    start_entities i env rest en' >>= λ (r : Engine D M × List GlobalChange).
                    done (r.0, calls ++ r.1)))))
  unfolding start_entities set_entity
  start_entities-step env name se rest en [] l e = inr (
    refl,
    (
      set_entity en name
          (if se.config.enabled then Calls.start i (env name) se else (se, true, [])).0,
      l,
      [],
      rw (e, notify-none) refl,
    ),
  )
  start_entities-step env name se rest en (c ∷ cs) l e = inl (
      rw (
        e,
        notify-locked
            (set_entity en name
              (if se.config.enabled then Calls.start i (env name) se else (se, true, [])).0)
            c cs l,
      ))

  start_entities-here :
      (env : Text → ℕ → E) (name : Text) (se : Entity D M) (rest : Dict (Entity D M))
      (en : Engine D M)
      → en.locked ≡ true
      → CallsBack env name se
      → start_entities i env ((name, se) ∷ rest) en ≡ failed self_deadlock
  start_entities-here env name se rest en l b =
      let (c, called) = start-CallsBack env name se b in
      let e : (if se.config.enabled then Calls.start i (env name) se else (se, true, [])).2
          ≡ c ∷ [] =
        simp b.enabled called in
      elim (start_entities-step env name se rest en (c ∷ []) l e) [
        | inl h ↦ h
        | inr (none_called, _) ↦ cc
      ]

  start_entities-deadlock :
      (env : Text → ℕ → E) (entities : Dict (Entity D M)) (en : Engine D M) (name : Text)
      (se : Entity D M)
      → en.locked ≡ true
      → lookup name entities ≡ some se
      → CallsBack env name se
      → start_entities i env entities en ≡ failed self_deadlock
  unfolding lookup
  start_entities-deadlock env [] en name se l e b = cc
  start_entities-deadlock env ((j, s) ∷ rest) en name se l e b =
      elim (Bool-cases (text_eq j name)) [
        | inl same ↦
            let same_entity : s ≡ se = ground arith in
            let same_name : j ≡ name = (text_eq_iff j name).0 same in
            rw (same_name, same_entity) (start_entities-here env name se rest en l b)
        | inr other ↦ elim (start_entities-step env j s rest en _ l refl) [
          | inl h ↦ h
          | inr (_, (en', l', calls, step)) ↦
              rw (step, start_entities-deadlock env rest en' name se l' (ground arith) b) refl
        ]
      ]

  -- start never returns on an engine that is not running and holds an enabled entity that is INIT
  -- and whose monitors all start: the entity's callback asks for the global state, and so locks the
  -- mutex that start holds.
  pub start-deadlock :
      (env : Text → ℕ → E) (en : Engine D M) (name : Text) (se : Entity D M)
      → en.running ≡ false
      → lookup name en.entities ≡ some se
      → CallsBack env name se
      → start i env en ≡ failed self_deadlock
  unfolding start with_lock
  start-deadlock env en name se r e b = elim (Bool-cases en.locked) [
    | inl l ↦ rw l refl
    | inr l ↦
        rw
          (
            l,
            r,
            start_entities-deadlock env en.entities (record en { running = false; locked = true })
                name se refl e b,
          )
          refl
  ]
