-- ===== src/Engine/Run.antt =====
-- src/phm_engine.cpp: the calls of the engine that reach the monitors of its entities. env name n is
-- what the surroundings answer the monitor at position n of the entity name.
use phm.Base.{
  ℕ, Bool, true, false, ◌&&◌, if◌then◌else◌, Text, Dict, lookup, erase, List, [], ◌∷◌, ◌++◌, Option,
  none, some, Outcome, done, ◌>>=◌,
}
use phm.Types.{fatal, same_state}
use phm.Monitor.{IMonitor}
use phm.Entity.Calls
use phm.Entity.{Entity}
use phm.Engine.{Engine, GlobalChange, with_lock, notify, set_entity}

module _ {D M E : Type 0} (i : IMonitor D M E) where
  -- Besides the answer, the entity as it was stopped, for those who still hold it.
  unfoldable pub remove_entity :
      Engine D M → Text → Outcome (Engine D M × (Bool × Option (Entity D M)))
  unfolding with_lock
  remove_entity en name =
      with_lock
        (λ en'. elim (lookup name en'.entities) [
          | none ↦ done (en', (false, none))
          | some entity ↦ done (
            record en' { entities = erase name en'.entities },
            (true, some (Calls.stop i entity)),
          )
        ])
        en

  -- The loop of start, with the lock held.
  unfoldable pub start_entities :
      (Text → ℕ → E) → Dict (Entity D M) → Engine D M → Outcome (Engine D M × List GlobalChange)
  unfolding set_entity
  start_entities env [] en = done (en, [])
  start_entities env ((name, entity) ∷ entities) en = do
    let (entity', ok, changes) =
        if entity.config.enabled then Calls.start i (env name) entity else (entity, true, [])
    (en₁, calls) ← notify (set_entity en name entity') changes
    (en₂, more) ← start_entities env entities en₁
    done (en₂, calls ++ more)

  unfoldable pub start : (Text → ℕ → E) → Engine D M → Outcome (Engine D M × Bool)
  unfolding with_lock start_entities
  start env en =
      with_lock
        (λ en'. if en'.running then done (en', false) else (do
          (en₁, calls) ← start_entities env en'.entities en'
          done (record en₁ { running = true }, true)))
        en

  unfoldable pub stop_entities : Dict (Entity D M) → Dict (Entity D M)
  stop_entities [] = []
  stop_entities ((name, entity) ∷ entities) = (name, Calls.stop i entity) ∷ stop_entities entities

  -- The worker has ended when the entities are stopped.
  unfoldable pub stop : Engine D M → Outcome (Engine D M)
  unfolding with_lock stop_entities
  stop en = do
    (en₁, was_running) ← with_lock (λ en'. done (record en' { running = false }, en'.running)) en
    if was_running
        then (do
          (en₂, _) ←
              with_lock (λ en'. done (record en' { entities = stop_entities en'.entities }, tt)) en₁
          done en₂)
        else done en₁

  -- What a tick does with one entity of the snapshot.
  unfoldable pub tick_entity :
      (ℕ → E) → (ℕ → E) → Text → Entity D M → Engine D M → Outcome (Engine D M × List GlobalChange)
  unfolding set_entity
  tick_entity env again name entity en = do
    (entity₁, events, changes) ← Calls.check_all i env entity
    (en₁, calls) ← notify (set_entity en name entity₁) changes
    if same_state entity₁.current_state fatal && entity₁.config.auto_restart
        then (do
          let (entity₂, ok, changes') = Calls.start i again (Calls.reset i entity₁)
          (en₂, more) ← notify (set_entity en₁ name entity₂) changes'
          done (en₂, calls ++ more))
        else done (en₁, calls)

  unfoldable pub tick_entities :
      (Text → ℕ → E)
      → (Text → ℕ → E)
      → Dict (Entity D M)
      → Engine D M
      → Outcome (Engine D M × List GlobalChange)
  unfolding tick_entity
  tick_entities env again [] en = done (en, [])
  tick_entities env again ((name, entity) ∷ entities) en = do
    (en₁, calls) ← tick_entity (env name) (again name) name entity en
    (en₂, more) ← tick_entities env again entities en₁
    done (en₂, calls ++ more)

  -- One round of tickLoop: the snapshot is taken under the lock, and the checks run without it.
  -- again is what the surroundings answer to a restart.
  unfoldable pub tick :
      (Text → ℕ → E) → (Text → ℕ → E) → ℕ → Engine D M → Outcome (Engine D M × List GlobalChange)
  unfolding with_lock tick_entities
  tick env again elapsed en = do
    (en₁, snapshot) ← with_lock (λ en'. done (en', en'.entities)) en
    (en₂, calls) ← tick_entities env again snapshot en₁
    done (record en₂ { uptime_ms = elapsed }, calls)
