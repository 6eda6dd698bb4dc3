-- ===== src/Engine.antt =====
-- src/phm_engine.cpp: the engine that owns the entities. The calls of one thread are modelled, with
-- mutex_ as a flag: a std::mutex that its own thread locks again never returns. env name n is what
-- the surroundings answer the monitor at position n of the entity name. onEntityStateChanged is
-- the state-change callback of every entity that the engine holds, and is run on the calls that an
-- entity's operation returns, before the engine goes on. The data reporter that the constructor
-- makes, and collectAndReport, which a tick calls and which touches nothing but that reporter, are
-- kept apart in Engine/Collect.
pub mod Run
pub mod Lock
pub mod Free
pub mod Collect
pub mod GlobalState
pub mod Registry
pub mod Threads
pub mod Loaded
use phm.Base.{
  ℕ, ◌+◌, zero, suc, Bool, true, false, ◌&&◌, not, if◌then◌else◌, ltb, Text, is_empty, Dict, lookup,
  insert, erase, keys, List, [], ◌∷◌, ◌++◌, length, map, Option, none, some, Outcome, done, failed,
  self_deadlock, ◌>>=◌,
}
use phm.Types.{
  SeState, init, running, fatal, SeConfig, PhmConfig, PhmEvent, EngineStats, Doubles,
  se_state_to_index, same_state,
}
use phm.Monitor.{IMonitor}
use phm.Entity
use phm.Entity.Calls
use phm.Entity.{Entity, Change}

pub record Engine (D M : Type 0) : Type 0 where
  pub config : PhmConfig
  pub config_path : Text
  pub running : Bool
  pub uptime_ms : ℕ
  pub locked : Bool
  pub entities : Dict (Entity D M)
  pub global_state_cb : Bool

-- One call of the global-state callback: the old state and the new one.
pub record GlobalChange : Type 0 where
  pub old_state : SeState
  pub new_state : SeState

module _ {D M : Type 0} where
  unfoldable pub create : PhmConfig → Engine D M
  create c = record {
    config = c;
    config_path = [];
    running = false;
    uptime_ms = 0;
    locked = false;
    entities = [];
    global_state_cb = false;
  }

  -- std::lock_guard<std::mutex> lock(mutex_), up to the end of its block.
  unfoldable pub with_lock :
      {A : Type 0} → (Engine D M → Outcome (Engine D M × A)) → Engine D M → Outcome (Engine D M × A)
  with_lock body en = if en.locked then failed self_deadlock else (do
    (en', a) ← body (record en { locked = true })
    done (record en' { locked = false }, a))

  -- The loop of getGlobalState.
  unfoldable pub worst_state : SeState → Dict (Entity D M) → SeState
  worst_state worst [] = worst
  worst_state worst ((name, entity) ∷ entities) =
      worst_state
        (if ltb (se_state_to_index worst) (se_state_to_index entity.current_state)
          then entity.current_state
          else worst)
        entities

  unfoldable pub get_global_state : Engine D M → Outcome (Engine D M × SeState)
  unfolding with_lock
  get_global_state en = with_lock (λ en'. done (en', worst_state running en'.entities)) en

  unfoldable pub on_entity_state_changed :
      Engine D M → Change → Outcome (Engine D M × List GlobalChange)
  on_entity_state_changed en change = do
    (en₁, old_global) ← get_global_state en
    (en₂, new_global) ← get_global_state en₁
    done (
      en₂,
      (if not (same_state old_global new_global) && en₂.global_state_cb
          then record { old_state = old_global; new_state = new_global } ∷ []
          else []),
    )

  -- The callback, for each of the calls in turn.
  unfoldable pub notify : Engine D M → List Change → Outcome (Engine D M × List GlobalChange)
  notify en [] = done (en, [])
  notify en (change ∷ changes) = do
    (en₁, calls) ← on_entity_state_changed en change
    (en₂, more) ← notify en₁ changes
    done (en₂, calls ++ more)

  unfoldable pub set_entity : Engine D M → Text → Entity D M → Engine D M
  set_entity en name entity = record en { entities = insert name entity en.entities }

  unfoldable pub add_supervised_entity :
      Doubles D → Engine D M → SeConfig D → Outcome (Engine D M × Bool)
  unfolding with_lock set_entity
  add_supervised_entity d en cfg =
      with_lock
        (λ en'. elim (lookup cfg.name en'.entities) [
          | some other ↦ done (en', false)
          | none ↦ done (
            set_entity en' cfg.name (Entity.set_state_change_callback (Entity.create d cfg) true),
            true,
          )
        ])
        en

  -- A null pointer is none.
  unfoldable pub register_entity : Engine D M → Option (Entity D M) → Outcome (Engine D M × Bool)
  unfolding with_lock set_entity
  register_entity en none = done (en, false)
  register_entity en (some entity) =
      with_lock
        (λ en'. elim (lookup entity.config.name en'.entities) [
          | some other ↦ done (en', false)
          | none ↦ done (
            set_entity en' entity.config.name (Entity.set_state_change_callback entity true),
            true,
          )
        ])
        en

  unfoldable pub is_running : Engine D M → Bool
  is_running en = en.running

  unfoldable pub get_entity : Engine D M → Text → Outcome (Engine D M × Option (Entity D M))
  unfolding with_lock
  get_entity en name = with_lock (λ en'. done (en', lookup name en'.entities)) en

  unfoldable pub get_entity_names : Engine D M → Outcome (Engine D M × List Text)
  unfolding with_lock
  get_entity_names en = with_lock (λ en'. done (en', keys en'.entities)) en

  -- The loop of getStats.
  unfoldable pub count_entities : Dict (Entity D M) → EngineStats → EngineStats
  count_entities [] stats = stats
  count_entities ((name, entity) ∷ entities) stats = count_entities entities (record stats {
    total_monitors = stats.total_monitors + length entity.monitors;
    active_entities =
        (if same_state entity.current_state init
          then stats.active_entities
          else stats.active_entities + 1);
  })

  unfoldable pub get_stats : Engine D M → Outcome (Engine D M × EngineStats)
  unfolding with_lock count_entities
  get_stats en =
      with_lock
        (λ en'. do
          (en₁, global) ← get_global_state en'
          done (
            en₁,
            record (count_entities en₁.entities (record {
              total_entities = length en₁.entities;
              active_entities = 0;
              total_monitors = 0;
              pending_events = 0;
              global_state = global;
              uptime_ms = 0;
            })) { uptime_ms = en₁.uptime_ms },
          ))
        en

  -- Both are stubs in the code.
  unfoldable pub get_all_events : Engine D M → List PhmEvent
  get_all_events en = []

  unfoldable pub acknowledge_events : Engine D M → List Text → Engine D M
  acknowledge_events en event_ids = en

  unfoldable pub set_global_state_callback : Engine D M → Bool → Engine D M
  set_global_state_callback en cb = record en { global_state_cb = cb }

  -- The loop of loadConfiguration: an entity that cannot be added is passed over.
  unfoldable pub add_all : Doubles D → Engine D M → List (SeConfig D) → Outcome (Engine D M)
  add_all d en [] = done en
  add_all d en (cfg ∷ cfgs) = do r ← add_supervised_entity d en cfg; add_all d r.0 cfgs

  -- parsed is what ConfigParser makes of the file, none if it throws.
  unfoldable pub load_configuration :
      Doubles D
      → Engine D M
      → Text
      → Option (PhmConfig × List (SeConfig D))
      → Outcome (Engine D M × Bool)
  unfolding add_all
  load_configuration d en path none = done (en, false)
  load_configuration d en path (some (global, cfgs)) = do
    en' ← add_all d (record en { config = global }) cfgs
    done (record en' { config_path = path }, true)

  unfoldable pub reload_configuration :
      Doubles D → Engine D M → Option (PhmConfig × List (SeConfig D)) → Outcome (Engine D M × Bool)
  unfolding load_configuration
  reload_configuration d en parsed =
      if is_empty en.config_path
      then done (en, false)
      else load_configuration d en en.config_path parsed
