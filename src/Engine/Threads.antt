-- ===== src/Engine/Threads.antt =====
-- src/phm_engine.cpp: the worker thread and the threads that call the engine, interleaved. A step is
-- one critical section of mutex_, one test of running_, or what tickLoop does with one entity; a
-- call that never returns (Engine/Lock) takes no step. Entities are shared objects: the map holds
-- addresses, and so does the snapshot of tickLoop. Callbacks change nothing here,
-- and the reports of a round are in Engine/Collect/Ticks.
pub mod Joins
pub mod Ends
pub mod Races
pub mod Agrees
use phm.Base.{
  update, ℕ, suc, ◌+◌, ◌<◌, ◌==◌, ◌&&◌, if◌then◌else◌, Bool, true, false, ◌≡◌, ◌⊎◌, Text, Dict,
  lookup, insert, erase, List, [], ◌∷◌, ◌++◌, Option, none, some, Outcome, done, ◌>>=◌,
}
use phm.Types.{SeConfig, fatal, same_state}
use phm.Monitor.{IMonitor}
use phm.Entity.{Entity, Change}
use phm.Entity.Calls

-- worker_: no thread, or a thread and where it stands in tickLoop, with the addresses of the
-- snapshot that are left. A thread that has ended waits to be joined.
pub data Worker : Type 0 where
  absent testing locking ended : Worker
  sweeping : List ℕ → Worker

-- A thread that calls the engine: outside, or in stop, before worker_.join() and before the entities
-- are stopped.
pub data Client : Type 0 where
  outside joining stopping : Client

pub record System (D M : Type 0) : Type 0 where
  pub running : Bool
  pub worker : Worker
  pub names : Dict ℕ
  pub store : ℕ → Entity D M
  pub next_address : ℕ
  pub client : ℕ → Client

-- The values of the map, in the order of the names.
unfoldable pub addresses : Dict ℕ → List ℕ
addresses [] = []
addresses ((name, a) ∷ m) = a ∷ addresses m

module _ {D M : Type 0} where
  -- A new object in the map.
  unfoldable pub add : Text → Entity D M → System D M → System D M
  add name entity s = record s {
    names = insert name s.next_address s.names;
    store = update s.store s.next_address entity;
    next_address = s.next_address + 1;
  }

module _ {D M E : Type 0} (i : IMonitor D M E) where
  -- What tickLoop does with one entity of the snapshot, with the calls of its callback.
  unfoldable pub sweep_entity : (ℕ → E) → (ℕ → E) → Entity D M → Outcome (Entity D M × List Change)
  sweep_entity env again entity = do
    (entity₁, events, changes) ← Calls.check_all i env entity
    if same_state entity₁.current_state fatal && entity₁.config.auto_restart
        then (do
          let (entity₂, ok, more) = Calls.start i again (Calls.reset i entity₁)
          done (entity₂, changes ++ more))
        else done (entity₁, changes)

  -- The loop of start over the entities; no entity may call back.
  unfoldable pub start_each : (ℕ → ℕ → E) → List ℕ → (ℕ → Entity D M) → (ℕ → Entity D M)
  start_each env [] store = store
  start_each env (a ∷ rest) store = start_each env rest (
      if (store a).config.enabled
      then update store a (Calls.start i (env a) (store a)).0
      else store)

  -- No entity that start starts calls back.
  unfoldable pub starts_silently : (ℕ → ℕ → E) → List ℕ → (ℕ → Entity D M) → Bool
  starts_silently env [] store = true
  starts_silently env (a ∷ rest) store =
      (if (store a).config.enabled
        then elim (Calls.start i (env a) (store a)).2 [ [] ↦ true | ◌∷◌ c cs ↦ false ]
        else true)
      && starts_silently env rest store

  -- The loop of stop over the entities.
  unfoldable pub stop_each : List ℕ → (ℕ → Entity D M) → (ℕ → Entity D M)
  stop_each [] store = store
  stop_each (a ∷ rest) store = stop_each rest (update store a (Calls.stop i (store a)))

  -- The object stays with those who still point to it.
  unfoldable pub remove : Text → ℕ → System D M → System D M
  remove name a s = record s {
    names = erase name s.names;
    store = update s.store a (Calls.stop i (s.store a));
  }

  -- One step of tickLoop.
  pub data WorkerStep (s : System D M) : System D M → Type 0 where
    -- while (running_)
    go_on : s.worker ≡ testing → s.running ≡ true → WorkerStep s (record s { worker = locking })
    leave : s.worker ≡ testing → s.running ≡ false → WorkerStep s (record s { worker = ended })
    snapshot :
        s.worker ≡ locking → WorkerStep s (record s { worker = sweeping (addresses s.names) })
    sweep :
        (env again : ℕ → E) (a : ℕ) (rest : List ℕ) (entity : Entity D M) (changes : List Change)
        → s.worker ≡ sweeping (a ∷ rest)
        → sweep_entity env again (s.store a) ≡ done (entity, changes)
        → WorkerStep s (record s { worker = sweeping rest; store = update s.store a entity })
    swept : s.worker ≡ sweeping [] → WorkerStep s (record s { worker = testing })

  -- One step, with n threads that call the engine.
  pub data Step (n : ℕ) (s : System D M) : System D M → Type 0 where
    works : {t : System D M} → WorkerStep s t → Step n s t
    -- addSupervisedEntity and registerEntity, where the name is free
    adds :
        (k : ℕ) (name : Text) (entity : Entity D M)
        → k < n
        → s.client k ≡ outside
        → lookup name s.names ≡ none
        → Step n s (add name entity s)
    removes :
        (k : ℕ) (name : Text) (a : ℕ)
        → k < n
        → s.client k ≡ outside
        → lookup name s.names ≡ some a
        → Step n s (remove name a s)
    -- start, where no thread waits to be joined
    starts :
        (k : ℕ) (env : ℕ → ℕ → E)
        → k < n
        → s.client k ≡ outside
        → s.running ≡ false
        → starts_silently env (addresses s.names) s.store ≡ true
        → s.worker ≡ absent
        → Step n s (record s {
          running = true;
          worker = testing;
          store = start_each env (addresses s.names) s.store;
        })
    -- stop: running_ is cleared, the worker joined if there is one, and the entities stopped
    clears :
        (k : ℕ)
        → k < n
        → s.client k ≡ outside
        → s.running ≡ true
        → Step n s (record s { running = false; client = update s.client k joining })
    joins :
        (k : ℕ)
        → k < n
        → s.client k ≡ joining
        → (s.worker ≡ ended) ⊎ (s.worker ≡ absent)
        → Step n s (record s { worker = absent; client = update s.client k stopping })
    stops :
        (k : ℕ)
        → k < n
        → s.client k ≡ stopping
        → Step n s (record s {
          store = stop_each (addresses s.names) s.store;
          client = update s.client k outside;
        })

  -- What n threads can make of a new engine.
  pub data Reach (n : ℕ) (nowhere : Entity D M) : System D M → Type 0 where
    new_engine : Reach n nowhere (record {
      running = false;
      worker = absent;
      names = [];
      store = λ a. nowhere;
      next_address = 0;
      client = λ k. outside;
    })
    later : {s t : System D M} → Reach n nowhere s → Step n s t → Reach n nowhere t
