-- ===== src/Tests/Threads.antt =====
-- The theorems on the worker of the engine, at concrete inputs.
use phm.Base.{
  update, ℕ, ◌≤◌, ◌≡◌, ◌⊎◌, refl, arith, true, false, codes, text_eq, lookup, List, [], ◌∷◌, some,
  failed, null_dereference, Text,
}
use phm.Monitor.{IMonitor}
use phm.Monitors.Surroundings.{Surroundings}
use phm.Monitors.Lifecycle
use phm.Monitors.Lifecycle.{ProcessLifecycleMonitor}
use phm.Monitors.Resource
use phm.Monitors.Resource.{ResourceMonitor}
use phm.Monitors.Builtin.{Builtin, monitor}
use phm.Entity.{Entity}
use phm.Entity
use phm.Engine.{create}
use phm.Engine.Collect.Ticks.{Reports}
use phm.Engine.Threads.{
  starts_silently, addresses, start_each, absent, ended, testing, sweeping, joining, outside,
  System, sweep_entity, WorkerStep, leave, Step, starts, clears, Reach, new_engine, later,
}
use phm.Engine.Threads.Joins.{Fits, Reach-Fits, is_live}
use phm.Engine.Threads.Ends.{steps_left, Run, still, more, NeverFails, Run-ends}
use phm.Engine.Threads.Races.{removes-crash}
use phm.Tests.Data.{nats, lonely, web_config}
use phm.Tests.Platform.{res_watch}
use phm.Tests.Reporter.{reporter}

abbrev checker : IMonitor ℕ (ProcessLifecycleMonitor ℕ) (Surroundings ℕ)
checker = Lifecycle.monitor ℕ

abbrev nowhere : Entity ℕ (ProcessLifecycleMonitor ℕ)
nowhere = Entity.create nats web_config

abbrev fresh : System ℕ (ProcessLifecycleMonitor ℕ)
fresh = record {
  running = false;
  worker = absent;
  names = [];
  store = λ a. nowhere;
  next_address = 0;
  client = λ k. outside;
}

-- An engine that was started without entities, and in which a client has then called stop.
abbrev started : System ℕ (ProcessLifecycleMonitor ℕ)
started = record fresh { running = true; worker = testing }

abbrev stopping_one : System ℕ (ProcessLifecycleMonitor ℕ)
stopping_one = record started { running = false; client = update started.client 0 joining }

fresh-Reach : Reach checker 1 nowhere fresh
fresh-Reach = new_engine

started-Reach : Reach checker 1 nowhere started
unfolding starts_silently addresses start_each
started-Reach = later fresh-Reach (starts 0 (λ a n. lonely) (omega arith) refl refl refl refl)

stopping_one-Reach : Reach checker 1 nowhere stopping_one
stopping_one-Reach = later started-Reach (clears 0 (omega arith) refl refl)

Reach-Fits_example : Fits (stopping_one.client 0) stopping_one.running stopping_one.worker
Reach-Fits_example = Reach-Fits checker nowhere stopping_one-Reach

checks_return : NeverFails checker
unfolding Lifecycle.monitor
checks_return env m = tt

abbrev left : System ℕ (ProcessLifecycleMonitor ℕ)
left = record stopping_one { worker = ended }

last_step : Run checker stopping_one 1 left
last_step = more still (leave refl refl)

Run-ends_example :
    (1 ≤ steps_left stopping_one.worker stopping_one)
    × ((is_live left.worker ≡ false)
        ⊎ ((u : System ℕ (ProcessLifecycleMonitor ℕ)) × WorkerStep checker left u))
Run-ends_example = Run-ends checker checks_return lonely 1 last_step refl

-- A worker that is about to check an entity with a resource monitor.
abbrev measured : Entity ℕ (ResourceMonitor ℕ)
measured = record (Entity.create nats web_config) { monitors = res_watch ∷ [] }

abbrev busy : System ℕ (ResourceMonitor ℕ)
busy = record {
  running = true;
  worker = sweeping (0 ∷ []);
  names = (codes "web", 0) ∷ [];
  store = λ a. measured;
  next_address = 1;
  client = λ k. outside;
}

removes-crash_example :
    (t : System ℕ (ResourceMonitor ℕ)) × Step (Resource.monitor nats) 1 busy t
    × (t.worker ≡ sweeping (0 ∷ []))
    × (sweep_entity (Resource.monitor nats) (λ n. lonely) (λ n. lonely) (t.store 0)
        ≡ failed null_dereference)
unfolding lookup text_eq
removes-crash_example =
    removes-crash nats 1 0 busy (codes "web") 0 [] (λ n. lonely) (λ n. lonely) (omega arith) refl
      refl refl refl

abbrev reports : Reports (List Text) ℕ
reports = record { files = []; reporter = some reporter; writes = []; uploads = [] }
